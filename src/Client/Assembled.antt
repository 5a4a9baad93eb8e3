-- ===== src/Client/Assembled.antt =====
-- The access unit of src/rtp_client.c: its memory and its start.
use native.Mathlib.Nat.{pow-suc}
use nanokvm_rdp.Prelude.{
  ℕ, zero, suc, ◌+◌, ◌*◌, ◌/◌, ◌^◌, ◌≤◌, ◌≡◌, refl, ◌⊎◌, inl, inr, Bool, true, false, ◌||◌, not,
  List, [], ◌∷◌, ◌++◌, length, take, ltb, ◌==◌, if◌then◌else◌, arith, sub_u64, mul_u64, ap,
  Bool-cases, length-append, length-take,
}
use nanokvm_rdp.Rtp.Packetizer.{max_nal}
use nanokvm_rdp.Rtp.Context.{Keeps}
use nanokvm_rdp.Client.{
  Context, doubled, grow_access_unit, append_access_unit, start_code, in_access_unit, save_nal,
  count_loss, callbacks,
}

-- The access unit stands in its buffer, which is no larger than the largest NAL unit, and is empty
-- or begins with a start code.
pub record IsAssembled (client : Context) : Type 0 where
  pub in_capacity : length client.access_unit ≤ client.access_unit_capacity
  pub in_limit : client.access_unit_capacity ≤ max_nal
  pub starts : (client.access_unit ≡ []) ⊎ (take 4 client.access_unit ≡ start_code)

-- Doubling up to the limit reaches what is needed, and does not pass the limit.
grow_access_unit-reaches :
    (fuel capacity needed : ℕ)
    → needed ≤ max_nal
    → capacity ≤ max_nal
    → needed ≤ capacity * 2 ^ fuel
    → let c = grow_access_unit fuel capacity needed in (needed ≤ c) × (c ≤ max_nal)
unfolding grow_access_unit
grow_access_unit-reaches zero capacity needed hn hi enough = omega arith
grow_access_unit-reaches (suc fuel) capacity needed hn hi enough =
    elim (Bool-cases (ltb capacity needed)) [
      | inr done ↦ rw (done, grow_access_unit) (ground arith)
      | inl more ↦
          rw (more, grow_access_unit)
            (grow_access_unit-reaches fuel (doubled capacity) needed hn (ground arith) further)
    ]
  where
    further : needed ≤ doubled capacity * 2 ^ fuel
    further = elim (Bool-cases (ltb (max_nal / 2) capacity)) [
      | inl over ↦ rw over (ground (arith, at_limit (2 ^ fuel) (pow_pos fuel)))
      | inr under ↦ rw under (twice (ground arith))
    ]
      where
        at_limit : (n : ℕ) → 1 ≤ n → max_nal ≤ max_nal * n
        at_limit n h = omega arith

        pow_pos : (n : ℕ) → 1 ≤ 2 ^ n
        pow_pos zero = omega arith
        pow_pos (suc n) = omega (arith, pow-suc 2 n, pow_pos n)

        twice : capacity ≤ max_nal / 2 → needed ≤ mul_u64 capacity 2 * 2 ^ fuel
        twice h =
            let same : mul_u64 capacity 2 ≡ capacity * 2 = omega arith in
            rw same (omega (arith, enough, ap (λ (t : ℕ). capacity * t) (pow-suc 2 fuel)))

-- What an append comes to.
pub data Appends (client : Context) (bytes : List ℕ) (out : Bool × Context) : Type 0 where
  refused : out ≡ (false, client) → Appends client bytes out
  appended :
      (capacity : ℕ)
      → out ≡ (
        true,
        record client {
          access_unit = client.access_unit ++ bytes;
          access_unit_capacity = capacity;
        },
      )
      → length (client.access_unit ++ bytes) ≤ capacity
      → capacity ≤ max_nal
      → Appends client bytes out

pub append_access_unit-Appends :
    (alloc : ℕ → Bool) (client : Context) (bytes : List ℕ)
    → IsAssembled client
    → Appends client bytes (append_access_unit alloc client bytes)
unfolding append_access_unit
append_access_unit-Appends alloc client bytes v =
    elim (Bool-cases (ltb (sub_u64 max_nal held) (length bytes))) [
      | inl over ↦ rw over (refused refl)
      | inr fits ↦ elim (Bool-cases (ltb client.access_unit_capacity needed)) [
        | inr room ↦
            rw (fits, room)
              (appended client.access_unit_capacity refl
                (ground (arith, length-append client.access_unit bytes)) v.in_limit)
        | inl more ↦ elim (Bool-cases (alloc capacity)) [
          | inr out ↦ rw (fits, more, out) (refused refl)
          | inl got ↦
              rw (fits, more, got)
                (appended capacity refl
                  (omega (arith, length-append client.access_unit bytes, reached (within fits)))
                  (omega (arith, reached (within fits))))
        ]
      ]
    ]
  where
    held : ℕ
    held = length client.access_unit

    needed : ℕ
    needed = held + length bytes

    hinted : ℕ
    hinted =
        if client.access_unit_capacity == 0
        then client.access_unit_capacity_hint
        else client.access_unit_capacity

    first : ℕ
    first = if ltb hinted 4096 || ltb max_nal hinted then 4096 else hinted

    capacity : ℕ
    capacity = grow_access_unit 64 first needed

    within : ltb (sub_u64 max_nal held) (length bytes) ≡ false → needed ≤ max_nal
    within h = ground (arith, v.in_capacity, v.in_limit)

    first_in : (4096 ≤ first) × (first ≤ max_nal)
    first_in = ground arith

    reached : needed ≤ max_nal → (needed ≤ capacity) × (capacity ≤ max_nal)
    reached h = grow_access_unit-reaches 64 first needed h first_in.1 (omega (arith, first_in.0))

take-append_long : (n : ℕ) (xs ys : List ℕ) → n ≤ length xs → take n (xs ++ ys) ≡ take n xs
take-append_long zero xs ys h = refl
take-append_long (suc n) [] ys h = absurd (omega arith)
take-append_long (suc n) (x ∷ xs) ys h = ap (λ l. x ∷ l) (take-append_long n xs ys (omega arith))

starts-length : (xs : List ℕ) → take 4 xs ≡ start_code → 4 ≤ length xs
starts-length xs e = omega (arith, length-take 4 xs, ap length e)

-- A start code in front of nothing is one, and what follows it changes nothing.
pub appended-IsAssembled :
    {client : Context} {out : Bool × Context} (bytes : List ℕ)
    → IsAssembled client
    → (client.access_unit ≡ []) ⊎ (take 4 client.access_unit ≡ start_code)
    → (take 4 bytes ≡ start_code) ⊎ (take 4 client.access_unit ≡ start_code)
    → Appends client bytes out
    → IsAssembled out.1
appended-IsAssembled bytes v _ h (refused e) = rw e v
appended-IsAssembled {client} bytes v _ (inr old) (appended capacity e room fits) = rw e (record {
  in_capacity = room;
  in_limit = fits;
  starts = inr (rw (take-append_long 4 client.access_unit bytes (starts-length _ old)) old);
})
appended-IsAssembled {client} bytes v (inr old) (inl new) (appended capacity e room fits) =
    rw e (record {
      in_capacity = room;
      in_limit = fits;
      starts = inr (rw (take-append_long 4 client.access_unit bytes (starts-length _ old)) old);
    })
appended-IsAssembled {client} bytes v (inl empty) (inl new) (appended capacity e room fits) =
    rw e (record { in_capacity = room; in_limit = fits; starts = inr (rw empty new) })

pub in_access_unit-IsAssembled :
    {client : Context} (timestamp : ℕ)
    → IsAssembled client
    → IsAssembled (in_access_unit client timestamp)
unfolding in_access_unit
in_access_unit-IsAssembled {client} timestamp v =
    elim (Bool-cases
      (not client.have_access_unit || not (client.access_unit_timestamp == timestamp))) [
        | inl fresh ↦
            rw fresh
              (record { in_capacity = omega arith; in_limit = v.in_limit; starts = inl refl })
        | inr same ↦ rw same v
      ]

-- After a start code was appended, the access unit begins with one.
started-starts :
    {client : Context} {out : Bool × Context}
    → IsAssembled client
    → Appends client start_code out
    → out.0 ≡ true
    → take 4 out.1.access_unit ≡ start_code
started-starts v (refused e) ok = absurd (cc)
started-starts {client} v (appended capacity e room fits) ok = elim v.starts [
  | inl empty ↦ rw (e, empty) refl
  | inr old ↦ rw (e, take-append_long 4 client.access_unit start_code (starts-length _ old)) old
]

pub save_nal-IsAssembled :
    (alloc : ℕ → Bool) (client : Context) (nal : List ℕ) (timestamp : ℕ) (marker : Bool)
    → IsAssembled client
    → IsAssembled (save_nal alloc client nal timestamp marker).1
unfolding save_nal
save_nal-IsAssembled alloc client nal timestamp marker v = elim (Bool-cases started.0) [
  | inr out ↦ rw out held
  | inl ok ↦ rw ok (
      appended-IsAssembled nal held held.starts (inr (started-starts fresh added ok))
        (append_access_unit-Appends alloc started.1 nal held))
]
  where
    started : Bool × Context
    started = append_access_unit alloc (in_access_unit client timestamp) start_code

    fresh : IsAssembled (in_access_unit client timestamp)
    fresh = in_access_unit-IsAssembled timestamp v

    added : Appends (in_access_unit client timestamp) start_code started
    added = append_access_unit-Appends alloc (in_access_unit client timestamp) start_code fresh

    held : IsAssembled started.1
    held = appended-IsAssembled start_code fresh fresh.starts (inl refl) added

pub callbacks-Keeps : (alloc : ℕ → Bool) → Keeps IsAssembled (callbacks alloc)
unfolding count_loss
callbacks-Keeps alloc = record {
  nal = λ s bytes timestamp marker h. save_nal-IsAssembled alloc s bytes timestamp marker h;
  loss = λ s h. record { in_capacity = omega arith; in_limit = h.in_limit; starts = inl refl };
}
