-- ===== src/H264/Update.antt =====
-- From the update of the cache to an IDR behind the cached parameter sets (src/h264.c).
use mathlib.Core.Option.{some_inj}
use nanokvm_rdp.Prelude.{
  ℕ, ◌+◌, ◌^◌, ◌<◌, ◌≤◌, ◌≡◌, ◌≢◌, ◌⊎◌, refl, sym, ap₂, ◌∙◌, eq→==, ne→==, Bool, true, false, ◌&&◌,
  ◌||◌, not, List, ◌++◌, none, some, get_or, length, take, drop, ltb, leb, ◌==◌, bit_and, arith,
  Bool-cases, inl, inr, length-take, length-drop, get_or-take, get_or-drop,
}
use nanokvm_rdp.H264.{Buffer, ParameterSets, has_annexb_start_code, copy_annexb, prepare_idr}
use nanokvm_rdp.H264.Prepare.{in_front, prepare_idr_lem}
use nanokvm_rdp.H264.Cache.{buffer_copy_nal, parameter_sets_update}
use nanokvm_rdp.H264.Nal.{nal_start, find_nal, find_nal_lem}

-- A block is there where a buffer has room.
pub record IsBuffer (buffer : Buffer) : Type 0 where
  pub empty : buffer.present ≡ false → buffer.capacity ≡ 0

-- The bytes of a unit that was found.
abbrev pub unit_of : List ℕ → ℕ → ℕ → List ℕ
unit_of data_ start size = take size (drop start data_)

unit_at :
    (data_ : List ℕ) (start size k : ℕ)
    → k < size
    → get_or (unit_of data_ start size) k 0 ≡ get_or data_ (start + k) 0
unit_at data_ start size k h =
    get_or-take (drop start data_) size k h ∙ sym (get_or-drop data_ start k)

-- A unit has its start code and the byte of its type.
record IsUnit (bytes : List ℕ) (size : ℕ) : Type 0 where
  long : length bytes ≡ size
  some_bytes : 0 < size
  coded : has_annexb_start_code bytes ≡ true

-- The bytes at a start code.
record Coded (data_ : List ℕ) (start code : ℕ) : Type 0 where
  first : get_or data_ (start + 0) 0 ≡ 0
  second : get_or data_ (start + 1) 0 ≡ 0
  third :
      ((get_or data_ (start + 2) 0 ≡ 1) × (code ≡ 3))
      ⊎ ((get_or data_ (start + 2) 0 ≡ 0) × (get_or data_ (start + 3) 0 ≡ 1) × (code ≡ 4))

nal_start-Coded :
    (data_ : List ℕ) (start code : ℕ) → nal_start data_ start ≡ some code → Coded data_ start code
unfolding nal_start
nal_start-Coded data_ start code n =
    let at : ℕ → ℕ = λ k. get_or data_ (start + k) 0 in
    elim (Bool-cases (leb (length data_) (start + 3) || (not (at 0 == 0) || not (at 1 == 0)))) [
      | inl e ↦ absurd (let k : none ≡ some code = rw e at n in cc)
      | inr e ↦ elim (Bool-cases (at 2 == 1)) [
        | inl t ↦
            let k : some 3 ≡ some code = rw (e, t) at n in
            record {
              first = ground (arith, e);
              second = ground (arith, e);
              third = inl (ground (arith, t), sym (some_inj.0 k));
            }
        | inr t ↦
            elim (Bool-cases (not (leb (length data_) (start + 4)) && (at 2 == 0 && at 3 == 1))) [
              | inr f ↦ absurd (let k : none ≡ some code = rw (e, t, f) at n in cc)
              | inl f ↦
                  let k : some 4 ≡ some code = rw (e, t, f) at n in
                  record {
                    first = ground (arith, e);
                    second = ground (arith, e);
                    third = inr (ground (arith, f), ground (arith, f), sym (some_inj.0 k));
                  }
            ]
      ]
    ]

start-IsUnit :
    (data_ : List ℕ) (start size code : ℕ)
    → Coded data_ start code
    → start + code + 1 ≤ start + size
    → start + size ≤ length data_
    → IsUnit (unit_of data_ start size) size
unfolding has_annexb_start_code
start-IsUnit data_ start size code c low high =
    let at : (k : ℕ)
        → k < size
        → get_or (unit_of data_ start size) k 0 ≡ get_or data_ (start + k) 0 =
      unit_at data_ start size in
    let long : length (unit_of data_ start size) ≡ size =
      omega (arith, length-take size (drop start data_), length-drop start data_) in
    elim c.third [
      | inl (t, e) ↦ record {
        long = long;
        some_bytes = omega (arith, low, e);
        coded =
            rw
              (
                long,
                at 0 (omega (arith, low, e)),
                at 1 (omega (arith, low, e)),
                at 2 (omega (arith, low, e)),
                at 3 (omega (arith, low, e)),
                c.first,
                c.second,
                t,
              )
              (ground (arith, low, e));
      }
      | inr (t, f, e) ↦ record {
        long = long;
        some_bytes = omega (arith, low, e);
        coded =
            rw
              (
                long,
                at 0 (omega (arith, low, e)),
                at 1 (omega (arith, low, e)),
                at 2 (omega (arith, low, e)),
                at 3 (omega (arith, low, e)),
                c.first,
                c.second,
                t,
                f,
              )
              (ground (arith, low, e));
      }
    ]

find_nal-IsUnit :
    (data_ : List ℕ) (type start size : ℕ)
    → find_nal (length data_) data_ type 0 ≡ some (start, size)
    → IsUnit (unit_of data_ start size) size
find_nal-IsUnit data_ type start size e =
    let u = find_nal_lem (length data_) data_ type 0 start size e in
    start-IsUnit data_ start size u.code (nal_start-Coded data_ start u.code u.starts) u.ends.after
      u.ends.inside

-- The cached unit after a copy whose allocation succeeds.
record Caches (buffer : Buffer) (bytes : List ℕ) : Type 0 where
  present : buffer.present ≡ true
  bytes_in : buffer.bytes ≡ bytes

buffer_copy_nal-Caches :
    (alloc : ℕ → Bool) (buffer : Buffer) (data_ : List ℕ) (type start size : ℕ)
    → ((n : ℕ) → alloc n ≡ true)
    → IsBuffer buffer
    → find_nal (length data_) data_ type 0 ≡ some (start, size)
    → Caches (buffer_copy_nal alloc buffer data_ type).1 (unit_of data_ start size)
unfolding buffer_copy_nal
buffer_copy_nal-Caches alloc buffer data_ type start size allocates b e =
    let u = find_nal-IsUnit data_ type start size e in
    elim (Bool-cases (ltb buffer.capacity size)) [
      | inl g ↦
          rw (e, buffer_copy_nal, g, allocates size) (record { present = refl; bytes_in = refl })
      | inr g ↦ elim (Bool-cases buffer.present) [
        | inl p ↦ rw (e, buffer_copy_nal, g) (record { present = p; bytes_in = refl })
        | inr p ↦ absurd (ground (arith, g, b.empty p, u.some_bytes))
      ]
    ]

Caches-in_front :
    (buffer : Buffer) (bytes : List ℕ) (size mask type : ℕ)
    → Caches buffer bytes
    → IsUnit bytes size
    → bit_and mask (2 ^ type) ≡ 0
    → in_front buffer mask type ≡ bytes
unfolding copy_annexb
Caches-in_front buffer bytes size mask type c u m =
    rw
      (
        eq→== (bit_and mask (2 ^ type)) 0 m,
        c.present,
        c.bytes_in,
        ne→== (length bytes) 0 (λ e. omega (arith, u.long, u.some_bytes)),
        u.coded,
      )
      refl

-- An access unit that its mask says has an SPS and a PPS, and in which both are found, is put in the
-- cache; a later access unit whose mask has neither, prepared as an IDR, comes out behind exactly the
-- bytes of these two units, start codes included, the SPS first. The allocations succeed, and the
-- sizes fit the word.
pub prepare_idr-parameter_sets_update :
    (alloc : ℕ → Bool) (sets : ParameterSets) (au idr : List ℕ)
    (au_mask idr_mask sps sps_size pps pps_size : ℕ)
    → ((n : ℕ) → alloc n ≡ true)
    → IsBuffer sets.sps
    → IsBuffer sets.pps
    → find_nal (length au) au 7 0 ≡ some (sps, sps_size)
    → find_nal (length au) au 8 0 ≡ some (pps, pps_size)
    → bit_and au_mask (2 ^ 7) ≢ 0
    → bit_and au_mask (2 ^ 8) ≢ 0
    → bit_and idr_mask (2 ^ 7) ≡ 0
    → bit_and idr_mask (2 ^ 8) ≡ 0
    → sps_size + pps_size + length idr < 2 ^ 64
    → (prepare_idr alloc (parameter_sets_update alloc sets au au_mask) idr idr_mask).0
      ≡ some (unit_of au sps sps_size ++ (unit_of au pps pps_size ++ idr))
unfolding parameter_sets_update
prepare_idr-parameter_sets_update alloc sets au idr au_mask idr_mask sps sps_size pps pps_size
      allocates bs bp fs fp ms mp is ip small =
    let us = find_nal-IsUnit au 7 sps sps_size fs in
    let up = find_nal-IsUnit au 8 pps pps_size fp in
    let cached : ParameterSets = record sets {
      sps = (buffer_copy_nal alloc sets.sps au 7).1;
      pps = (buffer_copy_nal alloc sets.pps au 8).1;
    } in
    let front_s : in_front cached.sps idr_mask 7 ≡ unit_of au sps sps_size =
      Caches-in_front _ _ sps_size idr_mask 7
        (buffer_copy_nal-Caches alloc sets.sps au 7 sps sps_size allocates bs fs) us is in
    let front_p : in_front cached.pps idr_mask 8 ≡ unit_of au pps pps_size =
      Caches-in_front _ _ pps_size idr_mask 8
        (buffer_copy_nal-Caches alloc sets.pps au 8 pps pps_size allocates bp fp) up ip in
    let fits : length (in_front cached.sps idr_mask 7)
          + length (in_front cached.pps idr_mask 8)
          + length idr
        < 2 ^ 64 =
      rw (front_s, front_p) (omega (arith, us.long, up.long, small)) in
    let result = prepare_idr_lem alloc cached idr idr_mask fits in
    rw (ne→== (bit_and au_mask (2 ^ 7)) 0 ms, ne→== (bit_and au_mask (2 ^ 8)) 0 mp)
      (elim result.2 [
        | inl r ↦ r.0 ∙ ap₂ (λ a b. some (a ++ (b ++ idr))) front_s front_p
        | inr r ↦ absurd (let k : true ≡ false = sym (allocates _) ∙ r.2 in cc)
      ])
