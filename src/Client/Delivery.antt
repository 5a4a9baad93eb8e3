-- ===== src/Client/Delivery.antt =====
-- A NAL unit on its way from the packetizer of src/rtp_h264.c into the access unit of
-- src/rtp_client.c, over a wire without loss and with `recv` interrupted at will.
use nanokvm_rdp.Prelude.{
  ℕ, ◌+◌, ◌≤◌, ◌≡◌, refl, Bool, true, false, ◌||◌, not, List, ◌++◌, length, ltb, ◌==◌,
  if◌then◌else◌, arith, sub_u64, Bool-cases, inl, inr, length-append, ap, ◌∙◌,
}
use nanokvm_rdp.Rtp.Packetizer.{max_nal}
use nanokvm_rdp.Client.{Context, append_access_unit, start_code, in_access_unit, save_nal}
use nanokvm_rdp.Client.Assembled.{
  IsAssembled, Appends, refused, appended, append_access_unit-Appends, save_nal-IsAssembled,
  appended-IsAssembled,
}

-- What an append that succeeds changes, and what it does not.
record Grown (client : Context) (bytes : List ℕ) (out : Bool × Context) : Type 0 where
  ok : out.0 ≡ true
  written : out.1.access_unit ≡ client.access_unit ++ bytes
  have : out.1.have_access_unit ≡ client.have_access_unit
  timestamp : out.1.access_unit_timestamp ≡ client.access_unit_timestamp
  losses : out.1.losses ≡ client.losses
  opened : out.1.opened ≡ client.opened

Appends-Grown :
    {client : Context} {bytes : List ℕ} {out : Bool × Context}
    → Appends client bytes out
    → out.0 ≡ true
    → Grown client bytes out
Appends-Grown (refused e) ok = absurd (cc)
Appends-Grown (appended capacity e room fits) ok = record {
  ok = ok;
  written = ap (λ (o : Bool × Context). o.1.access_unit) e;
  have = ap (λ (o : Bool × Context). o.1.have_access_unit) e;
  timestamp = ap (λ (o : Bool × Context). o.1.access_unit_timestamp) e;
  losses = ap (λ (o : Bool × Context). o.1.losses) e;
  opened = ap (λ (o : Bool × Context). o.1.opened) e;
}

-- The access unit of the timestamp, with the unit's start code and bytes behind it.
pub record Saved (client : Context) (timestamp : ℕ) (written : List ℕ) (client' : Context)
    : Type 0 where
  pub access_unit : client'.access_unit ≡ written
  pub have : client'.have_access_unit ≡ true
  pub same_timestamp : client'.access_unit_timestamp ≡ timestamp
  pub same_losses : client'.losses ≡ client.losses
  pub same_opened : client'.opened ≡ client.opened
  pub assembled : IsAssembled client'

in_access_unit-Saved :
    {client : Context} (timestamp : ℕ)
    → IsAssembled client
    → Saved client timestamp
        (in_access_unit client timestamp).access_unit
        (in_access_unit client timestamp)
unfolding in_access_unit
in_access_unit-Saved {client} timestamp v = elim (Bool-cases fresh) [
  | inl new ↦ rw new (record {
    access_unit = refl;
    have = refl;
    same_timestamp = refl;
    same_losses = refl;
    same_opened = refl;
    assembled = record { in_capacity = omega arith; in_limit = v.in_limit; starts = inl refl };
  })
  | inr old ↦ rw old (record {
    access_unit = refl;
    have = ground (arith, old);
    same_timestamp = ground (arith, old);
    same_losses = refl;
    same_opened = refl;
    assembled = v;
  })
]
  where
    fresh : Bool
    fresh = not client.have_access_unit || not (client.access_unit_timestamp == timestamp)

-- A unit that has its access unit already leaves it as it is.
pub Saved-in_access_unit :
    {client client' : Context} {timestamp : ℕ} {written : List ℕ}
    → Saved client timestamp written client'
    → in_access_unit client' timestamp ≡ client'
unfolding in_access_unit
Saved-in_access_unit {client} {client'} {timestamp} h =
    if_false _ client'
      (not client'.have_access_unit || not (client'.access_unit_timestamp == timestamp))
      (ground (arith, h.have, h.same_timestamp))
  where
    if_false : (a b : Context) (test : Bool) → test ≡ false → (if test then a else b) ≡ b
    if_false a b true e = absurd (cc)
    if_false a b false e = refl

module _ (alloc : ℕ → Bool) (allocates : (n : ℕ) → alloc n ≡ true) where
  append_access_unit-succeeds :
      (client : Context) (bytes : List ℕ)
      → length client.access_unit + length bytes ≤ max_nal
      → (append_access_unit alloc client bytes).0 ≡ true
  unfolding append_access_unit
  append_access_unit-succeeds client bytes h =
      elim (Bool-cases (ltb (sub_u64 max_nal (length client.access_unit)) (length bytes))) [
        | inl over ↦ absurd (ground arith)
        | inr fits ↦
            elim (Bool-cases
              (ltb client.access_unit_capacity (length client.access_unit + length bytes))) [
                | inr room ↦ rw (fits, room) refl
                | inl more ↦ simp (fits, more, allocates)
              ]
      ]

  append_access_unit-Grown :
      {client : Context} (bytes : List ℕ)
      → IsAssembled client
      → length client.access_unit + length bytes ≤ max_nal
      → Grown client bytes (append_access_unit alloc client bytes)
  append_access_unit-Grown {client} bytes v h =
      Appends-Grown (append_access_unit-Appends alloc client bytes v)
        (append_access_unit-succeeds client bytes h)

  pub save_nal-Saved :
      {client : Context} (nal : List ℕ) (timestamp : ℕ) (marker : Bool) (held : List ℕ)
      → IsAssembled client
      → (in_access_unit client timestamp).access_unit ≡ held
      → length held + 4 + length nal ≤ max_nal
      → let out = save_nal alloc client nal timestamp marker in
        (out.0 ≡ true) × Saved client timestamp (held ++ start_code ++ nal) out.1
  unfolding save_nal
  save_nal-Saved {client} nal timestamp marker held v waits fits = rw coded.ok (
    finished.ok,
    record {
      access_unit =
          finished.written
          ∙ ap (λ (l : List ℕ). l ++ nal)
              (coded.written ∙ ap (λ (l : List ℕ). l ++ start_code) waits);
      have = finished.have ∙ coded.have ∙ fresh.have;
      same_timestamp = finished.timestamp ∙ coded.timestamp ∙ fresh.same_timestamp;
      same_losses = finished.losses ∙ coded.losses ∙ fresh.same_losses;
      same_opened = finished.opened ∙ coded.opened ∙ fresh.same_opened;
      assembled = rw coded.ok at whole;
    },
  )
    where
      fresh :
          Saved client timestamp
            (in_access_unit client timestamp).access_unit
            (in_access_unit client timestamp)
      fresh = in_access_unit-Saved timestamp v

      coded :
          Grown
            (in_access_unit client timestamp)
            start_code
            (append_access_unit alloc (in_access_unit client timestamp) start_code)
      coded = append_access_unit-Grown start_code fresh.assembled (omega (arith, ap length waits))

      started : Context
      started = (append_access_unit alloc (in_access_unit client timestamp) start_code).1

      started_held : IsAssembled started
      started_held =
          appended-IsAssembled start_code fresh.assembled fresh.assembled.starts (inl refl) (
            append_access_unit-Appends alloc (in_access_unit client timestamp) start_code
              fresh.assembled)

      whole : IsAssembled (save_nal alloc client nal timestamp marker).1
      whole = save_nal-IsAssembled alloc client nal timestamp marker v

      finished : Grown started nal (append_access_unit alloc started nal)
      finished = append_access_unit-Grown nal started_held (
          omega (
            arith,
            ap length coded.written,
            ap length waits,
            length-append (in_access_unit client timestamp).access_unit start_code,
          ))
