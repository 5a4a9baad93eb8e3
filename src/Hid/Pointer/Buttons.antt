-- ===== src/Hid/Pointer/Buttons.antt =====
-- The buttons that `hid_pointer_buttons` of src/hid.c leaves held.
use nanokvm_rdp.Prelude.{
  bool_eq, bool_eq-≡, ℕ, ◌-◌, ◌^◌, ◌<◌, ◌≡◌, refl, Bool, true, false, ◌&&◌, ◌||◌, not,
  if◌then◌else◌, ◌==◌, ltb, u8, bit_and, bit_or, arith, all_below, all_below-lt, Bool-cases, inl,
  inr, ◌∙◌,
}
use nanokvm_rdp.Hid.Pointer.{pointer_buttons, set_button, down}

-- Bit `i` of a word.
unfoldable pub held : ℕ → ℕ → Bool
held buttons i = not (bit_and buttons (2 ^ i) == 0)

pressed : ℕ → ℕ → ℕ → Bool
pressed k i b =
    ltb (u8 (bit_or b (2 ^ k))) 256
    && bool_eq (held (u8 (bit_or b (2 ^ k))) i) (if k == i then true else held b i)

released : ℕ → ℕ → ℕ → Bool
released k i b =
    ltb (bit_and b (255 - 2 ^ k)) 256
    && bool_eq (held (bit_and b (255 - 2 ^ k)) i) (if k == i then false else held b i)

table :
    all_below 5 (λ k. all_below 8 (λ i. all_below 256 (λ b. pressed k i b && released k i b)))
    ≡ true
unfolding all_below pressed released bool_eq held
table = refl

table-at : (k i b : ℕ) → k < 5 → i < 8 → b < 256 → pressed k i b && released k i b ≡ true
table-at k i b hk hi hb =
    all_below-lt (λ b. pressed k i b && released k i b) b 256 hb
      (all_below-lt (λ i. all_below 256 (λ b. pressed k i b && released k i b)) i 8 hi
        (all_below-lt (λ k. all_below 8 (λ i. all_below 256 (λ b. pressed k i b && released k i b)))
          k 5 hk table))

-- The flags set the bit of a button.
abbrev pub names : ℕ → ℕ → Bool
names flags flag = not (bit_and flags flag == 0)

abbrev pub is_down : ℕ → Bool
is_down flags = not (bit_and flags down == 0)

record Sets (flags flag k i before after : ℕ) : Type 0 where
  in_byte : after < 256
  bit : held after i ≡ (if names flags flag && k == i then is_down flags else held before i)

set_button-Sets :
    (flags flag k i b : ℕ)
    → k < 5
    → i < 8
    → b < 256
    → Sets flags flag k i b (set_button flags flag k b)
unfolding set_button pressed released
set_button-Sets flags flag k i b hk hi hb =
    let t = table-at k i b hk hi hb in
    elim (Bool-cases (bit_and flags flag == 0)) [
      | inl e ↦ rw e (record { in_byte = hb; bit = rw e })
      | inr e ↦ elim (Bool-cases (bit_and flags down == 0)) [
        | inl d ↦
            rw (e, d)
              (record {
                in_byte = ground (arith, t);
                bit = rw (e, d) (bool_eq-≡ _ _ (ground (arith, t)));
              })
        | inr d ↦
            rw (e, d)
              (record {
                in_byte = ground (arith, t);
                bit = rw (e, d) (bool_eq-≡ _ _ (ground (arith, t)));
              })
      ]
    ]

any-named :
    (one two three four five new old : Bool)
    → (if five
        then new
        else if four
        then new
        else if three
        then new
        else if two
        then new
        else if one
        then new
        else old)
      ≡ (if one || (two || (three || (four || five))) then new else old)
any-named one two three four five new old = ground arith

-- The flag of button `i`, if it is one of the five.
unfoldable pub named : ℕ → ℕ → Bool
named flags i =
    (names flags 0x1000 && 0 == i)
    || ((names flags 0x2000 && 1 == i)
        || ((names flags 0x4000 && 2 == i)
            || ((names flags 0x0001 && 3 == i) || (names flags 0x0002 && 4 == i))))

-- Of the eight bits of a button byte, those of the buttons that the flags name follow the `down`
-- flag, and all others stay as they were; the result is a byte.
pub pointer_buttons-held :
    (buttons flags i : ℕ)
    → buttons < 256
    → i < 8
    → (pointer_buttons buttons flags < 256)
      × (held (pointer_buttons buttons flags) i
          ≡ (if named flags i then is_down flags else held buttons i))
unfolding pointer_buttons named
pointer_buttons-held buttons flags i hb hi =
    let a = set_button-Sets flags 0x1000 0 i buttons (omega arith) hi hb in
    let b = set_button-Sets flags 0x2000 1 i _ (omega arith) hi a.in_byte in
    let c = set_button-Sets flags 0x4000 2 i _ (omega arith) hi b.in_byte in
    let d = set_button-Sets flags 0x0001 3 i _ (omega arith) hi c.in_byte in
    let e = set_button-Sets flags 0x0002 4 i _ (omega arith) hi d.in_byte in
    (
      e.in_byte,
      e.bit
          ∙ rw (d.bit, c.bit, b.bit, a.bit)
              (any-named (names flags 0x1000 && 0 == i) (names flags 0x2000 && 1 == i)
                (names flags 0x4000 && 2 == i) (names flags 0x0001 && 3 == i)
                (names flags 0x0002 && 4 == i) (is_down flags) (held buttons i)),
    )
