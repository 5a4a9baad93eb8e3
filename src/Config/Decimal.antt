-- ===== src/Config/Decimal.antt =====
-- `parse_decimal` of src/gateway_config.c, which tests for overflow before each digit, against a
-- reading of the whole number that is compared with the bounds at the end.
use nanokvm_rdp.Prelude.{
  ℕ, ◌+◌, ◌-◌, ◌*◌, ◌/◌, ◌^◌, ◌<◌, ◌≤◌, ◌≡◌, refl, ap, ◌∙◌, true, false, ◌&&◌, ◌||◌, List, [], ◌∷◌,
  Option, none, some, ltb, leb, if◌then◌else◌, add_u64, sub_u64, mul_u64, arith, Bool-cases, inl,
  inr,
}
use nanokvm_rdp.Config.{read_digits, in_range, parse_decimal}

-- The number that the digits stand for behind a number, if all are digits.
unfoldable pub number_of : ℕ → List ℕ → Option ℕ
number_of result [] = some result
number_of result (character ∷ text) =
    let rest = number_of (result * 10 + (character - b'0')) text in
    if leb b'0' character && leb character b'9' then rest else none

abbrev pub up_to : ℕ → Option ℕ → Option ℕ
up_to maximum none = none
up_to maximum (some n) = if leb n maximum then some n else none

abbrev pub from : ℕ → Option ℕ → Option ℕ
from minimum none = none
from minimum (some n) = if leb minimum n then some n else none

abbrev pub reference : List ℕ → ℕ → ℕ → Option ℕ
reference [] minimum maximum = none
reference (character ∷ text) minimum maximum =
    from minimum (up_to maximum (number_of 0 (character ∷ text)))

-- More digits make no number smaller.
number_of-above :
    (maximum result : ℕ) (text : List ℕ)
    → maximum < result
    → up_to maximum (number_of result text) ≡ none
unfolding number_of
number_of-above maximum result [] h = ground (arith, h)
number_of-above maximum result (character ∷ text) h =
    elim (Bool-cases (leb b'0' character && leb character b'9')) [
      | inl e ↦
          rw e (number_of-above maximum (result * 10 + (character - b'0')) text (omega (arith, h)))
      | inr e ↦ rw e refl
    ]

read_digits-number_of :
    (maximum result : ℕ) (text : List ℕ)
    → 9 ≤ maximum
    → maximum < 2 ^ 64
    → result ≤ maximum
    → read_digits maximum result text ≡ up_to maximum (number_of result text)
unfolding read_digits number_of
read_digits-number_of maximum result [] low high h = ground (arith, h)
read_digits-number_of maximum result (character ∷ text) low high h =
    let digit = character - b'0' in
    let wide = sub_u64 maximum digit / 10 in
    elim (Bool-cases (leb b'0' character && leb character b'9')) [
      | inr e ↦
          let other : ltb character b'0' || ltb b'9' character ≡ true = ground (arith, e) in
          rw (e, other) refl
      | inl e ↦
          let is_digit : ltb character b'0' || ltb b'9' character ≡ false = ground (arith, e) in
          let small : digit ≤ 9 = ground (arith, e) in
          let exact : sub_u64 maximum digit ≡ maximum - digit = omega (arith, small) in
          elim (Bool-cases (ltb wide result)) [
            | inl c ↦
                let over : maximum < result * 10 + digit = ground (arith, c, exact) in
                rw (e, is_digit, c, number_of-above maximum (result * 10 + digit) text over) refl
            | inr c ↦
                let fits : result * 10 + digit ≤ maximum = ground (arith, c, exact) in
                let same : add_u64 (mul_u64 result 10) digit ≡ result * 10 + digit =
                  omega (arith, fits) in
                rw (e, is_digit, c, same)
                  (read_digits-number_of maximum (result * 10 + digit) text low high fits)
          ]
    ]

in_range-up_to :
    (minimum maximum : ℕ) (o : Option ℕ)
    → in_range minimum maximum (up_to maximum o) ≡ from minimum (up_to maximum o)
unfolding in_range
in_range-up_to minimum maximum none = refl
in_range-up_to minimum maximum (some n) = ground arith

-- For bounds of 9 at least, the parser of an unsigned decimal number takes a text just when it is
-- not empty, all its bytes are digits, and the number they stand for is within the bounds, however
-- many digits there are; it then returns this number.
pub parse_decimal-number_of :
    (text : List ℕ) (minimum maximum : ℕ)
    → 9 ≤ maximum
    → maximum < 2 ^ 64
    → parse_decimal text minimum maximum ≡ reference text minimum maximum
unfolding parse_decimal
parse_decimal-number_of [] minimum maximum low high = refl
parse_decimal-number_of (character ∷ text) minimum maximum low high =
    ap (in_range minimum maximum)
      (read_digits-number_of maximum 0 (character ∷ text) low high (omega arith))
    ∙ in_range-up_to minimum maximum (number_of 0 (character ∷ text))
