-- ===== src/H264/Nal.antt =====
-- The search for a NAL unit by its type in src/h264.c.
use mathlib.Core.Option.{some_inj}
use nanokvm_rdp.Prelude.{
  ℕ, zero, suc, ◌+◌, ◌-◌, ◌<◌, ◌≤◌, ◌≡◌, ◌⊎◌, inl, inr, refl, false, ◌&&◌, ◌||◌, not, List, Option,
  none, some, get_or, length, leb, ◌==◌, if◌then◌else◌, bit_and, arith, Bool-cases, ap, sym, ◌∙◌,
  ==_iff, Option-cases,
}

-- The length of the start code at `index`, if one stands there.
unfoldable pub nal_start : List ℕ → ℕ → Option ℕ
nal_start data_ index =
    let at = λ (k : ℕ). get_or data_ (index + k) 0 in
    if leb (length data_) (index + 3) || (not (at 0 == 0) || not (at 1 == 0))
    then none
    else if at 2 == 1
    then some 3
    else if not (leb (length data_) (index + 4)) && (at 2 == 0 && at 3 == 1)
    then some 4
    else none

-- The loop to the end of a unit, over the `rounds` offsets that are left from `end` on.
unfoldable pub unit_end : ℕ → List ℕ → ℕ → ℕ
unit_end zero data_ end = length data_
unit_end (suc rounds) data_ end =
    let later = unit_end rounds data_ (end + 1) in
    if leb (length data_) (end + 2)
    then length data_
    else elim (nal_start data_ end) [ some k ↦ end | none ↦ later ]

-- The loop over the offsets: the place and the length of the first unit of the type.
unfoldable pub find_nal : ℕ → List ℕ → ℕ → ℕ → Option (ℕ × ℕ)
find_nal zero data_ type index = none
find_nal (suc rounds) data_ type index =
    let later = find_nal rounds data_ type (index + 1) in
    if leb (length data_) (index + 3) then none else elim (nal_start data_ index) [
      | none ↦ later
      | some k ↦
          let from = index + k + 1 in
          if leb (length data_) (index + k)
            || not (bit_and (get_or data_ (index + k) 0) 0x1f == type)
          then later
          else some (index, unit_end (length data_ - from) data_ from - index)
    ]

-- From `from` on, `end` is where the next start code stands, or the end of the data.
pub record Ends (data_ : List ℕ) (from end : ℕ) : Type 0 where
  pub after : from ≤ end
  pub inside : end ≤ length data_
  pub none_between : (j : ℕ) → from ≤ j → j < end → j + 2 < length data_ → nal_start data_ j ≡ none
  pub stops : (end ≡ length data_) ⊎ ((k : ℕ) × (nal_start data_ end ≡ some k))

unit_end-Ends :
    (rounds : ℕ) (data_ : List ℕ) (from : ℕ)
    → from + rounds ≡ length data_
    → Ends data_ from (unit_end rounds data_ from)
unfolding unit_end
unit_end-Ends zero data_ from e = record {
  after = omega arith;
  inside = omega arith;
  none_between = λ j a b c. absurd (omega arith);
  stops = inl refl;
}
unit_end-Ends (suc rounds) data_ from e =
    let ih = unit_end-Ends rounds data_ (from + 1) (omega arith) in
    elim (Bool-cases (leb (length data_) (from + 2))) [
      | inl s ↦ rw s (record {
        after = omega arith;
        inside = omega arith;
        none_between = λ j a b c. absurd (ground (arith, s, a, c));
        stops = inl refl;
      })
      | inr s ↦ elim (Option-cases (nal_start data_ from)) [
        | inl n ↦
            rw (s, n)
              (record {
                after = omega (arith, ih.after);
                inside = ih.inside;
                none_between = λ j a b c. elim (Bool-cases (j == from)) [
                  | inl q ↦ ap (nal_start data_) ((==_iff j from).0 q) ∙ n
                  | inr q ↦ ih.none_between j (ground (arith, q, a)) b c
                ];
                stops = ih.stops;
              })
        | inr (k, n) ↦
            rw (s, n)
              (record {
                after = omega arith;
                inside = omega arith;
                none_between = λ j a b c. absurd (omega arith);
                stops = inr (k, n);
              })
      ]
    ]

-- The place and the size of a unit of the type: its start code, the type in the byte behind it, and its end.
pub record UnitOf (data_ : List ℕ) (type start size : ℕ) : Type 0 where
  pub code : ℕ
  pub starts : nal_start data_ start ≡ some code
  pub kind : bit_and (get_or data_ (start + code) 0) 0x1f ≡ type
  pub ends : Ends data_ (start + code + 1) (start + size)

nal_start-UnitOf :
    (data_ : List ℕ) (type index k : ℕ)
    → nal_start data_ index ≡ some k
    → leb (length data_) (index + k) || not (bit_and (get_or data_ (index + k) 0) 0x1f == type)
      ≡ false
    → UnitOf data_ type index
        (unit_end (length data_ - (index + k + 1)) data_ (index + k + 1) - index)
nal_start-UnitOf data_ type index k n t =
    let inside : index + k < length data_ = ground (arith, t) in
    let end = unit_end (length data_ - (index + k + 1)) data_ (index + k + 1) in
    let ends = unit_end-Ends (length data_ - (index + k + 1)) data_ (index + k + 1) (omega arith) in
    let back : index + (end - index) ≡ end = omega (arith, ends.after) in
    record { code = k; starts = n; kind = ground (arith, t); ends = rw back ends }

-- What the search finds is a unit of the type: a start code stands at its place with a byte of the
-- type behind it, and it ends at the next start code after that byte, or with the data.
pub find_nal_lem :
    (rounds : ℕ) (data_ : List ℕ) (type index start size : ℕ)
    → find_nal rounds data_ type index ≡ some (start, size)
    → UnitOf data_ type start size
unfolding find_nal
find_nal_lem zero data_ type index start size e = absurd (ground (arith, e))
find_nal_lem (suc rounds) data_ type index start size e =
    elim (Bool-cases (leb (length data_) (index + 3))) [
      | inl s ↦ absurd (ground (arith, s, e))
      | inr s ↦ elim (Option-cases (nal_start data_ index)) [
        | inl n ↦ find_nal_lem rounds data_ type (index + 1) start size (rw (s, n) at e)
        | inr (k, n) ↦
            elim (Bool-cases (
              leb (length data_) (index + k)
              || not (bit_and (get_or data_ (index + k) 0) 0x1f == type))) [
                | inl t ↦ find_nal_lem rounds data_ type (index + 1) start size (rw (s, n, t) at e)
                | inr t ↦
                    let found : some (
                      index,
                      unit_end (length data_ - (index + k + 1)) data_ (index + k + 1) - index,
                    )
                        ≡ some (start, size) =
                      rw (s, n, t) at e in
                    let same = some_inj.0 found in
                    let place : index ≡ start = ap (λ r. r.0) same in
                    let long : unit_end (length data_ - (index + k + 1)) data_ (index + k + 1)
                          - index
                        ≡ size =
                      ap (λ r. r.1) same in
                    rw (sym place, sym long) (nal_start-UnitOf data_ type index k n t)
              ]
      ]
    ]
