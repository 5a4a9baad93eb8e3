-- ===== src/Rtp/Split.antt =====
-- Where `rtp_h264_packetize_access_unit` (src/rtp_h264.c) finds the NAL units of an access unit.
use mathlib.Core.List.{append_assoc, append-nil}
use nanokvm_rdp.Prelude.{
  ℕ, zero, suc, ◌+◌, ◌-◌, ◌<◌, ◌≤◌, ◌≡◌, ◌⊎◌, refl, false, List, [], ◌∷◌, ◌++◌, get_or, length,
  drop, take, ◌==◌, arith, ap, ◌∙◌, Bool-cases, inl, inr, length-append, length-drop, get_or-drop,
  eq→==, drop-drop, drop-append, take-append,
}
use nanokvm_rdp.Rtp.Packetizer.{start_code_length, next_start_code}

abbrev pub code : List ℕ
code = 0 ∷ 0 ∷ 0 ∷ 1 ∷ []

-- The NAL units with their start codes, as Annex B has them.
abbrev pub annexb : List (List ℕ) → List ℕ
annexb [] = []
annexb (nal ∷ nals) = code ++ (nal ++ annexb nals)

-- No start code begins within the unit, neither in its own bytes nor on into the next one.
abbrev pub IsClean : List ℕ → Type 0
IsClean nal = (k : ℕ) → k < length nal → start_code_length (nal ++ code) k ≡ 0

get_or-append : (xs ys : List ℕ) (k : ℕ) → k < length xs → get_or (xs ++ ys) k 0 ≡ get_or xs k 0
get_or-append [] ys k h = absurd (omega arith)
get_or-append (x ∷ xs) ys zero h = refl
get_or-append (x ∷ xs) ys (suc k) h = get_or-append xs ys k (omega arith)

-- A start code at an offset is one at the front of what stands there.
start_code_length-drop :
    (xs : List ℕ) (n k : ℕ)
    → n ≤ length xs
    → start_code_length xs (n + k) ≡ start_code_length (drop n xs) k
unfolding start_code_length
start_code_length-drop xs n k h = ground (
  arith,
  length-drop n xs,
  get_or-drop xs n (k + 0),
  get_or-drop xs n (k + 1),
  get_or-drop xs n (k + 2),
  get_or-drop xs n (k + 3),
)

-- Whatever follows the next start code, none begins within a clean unit.
clean-more :
    (nal tail : List ℕ) (k : ℕ)
    → IsClean nal
    → k < length nal
    → start_code_length (nal ++ code ++ tail) k ≡ 0
unfolding start_code_length
clean-more nal tail k clean h = ground (
  arith,
  clean k h,
  length-append nal code,
  length-append (nal ++ code) tail,
  get_or-append (nal ++ code) tail (k + 0),
  get_or-append (nal ++ code) tail (k + 1),
  get_or-append (nal ++ code) tail (k + 2),
  get_or-append (nal ++ code) tail (k + 3),
)

clean-end : (nal : List ℕ) (k : ℕ) → IsClean nal → k < length nal → start_code_length nal k ≡ 0
unfolding start_code_length
clean-end nal k clean h = ground (
  arith,
  clean k h,
  length-append nal code,
  get_or-append nal code (k + 0),
  get_or-append nal code (k + 1),
  get_or-append nal code (k + 2),
  get_or-append nal code (k + 3),
)

clean-annexb :
    (nal : List ℕ) (nals : List (List ℕ)) (k : ℕ)
    → IsClean nal
    → k < length nal
    → start_code_length (nal ++ annexb nals) k ≡ 0
clean-annexb nal [] k clean h = rw (append-nil nal) (clean-end nal k clean h)
clean-annexb nal (n ∷ nals) k clean h =
    rw⁻¹ (append_assoc nal code (n ++ annexb nals)) (clean-more nal (n ++ annexb nals) k clean h)

-- The search stops behind what is no start code, at the next one or at its end.
pub next_start_code-finds :
    (rounds n : ℕ) (data_ : List ℕ) (offset : ℕ)
    → ((k : ℕ) → k < n → start_code_length data_ (offset + k) ≡ 0)
    → n ≤ rounds
    → (n ≡ rounds) ⊎ ((start_code_length data_ (offset + n) == 0) ≡ false)
    → next_start_code rounds data_ offset ≡ offset + n
unfolding next_start_code
next_start_code-finds zero n data_ offset skipped h stop = omega arith
next_start_code-finds (suc rounds) zero data_ offset skipped h stop = elim stop [
  | inl over ↦ absurd (omega arith)
  | inr here ↦ rw (moved (offset + 0) (omega arith) here) (omega arith)
]
  where
    moved :
        (o : ℕ)
        → o ≡ offset
        → (start_code_length data_ o == 0) ≡ false
        → (start_code_length data_ offset == 0) ≡ false
    moved o e h = rw e at h
next_start_code-finds (suc rounds) (suc n) data_ offset skipped h stop =
    rw (eq→== (start_code_length data_ offset) 0 (start 0 (skipped 0 (omega arith)) (omega arith)))
      (next_start_code-finds rounds n data_ (offset + 1) later (omega arith) ends ∙ omega arith)
  where
    start :
        (k : ℕ)
        → start_code_length data_ (offset + k) ≡ 0
        → k ≡ 0
        → start_code_length data_ offset ≡ 0
    start k e z = moved (offset + k) (omega arith) e
      where
        moved :
            (o : ℕ)
            → o ≡ offset
            → start_code_length data_ o ≡ 0
            → start_code_length data_ offset ≡ 0
        moved o e h = rw e at h

    over_one : (k : ℕ) → offset + suc k ≡ offset + 1 + k
    over_one k = omega arith

    later : (k : ℕ) → k < n → start_code_length data_ (offset + 1 + k) ≡ 0
    later k less = rw⁻¹ (over_one k) (skipped (suc k) (omega arith))

    ends : (n ≡ rounds) ⊎ ((start_code_length data_ (offset + 1 + n) == 0) ≡ false)
    ends = elim stop [ inl e ↦ inl (omega arith) | inr here ↦ inr (rw⁻¹ (over_one n) here) ]

-- What the loop over the units reads at the start code of a unit.
pub record UnitAt (data_ : List ℕ) (offset : ℕ) (nal : List ℕ) (nals : List (List ℕ)) : Type 0 where
  pub length_code : start_code_length data_ offset ≡ 4
  pub next_at :
      next_start_code (length data_ - (offset + 4)) data_ (offset + 4) ≡ offset + 4 + length nal
  pub bytes : take (length nal) (drop (offset + 4) data_) ≡ nal
  pub rest : drop (offset + 4 + length nal) data_ ≡ annexb nals
  pub size : length data_ ≡ offset + 4 + length nal + length (annexb nals)

annexb-code :
    (nals : List (List ℕ)) → 0 < length (annexb nals) → start_code_length (annexb nals) 0 ≡ 4
unfolding start_code_length
annexb-code [] h = absurd (omega arith)
annexb-code (nal ∷ nals) h = ground arith

module _ (data_ : List ℕ) (offset : ℕ) (nal : List ℕ) (nals : List (List ℕ))
    (inside : offset ≤ length data_) (here : drop offset data_ ≡ annexb (nal ∷ nals))
    (clean : IsClean nal) where
  size : length data_ ≡ offset + 4 + length nal + length (annexb nals)
  size =
      omega
        (arith, inside, length-drop offset data_, ap length here, length-append nal (annexb nals))

  behind : drop (offset + 4) data_ ≡ nal ++ annexb nals
  behind = rw⁻¹ (drop-drop offset 4 data_) (rw here refl)

  after : drop (offset + 4 + length nal) data_ ≡ annexb nals
  after =
      rw⁻¹ (drop-drop (offset + 4) (length nal) data_) (rw behind (drop-append nal (annexb nals)))

  code_here : start_code_length data_ (offset + 0) ≡ 4
  code_here =
      start_code_length-drop data_ offset 0 inside
      ∙ rw here (annexb-code (nal ∷ nals) (omega arith))

  none_within : (k : ℕ) → k < length nal → start_code_length data_ (offset + 4 + k) ≡ 0
  none_within k h =
      start_code_length-drop data_ (offset + 4) k (omega (arith, size))
      ∙ rw behind (clean-annexb nal nals k clean h)

  stops :
      (length nal ≡ length data_ - (offset + 4))
      ⊎ ((start_code_length data_ (offset + 4 + length nal) == 0) ≡ false)
  stops = elim (Bool-cases (length (annexb nals) == 0)) [
    | inl over ↦ inl (ground (arith, size, over))
    | inr more ↦ inr (ground (arith, code_next (ground (arith, more))))
  ]
    where
      code_next : 0 < length (annexb nals) → start_code_length data_ (offset + 4 + length nal) ≡ 4
      code_next pos =
          ap (λ (o : ℕ). start_code_length data_ o) (plus_zero (offset + 4 + length nal))
          ∙ start_code_length-drop data_ (offset + 4 + length nal) 0 (omega (arith, size))
          ∙ rw after (annexb-code nals pos)
        where
          plus_zero : (n : ℕ) → n ≡ n + 0
          plus_zero n = omega arith

  pub unit_at : UnitAt data_ offset nal nals
  unit_at = record {
    length_code = zero_more code_here;
    next_at =
        next_start_code-finds (length data_ - (offset + 4)) (length nal) data_ (offset + 4)
          none_within (omega (arith, size)) stops;
    bytes = rw behind (take-append nal (annexb nals));
    rest = after;
    size = size;
  }
    where
      zero_more : start_code_length data_ (offset + 0) ≡ 4 → start_code_length data_ offset ≡ 4
      zero_more e = ap (λ (o : ℕ). start_code_length data_ o) (omega arith) ∙ e
