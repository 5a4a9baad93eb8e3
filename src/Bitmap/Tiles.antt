-- ===== src/Bitmap/Tiles.antt =====
-- What `bitmap_tile_changed` (src/bitmap_diff.h) and `classic_tile_copy` (src/rdp_bitmap.c) do to the
-- pixels of a tile.
use native.Mathlib.Nat.{mul-le-mul_right, suc-mul}
use nanokvm_rdp.Prelude.{
  ℕ, zero, suc, ◌+◌, ◌-◌, ◌*◌, ◌<◌, ◌≤◌, ◌≡◌, ◌⊎◌, refl, Bool, false, some, ltb, leb, ◌==◌, arith,
  Bool-cases, inl, inr, ap, ◌∙◌,
}
use nanokvm_rdp.Bitmap.{
  Picture, offset_of, any_from, pixel_changed, bitmap_tile_changed, copy, copy_rows,
  classic_tile_copy,
}

-- The three visible bytes of a pixel are the same.
pub record SamePixel (width : ℕ) (p q : Picture) (x y : ℕ) : Type 0 where
  pub blue : p (offset_of width x y) ≡ q (offset_of width x y)
  pub green : p (offset_of width x y + 1) ≡ q (offset_of width x y + 1)
  pub red : p (offset_of width x y + 2) ≡ q (offset_of width x y + 2)

any_from-false :
    (rounds start : ℕ) (test : ℕ → Bool) (k : ℕ)
    → any_from rounds start test ≡ false
    → k < rounds
    → test (start + k) ≡ false
unfolding any_from
any_from-false zero start test k e h = absurd (omega arith)
any_from-false (suc rounds) start test zero e h =
    at_start (start + 0) (omega arith) (ground (arith, e))
  where
    at_start : (n : ℕ) → n ≡ start → test start ≡ false → test n ≡ false
    at_start n same here = ap test same ∙ here
any_from-false (suc rounds) start test (suc k) e h =
    ap test (omega arith)
    ∙ any_from-false rounds (start + 1) test k (ground (arith, e)) (omega arith)

any_below-false :
    (rounds : ℕ) (test : ℕ → Bool) (k : ℕ)
    → any_from rounds 0 test ≡ false
    → k < rounds
    → test k ≡ false
any_below-false rounds test k e h = ap test (omega arith) ∙ any_from-false rounds 0 test k e h

pixel_changed-false :
    (p q : Picture) (n m : ℕ)
    → pixel_changed p q n ≡ false
    → n ≡ m
    → (p m ≡ q m) × (p (m + 1) ≡ q (m + 1)) × (p (m + 2) ≡ q (m + 2))
pixel_changed-false p q n m h e = rw⁻¹ e (ground (arith, h))

-- A tile that has not changed shows the same in all of its pixels.
pub unchanged-SamePixel :
    (previous current : Picture) (width left top columns rows x y : ℕ)
    → bitmap_tile_changed (some previous) current width left top columns rows ≡ false
    → left ≤ x
    → x < left + columns
    → top ≤ y
    → y < top + rows
    → SamePixel width previous current x y
unfolding bitmap_tile_changed
unchanged-SamePixel previous current width left top columns rows x y e hl hx ht hy =
    let row : ℕ = y - top in
    let column : ℕ = x - left in
    let here : pixel_changed previous current (offset_of width left (top + row) + column * 4)
        ≡ false =
      any_below-false columns
        (λ (c : ℕ). pixel_changed previous current (offset_of width left (top + row) + c * 4))
        column
        (any_below-false rows
          (λ (r : ℕ).
            any_from columns 0
              λ c. pixel_changed previous current (offset_of width left (top + r) + c * 4))
          row e (omega arith))
        (omega arith) in
    let place : offset_of width left (top + row) + column * 4 ≡ offset_of width x y =
      omega (arith, ap (λ (n : ℕ). n * width) (rows_back ht)) in
    let (b, g, r) = pixel_changed-false previous current _ _ here place in
    record { blue = b; green = g; red = r }
  where
    rows_back : top ≤ y → top + (y - top) ≡ y
    rows_back h = omega arith

-- A byte that has the new value keeps it through any copy.
copy_rows-fixed :
    (rounds row : ℕ) (d s : Picture) (width left top columns i : ℕ)
    → d i ≡ s i
    → copy_rows rounds row d s width left top columns i ≡ s i
unfolding copy_rows
copy_rows-fixed zero row d s width left top columns i e = e
copy_rows-fixed (suc rounds) row d s width left top columns i e =
    copy_rows-fixed rounds (row + 1) _ s width left top columns i (ground (arith, e))

pub classic_tile_copy-fixed :
    (d s : Picture) (width left top columns rows i : ℕ)
    → d i ≡ s i
    → classic_tile_copy d s width left top columns rows i ≡ s i
unfolding classic_tile_copy
classic_tile_copy-fixed d s width left top columns rows i e =
    copy_rows-fixed rows 0 d s width left top columns i e

-- Every byte of the row at `row + k` is copied.
copy_rows-within :
    (rounds row : ℕ) (d s : Picture) (width left top columns k i : ℕ)
    → k < rounds
    → offset_of width left (top + (row + k)) ≤ i
    → i < offset_of width left (top + (row + k)) + columns * 4
    → copy_rows rounds row d s width left top columns i ≡ s i
unfolding copy_rows
copy_rows-within zero row d s width left top columns k i h lo hi = absurd (omega arith)
copy_rows-within (suc rounds) row d s width left top columns zero i h lo hi =
    copy_rows-fixed rounds (row + 1) _ s width left top columns i
      (copied (row + 0) (omega arith) lo hi)
  where
    copied :
        (n : ℕ)
        → n ≡ row
        → offset_of width left (top + n) ≤ i
        → i < offset_of width left (top + n) + columns * 4
        → copy d s (offset_of width left (top + row)) (columns * 4) i ≡ s i
    copied n e lo hi =
        let at_row : offset_of width left (top + n) ≡ offset_of width left (top + row) =
          ap (λ (m : ℕ). offset_of width left (top + m)) e in
        inside (omega (arith, at_row, lo)) (omega (arith, at_row, hi))
      where
        inside :
            offset_of width left (top + row) ≤ i
            → i < offset_of width left (top + row) + columns * 4
            → copy d s (offset_of width left (top + row)) (columns * 4) i ≡ s i
        inside a b = ground arith
copy_rows-within (suc rounds) row d s width left top columns (suc k) i h lo hi =
    copy_rows-within rounds (row + 1) _ s width left top columns k i (omega arith)
      (omega (arith, lo, shifted)) (omega (arith, hi, shifted))
  where
    shifted :
        offset_of width left (top + (row + suc k)) ≡ offset_of width left (top + (row + 1 + k))
    shifted = ap (λ (m : ℕ). offset_of width left (top + m)) (omega arith)

-- After the copy the pixels of the tile are those of the source.
pub classic_tile_copy-SamePixel :
    (d s : Picture) (width left top columns rows x y : ℕ)
    → left ≤ x
    → x < left + columns
    → top ≤ y
    → y < top + rows
    → SamePixel width (classic_tile_copy d s width left top columns rows) s x y
unfolding classic_tile_copy
classic_tile_copy-SamePixel d s width left top columns rows x y hl hx ht hy = record {
  blue = byte (offset_of width x y) (omega arith) (omega arith);
  green = byte (offset_of width x y + 1) (omega arith) (omega arith);
  red = byte (offset_of width x y + 2) (omega arith) (omega arith);
}
  where
    row_at : top ≤ y → offset_of width left (top + (0 + (y - top))) ≡ offset_of width left y
    row_at h = ap (λ (n : ℕ). offset_of width left n) (omega arith)

    byte :
        (i : ℕ)
        → offset_of width x y ≤ i
        → i < offset_of width x y + 4
        → copy_rows rows 0 d s width left top columns i ≡ s i
    byte i lo hi =
        copy_rows-within rows 0 d s width left top columns (y - top) i (omega arith)
          (omega (arith, row_at ht)) (omega (arith, row_at ht))

in_order : (a b : ℕ) → (a < b) ⊎ ((a ≡ b) ⊎ (b < a))
in_order a b = elim (Bool-cases (ltb a b)) [
  | inl less ↦ inl (ground (arith, less))
  | inr more ↦ elim (Bool-cases (a == b)) [
    | inl same ↦ inr (inl (ground (arith, same)))
    | inr apart ↦ inr (inr (ground (arith, more, apart)))
  ]
]

rows_apart : (w a b : ℕ) → a < b → a * w + w ≤ b * w
rows_apart w a b h =
    omega (arith, mul-le-mul_right {m = suc a} {n = b} w (omega arith), suc-mul a w)

copy_rows-outside :
    (rounds row : ℕ) (d s : Picture) (width left top columns i : ℕ)
    → ((k : ℕ)
        → row ≤ k
        → k < row + rounds
        → (i < offset_of width left (top + k)) ⊎ (offset_of width left (top + k) + columns * 4 ≤ i))
    → copy_rows rounds row d s width left top columns i ≡ d i
unfolding copy_rows
copy_rows-outside zero row d s width left top columns i apart = refl
copy_rows-outside (suc rounds) row d s width left top columns i apart =
    copy_rows-outside rounds (row + 1) (copy d s (offset_of width left (top + row)) (columns * 4)) s
      width left top columns i (λ k lo hi. apart k (omega arith) (omega arith))
    ∙ kept (apart row (omega arith) (omega arith))
  where
    kept :
        (i < offset_of width left (top + row))
          ⊎ (offset_of width left (top + row) + columns * 4 ≤ i)
        → copy d s (offset_of width left (top + row)) (columns * 4) i ≡ d i
    kept (inl before) = ground arith
    kept (inr behind) = ground arith

-- The pixel stands in the tile.
pub record InTile (left top columns rows x y : ℕ) : Type 0 where
  pub from_left : left ≤ x
  pub to_right : x < left + columns
  pub from_top : top ≤ y
  pub to_bottom : y < top + rows

-- The copy changes no pixel of the picture outside the tile.
pub classic_tile_copy-outside :
    (d s : Picture) (width left top columns rows x y : ℕ)
    → left + columns ≤ width
    → x < width
    → ¬ InTile left top columns rows x y
    → SamePixel width (classic_tile_copy d s width left top columns rows) d x y
unfolding classic_tile_copy
classic_tile_copy-outside d s width left top columns rows x y inside hx out = record {
  blue = byte (offset_of width x y) (omega arith) (omega arith);
  green = byte (offset_of width x y + 1) (omega arith) (omega arith);
  red = byte (offset_of width x y + 2) (omega arith) (omega arith);
}
  where
    apart :
        (i k : ℕ)
        → offset_of width x y ≤ i
        → i < offset_of width x y + 4
        → k < rows
        → (i < offset_of width left (top + k)) ⊎ (offset_of width left (top + k) + columns * 4 ≤ i)
    apart i k lo hi hk = elim (in_order y (top + k)) [
      | inl above ↦ inl (omega (arith, rows_apart width y (top + k) above, hx, hi))
      | inr (inr below) ↦ inr (omega (arith, rows_apart width (top + k) y below, inside, lo))
      | inr (inl same) ↦
          let line : y * width ≡ (top + k) * width = ap (λ (n : ℕ). n * width) same in
          elim (Bool-cases (ltb x left)) [
            | inl before ↦ inl (ground (arith, line, before, lo, hi))
            | inr after ↦ elim (Bool-cases (leb (left + columns) x)) [
              | inl behind ↦ inr (ground (arith, line, behind, lo, hi))
              | inr within ↦ absurd (
                  out (record {
                    from_left = ground (arith, after);
                    to_right = ground (arith, within);
                    from_top = omega (arith, same);
                    to_bottom = omega (arith, same, hk);
                  }))
            ]
          ]
    ]

    byte :
        (i : ℕ)
        → offset_of width x y ≤ i
        → i < offset_of width x y + 4
        → copy_rows rows 0 d s width left top columns i ≡ d i
    byte i lo hi =
        copy_rows-outside rows 0 d s width left top columns i
          (λ k _ hk. apart i k lo hi (omega arith))
