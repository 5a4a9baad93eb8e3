-- ===== src/Hid/Pointer/Scale.antt =====
-- The scaling of a position to the 15 bits of an absolute report (src/hid.c).
use nanokvm_rdp.Prelude.{
  ℕ, ◌-◌, ◌*◌, ◌/◌, ◌%◌, ◌^◌, ◌<◌, ◌≤◌, ◌≡◌, refl, arith, false, if◌then◌else◌, ltb, leb,
}
use native.Mathlib.Nat.{le-div_iff_mul-le, div-mul-le_self, mul-div_cancel_left}
use nanokvm_rdp.Hid.Pointer.{scale_absolute}

div_le : (a b d : ℕ) → 0 < d → a ≤ b → a / d ≤ b / d
div_le a b d hd h =
    (le-div_iff_mul-le {k = d} {x = a / d} {y = b} hd).1 (omega (arith, div-mul-le_self a d))

clamped : ℕ → ℕ
clamped x = let low = if ltb x 1 then 1 else x in if ltb 0x7fff low then 0x7fff else low

clamped-monotone :
    (x y : ℕ) → x ≤ y → (1 ≤ clamped x) × (clamped x ≤ clamped y) × (clamped y ≤ 0x7fff)
unfolding clamped
clamped-monotone x y h = (ground arith, ground (arith, h), ground arith)

scale-clamped :
    (value dimension : ℕ)
    → value < 2 ^ 16
    → 1 < dimension
    → scale_absolute value dimension ≡ clamped (value * 0x7fff / (dimension - 1))
unfolding scale_absolute clamped
scale-clamped value dimension hv hd =
    let fits : (value * 0x7fff) % 2 ^ 32 ≡ value * 0x7fff = omega arith in
    let wide : leb dimension 1 ≡ false = ground (arith, hd) in rw (fits, wide)

-- With 2 to 65536 positions, a position further on is not scaled to one further back, every one is
-- scaled into the range from 1 to 0x7fff that the report has, and the last one to its end.
pub scale_absolute-monotone :
    (value further dimension : ℕ)
    → value ≤ further
    → further < 2 ^ 16
    → 1 < dimension
    → dimension ≤ 2 ^ 16
    → (1 ≤ scale_absolute value dimension)
      × (scale_absolute value dimension ≤ scale_absolute further dimension)
      × (scale_absolute further dimension ≤ 0x7fff)
      × (scale_absolute (dimension - 1) dimension ≡ 0x7fff)
scale_absolute-monotone value further dimension h b one top =
    let (low, le, high) =
      clamped-monotone _ _
        (div_le (value * 0x7fff) (further * 0x7fff) (dimension - 1) (omega arith) (omega arith)) in
    let last : (dimension - 1) * 0x7fff / (dimension - 1) ≡ 0x7fff =
      mul-div_cancel_left 0x7fff (omega arith) in
    rw
      (
        scale-clamped value dimension (omega arith) one,
        scale-clamped further dimension b one,
        scale-clamped (dimension - 1) dimension (omega arith) one,
        last,
      )
      (low, le, high, end)
  where
    end : clamped 0x7fff ≡ 0x7fff
    end = (unfold clamped in refl)
