-- ===== src/Bytes.antt =====
-- Big-endian numbers in byte arrays: `protocol_write_u16` and its kin of src/protocol.c, whose
-- text src/rtp_h264.c repeats in `write_u16`, `read_u16`, `write_u32` and `read_u32`.
use nanokvm_rdp.Prelude.{
  ℕ, ◌+◌, ◌*◌, ◌/◌, ◌^◌, ◌<◌, ◌≡◌, List, [], ◌∷◌, ◌++◌, get_or, u8, bit_or, ap, ◌∙◌, bit_or-shifted,
  arith,
}

-- The bytes that the function stores from `data[0]` on.
unfoldable pub write_u16 : ℕ → List ℕ
write_u16 value = u8 (value / 2 ^ 8) ∷ u8 value ∷ []

-- The number that the function reads at `data + at`.
unfoldable pub read_u16 : List ℕ → ℕ → ℕ
read_u16 data_ at = bit_or (get_or data_ at 0 * 2 ^ 8) (get_or data_ (at + 1) 0)

unfoldable pub write_u32 : ℕ → List ℕ
write_u32 value = u8 (value / 2 ^ 24) ∷ u8 (value / 2 ^ 16) ∷ u8 (value / 2 ^ 8) ∷ u8 value ∷ []

unfoldable pub read_u32 : List ℕ → ℕ → ℕ
read_u32 data_ at =
    bit_or
      (bit_or (bit_or (get_or data_ at 0 * 2 ^ 24) (get_or data_ (at + 1) 0 * 2 ^ 16))
        (get_or data_ (at + 2) 0 * 2 ^ 8))
      (get_or data_ (at + 3) 0)

pub bit_or-u16 : (a b : ℕ) → b < 2 ^ 8 → bit_or (a * 2 ^ 8) b ≡ a * 2 ^ 8 + b
bit_or-u16 a b h = bit_or-shifted 8 a b h

pub bit_or-u32 :
    (a b c d : ℕ)
    → b < 2 ^ 8
    → c < 2 ^ 8
    → d < 2 ^ 8
    → bit_or (bit_or (bit_or (a * 2 ^ 24) (b * 2 ^ 16)) (c * 2 ^ 8)) d
      ≡ a * 2 ^ 24 + b * 2 ^ 16 + c * 2 ^ 8 + d
bit_or-u32 a b c d hb hc hd = omega (
  arith,
  ap (λ (t : ℕ). bit_or (bit_or t (c * 2 ^ 8)) d)
      (bit_or-shifted 24 a (b * 2 ^ 16) (omega arith) ∙ first),
  ap (λ (t : ℕ). bit_or t d) (bit_or-shifted 16 (a * 2 ^ 8 + b) (c * 2 ^ 8) (omega arith) ∙ second),
  bit_or-shifted 8 (a * 2 ^ 16 + b * 2 ^ 8 + c) d hd,
)
  where
    first : a * 2 ^ 24 + b * 2 ^ 16 ≡ (a * 2 ^ 8 + b) * 2 ^ 16
    first = omega arith

    second : (a * 2 ^ 8 + b) * 2 ^ 16 + c * 2 ^ 8 ≡ (a * 2 ^ 16 + b * 2 ^ 8 + c) * 2 ^ 8
    second = omega arith

-- A 16-bit number that was written is read back, whatever follows it.
pub read_u16-write_u16 :
    (value : ℕ) (rest : List ℕ) → value < 2 ^ 16 → read_u16 (write_u16 value ++ rest) 0 ≡ value
unfolding read_u16 write_u16
read_u16-write_u16 value rest h =
    omega (arith, bit_or-u16 (u8 (value / 2 ^ 8)) (u8 value) (omega arith))

-- So is a 32-bit number.
pub read_u32-write_u32 :
    (value : ℕ) (rest : List ℕ) → value < 2 ^ 32 → read_u32 (write_u32 value ++ rest) 0 ≡ value
unfolding read_u32 write_u32
read_u32-write_u32 value rest h = omega (
  arith,
  bit_or-u32 (u8 (value / 2 ^ 24)) (u8 (value / 2 ^ 16)) (u8 (value / 2 ^ 8)) (u8 value)
      (omega arith) (omega arith) (omega arith),
)
