-- ===== src/Hid/Utf8.antt =====
-- `utf8_decode` and `utf8_encode` of src/hid.c. The decoder returns the code point, if it finds one,
-- and the offset at which it stands afterwards.
pub mod RoundTrip
use nanokvm_rdp.Prelude.{
  ℕ, ◌+◌, ◌*◌, ◌/◌, ◌^◌, Bool, true, false, ◌&&◌, ◌||◌, not, List, [], ◌∷◌, Option, none, some,
  get_or, length, ltb, leb, ◌==◌, if◌then◌else◌, u8, bit_and, bit_or,
}

unfoldable pub is_utf8_continuation : ℕ → Bool
is_utf8_continuation byte = bit_and byte 0xc0 == 0x80

unfoldable pub utf8_decode : List ℕ → ℕ → Option ℕ × ℕ
unfolding is_utf8_continuation
utf8_decode text offset =
    let first = get_or text offset 0 in
    let second = get_or text (offset + 1) 0 in
    let third = get_or text (offset + 2) 0 in
    let fourth = get_or text (offset + 3) 0 in
    let continues = is_utf8_continuation in
    if leb (length text) offset
    then (none, offset)
    else if ltb first 0x80
    then (some first, offset + 1)
    else if leb 0xc2 first && leb first 0xdf
    then if leb (length text) (offset + 1) || not (continues second)
      then (none, offset + 1)
      else (some (bit_or (bit_and first 0x1f * 2 ^ 6) (bit_and second 0x3f)), offset + 2)
    else if leb 0xe0 first && leb first 0xef
    then if leb (length text) (offset + 2)
        || (not (continues second)
            || (not (continues third)
                || ((first == 0xe0 && ltb second 0xa0) || (first == 0xed && ltb 0x9f second))))
      then (none, offset + 1)
      else (
        some (
            bit_or (bit_or (bit_and first 0x0f * 2 ^ 12) (bit_and second 0x3f * 2 ^ 6))
              (bit_and third 0x3f)),
        offset + 3,
      )
    else if leb 0xf0 first && leb first 0xf4
    then if leb (length text) (offset + 3)
        || (not (continues second)
            || (not (continues third)
                || (not (continues fourth)
                    || ((first == 0xf0 && ltb second 0x90) || (first == 0xf4 && ltb 0x8f second)))))
      then (none, offset + 1)
      else (
        some (
            bit_or
              (bit_or (bit_or (bit_and first 0x07 * 2 ^ 18) (bit_and second 0x3f * 2 ^ 12))
                (bit_and third 0x3f * 2 ^ 6))
              (bit_and fourth 0x3f)),
        offset + 4,
      )
    else (none, offset + 1)

unfoldable pub utf8_encode : ℕ → Option (List ℕ)
utf8_encode codepoint =
    let tail = λ (shift : ℕ). u8 (bit_or 0x80 (bit_and (codepoint / 2 ^ shift) 0x3f)) in
    if ltb 0x10ffff codepoint || (leb 0xd800 codepoint && leb codepoint 0xdfff)
    then none
    else if leb codepoint 0x7f
    then some (u8 codepoint ∷ [])
    else if leb codepoint 0x7ff
    then some (u8 (bit_or 0xc0 (codepoint / 2 ^ 6)) ∷ tail 0 ∷ [])
    else if leb codepoint 0xffff
    then some (u8 (bit_or 0xe0 (codepoint / 2 ^ 12)) ∷ tail 6 ∷ tail 0 ∷ [])
    else some (u8 (bit_or 0xf0 (codepoint / 2 ^ 18)) ∷ tail 12 ∷ tail 6 ∷ tail 0 ∷ [])
