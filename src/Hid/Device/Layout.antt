-- ===== src/Hid/Device/Layout.antt =====
-- The keys of a text in src/hid.c: `ascii_to_hid`, `hangul_jamo_sequence` and
-- `codepoint_to_hangul_sequences`. A sequence of keys is the list of its characters.
use nanokvm_rdp.Prelude.{
  ℕ, ◌+◌, ◌-◌, ◌*◌, ◌/◌, ◌%◌, ◌&&◌, ◌||◌, List, [], ◌∷◌, Option, none, some, get_or, ltb, leb, ◌==◌,
  if◌then◌else◌,
}

-- HidTextKey.
pub record TextKey : Type 0 where
  pub modifier : ℕ
  pub usage : ℕ

abbrev key : ℕ → ℕ → Option TextKey
key modifier usage = some (record { modifier = modifier; usage = usage })

-- The switch: a character with its modifier and its usage.
unfoldable pub character_keys : List (ℕ × ℕ × ℕ)
character_keys =
    (8, 0, 0x2a)
    ∷ (9, 0, 0x2b)
    ∷ (10, 0, 0x28)
    ∷ (13, 0, 0x28)
    ∷ (27, 0, 0x29)
    ∷ (32, 0, 0x2c)
    ∷ (45, 0, 0x2d)
    ∷ (95, 0x02, 0x2d)
    ∷ (61, 0, 0x2e)
    ∷ (43, 0x02, 0x2e)
    ∷ (91, 0, 0x2f)
    ∷ (123, 0x02, 0x2f)
    ∷ (93, 0, 0x30)
    ∷ (125, 0x02, 0x30)
    ∷ (92, 0, 0x31)
    ∷ (124, 0x02, 0x31)
    ∷ (59, 0, 0x33)
    ∷ (58, 0x02, 0x33)
    ∷ (39, 0, 0x34)
    ∷ (34, 0x02, 0x34)
    ∷ (96, 0, 0x35)
    ∷ (126, 0x02, 0x35)
    ∷ (44, 0, 0x36)
    ∷ (60, 0x02, 0x36)
    ∷ (46, 0, 0x37)
    ∷ (62, 0x02, 0x37)
    ∷ (47, 0, 0x38)
    ∷ (63, 0x02, 0x38)
    ∷ (33, 0x02, 0x1e)
    ∷ (64, 0x02, 0x1f)
    ∷ (35, 0x02, 0x20)
    ∷ (36, 0x02, 0x21)
    ∷ (37, 0x02, 0x22)
    ∷ (94, 0x02, 0x23)
    ∷ (38, 0x02, 0x24)
    ∷ (42, 0x02, 0x25)
    ∷ (40, 0x02, 0x26)
    ∷ (41, 0x02, 0x27)
    ∷ []

unfoldable pub find_character : ℕ → List (ℕ × ℕ × ℕ) → Option TextKey
find_character character [] = none
find_character character ((c, modifier, usage) ∷ keys) =
    let later = find_character character keys in
    if character == c then key modifier usage else later

unfoldable pub ascii_to_hid : ℕ → Option TextKey
ascii_to_hid character =
    if leb b'a' character && leb character b'z'
    then key 0 (0x04 + character - b'a')
    else if leb b'A' character && leb character b'Z'
    then key 0x02 (0x04 + character - b'A')
    else if leb b'1' character && leb character b'9'
    then key 0 (0x1e + character - b'1')
    else if character == b'0'
    then key 0 0x27
    else find_character character character_keys

unfoldable pub jamo_sequences : List (ℕ × List ℕ)
jamo_sequences =
    (0x3131, b'r' ∷ [])
    ∷ (0x3132, b'R' ∷ [])
    ∷ (0x3133, b'r' ∷ b't' ∷ [])
    ∷ (0x3134, b's' ∷ [])
    ∷ (0x3135, b's' ∷ b'w' ∷ [])
    ∷ (0x3136, b's' ∷ b'g' ∷ [])
    ∷ (0x3137, b'e' ∷ [])
    ∷ (0x3138, b'E' ∷ [])
    ∷ (0x3139, b'f' ∷ [])
    ∷ (0x313a, b'f' ∷ b'r' ∷ [])
    ∷ (0x313b, b'f' ∷ b'a' ∷ [])
    ∷ (0x313c, b'f' ∷ b'q' ∷ [])
    ∷ (0x313d, b'f' ∷ b't' ∷ [])
    ∷ (0x313e, b'f' ∷ b'x' ∷ [])
    ∷ (0x313f, b'f' ∷ b'v' ∷ [])
    ∷ (0x3140, b'f' ∷ b'g' ∷ [])
    ∷ (0x3141, b'a' ∷ [])
    ∷ (0x3142, b'q' ∷ [])
    ∷ (0x3143, b'Q' ∷ [])
    ∷ (0x3144, b'q' ∷ b't' ∷ [])
    ∷ (0x3145, b't' ∷ [])
    ∷ (0x3146, b'T' ∷ [])
    ∷ (0x3147, b'd' ∷ [])
    ∷ (0x3148, b'w' ∷ [])
    ∷ (0x3149, b'W' ∷ [])
    ∷ (0x314a, b'c' ∷ [])
    ∷ (0x314b, b'z' ∷ [])
    ∷ (0x314c, b'x' ∷ [])
    ∷ (0x314d, b'v' ∷ [])
    ∷ (0x314e, b'g' ∷ [])
    ∷ (0x314f, b'k' ∷ [])
    ∷ (0x3150, b'o' ∷ [])
    ∷ (0x3151, b'i' ∷ [])
    ∷ (0x3152, b'O' ∷ [])
    ∷ (0x3153, b'j' ∷ [])
    ∷ (0x3154, b'p' ∷ [])
    ∷ (0x3155, b'u' ∷ [])
    ∷ (0x3156, b'P' ∷ [])
    ∷ (0x3157, b'h' ∷ [])
    ∷ (0x3158, b'h' ∷ b'k' ∷ [])
    ∷ (0x3159, b'h' ∷ b'o' ∷ [])
    ∷ (0x315a, b'h' ∷ b'l' ∷ [])
    ∷ (0x315b, b'y' ∷ [])
    ∷ (0x315c, b'n' ∷ [])
    ∷ (0x315d, b'n' ∷ b'j' ∷ [])
    ∷ (0x315e, b'n' ∷ b'p' ∷ [])
    ∷ (0x315f, b'n' ∷ b'l' ∷ [])
    ∷ (0x3160, b'b' ∷ [])
    ∷ (0x3161, b'm' ∷ [])
    ∷ (0x3162, b'm' ∷ b'l' ∷ [])
    ∷ (0x3163, b'l' ∷ [])
    ∷ []

unfoldable pub find_jamo : ℕ → List (ℕ × List ℕ) → Option (List ℕ)
find_jamo codepoint [] = none
find_jamo codepoint ((c, sequence) ∷ sequences) =
    let later = find_jamo codepoint sequences in if codepoint == c then some sequence else later

unfoldable pub hangul_jamo_sequence : ℕ → Option (List ℕ)
hangul_jamo_sequence codepoint = find_jamo codepoint jamo_sequences

unfoldable pub lead_keys : List (List ℕ)
lead_keys =
    (b'r' ∷ [])
    ∷ (b'R' ∷ [])
    ∷ (b's' ∷ [])
    ∷ (b'e' ∷ [])
    ∷ (b'E' ∷ [])
    ∷ (b'f' ∷ [])
    ∷ (b'a' ∷ [])
    ∷ (b'q' ∷ [])
    ∷ (b'Q' ∷ [])
    ∷ (b't' ∷ [])
    ∷ (b'T' ∷ [])
    ∷ (b'd' ∷ [])
    ∷ (b'w' ∷ [])
    ∷ (b'W' ∷ [])
    ∷ (b'c' ∷ [])
    ∷ (b'z' ∷ [])
    ∷ (b'x' ∷ [])
    ∷ (b'v' ∷ [])
    ∷ (b'g' ∷ [])
    ∷ []

unfoldable pub vowel_keys : List (List ℕ)
vowel_keys =
    (b'k' ∷ [])
    ∷ (b'o' ∷ [])
    ∷ (b'i' ∷ [])
    ∷ (b'O' ∷ [])
    ∷ (b'j' ∷ [])
    ∷ (b'p' ∷ [])
    ∷ (b'u' ∷ [])
    ∷ (b'P' ∷ [])
    ∷ (b'h' ∷ [])
    ∷ (b'h' ∷ b'k' ∷ [])
    ∷ (b'h' ∷ b'o' ∷ [])
    ∷ (b'h' ∷ b'l' ∷ [])
    ∷ (b'y' ∷ [])
    ∷ (b'n' ∷ [])
    ∷ (b'n' ∷ b'j' ∷ [])
    ∷ (b'n' ∷ b'p' ∷ [])
    ∷ (b'n' ∷ b'l' ∷ [])
    ∷ (b'b' ∷ [])
    ∷ (b'm' ∷ [])
    ∷ (b'm' ∷ b'l' ∷ [])
    ∷ (b'l' ∷ [])
    ∷ []

unfoldable pub trail_keys : List (List ℕ)
trail_keys =
    ([])
    ∷ (b'r' ∷ [])
    ∷ (b'R' ∷ [])
    ∷ (b'r' ∷ b't' ∷ [])
    ∷ (b's' ∷ [])
    ∷ (b's' ∷ b'w' ∷ [])
    ∷ (b's' ∷ b'g' ∷ [])
    ∷ (b'e' ∷ [])
    ∷ (b'f' ∷ [])
    ∷ (b'f' ∷ b'r' ∷ [])
    ∷ (b'f' ∷ b'a' ∷ [])
    ∷ (b'f' ∷ b'q' ∷ [])
    ∷ (b'f' ∷ b't' ∷ [])
    ∷ (b'f' ∷ b'x' ∷ [])
    ∷ (b'f' ∷ b'v' ∷ [])
    ∷ (b'f' ∷ b'g' ∷ [])
    ∷ (b'a' ∷ [])
    ∷ (b'q' ∷ [])
    ∷ (b'q' ∷ b't' ∷ [])
    ∷ (b't' ∷ [])
    ∷ (b'T' ∷ [])
    ∷ (b'd' ∷ [])
    ∷ (b'w' ∷ [])
    ∷ (b'c' ∷ [])
    ∷ (b'z' ∷ [])
    ∷ (b'x' ∷ [])
    ∷ (b'v' ∷ [])
    ∷ (b'g' ∷ [])
    ∷ []

-- The sequences of the syllable's lead, vowel and trail.
unfoldable pub codepoint_to_hangul_sequences : ℕ → Option (List ℕ × List ℕ × List ℕ)
codepoint_to_hangul_sequences codepoint =
    let offset = codepoint - 0xac00 in
    if ltb codepoint 0xac00 || ltb 0xd7a3 codepoint
    then none
    else some (
      get_or lead_keys (offset / (21 * 28)) [],
      get_or vowel_keys (offset % (21 * 28) / 28) [],
      get_or trail_keys (offset % 28) [],
    )
