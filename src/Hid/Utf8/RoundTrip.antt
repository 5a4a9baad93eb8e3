-- ===== src/Hid/Utf8/RoundTrip.antt =====
-- What `utf8_encode` writes `utf8_decode` reads back (src/hid.c).
use nanokvm_rdp.Prelude.{
  get_or-drop, ℕ, ◌+◌, ◌-◌, ◌*◌, ◌/◌, ◌%◌, ◌^◌, ◌<◌, ◌≤◌, ◌≡◌, ◌⊎◌, refl, ◌∙◌, true, List, [], ◌∷◌,
  ◌++◌, some, get_or, length, drop, leb, if◌then◌else◌, u8, bit_and, bit_or, arith, byte_table,
  all_below, bit_or-shifted, bit_and-low, ap, length-drop, length-append, Bool-cases, inl, inr,
}
use nanokvm_rdp.Hid.Utf8.{is_utf8_continuation, utf8_decode, utf8_encode}

-- The bytes of a code point, as sums.
abbrev pub two : ℕ → ℕ → List ℕ
two a b = (192 + a) ∷ (128 + b) ∷ []

abbrev pub three : ℕ → ℕ → ℕ → List ℕ
three a b c = (224 + a) ∷ (128 + b) ∷ (128 + c) ∷ []

abbrev pub four : ℕ → ℕ → ℕ → ℕ → List ℕ
four a b c d = (240 + a) ∷ (128 + b) ∷ (128 + c) ∷ (128 + d) ∷ []

top_bits : (byte : ℕ) → byte < 256 → bit_and byte 0xc0 ≡ byte / 64 * 64
unfolding all_below
top_bits byte h = byte_table (λ n. bit_and n 0xc0) (λ n. n / 64 * 64) byte refl h

continues-tail : (b : ℕ) → b < 64 → is_utf8_continuation (128 + b) ≡ true
unfolding is_utf8_continuation
continues-tail b h = rw (top_bits (128 + b) (omega arith)) (ground arith)

tail_bits : (b : ℕ) → b < 64 → bit_and (128 + b) 0x3f ≡ b
tail_bits b h = omega (arith, bit_and-low 6 (128 + b))

-- What stands in the text from `offset` on.
record Holds (text : List ℕ) (offset : ℕ) (bytes : List ℕ) (rest : List ℕ) : Type 0 where
  first : get_or text offset 0 ≡ get_or (bytes ++ rest) 0 0
  later : (k : ℕ) → get_or text (offset + k) 0 ≡ get_or (bytes ++ rest) k 0
  size : length text - offset ≡ length bytes + length rest

drop-Holds :
    (text : List ℕ) (offset : ℕ) (bytes rest : List ℕ)
    → drop offset text ≡ bytes ++ rest
    → Holds text offset bytes rest
drop-Holds text offset bytes rest h = record {
  first = start ∙ ap (λ t. get_or t 0 0) h;
  later = λ k. get_or-drop text offset k ∙ ap (λ t. get_or t k 0) h;
  size = omega (arith, ap length h, length-append bytes rest, length-drop offset text);
}
  where
    start : get_or text offset 0 ≡ get_or (drop offset text) 0 0
    start = ap (λ i. get_or text i 0) (omega arith) ∙ get_or-drop text offset 0

module _ (text : List ℕ) (offset : ℕ) (rest : List ℕ) where
  decode-two :
      (a b : ℕ)
      → 2 ≤ a
      → a < 32
      → b < 64
      → Holds text offset (two a b) rest
      → utf8_decode text offset ≡ (some (a * 64 + b), offset + 2)
  unfolding utf8_decode
  decode-two a b lo hi hb h =
      rw
        (
          h.first,
          h.later 1,
          continues-tail b hb,
          tail_bits b hb,
          bit_and-low 5 (192 + a),
          low,
          bit_or-shifted 6 a b hb,
        )
        (ground arith)
    where
      low : (192 + a) % 32 ≡ a
      low = omega arith

  decode-one :
      (a : ℕ)
      → a < 128
      → Holds text offset (a ∷ []) rest
      → utf8_decode text offset ≡ (some a, offset + 1)
  unfolding utf8_decode
  decode-one a h v = let size = v.size in rw v.first (ground arith)

  decode-three :
      (a b c : ℕ)
      → a < 16
      → b < 64
      → c < 64
      → (a ≡ 0 → 32 ≤ b)
      → (a ≡ 13 → b < 32)
      → Holds text offset (three a b c) rest
      → utf8_decode text offset ≡ (some (a * 4096 + b * 64 + c), offset + 3)
  unfolding utf8_decode
  decode-three a b c ha hb hc overlong surrogate h =
      rw
        (
          h.first,
          h.later 1,
          h.later 2,
          continues-tail b hb,
          continues-tail c hc,
          tail_bits b hb,
          tail_bits c hc,
          bit_and-low 4 (224 + a),
          low,
          fields,
        )
        (ground arith)
    where
      low : (224 + a) % 16 ≡ a
      low = omega arith

      fields : bit_or (bit_or (a * 2 ^ 12) (b * 2 ^ 6)) c ≡ a * 4096 + b * 64 + c
      fields =
          let regroup : a * 2 ^ 12 + b * 2 ^ 6 ≡ (a * 64 + b) * 2 ^ 6 = omega arith in
          rw
            (
              bit_or-shifted 12 a (b * 2 ^ 6) (omega arith),
              regroup,
              bit_or-shifted 6 (a * 64 + b) c hc,
            )
            (omega arith)

  decode-four :
      (a b c d : ℕ)
      → a < 5
      → b < 64
      → c < 64
      → d < 64
      → (a ≡ 0 → 16 ≤ b)
      → (a ≡ 4 → b < 16)
      → Holds text offset (four a b c d) rest
      → utf8_decode text offset ≡ (some (a * 262144 + b * 4096 + c * 64 + d), offset + 4)
  unfolding utf8_decode
  decode-four a b c d ha hb hc hd overlong last h =
      rw
        (
          h.first,
          h.later 1,
          h.later 2,
          h.later 3,
          continues-tail b hb,
          continues-tail c hc,
          continues-tail d hd,
          tail_bits b hb,
          tail_bits c hc,
          tail_bits d hd,
          bit_and-low 3 (240 + a),
          low,
          fields,
        )
        (ground arith)
    where
      low : (240 + a) % 8 ≡ a
      low = omega arith

      fields :
          bit_or (bit_or (bit_or (a * 2 ^ 18) (b * 2 ^ 12)) (c * 2 ^ 6)) d
          ≡ a * 262144 + b * 4096 + c * 64 + d
      fields =
          let first : a * 2 ^ 18 + b * 2 ^ 12 ≡ (a * 64 + b) * 2 ^ 12 = omega arith in
          let second : (a * 64 + b) * 2 ^ 12 + c * 2 ^ 6 ≡ (a * 4096 + b * 64 + c) * 2 ^ 6 =
            omega arith in
          rw
            (
              bit_or-shifted 18 a (b * 2 ^ 12) (omega arith),
              first,
              bit_or-shifted 12 (a * 64 + b) (c * 2 ^ 6) (omega arith),
              second,
              bit_or-shifted 6 (a * 4096 + b * 64 + c) d hd,
            )
            (omega arith)

tail_byte :
    (x shift : ℕ) → u8 (bit_or 0x80 (bit_and (x / 2 ^ shift) 0x3f)) ≡ 128 + x / 2 ^ shift % 64
tail_byte x shift =
    rw (bit_and-low 6 (x / 2 ^ shift), bit_or-shifted 6 2 (x / 2 ^ shift % 64) (omega arith))
      (omega arith)

-- A Unicode scalar value.
pub record IsScalar (codepoint : ℕ) : Type 0 where
  pub in_range : codepoint ≤ 0x10ffff
  pub not_surrogate : (codepoint < 0xd800) ⊎ (0xdfff < codepoint)

abbrev pub scalar_bytes : ℕ → List ℕ
scalar_bytes codepoint =
    if leb codepoint 0x7f
    then codepoint ∷ []
    else if leb codepoint 0x7ff
    then two (codepoint / 64) (codepoint % 64)
    else if leb codepoint 0xffff
    then three (codepoint / 4096) (codepoint / 64 % 64) (codepoint % 64)
    else four (codepoint / 262144) (codepoint / 4096 % 64) (codepoint / 64 % 64) (codepoint % 64)

pub encode-scalar_bytes :
    (codepoint : ℕ) → IsScalar codepoint → utf8_encode codepoint ≡ some (scalar_bytes codepoint)
unfolding utf8_encode
encode-scalar_bytes codepoint v = ground (
  arith,
  tail_byte codepoint 0,
  tail_byte codepoint 6,
  tail_byte codepoint 12,
  bit_or-shifted 6 3 (codepoint / 64),
  bit_or-shifted 5 7 (codepoint / 4096),
  bit_or-shifted 4 15 (codepoint / 262144),
)

decode-scalar_bytes :
    (codepoint : ℕ) (text : List ℕ) (offset : ℕ) (rest : List ℕ)
    → IsScalar codepoint
    → Holds text offset (scalar_bytes codepoint) rest
    → utf8_decode text offset ≡ (some codepoint, offset + length (scalar_bytes codepoint))
decode-scalar_bytes cp text offset rest v h = elim (Bool-cases (leb cp 0x7f)) [
  | inl one ↦ rw one (decode-one text offset rest cp (ground arith) (rw one at h))
  | inr above ↦ elim (Bool-cases (leb cp 0x7ff)) [
    | inl pair ↦
        rw (above, pair)
          (decode-two text offset rest (cp / 64) (cp % 64) (ground arith) (ground arith)
              (omega arith) (rw (above, pair) at h)
            ∙ ap (λ c. (some c, offset + 2)) (omega arith))
    | inr high ↦ elim (Bool-cases (leb cp 0xffff)) [
      | inl triple ↦
          rw (above, high, triple)
            (decode-three text offset rest (cp / 4096) (cp / 64 % 64) (cp % 64) (ground arith)
                (omega arith) (omega arith) (λ e. ground arith) (λ e. omega arith)
                (rw (above, high, triple) at h)
              ∙ ap (λ c. (some c, offset + 3)) (omega arith))
      | inr astral ↦
          rw (above, high, astral)
            (decode-four text offset rest (cp / 262144) (cp / 4096 % 64) (cp / 64 % 64) (cp % 64)
                (omega arith) (omega arith) (omega arith) (omega arith) (λ e. ground arith)
                (λ e. omega arith) (rw (above, high, astral) at h)
              ∙ ap (λ c. (some c, offset + 4)) (omega arith))
    ]
  ]
]

-- What the encoder writes for a scalar value the decoder reads back, at any place in a text and
-- whatever follows, and it moves past exactly those bytes.
pub utf8_decode-utf8_encode :
    (codepoint : ℕ) (text : List ℕ) (offset : ℕ) (bytes rest : List ℕ)
    → IsScalar codepoint
    → utf8_encode codepoint ≡ some bytes
    → drop offset text ≡ bytes ++ rest
    → utf8_decode text offset ≡ (some codepoint, offset + length bytes)
utf8_decode-utf8_encode codepoint text offset bytes rest v e h = rw same (
    decode-scalar_bytes codepoint text offset rest v
      (drop-Holds text offset (scalar_bytes codepoint) rest (rw same at h)))
  where
    same : bytes ≡ scalar_bytes codepoint
    same = cc (encode-scalar_bytes codepoint v)
