-- ===== src/Router/Text.antt =====
-- Text input from the gateway to the agent (src/input_router.c, src/agent.c and src/hid.c).
use nanokvm_rdp.Prelude.{
  ℕ, ◌^◌, ◌<◌, ◌≤◌, ◌≡◌, ◌⊎◌, ap, Bool, true, false, ◌&&◌, List, [], Option, none, some, length,
  ◌==◌, ltb, leb, arith, Bool-cases, inl, inr, ◌∙◌, sym, append-nil, ne→==,
}
use nanokvm_rdp.Protocol.{Message}
use nanokvm_rdp.Hid.Utf8.{utf8_encode, utf8_decode}
use nanokvm_rdp.Hid.Utf8.RoundTrip.{
  IsScalar, scalar_bytes, encode-scalar_bytes, utf8_decode-utf8_encode,
}
use nanokvm_rdp.Router.{Router, unicode, empty, texted}
use nanokvm_rdp.Agent.{dispatch, type_utf8}

encoded : Option (List ℕ) → Bool × Message
encoded none = (false, empty)
encoded (some bytes) = texted bytes

-- The router's encoder is that of the agent, for the code units.
unicode-encoded :
    (router : Router) (code : ℕ)
    → 0 < code
    → code < 2 ^ 16
    → unicode router code false ≡ encoded (utf8_encode code)
unfolding unicode utf8_encode encoded
unicode-encoded router code h0 h =
    let some_code : code == 0 ≡ false = ne→== code 0 (λ e. omega arith) in
    let low : ltb 0x10ffff code ≡ false = ground (arith, h) in
    let unit : leb code 0xffff ≡ true = ground (arith, h) in
    rw (some_code, low, unit)
      (elim (Bool-cases (leb 0xd800 code && leb code 0xdfff)) [
        | inl e ↦ rw e
        | inr e ↦ elim (Bool-cases (leb code 0x7f)) [
          | inl a ↦ rw (e, a)
          | inr a ↦ elim (Bool-cases (leb code 0x7ff)) [
            | inl b ↦ rw (e, a, b)
            | inr b ↦ rw (e, a, b)
          ]
        ]
      ])

surrogate-refused : (code : ℕ) → leb 0xd800 code && leb code 0xdfff ≡ true → utf8_encode code ≡ none
unfolding utf8_encode
surrogate-refused code e = ground (arith, e)

typed-scalar_bytes :
    (code : ℕ) → dispatch (texted (scalar_bytes code)).1 ≡ type_utf8 (scalar_bytes code)
unfolding dispatch
typed-scalar_bytes code = ground arith

-- A code unit that is not 0 and no surrogate goes out as a text that the agent types, and that
-- the agent's decoder reads as exactly this code point and nothing more; a surrogate is refused.
pub unicode-handled :
    (router : Router) (code : ℕ)
    → 0 < code
    → code < 2 ^ 16
    → (((code < 0xd800) ⊎ (0xdfff < code))
        × (bytes : List ℕ) × (unicode router code false ≡ texted bytes)
        × (dispatch (texted bytes).1 ≡ type_utf8 bytes)
        × (utf8_decode bytes 0 ≡ (some code, length bytes)))
      ⊎ ((0xd800 ≤ code) × (code ≤ 0xdfff) × (unicode router code false ≡ (false, empty)))
unfolding encoded
unicode-handled router code h0 h = elim (Bool-cases (leb 0xd800 code && leb code 0xdfff)) [
  | inl e ↦ inr (
    ground (arith, e),
    ground (arith, e),
    unicode-encoded router code h0 h ∙ ap encoded (surrogate-refused code e),
  )
  | inr e ↦
      let clear : (code < 0xd800) ⊎ (0xdfff < code) = ground (arith, e) in
      let scalar : IsScalar code = record { in_range = omega arith; not_surrogate = clear } in
      let bytes = scalar_bytes code in
      let same = encode-scalar_bytes code scalar in
      inl (
        clear,
        bytes,
        unicode-encoded router code h0 h ∙ ap encoded same,
        typed-scalar_bytes code,
        utf8_decode-utf8_encode code bytes 0 bytes [] scalar same (sym (append-nil bytes))
            ∙ ap (λ n. (some code, n)) (omega arith),
      )
]
