-- ===== src/Hid/Device/Typing.antt =====
-- Text input of src/hid.c: `tap_text_key`, `type_ascii_sequence`, `type_codepoint`, `paste_codepoint`
-- and the loop of `hid_type_utf8`.
use nanokvm_rdp.Prelude.{
  ℕ, zero, suc, Bool, true, false, ◌&&◌, ◌||◌, List, [], ◌∷◌, none, some, length, leb,
  if◌then◌else◌, bit_or,
}
use nanokvm_rdp.Hid.Utf8.{utf8_decode}
use nanokvm_rdp.Hid.Device.{Device, Outlet, none_held, hold, send_keyboard}
use nanokvm_rdp.Hid.Device.Layout.{
  TextKey, ascii_to_hid, hangul_jamo_sequence, codepoint_to_hangul_sequences,
}

module _ {S : Type 0} (out : Outlet S) where
  unfoldable pub tap_text_key : Device → TextKey → S → Bool × Device × S
  tap_text_key d key s =
      let down = record d {
        modifiers = bit_or d.modifiers key.modifier;
        usages = hold d.usages key.usage true;
      } in
      let (ok, d', s') = send_keyboard out down s in
      let up = record d' {
        modifiers = d.modifiers;
        usages = hold d'.usages key.usage (d.usages key.usage);
      } in
      if ok then send_keyboard out up s' else (false, d', s')

  unfoldable pub type_ascii_sequence : Device → List ℕ → S → Bool × Device × S
  type_ascii_sequence d [] s = (true, d, s)
  type_ascii_sequence d (c ∷ sequence) s = elim (ascii_to_hid c) [
    | none ↦ (false, d, s)
    | some key ↦
        let (ok, d', s') = tap_text_key d key s in
        let rest = type_ascii_sequence d' sequence s' in if ok then rest else (false, d', s')
  ]

  unfoldable pub type_syllable : Device → List ℕ → List ℕ → List ℕ → S → Bool × Device × S
  type_syllable d lead vowel trail s =
      let (first, d₁, s₁) = type_ascii_sequence d lead s in
      let (second, d₂, s₂) = type_ascii_sequence d₁ vowel s₁ in
      if first
      then if second then type_ascii_sequence d₂ trail s₂ else (false, d₂, s₂)
      else (false, d₁, s₁)

  -- A codepoint of the two Hangul ranges.
  unfoldable pub type_hangul : Device → ℕ → S → Bool × Device × S
  type_hangul d codepoint s = elim (codepoint_to_hangul_sequences codepoint) [
    | some (lead, vowel, trail) ↦ type_syllable d lead vowel trail s
    | none ↦ elim (hangul_jamo_sequence codepoint) [
      | some sequence ↦ type_ascii_sequence d sequence s
      | none ↦ (false, d, s)
    ]
  ]

  unfoldable pub type_codepoint : Device → ℕ → S → Bool × Device × S
  type_codepoint d codepoint s =
      if leb codepoint 0x7f
      then elim (ascii_to_hid codepoint) [
        | some key ↦ tap_text_key d key s
        | none ↦ type_hangul d codepoint s
      ]
      else type_hangul d codepoint s

  unfoldable pub paste_codepoint : Device → ℕ → S → Bool × Device × S
  paste_codepoint d codepoint s =
      let ready = record d {
        usages = hold none_held 0x19 true;
        modifiers = 0x08;
        keyboard_paste_codepoint = codepoint;
      } in
      let (queued, d', s') = send_keyboard out ready s in
      let pasted = record d' { keyboard_paste_codepoint = 0 } in
      let released = record pasted {
        usages = hold d'.usages 0x19 false;
        modifiers = d.modifiers;
      } in
      if d.paste_open
      then if queued then send_keyboard out released s' else (false, pasted, s')
      else (false, d, s)

  unfoldable pub type_or_paste : Device → ℕ → S → Bool × Device × S
  type_or_paste d codepoint s =
      if leb codepoint 0x7f
        || ((leb 0xac00 codepoint && leb codepoint 0xd7a3)
            || elim (hangul_jamo_sequence codepoint) [ some sequence ↦ true | none ↦ false ])
      then type_codepoint d codepoint s
      else paste_codepoint d codepoint s

  -- The loop over the text, from `offset` on.
  unfoldable pub type_text : ℕ → Device → List ℕ → ℕ → S → Bool × Device × S
  type_text zero d text offset s = (true, d, s)
  type_text (suc rounds) d text offset s =
      let decoded = utf8_decode text offset in
      let step = λ (codepoint : ℕ).
        let (ok, d', s') = type_or_paste d codepoint s in
        let rest = type_text rounds d' text decoded.1 s' in if ok then rest else (false, d', s') in
      if leb (length text) offset
      then (true, d, s)
      else elim decoded.0 [ none ↦ (false, d, s) | some codepoint ↦ step codepoint ]
