-- ===== src/Hid/Device/Preserves.antt =====
-- What the outlet keeps under its own calls it keeps under every operation of src/hid.c.
use nanokvm_rdp.Prelude.{
  ℕ, zero, suc, Bool, true, false, ◌&&◌, not, List, [], ◌∷◌, length, ◌==◌, if◌then◌else◌, bit_and,
  bit_xor, get_or, inl, inr, Option-cases,
}
use nanokvm_rdp.Prelude.Int.{ℤ, ◌-ℤ◌, byte_of, signed_16}
use nanokvm_rdp.Hid.Keymap.{translate_scancode}
use nanokvm_rdp.Hid.Utf8.{utf8_decode}
use nanokvm_rdp.Hid.Device.{
  Device, Submission, Outlet, send_keyboard, scancode, reset_keyboard_state,
}
use nanokvm_rdp.Hid.Device.Layout.{
  TextKey, ascii_to_hid, hangul_jamo_sequence, codepoint_to_hangul_sequences,
}
use nanokvm_rdp.Hid.Device.Typing.{
  tap_text_key, type_ascii_sequence, type_syllable, type_hangul, type_codepoint, paste_codepoint,
  type_or_paste, type_text,
}
use nanokvm_rdp.Hid.Device.Pointing.{
  send_absolute, send_relative, keepalive, absolute, move, relative, wheel, synchronize,
  release_all, step_of, wheel_detents, touch_buttons_mask, mouse_buttons_mask,
}
use nanokvm_rdp.Hid.Device.Input.{finish_typing, type_afresh, type_utf8}

pub record Preserved {S : Type 0} (out : Outlet S) (P : S → Type 0) : Type 0 where
  pub queue_report : (s : S) (submission : Submission) → P s → P (out.queue_report s submission).1
  pub write_absolute_now : (s : S) (bytes : List ℕ) → P s → P (out.write_absolute_now s bytes).1
  pub clear : (s : S) → P s → P (out.clear s)

module _ {S : Type 0} (P : S → Type 0) where
  if-P : (test : Bool) (r r' : Bool × Device × S) → P r.2 → P r'.2 → P (if test then r else r').2
  if-P true r r' p p' = p
  if-P false r r' p p' = p'

  if-P₁ : (test : Bool) (r r' : Bool × S) → P r.1 → P r'.1 → P (if test then r else r').1
  if-P₁ true r r' p p' = p
  if-P₁ false r r' p p' = p'

  if-P₀ : (test : Bool) (s s' : S) → P s → P s' → P (if test then s else s')
  if-P₀ true s s' p p' = p
  if-P₀ false s s' p p' = p'

module _ {S : Type 0} (out : Outlet S) (P : S → Type 0) (keeps : Preserved out P) where
  send_keyboard-P : (d : Device) (s : S) → P s → P (send_keyboard out d s).2
  unfolding send_keyboard
  send_keyboard-P d s p = keeps.queue_report s _ p

  pub scancode-P :
      (d : Device) (code : ℕ) (extended release : Bool) (s : S)
      → P s
      → P (scancode out d code extended release s).2
  unfolding scancode
  scancode-P d code extended release s p = elim (Option-cases (translate_scancode code extended)) [
    | inl e ↦ rw (e, scancode) p
    | inr ((usage, modifier), e) ↦
        rw (e, scancode) (if-P P _ (true, d, s) (send_keyboard out _ s) p (send_keyboard-P _ s p))
  ]

  tap_text_key-P : (d : Device) (key : TextKey) (s : S) → P s → P (tap_text_key out d key s).2
  unfolding tap_text_key
  tap_text_key-P d key s p =
      let p₁ = send_keyboard-P _ s p in
      if-P P _ (send_keyboard out _ _) (false, _, _) (send_keyboard-P _ _ p₁) p₁

  type_ascii_sequence-P :
      (sequence : List ℕ) (d : Device) (s : S) → P s → P (type_ascii_sequence out d sequence s).2
  unfolding type_ascii_sequence
  type_ascii_sequence-P [] d s p = p
  type_ascii_sequence-P (c ∷ sequence) d s p = elim (Option-cases (ascii_to_hid c)) [
    | inl n ↦ rw (n, type_ascii_sequence) p
    | inr (key, n) ↦
        let r = tap_text_key out d key s in
        let p₁ = tap_text_key-P d key s p in
        rw (n, type_ascii_sequence)
          (if-P P r.0 (type_ascii_sequence out r.1 sequence r.2) (false, r.1, r.2)
            (type_ascii_sequence-P sequence r.1 r.2 p₁) p₁)
  ]

  type_syllable-P :
      (d : Device) (lead vowel trail : List ℕ) (s : S)
      → P s
      → P (type_syllable out d lead vowel trail s).2
  unfolding type_syllable
  type_syllable-P d lead vowel trail s p =
      let first = type_ascii_sequence out d lead s in
      let second = type_ascii_sequence out first.1 vowel first.2 in
      let p₁ = type_ascii_sequence-P lead d s p in
      let p₂ = type_ascii_sequence-P vowel first.1 first.2 p₁ in
      if-P P first.0 _ (false, first.1, first.2)
        (if-P P second.0 (type_ascii_sequence out second.1 trail second.2)
          (false, second.1, second.2) (type_ascii_sequence-P trail second.1 second.2 p₂) p₂)
        p₁

  type_hangul-P : (d : Device) (codepoint : ℕ) (s : S) → P s → P (type_hangul out d codepoint s).2
  unfolding type_hangul
  type_hangul-P d codepoint s p = elim (Option-cases (codepoint_to_hangul_sequences codepoint)) [
    | inr ((lead, vowel, trail), e) ↦ rw (e, type_hangul) (type_syllable-P d lead vowel trail s p)
    | inl e ↦ elim (Option-cases (hangul_jamo_sequence codepoint)) [
      | inl f ↦ rw (e, f, type_hangul) p
      | inr (sequence, f) ↦ rw (e, f, type_hangul) (type_ascii_sequence-P sequence d s p)
    ]
  ]

  type_codepoint-P :
      (d : Device) (codepoint : ℕ) (s : S) → P s → P (type_codepoint out d codepoint s).2
  unfolding type_codepoint
  type_codepoint-P d codepoint s p = elim (Option-cases (ascii_to_hid codepoint)) [
    | inl n ↦
        rw (n, type_codepoint)
          (if-P P _ (type_hangul out d codepoint s) (type_hangul out d codepoint s)
            (type_hangul-P d codepoint s p) (type_hangul-P d codepoint s p))
    | inr (key, n) ↦
        rw (n, type_codepoint)
          (if-P P _ (tap_text_key out d key s) (type_hangul out d codepoint s)
            (tap_text_key-P d key s p) (type_hangul-P d codepoint s p))
  ]

  paste_codepoint-P :
      (d : Device) (codepoint : ℕ) (s : S) → P s → P (paste_codepoint out d codepoint s).2
  unfolding paste_codepoint
  paste_codepoint-P d codepoint s p =
      let p₁ = send_keyboard-P _ s p in
      if-P P d.paste_open _ (false, d, s)
        (if-P P _ (send_keyboard out _ _) (false, _, _) (send_keyboard-P _ _ p₁) p₁) p

  type_or_paste-P :
      (d : Device) (codepoint : ℕ) (s : S) → P s → P (type_or_paste out d codepoint s).2
  unfolding type_or_paste
  type_or_paste-P d codepoint s p =
      if-P P _ (type_codepoint out d codepoint s) (paste_codepoint out d codepoint s)
        (type_codepoint-P d codepoint s p) (paste_codepoint-P d codepoint s p)

  type_text-P :
      (rounds : ℕ) (d : Device) (text : List ℕ) (offset : ℕ) (s : S)
      → P s
      → P (type_text out rounds d text offset s).2
  unfolding type_text
  type_text-P zero d text offset s p = p
  type_text-P (suc rounds) d text offset s p = elim (Option-cases (utf8_decode text offset).0) [
    | inl n ↦ rw (n, type_text) (if-P P _ (true, d, s) (false, d, s) p p)
    | inr (codepoint, n) ↦
        let r = type_or_paste out d codepoint s in
        let after = (utf8_decode text offset).1 in
        let p₁ = type_or_paste-P d codepoint s p in
        rw (n, type_text)
          (if-P P _ (true, d, s) _ p
            (if-P P r.0 (type_text out rounds r.1 text after r.2) (false, r.1, r.2)
              (type_text-P rounds r.1 text after r.2 p₁) p₁))
  ]

  send_absolute-P : (d : Device) (motion : Bool) (s : S) → P s → P (send_absolute out d motion s).2
  unfolding send_absolute
  send_absolute-P d motion s p =
      let p₁ = keeps.write_absolute_now s _ p in
      if-P P _ (true, d, _) (_, _, _) p₁ (keeps.queue_report _ _ (if-P₀ P _ _ s p₁ p))

  send_relative-P :
      (d : Device) (dx dy turn : ℕ) (s : S) → P s → P (send_relative out d dx dy turn s).1
  unfolding send_relative
  send_relative-P d dx dy turn s p = keeps.queue_report s _ p

  pub keepalive-P : (d : Device) (now_ms : ℕ) (s : S) → P s → P (keepalive out d now_ms s).2
  unfolding keepalive
  keepalive-P d now_ms s p =
      if-P P _ (true, d, s) (_, _, _) p (send_relative-P d d.keepalive_dx 0 0 s p)

  pub absolute-P :
      (d : Device) (x y width height flags : ℕ) (s : S)
      → P s
      → P (absolute out d x y width height flags s).2
  unfolding absolute
  absolute-P d x y width height flags s p =
      let p₁ = send_absolute-P _ _ s p in
      if-P P _ _ (false, _, _) (if-P P _ (true, _, _) (_, _, _) p₁ (send_relative-P _ 0 0 0 _ p₁))
        p₁

  move-P : (rounds : ℕ) (d : Device) (x y : ℤ) (s : S) → P s → P (move out rounds d x y s).1
  unfolding move
  move-P zero d x y s p = p
  move-P (suc rounds) d x y s p =
      let p₁ = send_relative-P d _ _ 0 s p in
      if-P₁ P _ (true, s) _ p
        (if-P₁ P _ (move out rounds d (x -ℤ step_of x) (y -ℤ step_of y) _) (false, _)
          (move-P rounds d (x -ℤ step_of x) (y -ℤ step_of y) _ p₁) p₁)

  pub relative-P : (d : Device) (x y buttons : ℕ) (s : S) → P s → P (relative out d x y buttons s).2
  unfolding relative
  relative-P d x y buttons s p =
      let next = bit_and buttons touch_buttons_mask in
      let changed = bit_xor d.buttons next in
      let held = record d { buttons = next; mouse_buttons = next } in
      let side = not (bit_and changed 0x18 == 0) in
      let r = send_absolute out held false s in
      let d' = if side then r.1 else held in
      let s' = if side then r.2 else s in
      let clicked = send_relative out d' 0 0 0 s' in
      let moved = move out 259 d' (signed_16 x) (signed_16 y) s' in
      let p' = if-P₀ P side r.2 s (send_absolute-P held false s p) p in
      if-P P (side && not r.0) (false, d', s') _ p'
        (if-P P (x == 0 && y == 0) _ (moved.0, d', moved.1)
          (if-P P (bit_and changed mouse_buttons_mask == 0) (true, d', s')
            (clicked.0, d', clicked.1) p' (send_relative-P d' 0 0 0 s' p'))
          (move-P 259 d' (signed_16 x) (signed_16 y) s' p'))

  pub wheel-P : (d : Device) (flags : ℕ) (s : S) → P s → P (wheel out d flags s).2
  unfolding wheel
  wheel-P d flags s p =
      let vertical = not (bit_and flags 0x0200 == 0) in
      let horizontal = not (bit_and flags 0x0400 == 0) in
      let detents = byte_of (wheel_detents flags) in
      let panned = record d { pan = detents } in
      let turned = send_relative out d 0 0 detents s in
      if-P P (not vertical && not horizontal) (true, d, s) _ p
        (if-P P (horizontal && not vertical) _ (turned.0, d, turned.1)
          (if-P P (d.absolute_report_length == 7) (send_absolute out panned false s) (true, d, s)
            (send_absolute-P panned false s p) p)
          (send_relative-P d 0 0 detents s p))

  pub synchronize-P : (d : Device) (s : S) → P s → P (synchronize out d s).2
  unfolding synchronize
  synchronize-P d s p = send_absolute-P _ false _ (keeps.queue_report _ _ (send_keyboard-P _ s p))

  pub release_all-P : (d : Device) (s : S) → P s → P (release_all out d s).1
  unfolding release_all
  release_all-P d s p = synchronize-P d (out.clear s) (keeps.clear s p)

  finish_typing-P : (r : Bool × Device × S) → P r.2 → P (finish_typing out r).2
  unfolding finish_typing
  finish_typing-P (true, d, s) p = p
  finish_typing-P (false, d, s) p = release_all-P _ s p

  pub type_utf8-P : (d : Device) (text : List ℕ) (s : S) → P s → P (type_utf8 out d text s).2
  unfolding type_utf8
  type_utf8-P d text s p =
      let paced = record d { keyboard_delay_ms = 20 } in
      let afresh = finish_typing-P (type_afresh out paced text s) (type_afresh-P paced) in
      elim (Option-cases (ascii_to_hid (get_or text 0 0))) [
        | inl n ↦
            rw (n, type_utf8)
              (if-P P _ (false, d, s) _ p
                (if-P P _ (finish_typing out _) (finish_typing out _) afresh afresh))
        | inr (key, n) ↦
            rw (n, type_utf8)
              (if-P P _ (false, d, s) _ p
                (if-P P _ (finish_typing out _) (finish_typing out _)
                  (finish_typing-P (tap_text_key out paced key s) (tap_text_key-P paced key s p))
                  afresh))
      ]
    where
      type_afresh-P : (e : Device) → P (type_afresh out e text s).2
      type_afresh-P e =
          (unfold type_afresh in
            let p₁ = send_keyboard-P (reset_keyboard_state e false) s p in
            if-P P _ (type_text out (length text) _ text 0 _) (false, _, _)
              (type_text-P (length text) _ text 0 _ p₁) p₁)
