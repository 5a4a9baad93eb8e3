-- ===== src/Hid/Device/Settled.antt =====
-- The pacing and the code point to paste belong to text input alone: the other operations of
-- src/hid.c leave them as they are.
use nanokvm_rdp.Prelude.{
  ℕ, ◌<◌, ◌≡◌, inl, inr, refl, ◌∙◌, Bool, true, false, ◌&&◌, ◌||◌, not, List, length, ◌==◌,
  if◌then◌else◌, Option-cases, bit_and, bit_xor, get_or, ltb, ◌-◌, ◌%◌, add_u64,
}
use nanokvm_rdp.Prelude.Int.{byte_of, signed_16}
use nanokvm_rdp.Hid.Keymap.{translate_scancode}
use nanokvm_rdp.Hid.Pointer.{pointer_buttons, scale_absolute}
use nanokvm_rdp.Hid.Device.{Device, Outlet, send_keyboard, scancode, set_key}
use nanokvm_rdp.Hid.Device.Layout.{ascii_to_hid}
use nanokvm_rdp.Hid.Device.Typing.{tap_text_key}
use nanokvm_rdp.Hid.Device.Pointing.{
  absolute_report, send_absolute, send_relative, keepalive, absolute, move, relative, wheel,
  synchronize, release_all, wheel_detents, any_held, button_flags, keepalive_interval_ms,
  touch_buttons_mask, mouse_buttons_mask,
}
use nanokvm_rdp.Hid.Device.Input.{finish_typing, type_afresh, type_utf8}
use nanokvm_rdp.Hid.Device.Release.{type_utf8-HoldsNothing}

-- No pacing, and nothing to paste.
pub record IsSettled (d : Device) : Type 0 where
  pub delay : d.keyboard_delay_ms ≡ 0
  pub paste : d.keyboard_paste_codepoint ≡ 0

module _ {S : Type 0} where
  if-IsSettled :
      (test : Bool) (r r' : Bool × Device × S)
      → IsSettled r.1
      → IsSettled r'.1
      → IsSettled (if test then r else r').1
  if-IsSettled true r r' p p' = p
  if-IsSettled false r r' p p' = p'

module _ {S : Type 0} where
  pick-delay :
      (test : Bool) (r r' : Bool × Device × S)
      → r.1.keyboard_delay_ms ≡ 0
      → r'.1.keyboard_delay_ms ≡ 0
      → (if test then r else r').1.keyboard_delay_ms ≡ 0
  pick-delay true r r' p p' = p
  pick-delay false r r' p p' = p'

pick-IsSettled :
    (test : Bool) (d d' : Device) → IsSettled d → IsSettled d' → IsSettled (if test then d else d')
pick-IsSettled true d d' p p' = p
pick-IsSettled false d d' p p' = p'

module _ {S : Type 0} (out : Outlet S) where
  send_keyboard-IsSettled : (d : Device) (s : S) → IsSettled d → IsSettled (send_keyboard out d s).1
  unfolding send_keyboard
  send_keyboard-IsSettled d s h = record { delay = h.delay; paste = h.paste }

  set_key-IsSettled :
      (d : Device) (usage modifier : ℕ) (release : Bool)
      → IsSettled d
      → IsSettled (set_key d usage modifier release)
  unfolding set_key
  set_key-IsSettled d usage modifier release h =
      pick-IsSettled (modifier == 0) _ _ (record { delay = h.delay; paste = h.paste })
        (record { delay = h.delay; paste = h.paste })

  pub scancode-IsSettled :
      (d : Device) (code : ℕ) (extended release : Bool) (s : S)
      → IsSettled d
      → IsSettled (scancode out d code extended release s).1
  unfolding scancode
  scancode-IsSettled d code extended release s h =
      elim (Option-cases (translate_scancode code extended)) [
        | inl e ↦ rw (e, scancode) h
        | inr ((usage, modifier), e) ↦
            rw (e, scancode)
              (if-IsSettled _ (true, d, s) (send_keyboard out _ s) h
                (send_keyboard-IsSettled _ s (set_key-IsSettled d usage modifier release h)))
      ]

  send_absolute-IsSettled :
      (d : Device) (motion : Bool) (s : S)
      → IsSettled d
      → IsSettled (send_absolute out d motion s).1
  unfolding send_absolute
  send_absolute-IsSettled d motion s h =
      let report = absolute_report d in
      let pure = motion && (d.wheel == 0 && d.pan == 0) in
      let now = out.write_absolute_now s report in
      if-IsSettled (pure && now.0) (true, d, now.1) (_, _, _) h
        (record { delay = h.delay; paste = h.paste })

  pub keepalive-IsSettled :
      (d : Device) (now_ms : ℕ) (s : S) → IsSettled d → IsSettled (keepalive out d now_ms s).1
  unfolding keepalive
  keepalive-IsSettled d now_ms s h =
      let again = record d { keepalive_at = add_u64 now_ms keepalive_interval_ms } in
      let turned = record again { keepalive_dx = (256 - d.keepalive_dx) % 256 } in
      let sent = send_relative out d d.keepalive_dx 0 0 s in
      let waits =
        ltb now_ms d.keepalive_at
        || ((out.keyboard_pending s || out.pointer_pending s)
            || (not (d.buttons == 0) || (not (d.modifiers == 0) || any_held 256 d.usages))) in
      if-IsSettled waits (true, d, s) (sent.0, if sent.0 then turned else again, sent.1) h
        (pick-IsSettled sent.0 turned again (record { delay = h.delay; paste = h.paste })
          (record { delay = h.delay; paste = h.paste }))

  pub absolute-IsSettled :
      (d : Device) (x y width height flags : ℕ) (s : S)
      → IsSettled d
      → IsSettled (absolute out d x y width height flags s).1
  unfolding absolute
  absolute-IsSettled d x y width height flags s h =
      let buttons = pointer_buttons d.buttons flags in
      let moved = record d {
        buttons = buttons;
        mouse_buttons = buttons;
        last_x = scale_absolute x width;
        last_y = scale_absolute y height;
      } in
      let r = send_absolute out moved (bit_and flags button_flags == 0) s in
      let clicked = send_relative out r.1 0 0 0 r.2 in
      let p =
        send_absolute-IsSettled moved (bit_and flags button_flags == 0) s
          (record { delay = h.delay; paste = h.paste }) in
      if-IsSettled r.0 _ (false, r.1, r.2)
        (if-IsSettled (bit_and (bit_xor d.buttons buttons) mouse_buttons_mask == 0) (true, r.1, r.2)
          (clicked.0, r.1, clicked.1) p p)
        p

  pub relative-IsSettled :
      (d : Device) (x y buttons : ℕ) (s : S)
      → IsSettled d
      → IsSettled (relative out d x y buttons s).1
  unfolding relative
  relative-IsSettled d x y buttons s h =
      let next = bit_and buttons touch_buttons_mask in
      let changed = bit_xor d.buttons next in
      let held = record d { buttons = next; mouse_buttons = next } in
      let p : IsSettled held = record { delay = h.delay; paste = h.paste } in
      let side = not (bit_and changed 0x18 == 0) in
      let r = send_absolute out held false s in
      let d' = if side then r.1 else held in
      let s' = if side then r.2 else s in
      let clicked = send_relative out d' 0 0 0 s' in
      let moved = move out 259 d' (signed_16 x) (signed_16 y) s' in
      let p' = pick-IsSettled side r.1 held (send_absolute-IsSettled held false s p) p in
      if-IsSettled (side && not r.0) (false, d', s') _ p'
        (if-IsSettled (x == 0 && y == 0) _ (moved.0, d', moved.1)
          (if-IsSettled (bit_and changed mouse_buttons_mask == 0) (true, d', s')
            (clicked.0, d', clicked.1) p' p')
          p')

  pub wheel-IsSettled :
      (d : Device) (flags : ℕ) (s : S) → IsSettled d → IsSettled (wheel out d flags s).1
  unfolding wheel
  wheel-IsSettled d flags s h =
      let vertical = not (bit_and flags 0x0200 == 0) in
      let horizontal = not (bit_and flags 0x0400 == 0) in
      let detents = byte_of (wheel_detents flags) in
      let panned = record d { pan = detents } in
      let turned = send_relative out d 0 0 detents s in
      if-IsSettled (not vertical && not horizontal) (true, d, s) _ h
        (if-IsSettled (horizontal && not vertical) _ (turned.0, d, turned.1)
          (if-IsSettled (d.absolute_report_length == 7) (send_absolute out panned false s)
            (true, d, s)
            (send_absolute-IsSettled panned false s (record { delay = h.delay; paste = h.paste }))
            h)
          h)

  pub synchronize-IsSettled : (d : Device) (s : S) → IsSettled (synchronize out d s).1
  unfolding synchronize
  synchronize-IsSettled d s =
      send_absolute-IsSettled _ false _
        (send_keyboard-IsSettled _ s (record { delay = refl; paste = refl }))

  pub release_all-IsSettled : (d : Device) (s : S) → IsSettled (release_all out d s).0
  unfolding release_all
  release_all-IsSettled d s = synchronize-IsSettled d (out.clear s)

  finish_typing-delay : (r : Bool × Device × S) → (finish_typing out r).1.keyboard_delay_ms ≡ 0
  unfolding finish_typing
  finish_typing-delay (true, d, s) = refl
  finish_typing-delay (false, d, s) = (release_all-IsSettled _ s).delay

  pub type_utf8-IsSettled :
      (d : Device) (text : List ℕ) (s : S)
      → 0 < length text
      → IsSettled d
      → IsSettled (type_utf8 out d text s).1
  unfolding type_utf8
  type_utf8-IsSettled d text s some_text h = record {
    delay = delayed;
    paste = elim (type_utf8-HoldsNothing out d text s some_text h.paste) [
      | inl k ↦ k.3.paste ∙ h.paste
      | inr k ↦ k.paste
    ];
  }
    where
      delayed : (type_utf8 out d text s).1.keyboard_delay_ms ≡ 0
      delayed =
          let paced = record d { keyboard_delay_ms = 20 } in
          let afresh = finish_typing out (type_afresh out paced text s) in
          let a = finish_typing-delay (type_afresh out paced text s) in
          elim (Option-cases (ascii_to_hid (get_or text 0 0))) [
            | inl n ↦
                rw (n, type_utf8)
                  (pick-delay _ (false, d, s) _ h.delay (pick-delay _ afresh afresh a a))
            | inr (key, n) ↦
                rw (n, type_utf8)
                  (pick-delay _ (false, d, s) _ h.delay
                    (pick-delay _ (finish_typing out (tap_text_key out paced key s)) afresh
                      (finish_typing-delay (tap_text_key out paced key s)) a))
          ]
