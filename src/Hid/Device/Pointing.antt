-- ===== src/Hid/Device/Pointing.antt =====
-- The pointer half of the HID state in src/hid.c, from `send_absolute` to `hid_release_all`, and the
-- keep-alive.
use nanokvm_rdp.Prelude.{
  ℕ, zero, suc, ◌-◌, ◌/◌, ◌%◌, ◌^◌, Bool, true, false, ◌&&◌, ◌||◌, not, List, [], ◌∷◌, ◌++◌, ltb,
  ◌==◌, if◌then◌else◌, u8, add_u64, bit_and, bit_xor,
}
use nanokvm_rdp.Prelude.Int.{ℤ, pos, negsuc, ◌-ℤ◌, signed_16, byte_of}
use nanokvm_rdp.Hid.Device.{Device, Outlet, reset_keyboard_state, send_keyboard}
use nanokvm_rdp.Hid.Pointer.{scale_absolute, pointer_buttons}

abbrev pub keepalive_interval_ms : ℕ
keepalive_interval_ms = 300000

abbrev pub mouse_buttons_mask : ℕ
mouse_buttons_mask = 0x07

abbrev pub touch_buttons_mask : ℕ
touch_buttons_mask = 0x1f

-- The five flags of the buttons.
abbrev pub button_flags : ℕ
button_flags = 0x7003

unfoldable pub absolute_report : Device → List ℕ
absolute_report d =
    let six =
      u8 (bit_and d.buttons 0x18)
      ∷ bit_and d.last_x 0xff
      ∷ u8 (d.last_x / 2 ^ 8)
      ∷ bit_and d.last_y 0xff
      ∷ u8 (d.last_y / 2 ^ 8)
      ∷ d.wheel
      ∷ [] in
    if d.absolute_report_length == 7 then six ++ d.pan ∷ [] else six

-- A step of a relative motion: one report moves by at most 127.
unfoldable pub step_of : ℤ → ℤ
step_of (pos n) = if ltb 127 n then pos 127 else pos n
step_of (negsuc n) = if ltb 126 n then negsuc 126 else negsuc n

abbrev pub is_zero : ℤ → Bool
is_zero (pos n) = n == 0
is_zero (negsuc n) = false

-- The notches of a 9-bit rotation, towards zero, and one at least for any rotation.
unfoldable pub wheel_detents : ℕ → ℤ
wheel_detents flags =
    let rotation = bit_and flags 0x1ff in
    let back = 0x200 - rotation in
    if bit_and rotation 0x100 == 0
    then pos (if rotation / 120 == 0 && not (rotation == 0) then 1 else rotation / 120)
    else (if back / 120 == 0 then negsuc 0 else negsuc (back / 120 - 1))

-- Whether any of the usages below `n` is held.
unfoldable pub any_held : ℕ → (ℕ → Bool) → Bool
any_held zero usages = false
any_held (suc n) usages = any_held n usages || usages n

module _ {S : Type 0} (out : Outlet S) where
  -- A submission to the pointer's queue.
  abbrev pub point : S → ℕ → List ℕ → Bool → Bool × S
  point s endpoint bytes motion = out.queue_report s (record {
    endpoint = endpoint;
    bytes = bytes;
    motion = motion;
    delay_ms = 0;
    paste_codepoint = 0;
  })

  unfoldable pub send_absolute : Device → Bool → S → Bool × Device × S
  send_absolute d motion s =
      let report = absolute_report d in
      let pure_motion = motion && (d.wheel == 0 && d.pan == 0) in
      let (now, s₁) = out.write_absolute_now s report in
      let s₂ = if pure_motion then s₁ else s in
      let (ok, s₃) = point s₂ 3 report pure_motion in
      if pure_motion && now then (true, d, s₁) else (ok, record d { wheel = 0; pan = 0 }, s₃)

  unfoldable pub send_relative : Device → ℕ → ℕ → ℕ → S → Bool × S
  send_relative d dx dy wheel s =
      point s 2 (bit_and d.buttons mouse_buttons_mask ∷ dx ∷ dy ∷ wheel ∷ []) false

  unfoldable pub keepalive : Device → ℕ → S → Bool × Device × S
  keepalive d now_ms s =
      let again = record d { keepalive_at = add_u64 now_ms keepalive_interval_ms } in
      let (ok, s') = send_relative d d.keepalive_dx 0 0 s in
      if ltb now_ms d.keepalive_at
        || ((out.keyboard_pending s || out.pointer_pending s)
            || (not (d.buttons == 0) || (not (d.modifiers == 0) || any_held 256 d.usages)))
      then (true, d, s)
      else (
        ok,
        (if ok then record again { keepalive_dx = (256 - d.keepalive_dx) % 256 } else again),
        s',
      )

  unfoldable pub absolute : Device → ℕ → ℕ → ℕ → ℕ → ℕ → S → Bool × Device × S
  absolute d x y width height flags s =
      let buttons = pointer_buttons d.buttons flags in
      let moved = record d {
        buttons = buttons;
        mouse_buttons = buttons;
        last_x = scale_absolute x width;
        last_y = scale_absolute y height;
      } in
      let (ok, d', s') = send_absolute moved (bit_and flags button_flags == 0) s in
      let (ok', s'') = send_relative d' 0 0 0 s' in
      if ok
      then if bit_and (bit_xor d.buttons buttons) mouse_buttons_mask == 0
        then (true, d', s')
        else (ok', d', s'')
      else (false, d', s')

  -- The loop over the reports of a motion; `rounds` is how many it may take.
  unfoldable pub move : ℕ → Device → ℤ → ℤ → S → Bool × S
  move zero d x y s = (true, s)
  move (suc rounds) d x y s =
      let dx = step_of x in
      let dy = step_of y in
      let (ok, s') = send_relative d (byte_of dx) (byte_of dy) 0 s in
      let rest = move rounds d (x -ℤ dx) (y -ℤ dy) s' in
      if is_zero x && is_zero y then (true, s) else if ok then rest else (false, s')

  unfoldable pub relative : Device → ℕ → ℕ → ℕ → S → Bool × Device × S
  relative d x y buttons s =
      let next = bit_and buttons touch_buttons_mask in
      let changed = bit_xor d.buttons next in
      let held = record d { buttons = next; mouse_buttons = next } in
      let side = not (bit_and changed 0x18 == 0) in
      let (ok, d₁, s₁) = send_absolute held false s in
      let d' = if side then d₁ else held in
      let s' = if side then s₁ else s in
      let (clicked, s₂) = send_relative d' 0 0 0 s' in
      let (moved, s₃) = move 259 d' (signed_16 x) (signed_16 y) s' in
      if side && not ok
      then (false, d', s')
      else if x == 0 && y == 0
      then if bit_and changed mouse_buttons_mask == 0 then (true, d', s') else (clicked, d', s₂)
      else (moved, d', s₃)

  unfoldable pub wheel : Device → ℕ → S → Bool × Device × S
  wheel d flags s =
      let vertical = not (bit_and flags 0x0200 == 0) in
      let horizontal = not (bit_and flags 0x0400 == 0) in
      let detents = byte_of (wheel_detents flags) in
      let (ok, s') = send_relative d 0 0 detents s in
      if not vertical && not horizontal
      then (true, d, s)
      else if horizontal && not vertical
      then if d.absolute_report_length == 7
        then send_absolute (record d { pan = detents }) false s
        else (true, d, s)
      else (ok, d, s')

  -- What `hid_synchronize` sends after it has let go of everything.
  unfoldable pub synchronize : Device → S → Bool × Device × S
  synchronize d s =
      let free = record (reset_keyboard_state d false) {
        keyboard_delay_ms = 0;
        keyboard_paste_codepoint = 0;
        buttons = 0;
        mouse_buttons = 0;
        wheel = 0;
        pan = 0;
      } in
      let (keyboard_ok, d₁, s₁) = send_keyboard out free s in
      let (mouse_ok, s₂) = point s₁ 2 (0 ∷ 0 ∷ 0 ∷ 0 ∷ []) false in
      let (absolute_ok, d₃, s₃) = send_absolute d₁ false s₂ in
      (keyboard_ok && (mouse_ok && absolute_ok), d₃, s₃)

  unfoldable pub release_all : Device → S → Device × S
  release_all d s = let (ok, d', s') = synchronize d (out.clear s) in (d', s')
