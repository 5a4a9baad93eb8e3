-- ===== src/Hid/Device/Input.antt =====
-- `hid_type_utf8` of src/hid.c.
use nanokvm_rdp.Prelude.{
  ℕ, Bool, true, false, ◌&&◌, not, List, none, some, get_or, length, ◌==◌, if◌then◌else◌,
}
use nanokvm_rdp.Hid.Device.{Device, Outlet, reset_keyboard_state, send_keyboard}
use nanokvm_rdp.Hid.Device.Layout.{ascii_to_hid}
use nanokvm_rdp.Hid.Device.Typing.{tap_text_key, type_text}
use nanokvm_rdp.Hid.Device.Pointing.{release_all}

module _ {S : Type 0} (out : Outlet S) where
  -- The end of `hid_type_utf8`: the pacing is off, and a failure lets go of everything.
  unfoldable pub finish_typing : Bool × Device × S → Bool × Device × S
  finish_typing (true, d, s) = (true, record d { keyboard_delay_ms = 0 }, s)
  finish_typing (false, d, s) =
      let (d', s') = release_all out (record d { keyboard_delay_ms = 0 }) s in (false, d', s')

  unfoldable pub type_afresh : Device → List ℕ → S → Bool × Device × S
  type_afresh d text s =
      let (ok, d', s') = send_keyboard out (reset_keyboard_state d false) s in
      if ok then type_text out (length text) d' text 0 s' else (false, d', s')

  unfoldable pub type_utf8 : Device → List ℕ → S → Bool × Device × S
  type_utf8 d text s =
      let paced = record d { keyboard_delay_ms = 20 } in
      let afresh = finish_typing (type_afresh paced text s) in
      if length text == 0
      then (false, d, s)
      else if length text == 1 && not (d.modifiers == 0)
      then elim (ascii_to_hid (get_or text 0 0)) [
        | some key ↦ finish_typing (tap_text_key out paced key s)
        | none ↦ afresh
      ]
      else afresh
