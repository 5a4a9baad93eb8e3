-- ===== src/Agent.antt =====
-- The agent's side of the control channel: the switch of `handle_control` in src/agent.c, which turns
-- a message into a call. Agent/Control makes the call.
pub mod Control
pub mod Loop
pub mod Invariant
pub mod Release
use nanokvm_rdp.Prelude.{
  ℕ, Bool, not, List, Option, none, some, get_or, length, take, drop, ltb, ◌==◌, if◌then◌else◌,
}
use nanokvm_rdp.Bytes.{read_u16}
use nanokvm_rdp.Protocol.{
  Message, control_start_stream, control_stop_stream, control_idr_request, control_ping,
  control_pong, control_key, control_pointer_abs, control_pointer_rel, control_wheel,
  control_release_all, control_text_utf8, control_synchronize,
}

-- The calls that the switch makes: on the HID state, on the stream's flags, on the socket. A key
-- carries the four bytes of a request for an ACK, if it has them.
pub data Call : Type 0 where
  start_stream stop_stream request_idr : Call
  scancode : ℕ → Bool → Bool → Option (List ℕ) → Call
  type_utf8 : List ℕ → Call
  absolute : ℕ → ℕ → ℕ → ℕ → ℕ → Call
  relative : ℕ → ℕ → ℕ → Call
  wheel : ℕ → Call
  release_every : Call
  synchronize_hid : Call
  send_pong note_pong : Call
  nothing : Call

unfoldable pub dispatch : Message → Call
dispatch message =
    let type = message.type in
    let payload = message.payload in
    let size = length payload in
    let key =
      scancode (get_or payload 0 0) (not (get_or payload 1 0 == 0))
        (not (get_or payload 2 0 == 0)) in
    if type == control_start_stream
    then start_stream
    else if type == control_stop_stream
    then stop_stream
    else if type == control_idr_request
    then request_idr
    else if type == control_key
    then if size == 3
      then key none
      else if size == 7
      then key (some (take 4 (drop 3 payload)))
      else nothing
    else if type == control_text_utf8
    then if ltb 0 size then type_utf8 payload else nothing
    else if type == control_pointer_abs
    then if size == 12
      then absolute (read_u16 payload 0) (read_u16 payload 2) (read_u16 payload 4)
          (read_u16 payload 6) (read_u16 payload 8)
      else nothing
    else if type == control_pointer_rel
    then if size == 5
      then relative (read_u16 payload 0) (read_u16 payload 2) (get_or payload 4 0)
      else nothing
    else if type == control_wheel
    then if size == 2 then wheel (read_u16 payload 0) else nothing
    else if type == control_release_all
    then release_every
    else if type == control_synchronize
    then synchronize_hid
    else if type == control_ping
    then send_pong
    else if type == control_pong
    then note_pong
    else nothing
