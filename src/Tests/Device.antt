-- ===== src/Tests/Device.antt =====
-- The HID state of src/hid.c and the agent of src/agent.c at concrete inputs.
use nanokvm_rdp.Prelude.{
  ℕ, ◌≡◌, ◌≤◌, ◌≢◌, ◌⊎◌, inr, refl, true, false, List, [], ◌∷◌, length, arith,
}
use nanokvm_rdp.Prelude.Int.{pos, negsuc, signed_16}
use nanokvm_rdp.Hid.Queue.{Answer, ready, written}
use nanokvm_rdp.Hid.Device.Pointing.{
  relative, send_absolute, send_relative, move, step_of, wheel_detents,
}
use nanokvm_rdp.Hid.Device.Input.{type_utf8, finish_typing}
use nanokvm_rdp.Hid.Device.Typing.{tap_text_key}
use nanokvm_rdp.Hid.Device.Layout.{ascii_to_hid}
use nanokvm_rdp.Hid.Device.Release.{HoldsNothing, SameKeys, type_utf8-HoldsNothing}
use nanokvm_rdp.Hid.Device.Motion.{recorder, Travels, relative-Travels}
use nanokvm_rdp.Hid.Queues.{
  Queues, Environment, init_device, init_queues, empty_queue, poll_timeout,
}
use nanokvm_rdp.Hid.Queues.Waiting.{IsInTime, poll_timeout-IsInTime}
use nanokvm_rdp.Protocol.{Message, control_pointer_rel, control_text_utf8}
use nanokvm_rdp.Agent.Control.{AgentState, Times, make_call, handle_control}
use nanokvm_rdp.Hid.Device.{
  Device, Outlet, Submission, send_keyboard, collect, keyboard_report, hold, none_held,
}
use nanokvm_rdp.Bytes.{read_u16}
use nanokvm_rdp.Agent.{dispatch}
use nanokvm_rdp.Agent.Release.{IsReleased, Fails, handle_control-IsReleased}
use nanokvm_rdp.Agent.Loop.{control, round, start, run}
use nanokvm_rdp.Agent.Invariant.{IsReady, run-start-IsReady}

abbrev idle : Device
idle = init_device 0 6 true

-- "가A"
abbrev text : List ℕ
text = 0xea ∷ 0xb0 ∷ 0x80 ∷ 0x41 ∷ []

type_utf8-HoldsNothing_example :
    ((length text ≡ 1)
      × (idle.modifiers ≢ 0)
      × ((type_utf8 recorder idle text []).0 ≡ true)
      × SameKeys (type_utf8 recorder idle text []).1 idle)
    ⊎ HoldsNothing (type_utf8 recorder idle text []).1
type_utf8-HoldsNothing_example = type_utf8-HoldsNothing recorder idle text [] (omega arith) refl

-- 300 to the right and one up, with the left button held.
relative-Travels_example :
    Travels [] (signed_16 300) (signed_16 0xffff) (relative recorder idle 300 0xffff 1 [])
relative-Travels_example = relative-Travels idle 300 0xffff 1 [] (omega arith) (omega arith)

abbrev accepts : ℕ → Answer
accepts k = record { now = 20; poll = ready; write = written; pasted = true }

abbrev open_endpoints : ℕ → Environment
open_endpoints call = record {
  queued_at = call;
  early = accepts;
  late = accepts;
  touch_open = true;
  written = true;
}

run-start-IsReady_example : IsReady (
    run open_endpoints (start open_endpoints 5 6 false) (
      control
        (record { type = control_text_utf8; payload = text })
        (record { started = 1; ponged = 1; ended = 2 })
      ∷ round (open_endpoints 3) 100
      ∷ []))
run-start-IsReady_example = run-start-IsReady open_endpoints 5 6 false (
    control (record { type = control_text_utf8; payload = text })
      (record { started = 1; ponged = 1; ended = 2 })
    ∷ round (open_endpoints 3) 100
    ∷ [])

keyboard_report-two :
    keyboard_report
      (record idle { usages = hold (hold none_held 0x29 true) 0x04 true; modifiers = 2 })
    ≡ 2 ∷ 0 ∷ 0x04 ∷ 0x29 ∷ 0 ∷ 0 ∷ 0 ∷ 0 ∷ []
unfolding keyboard_report collect
keyboard_report-two = refl

wheel_detents-down : wheel_detents 0x0388 ≡ negsuc 0
unfolding wheel_detents
wheel_detents-down = refl

wheel_detents-up : wheel_detents 0x02f0 ≡ pos 2
unfolding wheel_detents
wheel_detents-up = refl

-- The pointer's reports are refused, as when the host has gone.
abbrev refusing : Outlet (List Submission)
refusing = record {
  queue_report = λ s submission. (false, s);
  keyboard_pending = λ s. false;
  pointer_pending = λ s. false;
  write_absolute_now = λ s bytes. (false, s);
  clear = λ s. [];
}

abbrev pressed : AgentState (List Submission)
pressed = record {
  device = record idle { modifiers = 2; buttons = 1; mouse_buttons = 1 };
  outlet = [];
  streaming = true;
  wait_for_idr = false;
  last_pong_at = 0;
  input_events = 0;
  max_input_handler_ms = 0;
}

-- A motion by (1, 0) with the button still down.
abbrev moved : Message
moved = record { type = control_pointer_rel; payload = 0 ∷ 1 ∷ 0 ∷ 0 ∷ 1 ∷ [] }

-- A text of one letter while a modifier is held.
abbrev lost : Message
lost = record { type = control_text_utf8; payload = b'a' ∷ [] }

lost-Fails : Fails refusing pressed (dispatch lost)
unfolding Fails dispatch type_utf8 finish_typing tap_text_key send_keyboard ascii_to_hid
lost-Fails = refl

abbrev times : Times
times = record { started = 1; ponged = 1; ended = 2 }

handle_control-IsReleased_example : IsReleased (handle_control refusing pressed lost times).0.device
handle_control-IsReleased_example =
    handle_control-IsReleased refusing pressed lost times (inr (inr lost-Fails))

moved-Fails : Fails refusing pressed (dispatch moved)
unfolding Fails dispatch relative send_absolute send_relative move read_u16 step_of
moved-Fails = refl

-- A failed text counts as a message that succeeded, and lets go of the input by itself.
lost-make_call : (make_call refusing pressed (dispatch lost) 1).0 ≡ true
unfolding make_call dispatch
lost-make_call = refl

-- A key report that may be sent at 30 ms, and nothing for the pointer.
abbrev waiting : Queues
waiting = record init_queues { keyboard = record empty_queue { count = 1; ready_at = 30 } }

poll_timeout-IsInTime_example :
    (poll_timeout waiting 18 20 ≤ 20)
    × IsInTime waiting.keyboard 18 (poll_timeout waiting 18 20)
    × IsInTime waiting.pointer 18 (poll_timeout waiting 18 20)
poll_timeout-IsInTime_example = poll_timeout-IsInTime waiting 18 20

poll_timeout-waiting : poll_timeout waiting 18 20 ≡ 12
unfolding poll_timeout
poll_timeout-waiting = refl
