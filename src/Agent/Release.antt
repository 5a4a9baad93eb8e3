-- ===== src/Agent/Release.antt =====
-- When a control message leaves no input held (`handle_control` of src/agent.c).
use nanokvm_rdp.Prelude.{◌≡◌, ◌⊎◌, refl, ℕ, none, some, Bool, true, false, if◌then◌else◌, inl, inr}
use nanokvm_rdp.Protocol.{Message, control_stop_stream, control_release_all}
use nanokvm_rdp.Agent.{
  Call, start_stream, stop_stream, request_idr, scancode, type_utf8, absolute, relative, wheel,
  release_every, synchronize_hid, send_pong, note_pong, nothing, dispatch,
}
use nanokvm_rdp.Agent.Control.{
  AgentState, Times, release_input, make_call, is_input, count_input, handle_control,
}
use nanokvm_rdp.Hid.Device
use nanokvm_rdp.Hid.Device.Pointing
use nanokvm_rdp.Hid.Device.Input
use nanokvm_rdp.Hid.Device.{Device, Outlet, send_keyboard}
use nanokvm_rdp.Hid.Device.Pointing.{release_all, synchronize, send_absolute}
use nanokvm_rdp.Hid.Device.Release.{HoldsNothing, release_all-HoldsNothing}

-- No key is held, no button is down, and no wheel motion waits.
pub record IsReleased (d : Device) : Type 0 where
  pub keys : HoldsNothing d
  pub buttons : d.buttons ≡ 0
  pub mouse_buttons : d.mouse_buttons ≡ 0
  pub wheel : d.wheel ≡ 0
  pub pan : d.pan ≡ 0

module _ {S : Type 0} (out : Outlet S) where
  release_input-IsReleased : (agent : AgentState S) → IsReleased (release_input out agent).device
  unfolding release_input release_all synchronize send_keyboard send_absolute
  release_input-IsReleased agent = record {
    keys = release_all-HoldsNothing out agent.device agent.outlet;
    buttons = refl;
    mouse_buttons = refl;
    wheel = refl;
    pan = refl;
  }

  counted-IsReleased :
      (agent : AgentState S) (times : Times) (test : Bool)
      → IsReleased agent.device
      → IsReleased (if test then count_input out agent times else agent).device
  unfolding count_input
  counted-IsReleased agent times true h = h
  counted-IsReleased agent times false h = h

  -- The function of the HID state that the call goes to returns false.
  unfoldable pub Fails : AgentState S → Call → Type 0
  Fails agent (scancode code extended release id) =
      (Device.scancode out agent.device code extended release agent.outlet).0 ≡ false
  Fails agent (type_utf8 text) = (Input.type_utf8 out agent.device text agent.outlet).0 ≡ false
  Fails agent (absolute x y width height flags) =
      (Pointing.absolute out agent.device x y width height flags agent.outlet).0 ≡ false
  Fails agent (relative x y buttons) =
      (Pointing.relative out agent.device x y buttons agent.outlet).0 ≡ false
  Fails agent (wheel flags) = (Pointing.wheel out agent.device flags agent.outlet).0 ≡ false
  Fails agent synchronize_hid = (Pointing.synchronize out agent.device agent.outlet).0 ≡ false
  Fails agent start_stream = ⊥
  Fails agent stop_stream = ⊥
  Fails agent request_idr = ⊥
  Fails agent release_every = ⊥
  Fails agent send_pong = ⊥
  Fails agent note_pong = ⊥
  Fails agent nothing = ⊥

  failed-IsReleased :
      (agent : AgentState S) (call : Call) (now : ℕ)
      → Fails agent call
      → let r = make_call out agent call now in
        IsReleased (if r.0 then r.1 else release_input out r.1).device
  unfolding make_call Fails
  failed-IsReleased agent (scancode code extended release none) now e =
      rw e (release_input-IsReleased _)
  failed-IsReleased agent (scancode code extended release (some id)) now e =
      rw e (release_input-IsReleased _)
  failed-IsReleased agent (type_utf8 text) now e = rw e (release_input-IsReleased _)
  failed-IsReleased agent (absolute x y width height flags) now e =
      rw e (release_input-IsReleased _)
  failed-IsReleased agent (relative x y buttons) now e = rw e (release_input-IsReleased _)
  failed-IsReleased agent (wheel flags) now e = rw e (release_input-IsReleased _)
  failed-IsReleased agent synchronize_hid now e = rw e (release_input-IsReleased _)
  failed-IsReleased agent start_stream now e = absurd e
  failed-IsReleased agent stop_stream now e = absurd e
  failed-IsReleased agent request_idr now e = absurd e
  failed-IsReleased agent release_every now e = absurd e
  failed-IsReleased agent send_pong now e = absurd e
  failed-IsReleased agent note_pong now e = absurd e
  failed-IsReleased agent nothing now e = absurd e

  -- The messages and the failure that let go of everything.
  abbrev pub LetsGo : AgentState S → Message → Type 0
  LetsGo agent message =
      (message.type ≡ control_stop_stream)
      ⊎ ((message.type ≡ control_release_all) ⊎ Fails agent (dispatch message))

  called-IsReleased :
      (agent : AgentState S) (message : Message) (now : ℕ)
      → LetsGo agent message
      → let r = make_call out agent (dispatch message) now in
        IsReleased (if r.0 then r.1 else release_input out r.1).device
  unfolding make_call dispatch
  called-IsReleased agent message now (inl e) = rw (e, dispatch) (release_input-IsReleased _)
  called-IsReleased agent message now (inr (inl e)) = rw (e, dispatch) (release_input-IsReleased _)
  called-IsReleased agent message now (inr (inr e)) =
      failed-IsReleased agent (dispatch message) now e

  -- Whatever the outlet answers and whatever was held, after STOP_STREAM, after RELEASE_ALL, and
  -- after any key, text, pointer or synchronization message for which the function of the HID state
  -- returned false, no key is held, no button is down, and no wheel motion waits.
  pub handle_control-IsReleased :
      (agent : AgentState S) (message : Message) (times : Times)
      → LetsGo agent message
      → IsReleased (handle_control out agent message times).0.device
  unfolding handle_control
  handle_control-IsReleased agent message times h =
      counted-IsReleased _ times (is_input out message.type)
        (called-IsReleased agent message times.ponged h)
