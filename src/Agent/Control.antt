-- ===== src/Agent/Control.antt =====
-- `handle_control` of src/agent.c: a message is turned into a call, the call is made on the HID state
-- or on the agent's flags, and a call that failed lets go of all input. The replies are the control
-- messages that are sent; what the three readings of the clock answer is an argument.
use nanokvm_rdp.Prelude.{
  ℕ, Bool, true, false, ◌&&◌, ◌||◌, List, [], ◌∷◌, ◌++◌, none, some, ltb, leb, ◌==◌, if◌then◌else◌,
  add_u64, sub_u64,
}
use nanokvm_rdp.Protocol.{
  Message, control_key, control_release_all, control_text_utf8, control_synchronize, control_pong,
  control_key_ack,
}
use nanokvm_rdp.Agent.{
  Call, start_stream, stop_stream, request_idr, scancode, type_utf8, absolute, relative, wheel,
  release_every, synchronize_hid, send_pong, note_pong, nothing, dispatch,
}
use nanokvm_rdp.Hid.Device.{Device, Outlet}
use nanokvm_rdp.Hid.Device
use nanokvm_rdp.Hid.Device.Pointing
use nanokvm_rdp.Hid.Device.Input

-- What a control message reads and writes of the agent.
pub record AgentState (S : Type 0) : Type 0 where
  pub device : Device
  pub outlet : S
  pub streaming : Bool
  pub wait_for_idr : Bool
  pub last_pong_at : ℕ
  pub input_events : ℕ
  pub max_input_handler_ms : ℕ

pub record Times : Type 0 where
  pub started : ℕ
  pub ponged : ℕ
  pub ended : ℕ

module _ {S : Type 0} (out : Outlet S) where
  -- The agent after a call on the HID state.
  abbrev pub with_device : AgentState S → Bool × Device × S → AgentState S
  with_device agent (ok, d, s) = record agent { device = d; outlet = s }

  unfoldable pub release_input : AgentState S → AgentState S
  release_input agent =
      let (d, s) = Pointing.release_all out agent.device agent.outlet in
      record agent { device = d; outlet = s }

  -- `succeeded`, the agent and the replies after the switch.
  unfoldable pub make_call : AgentState S → Call → ℕ → Bool × AgentState S × List Message
  make_call agent start_stream now =
      (true, record agent { streaming = true; wait_for_idr = true }, [])
  make_call agent stop_stream now = (true, release_input (record agent { streaming = false }), [])
  make_call agent request_idr now = (true, record agent { wait_for_idr = true }, [])
  make_call agent (scancode code extended release none) now =
      let r = Device.scancode out agent.device code extended release agent.outlet in
      (r.0, with_device agent r, [])
  make_call agent (scancode code extended release (some id)) now =
      let r = Device.scancode out agent.device code extended release agent.outlet in
      (
        r.0,
        with_device agent r,
        record { type = control_key_ack; payload = id ++ (if r.0 then 1 else 0) ∷ [] } ∷ [],
      )
  make_call agent (type_utf8 text) now =
      let r = Input.type_utf8 out agent.device text agent.outlet in
      (true, (if r.0 then with_device agent r else release_input (with_device agent r)), [])
  make_call agent (absolute x y width height flags) now =
      let r = Pointing.absolute out agent.device x y width height flags agent.outlet in
      (r.0, with_device agent r, [])
  make_call agent (relative x y buttons) now =
      let r = Pointing.relative out agent.device x y buttons agent.outlet in
      (r.0, with_device agent r, [])
  make_call agent (wheel flags) now =
      let r = Pointing.wheel out agent.device flags agent.outlet in (r.0, with_device agent r, [])
  make_call agent release_every now = (true, release_input agent, [])
  make_call agent synchronize_hid now =
      let r = Pointing.synchronize out agent.device agent.outlet in (r.0, with_device agent r, [])
  make_call agent send_pong now = (true, agent, record { type = control_pong; payload = [] } ∷ [])
  make_call agent note_pong now = (true, record agent { last_pong_at = now }, [])
  make_call agent nothing now = (true, agent, [])

  abbrev pub is_input : ℕ → Bool
  is_input type =
      (leb control_key type && leb type control_release_all)
      || (type == control_text_utf8 || type == control_synchronize)

  unfoldable pub count_input : AgentState S → Times → AgentState S
  count_input agent times =
      let elapsed = sub_u64 times.ended times.started in
      record agent {
        input_events = add_u64 agent.input_events 1;
        max_input_handler_ms =
            if ltb agent.max_input_handler_ms elapsed then elapsed else agent.max_input_handler_ms;
      }

  unfoldable pub handle_control : AgentState S → Message → Times → AgentState S × List Message
  handle_control agent message times =
      let (succeeded, called, replies) = make_call agent (dispatch message) times.ponged in
      let kept = if succeeded then called else release_input called in
      ((if is_input message.type then count_input kept times else kept), replies)
