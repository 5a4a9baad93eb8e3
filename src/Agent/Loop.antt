-- ===== src/Agent/Loop.antt =====
-- What the agent's loop in src/agent.c does with the HID state: a control message, or the flush and the
-- keep-alive at the head of a round.
use nanokvm_rdp.Prelude.{ℕ, Bool, true, false, List, [], ◌∷◌, if◌then◌else◌}
use nanokvm_rdp.Protocol.{Message}
use nanokvm_rdp.Agent.Control.{AgentState, Times, with_device, release_input, handle_control}
use nanokvm_rdp.Hid.Device.Pointing.{keepalive}
use nanokvm_rdp.Hid.Queues.{Queues, Environment, queues_outlet, flush_all, init_queues, init_device}

pub data Event : Type 0 where
  control : Message → Times → Event
  round : Environment → ℕ → Event

module _ (env : ℕ → Environment) where
  -- The agent at the entry of its loop: `hid_init` and `hid_release_all`.
  unfoldable pub start : ℕ → ℕ → Bool → AgentState Queues
  start now absolute_report_length paste_open = release_input (queues_outlet env) (record {
    device = init_device now absolute_report_length paste_open;
    outlet = init_queues;
    streaming = false;
    wait_for_idr = true;
    last_pong_at = 0;
    input_events = 0;
    max_input_handler_ms = 0;
  })

  -- The keep-alive is tried if the flush succeeded, and a failure of either lets go of all input.
  unfoldable pub pump : AgentState Queues → Environment → ℕ → AgentState Queues
  pump agent e now_ms =
      let out = queues_outlet env in
      let flushed = flush_all agent.device agent.outlet e in
      let alive = keepalive out flushed.1 now_ms flushed.2 in
      let after =
        if alive.0
        then with_device out agent alive
        else release_input out (with_device out agent alive) in
      if flushed.0 then after else release_input out (with_device out agent flushed)

  unfoldable pub step : AgentState Queues → Event → AgentState Queues
  step agent (control message times) = (handle_control (queues_outlet env) agent message times).0
  step agent (round e now_ms) = pump agent e now_ms

  unfoldable pub run : AgentState Queues → List Event → AgentState Queues
  run agent [] = agent
  run agent (event ∷ events) = run (step agent event) events
