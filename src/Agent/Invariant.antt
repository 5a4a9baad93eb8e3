-- ===== src/Agent/Invariant.antt =====
-- The state of the agent (src/agent.c) over any sequence of control messages, flushes and keep-alives.
use nanokvm_rdp.Prelude.{ℕ, Bool, true, false, List, [], ◌∷◌, none, some, if◌then◌else◌, arith}
use nanokvm_rdp.Protocol.{Message}
use nanokvm_rdp.Agent.{
  Call, start_stream, stop_stream, request_idr, scancode, type_utf8, absolute, relative, wheel,
  release_every, synchronize_hid, send_pong, note_pong, nothing, dispatch,
}
use nanokvm_rdp.Agent.Control.{
  AgentState, Times, with_device, release_input, make_call, is_input, count_input, handle_control,
}
use nanokvm_rdp.Agent.Loop.{Event, control, round, pump, step, run, start}
use nanokvm_rdp.Hid.Device.{Outlet, Device}
use nanokvm_rdp.Hid.Device.Pointing.{keepalive}
use nanokvm_rdp.Hid.Device.Input
use nanokvm_rdp.Hid.Device.Preserves.{
  scancode-P, absolute-P, relative-P, wheel-P, synchronize-P, release_all-P, type_utf8-P,
  keepalive-P,
}
use nanokvm_rdp.Hid.Device.Settled.{
  IsSettled, scancode-IsSettled, absolute-IsSettled, relative-IsSettled, wheel-IsSettled,
  synchronize-IsSettled, release_all-IsSettled, type_utf8-IsSettled, keepalive-IsSettled,
}
use nanokvm_rdp.Hid.Queues.{Queues, Environment, queues_outlet, flush_all}
use nanokvm_rdp.Hid.Queues.Rings.{
  AreRings, queues_outlet-Preserved, flush_all-AreRings, init_queues-AreRings,
}

pub record IsReady (agent : AgentState Queues) : Type 0 where
  pub rings : AreRings agent.outlet
  pub settled : IsSettled agent.device

if-IsReady :
    (test : Bool) (a b : AgentState Queues)
    → IsReady a
    → IsReady b
    → IsReady (if test then a else b)
if-IsReady true a b p q = p
if-IsReady false a b p q = q

flush_all-IsSettled :
    (d : Device) (q : Queues) (e : Environment) → IsSettled d → IsSettled (flush_all d q e).1
unfolding flush_all
flush_all-IsSettled d q e h = record { delay = h.delay; paste = h.paste }

module _ (env : ℕ → Environment) where
  abbrev out : Outlet Queues
  out = queues_outlet env

  release_input-IsReady :
      (agent : AgentState Queues) → AreRings agent.outlet → IsReady (release_input out agent)
  unfolding release_input
  release_input-IsReady agent h = record {
    rings = release_all-P out AreRings (queues_outlet-Preserved env) agent.device agent.outlet h;
    settled = release_all-IsSettled out agent.device agent.outlet;
  }

  type_utf8-IsReady :
      (agent : AgentState Queues) (text : List ℕ)
      → IsReady agent
      → IsReady (make_call out agent (type_utf8 text) 0).1
  unfolding make_call
  type_utf8-IsReady agent [] h = (unfold Input.type_utf8 in release_input-IsReady agent h.rings)
  type_utf8-IsReady agent (x ∷ xs) h =
      let r = Input.type_utf8 out agent.device (x ∷ xs) agent.outlet in
      let rings =
        type_utf8-P out AreRings (queues_outlet-Preserved env) agent.device (x ∷ xs) agent.outlet
          h.rings in
      if-IsReady r.0 (with_device out agent r) (release_input out (with_device out agent r))
        (record {
          rings = rings;
          settled =
              type_utf8-IsSettled out agent.device (x ∷ xs) agent.outlet (omega arith) h.settled;
        })
        (release_input-IsReady (with_device out agent r) rings)

  make_call-IsReady :
      (agent : AgentState Queues) (call : Call) (now : ℕ)
      → IsReady agent
      → IsReady (make_call out agent call now).1
  unfolding make_call
  make_call-IsReady agent start_stream now h = record { rings = h.rings; settled = h.settled }
  make_call-IsReady agent stop_stream now h = release_input-IsReady _ h.rings
  make_call-IsReady agent request_idr now h = record { rings = h.rings; settled = h.settled }
  make_call-IsReady agent (scancode code extended release none) now h = record {
    rings =
        scancode-P out AreRings (queues_outlet-Preserved env) agent.device code extended release
          agent.outlet h.rings;
    settled = scancode-IsSettled out agent.device code extended release agent.outlet h.settled;
  }
  make_call-IsReady agent (scancode code extended release (some id)) now h = record {
    rings =
        scancode-P out AreRings (queues_outlet-Preserved env) agent.device code extended release
          agent.outlet h.rings;
    settled = scancode-IsSettled out agent.device code extended release agent.outlet h.settled;
  }
  make_call-IsReady agent (type_utf8 text) now h = type_utf8-IsReady agent text h
  make_call-IsReady agent (absolute x y width height flags) now h = record {
    rings =
        absolute-P out AreRings (queues_outlet-Preserved env) agent.device x y width height flags
          agent.outlet h.rings;
    settled = absolute-IsSettled out agent.device x y width height flags agent.outlet h.settled;
  }
  make_call-IsReady agent (relative x y buttons) now h = record {
    rings =
        relative-P out AreRings (queues_outlet-Preserved env) agent.device x y buttons agent.outlet
          h.rings;
    settled = relative-IsSettled out agent.device x y buttons agent.outlet h.settled;
  }
  make_call-IsReady agent (wheel flags) now h = record {
    rings =
        wheel-P out AreRings (queues_outlet-Preserved env) agent.device flags agent.outlet h.rings;
    settled = wheel-IsSettled out agent.device flags agent.outlet h.settled;
  }
  make_call-IsReady agent release_every now h = release_input-IsReady agent h.rings
  make_call-IsReady agent synchronize_hid now h = record {
    rings =
        synchronize-P out AreRings (queues_outlet-Preserved env) agent.device agent.outlet h.rings;
    settled = synchronize-IsSettled out agent.device agent.outlet;
  }
  make_call-IsReady agent send_pong now h = h
  make_call-IsReady agent note_pong now h = record { rings = h.rings; settled = h.settled }
  make_call-IsReady agent nothing now h = h

  handle_control-IsReady :
      (agent : AgentState Queues) (message : Message) (times : Times)
      → IsReady agent
      → IsReady (handle_control out agent message times).0
  unfolding handle_control count_input
  handle_control-IsReady agent message times h =
      let r = make_call out agent (dispatch message) times.ponged in
      let called = make_call-IsReady agent (dispatch message) times.ponged h in
      let kept = if r.0 then r.1 else release_input out r.1 in
      let k =
        if-IsReady r.0 r.1 (release_input out r.1) called
          (release_input-IsReady r.1 called.rings) in
      if-IsReady (is_input out message.type) (count_input out kept times) kept
        (record { rings = k.rings; settled = k.settled }) k

  pump-IsReady :
      (agent : AgentState Queues) (e : Environment) (now_ms : ℕ)
      → IsReady agent
      → IsReady (pump env agent e now_ms)
  unfolding pump
  pump-IsReady agent e now_ms h =
      let flushed = flush_all agent.device agent.outlet e in
      let alive = keepalive out flushed.1 now_ms flushed.2 in
      let rings₁ = flush_all-AreRings agent.device agent.outlet e h.rings in
      let settled₁ = flush_all-IsSettled agent.device agent.outlet e h.settled in
      let rings₂ =
        keepalive-P out AreRings (queues_outlet-Preserved env) flushed.1 now_ms flushed.2 rings₁ in
      let settled₂ = keepalive-IsSettled out flushed.1 now_ms flushed.2 settled₁ in
      let a₁ = with_device out agent flushed in
      let a₂ = with_device out agent alive in
      if-IsReady flushed.0 _ (release_input out a₁)
        (if-IsReady alive.0 a₂ (release_input out a₂)
          (record { rings = rings₂; settled = settled₂ }) (release_input-IsReady a₂ rings₂))
        (release_input-IsReady a₁ rings₁)

  step-IsReady :
      (agent : AgentState Queues) (event : Event) → IsReady agent → IsReady (step env agent event)
  unfolding step
  step-IsReady agent (control message times) h = handle_control-IsReady agent message times h
  step-IsReady agent (round e now_ms) h = pump-IsReady agent e now_ms h

  run-IsReady :
      (events : List Event) (agent : AgentState Queues)
      → IsReady agent
      → IsReady (run env agent events)
  unfolding run
  run-IsReady [] agent h = h
  run-IsReady (event ∷ events) agent h =
      run-IsReady events (step env agent event) (step-IsReady agent event h)

  -- Whatever the endpoints answer, after the agent has started and has been through any sequence of
  -- control messages and rounds of its loop, both report queues are well-formed rings, and no pacing
  -- and no code point to paste is left over from text input.
  pub run-start-IsReady :
      (now absolute_report_length : ℕ) (paste_open : Bool) (events : List Event)
      → IsReady (run env (start env now absolute_report_length paste_open) events)
  unfolding start
  run-start-IsReady now absolute_report_length paste_open events =
      run-IsReady events _ (release_input-IsReady _ init_queues-AreRings)
