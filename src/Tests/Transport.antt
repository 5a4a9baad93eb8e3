-- ===== src/Tests/Transport.antt =====
-- src/agent_transport.c at concrete connections.
use nanokvm_rdp.Prelude.{◌≡◌, refl, true, false, ◌&&◌, not, List, [], ◌∷◌, some, arith}
use nanokvm_rdp.Protocol.{Message, control_hello}
use nanokvm_rdp.Transport.{
  Transport, heartbeat_timeout, transport_init, admit, finish_accept, is_open, is_fd, is_hello,
  is_current, heartbeat, handle_message, begin_key_ack, get_key_ack,
}
use nanokvm_rdp.Transport.World.{
  World, greeting, initial, assign, arrive, settle, beat, Reaches, here, next, accept, greet, tick,
}
use nanokvm_rdp.Transport.Owned.{IsOwned, Reaches-IsOwned}
use nanokvm_rdp.Transport.Published.{IsOnce, Reaches-IsOnce}
use nanokvm_rdp.Transport.Silence.{Call, message, run, are_words, is_silent, run-is_silent}
use nanokvm_rdp.Transport.Silence
use nanokvm_rdp.Transport.KeyAck.{key_request, key_answer, get_key_ack-handle_control}
use nanokvm_rdp.Agent.Control.{AgentState, handle_control}
use nanokvm_rdp.Hid.Device
use nanokvm_rdp.Hid.Device.{Submission}
use nanokvm_rdp.Hid.Device.Motion.{recorder}
use nanokvm_rdp.Hid.Queues.{init_device}

abbrev hello : Message
hello = record {
  type = control_hello;
  payload = 7 ∷ 0x80 ∷ 4 ∷ 0x38 ∷ 0x0f ∷ 0xa0 ∷ 0 ∷ 0 ∷ 1 ∷ [];
}

abbrev greeted : World
greeted = settle (arrive initial 5) 5 (some hello) 7

-- An agent connects on descriptor 5 and says hello at 7 ms; six seconds later the gateway's beat
-- finds it silent.
greeted-Reaches : Reaches 3 (beat greeted 6007)
greeted-Reaches =
    next (next (next here (accept 5 refl)) (greet 5 (some hello) 7 greets)) (tick 6007)
  where
    greets : (arrive initial 5).phase 5 ≡ greeting
    greets = (unfold arrive admit assign is_open in refl)

Reaches-IsOwned_example : IsOwned 3 (beat greeted 6007).transport (beat greeted 6007).phase
Reaches-IsOwned_example = Reaches-IsOwned (omega arith) greeted-Reaches

Reaches-IsOnce_example : IsOnce (beat greeted 6007).transport (beat greeted 6007).published
Reaches-IsOnce_example = Reaches-IsOnce (omega arith) greeted-Reaches

published-beat : (beat greeted 6007).published ≡ (heartbeat_timeout, 1) ∷ []
unfolding beat settle arrive admit finish_accept is_open is_hello is_fd heartbeat
published-beat = refl

abbrev steady : Transport
steady = record transport_init {
  fd = some 5;
  epoch = 1;
  last_activity_at = 7;
  stream_requested = true;
  supports_key_ack = true;
}

-- A message at 4000 ms, a beat in time at 8000 ms, and one too late at 9001 ms.
abbrev calls : List Call
calls = message hello 4000 ∷ Silence.beat 8000 ∷ Silence.beat 9001 ∷ []

run-is_silent_example :
    ((run steady 5 1 calls).heartbeat_timed_out ≡ is_silent 7 calls)
    × ((run steady 5 1 calls).stream_requested ≡ true && not (is_silent 7 calls))
    × (is_current (run steady 5 1 calls) 5 1 ≡ true)
run-is_silent_example =
    run-is_silent steady 5 1 calls (unfold is_current is_fd in refl) refl (omega arith)
      (unfold are_words in refl)

silent-calls : is_silent 7 calls ≡ true
unfolding is_silent
silent-calls = refl

in_time-calls :
    is_silent 7 (message hello 4000 ∷ Silence.beat 8000 ∷ Silence.beat 9000 ∷ []) ≡ false
unfolding is_silent
in_time-calls = refl

-- The clock was read at 6 ms, and a message came in at 7 ms before the lock was taken.
silent-overtaken : is_silent 0 (message hello 7 ∷ Silence.beat 6 ∷ []) ≡ true
unfolding is_silent
silent-overtaken = refl

abbrev agent : AgentState (List Submission)
agent = record {
  device = init_device 0 6 false;
  outlet = [];
  streaming = false;
  wait_for_idr = true;
  last_pong_at = 0;
  input_events = 0;
  max_input_handler_ms = 0;
}

get_key_ack-handle_control_example :
    ((begin_key_ack steady 9).0 ≡ true)
    × ((handle_control recorder agent
          (key_request 0x1e false false 9)
          (record { started = 1; ponged = 1; ended = 2 })).1
        ≡ key_answer 9 (Device.scancode recorder agent.device 0x1e false false []).0 ∷ [])
    × (get_key_ack
          (handle_message
            (begin_key_ack steady 9).1
            5
            1
            (key_answer 9 (Device.scancode recorder agent.device 0x1e false false []).0)
            8).1
          9
        ≡ some (true, (Device.scancode recorder agent.device 0x1e false false []).0))
get_key_ack-handle_control_example =
    get_key_ack-handle_control recorder agent (record { started = 1; ponged = 1; ended = 2 }) steady
      5 1 8 0x1e false false 9 (omega arith) (λ e. absurd (omega arith)) current refl
  where
    current : is_current steady 5 1 ≡ true
    current = (unfold is_current is_fd in refl)
