-- ===== src/Transport/KeyAck.antt =====
-- A key that the gateway wants acknowledged, from the request over the agent (src/agent.c) to the
-- answer (src/agent_transport.c).
use nanokvm_rdp.Prelude.{
  ℕ, ◌^◌, ◌<◌, ◌≡◌, ◌≢◌, refl, Bool, true, false, ◌&&◌, not, [], ◌∷◌, ◌++◌, some, get_or, length,
  ◌==◌, if◌then◌else◌, arith, eq→==, ne→==,
}
use nanokvm_rdp.Bytes.{write_u32, read_u32-write_u32}
use nanokvm_rdp.Protocol.{Message, control_key, control_key_ack}
use nanokvm_rdp.Agent.{dispatch}
use nanokvm_rdp.Agent.Control.{AgentState, Times, make_call, handle_control}
use nanokvm_rdp.Hid.Device
use nanokvm_rdp.Hid.Device.{Outlet}
use nanokvm_rdp.Transport.Phases.{is_fd-is_open}
use nanokvm_rdp.Transport.{
  Transport, is_current, is_open, handle_message, note_key_ack, begin_key_ack, get_key_ack,
}

-- The request for a key: its three bytes and the sequence.
abbrev pub key_request : ℕ → Bool → Bool → ℕ → Message
key_request code extended release sequence = record {
  type = control_key;
  payload = code ∷ (if extended then 1 else 0) ∷ (if release then 1 else 0) ∷ write_u32 sequence;
}

abbrev pub key_answer : ℕ → Bool → Message
key_answer sequence ok = record {
  type = control_key_ack;
  payload = write_u32 sequence ++ (if ok then 1 else 0) ∷ [];
}

module _ {S : Type 0} (out : Outlet S) where
  -- The agent answers a key with the sequence and the result of `hid_scancode`, which is true as well
  -- where no report is queued, for an unknown key or one that is in the wanted state already.
  handle_control-answer :
      (agent : AgentState S) (code : ℕ) (extended release : Bool) (sequence : ℕ) (times : Times)
      → (handle_control out agent (key_request code extended release sequence) times).1
        ≡ key_answer sequence
            (Device.scancode out agent.device code extended release agent.outlet).0
          ∷ []
  unfolding handle_control make_call dispatch write_u32
  handle_control-answer agent code true true sequence times = refl
  handle_control-answer agent code true false sequence times = refl
  handle_control-answer agent code false true sequence times = refl
  handle_control-answer agent code false false sequence times = refl

answer-size : (sequence flag : ℕ) → length (write_u32 sequence ++ flag ∷ []) ≡ 5
unfolding write_u32
answer-size sequence flag = refl

answer-flag : (sequence flag : ℕ) → get_or (write_u32 sequence ++ flag ∷ []) 4 0 ≡ flag
unfolding write_u32
answer-flag sequence flag = refl

flag-ok : (ok : Bool) → not ((if ok then 1 else 0) == 0) ≡ ok
flag-ok true = refl
flag-ok false = refl

note_key_ack-answer :
    (t : Transport) (sequence : ℕ) (ok : Bool)
    → sequence < 2 ^ 32
    → sequence ≢ 0
    → t.waiting_key_sequence ≡ sequence
    → get_key_ack (note_key_ack t (key_answer sequence ok).payload) sequence ≡ some (true, ok)
unfolding note_key_ack get_key_ack
note_key_ack-answer t sequence ok small nonzero waits =
    let read = read_u32-write_u32 sequence ((if ok then 1 else 0) ∷ []) small in
    rw
      (
        read,
        eq→== t.waiting_key_sequence sequence waits,
        ne→== sequence 0 nonzero,
        eq→== t.waiting_key_sequence sequence waits,
        answer-flag sequence (if ok then 1 else 0),
        flag-ok ok,
      )
      refl

handle_message-answer :
    (t : Transport) (fd epoch sequence now : ℕ) (ok : Bool)
    → sequence < 2 ^ 32
    → sequence ≢ 0
    → is_current t fd epoch ≡ true
    → t.waiting_key_sequence ≡ sequence
    → get_key_ack (handle_message t fd epoch (key_answer sequence ok) now).1 sequence
      ≡ some (true, ok)
unfolding handle_message
handle_message-answer t fd epoch sequence now ok small nonzero current waits =
    rw (current, answer-size sequence (if ok then 1 else 0))
      (note_key_ack-answer (record t { last_activity_at = now }) sequence ok small nonzero waits)

begin_key_ack-waits :
    (t : Transport) (fd epoch sequence : ℕ)
    → sequence ≢ 0
    → is_current t fd epoch ≡ true
    → t.supports_key_ack ≡ true
    → ((begin_key_ack t sequence).0 ≡ true)
      × ((begin_key_ack t sequence).1.waiting_key_sequence ≡ sequence)
      × (is_current (begin_key_ack t sequence).1 fd epoch ≡ true)
unfolding begin_key_ack is_current
begin_key_ack-waits t fd epoch sequence nonzero current supports =
    let held = is_fd-is_open t.fd fd (ground (arith, current)) in
    let starts : not (sequence == 0) && (not t.stopping && (is_open t.fd && t.supports_key_ack))
        ≡ true =
      ground (arith, held, current, supports, ne→== sequence 0 nonzero) in
    rw starts (refl, refl, current)

-- For a current connection whose agent acknowledges keys, and a sequence that is not 0: the wait for
-- it starts; the agent answers the key's request with one message; and once the transport has had
-- this message from the connection, it reports for the sequence that the ACK is there, and success
-- just when `hid_scancode` returned true for the key on the agent's device.
pub get_key_ack-handle_control :
    {S : Type 0} (out : Outlet S) (agent : AgentState S) (times : Times) (t : Transport)
    (fd epoch now : ℕ) (code : ℕ) (extended release : Bool) (sequence : ℕ)
    → sequence < 2 ^ 32
    → sequence ≢ 0
    → is_current t fd epoch ≡ true
    → t.supports_key_ack ≡ true
    → ((begin_key_ack t sequence).0 ≡ true)
      × ((handle_control out agent (key_request code extended release sequence) times).1
          ≡ key_answer sequence
              (Device.scancode out agent.device code extended release agent.outlet).0
            ∷ [])
      × (get_key_ack
            (handle_message
              (begin_key_ack t sequence).1
              fd
              epoch
              (key_answer sequence
                (Device.scancode out agent.device code extended release agent.outlet).0)
              now).1
            sequence
          ≡ some (true, (Device.scancode out agent.device code extended release agent.outlet).0))
get_key_ack-handle_control out agent times t fd epoch now code extended release sequence small
      nonzero current supports =
    let (starts, waits, still) = begin_key_ack-waits t fd epoch sequence nonzero current supports in
    (
      starts,
      handle_control-answer out agent code extended release sequence times,
      handle_message-answer (begin_key_ack t sequence).1 fd epoch sequence now _ small nonzero still
          waits,
    )
