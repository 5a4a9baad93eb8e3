-- ===== src/Transport.antt =====
-- The gateway's side of the control channel, src/agent_transport.c. What a function does between
-- taking the lock and giving it back is one function on the state, so that the calls of several
-- threads are sequences of these; a file descriptor of -1 is `none`. Transport/World is such a
-- sequence. The two locks and the callbacks are left out.
pub mod World
pub mod Phases
pub mod Hold
pub mod Owned
pub mod Published
pub mod KeyAck
pub mod Silence
use nanokvm_rdp.Prelude.{
  ℕ, ◌+◌, ◌-◌, Bool, true, false, ◌&&◌, ◌||◌, not, List, [], ◌∷◌, ◌++◌, Option, none, some, get_or,
  length, ltb, leb, ◌==◌, if◌then◌else◌, add_u64, sub_u64, bit_and,
}
use nanokvm_rdp.Bytes.{read_u32}
use nanokvm_rdp.Protocol.{Message, control_hello, control_ping, control_stats, control_key_ack}

abbrev pub heartbeat_interval_ms : ℕ
heartbeat_interval_ms = 1000

abbrev pub heartbeat_timeout_ms : ℕ
heartbeat_timeout_ms = 5000

pub data TransportEvent : Type 0 where
  disconnected heartbeat_timeout : TransportEvent

pub record Stats : Type 0 where
  pub sent_packets : ℕ
  pub dropped_packets : ℕ
  pub capture_frames : ℕ
  pub dropped_frames : ℕ

pub record Transport : Type 0 where
  pub fd : Option ℕ
  pub pending_fd : Option ℕ
  pub epoch : ℕ
  pub last_activity_at : ℕ
  pub last_ping_at : ℕ
  pub stream_requested : Bool
  pub supports_key_ack : Bool
  pub heartbeat_timed_out : Bool
  pub stopping : Bool
  pub waiting_key_sequence : ℕ
  pub key_ack_received : Bool
  pub key_ack_success : Bool
  pub stats : Stats

abbrev pub transport_init : Transport
transport_init = record {
  fd = none;
  pending_fd = none;
  epoch = 0;
  last_activity_at = 0;
  last_ping_at = 0;
  stream_requested = false;
  supports_key_ack = false;
  heartbeat_timed_out = false;
  stopping = false;
  waiting_key_sequence = 0;
  key_ack_received = false;
  key_ack_success = false;
  stats = record { sent_packets = 0; dropped_packets = 0; capture_frames = 0; dropped_frames = 0 };
}

-- `held == fd`, and `held >= 0`.
unfoldable pub is_fd : Option ℕ → ℕ → Bool
is_fd none fd = false
is_fd (some held) fd = held == fd

unfoldable pub is_open : Option ℕ → Bool
is_open none = false
is_open (some held) = true

abbrev pub cancel_key_ack : Transport → Transport
cancel_key_ack t = record t {
  waiting_key_sequence = 0;
  key_ack_received = false;
  key_ack_success = false;
}

unfoldable pub is_current : Transport → ℕ → ℕ → Bool
is_current t fd epoch = not t.stopping && (is_fd t.fd fd && t.epoch == epoch)

-- The first critical section of `agent_transport_accept`: one handshake at a time.
unfoldable pub admit : Transport → ℕ → Bool × Transport
admit t fd =
    if not t.stopping && not (is_open t.pending_fd)
    then (true, record t { pending_fd = some fd })
    else (false, t)

unfoldable pub is_hello : Option Message → Bool
is_hello none = false
is_hello (some hello) =
    hello.type == control_hello && (length hello.payload == 8 || length hello.payload == 9)

unfoldable pub has_key_ack : Option Message → Bool
has_key_ack none = false
has_key_ack (some hello) =
    length hello.payload == 9 && not (bit_and (get_or hello.payload 8 0) 0x01 == 0)

-- What the handshake leaves to do outside the lock: the descriptor to shut down, and whether to ask
-- for the stream.
pub record Accepted : Type 0 where
  pub epoch : ℕ
  pub replaced : Option ℕ
  pub send_start : Bool

-- The second critical section, with the message that was received, if one was.
unfoldable pub finish_accept : Transport → ℕ → Option Message → ℕ → Option Accepted × Transport
finish_accept t fd hello now =
    let freed = record t { pending_fd = if is_fd t.pending_fd fd then none else t.pending_fd } in
    let epoch = add_u64 t.epoch 1 in
    if is_hello hello && not t.stopping
    then (
      some (record { epoch = epoch; replaced = t.fd; send_start = t.stream_requested }),
      cancel_key_ack (record freed {
        fd = some fd;
        epoch = epoch;
        supports_key_ack = has_key_ack hello;
        last_activity_at = now;
        last_ping_at = now;
        heartbeat_timed_out = false;
      }),
    )
    else (none, freed)

unfoldable pub note_key_ack : Transport → List ℕ → Transport
note_key_ack t payload =
    if t.waiting_key_sequence == read_u32 payload 0
    then record t { key_ack_received = true; key_ack_success = not (get_or payload 4 0 == 0) }
    else t

abbrev pub read_stats : List ℕ → Stats
read_stats payload = record {
  sent_packets = read_u32 payload 0;
  dropped_packets = read_u32 payload 4;
  capture_frames = read_u32 payload 8;
  dropped_frames = read_u32 payload 12;
}

-- The result is `send_pong`.
unfoldable pub handle_message : Transport → ℕ → ℕ → Message → ℕ → Bool × Transport
handle_message t fd epoch message now =
    let active = record t { last_activity_at = now } in
    if is_current t fd epoch
    then if message.type == control_key_ack && length message.payload == 5
      then (false, note_key_ack active message.payload)
      else if message.type == control_stats && length message.payload == 16
      then (false, record active { stats = read_stats message.payload })
      else (message.type == control_ping, active)
    else (false, t)

-- The end of `agent_transport_run`; the result is whether the event is published.
unfoldable pub leave : Transport → ℕ → ℕ → Bool × Transport
leave t fd epoch =
    if is_fd t.fd fd && t.epoch == epoch
    then (not t.stopping, cancel_key_ack (record t { fd = none; supports_key_ack = false }))
    else (false, t)

-- agent_transport_shutdown
unfoldable pub shut_down : Transport → Transport
shut_down t = record t { stopping = true }

-- The descriptor and the epoch that a send captures.
unfoldable pub connection : Transport → Option (ℕ × ℕ)
connection t = elim t.fd [ none ↦ none | some fd ↦ if t.stopping then none else some (fd, t.epoch) ]

unfoldable pub set_stream_requested : Transport → Bool → Transport
set_stream_requested t requested = record t { stream_requested = requested }

-- What a heartbeat leaves to do outside the lock; a timeout has shut the descriptor down under it.
pub record Beat : Type 0 where
  pub timeout : Bool
  pub send_ping : Bool

unfoldable pub heartbeat : Transport → ℕ → Beat × Transport
heartbeat t now =
    if not t.stopping && is_open t.fd
    then if not t.heartbeat_timed_out && ltb heartbeat_timeout_ms (sub_u64 now t.last_activity_at)
      then (
        record { timeout = true; send_ping = false },
        record t { heartbeat_timed_out = true; stream_requested = false },
      )
      else if not t.heartbeat_timed_out && leb heartbeat_interval_ms (sub_u64 now t.last_ping_at)
      then (record { timeout = false; send_ping = true }, record t { last_ping_at = now })
      else (record { timeout = false; send_ping = false }, t)
    else (record { timeout = false; send_ping = false }, t)

unfoldable pub is_current_epoch : Transport → ℕ → Bool
is_current_epoch t epoch = not t.stopping && (is_open t.fd && t.epoch == epoch)

unfoldable pub current_epoch : Transport → ℕ
current_epoch t = if not t.stopping && is_open t.fd then t.epoch else 0

unfoldable pub can_key_ack : Transport → Bool
can_key_ack t = is_open t.fd && t.supports_key_ack

unfoldable pub begin_key_ack : Transport → ℕ → Bool × Transport
begin_key_ack t sequence =
    if not (sequence == 0) && (not t.stopping && (is_open t.fd && t.supports_key_ack))
    then (
      true,
      record t {
        waiting_key_sequence = sequence;
        key_ack_received = false;
        key_ack_success = false;
      },
    )
    else (false, t)

-- Whether the ACK is there and whether it reports success, if the sequence is waited for.
unfoldable pub get_key_ack : Transport → ℕ → Option (Bool × Bool)
get_key_ack t sequence =
    if not (sequence == 0) && t.waiting_key_sequence == sequence
    then some (t.key_ack_received, t.key_ack_success)
    else none
