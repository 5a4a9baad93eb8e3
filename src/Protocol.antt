-- ===== src/Protocol.antt =====
-- The control protocol: src/protocol.c and src/protocol.h.
-- A socket is what passes through it. What a system call answers is an event of the environment: a
-- loop takes one event for each call, and ends where no event is left, as the call has not
-- answered yet.
pub mod Framing
pub mod Sending
use nanokvm_rdp.Prelude.{
  ℕ, zero, suc, ◌+◌, ◌-◌, Bool, true, false, ◌&&◌, ◌||◌, not, List, [], ◌∷◌, ◌++◌, Option, none,
  some, get_or, length, take, drop, ltb, leb, ◌==◌, if◌then◌else◌, min,
}
use nanokvm_rdp.Bytes.{write_u16, read_u16}

abbrev pub max_payload : ℕ
max_payload = 1024

abbrev pub version : ℕ
version = 1

-- NanokvmControlType, as the numbers on the wire.
abbrev pub control_start_stream : ℕ
control_start_stream = 2

abbrev pub control_stop_stream : ℕ
control_stop_stream = 3

abbrev pub control_idr_request : ℕ
control_idr_request = 4

abbrev pub control_key : ℕ
control_key = 5

abbrev pub control_pointer_abs : ℕ
control_pointer_abs = 6

abbrev pub control_pointer_rel : ℕ
control_pointer_rel = 7

abbrev pub control_wheel : ℕ
control_wheel = 8

abbrev pub control_release_all : ℕ
control_release_all = 9

abbrev pub control_ping : ℕ
control_ping = 10

abbrev pub control_pong : ℕ
control_pong = 11

abbrev pub control_text_utf8 : ℕ
control_text_utf8 = 14

abbrev pub control_hello : ℕ
control_hello = 1

abbrev pub control_stats : ℕ
control_stats = 12

abbrev pub control_key_ack : ℕ
control_key_ack = 15

abbrev pub control_synchronize : ℕ
control_synchronize = 16

-- The payload is the list of its `length` bytes.
pub record Message : Type 0 where
  pub type : ℕ
  pub payload : List ℕ

-- `write` takes some bytes (at most one more than the number), is interrupted (EINTR), or fails.
pub data WriteEvent : Type 0 where
  wrote : ℕ → WriteEvent
  write_interrupted : WriteEvent
  write_failed : WriteEvent

-- The result, `none` while `write` has not answered, and the bytes that went out.
unfoldable pub write_all : List WriteEvent → List ℕ → Option Bool × List ℕ
write_all events [] = (some true, [])
write_all [] (x ∷ xs) = (none, [])
write_all (wrote k ∷ events) (x ∷ xs) =
    let (result, out) = write_all events (drop k xs) in (result, x ∷ (take k xs ++ out))
write_all (write_interrupted ∷ events) (x ∷ xs) = write_all events (x ∷ xs)
write_all (write_failed ∷ events) (x ∷ xs) = (some false, [])

unfoldable pub frame : ℕ → List ℕ → List ℕ
frame type payload = version ∷ type ∷ (write_u16 (length payload) ++ payload)

pub record Sent : Type 0 where
  pub result : Option Bool
  pub bytes : List ℕ
  pub shut_down : Bool

-- A send that fails after the length check shuts the socket down.
unfoldable pub protocol_send : List WriteEvent → ℕ → List ℕ → Sent
protocol_send events type payload =
    let (result, out) = write_all events (frame type payload) in
    if ltb max_payload (length payload)
    then record { result = some false; bytes = []; shut_down = false }
    else record {
      result = result;
      bytes = out;
      shut_down = elim result [ some false ↦ true | _ ↦ false ];
    }

-- `recv` hands over some of the bytes that have arrived (at most one more than the number, and no
-- more than were asked for), is interrupted, has nothing yet (EAGAIN), or fails or is closed.
pub data RecvEvent : Type 0 where
  arrived : ℕ → RecvEvent
  recv_interrupted would_block recv_failed : RecvEvent

pub data Status : Type 0 where
  complete partial closed : Status

-- The reader is the list of the `used` bytes that it holds; `stream` is what the socket still has.
pub record Received : Type 0 where
  pub status : Status
  pub message : Option Message
  pub reader : List ℕ
  pub stream : List ℕ

-- What the top of the loop finds: a message, a frame that is refused, or how many bytes to have.
pub data Progress : Type 0 where
  done : Message → Progress
  refused : Progress
  needs : ℕ → Progress

unfoldable pub progress : List ℕ → Progress
progress reader =
    let size = read_u16 reader 2 in
    if leb 4 (length reader)
    then if not (get_or reader 0 0 == version) || ltb max_payload size
      then refused
      else if length reader == 4 + size
      then done (record { type = get_or reader 1 0; payload = take size (drop 4 reader) })
      else needs (4 + size)
    else needs 4

-- `recv` of at most `wanted` bytes that hands over at most `k + 1`.
abbrev pub taken : ℕ → ℕ → ℕ
taken k wanted = min (suc k) wanted

abbrev pub finished : Message → List ℕ → Received
finished message stream = record {
  status = complete;
  message = some message;
  reader = [];
  stream = stream;
}

abbrev pub stopped : Status → List ℕ → List ℕ → Received
stopped status reader stream = record {
  status = status;
  message = none;
  reader = reader;
  stream = stream;
}

-- protocol_receive_available: 1, 0 and -1 are `complete`, `partial` and `closed`.
unfoldable pub receive_available : List RecvEvent → List ℕ → List ℕ → Received
receive_available [] reader stream = elim (progress reader) [
  | done message ↦ finished message stream
  | refused ↦ stopped closed reader stream
  | needs n ↦ stopped partial reader stream
]
receive_available (arrived k ∷ events) reader stream = elim (progress reader) [
  | done message ↦ finished message stream
  | refused ↦ stopped closed reader stream
  | needs n ↦
      let got = taken k (n - length reader) in
      let next = receive_available events (reader ++ take got stream) (drop got stream) in
      if length stream == 0 then stopped partial reader stream else next
]
receive_available (recv_interrupted ∷ events) reader stream = elim (progress reader) [
  | done message ↦ finished message stream
  | refused ↦ stopped closed reader stream
  | needs n ↦ receive_available events reader stream
]
receive_available (would_block ∷ events) reader stream = elim (progress reader) [
  | done message ↦ finished message stream
  | refused ↦ stopped closed reader stream
  | needs n ↦ stopped partial reader stream
]
receive_available (recv_failed ∷ events) reader stream = elim (progress reader) [
  | done message ↦ finished message stream
  | refused ↦ stopped closed reader stream
  | needs n ↦ stopped closed reader stream
]
