-- ===== src/Transport/World.antt =====
-- The threads of src/agent_transport.c around one transport: the descriptors of the process, each
-- with what the thread that owns it does, and the critical sections in any order. A thread that owns
-- a descriptor is in `agent_transport_accept` or in `agent_transport_run`, and closes it on its way
-- out, at the earliest with the last critical section; other threads stop the transport, ask for the stream, beat, and wait for ACKs. The kernel
-- gives a new connection a number that is not in use.
use nanokvm_rdp.Prelude.{
  ℕ, zero, suc, ◌≡◌, Bool, List, [], ◌∷◌, Option, none, some, ◌==◌, if◌then◌else◌,
}
use nanokvm_rdp.Protocol.{Message}
use nanokvm_rdp.Transport.{
  Transport, TransportEvent, disconnected, heartbeat_timeout, transport_init, admit, finish_accept,
  handle_message, leave, shut_down, set_stream_requested, heartbeat, begin_key_ack,
}

-- A descriptor is not in use, in its handshake, or the connection of an epoch.
pub data Phase : Type 0 where
  unused : Phase
  greeting : Phase
  running : ℕ → Phase

-- `published` has the events of `publish_event` in the order in which the critical sections decide on
-- them, the last one first.
pub record World : Type 0 where
  pub transport : Transport
  pub phase : ℕ → Phase
  pub published : List (TransportEvent × ℕ)

abbrev pub initial : World
initial = record { transport = transport_init; phase = λ fd. unused; published = [] }

unfoldable pub assign : (ℕ → Phase) → ℕ → Phase → ℕ → Phase
assign phase fd next u = if u == fd then next else phase u

abbrev pub publish_if :
    Bool → TransportEvent → ℕ → List (TransportEvent × ℕ) → List (TransportEvent × ℕ)
publish_if test event epoch published = if test then (event, epoch) ∷ published else published

-- The owner of a descriptor in its handshake accepts the connection or closes it.
unfoldable pub settle : World → ℕ → Option Message → ℕ → World
settle w fd hello now =
    let (accepted, t) = finish_accept w.transport fd hello now in
    let next : Phase = elim accepted [ none ↦ unused | some a ↦ running a.epoch ] in
    record w { transport = t; phase = assign w.phase fd next }

unfoldable pub arrive : World → ℕ → World
arrive w fd =
    let (admitted, t) = admit w.transport fd in
    record w { transport = t; phase = if admitted then assign w.phase fd greeting else w.phase }

unfoldable pub depart : World → ℕ → ℕ → World
depart w fd epoch =
    let (lost, t) = leave w.transport fd epoch in
    record {
      transport = t;
      phase = assign w.phase fd unused;
      published = publish_if lost disconnected epoch w.published;
    }

unfoldable pub beat : World → ℕ → World
beat w now =
    let (b, t) = heartbeat w.transport now in
    record w {
      transport = t;
      published = publish_if b.timeout heartbeat_timeout w.transport.epoch w.published;
    }

pub data Step (w : World) : World → Type 0 where
  accept : (fd : ℕ) → w.phase fd ≡ unused → Step w (arrive w fd)
  greet :
      (fd : ℕ) (hello : Option Message) (now : ℕ)
      → w.phase fd ≡ greeting
      → Step w (settle w fd hello now)
  receive :
      (fd epoch : ℕ) (message : Message) (now : ℕ)
      → w.phase fd ≡ running epoch
      → Step w (record w { transport = (handle_message w.transport fd epoch message now).1 })
  close : (fd epoch : ℕ) → w.phase fd ≡ running epoch → Step w (depart w fd epoch)
  stop : Step w (record w { transport = shut_down w.transport })
  request :
      (requested : Bool)
      → Step w (record w { transport = set_stream_requested w.transport requested })
  tick : (now : ℕ) → Step w (beat w now)
  await : (sequence : ℕ) → Step w (record w { transport = (begin_key_ack w.transport sequence).1 })

-- Worlds after a number of steps from the start.
pub data Reaches : ℕ → World → Type 0 where
  here : Reaches zero initial
  next : {n : ℕ} {w u : World} → Reaches n w → Step w u → Reaches (suc n) u
