-- ===== src/Transport/Published.antt =====
-- The events that src/agent_transport.c publishes, over all threads.
use nanokvm_rdp.Prelude.{
  ℕ, suc, ◌≤◌, ◌<◌, ◌^◌, ◌≡◌, refl, Bool, true, false, ◌&&◌, not, List, [], ◌∷◌, Option, length,
  ◌==◌, ltb, leb, if◌then◌else◌, arith, Bool-cases, inl, inr, add_u64, sub_u64,
}
use nanokvm_rdp.Bytes.{read_u32}
use nanokvm_rdp.Protocol.{Message, control_key_ack, control_stats}
use nanokvm_rdp.Transport.{
  Transport, TransportEvent, disconnected, heartbeat_timeout, admit, finish_accept, handle_message,
  leave, shut_down, set_stream_requested, heartbeat, begin_key_ack, note_key_ack, is_fd, is_open,
  is_hello, is_current, heartbeat_timeout_ms, heartbeat_interval_ms,
}
use nanokvm_rdp.Transport.World.{
  World, publish_if, settle, arrive, depart, beat, Step, accept, greet, receive, close, stop,
  request, tick, await, Reaches, here, next,
}
use nanokvm_rdp.Transport.Owned.{Reaches-IsOwned}
use nanokvm_rdp.Transport.Phases.{is_fd-is_open}

abbrev pub same_event : TransportEvent → TransportEvent → Bool
same_event disconnected disconnected = true
same_event disconnected heartbeat_timeout = false
same_event heartbeat_timeout disconnected = false
same_event heartbeat_timeout heartbeat_timeout = true

-- The epochs for which an event was published, the last one first.
unfoldable pub epochs_of : TransportEvent → List (TransportEvent × ℕ) → List ℕ
epochs_of event [] = []
epochs_of event ((e, epoch) ∷ published) =
    if same_event event e then epoch ∷ epochs_of event published else epochs_of event published

-- Below `bound`, and each number below the one before it.
abbrev pub Falls : ℕ → List ℕ → Type 0
Falls bound [] = Unit
Falls bound (n ∷ ns) = (n < bound) × Falls n ns

Falls-weaken : (a b : ℕ) (ns : List ℕ) → a ≤ b → Falls a ns → Falls b ns
Falls-weaken a b [] h f = tt
Falls-weaken a b (n ∷ ns) h f = (omega (arith, f.0), f.1)

-- An epoch can still lose its connection, and a connection its heartbeat.
abbrev alive : Transport → Bool
alive t = is_open t.fd

abbrev beating : Transport → Bool
beating t = is_open t.fd && not t.heartbeat_timed_out

abbrev bound : Bool → ℕ → ℕ
bound test epoch = if test then epoch else suc epoch

pub record IsOnce (t : Transport) (published : List (TransportEvent × ℕ)) : Type 0 where
  pub lost : Falls (bound (alive t) t.epoch) (epochs_of disconnected published)
  pub silent : Falls (bound (beating t) t.epoch) (epochs_of heartbeat_timeout published)

-- What a call that opens, closes and times out nothing keeps.
record Same (t u : Transport) : Type 0 where
  fd : u.fd ≡ t.fd
  epoch : u.epoch ≡ t.epoch
  heartbeat_timed_out : u.heartbeat_timed_out ≡ t.heartbeat_timed_out

Same-IsOnce :
    (t u : Transport) (published : List (TransportEvent × ℕ))
    → Same t u
    → IsOnce t published
    → IsOnce u published
Same-IsOnce t u published s h =
    rw (s.fd, s.epoch, s.heartbeat_timed_out) (record { lost = h.lost; silent = h.silent })

if-Same {ℓ} :
    {A : Type ℓ} (t : Transport) (test : Bool) (r r' : A × Transport)
    → Same t r.1
    → Same t r'.1
    → Same t (if test then r else r').1
if-Same t true r r' p p' = p
if-Same t false r r' p p' = p'

abbrev kept : (t : Transport) → Same t t
kept t = record { fd = refl; epoch = refl; heartbeat_timed_out = refl }

note_key_ack-Same :
    (t u : Transport) (payload : List ℕ) → Same t u → Same t (note_key_ack u payload)
unfolding note_key_ack
note_key_ack-Same t u payload s = elim (Bool-cases (u.waiting_key_sequence == read_u32 payload 0)) [
  | inl e ↦
      rw e (record { fd = s.fd; epoch = s.epoch; heartbeat_timed_out = s.heartbeat_timed_out })
  | inr e ↦ rw e s
]

handle_message-Same :
    (t : Transport) (fd epoch : ℕ) (message : Message) (now : ℕ)
    → Same t (handle_message t fd epoch message now).1
unfolding handle_message
handle_message-Same t fd epoch message now =
    let active : Same t (record t { last_activity_at = now }) = record {
      fd = refl;
      epoch = refl;
      heartbeat_timed_out = refl;
    } in
    if-Same t (is_current t fd epoch) _ _
      (if-Same t (message.type == control_key_ack && length message.payload == 5) _ _
        (note_key_ack-Same t _ message.payload active)
        (if-Same t (message.type == control_stats && length message.payload == 16) _ _
          (record { fd = refl; epoch = refl; heartbeat_timed_out = refl }) active))
      (kept t)

begin_key_ack-Same : (t : Transport) (sequence : ℕ) → Same t (begin_key_ack t sequence).1
unfolding begin_key_ack
begin_key_ack-Same t sequence =
    if-Same t (not (sequence == 0) && (not t.stopping && (is_open t.fd && t.supports_key_ack))) _ _
      (record { fd = refl; epoch = refl; heartbeat_timed_out = refl }) (kept t)

admit-Same : (t : Transport) (fd : ℕ) → Same t (admit t fd).1
unfolding admit
admit-Same t fd =
    if-Same t (not t.stopping && not (is_open t.pending_fd)) _ _
      (record { fd = refl; epoch = refl; heartbeat_timed_out = refl }) (kept t)

bound-le : (test : Bool) (epoch : ℕ) → bound test epoch ≤ suc epoch
bound-le test epoch = ground arith

settle-IsOnce :
    (w : World) (fd : ℕ) (hello : Option Message) (now : ℕ)
    → suc w.transport.epoch < 2 ^ 64
    → IsOnce w.transport w.published
    → IsOnce (settle w fd hello now).transport (settle w fd hello now).published
unfolding settle finish_accept is_open
settle-IsOnce w fd hello now small h =
    let t = w.transport in
    let fresh : add_u64 t.epoch 1 ≡ suc t.epoch = omega arith in
    elim (Bool-cases (is_hello hello && not t.stopping)) [
      | inl e ↦
          rw (e, fresh)
            (record {
              lost =
                  Falls-weaken _ (suc t.epoch) (epochs_of disconnected w.published)
                    (bound-le (alive t) t.epoch) h.lost;
              silent =
                  Falls-weaken _ (suc t.epoch) (epochs_of heartbeat_timeout w.published)
                    (bound-le (beating t) t.epoch) h.silent;
            })
      | inr e ↦ rw e (record { lost = h.lost; silent = h.silent })
    ]

-- The end of the current connection.
lose-IsOnce :
    (t u : Transport) (published : List (TransportEvent × ℕ)) (test : Bool) (epoch : ℕ)
    → is_open t.fd ≡ true
    → is_open u.fd ≡ false
    → t.epoch ≡ epoch
    → u.epoch ≡ epoch
    → IsOnce t published
    → IsOnce u (publish_if test disconnected epoch published)
unfolding epochs_of
lose-IsOnce t u published true epoch held shut et eu h = record {
  lost = rw (shut, eu) (omega arith, rw (held, et) at h.lost);
  silent =
      rw (shut, eu)
        (Falls-weaken _ (suc epoch) (epochs_of heartbeat_timeout published)
          (omega (arith, bound-le (beating t) t.epoch, et)) h.silent);
}
lose-IsOnce t u published false epoch held shut et eu h = record {
  lost =
      rw (shut, eu)
        (Falls-weaken _ (suc epoch) (epochs_of disconnected published)
          (omega (arith, bound-le (alive t) t.epoch, et)) h.lost);
  silent =
      rw (shut, eu)
        (Falls-weaken _ (suc epoch) (epochs_of heartbeat_timeout published)
          (omega (arith, bound-le (beating t) t.epoch, et)) h.silent);
}

depart-IsOnce :
    (w : World) (fd epoch : ℕ)
    → IsOnce w.transport w.published
    → IsOnce (depart w fd epoch).transport (depart w fd epoch).published
unfolding depart leave is_open
depart-IsOnce w fd epoch h =
    let t = w.transport in
    elim (Bool-cases (is_fd t.fd fd && t.epoch == epoch)) [
      | inr e ↦ rw e h
      | inl e ↦ rw e (
          lose-IsOnce t _ w.published (not t.stopping) epoch
            (is_fd-is_open t.fd fd (ground (arith, e))) refl (ground (arith, e)) (ground (arith, e))
            h)
    ]

timeout-IsOnce :
    (t u : Transport) (published : List (TransportEvent × ℕ))
    → is_open t.fd ≡ true
    → t.heartbeat_timed_out ≡ false
    → u.fd ≡ t.fd
    → u.epoch ≡ t.epoch
    → u.heartbeat_timed_out ≡ true
    → IsOnce t published
    → IsOnce u ((heartbeat_timeout, t.epoch) ∷ published)
unfolding epochs_of
timeout-IsOnce t u published held ht ef ee hu h = record {
  lost = rw (ef, ee) h.lost;
  silent = rw (ef, ee, held, hu) (omega arith, rw (held, ht) at h.silent);
}

beat-IsOnce :
    (w : World) (now : ℕ)
    → IsOnce w.transport w.published
    → IsOnce (beat w now).transport (beat w now).published
unfolding beat heartbeat
beat-IsOnce w now h =
    let t = w.transport in
    elim (Bool-cases (not t.stopping && is_open t.fd)) [
      | inr e ↦ rw e h
      | inl e ↦
          elim (Bool-cases (
            not t.heartbeat_timed_out
            && ltb heartbeat_timeout_ms (sub_u64 now t.last_activity_at))) [
              | inl d ↦
                  rw (e, d)
                    (timeout-IsOnce t _ w.published (ground (arith, e)) (ground (arith, d)) refl
                      refl refl h)
              | inr d ↦
                  elim (Bool-cases (
                    not t.heartbeat_timed_out
                    && leb heartbeat_interval_ms (sub_u64 now t.last_ping_at))) [
                      | inl c ↦ rw (e, d, c) (record { lost = h.lost; silent = h.silent })
                      | inr c ↦ rw (e, d, c) h
                    ]
            ]
    ]

Step-IsOnce :
    {w u : World}
    → suc w.transport.epoch < 2 ^ 64
    → Step w u
    → IsOnce w.transport w.published
    → IsOnce u.transport u.published
unfolding arrive shut_down set_stream_requested
Step-IsOnce {w} small (accept fd free) h =
    Same-IsOnce w.transport _ w.published (admit-Same w.transport fd) h
Step-IsOnce {w} small (greet fd hello now g) h = settle-IsOnce w fd hello now small h
Step-IsOnce {w} small (receive fd epoch message now r) h =
    Same-IsOnce w.transport _ w.published (handle_message-Same w.transport fd epoch message now) h
Step-IsOnce {w} small (close fd epoch r) h = depart-IsOnce w fd epoch h
Step-IsOnce {w} small stop h =
    Same-IsOnce w.transport _ w.published
      (record { fd = refl; epoch = refl; heartbeat_timed_out = refl }) h
Step-IsOnce {w} small (request requested) h =
    Same-IsOnce w.transport _ w.published
      (record { fd = refl; epoch = refl; heartbeat_timed_out = refl }) h
Step-IsOnce {w} small (tick now) h = beat-IsOnce w now h
Step-IsOnce {w} small (await sequence) h =
    Same-IsOnce w.transport _ w.published (begin_key_ack-Same w.transport sequence) h

-- After fewer than 2 ^ 64 steps of all threads in any order, the epochs for which a lost connection
-- was published fall strictly from the last one, and so do those for which a heartbeat timeout was:
-- an epoch is published once at most for each. None is after the current epoch, and while a
-- connection is held none says that its epoch was lost, nor, until it has timed out, that it timed out.
pub Reaches-IsOnce :
    {count : ℕ} {w : World} → count < 2 ^ 64 → Reaches count w → IsOnce w.transport w.published
unfolding epochs_of
Reaches-IsOnce small here = record { lost = tt; silent = tt }
Reaches-IsOnce small (next {n} {w} r s) =
    let owned = Reaches-IsOwned (omega arith) r in
    Step-IsOnce (omega (arith, owned.counted)) s (Reaches-IsOnce (omega arith) r)
