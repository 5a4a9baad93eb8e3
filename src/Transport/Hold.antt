-- ===== src/Transport/Hold.antt =====
-- The calls of src/agent_transport.c that open and close nothing.
use nanokvm_rdp.Prelude.{
  ℕ, ◌≡◌, refl, Bool, true, false, ◌&&◌, not, List, ◌==◌, if◌then◌else◌, Bool-cases, inl, length,
  ltb, leb, sub_u64, inr,
}
use nanokvm_rdp.Bytes.{read_u32}
use nanokvm_rdp.Protocol.{Message, control_key_ack, control_stats}
use nanokvm_rdp.Transport.{
  Transport, handle_message, heartbeat, begin_key_ack, note_key_ack, is_open, is_current,
  heartbeat_timeout_ms, heartbeat_interval_ms,
}

pub record SameHold (t u : Transport) : Type 0 where
  pub fd : u.fd ≡ t.fd
  pub pending_fd : u.pending_fd ≡ t.pending_fd
  pub epoch : u.epoch ≡ t.epoch

if-SameHold {ℓ} :
    {A : Type ℓ} (t : Transport) (test : Bool) (r r' : A × Transport)
    → SameHold t r.1
    → SameHold t r'.1
    → SameHold t (if test then r else r').1
if-SameHold t true r r' p p' = p
if-SameHold t false r r' p p' = p'

abbrev pub kept : (t : Transport) → SameHold t t
kept t = record { fd = refl; pending_fd = refl; epoch = refl }

note_key_ack-SameHold :
    (t u : Transport) (payload : List ℕ) → SameHold t u → SameHold t (note_key_ack u payload)
unfolding note_key_ack
note_key_ack-SameHold t u payload s =
    elim (Bool-cases (u.waiting_key_sequence == read_u32 payload 0)) [
      | inl e ↦ rw e (record { fd = s.fd; pending_fd = s.pending_fd; epoch = s.epoch })
      | inr e ↦ rw e s
    ]

pub handle_message-SameHold :
    (t : Transport) (fd epoch : ℕ) (message : Message) (now : ℕ)
    → SameHold t (handle_message t fd epoch message now).1
unfolding handle_message
handle_message-SameHold t fd epoch message now =
    let same = kept t in
    let active : SameHold t (record t { last_activity_at = now }) = record {
      fd = refl;
      pending_fd = refl;
      epoch = refl;
    } in
    if-SameHold t (is_current t fd epoch) _ _
      (if-SameHold t (message.type == control_key_ack && length message.payload == 5) _ _
        (note_key_ack-SameHold t _ message.payload active)
        (if-SameHold t (message.type == control_stats && length message.payload == 16) _ _
          (record { fd = refl; pending_fd = refl; epoch = refl }) active))
      same

pub heartbeat-SameHold : (t : Transport) (now : ℕ) → SameHold t (heartbeat t now).1
unfolding heartbeat
heartbeat-SameHold t now =
    if-SameHold t (not t.stopping && is_open t.fd) _ _
      (if-SameHold t
        (not t.heartbeat_timed_out && ltb heartbeat_timeout_ms (sub_u64 now t.last_activity_at)) _ _
        (record { fd = refl; pending_fd = refl; epoch = refl })
        (if-SameHold t
          (not t.heartbeat_timed_out && leb heartbeat_interval_ms (sub_u64 now t.last_ping_at)) _ _
          (record { fd = refl; pending_fd = refl; epoch = refl }) (kept t)))
      (kept t)

pub begin_key_ack-SameHold :
    (t : Transport) (sequence : ℕ) → SameHold t (begin_key_ack t sequence).1
unfolding begin_key_ack
begin_key_ack-SameHold t sequence =
    if-SameHold t (not (sequence == 0) && (not t.stopping && (is_open t.fd && t.supports_key_ack)))
      _ _ (record { fd = refl; pending_fd = refl; epoch = refl }) (kept t)
