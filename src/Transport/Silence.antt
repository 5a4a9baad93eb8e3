-- ===== src/Transport/Silence.antt =====
-- When src/agent_transport.c takes a connection for silent: the beats of the gateway among the
-- messages of the connection's thread.
use nanokvm_rdp.Prelude.{
  ℕ, ◌+◌, ◌^◌, ◌<◌, ◌≡◌, refl, Bool, true, false, ◌&&◌, ◌||◌, not, List, [], ◌∷◌, length, ltb, leb,
  ◌==◌, arith, sub_u64, inl, inr, ◌⊎◌, ap, ◌∙◌, Bool-cases,
}
use nanokvm_rdp.Protocol.{Message, control_key_ack, control_stats}
use nanokvm_rdp.Transport.{
  Transport, is_open, is_current, heartbeat, heartbeat_timeout_ms, heartbeat_interval_ms,
  handle_message, note_key_ack,
}
use native.Mathlib.Decide.{dec_lt}
use nanokvm_rdp.Bytes.{read_u32}
use nanokvm_rdp.Transport.Phases.{is_fd-is_open}

-- What the threads do with a connection, with the reading of the clock that each has taken before it
-- holds the lock.
pub data Call : Type 0 where
  message : Message → ℕ → Call
  beat : ℕ → Call

unfoldable pub run : Transport → ℕ → ℕ → List Call → Transport
run t fd epoch [] = t
run t fd epoch (message m now ∷ calls) = run (handle_message t fd epoch m now).1 fd epoch calls
run t fd epoch (beat now ∷ calls) = run (heartbeat t now).1 fd epoch calls

-- The readings of the clock are words.
unfoldable pub are_words : List Call → Bool
are_words [] = true
are_words (message m now ∷ calls) = ltb now (2 ^ 64) && are_words calls
are_words (beat now ∷ calls) = ltb now (2 ^ 64) && are_words calls

-- More than five seconds have passed from `at` to `now`; or `now` is before `at`, by less than
-- 2 ^ 64 - 5000 ms.
abbrev pub is_late : ℕ → ℕ → Bool
is_late now at = ltb (at + 5000) now || (ltb now at && ltb (at + 5000) (now + 2 ^ 64))

-- Whether a beat finds the connection silent, where `at` is the time of the last message.
unfoldable pub is_silent : ℕ → List Call → Bool
is_silent at [] = false
is_silent at (message m now ∷ calls) = is_silent now calls
is_silent at (beat now ∷ calls) = is_late now at || is_silent at calls

sub_u64-is_late :
    (now at : ℕ)
    → now < 2 ^ 64
    → at < 2 ^ 64
    → ltb heartbeat_timeout_ms (sub_u64 now at) ≡ is_late now at
sub_u64-is_late now at hn ha = elim (dec_lt now at) [ yes c ↦ ground arith | no c ↦ ground arith ]

handle_message-activity :
    (t : Transport) (fd epoch now : ℕ) (m : Message)
    → is_current t fd epoch ≡ true
    → let u = (handle_message t fd epoch m now).1 in
      (u.last_activity_at ≡ now)
      × (u.heartbeat_timed_out ≡ t.heartbeat_timed_out)
      × (u.stream_requested ≡ t.stream_requested)
      × (is_current u fd epoch ≡ true)
unfolding handle_message is_current note_key_ack
handle_message-activity t fd epoch now m current =
    elim (Bool-cases (m.type == control_key_ack && length m.payload == 5)) [
      | inl k ↦ elim (Bool-cases (t.waiting_key_sequence == read_u32 m.payload 0)) [
        | inl w ↦ rw (current, k, w) (refl, refl, refl, current)
        | inr w ↦ rw (current, k, w) (refl, refl, refl, current)
      ]
      | inr k ↦ elim (Bool-cases (m.type == control_stats && length m.payload == 16)) [
        | inl s ↦ rw (current, k, s) (refl, refl, refl, current)
        | inr s ↦ rw (current, k, s) (refl, refl, refl, current)
      ]
    ]

current-held :
    (t : Transport) (fd epoch : ℕ)
    → is_current t fd epoch ≡ true
    → (not t.stopping && is_open t.fd ≡ true)
unfolding is_current
current-held t fd epoch current =
    let held = is_fd-is_open t.fd fd (ground (arith, current)) in ground (arith, held, current)

heartbeat-late :
    (t : Transport) (fd epoch now : ℕ)
    → is_current t fd epoch ≡ true
    → not t.stopping && is_open t.fd ≡ true
    → t.heartbeat_timed_out ≡ false
    → ltb heartbeat_timeout_ms (sub_u64 now t.last_activity_at) ≡ true
    → let u = (heartbeat t now).1 in
      (u.last_activity_at ≡ t.last_activity_at)
      × (u.heartbeat_timed_out ≡ true)
      × (u.stream_requested ≡ false)
      × (is_current u fd epoch ≡ true)
unfolding heartbeat is_current
heartbeat-late t fd epoch now current held fresh late =
    rw (held, fresh, late) (refl, refl, refl, current)

heartbeat-in_time :
    (t : Transport) (fd epoch now : ℕ)
    → is_current t fd epoch ≡ true
    → not t.stopping && is_open t.fd ≡ true
    → (t.heartbeat_timed_out ≡ true)
      ⊎ (ltb heartbeat_timeout_ms (sub_u64 now t.last_activity_at) ≡ false)
    → let u = (heartbeat t now).1 in
      (u.last_activity_at ≡ t.last_activity_at)
      × (u.heartbeat_timed_out ≡ t.heartbeat_timed_out)
      × (u.stream_requested ≡ t.stream_requested)
      × (is_current u fd epoch ≡ true)
unfolding heartbeat is_current
heartbeat-in_time t fd epoch now current held (inl e) = rw (held, e) (refl, refl, refl, current)
heartbeat-in_time t fd epoch now current held (inr e) = elim (Bool-cases t.heartbeat_timed_out) [
  | inl o ↦ rw (held, o) (refl, refl, refl, current)
  | inr o ↦ elim (Bool-cases (leb heartbeat_interval_ms (sub_u64 now t.last_ping_at))) [
    | inl c ↦ rw (held, o, e, c) (refl, refl, refl, current)
    | inr c ↦ rw (held, o, e, c) (refl, refl, refl, current)
  ]
]

-- After a timeout nothing more changes for the connection.
run-timed_out :
    (t : Transport) (fd epoch : ℕ) (calls : List Call)
    → is_current t fd epoch ≡ true
    → t.heartbeat_timed_out ≡ true
    → let u = run t fd epoch calls in
      (u.heartbeat_timed_out ≡ true)
      × (u.stream_requested ≡ t.stream_requested)
      × (is_current u fd epoch ≡ true)
unfolding run
run-timed_out t fd epoch [] current out = (out, refl, current)
run-timed_out t fd epoch (message m now ∷ calls) current out =
    let (a, o, s, c) = handle_message-activity t fd epoch now m current in
    let (o', s', c') =
      run-timed_out (handle_message t fd epoch m now).1 fd epoch calls c (o ∙ out) in
    (o', s' ∙ s, c')
run-timed_out t fd epoch (beat now ∷ calls) current out =
    let (a, o, s, c) =
      heartbeat-in_time t fd epoch now current (current-held t fd epoch current) (inl out) in
    let (o', s', c') = run-timed_out (heartbeat t now).1 fd epoch calls c (o ∙ out) in
    (o', s' ∙ s, c')

-- For the current connection of a transport that has not timed out, and any messages and beats whose
-- clock readings are words, as the activity noted at first is: the connection has timed out in the
-- end just when some beat came more than 5000 ms after the activity before it, or before the clock
-- reading of that activity by less than 2 ^ 64 - 5000 ms; the activity is the last message, or the one
-- noted at first. The stream is requested in the end just when it was and there was no such beat, and
-- the connection is still the current one.
pub run-is_silent :
    (t : Transport) (fd epoch : ℕ) (calls : List Call)
    → is_current t fd epoch ≡ true
    → t.heartbeat_timed_out ≡ false
    → t.last_activity_at < 2 ^ 64
    → are_words calls ≡ true
    → let u = run t fd epoch calls in
      (u.heartbeat_timed_out ≡ is_silent t.last_activity_at calls)
      × (u.stream_requested ≡ t.stream_requested && not (is_silent t.last_activity_at calls))
      × (is_current u fd epoch ≡ true)
unfolding run is_silent are_words
run-is_silent t fd epoch [] current fresh small words = (fresh, ground arith, current)
run-is_silent t fd epoch (message m now ∷ calls) current fresh small words =
    let (a, o, s, c) = handle_message-activity t fd epoch now m current in
    let u = (handle_message t fd epoch m now).1 in
    let bound : u.last_activity_at < 2 ^ 64 = rw a (ground (arith, words)) in
    let (o', s', c') = run-is_silent u fd epoch calls c (o ∙ fresh) bound (ground (arith, words)) in
    (o' ∙ ap (λ at. is_silent at calls) a, rw (s', s, a) refl, c')
run-is_silent t fd epoch (beat now ∷ calls) current fresh small words =
    let held = current-held t fd epoch current in
    let late = sub_u64-is_late now t.last_activity_at (ground (arith, words)) small in
    elim (Bool-cases (is_late now t.last_activity_at)) [
      | inl l ↦
          let (a, o, s, c) = heartbeat-late t fd epoch now current held fresh (late ∙ l) in
          let (o', s', c') = run-timed_out (heartbeat t now).1 fd epoch calls c o in
          rw l (o', s' ∙ s ∙ ground arith, c')
      | inr l ↦
          let (a, o, s, c) = heartbeat-in_time t fd epoch now current held (inr (late ∙ l)) in
          let u = (heartbeat t now).1 in
          let bound : u.last_activity_at < 2 ^ 64 = rw a small in
          let (o', s', c') =
            run-is_silent u fd epoch calls c (o ∙ fresh) bound (ground (arith, words)) in
          rw l (o' ∙ ap (λ at. is_silent at calls) a, rw (s', s, a) refl, c')
    ]
