-- ===== src/Transport/Owned.antt =====
-- Which descriptors and epochs the transport of src/agent_transport.c holds, over all threads.
use nanokvm_rdp.Prelude.{
  ℕ, suc, ◌≤◌, ◌<◌, ◌^◌, ◌≡◌, refl, sym, ap, ◌∙◌, ◌≢◌, ◌&&◌, not, Option, none, some, ◌==◌,
  if◌then◌else◌, arith, Bool-cases, inl, inr,
}
use nanokvm_rdp.Protocol.{Message}
use nanokvm_rdp.Transport.{
  Transport, admit, finish_accept, leave, shut_down, set_stream_requested, is_fd, is_open, is_hello,
}
use nanokvm_rdp.Transport.World.{
  Phase, unused, greeting, running, World, assign, settle, arrive, depart, beat, Step, accept,
  greet, receive, close, stop, request, tick, await, Reaches, here, next,
}
use nanokvm_rdp.Transport.Phases.{
  assign-cases, assign-same, assign-other, assign-old, assign-keeps, running_inj, greeting-running,
  unused-running, unused-greeting, other, no_handshake, not_left, freed,
}
use nanokvm_rdp.Transport.Hold.{
  handle_message-SameHold, heartbeat-SameHold, begin_key_ack-SameHold, SameHold, kept,
}

-- What the transport holds is owned by a thread, at most one handshake is under way, and no two
-- connections have the same epoch, nor one that the transport has not given out.
pub record IsOwned (count : ℕ) (t : Transport) (phase : ℕ → Phase) : Type 0 where
  pub connected : (fd : ℕ) → t.fd ≡ some fd → phase fd ≡ running t.epoch
  pub waiting : (fd : ℕ) → t.pending_fd ≡ some fd → phase fd ≡ greeting
  pub alone : (fd : ℕ) → phase fd ≡ greeting → t.pending_fd ≡ some fd
  pub distinct :
      (fd fd' epoch : ℕ) → phase fd ≡ running epoch → phase fd' ≡ running epoch → fd ≡ fd'
  pub given_out : (fd epoch : ℕ) → phase fd ≡ running epoch → epoch ≤ t.epoch
  pub counted : t.epoch ≤ count

SameHold-IsOwned :
    (count : ℕ) (t u : Transport) (phase : ℕ → Phase)
    → SameHold t u
    → IsOwned count t phase
    → IsOwned (suc count) u phase
SameHold-IsOwned count t u phase s h = record {
  connected = λ fd e. h.connected fd (sym s.fd ∙ e) ∙ ap running (sym s.epoch);
  waiting = λ fd e. h.waiting fd (sym s.pending_fd ∙ e);
  alone = λ fd e. s.pending_fd ∙ h.alone fd e;
  distinct = h.distinct;
  given_out = λ fd epoch e. omega (arith, h.given_out fd epoch e, s.epoch);
  counted = omega (arith, h.counted, s.epoch);
}

later :
    (count : ℕ) (t : Transport) (phase : ℕ → Phase)
    → IsOwned count t phase
    → IsOwned (suc count) t phase
later count t phase h = SameHold-IsOwned count t t phase (kept t) h

admit-IsOwned :
    (count : ℕ) (t : Transport) (phase : ℕ → Phase) (fd : ℕ)
    → phase fd ≡ unused
    → IsOwned count t phase
    → IsOwned
        (suc count)
        (admit t fd).1
        (if (admit t fd).0 then assign phase fd greeting else phase)
unfolding admit
admit-IsOwned count t phase fd free h =
    elim (Bool-cases (not t.stopping && not (is_open t.pending_fd))) [
      | inr e ↦ rw e (later count t phase h)
      | inl e ↦
          let still : (u epoch : ℕ)
              → assign phase fd greeting u ≡ running epoch
              → phase u ≡ running epoch =
            λ u epoch. assign-old phase fd greeting (running epoch) u (greeting-running epoch) in
          rw e (record {
            connected = λ u held.
                assign-keeps phase fd greeting (running t.epoch) u
                  (other (phase fd) unused (running t.epoch) free (unused-running t.epoch))
                  (h.connected u held);
            waiting = λ u held. let same : u ≡ fd = cc in rw same (assign-same phase fd greeting);
            alone = λ u held. elim (assign-cases phase fd greeting greeting u held) [
              | inl (same, _) ↦ ap some (sym same)
              | inr (_, was) ↦ absurd (no_handshake t.stopping t.pending_fd u e (h.alone u was))
            ];
            distinct = λ u v epoch a b. h.distinct u v epoch (still u epoch a) (still v epoch b);
            given_out = λ u epoch a. h.given_out u epoch (still u epoch a);
            counted = omega (arith, h.counted);
          })
    ]

leave-IsOwned :
    (count : ℕ) (t : Transport) (phase : ℕ → Phase) (fd epoch : ℕ)
    → phase fd ≡ running epoch
    → IsOwned count t phase
    → IsOwned (suc count) (leave t fd epoch).1 (assign phase fd unused)
unfolding leave
leave-IsOwned count t phase fd epoch r h =
    let still : (u e : ℕ) → assign phase fd unused u ≡ running e → phase u ≡ running e =
      λ u e. assign-old phase fd unused (running e) u (unused-running e) in
    let greets : (u : ℕ) → phase u ≡ greeting → assign phase fd unused u ≡ greeting = λ u.
      assign-keeps phase fd unused greeting u
        (other (phase fd) (running epoch) greeting r (λ e. greeting-running epoch (sym e))) in
    let greeted : (u : ℕ) → assign phase fd unused u ≡ greeting → phase u ≡ greeting =
      λ u. assign-old phase fd unused greeting u unused-greeting in
    elim (Bool-cases (is_fd t.fd fd && t.epoch == epoch)) [
      | inl e ↦ rw e (record {
        connected = λ u held. absurd cc;
        waiting = λ u held. greets u (h.waiting u held);
        alone = λ u held. h.alone u (greeted u held);
        distinct = λ u v epoch a b. h.distinct u v epoch (still u epoch a) (still v epoch b);
        given_out = λ u epoch a. h.given_out u epoch (still u epoch a);
        counted = omega (arith, h.counted);
      })
      | inr e ↦ rw e (record {
        connected = λ u held.
            assign-other phase fd unused u (λ same.
              let mine : t.fd ≡ some fd = held ∙ ap some same in
              not_left t.fd fd t.epoch epoch e mine
                (running_inj t.epoch epoch (sym (h.connected fd mine) ∙ r)))
            ∙ h.connected u held;
        waiting = λ u held. greets u (h.waiting u held);
        alone = λ u held. h.alone u (greeted u held);
        distinct = λ u v epoch a b. h.distinct u v epoch (still u epoch a) (still v epoch b);
        given_out = λ u epoch a. h.given_out u epoch (still u epoch a);
        counted = omega (arith, h.counted);
      })
    ]

-- No handshake is left when the one of `fd` is over.
over :
    (count : ℕ) (t : Transport) (phase : ℕ → Phase) (fd : ℕ) (p : Phase) (u : ℕ)
    → IsOwned count t phase
    → phase fd ≡ greeting
    → p ≢ greeting
    → assign phase fd p u ≢ greeting
over count t phase fd p u h g d held = elim (assign-cases phase fd p greeting u held) [
  | inl (_, e) ↦ d e
  | inr (n, e) ↦ let same : some fd ≡ some u = sym (h.alone fd g) ∙ h.alone u e in n cc
]

accepted-IsOwned :
    (count : ℕ) (t u : Transport) (phase : ℕ → Phase) (fd : ℕ)
    → u.fd ≡ some fd
    → u.pending_fd ≡ none
    → u.epoch ≡ suc t.epoch
    → phase fd ≡ greeting
    → IsOwned count t phase
    → IsOwned (suc count) u (assign phase fd (running u.epoch))
accepted-IsOwned count t u phase fd ef ep ee g h =
    let new = running u.epoch in
    let cases = λ (v epoch : ℕ). assign-cases phase fd new (running epoch) v in
    record {
      connected = λ v held. let same : v ≡ fd = cc in rw same (assign-same phase fd new);
      waiting = λ v held. absurd (let e : none ≡ some v = sym ep ∙ held in cc);
      alone = λ v held.
          absurd (over count t phase fd new v h g (λ e. greeting-running u.epoch (sym e)) held);
      distinct = λ v w epoch a b. elim (cases v epoch a) [
        | inl (x, p) ↦ elim (cases w epoch b) [
          | inl (y, q) ↦ x ∙ sym y
          | inr (y, q) ↦
              absurd (omega (arith, running_inj u.epoch epoch p, h.given_out w epoch q, ee))
        ]
        | inr (x, p) ↦ elim (cases w epoch b) [
          | inl (y, q) ↦
              absurd (omega (arith, running_inj u.epoch epoch q, h.given_out v epoch p, ee))
          | inr (y, q) ↦ h.distinct v w epoch p q
        ]
      ];
      given_out = λ v epoch a. elim (cases v epoch a) [
        | inl (x, p) ↦ omega (arith, running_inj u.epoch epoch p)
        | inr (x, p) ↦ omega (arith, h.given_out v epoch p, ee)
      ];
      counted = omega (arith, h.counted, ee);
    }

finish_accept-IsOwned :
    (count : ℕ) (t : Transport) (phase : ℕ → Phase) (fd : ℕ) (hello : Option Message) (now : ℕ)
    → suc count < 2 ^ 64
    → phase fd ≡ greeting
    → IsOwned count t phase
    → IsOwned (suc count) (finish_accept t fd hello now).1 (
        assign phase fd
          (elim (finish_accept t fd hello now).0 [ none ↦ unused | some a ↦ running a.epoch ]))
unfolding finish_accept
finish_accept-IsOwned count t phase fd hello now small g h =
    let free = freed t.pending_fd fd (h.alone fd g) in
    let before : (u e : ℕ) → assign phase fd unused u ≡ running e → phase u ≡ running e =
      λ u e. assign-old phase fd unused (running e) u (unused-running e) in
    elim (Bool-cases (is_hello hello && not t.stopping)) [
      | inl e ↦ rw e (accepted-IsOwned count t _ phase fd refl free (omega (arith, h.counted)) g h)
      | inr e ↦ rw e (record {
        connected = λ u held.
            assign-keeps phase fd unused (running t.epoch) u
              (other (phase fd) greeting (running t.epoch) g (greeting-running t.epoch))
              (h.connected u held);
        waiting = λ u held. absurd (let n : none ≡ some u = sym free ∙ held in cc);
        alone = λ u held. absurd (over count t phase fd unused u h g unused-greeting held);
        distinct = λ u v epoch a b. h.distinct u v epoch (before u epoch a) (before v epoch b);
        given_out = λ u epoch a. h.given_out u epoch (before u epoch a);
        counted = omega (arith, h.counted);
      })
    ]

Step-IsOwned :
    {count : ℕ} {w u : World}
    → suc count < 2 ^ 64
    → Step w u
    → IsOwned count w.transport w.phase
    → IsOwned (suc count) u.transport u.phase
unfolding settle arrive depart beat shut_down set_stream_requested
Step-IsOwned {count} {w} small (accept fd free) h =
    admit-IsOwned count w.transport w.phase fd free h
Step-IsOwned {count} {w} small (greet fd hello now g) h =
    finish_accept-IsOwned count w.transport w.phase fd hello now small g h
Step-IsOwned {count} {w} small (receive fd epoch message now r) h =
    SameHold-IsOwned count w.transport _ w.phase
      (handle_message-SameHold w.transport fd epoch message now) h
Step-IsOwned {count} {w} small (close fd epoch r) h =
    leave-IsOwned count w.transport w.phase fd epoch r h
Step-IsOwned {count} {w} small stop h =
    SameHold-IsOwned count w.transport _ w.phase
      (record { fd = refl; pending_fd = refl; epoch = refl }) h
Step-IsOwned {count} {w} small (request requested) h =
    SameHold-IsOwned count w.transport _ w.phase
      (record { fd = refl; pending_fd = refl; epoch = refl }) h
Step-IsOwned {count} {w} small (tick now) h =
    SameHold-IsOwned count w.transport _ w.phase (heartbeat-SameHold w.transport now) h
Step-IsOwned {count} {w} small (await sequence) h =
    SameHold-IsOwned count w.transport _ w.phase (begin_key_ack-SameHold w.transport sequence) h

-- After fewer than 2 ^ 64 steps of all threads in any order, what the transport holds is owned by a
-- thread: the connection's descriptor is open and runs with the current epoch, the pending one is in
-- its handshake, which is the only one, and no two connections have the same epoch.
pub Reaches-IsOwned :
    {count : ℕ} {w : World} → count < 2 ^ 64 → Reaches count w → IsOwned count w.transport w.phase
Reaches-IsOwned small here = record {
  connected = λ fd e. absurd cc;
  waiting = λ fd e. absurd cc;
  alone = λ fd e. absurd (unused-greeting e);
  distinct = λ fd fd' epoch a b. absurd (unused-running epoch a);
  given_out = λ fd epoch a. absurd (unused-running epoch a);
  counted = omega arith;
}
Reaches-IsOwned small (next r s) = Step-IsOwned small s (Reaches-IsOwned (omega arith) r)
