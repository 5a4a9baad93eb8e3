-- ===== src/Session/Lease.antt =====
-- One lease at a time (src/device_session.c).
use nanokvm_rdp.Prelude.{
  ℕ, ◌+◌, ◌^◌, ◌<◌, ◌≤◌, ◌≡◌, ◌≢◌, ◌⊎◌, refl, true, false, ◌&&◌, ◌||◌, not, List, [], ◌∷◌, none,
  some, length, ◌==◌, arith, Bool-cases, Option-cases, inl, inr, ◌∙◌, sym, eq→==,
}
use nanokvm_rdp.Video.{Ops, open_source, read_source}
use nanokvm_rdp.Session.{
  DeviceSession, DeviceSessionLease, direct_gfx, bitmap, http, lease_is_active, acquire, release,
  read_session,
}

-- A call of any thread, with the lease that it has in its hands.
pub data Call : Type 0 where
  acquires : ℕ → DeviceSessionLease → Call
  releases : DeviceSessionLease → Call
  reads : ℕ → DeviceSessionLease → Call

-- No call gives back a lease of this generation.
abbrev pub Foreign : ℕ → List Call → Type 0
Foreign g [] = Unit
Foreign g (acquires consumer lease ∷ calls) = Foreign g calls
Foreign g (releases lease ∷ calls) = (g ≢ lease.generation) × Foreign g calls
Foreign g (reads fuel lease ∷ calls) = Foreign g calls

module _ {S : Type 0} (ops : Ops S) where
  -- What a call leaves of the session. A read that has no fuel leaves it as it is.
  abbrev pub after_call : DeviceSession × S → Call → DeviceSession × S
  after_call (session, s) (acquires consumer lease) =
      let (_, _, session', s') = acquire ops session s consumer lease in (session', s')
  after_call (session, s) (releases lease) =
      let (_, session', s') = release ops session s lease in (session', s')
  after_call (session, s) (reads fuel lease) = elim (read_session ops fuel session s lease) [
    | none ↦ (session, s)
    | some (_, session', s') ↦ (session', s')
  ]

  abbrev pub after : DeviceSession × S → List Call → DeviceSession × S
  after state [] = state
  after state (call ∷ calls) = after (after_call state call) calls

  -- A call leaves the lease and the generation as they are, gives the lease back, or takes one.
  data Turns (session : DeviceSession) : Call → DeviceSession → Type 0 where
    stays :
        {call : Call} {session' : DeviceSession}
        → session'.leased ≡ session.leased
        → session'.generation ≡ session.generation
        → Turns session call session'
    gives_back :
        {session' : DeviceSession} (lease : DeviceSessionLease)
        → session.generation ≡ lease.generation
        → session'.leased ≡ false
        → session'.generation ≡ session.generation
        → Turns session (releases lease) session'
    takes :
        {session' : DeviceSession} (consumer : ℕ) (lease : DeviceSessionLease)
        → session.leased ≡ false
        → session'.leased ≡ true
        → (session.generation + 1 < 2 ^ 64 → session'.generation ≡ session.generation + 1)
        → Turns session (acquires consumer lease) session'

  acquires-Turns :
      (session : DeviceSession) (s : S) (consumer : ℕ) (lease : DeviceSessionLease)
      → Turns session
          (acquires consumer lease)
          (after_call (session, s) (acquires consumer lease)).0
  unfolding acquire
  acquires-Turns session s consumer lease =
      elim (Bool-cases (not (consumer == direct_gfx || (consumer == bitmap || consumer == http)))) [
        | inl unknown ↦ rw (unknown, after_call) (stays refl refl)
        | inr known ↦ elim (Bool-cases session.leased) [
          | inl taken ↦ rw (known, after_call, taken) (stays refl refl)
          | inr free ↦ elim (Bool-cases (open_source ops session.source s session.video_port).0) [
            | inr failed ↦ rw (known, after_call, free, failed) (stays refl refl)
            | inl ok ↦
                rw (known, after_call, free, ok)
                  (takes consumer lease refl refl (λ h. ground arith))
          ]
        ]
      ]

  releases-Turns :
      (session : DeviceSession) (s : S) (lease : DeviceSessionLease)
      → Turns session (releases lease) (after_call (session, s) (releases lease)).0
  unfolding release
  releases-Turns session s lease = elim (Bool-cases (not lease.has_session)) [
    | inl none_held ↦ rw (none_held, after_call) (stays refl refl)
    | inr held ↦ elim (Bool-cases (session.leased && session.generation == lease.generation)) [
      | inl mine ↦ rw (held, after_call, mine) (gives_back lease (ground (arith, mine)) refl refl)
      | inr stale ↦ rw (held, after_call, stale) (stays refl refl)
    ]
  ]

  reads-Turns :
      (session : DeviceSession) (s : S) (fuel : ℕ) (lease : DeviceSessionLease)
      → Turns session (reads fuel lease) (after_call (session, s) (reads fuel lease)).0
  unfolding read_session
  reads-Turns session s fuel lease = elim (Bool-cases (lease_is_active session lease)) [
    | inr stale ↦ rw (stale, after_call) (stays refl refl)
    | inl live ↦ elim (Option-cases (read_source ops fuel session.source s)) [
      | inl out ↦ rw (live, after_call, out) (stays refl refl)
      | inr (result, done) ↦ rw (live, after_call, done) (stays refl refl)
    ]
  ]

  after_call-Turns :
      (state : DeviceSession × S) (call : Call) → Turns state.0 call (after_call state call).0
  after_call-Turns (session, s) (acquires consumer lease) = acquires-Turns session s consumer lease
  after_call-Turns (session, s) (releases lease) = releases-Turns session s lease
  after_call-Turns (session, s) (reads fuel lease) = reads-Turns session s fuel lease

  -- A lease is held until a call gives it back.
  record Holds (g : ℕ) (session : DeviceSession) : Type 0 where
    leased : session.leased ≡ true
    same : session.generation ≡ g

  Turns-Holds :
      {g : ℕ} {session session' : DeviceSession} (call : Call) (calls : List Call)
      → Turns session call session'
      → Foreign g (call ∷ calls)
      → Holds g session
      → Holds g session' × Foreign g calls
  Turns-Holds (acquires consumer lease) calls (stays l e) f h =
      (record { leased = l ∙ h.leased; same = e ∙ h.same }, f)
  Turns-Holds (acquires consumer lease) calls (takes _ _ free _ _) f h = absurd (cc (h.leased))
  Turns-Holds (releases lease) calls (stays l e) f h =
      (record { leased = l ∙ h.leased; same = e ∙ h.same }, f.1)
  Turns-Holds (releases lease) calls (gives_back _ mine _ _) f h = absurd (f.0 (sym h.same ∙ mine))
  Turns-Holds (reads fuel lease) calls (stays l e) f h =
      (record { leased = l ∙ h.leased; same = e ∙ h.same }, f)

  after-Holds :
      {g : ℕ} (state : DeviceSession × S) (calls : List Call)
      → Foreign g calls
      → Holds g state.0
      → Holds g (after state calls).0
  after-Holds state [] f h = h
  after-Holds state (call ∷ calls) f h =
      let (h', f') = Turns-Holds call calls (after_call-Turns state call) f h in
      after-Holds (after_call state call) calls f' h'

  -- A generation that is over is not leased again.
  abbrev IsOver : ℕ → DeviceSession → Type 0
  IsOver g session =
      ((session.leased ≡ false) × (session.generation ≡ g)) ⊎ (g < session.generation)

  Turns-IsOver :
      {g : ℕ} {session session' : DeviceSession} {call : Call}
      → Turns session call session'
      → session.generation + 1 < 2 ^ 64
      → IsOver g session
      → IsOver g session' × (session'.generation ≤ session.generation + 1)
  Turns-IsOver (stays l e) room (inl (free, same)) = (inl (l ∙ free, e ∙ same), omega arith)
  Turns-IsOver (stays l e) room (inr less) = (inr (omega arith), omega arith)
  Turns-IsOver (gives_back lease mine free e) room (inl (_, same)) =
      (inl (free, e ∙ same), omega arith)
  Turns-IsOver (gives_back lease mine free e) room (inr less) = (inr (omega arith), omega arith)
  Turns-IsOver (takes consumer lease _ _ next) room (inl (_, same)) =
      let n = next room in (inr (omega arith), omega arith)
  Turns-IsOver (takes consumer lease _ _ next) room (inr less) =
      let n = next room in (inr (omega arith), omega arith)

  after-IsOver :
      {g : ℕ} (state : DeviceSession × S) (calls : List Call)
      → state.0.generation + length calls < 2 ^ 64
      → IsOver g state.0
      → IsOver g (after state calls).0
  after-IsOver state [] room h = h
  after-IsOver state (call ∷ calls) room h =
      let (h', most) = Turns-IsOver (after_call-Turns state call) (omega arith) h in
      after-IsOver (after_call state call) calls (omega arith) h'

  active-Holds :
      (session : DeviceSession) (lease : DeviceSessionLease)
      → lease.has_session ≡ true
      → 0 < lease.generation
      → Holds lease.generation session
      → lease_is_active session lease ≡ true
  unfolding lease_is_active
  active-Holds session lease has pos h = ground (arith, h.leased, h.same)

  not_active-IsOver :
      (session : DeviceSession) (lease : DeviceSessionLease)
      → IsOver lease.generation session
      → lease_is_active session lease ≡ false
  unfolding lease_is_active
  not_active-IsOver session lease (inl (free, same)) = ground arith
  not_active-IsOver session lease (inr less) = ground arith

  refused-Holds :
      {g : ℕ} (state : DeviceSession × S) (consumer : ℕ) (lease : DeviceSessionLease)
      → Holds g state.0
      → (acquire ops state.0 state.1 consumer lease).0 ≡ false
  unfolding acquire
  refused-Holds (session, s) consumer lease h =
      elim (Bool-cases (not (consumer == direct_gfx || (consumer == bitmap || consumer == http)))) [
        | inl unknown ↦ rw unknown refl
        | inr known ↦ rw (known, h.leased) refl
      ]

  given_back-IsOver :
      {session : DeviceSession} (s : S) (lease : DeviceSessionLease)
      → lease.has_session ≡ true
      → Holds lease.generation session
      → IsOver lease.generation (after_call (session, s) (releases lease)).0
        × ((after_call (session, s) (releases lease)).0.generation ≡ lease.generation)
  unfolding release
  given_back-IsOver {session} s lease has h =
      rw (has, after_call, h.leased, eq→== session.generation lease.generation h.same)
        (inl (refl, h.same), h.same)

  acquired :
      (session : DeviceSession) (s : S) (consumer : ℕ) (lease : DeviceSessionLease)
      → (acquire ops session s consumer lease).0 ≡ true
      → let (_, mine, session', s') = acquire ops session s consumer lease in
        (mine.has_session ≡ true) × (0 < mine.generation) × Holds mine.generation session'
  unfolding acquire
  acquired session s consumer lease e =
      elim (Bool-cases (not (consumer == direct_gfx || (consumer == bitmap || consumer == http)))) [
        | inl unknown ↦ absurd (cc (rw unknown at e))
        | inr known ↦ elim (Bool-cases session.leased) [
          | inl taken ↦ absurd (cc (rw (known, taken) at e))
          | inr free ↦ elim (Bool-cases (open_source ops session.source s session.video_port).0) [
            | inr failed ↦ absurd (cc (rw (known, free, failed) at e))
            | inl ok ↦
                rw (known, free, ok) (refl, ground arith, record { leased = refl; same = refl })
          ]
        ]
      ]

  -- The lease is active until it is given back, and no other is given out; from then on it never is
  -- again, for as many calls as the generations last.
  pub record IsExclusive (mine : DeviceSessionLease) (state : DeviceSession × S) : Type 0 where
    pub active :
        (calls : List Call)
        → Foreign mine.generation calls
        → lease_is_active (after state calls).0 mine ≡ true
    pub alone :
        (calls : List Call)
        → Foreign mine.generation calls
        → (consumer : ℕ) (lease : DeviceSessionLease)
        → let now = after state calls in (acquire ops now.0 now.1 consumer lease).0 ≡ false
    pub over :
        (calls later : List Call)
        → Foreign mine.generation calls
        → mine.generation + length later < 2 ^ 64
        → lease_is_active (after (after_call (after state calls) (releases mine)) later).0 mine
          ≡ false

  -- A lease that was acquired is active, and no consumer gets another one, through any calls that do
  -- not release a lease of its generation. Once it is released it is active after no later calls,
  -- which can be as many as there are generations above its own.
  pub acquire-IsExclusive :
      (session : DeviceSession) (s : S) (consumer : ℕ) (lease : DeviceSessionLease)
      → (acquire ops session s consumer lease).0 ≡ true
      → let (_, mine, session', s') = acquire ops session s consumer lease in
        IsExclusive mine (session', s')
  acquire-IsExclusive session s consumer lease e =
      let (_, mine, session', s') = acquire ops session s consumer lease in
      let (has, pos, held) = acquired session s consumer lease e in
      let holds : (calls : List Call)
          → Foreign mine.generation calls
          → Holds mine.generation (after (session', s') calls).0 =
        λ calls f. after-Holds (session', s') calls f held in
      record {
        active = λ calls f. active-Holds _ mine has pos (holds calls f);
        alone = λ calls f consumer' lease'.
            refused-Holds (after (session', s') calls) consumer' lease' (holds calls f);
        over = λ calls later f room.
            let (gone, same) =
              given_back-IsOver (after (session', s') calls).1 mine has (holds calls f) in
            not_active-IsOver _ mine (
              after-IsOver (after_call (after (session', s') calls) (releases mine)) later
                (omega (arith, same)) gone);
      }
