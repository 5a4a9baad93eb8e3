-- ===== src/Session.antt =====
-- The lease of the one device: src/device_session.c and src/device_session.h.
-- A session is what its lock protects; every function holds the lock while it looks at the lease or
-- changes it, so that these steps of several threads come one after the other. Only the reading of the
-- source in `device_session_read` comes after the lock was given back; it leaves the lease as it is, and
-- `read_session` takes it for one step with the check before it: a consumer does not release its lease
-- while its own read is under way. There is one session, and a lease says
-- whether it points to it. The stream's context `S` is that of the video source.
pub mod Lease
use nanokvm_rdp.Prelude.{
  ℕ, Bool, true, false, ◌&&◌, ◌||◌, not, List, [], ◌∷◌, Option, none, some, ◌==◌, if◌then◌else◌,
  add_u64,
}
use nanokvm_rdp.Video.{
  Ops, GivenOps, VideoSource, AccessUnit, create, open_source, close_source, read_source,
}

pub record DeviceSession : Type 0 where
  pub source : VideoSource
  pub video_port : ℕ
  pub generation : ℕ
  pub leased : Bool

-- DEVICE_SESSION_CONSUMER_DIRECT_GFX, _BITMAP and _HTTP.
abbrev pub direct_gfx : ℕ
direct_gfx = 1

abbrev pub bitmap : ℕ
bitmap = 2

abbrev pub http : ℕ
http = 3

pub record DeviceSessionLease : Type 0 where
  pub has_session : Bool
  pub generation : ℕ
  pub consumer : ℕ

abbrev pub no_lease : DeviceSessionLease
no_lease = record { has_session = false; generation = 0; consumer = 0 }

unfoldable pub lease_is_active : DeviceSession → DeviceSessionLease → Bool
lease_is_active session lease =
    not (not lease.has_session || lease.generation == 0)
    && (session.leased && session.generation == lease.generation)

module _ {S : Type 0} where
  -- `allocated`, `locked` and `source_allocated` say whether `calloc`, `pthread_mutex_init` and the
  -- `calloc` of the source succeed; the port and what follows it are the configuration.
  unfoldable pub create_session :
      Bool
      → Bool
      → Bool
      → Ops S
      → ℕ
      → Option (GivenOps S)
      → Option (S → ℕ → Bool × S)
      → Option (DeviceSession × Ops S)
  create_session allocated locked source_allocated production port given request =
      if port == 0 || (not allocated || not locked)
      then none
      else elim (create source_allocated production given request) [
        | none ↦ none
        | some (source, ops) ↦
            some
              (record { source = source; video_port = port; generation = 0; leased = false }, ops)
      ]

  module _ (ops : Ops S) where
    -- The result, the lease that is written, and the session.
    unfoldable pub acquire :
        DeviceSession → S → ℕ → DeviceSessionLease → Bool × DeviceSessionLease × DeviceSession × S
    acquire session s consumer lease =
        let (ok, source, s') = open_source ops session.source s session.video_port in
        let next = add_u64 session.generation 1 in
        let generation = if next == 0 then 1 else next in
        if not (consumer == direct_gfx || (consumer == bitmap || consumer == http))
        then (false, lease, session, s)
        else if session.leased
        then (false, no_lease, session, s)
        else if ok
        then (
          true,
          record { has_session = true; generation = generation; consumer = consumer },
          record session { source = source; generation = generation; leased = true },
          s',
        )
        else (false, no_lease, record session { source = source }, s')

    -- The lease is cleared.
    unfoldable pub release :
        DeviceSession → S → DeviceSessionLease → DeviceSessionLease × DeviceSession × S
    release session s lease =
        let (source, s') = close_source ops session.source s in
        if not lease.has_session
        then (lease, session, s)
        else if session.leased && session.generation == lease.generation
        then (no_lease, record session { source = source; leased = false }, s')
        else (no_lease, session, s)

    -- With the fuel of `read_source`.
    unfoldable pub read_session :
        ℕ → DeviceSession → S → DeviceSessionLease → Option (Option AccessUnit × DeviceSession × S)
    read_session fuel session s lease =
        if lease_is_active session lease
        then elim (read_source ops fuel session.source s) [
          | none ↦ none
          | some (unit, source, s') ↦ some (unit, record session { source = source }, s')
        ]
        else some (none, session, s)

unfoldable pub receive_buffer_bytes : DeviceSession → DeviceSessionLease → ℕ
receive_buffer_bytes session lease =
    if lease_is_active session lease then session.source.receive_buffer_bytes else 0
