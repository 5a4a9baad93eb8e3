-- ===== src/Tests/Session.antt =====
-- src/device_session.c at a concrete session.
use nanokvm_rdp.Prelude.{ℕ, ◌≡◌, refl, true, false, none}
use nanokvm_rdp.Video.{Ops, new_source, open_source}
use nanokvm_rdp.Session.{DeviceSession, DeviceSessionLease, no_lease, acquire}
use nanokvm_rdp.Session.Lease.{IsExclusive, acquire-IsExclusive}

-- A stream that is always there and has nothing to read.
abbrev silent : Ops ℕ
silent = record {
  open_port = λ (s port bytes : ℕ). (true, 212_992, s);
  read = λ (s : ℕ). (none, s);
  close = λ (s : ℕ). s;
  request = none;
}

abbrev idle : DeviceSession
idle = record { source = new_source; video_port = 5004; generation = 3; leased = false }

abbrev lease : DeviceSessionLease
lease = record { has_session = true; generation = 4; consumer = 2 }

acquire-IsExclusive_example :
    let (_, mine, session', s') = acquire silent idle 0 2 no_lease in
    IsExclusive silent mine (session', s')
unfolding acquire open_source
acquire-IsExclusive_example = acquire-IsExclusive silent idle 0 2 no_lease refl

acquired : (acquire silent idle 0 2 no_lease).1 ≡ lease
unfolding acquire open_source
acquired = refl
