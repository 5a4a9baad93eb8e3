-- ===== src/Hid/Queues/Waiting.antt =====
-- How long the agent may sleep (`hid_poll_timeout` of src/hid.c).
use nanokvm_rdp.Prelude.{ℕ, ◌-◌, ◌<◌, ◌≤◌, ◌≡◌, ◌⊎◌, ltb, ◌==◌, arith, Bool-cases, inl, inr}
use nanokvm_rdp.Hid.Queue.{Queue}
use nanokvm_rdp.Hid.Queues.{Queues, sooner, poll_timeout}

-- A queue with a report is looked at again when the report may be sent, or in 5 ms if it may be
-- already.
abbrev pub IsInTime : Queue → ℕ → ℕ → Type 0
IsInTime queue now timeout =
    (queue.count ≡ 0)
    ⊎ (((now < queue.ready_at) × (timeout ≤ queue.ready_at - now))
        ⊎ ((queue.ready_at ≤ now) × (timeout ≤ 5)))

sooner-le : (queue : Queue) (now idle_ms : ℕ) → sooner queue now idle_ms ≤ idle_ms
sooner-le queue now idle_ms = ground arith

sooner-IsInTime : (queue : Queue) (now idle_ms : ℕ) → IsInTime queue now (sooner queue now idle_ms)
sooner-IsInTime queue now idle_ms = elim (Bool-cases (queue.count == 0)) [
  | inl e ↦ inl (ground (arith, e))
  | inr e ↦ elim (Bool-cases (ltb now queue.ready_at)) [
    | inl d ↦ inr (inl (ground (arith, d), rw (e, d) (ground arith)))
    | inr d ↦ inr (inr (ground (arith, d), rw (e, d) (ground arith)))
  ]
]

IsInTime-le : (queue : Queue) (now a b : ℕ) → b ≤ a → IsInTime queue now a → IsInTime queue now b
IsInTime-le queue now a b h (inl e) = inl e
IsInTime-le queue now a b h (inr (inl e)) = inr (inl (e.0, omega (arith, e.1, h)))
IsInTime-le queue now a b h (inr (inr e)) = inr (inr (e.0, omega (arith, e.1, h)))

-- The agent sleeps no longer than it would without input, and for each of the two queues that holds a
-- report no longer than until the report may be sent, or 5 ms if it may be sent already.
pub poll_timeout-IsInTime :
    (q : Queues) (now idle_ms : ℕ)
    → (poll_timeout q now idle_ms ≤ idle_ms)
      × IsInTime q.keyboard now (poll_timeout q now idle_ms)
      × IsInTime q.pointer now (poll_timeout q now idle_ms)
unfolding poll_timeout
poll_timeout-IsInTime q now idle_ms =
    let first = sooner q.keyboard now idle_ms in
    let nearer = sooner-le q.pointer now first in
    (
      omega (arith, nearer, sooner-le q.keyboard now idle_ms),
      IsInTime-le q.keyboard now first (sooner q.pointer now first) nearer
          (sooner-IsInTime q.keyboard now idle_ms),
      sooner-IsInTime q.pointer now first,
    )
