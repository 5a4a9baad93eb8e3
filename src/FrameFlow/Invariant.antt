-- ===== src/FrameFlow/Invariant.antt =====
-- The representation invariant of `FrameFlow` (src/frame_flow.h), kept by each of its operations.
use nanokvm_rdp.Prelude.{
  ℕ, zero, suc, ◌+◌, ◌-◌, ◌%◌, ◌^◌, ◌≤◌, ◌<◌, ◌≡◌, refl, ap, true, false, ◌⊎◌, inl, inr, List, [],
  ◌∷◌, some, get_or, set, length, length-set, get_or-set_ne, arith, Option-cases, Bool-cases,
  sub_u32, ◌==◌,
}
use nanokvm_rdp.FrameFlow.{
  FrameFlow, interval, slow, send_cost, record_sent, sent_sized, sent_keyframe_sized, find_id,
  close_gap, pace_ack, remove_entry, suspend, note_ack, ack_entry, ack, uint32_max, init,
}

abbrev pub sum_first : ℕ → List ℕ → ℕ
sum_first zero xs = 0
sum_first (suc n) [] = 0
sum_first (suc n) (x ∷ xs) = x + sum_first n xs

-- An interval is unset, or lies between the smallest and the largest.
abbrev pub IsPace : ℕ → Type 0
IsPace ms = (ms ≡ 0) ⊎ ((16 ≤ ms) × (ms ≤ 100))

pub record IsValid (flow : FrameFlow) : Type 0 where
  pub pace : IsPace flow.interval_ms
  pub acks_below : flow.fast_acks < 8
  pub sends_below : flow.fast_sends < 8
  pub count_in : flow.count ≤ 3
  pub ids_size : length flow.ids ≡ 3
  pub sent_at_size : length flow.sent_at ≡ 3
  pub bytes_size : length flow.bytes ≡ 3
  pub accounted : flow.inflight_bytes ≡ sum_first flow.count flow.bytes % 2 ^ 32

pub init-IsValid : IsValid init
init-IsValid = omega arith

pub interval_bounds :
    (flow : FrameFlow) → IsPace flow.interval_ms → (16 ≤ interval flow) × (interval flow ≤ 100)
unfolding interval
interval_bounds flow v = ground arith

-- The pacing half of the invariant, which does not speak of the frames in flight.
pub record IsPaced (flow : FrameFlow) : Type 0 where
  pub pace : IsPace flow.interval_ms
  pub acks_below : flow.fast_acks < 8
  pub sends_below : flow.fast_sends < 8

-- The two states hold the same frames in flight.
pub record SameFrames (f g : FrameFlow) : Type 0 where
  pub count : f.count ≡ g.count
  pub ids : f.ids ≡ g.ids
  pub sent_at : f.sent_at ≡ g.sent_at
  pub bytes : f.bytes ≡ g.bytes
  pub inflight_bytes : f.inflight_bytes ≡ g.inflight_bytes

pub slow-SameFrames : (flow : FrameFlow) (now : ℕ) → SameFrames (slow flow now) flow
unfolding slow
slow-SameFrames flow now = ground arith

slow-IsPaced : {flow : FrameFlow} (now : ℕ) → IsPaced flow → IsPaced (slow flow now)
unfolding slow
slow-IsPaced {flow} now v =
    ground (arith, interval_bounds (record flow { fast_acks = 0; fast_sends = 0 }) v.pace)

pub pace_ack-SameFrames :
    (flow : FrameFlow) (depth elapsed now : ℕ) → SameFrames (pace_ack flow depth elapsed now) flow
unfolding pace_ack
pace_ack-SameFrames flow depth elapsed now = ground (arith, slow-SameFrames flow now)

pace_ack-IsPaced :
    {flow : FrameFlow} (depth elapsed now : ℕ)
    → IsPaced flow
    → IsPaced (pace_ack flow depth elapsed now)
unfolding pace_ack
pace_ack-IsPaced {flow} depth elapsed now v =
    ground (arith, slow-IsPaced now v, interval_bounds flow v.pace)

IsValid-IsPaced : {flow : FrameFlow} → IsValid flow → IsPaced flow
IsValid-IsPaced v = omega arith

slow-IsValid : {flow : FrameFlow} (now : ℕ) → IsValid flow → IsValid (slow flow now)
slow-IsValid {flow} now v =
    ground (arith, slow-IsPaced now (IsValid-IsPaced v), slow-SameFrames flow now)

pub send_cost-IsValid :
    {flow : FrameFlow} (cost now : ℕ) → IsValid flow → IsValid (send_cost flow cost now)
unfolding send_cost
send_cost-IsValid {flow} cost now v =
    ground (arith, interval_bounds flow v.pace, slow-IsValid {flow = flow} now v)

sum_first-set_next :
    (xs : List ℕ) (n v : ℕ) → n < length xs → sum_first (suc n) (set xs n v) ≡ sum_first n xs + v
sum_first-set_next [] n v h = absurd (omega arith)
sum_first-set_next (x ∷ xs) zero v h = omega arith
sum_first-set_next (x ∷ xs) (suc n) v h = omega (arith, sum_first-set_next xs n v (omega arith))

sum_first-set :
    (xs : List ℕ) (n i v : ℕ)
    → i < n
    → n ≤ length xs
    → sum_first n (set xs i v) + get_or xs i 0 ≡ sum_first n xs + v
sum_first-set xs zero i v h k = absurd (omega arith)
sum_first-set [] (suc n) i v h k = absurd (omega arith)
sum_first-set (x ∷ xs) (suc n) zero v h k = omega arith
sum_first-set (x ∷ xs) (suc n) (suc i) v h k =
    omega (arith, sum_first-set xs n i v (omega arith) (omega arith))

pub length-close_gap : (r j : ℕ) (xs : List ℕ) → length (close_gap r j xs) ≡ length xs
unfolding close_gap
length-close_gap zero j xs = refl
length-close_gap (suc r) j xs = omega (
  arith,
  length-close_gap r (j + 1) (set xs j (get_or xs (j + 1) 0)),
  length-set xs j (get_or xs (j + 1) 0),
)

sum_first-suc :
    (xs : List ℕ) (n : ℕ) → n < length xs → sum_first (suc n) xs ≡ sum_first n xs + get_or xs n 0
sum_first-suc [] n h = absurd (omega arith)
sum_first-suc (x ∷ xs) zero h = omega arith
sum_first-suc (x ∷ xs) (suc n) h = omega (arith, sum_first-suc xs n (omega arith))

-- Closing the gap at `j` takes the value there out of the sum.
sum_first-close_gap :
    (r j n : ℕ) (xs : List ℕ)
    → j + r ≡ n
    → n < length xs
    → sum_first n (close_gap r j xs) + get_or xs j 0 ≡ sum_first (suc n) xs
unfolding close_gap
sum_first-close_gap zero j n xs e h =
    omega (arith, sum_first-suc xs n h, ap (λ (k : ℕ). get_or xs k 0) (at_end e))
  where
    at_end : j + 0 ≡ n → j ≡ n
    at_end _ = omega arith
sum_first-close_gap (suc r) j n xs e h =
    let next = get_or xs (j + 1) 0 in
    omega (
      arith,
      sum_first-close_gap r (j + 1) n (set xs j next) (omega arith)
          (omega (arith, length-set xs j next)),
      sum_first-set xs (suc n) j next (omega arith) (omega arith),
      get_or-set_ne xs {i = j} {j = j + 1} next 0 (omega arith),
    )

record_sent-IsValid :
    {flow : FrameFlow} (id bytes now : ℕ)
    → IsValid flow
    → flow.count < 3
    → IsValid (record_sent flow id bytes now)
unfolding record_sent
record_sent-IsValid {flow} id bytes now v room = ground (
  arith,
  length-set flow.ids flow.count id,
  length-set flow.bytes flow.count bytes,
  length-set flow.sent_at flow.count now,
  sum_first-set_next flow.bytes flow.count bytes,
)

pub sent_sized-IsValid :
    {flow : FrameFlow} (id bytes now : ℕ) → IsValid flow → IsValid (sent_sized flow id bytes now).1
unfolding sent_sized record_sent
sent_sized-IsValid {flow} id bytes now v = ground (arith, record_sent-IsValid id bytes now v)

pub sent_keyframe_sized-IsValid :
    {flow : FrameFlow} (id bytes now : ℕ)
    → IsValid flow
    → IsValid (sent_keyframe_sized flow id bytes now).1
unfolding sent_keyframe_sized record_sent
sent_keyframe_sized-IsValid {flow} id bytes now v =
    ground (arith, record_sent-IsValid id bytes now v)

pub note_ack-SameFrames :
    (flow : FrameFlow) (depth now : ℕ) → SameFrames (note_ack flow depth now) flow
unfolding note_ack
note_ack-SameFrames flow depth now =
    ground (arith, slow-SameFrames (record flow { suspended = false; last_ack_at = now }) now)

pub note_ack-IsValid :
    {flow : FrameFlow} (depth now : ℕ) → IsValid flow → IsValid (note_ack flow depth now)
unfolding note_ack
note_ack-IsValid {flow} depth now v = ground (arith, slow-IsValid {flow = resumed} now valid)
  where
    resumed : FrameFlow
    resumed = record flow { suspended = false; last_ack_at = now }

    valid : IsValid resumed
    valid = omega arith

suspend-IsValid : {flow : FrameFlow} → IsValid flow → IsValid (suspend flow)
unfolding suspend
suspend-IsValid v = omega arith

pub find_id-lt : (r i : ℕ) (ids : List ℕ) (id k : ℕ) → find_id r i ids id ≡ some k → k < i + r
unfolding find_id
find_id-lt zero i ids id k e = cc
find_id-lt (suc r) i ids id k e = ground (arith, find_id-lt r (i + 1) ids id k)

-- Taking the entry `i` out of the arrays makes up for the bytes taken out of the account.
remove_entry-IsValid :
    {flow paced : FrameFlow} (i taken : ℕ)
    → IsValid flow
    → IsPaced paced
    → SameFrames paced (record flow { have_ack = true; inflight_bytes = taken })
    → taken ≡ sub_u32 flow.inflight_bytes (get_or flow.bytes i 0)
    → i < flow.count
    → IsValid (remove_entry paced i)
unfolding remove_entry
remove_entry-IsValid {flow} {paced} i taken v p same e h = ground (
  arith,
  length-close_gap (flow.count - 1 - i) i flow.ids,
  length-close_gap (flow.count - 1 - i) i flow.bytes,
  length-close_gap (flow.count - 1 - i) i flow.sent_at,
  sum_first-close_gap (flow.count - 1 - i) i (flow.count - 1) flow.bytes,
  ap (λ (n : ℕ). sum_first n flow.bytes) (count_back h),
)
  where
    count_back : i < flow.count → suc (flow.count - 1) ≡ flow.count
    count_back _ = omega arith

ack_entry-IsValid :
    {flow : FrameFlow} (depth now i : ℕ)
    → IsValid flow
    → i < flow.count
    → IsValid (ack_entry flow depth now i)
unfolding ack_entry
ack_entry-IsValid {flow} depth now i v h =
    remove_entry-IsValid i _ v (pace_ack-IsPaced depth _ now (omega arith))
      (pace_ack-SameFrames _ depth _ now) refl h

pub ack-IsValid :
    {flow : FrameFlow} (id depth now : ℕ) → IsValid flow → IsValid (ack flow id depth now).2
unfolding ack
ack-IsValid {flow} id depth now v = elim (Bool-cases (depth == uint32_max)) [
  | inl last ↦ rw last (suspend-IsValid v)
  | inr more ↦ elim (Option-cases (find_id noted.count 0 noted.ids id)) [
    | inl missing ↦ rw (more, missing) (note_ack-IsValid depth now v)
    | inr (i, found) ↦
        rw (more, found)
          (ack_entry-IsValid depth now i (note_ack-IsValid depth now v)
            (omega (arith, find_id-lt _ 0 _ id i found)))
  ]
]
  where
    noted : FrameFlow
    noted = note_ack flow depth now
