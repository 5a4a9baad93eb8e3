-- ===== src/FrameFlow/Window.antt =====
-- The frames in flight as a list, oldest first: what the arrays of `FrameFlow`
-- (src/frame_flow.h) stand for, and the operations on them through that list.
use nanokvm_rdp.Prelude.{
  ℕ, zero, suc, ◌+◌, ◌-◌, ◌≤◌, ◌<◌, ◌≡◌, refl, ap, sym, ◌∙◌, Bool, true, false, inl, inr, ◌≢◌, List,
  [], ◌∷◌, ◌++◌, Option, none, some, get_or, set, length, arith, Option-cases, Bool-cases, ◌==◌,
  sub_u64, add_u32, ◌%◌, ◌^◌, if◌then◌else◌, ltb, not, ◌&&◌, leb, sub_u32, ==_iff,
}
use mathlib.Core.Option
use nanokvm_rdp.FrameFlow.{
  FrameFlow, record_sent, sent_sized, find_id, close_gap, remove_entry, note_ack, ack_entry, ack,
  uint32_max, limit, max_inflight_bytes, pace_ack,
}
use nanokvm_rdp.FrameFlow.Invariant.{
  sum_first, IsValid, SameFrames, note_ack-SameFrames, note_ack-IsValid, pace_ack-SameFrames,
  find_id-lt,
}

pub record Frame : Type 0 where
  pub id : ℕ
  pub bytes : ℕ
  pub sent_at : ℕ

abbrev pub frame : ℕ → ℕ → ℕ → Frame
frame i b t = record { id = i; bytes = b; sent_at = t }

-- The first `n` entries of the three arrays.
abbrev entries : ℕ → List ℕ → List ℕ → List ℕ → List Frame
entries zero is bs ts = []
entries (suc n) [] bs ts = []
entries (suc n) (i ∷ is) [] ts = []
entries (suc n) (i ∷ is) (b ∷ bs) [] = []
entries (suc n) (i ∷ is) (b ∷ bs) (t ∷ ts) = frame i b t ∷ entries n is bs ts

abbrev pub frames : FrameFlow → List Frame
frames flow = entries flow.count flow.ids flow.bytes flow.sent_at

-- What an ACK of `id` means: the first frame of that id leaves, and its age is measured.
unfoldable pub acknowledge : ℕ → ℕ → List Frame → Bool × ℕ × List Frame
acknowledge id now [] = (false, 0, [])
acknowledge id now (f ∷ fs) =
    let (found, elapsed, rest) = acknowledge id now fs in
    if f.id == id then (true, sub_u64 now f.sent_at, fs) else (found, elapsed, f ∷ rest)

module _ {ℓ} {A : Type ℓ} where
  abbrev remove_at : ℕ → List A → List A
  remove_at i [] = []
  remove_at zero (x ∷ xs) = xs
  remove_at (suc i) (x ∷ xs) = x ∷ remove_at i xs

close_gap-cons : (r j x : ℕ) (xs : List ℕ) → close_gap r (suc j) (x ∷ xs) ≡ x ∷ close_gap r j xs
unfolding close_gap
close_gap-cons zero j x xs = refl
close_gap-cons (suc r) j x xs =
    let next : suc j + 1 ≡ suc (j + 1) = omega arith in
    rw next (close_gap-cons r (j + 1) x (set xs j (get_or xs (j + 1) 0)))

close_gap-suc :
    (n x y : ℕ) (xs : List ℕ) → close_gap (suc n) 0 (x ∷ y ∷ xs) ≡ y ∷ close_gap n 0 (y ∷ xs)
unfolding close_gap
close_gap-suc n x y xs = close_gap-cons n 0 y (y ∷ xs)

-- Closing the gap at the front shifts every entry by one.
entries-close_front :
    (n i b t : ℕ) (is bs ts : List ℕ)
    → n ≤ length is
    → n ≤ length bs
    → n ≤ length ts
    → entries n (close_gap n 0 (i ∷ is)) (close_gap n 0 (b ∷ bs)) (close_gap n 0 (t ∷ ts))
      ≡ entries n is bs ts
entries-close_front zero i b t is bs ts hi hb ht = refl
entries-close_front (suc n) i b t [] bs ts hi hb ht = absurd (omega arith)
entries-close_front (suc n) i b t (i' ∷ is) [] ts hi hb ht = absurd (omega arith)
entries-close_front (suc n) i b t (i' ∷ is) (b' ∷ bs) [] hi hb ht = absurd (omega arith)
entries-close_front (suc n) i b t (i' ∷ is) (b' ∷ bs) (t' ∷ ts) hi hb ht =
    rw (close_gap-suc n i i' is, close_gap-suc n b b' bs, close_gap-suc n t t' ts)
      (ap (◌∷◌ (frame i' b' t'))
        (entries-close_front n i' b' t' is bs ts (omega arith) (omega arith) (omega arith)))

-- Closing the gap at `i` takes that frame out of the window.
entries-close_gap :
    (i r : ℕ) (is bs ts : List ℕ)
    → i + r < length is
    → i + r < length bs
    → i + r < length ts
    → entries (i + r) (close_gap r i is) (close_gap r i bs) (close_gap r i ts)
      ≡ remove_at i (entries (suc (i + r)) is bs ts)
entries-close_gap i r [] bs ts hi hb ht = absurd (omega arith)
entries-close_gap i r (x ∷ is) [] ts hi hb ht = absurd (omega arith)
entries-close_gap i r (x ∷ is) (y ∷ bs) [] hi hb ht = absurd (omega arith)
entries-close_gap zero r (x ∷ is) (y ∷ bs) (z ∷ ts) hi hb ht =
    let e : zero + r ≡ r = omega arith in
    rw e (entries-close_front r x y z is bs ts (omega arith) (omega arith) (omega arith))
entries-close_gap (suc i) r (x ∷ is) (y ∷ bs) (z ∷ ts) hi hb ht =
    let e : suc i + r ≡ suc (i + r) = omega arith in
    rw (e, close_gap-cons r i x is, close_gap-cons r i y bs, close_gap-cons r i z ts)
      (ap (◌∷◌ (frame x y z))
        (entries-close_gap i r is bs ts (omega arith) (omega arith) (omega arith)))

find_id-cons :
    (r i x : ℕ) (xs : List ℕ) (id : ℕ)
    → find_id r (suc i) (x ∷ xs) id ≡ Option.map suc (find_id r i xs id)
unfolding find_id
find_id-cons zero i x xs id = refl
find_id-cons (suc r) i x xs id =
    let next : suc i + 1 ≡ suc (i + 1) = omega arith in
    rw next (ground (arith, find_id-cons r (i + 1) x xs id))

-- What an ACK does, by the position that the search finds.
abbrev located : ℕ → List ℕ → List Frame → Option ℕ → Bool × ℕ × List Frame
located now ts fs none = (false, 0, fs)
located now ts fs (some k) = (true, sub_u64 now (get_or ts k 0), remove_at k fs)

acknowledge-located :
    (n id now : ℕ) (is bs ts : List ℕ)
    → n ≤ length is
    → n ≤ length bs
    → n ≤ length ts
    → acknowledge id now (entries n is bs ts)
      ≡ located now ts (entries n is bs ts) (find_id n 0 is id)
unfolding acknowledge find_id
acknowledge-located zero id now is bs ts hi hb ht = refl
acknowledge-located (suc n) id now [] bs ts hi hb ht = absurd (omega arith)
acknowledge-located (suc n) id now (i ∷ is) [] ts hi hb ht = absurd (omega arith)
acknowledge-located (suc n) id now (i ∷ is) (b ∷ bs) [] hi hb ht = absurd (omega arith)
acknowledge-located (suc n) id now (i ∷ is) (b ∷ bs) (t ∷ ts) hi hb ht = ground (
  arith,
  find_id-cons n 0 i is id,
  acknowledge-located n id now is bs ts (omega arith) (omega arith) (omega arith),
)

-- A state that holds the same frames shows the same window.
frames-SameFrames : {f g : FrameFlow} → SameFrames f g → frames f ≡ frames g
frames-SameFrames same = rw (same.count, same.ids, same.bytes, same.sent_at)

-- The arrays have room for the frames in flight.
record HasRoom (flow : FrameFlow) : Type 0 where
  ids_room : flow.count ≤ length flow.ids
  bytes_room : flow.count ≤ length flow.bytes
  sent_at_room : flow.count ≤ length flow.sent_at

frames-remove_entry :
    (flow : FrameFlow) (i : ℕ)
    → HasRoom flow
    → i < flow.count
    → frames (remove_entry flow i) ≡ remove_at i (frames flow)
unfolding remove_entry
frames-remove_entry flow i v h = rw (whole h, part h) at shut
  where
    open flow use {count, ids, bytes, sent_at}

    whole : i < count → suc (i + (count - 1 - i)) ≡ count
    whole _ = omega arith

    part : i < count → i + (count - 1 - i) ≡ count - 1
    part _ = omega arith

    shut :
        entries
          (i + (count - 1 - i))
          (close_gap (count - 1 - i) i ids)
          (close_gap (count - 1 - i) i bytes)
          (close_gap (count - 1 - i) i sent_at)
        ≡ remove_at i (entries (suc (i + (count - 1 - i))) ids bytes sent_at)
    shut =
        entries-close_gap i (count - 1 - i) ids bytes sent_at (omega arith) (omega arith)
          (omega arith)

frames-ack_entry :
    (flow : FrameFlow) (depth now i : ℕ)
    → IsValid flow
    → i < flow.count
    → frames (ack_entry flow depth now i) ≡ remove_at i (frames flow)
unfolding ack_entry
frames-ack_entry flow depth now i v h =
    frames-remove_entry paced i
      (omega (arith, same, ap length same.ids, ap length same.bytes, ap length same.sent_at))
      (omega (arith, same))
    ∙ ap (remove_at i) (frames-SameFrames same)
  where
    elapsed : ℕ
    elapsed = sub_u64 now (get_or flow.sent_at i 0)

    taken : FrameFlow
    taken = record flow {
      have_ack = true;
      inflight_bytes = sub_u32 flow.inflight_bytes (get_or flow.bytes i 0);
    }

    paced : FrameFlow
    paced = pace_ack taken depth elapsed now

    same : SameFrames paced taken
    same = pace_ack-SameFrames taken depth elapsed now

-- An ACK of the frame `id` with a queue depth other than the suspension mark does to the frames in
-- flight what `acknowledge` does: the first frame of that id leaves and its age is returned, and
-- where no frame in flight has the id the call returns false and age 0 and all frames stay.
pub ack_refines :
    {flow : FrameFlow} (id depth now : ℕ)
    → IsValid flow
    → depth ≢ uint32_max
    → let (found, elapsed, flow') = ack flow id depth now in
      (found, elapsed, frames flow') ≡ acknowledge id now (frames flow)
unfolding ack
ack_refines {flow} id depth now v h = elim (Bool-cases (depth == uint32_max)) [
  | inl last ↦ absurd (h ((==_iff depth uint32_max).0 last))
  | inr more ↦ elim (Option-cases (find_id noted.count 0 noted.ids id)) [
    | inl missing ↦ rw (more, missing, ← same_frames) (sym (rw missing at spec))
    | inr (i, found) ↦
        rw
          (
            more,
            found,
            ← same_frames,
            frames-ack_entry noted depth now i noted-IsValid
                (omega (arith, find_id-lt _ 0 _ id i found)),
          )
          (sym (rw found at spec))
  ]
]
  where
    noted : FrameFlow
    noted = note_ack flow depth now

    noted-IsValid : IsValid noted
    noted-IsValid = note_ack-IsValid depth now v

    same_frames : frames noted ≡ frames flow
    same_frames = frames-SameFrames (note_ack-SameFrames flow depth now)

    spec :
        acknowledge id now (frames noted)
        ≡ located now noted.sent_at (frames noted) (find_id noted.count 0 noted.ids id)
    spec =
        acknowledge-located noted.count id now noted.ids noted.bytes noted.sent_at
          (omega (arith, noted-IsValid)) (omega (arith, noted-IsValid))
          (omega (arith, noted-IsValid))

entries-set_next :
    (n i b t : ℕ) (is bs ts : List ℕ)
    → n < length is
    → n < length bs
    → n < length ts
    → entries (suc n) (set is n i) (set bs n b) (set ts n t)
      ≡ entries n is bs ts ++ frame i b t ∷ []
entries-set_next n i b t [] bs ts hi hb ht = absurd (omega arith)
entries-set_next n i b t (x ∷ is) [] ts hi hb ht = absurd (omega arith)
entries-set_next n i b t (x ∷ is) (y ∷ bs) [] hi hb ht = absurd (omega arith)
entries-set_next zero i b t (x ∷ is) (y ∷ bs) (z ∷ ts) hi hb ht = refl
entries-set_next (suc n) i b t (x ∷ is) (y ∷ bs) (z ∷ ts) hi hb ht =
    ap (◌∷◌ (frame x y z))
      (entries-set_next n i b t is bs ts (omega arith) (omega arith) (omega arith))

frames-record_sent :
    {flow : FrameFlow} (id bytes now : ℕ)
    → IsValid flow
    → flow.count < 3
    → frames (record_sent flow id bytes now) ≡ frames flow ++ frame id bytes now ∷ []
unfolding record_sent
frames-record_sent {flow} id bytes now v h =
    let next : add_u32 flow.count 1 ≡ suc flow.count = omega arith in
    rw next (
      entries-set_next flow.count id bytes now flow.ids flow.bytes flow.sent_at (omega arith)
        (omega arith) (omega arith))

abbrev pub total_bytes : List Frame → ℕ
total_bytes [] = 0
total_bytes (f ∷ fs) = f.bytes + total_bytes fs

entries-measure :
    (n : ℕ) (is bs ts : List ℕ)
    → n ≤ length is
    → n ≤ length bs
    → n ≤ length ts
    → (length (entries n is bs ts) ≡ n) × (total_bytes (entries n is bs ts) ≡ sum_first n bs)
entries-measure zero is bs ts hi hb ht = (refl, refl)
entries-measure (suc n) [] bs ts hi hb ht = absurd (omega arith)
entries-measure (suc n) (i ∷ is) [] ts hi hb ht = absurd (omega arith)
entries-measure (suc n) (i ∷ is) (b ∷ bs) [] hi hb ht = absurd (omega arith)
entries-measure (suc n) (i ∷ is) (b ∷ bs) (t ∷ ts) hi hb ht =
    omega (arith, entries-measure n is bs ts (omega arith) (omega arith) (omega arith))

pub frames-measure :
    {flow : FrameFlow}
    → IsValid flow
    → (length (frames flow) ≡ flow.count)
      × (flow.inflight_bytes ≡ total_bytes (frames flow) % 2 ^ 32)
frames-measure {flow} v = omega (
  arith,
  entries-measure flow.count flow.ids flow.bytes flow.sent_at (omega arith) (omega arith)
      (omega arith),
)

-- What a send means on the list of frames in flight: with ACKs suspended it always succeeds and
-- nothing is tracked; else at most three frames and, unless none is in flight, at most the byte
-- budget (in 32-bit arithmetic) are let through.
unfoldable pub offer : Bool → Frame → List Frame → Bool × List Frame
offer suspended f fs =
    if suspended
    then (true, fs)
    else if leb limit (length fs)
    then (false, fs)
    else if not (length fs == 0) && ltb max_inflight_bytes ((total_bytes fs + f.bytes) % 2 ^ 32)
    then (false, fs)
    else (true, fs ++ f ∷ [])

-- A sized send does to the frames in flight, and returns, what `offer` says, on every branch.
pub sent_sized_refines :
    {flow : FrameFlow} (id bytes now : ℕ)
    → IsValid flow
    → let (ok, flow') = sent_sized flow id bytes now in
      (ok, frames flow') ≡ offer flow.suspended (frame id bytes now) (frames flow)
unfolding sent_sized offer record_sent
sent_sized_refines {flow} id bytes now v =
    ground (arith, frames-record_sent id bytes now v, frames-measure v)
