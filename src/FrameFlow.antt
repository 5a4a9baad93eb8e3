-- ===== src/FrameFlow.antt =====
-- Frame pacing and flow control of the graphics pipeline: src/frame_flow.h.
-- The state is `FrameFlow`, with its three arrays of FRAME_FLOW_LIMIT entries as lists; a function
-- that updates `*flow` returns the new state. An `unsigned` or `uint32_t` wraps at 2^32, a
-- `uint64_t` at 2^64.
pub mod Invariant
pub mod Window
pub mod Admission
use nanokvm_rdp.Prelude.{
  ℕ, zero, suc, ◌+◌, ◌-◌, ◌*◌, ◌/◌, Bool, true, false, ◌&&◌, ◌||◌, not, List, [], ◌∷◌, Option, none,
  some, get_or, set, ltb, leb, ◌==◌, if◌then◌else◌, add_u32, sub_u32, sub_u64,
}

abbrev pub limit : ℕ
limit = 3

abbrev pub default_interval : ℕ
default_interval = 40

abbrev pub min_interval : ℕ
min_interval = 16

abbrev pub suspended_interval : ℕ
suspended_interval = 20

abbrev pub max_interval : ℕ
max_interval = 100

abbrev pub slow_ack_ms : ℕ
slow_ack_ms = 250

abbrev pub max_inflight_bytes : ℕ
max_inflight_bytes = 192 * 1024

abbrev pub avc_wait_ms : ℕ
avc_wait_ms = 150

abbrev pub uint32_max : ℕ
uint32_max = 0xffff_ffff

pub data AvcAdmission : Type 0 where
  send wait resync : AvcAdmission

pub record FrameFlow : Type 0 where
  pub suspended : Bool
  pub have_ack : Bool
  pub interval_ms : ℕ
  pub fast_acks : ℕ
  pub fast_sends : ℕ
  pub last_slow_at : ℕ
  pub count : ℕ
  pub ids : List ℕ
  pub sent_at : List ℕ
  pub bytes : List ℕ
  pub inflight_bytes : ℕ
  pub last_ack_at : ℕ

-- `{ 0 }`, as the connection's state is set up.
abbrev pub init : FrameFlow
init = record {
  suspended = false;
  have_ack = false;
  interval_ms = 0;
  fast_acks = 0;
  fast_sends = 0;
  last_slow_at = 0;
  count = 0;
  ids = 0 ∷ 0 ∷ 0 ∷ [];
  sent_at = 0 ∷ 0 ∷ 0 ∷ [];
  bytes = 0 ∷ 0 ∷ 0 ∷ [];
  inflight_bytes = 0;
  last_ack_at = 0;
}

unfoldable pub interval : FrameFlow → ℕ
interval flow =
    let base = if flow.interval_ms == 0 then default_interval else flow.interval_ms in
    let known =
      if not flow.have_ack && (not flow.suspended && ltb base default_interval)
      then default_interval
      else base in
    if flow.suspended && ltb known suspended_interval then suspended_interval else known

unfoldable pub slow : FrameFlow → ℕ → FrameFlow
slow flow now =
    let reset = record flow { fast_acks = 0; fast_sends = 0 } in
    if not (flow.last_slow_at == 0) && ltb (sub_u64 now flow.last_slow_at) 100
    then reset
    else (let next = add_u32 (interval reset) 8 in
        record reset {
          interval_ms = if ltb max_interval next then max_interval else next;
          last_slow_at = now;
        })

unfoldable pub send_cost : FrameFlow → ℕ → ℕ → FrameFlow
send_cost flow cost_ms now =
    let current = interval flow in
    let sends = add_u32 flow.fast_sends 1 in
    if leb current cost_ms
    then slow flow now
    else if flow.suspended && leb cost_ms (current / 2)
    then if leb 8 sends
      then record flow {
        interval_ms =
            if ltb (suspended_interval + 1) current then sub_u32 current 2 else suspended_interval;
        fast_sends = 0;
      }
      else record flow { fast_sends = sends }
    else record flow { fast_sends = 0 }

unfoldable pub blocked : FrameFlow → Bool
blocked flow = not flow.suspended && flow.count == limit

-- The common tail of the two `sent` functions: the frame takes the next entry of the arrays.
unfoldable pub record_sent : FrameFlow → ℕ → ℕ → ℕ → FrameFlow
record_sent flow id bytes now = record flow {
  ids = set flow.ids flow.count id;
  bytes = set flow.bytes flow.count bytes;
  sent_at = set flow.sent_at flow.count now;
  count = add_u32 flow.count 1;
  inflight_bytes = add_u32 flow.inflight_bytes bytes;
}

unfoldable pub sent_sized : FrameFlow → ℕ → ℕ → ℕ → Bool × FrameFlow
unfolding blocked record_sent
sent_sized flow id bytes now =
    if flow.suspended
    then (true, flow)
    else if blocked flow
    then (false, flow)
    else if not (flow.count == 0) && ltb max_inflight_bytes (add_u32 flow.inflight_bytes bytes)
    then (false, flow)
    else (true, record_sent flow id bytes now)

unfoldable pub sent_keyframe_sized : FrameFlow → ℕ → ℕ → ℕ → Bool × FrameFlow
unfolding blocked record_sent
sent_keyframe_sized flow id bytes now =
    if flow.suspended
    then (true, flow)
    else if blocked flow
    then (false, flow)
    else (true, record_sent flow id bytes now)

unfoldable pub sent : FrameFlow → ℕ → ℕ → Bool × FrameFlow
unfolding sent_sized
sent flow id now = sent_sized flow id 0 now

-- The last ACK is stale.
unfoldable pub ack_stale : FrameFlow → ℕ → Bool
ack_stale flow now = not (flow.last_ack_at == 0) && leb slow_ack_ms (sub_u64 now flow.last_ack_at)

unfoldable pub ready : FrameFlow → ℕ → ℕ → Bool
unfolding blocked ack_stale
ready flow bytes now =
    if flow.suspended || flow.count == 0
    then true
    else if blocked flow
    then false
    else if ltb max_inflight_bytes (add_u32 flow.inflight_bytes bytes)
    then false
    else if ack_stale flow now
    then false
    else true

unfoldable pub ready_keyframe : FrameFlow → ℕ → Bool
unfolding blocked ack_stale
ready_keyframe flow now =
    if flow.suspended || flow.count == 0
    then true
    else if blocked flow
    then false
    else if ack_stale flow now
    then false
    else true

unfoldable pub avc_admit : FrameFlow → ℕ → Bool → ℕ → ℕ → AvcAdmission
unfolding ready ready_keyframe
avc_admit flow bytes idr now wait_started_at =
    if not (wait_started_at == 0) && leb avc_wait_ms (sub_u64 now wait_started_at)
    then resync
    else if (if idr then ready_keyframe flow now else ready flow bytes now)
    then send
    else wait

-- The search loop of the ACK: `rounds` entries are left, `i` is the next index.
unfoldable pub find_id : ℕ → ℕ → List ℕ → ℕ → Option ℕ
find_id zero i ids id = none
find_id (suc rounds) i ids id =
    let rest = find_id rounds (i + 1) ids id in if get_or ids i 0 == id then some i else rest

-- The loop that closes the gap: `for (j = i; j < count; j++) a[j] = a[j + 1]`.
unfoldable pub close_gap : ℕ → ℕ → List ℕ → List ℕ
close_gap zero j xs = xs
close_gap (suc rounds) j xs = close_gap rounds (j + 1) (set xs j (get_or xs (j + 1) 0))

-- The pacing part of an ACK that names a frame in flight.
unfoldable pub pace_ack : FrameFlow → ℕ → ℕ → ℕ → FrameFlow
pace_ack flow depth elapsed now =
    let acks = add_u32 flow.fast_acks 1 in
    let current = interval flow in
    if ltb 120 elapsed
    then slow flow now
    else if depth == 0 && leb elapsed 60
    then if leb 8 acks
      then record flow {
        interval_ms = if ltb (min_interval + 1) current then sub_u32 current 2 else min_interval;
        fast_acks = 0;
      }
      else record flow { fast_acks = acks }
    else record flow { fast_acks = 0 }

-- The entry `i` leaves the arrays.
unfoldable pub remove_entry : FrameFlow → ℕ → FrameFlow
remove_entry flow i =
    let left = flow.count - 1 in
    record flow {
      count = left;
      ids = close_gap (left - i) i flow.ids;
      bytes = close_gap (left - i) i flow.bytes;
      sent_at = close_gap (left - i) i flow.sent_at;
    }

-- The state of the ACK's first part, for a client that suspends ACKs.
unfoldable pub suspend : FrameFlow → FrameFlow
suspend flow = record flow {
  suspended = true;
  have_ack = false;
  fast_acks = 0;
  interval_ms = suspended_interval;
  fast_sends = 0;
  last_slow_at = 0;
  count = 0;
  inflight_bytes = 0;
  last_ack_at = 0;
}

-- The state before the search: the queue depth counts for every ACK.
unfoldable pub note_ack : FrameFlow → ℕ → ℕ → FrameFlow
note_ack flow depth now =
    let resumed = record flow { suspended = false; last_ack_at = now } in
    if ltb (256 * 1024) depth then slow resumed now else resumed

-- The entry `i` of `flow` is acknowledged.
unfoldable pub ack_entry : FrameFlow → ℕ → ℕ → ℕ → FrameFlow
ack_entry flow depth now i =
    let elapsed = sub_u64 now (get_or flow.sent_at i 0) in
    let taken = record flow {
      have_ack = true;
      inflight_bytes = sub_u32 flow.inflight_bytes (get_or flow.bytes i 0);
    } in
    remove_entry (pace_ack taken depth elapsed now) i

-- The result, `*elapsed` and the new state.
unfoldable pub ack : FrameFlow → ℕ → ℕ → ℕ → Bool × ℕ × FrameFlow
ack flow id depth now =
    if depth == uint32_max
    then (false, 0, suspend flow)
    else (let noted = note_ack flow depth now in
        elim (find_id noted.count 0 noted.ids id) [
          | none ↦ (false, 0, noted)
          | some i ↦ (true, sub_u64 now (get_or noted.sent_at i 0), ack_entry noted depth now i)
        ])

-- The gate of the AVC path: `need_idr` is the flag that the caller keeps.
unfoldable pub avc_should_send : Bool → Bool → Bool → Bool
avc_should_send need_idr idr p_frame = idr || (not need_idr && p_frame)

-- The result, true only on the transition that asks for a resync, and the new flag.
unfoldable pub avc_flow_rejected : Bool → Bool × Bool
avc_flow_rejected need_idr = if need_idr then (false, true) else (true, true)

unfoldable pub avc_send_failed : Bool → Bool
avc_send_failed need_idr = true

unfoldable pub avc_sent : Bool → Bool → Bool
avc_sent need_idr idr = if idr then false else need_idr
