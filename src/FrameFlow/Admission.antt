-- ===== src/FrameFlow/Admission.antt =====
-- Admission and accounting agree (src/frame_flow.h): what `frame_flow_avc_admit` lets through is
-- taken by the `sent` function that follows it, the interval stays in its bounds, and the caller's
-- recovery gate holds P-frames back until an IDR went out.
use nanokvm_rdp.Prelude.{
  ℕ, ◌≤◌, ◌≡◌, refl, Bool, true, false, List, [], ◌∷◌, arith, if◌then◌else◌, not,
}
use nanokvm_rdp.FrameFlow.{
  FrameFlow, send, interval, suspended_interval, min_interval, default_interval, max_interval,
  send_cost, sent_sized, sent_keyframe_sized, ready, ready_keyframe, avc_admit, ack, init,
  avc_should_send, avc_flow_rejected, avc_send_failed, avc_sent,
}
use nanokvm_rdp.FrameFlow.Invariant.{
  IsValid, init-IsValid, send_cost-IsValid, sent_sized-IsValid, sent_keyframe_sized-IsValid,
  ack-IsValid,
}

-- What the admission lets through the accounting takes: after SEND the matching `sent` function
-- returns true, for a P-frame of the same size and for an IDR of any size.
pub avc_admit-send :
    (flow : FrameFlow) (id bytes now wait_started_at : ℕ) (idr : Bool)
    → avc_admit flow bytes idr now wait_started_at ≡ send
    → (if idr then sent_keyframe_sized flow id bytes now else sent_sized flow id bytes now).0 ≡ true
unfolding avc_admit sent_sized sent_keyframe_sized
avc_admit-send flow id bytes now started idr h = ground arith

-- Whatever a P-frame may do an IDR may do: the keyframe test passes where the ordinary one does.
pub ready-ready_keyframe :
    (flow : FrameFlow) (bytes now : ℕ)
    → ready flow bytes now ≡ true
    → ready_keyframe flow now ≡ true
unfolding ready ready_keyframe
ready-ready_keyframe flow bytes now h = ground arith

-- The smallest interval for what is known of the client.
abbrev pub least : FrameFlow → ℕ
least flow =
    if flow.suspended
    then suspended_interval
    else if flow.have_ack
    then min_interval
    else default_interval

-- The interval of a valid state is at most 100 ms, and at least 20 ms with ACKs suspended, 16 ms for
-- a client that has acknowledged, and 40 ms for one of which nothing is known.
pub interval_range :
    {flow : FrameFlow}
    → IsValid flow
    → (least flow ≤ interval flow) × (interval flow ≤ max_interval)
unfolding interval
interval_range {flow} v = ground arith

-- The calls on a connection's flow state.
pub data Call : Type 0 where
  sends keyframes : ℕ → ℕ → ℕ → Call
  acks : ℕ → ℕ → ℕ → Call
  costs : ℕ → ℕ → Call

pub step : FrameFlow → Call → FrameFlow
step flow (sends id bytes now) = (sent_sized flow id bytes now).1
step flow (keyframes id bytes now) = (sent_keyframe_sized flow id bytes now).1
step flow (acks id depth now) = (ack flow id depth now).2
step flow (costs cost now) = send_cost flow cost now

pub run : FrameFlow → List Call → FrameFlow
run flow [] = flow
run flow (c ∷ cs) = run (step flow c) cs

step-IsValid : {flow : FrameFlow} (c : Call) → IsValid flow → IsValid (step flow c)
unfolding step
step-IsValid (sends id bytes now) v = sent_sized-IsValid id bytes now v
step-IsValid (keyframes id bytes now) v = sent_keyframe_sized-IsValid id bytes now v
step-IsValid (acks id depth now) v = ack-IsValid id depth now v
step-IsValid (costs cost now) v = send_cost-IsValid cost now v

run-IsValid : (cs : List Call) {flow : FrameFlow} → IsValid flow → IsValid (run flow cs)
unfolding run
run-IsValid [] v = v
run-IsValid (c ∷ cs) v = run-IsValid cs (step-IsValid c v)

-- After any sequence of calls from the zeroed state the invariant holds: the interval is unset or
-- in its bounds, the counters are below eight, at most three frames are in flight, and the byte
-- account is the sum of their sizes in 32-bit arithmetic.
pub run-init-IsValid : (cs : List Call) → IsValid (run init cs)
run-init-IsValid cs = run-IsValid cs init-IsValid

-- What happens on the AVC path: a frame is offered and the admission refuses it, its submission
-- fails, or it is submitted.
pub data Event : Type 0 where
  rejected failed : Event
  submitted : Bool → Event

-- The flag after an event; a frame is submitted only where the gate lets it through.
pub gate_step : Bool → Event → Bool
gate_step need_idr rejected = (avc_flow_rejected need_idr).1
gate_step need_idr failed = avc_send_failed need_idr
gate_step need_idr (submitted idr) =
    if avc_should_send need_idr idr (not idr) then avc_sent need_idr idr else need_idr

pub gate : Bool → List Event → Bool
gate need_idr [] = need_idr
gate need_idr (e ∷ es) = gate (gate_step need_idr e) es

abbrev pub without_idr : List Event → Bool
without_idr [] = true
without_idr (submitted true ∷ es) = false
without_idr (e ∷ es) = without_idr es

-- Once a reference is lost the gate refuses every P-frame, and lets every IDR through, as long as
-- no IDR has been submitted.
pub gate-without_idr :
    (es : List Event)
    → without_idr es ≡ true
    → (avc_should_send (gate true es) false true ≡ false)
      × (avc_should_send (gate true es) true false ≡ true)
unfolding gate gate_step avc_should_send avc_flow_rejected avc_send_failed avc_sent
gate-without_idr [] h = (refl, refl)
gate-without_idr (rejected ∷ es) h = gate-without_idr es h
gate-without_idr (failed ∷ es) h = gate-without_idr es h
gate-without_idr (submitted true ∷ es) h = cc
gate-without_idr (submitted false ∷ es) h = gate-without_idr es h
