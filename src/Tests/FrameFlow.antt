-- ===== src/Tests/FrameFlow.antt =====
-- src/frame_flow.h at concrete states.
use nanokvm_rdp.Prelude.{◌≡◌, refl, true, false, [], ◌∷◌, arith, if◌then◌else◌}
use nanokvm_rdp.FrameFlow.{
  FrameFlow, init, interval, sent_sized, sent_keyframe_sized, ack, avc_admit, note_ack, find_id,
  close_gap, pace_ack, remove_entry, ack_entry,
}
use nanokvm_rdp.FrameFlow.Invariant.{IsValid}
use nanokvm_rdp.FrameFlow.Window.{frames, acknowledge, offer, ack_refines, sent_sized_refines}
use nanokvm_rdp.FrameFlow.Admission.{
  sends, keyframes, acks, costs, run, run-init-IsValid, avc_admit-send,
}

-- Three frames in flight, of 10, 20 and 30 bytes.
abbrev busy : FrameFlow
busy = record {
  suspended = false;
  have_ack = true;
  interval_ms = 30;
  fast_acks = 7;
  fast_sends = 0;
  last_slow_at = 0;
  count = 3;
  ids = 5 ∷ 6 ∷ 7 ∷ [];
  sent_at = 1000 ∷ 1010 ∷ 1020 ∷ [];
  bytes = 10 ∷ 20 ∷ 30 ∷ [];
  inflight_bytes = 60;
  last_ack_at = 900;
}

abbrev idle : FrameFlow
idle = record busy { count = 1; inflight_bytes = 10 }

busy-IsValid : IsValid busy
busy-IsValid = omega arith

idle-IsValid : IsValid idle
idle-IsValid = omega arith

-- The eighth fast ACK takes the middle frame out and shortens the interval by 2 ms.
ack_middle :
    frames (ack busy 6 0 1060).2
    ≡ record { id = 5; bytes = 10; sent_at = 1000 }
      ∷ record { id = 7; bytes = 30; sent_at = 1020 }
      ∷ []
unfolding ack note_ack find_id ack_entry pace_ack remove_entry close_gap interval
ack_middle = refl

ack_middle_interval : (ack busy 6 0 1060).2.interval_ms ≡ 28
unfolding ack note_ack find_id ack_entry pace_ack remove_entry close_gap interval
ack_middle_interval = refl

ack_refines_example :
    let (found, elapsed, flow') = ack busy 6 0 1060 in
    (found, elapsed, frames flow') ≡ acknowledge 6 1060 (frames busy)
ack_refines_example = ack_refines {flow = busy} 6 0 1060 busy-IsValid (omega arith)

sent_sized_refines_example :
    let (ok, flow') = sent_sized idle 8 500 1100 in
    (ok, frames flow') ≡ offer false (record { id = 8; bytes = 500; sent_at = 1100 }) (frames idle)
sent_sized_refines_example = sent_sized_refines {flow = idle} 8 500 1100 idle-IsValid

run-init-IsValid_example :
    IsValid (run init (sends 1 100 10 ∷ keyframes 2 900_000 20 ∷ acks 1 0 50 ∷ costs 70 60 ∷ []))
run-init-IsValid_example =
    run-init-IsValid (sends 1 100 10 ∷ keyframes 2 900_000 20 ∷ acks 1 0 50 ∷ costs 70 60 ∷ [])

avc_admit-send_example :
    (if false then sent_keyframe_sized idle 8 500 1000 else sent_sized idle 8 500 1000).0 ≡ true
unfolding avc_admit
avc_admit-send_example = avc_admit-send idle 8 500 1000 0 false refl
