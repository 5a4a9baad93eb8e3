-- ===== src/Tests/Video.antt =====
-- src/video_source.c at a concrete stream: an IDR with its parameter sets, a loss, and another one.
use nanokvm_rdp.Prelude.{
  ℕ, suc, ◌≡◌, refl, Bool, true, false, List, [], ◌∷◌, none, some, arith, inl,
}
use nanokvm_rdp.H264.Cache.{nal_type_mask, types_from, mask_start}
use nanokvm_rdp.Rtp.Packetizer.{packet}
use nanokvm_rdp.Client.{datagram, closed_client, open_client}
use nanokvm_rdp.Video.{
  Frame, Ops, VideoSource, new_source, open_source, request_idr, take_frame, note_losses,
  note_types, read_source,
}
use nanokvm_rdp.Video.Reading.{ReadsOn, open_source-Matches, read_source-ReadsOn}
use nanokvm_rdp.Video.Production.{Stream, production_rtp_ops, production_open, production_ending}
use nanokvm_rdp.Tests.Client.{always, sender, sps, good_socket}

-- Requests are counted.
abbrev ask : ℕ → ℕ → Bool × ℕ
ask asked epoch = (true, suc asked)

abbrev ops : Ops (Stream × ℕ)
ops = production_rtp_ops always (some ask)

abbrev stream : Stream × ℕ
stream = (
  record {
    client = closed_client;
    opens = good_socket;
    answers = datagram (packet sender sps true 90_000) ∷ [];
  },
  0,
)

abbrev opened : Bool × VideoSource × (Stream × ℕ)
opened = open_source ops new_source stream 5004

read_source-ReadsOn_example :
    ReadsOn ops
      (production_ending always (some ask))
      opened.1.epoch
      []
      (read_source ops 2 opened.1 opened.2)
unfolding open_source request_idr production_open open_client production_ending
read_source-ReadsOn_example =
    read_source-ReadsOn ops (production_ending always (some ask)) opened.2
      (record {
        bounded = record { in_capacity = omega arith; in_nal = omega arith; sane = inl refl };
        assembled = record { in_capacity = omega arith; in_limit = omega arith; starts = inl refl };
      })
      (open_source-Matches ops new_source stream 5004 refl)

abbrev frame : List ℕ → ℕ → Frame
frame types losses = record { data_ = units types; timestamp = 0; ssrc = 0; losses = losses }
  where
    units : List ℕ → List ℕ
    units [] = []
    units (t ∷ ts) = 0 ∷ 0 ∷ 1 ∷ t ∷ 9 ∷ units ts

-- The frames that are handed over, with what they report.
abbrev shown_of : VideoSource → List Frame → List (ℕ × Bool)
shown_of source [] = []
shown_of source (f ∷ fs) =
    let (unit, source', _) = take_frame ops source stream f in
    elim unit [
      | none ↦ shown_of source' fs
      | some u ↦ (u.nal_types, u.packet_loss) ∷ shown_of source' fs
    ]

-- The P-frame before the IDR is held back, and so is the one after the loss.
gate_run :
    shown_of opened.1 (
      frame (1 ∷ []) 0
      ∷ frame (7 ∷ 8 ∷ []) 0
      ∷ frame (5 ∷ []) 0
      ∷ frame (1 ∷ []) 0
      ∷ frame (1 ∷ []) 1
      ∷ frame (5 ∷ []) 1
      ∷ frame (1 ∷ []) 1
      ∷ [])
    ≡ (384, false) ∷ (32, false) ∷ (2, false) ∷ (32, true) ∷ (2, false) ∷ []
unfolding open_source request_idr production_open open_client take_frame note_losses note_types
    nal_type_mask types_from mask_start
gate_run = refl
