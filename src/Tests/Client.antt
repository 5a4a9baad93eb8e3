-- ===== src/Tests/Client.antt =====
-- src/rtp_client.c at concrete streams.
use nanokvm_rdp.Prelude.{ℕ, zero, suc, ◌≡◌, refl, Bool, true, false, List, [], ◌∷◌, arith, inl}
use nanokvm_rdp.Rtp.Packetizer.{Packetizer, start_code_length, packet}
use nanokvm_rdp.Rtp.Reassembler.{reassembler_init}
use nanokvm_rdp.Rtp.Split.{IsClean}
use nanokvm_rdp.Client.{
  RtpClient, Recv, datagram, interrupted, failed, closed_context, read_h264, save_nal,
  in_access_unit, append_access_unit, OpenAnswers, open_client,
}
use nanokvm_rdp.Client.Bounds.{Hands, read_h264-Hands}
use nanokvm_rdp.Client.AccessUnit.{Received, read_h264-packetize_access_unit}

abbrev pub always : ℕ → Bool
always n = true

-- The smallest MTU.
abbrev pub sender : Packetizer
sender = record { sequence = 65_535; ssrc = 7; mtu = 15 }

abbrev pub good_socket : OpenAnswers
good_socket = record {
  has_socket = true;
  has_timeout = true;
  is_bound = true;
  buffer_bytes = 212_992;
}

abbrev open_to_read : RtpClient
open_to_read = record {
  context = record closed_context { opened = true; receive_buffer_bytes = 212_992 };
  reassembler = reassembler_init;
}

opens : open_client good_socket open_to_read 5004 ≡ (true, open_to_read)
unfolding open_client
opens = refl

abbrev pub sps : List ℕ
sps = 0x67 ∷ 0x42 ∷ []

abbrev idr : List ℕ
idr = 0x65 ∷ 0 ∷ 0 ∷ 9 ∷ 0x80 ∷ []

sps-IsClean : IsClean sps
unfolding start_code_length
sps-IsClean zero h = refl
sps-IsClean (suc zero) h = refl
sps-IsClean (suc (suc k)) h = absurd (omega arith)

idr-IsClean : IsClean idr
unfolding start_code_length
idr-IsClean zero h = refl
idr-IsClean (suc zero) h = refl
idr-IsClean (suc (suc zero)) h = refl
idr-IsClean (suc (suc (suc zero))) h = refl
idr-IsClean (suc (suc (suc (suc zero)))) h = refl
idr-IsClean (suc (suc (suc (suc (suc k))))) h = absurd (omega arith)

read_h264-packetize_access_unit_example :
    Received always sender open_to_read (sps ∷ idr ∷ []) 90_000
read_h264-packetize_access_unit_example =
    read_h264-packetize_access_unit always (λ n. refl) sender open_to_read sps (idr ∷ []) 90_000
      (omega arith, sps-IsClean, (omega arith, idr-IsClean, tt)) (omega arith) (omega arith)
      (record {
        is_sender = omega arith;
        in_step = refl;
        assembled = record { in_capacity = omega arith; in_limit = omega arith; starts = inl refl };
        opened = refl;
        fresh = refl;
      })

abbrev noise : List Recv
noise =
    interrupted ∷ datagram (1 ∷ 2 ∷ 3 ∷ []) ∷ datagram (packet sender sps true 90_000) ∷ failed ∷ []

read_h264-Hands_example : Hands noise (read_h264 always noise open_to_read)
read_h264-Hands_example = read_h264-Hands always noise {client = open_to_read} (record {
  bounded = record { in_capacity = omega arith; in_nal = omega arith; sane = inl refl };
  assembled = record { in_capacity = omega arith; in_limit = omega arith; starts = inl refl };
})

-- A unit whose memory is refused leaves the access unit empty.
refused : (save_nal (λ n. false) closed_context sps 90_000 true).1.access_unit ≡ []
unfolding save_nal in_access_unit append_access_unit
refused = refl
