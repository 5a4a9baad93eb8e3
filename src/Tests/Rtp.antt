-- ===== src/Tests/Rtp.antt =====
-- src/rtp_h264.c at concrete packets.
use nanokvm_rdp.Prelude.{
  ℕ, ◌≡◌, ◌≤◌, refl, Bool, true, List, [], ◌∷◌, ◌++◌, arith, inl, Option, none, some, length,
}
use nanokvm_rdp.Rtp.Packetizer.{
  Packetizer, packet, packetize_marker, fragments, emit_packet, fu_indicator, fu_header,
}
use nanokvm_rdp.Rtp.Reassembler.{
  Reassembler, reassembler_init, Callbacks, push, push_payload, push_fragment, continue_fragment,
  append, deliver, note_sequence, grow, aggregate,
}
use nanokvm_rdp.Bytes.{write_u16, write_u32, read_u16, read_u32}
use nanokvm_rdp.Rtp.Fragments.{channel, Delivers}
use nanokvm_rdp.Rtp.RoundTrip.{packetize_marker-Delivers}
use nanokvm_rdp.Rtp.Bounds.{IsBounded, push-IsBounded}
use nanokvm_rdp.Rtp.Sizes.{packetize_marker-Ends}

record Handed : Type 0 where
  nal : List ℕ
  timestamp : ℕ
  marker : Bool

-- Callbacks that keep what they are handed.
abbrev collect : Callbacks (List Handed)
collect = record {
  nal = some λ units nal timestamp marker.
      (true, units ++ record { nal = nal; timestamp = timestamp; marker = marker } ∷ []);
  loss = some λ units. [];
}

abbrev always : ℕ → Bool
always n = true

-- The smallest MTU, one packet before the sequence number wraps.
abbrev sender : Packetizer
sender = record { sequence = 65_535; ssrc = 7; mtu = 15 }

abbrev idr : List ℕ
idr = 0x65 ∷ 1 ∷ 2 ∷ 3 ∷ 4 ∷ []

packetize_marker-Delivers_example :
    Delivers collect sender idr 90_000 true []
      (packetize_marker sender idr 90_000 true (channel always collect) (reassembler_init, []))
packetize_marker-Delivers_example =
    packetize_marker-Delivers always (λ n. refl) collect sender idr 90_000 true reassembler_init []
      (omega arith) (omega arith) refl (omega arith)

push-IsBounded_example :
    (out : Bool × Reassembler × List Handed) × (push always collect reassembler_init
        (packet sender idr true 90_000)
        []
      ≡ some out)
    × IsBounded out.1
push-IsBounded_example =
    push-IsBounded always collect {r = reassembler_init} (packet sender idr true 90_000) []
      (record { in_capacity = omega arith; in_nal = omega arith; sane = inl refl })

-- A callback that counts the bytes of the longest packet.
abbrev Short : List (List ℕ) → Type 0
Short [] = Unit {0}
Short (bytes ∷ sent) = (length bytes ≤ 15) × Short sent

packetize_marker-Ends_example :
    (out : Bool × Packetizer × List (List ℕ)) × (packetize_marker sender idr 90_000 true
        (some λ sent bytes. (true, bytes ∷ sent))
        []
      ≡ some out)
    × Short out.2
packetize_marker-Ends_example =
    packetize_marker-Ends (λ sent bytes. (true, bytes ∷ sent)) Short sender
      (λ sent bytes kept fits. (fits, kept)) idr 90_000 true [] (omega arith) tt

units_of : {A : Type 0} → Option (Bool × Packetizer × (A × List Handed)) → List Handed
units_of none = []
units_of (some (ok, p, (r, units))) = units

-- The four fragments come out as the unit that went in.
loopback :
    units_of
      (packetize_marker sender idr 90_000 true (channel always collect) (reassembler_init, []))
    ≡ record { nal = idr; timestamp = 90_000; marker = true } ∷ []
unfolding units_of packetize_marker fragments emit_packet packet fu_indicator fu_header write_u16
    write_u32 push read_u16 read_u32 note_sequence push_payload push_fragment continue_fragment
    append grow deliver aggregate
loopback = refl
