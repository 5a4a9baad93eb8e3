-- ===== src/Client/Carried.antt =====
-- One NAL unit, from `rtp_h264_packetize_marker` (src/rtp_h264.c) over a wire to the client of
-- src/rtp_client.c.
use nanokvm_rdp.Prelude.{
  ℕ, ◌+◌, ◌^◌, ◌<◌, ◌≤◌, ◌≡◌, Bool, true, List, ◌++◌, some, length, arith, ap, ◌∙◌,
}
use nanokvm_rdp.Rtp.Packetizer.{Packetizer, max_nal, packetize_marker}
use nanokvm_rdp.Rtp.Receive.{InStep}
use nanokvm_rdp.Rtp.Fragments.{channel, Delivers}
use nanokvm_rdp.Rtp.RoundTrip.{IsNal, IsSender, packetize_marker-Delivers}
use nanokvm_rdp.Rtp.Wire.{Packets, Sent, wire, Wires, packetize_marker-Wires}
use nanokvm_rdp.Client.{Context, start_code, in_access_unit, save_nal, callbacks}
use nanokvm_rdp.Client.Assembled.{IsAssembled}
use nanokvm_rdp.Client.Delivery.{Saved, save_nal-Saved}
use nanokvm_rdp.Client.Reading.{State, pushed}

-- The unit goes over the wire in packets that the client takes, and stands in its access unit.
pub record Carried (alloc : ℕ → Bool) (p : Packetizer) (nal : List ℕ) (timestamp : ℕ)
    (marker : Bool) (s : State) (held : List ℕ) : Type 0 where
  pub packets : Packets
  pub sender : Packetizer
  pub state : State
  pub same :
      (before : Packets)
      → packetize_marker p nal timestamp marker (some wire) before
        ≡ some (true, sender, before ++ packets)
  pub sent : Sent (pushed alloc) marker s packets state
  pub saved : Saved s.1 timestamp (held ++ start_code ++ nal) state.1
  pub in_step : InStep sender state.0
  pub is_sender : IsSender sender

pub packetize_marker-Carried :
    (alloc : ℕ → Bool) (allocates : (n : ℕ) → alloc n ≡ true) (p : Packetizer) (nal : List ℕ)
    (timestamp : ℕ) (marker : Bool) (s : State) (held : List ℕ)
    → IsNal nal
    → IsSender p
    → InStep p s.0
    → timestamp < 2 ^ 32
    → IsAssembled s.1
    → (in_access_unit s.1 timestamp).access_unit ≡ held
    → length held + 4 + length nal ≤ max_nal
    → Carried alloc p nal timestamp marker s held
packetize_marker-Carried alloc allocates p nal timestamp marker (r, c) held is_nal sender step ht v
      waits fits =
    let d : Delivers (callbacks alloc) p nal timestamp marker c
        (packetize_marker p nal timestamp marker (channel alloc (callbacks alloc)) (r, c)) =
      packetize_marker-Delivers alloc allocates (callbacks alloc) p nal timestamp marker r c is_nal
        sender step ht in
    let out : Bool × Context = save_nal alloc c nal timestamp marker in
    let (ok, saved) = save_nal-Saved alloc allocates nal timestamp marker held v waits fits in
    let run : packetize_marker p nal timestamp marker (some (pushed alloc)) (r, c)
        ≡ some (true, d.sender, (d.receiver, out.1)) =
      d.result ∙ ap (λ (b : Bool). some (b, d.sender, (d.receiver, out.1))) ok in
    let w : Wires (pushed alloc) marker (r, c) d.sender (d.receiver, out.1)
        (packetize_marker p nal timestamp marker (some wire)) =
      packetize_marker-Wires (pushed alloc) p nal timestamp marker (r, c) d.sender
        (d.receiver, out.1) sender run in
    record {
      packets = w.packets;
      sender = d.sender;
      state = (d.receiver, out.1);
      same = w.same;
      sent = w.sent;
      saved = saved;
      in_step = d.in_step;
      is_sender = record {
        sequence_in = d.sequence_in;
        mtu_low = omega (arith, sender.mtu_low, d.same_mtu);
        mtu_high = omega (arith, sender.mtu_high, d.same_mtu);
      };
    }
