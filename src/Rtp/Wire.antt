-- ===== src/Rtp/Wire.antt =====
-- `rtp_h264_packetize_marker` (src/rtp_h264.c) with a callback that puts its packets on a wire: when
-- another callback takes every packet, they are the ones that it is handed, in the same order.
use mathlib.Core.List.{append_assoc}
use mathlib.Core.Option.{some_inj}
use nanokvm_rdp.Prelude.{
  ℕ, zero, suc, ◌+◌, ◌-◌, ◌<◌, ◌≤◌, ◌≡◌, refl, ap, ◌∙◌, Bool, true, false, not, List, [], ◌∷◌, ◌++◌,
  get_or, length, drop, take, ltb, leb, ◌==◌, if◌then◌else◌, arith, some, Bool-cases, ◌&&◌, ◌||◌,
  inl, inr, sub_u32, sub_u64, bit_and,
}
use nanokvm_rdp.Rtp.Packetizer.{
  Packetizer, Outcome, packet, fu_indicator, fu_header, header_size, default_mtu, max_nal, counted,
  emit_packet, fragments, packetize_marker,
}
use nanokvm_rdp.Rtp.Fields.{length-packet, packet-marker}
use nanokvm_rdp.Rtp.RoundTrip.{IsSender}

abbrev pub Packets : Type 0
Packets = List (List ℕ)

abbrev pub wire : Packets → List ℕ → Bool × Packets
wire sent bytes = (true, sent ++ bytes ∷ [])

pub record IsPacket (bytes : List ℕ) (marker : Bool) : Type 0 where
  pub some_bytes : 0 < length bytes
  pub fits : length bytes ≤ default_mtu
  pub marked : not (bit_and (get_or bytes 1 0) 0x80 == 0) ≡ marker

marked_as :
    {bytes : List ℕ} {marker marker' : Bool}
    → IsPacket bytes marker
    → marker ≡ marker'
    → IsPacket bytes marker'
marked_as h e = record { some_bytes = h.some_bytes; fits = h.fits; marked = h.marked ∙ e }

-- The packets of one NAL unit, which the callback takes one after the other. Only the last one may
-- have the marker.
pub data Sent {S : Type 0} (f : S → List ℕ → Bool × S) (marker : Bool)
    : S → Packets → S → Type 0 where
  last :
      {s s' : S} (bytes : List ℕ)
      → f s bytes ≡ (true, s')
      → IsPacket bytes marker
      → Sent f marker s (bytes ∷ []) s'
  next :
      {s s' t : S} {packets : Packets} (bytes : List ℕ)
      → f s bytes ≡ (true, t)
      → IsPacket bytes false
      → Sent f marker t packets s'
      → Sent f marker s (bytes ∷ packets) s'

-- What the sender puts on the wire is what the callback takes on the way from `s` to `s'`.
pub record Wires {S : Type 0} (f : S → List ℕ → Bool × S) (marker : Bool) (s : S) (p' : Packetizer)
    (s' : S) (run : Packets → Outcome Packets) : Type 0 where
  pub packets : Packets
  pub sent : Sent f marker s packets s'
  pub same : (before : Packets) → run before ≡ some (true, p', before ++ packets)

module _ {S : Type 0} (f : S → List ℕ → Bool × S) where
  emit_packet-wire :
      (p : Packetizer) (payload : List ℕ) (marker : Bool) (timestamp : ℕ) (s : S) (p' : Packetizer)
      (s' : S)
      → emit_packet p payload marker timestamp (some f) s ≡ (true, p', s')
      → let bytes = packet p payload marker timestamp in
        (f s bytes ≡ (true, s'))
        × IsPacket bytes marker
        × ((before : Packets)
            → emit_packet p payload marker timestamp (some wire) before
              ≡ (true, p', before ++ bytes ∷ []))
  unfolding emit_packet
  emit_packet-wire p payload marker timestamp s p' s' e =
      elim (Bool-cases (ltb default_mtu (length payload + header_size))) [
        | inl long ↦ absurd (cc (rw long at e))
        | inr short ↦
            let taken : (out.0, counted p, out.1) ≡ (true, p', s') = rw short at e in
            (
              ap (λ (t : Bool × Packetizer × S). (t.0, t.2)) taken,
              is_packet short,
              λ before. rw (short, ap (λ (t : Bool × Packetizer × S). t.1) taken) refl,
            )
      ]
    where
      bytes : List ℕ
      bytes = packet p payload marker timestamp

      out : Bool × S
      out = f s bytes

      is_packet : ltb default_mtu (length payload + header_size) ≡ false → IsPacket bytes marker
      is_packet short = record {
        some_bytes = omega (arith, length-packet p payload marker timestamp);
        fits = ground (arith, length-packet p payload marker timestamp, short);
        marked = packet-marker p payload marker timestamp;
      }

  -- At the end of the unit the loop is over, with any callback.
  fragments-over :
      (fuel : ℕ) (p : Packetizer) (nal : List ℕ) (offset limit timestamp : ℕ) (marker : Bool)
      (s : S) (p' : Packetizer) (s' : S)
      → ltb offset (length nal) ≡ false
      → fragments fuel p nal offset limit timestamp marker (some f) s ≡ some (true, p', s')
      → (p ≡ p')
        × (s ≡ s')
        × ((before : Packets)
            → fragments fuel p nal offset limit timestamp marker (some wire) before
              ≡ some (true, p, before))
  unfolding fragments
  fragments-over zero p nal offset limit timestamp marker s p' s' over e = absurd (cc)
  fragments-over (suc fuel) p nal offset limit timestamp marker s p' s' over e =
      let same : (true, p, s) ≡ (true, p', s') = some_inj.0 (rw over at e) in
      (
        ap (λ (t : Bool × Packetizer × S). t.1) same,
        ap (λ (t : Bool × Packetizer × S). t.2) same,
        λ before. rw over refl,
      )

  fragments-Wires :
      (fuel : ℕ) (p : Packetizer) (nal : List ℕ) (offset limit timestamp : ℕ) (marker : Bool)
      (s : S) (p' : Packetizer) (s' : S)
      → ltb offset (length nal) ≡ true
      → fragments fuel p nal offset limit timestamp marker (some f) s ≡ some (true, p', s')
      → Wires f marker s p' s' (fragments fuel p nal offset limit timestamp marker (some wire))
  unfolding fragments
  fragments-Wires zero p nal offset limit timestamp marker s p' s' more e = absurd (cc)
  fragments-Wires (suc fuel) p nal offset limit timestamp marker s p' s' more e =
      elim (Bool-cases out.0) [
        | inr failed ↦ absurd (cc (rw (more, failed) at e))
        | inl ok ↦
            let tail : fragments fuel out.1 nal (offset + size) limit timestamp marker (some f)
                  out.2
                ≡ some (true, p', s') =
              rw (more, ok) at e in
            let (took, is_packet, emitted) =
              emit_packet-wire p payload (marker && ends) timestamp s out.1 out.2
                (ap (λ (b : Bool). (b, out.1, out.2)) ok) in
            elim (Bool-cases (ltb (offset + size) (length nal))) [
              | inr over ↦
                  let (same_sender, same_state, done) =
                    fragments-over fuel out.1 nal (offset + size) limit timestamp marker out.2 p' s'
                      over tail in
                  record {
                    packets = bytes ∷ [];
                    sent =
                        last bytes (took ∙ ap (λ (t : S). (true, t)) same_state)
                          (marked_as is_packet (at_end over));
                    same = λ before.
                        rw (more, emitted before, done (before ++ bytes ∷ []))
                          (ap (λ (q : Packetizer). some (true, q, before ++ bytes ∷ []))
                            same_sender);
                  }
              | inl inside ↦
                  let rest =
                    fragments-Wires fuel out.1 nal (offset + size) limit timestamp marker out.2 p'
                      s' inside tail in
                  record {
                    packets = bytes ∷ rest.packets;
                    sent = next bytes took (marked_as is_packet (at_rest inside)) rest.sent;
                    same = λ before.
                        rw (more, emitted before, rest.same (before ++ bytes ∷ []))
                          (ap (λ (l : Packets). some (true, p', l))
                            (append_assoc before (bytes ∷ []) rest.packets));
                  }
            ]
      ]
    where
      size : ℕ
      size = if ltb (length nal - offset) limit then length nal - offset else limit

      ends : Bool
      ends = offset + size == length nal

      payload : List ℕ
      payload =
          fu_indicator (get_or nal 0 0)
          ∷ fu_header (get_or nal 0 0) (offset == 1) ends
          ∷ take size (drop offset nal)

      out : Bool × Packetizer × S
      out = emit_packet p payload (marker && ends) timestamp (some f) s

      bytes : List ℕ
      bytes = packet p payload (marker && ends) timestamp

      at_end : ltb (offset + size) (length nal) ≡ false → (marker && ends) ≡ marker
      at_end over = ground (arith, more, over)

      at_rest : ltb (offset + size) (length nal) ≡ true → (marker && ends) ≡ false
      at_rest inside = ground (arith, more, inside)

  -- A unit that a callback takes whole goes over the wire in the packets that the callback takes.
  pub packetize_marker-Wires :
      (p : Packetizer) (nal : List ℕ) (timestamp : ℕ) (marker : Bool) (s : S) (p' : Packetizer)
      (s' : S)
      → IsSender p
      → packetize_marker p nal timestamp marker (some f) s ≡ some (true, p', s')
      → Wires f marker s p' s' (packetize_marker p nal timestamp marker (some wire))
  unfolding packetize_marker
  packetize_marker-Wires p nal timestamp marker s p' s' sender e =
      elim (Bool-cases (length nal == 0 || ltb max_nal (length nal))) [
        | inl bad ↦ absurd (cc (rw bad at e))
        | inr good ↦ elim (Bool-cases (leb (length nal) room)) [
          | inl whole ↦
              let (took, is_packet, emitted) =
                emit_packet-wire p nal marker timestamp s p' s'
                  (some_inj.0 (rw (good, whole) at e)) in
              record {
                packets = packet p nal marker timestamp ∷ [];
                sent = last (packet p nal marker timestamp) took is_packet;
                same = λ before. rw (good, whole) (ap some (emitted before));
              }
          | inr split ↦ elim (Bool-cases (sub_u64 room 2 == 0)) [
            | inl none_left ↦ absurd (cc (rw (good, split, none_left) at e))
            | inr some_left ↦
                let rest =
                  fragments-Wires (length nal) p nal 1 (sub_u64 room 2) timestamp marker s p' s'
                    (several split some_left) (rw (good, split, some_left) at e) in
                record {
                  packets = rest.packets;
                  sent = rest.sent;
                  same = λ before. rw (good, split, some_left) (rest.same before);
                }
          ]
        ]
      ]
    where
      room : ℕ
      room = sub_u32 p.mtu header_size

      several :
          leb (length nal) room ≡ false → (sub_u64 room 2 == 0) ≡ false → ltb 1 (length nal) ≡ true
      several split some_left = ground (arith, sender.mtu_low, sender.mtu_high)
