-- ===== src/Rtp/Sizes.antt =====
-- Termination of `rtp_h264_packetize_marker` (src/rtp_h264.c), and the size of the packets that it
-- hands to its callback, whatever the callback does.
use nanokvm_rdp.Prelude.{
  ℕ, zero, suc, ◌+◌, ◌-◌, ◌<◌, ◌≤◌, ◌≡◌, Bool, true, false, List, ◌∷◌, get_or, length, drop, take,
  ltb, leb, ◌==◌, if◌then◌else◌, arith, some, Bool-cases, ◌&&◌, ◌||◌, inl, inr, length-take,
  sub_u32, sub_u64,
}
use nanokvm_rdp.Rtp.Packetizer.{
  Packetizer, Outcome, packet, fu_indicator, fu_header, header_size, default_mtu, max_nal,
  emit_packet, fragments, packetize_marker,
}
use nanokvm_rdp.Rtp.Fields.{length-packet}
use nanokvm_rdp.Rtp.RoundTrip.{IsSender}

module _ {S : Type 0} (callback : S → List ℕ → Bool × S) (P : S → Type 0) (mtu : ℕ)
    (keep : (s : S) (bytes : List ℕ) → P s → length bytes ≤ mtu → P (callback s bytes).1) where
  emit_packet-keeps :
      (p : Packetizer) (payload : List ℕ) (marker : Bool) (timestamp : ℕ) (s : S)
      → length payload + header_size ≤ mtu
      → P s
      → P (emit_packet p payload marker timestamp (some callback) s).2
  unfolding emit_packet
  emit_packet-keeps p payload marker timestamp s fits h =
      elim (Bool-cases (ltb default_mtu (length payload + header_size))) [
        | inl long ↦ rw long h
        | inr short ↦ rw short (
            keep s (packet p payload marker timestamp) h
              (omega (arith, length-packet p payload marker timestamp)))
      ]

  abbrev Ends : Outcome S → Type 0
  Ends result = (out : Bool × Packetizer × S) × (result ≡ some out) × P out.2

  fragments-Ends :
      (fuel : ℕ) (p : Packetizer) (nal : List ℕ) (offset limit timestamp : ℕ) (marker : Bool)
      (s : S)
      → 0 < limit
      → limit + 2 + header_size ≤ mtu
      → offset ≤ length nal
      → length nal < offset + fuel
      → P s
      → Ends (fragments fuel p nal offset limit timestamp marker (some callback) s)
  unfolding fragments
  fragments-Ends zero p nal offset limit timestamp marker s pos fits inside enough h =
      absurd (omega arith)
  fragments-Ends (suc fuel) p nal offset limit timestamp marker s pos fits inside enough h =
      elim (Bool-cases (ltb offset (length nal))) [
        | inr done ↦ ((true, p, s), rw done, h)
        | inl more ↦ elim (Bool-cases sent.0) [
          | inr refused ↦ ((false, sent.1, sent.2), rw (more, refused), kept)
          | inl ok ↦
              rw (more, ok)
                (fragments-Ends fuel sent.1 nal (offset + size) limit timestamp marker sent.2 pos
                  fits (ground arith) (ground arith) kept)
        ]
      ]
    where
      size : ℕ
      size = if ltb (length nal - offset) limit then length nal - offset else limit

      last : Bool
      last = offset + size == length nal

      payload : List ℕ
      payload =
          fu_indicator (get_or nal 0 0)
          ∷ fu_header (get_or nal 0 0) (offset == 1) last
          ∷ take size (drop offset nal)

      size_in : limit + 2 + header_size ≤ mtu → length payload + header_size ≤ mtu
      size_in _ = ground (arith, length-take size (drop offset nal))

      sent : Bool × Packetizer × S
      sent = emit_packet p payload (marker && last) timestamp (some callback) s

      kept : P sent.2
      kept = emit_packet-keeps p payload (marker && last) timestamp s (size_in fits) h

-- The packetizer comes to its end on every NAL unit and hands its callback no packet longer than
-- its MTU: any property of the callback's state that such packets keep holds at the end.
pub packetize_marker-Ends :
    {S : Type 0} (callback : S → List ℕ → Bool × S) (P : S → Type 0) (p : Packetizer)
    → ((s : S) (bytes : List ℕ) → P s → length bytes ≤ p.mtu → P (callback s bytes).1)
    → (nal : List ℕ) (timestamp : ℕ) (marker : Bool) (s : S) → IsSender p
    → P s
    → (out : Bool × Packetizer × S) × (packetize_marker p nal timestamp marker (some callback) s
        ≡ some out)
      × P out.2
unfolding packetize_marker
packetize_marker-Ends {S} callback P p keep nal timestamp marker s v h =
    elim (Bool-cases (length nal == 0 || ltb max_nal (length nal))) [
      | inl bad ↦ ((false, p, s), rw bad, h)
      | inr good ↦ elim (Bool-cases (leb (length nal) room)) [
        | inl whole ↦ (
          emit_packet p nal marker timestamp (some callback) s,
          rw (good, whole),
          emit_packet-keeps callback P p.mtu keep p nal marker timestamp s (ground arith) h,
        )
        | inr split ↦ elim (Bool-cases (sub_u64 room 2 == 0)) [
          | inl none_left ↦ ((false, p, s), rw (good, split, none_left), h)
          | inr some_left ↦
              rw (good, split, some_left)
                (fragments-Ends callback P p.mtu keep (length nal) p nal 1 (sub_u64 room 2)
                  timestamp marker s (ground arith) (omega arith) (ground arith) (ground arith) h)
        ]
      ]
    ]
  where
    room : ℕ
    room = sub_u32 p.mtu header_size
