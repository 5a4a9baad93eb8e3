-- ===== src/Client/Units.antt =====
-- The units of an access unit, from the loop of `rtp_h264_packetize_access_unit` (src/rtp_h264.c) over
-- a wire without loss into the access unit of src/rtp_client.c.
use mathlib.Core.List.{append_assoc, append-nil}
use nanokvm_rdp.Prelude.{
  ℕ, zero, suc, ◌+◌, ◌-◌, ◌^◌, ◌<◌, ◌≤◌, ◌≡◌, refl, Bool, true, false, List, [], ◌∷◌, ◌++◌, none,
  some, length, take, drop, ltb, ◌==◌, if◌then◌else◌, arith, ap, ◌∙◌, sym, eq→==, ne→==, lt→ltb,
  le→ltb, length-append,
}
use nanokvm_rdp.Rtp.Packetizer.{
  Packetizer, Outcome, max_nal, next_start_code, packetize_marker, units,
}
use nanokvm_rdp.Rtp.Receive.{InStep}
use nanokvm_rdp.Rtp.RoundTrip.{IsNal, IsSender}
use nanokvm_rdp.Rtp.Wire.{Packets, wire}
use nanokvm_rdp.Rtp.Split.{annexb, IsClean, UnitAt, unit_at}
use nanokvm_rdp.Client.{Context, Recv, in_access_unit, handed, read_loop, start_code}
use nanokvm_rdp.Client.Assembled.{IsAssembled}
use nanokvm_rdp.Client.Delivery.{Saved, Saved-in_access_unit}
use nanokvm_rdp.Client.Reading.{State, client_at, arrivals, arrivals-append, Sent-next, Sent-last}
use nanokvm_rdp.Client.Carried.{packetize_marker-Carried}

-- The units of an access unit: NAL units that contain no start code.
abbrev pub AreUnits : List (List ℕ) → Type 0
AreUnits [] = Unit
AreUnits (nal ∷ nals) = IsNal nal × IsClean nal × AreUnits nals

-- The access unit is on the wire in packets that a reader turns into these bytes.
pub record Arrived (alloc : ℕ → Bool) (timestamp : ℕ) (s : State) (bytes : List ℕ)
    (run : Packets → Outcome Packets) : Type 0 where
  pub packets : Packets
  pub sender : Packetizer
  pub state : State
  pub final : List ℕ
  pub same : (before : Packets) → run before ≡ some (true, sender, before ++ packets)
  pub read :
      (rest : List Recv)
      → read_loop alloc (arrivals packets rest) (client_at s)
        ≡ some (some bytes, rest, client_at (state.0, handed state.1 final))
  pub saved : Saved s.1 timestamp bytes state.1
  pub in_step : InStep sender state.0
  pub is_sender : IsSender sender

module _ (alloc : ℕ → Bool) (allocates : (n : ℕ) → alloc n ≡ true) (timestamp : ℕ)
    (timestamp_in : timestamp < 2 ^ 32) (data_ : List ℕ) where
  -- One round of the loop over the units, where `code` and `next` are what it reads at the offset.
  round : ℕ → Packetizer → ℕ → Bool → Packets → ℕ → ℕ → Outcome Packets
  round fuel p offset sent before code next =
      let start = offset + code in
      let marked : Outcome Packets =
        elim (packetize_marker p (take (next - start) (drop start data_)) timestamp
          (next == length data_) (some wire) before) [
            | none ↦ none
            | some (ok, p', packets) ↦
                if ok
                then units fuel p' data_ next timestamp (some wire) true packets
                else some (false, p', packets)
          ] in
      if ltb offset (length data_)
      then if code == 0
        then some (false, p, before)
        else if ltb start next
        then marked
        else units fuel p data_ next timestamp (some wire) sent before
      else some (sent, p, before)

  units-round :
      (fuel : ℕ) (p : Packetizer) (offset : ℕ) (nal : List ℕ) (nals : List (List ℕ)) (sent : Bool)
      (before : Packets) (p' : Packetizer) (packets : Packets)
      → UnitAt data_ offset nal nals
      → 0 < length nal
      → packetize_marker p nal timestamp
          (offset + 4 + length nal == length data_)
          (some wire)
          before
        ≡ some (true, p', packets)
      → units (suc fuel) p data_ offset timestamp (some wire) sent before
        ≡ units fuel p' data_ (offset + 4 + length nal) timestamp (some wire) true packets
  unfolding units round
  units-round fuel p offset nal nals sent before p' packets at pos e =
      ap
        (λ (c : ℕ).
          round fuel p offset sent before c
            (next_start_code (length data_ - (offset + c)) data_ (offset + c)))
        at.length_code
      ∙ ap (round fuel p offset sent before 4) at.next_at
      ∙ taken
    where
      slice : offset + 4 + length nal - (offset + 4) ≡ length nal
      slice = omega arith

      taken :
          round fuel p offset sent before 4 (offset + 4 + length nal)
          ≡ units fuel p' data_ (offset + 4 + length nal) timestamp (some wire) true packets
      taken =
          rw
            (
              slice,
              at.bytes,
              e,
              lt→ltb offset (length data_) (omega (arith, at.size)),
              lt→ltb (offset + 4) (offset + 4 + length nal) (omega arith),
            )
            refl

  units-over :
      (fuel : ℕ) (p : Packetizer) (offset : ℕ) (packets : Packets)
      → length data_ ≤ offset
      → units (suc fuel) p data_ offset timestamp (some wire) true packets ≡ some (true, p, packets)
  unfolding units
  units-over fuel p offset packets h = rw (le→ltb offset (length data_) h) refl

  Saved-as :
      {c c' : Context} {written bytes : List ℕ}
      → Saved c timestamp written c'
      → c'.access_unit ≡ bytes
      → Saved c timestamp bytes c'
  Saved-as h e = record {
    access_unit = e;
    have = h.have;
    same_timestamp = h.same_timestamp;
    same_losses = h.same_losses;
    same_opened = h.same_opened;
    assembled = h.assembled;
  }

  Saved-trans :
      {c c' c'' : Context} {written bytes : List ℕ}
      → Saved c timestamp written c'
      → Saved c' timestamp bytes c''
      → Saved c timestamp bytes c''
  Saved-trans h h' = record {
    access_unit = h'.access_unit;
    have = h'.have;
    same_timestamp = h'.same_timestamp;
    same_losses = h'.same_losses ∙ h.same_losses;
    same_opened = h'.same_opened ∙ h.same_opened;
    assembled = h'.assembled;
  }

  regrouped :
      (held nal tail : List ℕ)
      → held ++ start_code ++ nal ++ tail ≡ held ++ (start_code ++ (nal ++ tail))
  regrouped held nal tail =
      append_assoc (held ++ start_code) nal tail ∙ append_assoc held start_code (nal ++ tail)

  module _ (nal : List ℕ) (is_nal : IsNal nal) (clean : IsClean nal) where
    -- The last unit has the marker, and hands the access unit over.
    last-Arrived :
        (fuel : ℕ) (p : Packetizer) (offset : ℕ) (sent : Bool) (s : State) (held : List ℕ)
        → IsSender p
        → InStep p s.0
        → IsAssembled s.1
        → (in_access_unit s.1 timestamp).access_unit ≡ held
        → length held + length (annexb (nal ∷ [])) ≤ max_nal
        → offset ≤ length data_
        → drop offset data_ ≡ annexb (nal ∷ [])
        → Arrived alloc timestamp s
            (held ++ annexb (nal ∷ []))
            (units (suc (suc fuel)) p data_ offset timestamp (some wire) sent)
    last-Arrived fuel p offset sent s held sender step v waits fits inside here =
        let at = unit_at data_ offset nal [] inside here clean in
        let marked : (offset + 4 + length nal == length data_) ≡ true =
          eq→== (offset + 4 + length nal) (length data_) (omega (arith, at.size)) in
        let c =
          packetize_marker-Carried alloc allocates p nal timestamp true s held is_nal sender step
            timestamp_in v waits (omega (arith, fits, length-append nal [])) in
        let written : c.state.1.access_unit ≡ held ++ annexb (nal ∷ []) =
          c.saved.access_unit
          ∙ sym (append-nil (held ++ start_code ++ nal))
          ∙ regrouped held nal [] in
        let (final, hands) =
          Sent-last alloc
            (omega (
              arith,
              ap length c.saved.access_unit,
              length-append (held ++ start_code) nal,
              length-append held start_code,
            ))
            c.sent in
        record {
          packets = c.packets;
          sender = c.sender;
          state = c.state;
          final = final;
          same = λ before.
              units-round (suc fuel) p offset nal [] sent before c.sender (before ++ c.packets) at
                is_nal.some_bytes (rw marked (c.same before))
              ∙ units-over fuel c.sender (offset + 4 + length nal) (before ++ c.packets)
                  (omega (arith, at.size));
          read = λ rest.
              hands rest
              ∙ ap
                  (λ (l : List ℕ).
                    some (some l, rest, client_at (c.state.0, handed c.state.1 final)))
                  written;
          saved = Saved-as c.saved written;
          in_step = c.in_step;
          is_sender = c.is_sender;
        }

  pub units-Arrived :
      (fuel : ℕ) (p : Packetizer) (offset : ℕ) (nal : List ℕ) (nals : List (List ℕ)) (sent : Bool)
      (s : State) (held : List ℕ)
      → AreUnits (nal ∷ nals)
      → length nals < fuel
      → IsSender p
      → InStep p s.0
      → IsAssembled s.1
      → (in_access_unit s.1 timestamp).access_unit ≡ held
      → length held + length (annexb (nal ∷ nals)) ≤ max_nal
      → offset ≤ length data_
      → drop offset data_ ≡ annexb (nal ∷ nals)
      → Arrived alloc timestamp s
          (held ++ annexb (nal ∷ nals))
          (units (suc fuel) p data_ offset timestamp (some wire) sent)
  units-Arrived zero p offset nal nals sent s held is_units enough sender step v waits fits inside
        here =
      absurd (omega arith)
  units-Arrived (suc fuel) p offset nal [] sent s held (is_nal, clean, _) enough sender step v waits
        fits inside here =
      last-Arrived nal is_nal clean fuel p offset sent s held sender step v waits fits inside here
  units-Arrived (suc fuel) p offset nal (nal' ∷ nals) sent s held (is_nal, clean, are_units) enough
        sender step v waits fits inside here =
      let at = unit_at data_ offset nal (nal' ∷ nals) inside here clean in
      let sizes = length-append nal (annexb (nal' ∷ nals)) in
      let marked : (offset + 4 + length nal == length data_) ≡ false =
        ne→== (offset + 4 + length nal) (length data_) (omega (arith, at.size)) in
      let c =
        packetize_marker-Carried alloc allocates p nal timestamp false s held is_nal sender step
          timestamp_in v waits (omega (arith, fits, sizes)) in
      let now_held : length (held ++ start_code ++ nal) ≡ length held + 4 + length nal =
        omega (arith, length-append (held ++ start_code) nal, length-append held start_code) in
      let later =
        units-Arrived fuel c.sender (offset + 4 + length nal) nal' nals true c.state
          (held ++ start_code ++ nal) are_units (omega arith) c.is_sender c.in_step
          c.saved.assembled
          (ap (λ (x : Context). x.access_unit) (Saved-in_access_unit c.saved) ∙ c.saved.access_unit)
          (omega (arith, fits, sizes, now_held)) (omega (arith, at.size)) at.rest in
      let grouped : held ++ start_code ++ nal ++ annexb (nal' ∷ nals)
          ≡ held ++ annexb (nal ∷ nal' ∷ nals) =
        regrouped held nal (annexb (nal' ∷ nals)) in
      record {
        packets = c.packets ++ later.packets;
        sender = later.sender;
        state = later.state;
        final = later.final;
        same = λ before.
            units-round (suc fuel) p offset nal (nal' ∷ nals) sent before c.sender
              (before ++ c.packets) at is_nal.some_bytes (rw marked (c.same before))
            ∙ later.same (before ++ c.packets)
            ∙ ap (λ (l : Packets). some (true, later.sender, l))
                (append_assoc before c.packets later.packets);
        read = λ rest.
            ap (λ (l : List Recv). read_loop alloc l (client_at s))
              (arrivals-append c.packets later.packets rest)
            ∙ Sent-next alloc (arrivals later.packets rest) c.sent
            ∙ later.read rest
            ∙ ap
                (λ (l : List ℕ).
                  some (some l, rest, client_at (later.state.0, handed later.state.1 later.final)))
                grouped;
        saved = Saved-trans c.saved (Saved-as later.saved (later.saved.access_unit ∙ grouped));
        in_step = later.in_step;
        is_sender = later.is_sender;
      }
