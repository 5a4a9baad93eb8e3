-- ===== src/Rtp/Fragments.antt =====
-- The FU-A loop of `rtp_h264_packetize_marker` against `rtp_h264_reassembler_push`
-- (src/rtp_h264.c): the fragments of a NAL unit, over a channel without loss.
use nanokvm_rdp.Prelude.{
  ℕ, zero, suc, ◌+◌, ◌-◌, ◌^◌, ◌<◌, ◌≤◌, ◌≡◌, refl, Bool, true, false, List, [], ◌∷◌, ◌++◌, get_or,
  length, drop, take, ltb, ◌==◌, if◌then◌else◌, arith, Option, none, some, ap, ap₂, ◌∙◌, Bool-cases,
  ◌&&◌, inl, inr, take-add, take-length, length-take, length-drop, ==_iff, le→ltb, lt→ltb, ne→==,
}
use nanokvm_rdp.Rtp.Packetizer.{
  Packetizer, PacketCallback, Outcome, fu_indicator, fu_header, header_size, default_mtu, max_nal,
  counted, emit_packet, fragments,
}
use nanokvm_rdp.Rtp.Reassembler.{Reassembler, Callbacks, call_nal, push, push_payload, deliver}
use nanokvm_rdp.Rtp.Fields.{ReadsFragment, fragment-ReadsFragment}
use nanokvm_rdp.Rtp.Receive.{
  InStep, appended, begun, synced, push-packet, push_payload-fragment, push_fragment-next,
}

-- The channel without loss: each packet that the sender emits is pushed into the receiver.
abbrev pub channel : {S : Type 0} → (ℕ → Bool) → Callbacks S → PacketCallback (Reassembler × S)
channel alloc cbs = some λ (r, s) bytes. elim (push alloc cbs r bytes s) [
  | none ↦ (false, (r, s))
  | some (ok, r', s') ↦ (ok, (r', s'))
]

-- The unit is handed to the NAL callback once, with its timestamp and marker; the sender returns
-- what the callback returns, and both ends agree on the next sequence number.
pub record Delivers {S : Type 0} (cbs : Callbacks S) (p : Packetizer) (nal : List ℕ) (timestamp : ℕ)
    (marker : Bool) (s : S) (out : Outcome (Reassembler × S)) : Type 0 where
  pub sender : Packetizer
  pub receiver : Reassembler
  pub result :
      out
      ≡ some (
        (call_nal cbs s nal timestamp marker).0,
        sender,
        (receiver, (call_nal cbs s nal timestamp marker).1),
      )
  pub in_step : InStep sender receiver
  pub sequence_in : sender.sequence < 2 ^ 16
  pub same_mtu : sender.mtu ≡ p.mtu

pub counted-InStep :
    (p : Packetizer) (r : Reassembler)
    → r.expected_sequence ≡ (counted p).sequence
    → InStep (counted p) r
counted-InStep p r e = ground arith

-- What is sent after a packet was counted is sent on behalf of the same sender.
pub Delivers-counted :
    {S : Type 0} {cbs : Callbacks S} {p : Packetizer} {nal : List ℕ} {timestamp : ℕ} {marker : Bool}
    {s : S} {out : Outcome (Reassembler × S)}
    → Delivers cbs (counted p) nal timestamp marker s out
    → Delivers cbs p nal timestamp marker s out
Delivers-counted d = record {
  sender = d.sender;
  receiver = d.receiver;
  result = d.result;
  in_step = d.in_step;
  sequence_in = d.sequence_in;
  same_mtu = d.same_mtu;
}

and-true : (b : Bool) → (b && true) ≡ b
and-true true = refl
and-true false = refl

if-result :
    {A : Type 0} {B : Type 0} (ok : Bool) (a : A) (b : B)
    → ◌≡◌ {A = Option (Bool × A × B)}
        (if ok then some (true, a, b) else some (false, a, b))
        (some (ok, a, b))
if-result true a b = refl
if-result false a b = refl

module _ {S : Type 0} (alloc : ℕ → Bool) (allocates : (n : ℕ) → alloc n ≡ true)
    (cbs : Callbacks S) where
  pub emit_packet-channel :
      (p : Packetizer) (r : Reassembler) (payload : List ℕ) (marker : Bool) (timestamp : ℕ) (s : S)
      (ok : Bool) (r' : Reassembler) (s' : S)
      → InStep p r
      → p.sequence < 2 ^ 16
      → timestamp < 2 ^ 32
      → 0 < length payload
      → length payload + header_size ≤ default_mtu
      → push_payload alloc cbs (synced p r) payload timestamp marker s ≡ some (ok, r', s')
      → emit_packet p payload marker timestamp (channel alloc cbs) (r, s)
        ≡ (ok, counted p, (r', s'))
  unfolding emit_packet
  emit_packet-channel p r payload marker timestamp s ok r' s' step hs ht pos fits e =
      rw (push-packet alloc allocates cbs p r payload marker timestamp s step hs ht pos, e)
        (over_limit fits)
    where
      not_sent : Bool × Packetizer × (Reassembler × S)
      not_sent = (false, p, (r, s))

      done : Bool × Packetizer × (Reassembler × S)
      done = (ok, counted p, (r', s'))

      over_limit :
          length payload + header_size ≤ default_mtu
          → (if ltb default_mtu (length payload + header_size) then not_sent else done) ≡ done
      over_limit _ = ground arith

  module _ (nal : List ℕ) (timestamp : ℕ) (marker : Bool) (limit : ℕ)
      (header_in : get_or nal 0 0 < 256) (timestamp_in : timestamp < 2 ^ 32)
      (nal_in : length nal ≤ max_nal) (limit_pos : 0 < limit)
      (limit_in : limit + 2 + header_size ≤ default_mtu) where
    -- The receiver holds the first `offset` bytes of the unit and waits for the next fragment.
    pub record Receiving (p : Packetizer) (r : Reassembler) (offset : ℕ) : Type 0 where
      pub in_step : InStep p r
      pub sequence_in : p.sequence < 2 ^ 16
      pub assembling : r.assembling ≡ true
      pub same_timestamp : r.timestamp ≡ timestamp
      pub received : r.buffer ≡ take offset nal

    abbrev pub header : ℕ
    header = get_or nal 0 0

    abbrev fragment_payload : ℕ → ℕ → Bool → List ℕ
    fragment_payload offset size last =
        fu_indicator header ∷ fu_header header false last ∷ take size (drop offset nal)

    abbrev after_next : Packetizer → Reassembler → ℕ → ℕ → Bool → S → Bool × Reassembler × S
    after_next p r offset size last s =
        let r' = appended (synced p r) (take size (drop offset nal)) in
        if last then deliver r' cbs (marker && last) s else (true, r', s)

    -- What the sender and the receiver do for one fragment after the first.
    emit-next :
        (p : Packetizer) (r : Reassembler) (offset size : ℕ) (last : Bool) (s : S)
        → Receiving p r offset
        → 0 < size
        → size ≤ limit
        → offset + size ≤ length nal
        → let (ok, r', s') = after_next p r offset size last s in
          emit_packet p
            (fragment_payload offset size last)
            (marker && last)
            timestamp
            (channel alloc cbs)
            (r, s)
          ≡ (ok, counted p, (r', s'))
    emit-next p r offset size last s v pos fits inside =
        emit_packet-channel p r (fragment_payload offset size last) (marker && last) timestamp s _ _
          _ v.in_step v.sequence_in timestamp_in (omega arith)
          (omega (arith, length-take size (drop offset nal)))
          (push_payload-fragment alloc allocates cbs (synced p r) header false last bytes
              (marker && last) timestamp s reads (some_bytes pos inside)
            ∙ ap some (
                push_fragment-next alloc allocates cbs (synced p r) header bytes last
                  (marker && last) timestamp s reads v.assembling v.same_timestamp
                  (room v.received inside)))
      where
        bytes : List ℕ
        bytes = take size (drop offset nal)

        reads : ReadsFragment header false last
        reads = fragment-ReadsFragment header false last header_in

        some_bytes : 0 < size → offset + size ≤ length nal → 0 < length bytes
        some_bytes _ _ = omega (arith, length-take size (drop offset nal), length-drop offset nal)

        room :
            r.buffer ≡ take offset nal
            → offset + size ≤ length nal
            → length r.buffer + length bytes ≤ max_nal
        room e _ = omega (
          arith,
          ap length e,
          length-take offset nal,
          length-take size (drop offset nal),
          length-drop offset nal,
        )

    -- After a fragment that is not the last the receiver holds that much more of the unit.
    Receiving-next :
        (p : Packetizer) (r : Reassembler) (offset size : ℕ)
        → Receiving p r offset
        → Receiving
            (counted p)
            (appended (synced p r) (take size (drop offset nal)))
            (offset + size)
    Receiving-next p r offset size v = record {
      in_step = counted-InStep p (appended (synced p r) (take size (drop offset nal))) refl;
      sequence_in = omega arith;
      assembling = v.assembling;
      same_timestamp = v.same_timestamp;
      received = rw v.received (take-add offset size nal);
    }

    abbrev pub loop : ℕ → Packetizer → ℕ → Reassembler → S → Outcome (Reassembler × S)
    loop fuel p offset r s =
        fragments fuel p nal offset limit timestamp marker (channel alloc cbs) (r, s)

    loop_end :
        (fuel : ℕ) (p : Packetizer) (r : Reassembler) (s : S)
        → loop (suc fuel) p (length nal) r s ≡ some (true, p, (r, s))
    unfolding fragments
    loop_end fuel p r s = rw (le→ltb (length nal) (length nal) (omega arith))

    -- The size of the fragment at `offset`.
    abbrev size_at : ℕ → ℕ
    size_at offset = if ltb (length nal - offset) limit then length nal - offset else limit

    abbrev last_at : ℕ → Bool
    last_at offset = offset + size_at offset == length nal

    -- One round of the loop, after the first.
    loop_step :
        (fuel : ℕ) (p : Packetizer) (offset : ℕ) (r : Reassembler) (s : S)
        → Receiving p r offset
        → 1 < offset
        → offset < length nal
        → let (ok, r', s') = after_next p r offset (size_at offset) (last_at offset) s in
          loop (suc fuel) p offset r s ≡ (
            if ok
            then loop fuel (counted p) (offset + size_at offset) r' s'
            else some (false, counted p, (r', s')))
    unfolding fragments
    loop_step fuel p offset r s v begun inside = rw (
      ne→== offset 1 (omega arith),
      lt→ltb offset (length nal) inside,
      emit-next p r offset (size_at offset) (last_at offset) s v (ground arith) (ground arith)
          (ground arith),
    )

    -- The state of a receiver that has handed its unit on.
    abbrev handed : Packetizer → Reassembler → ℕ → Reassembler
    handed p r offset = record (appended (synced p r) (take (size_at offset) (drop offset nal))) {
      assembling = false;
      buffer = [];
    }

    deliver-last :
        (p : Packetizer) (r : Reassembler) (offset : ℕ) (s : S)
        → Receiving p r offset
        → offset + size_at offset ≡ length nal
        → after_next p r offset (size_at offset) true s ≡ (
          (call_nal cbs s nal timestamp marker).0,
          handed p r offset,
          (call_nal cbs s nal timestamp marker).1,
        )
    unfolding deliver
    deliver-last p r offset s v e = ap (λ b. told b r.timestamp (marker && true)) whole ∙ rest
      where
        told : List ℕ → ℕ → Bool → Bool × Reassembler × S
        told b t m = ((call_nal cbs s b t m).0, handed p r offset, (call_nal cbs s b t m).1)

        whole : r.buffer ++ take (size_at offset) (drop offset nal) ≡ nal
        whole = rw (v.received, take-add offset (size_at offset) nal, e) (take-length nal)

        rest : told nal r.timestamp (marker && true) ≡ told nal timestamp marker
        rest = ap₂ (told nal) v.same_timestamp (and-true marker)

    pub loop-Delivers :
        (fuel : ℕ) (p : Packetizer) (offset : ℕ) (r : Reassembler) (s : S)
        → Receiving p r offset
        → 1 < offset
        → offset < length nal
        → length nal < offset + fuel
        → Delivers cbs p nal timestamp marker s (loop fuel p offset r s)
    loop-Delivers zero p offset r s v begun inside enough = absurd (omega arith)
    loop-Delivers (suc zero) p offset r s v begun inside enough = absurd (omega arith)
    loop-Delivers (suc (suc fuel)) p offset r s v begun inside enough =
        elim (Bool-cases (last_at offset)) [
          | inl last ↦ finished last
          | inr more ↦
              rw (loop_step (suc fuel) p offset r s v begun inside, more)
                (Delivers-counted (
                  loop-Delivers (suc fuel) (counted p) (offset + size_at offset) _ s
                    (Receiving-next p r offset (size_at offset) v) (omega arith) (ground arith)
                    (ground arith)))
        ]
      where
        finished :
            last_at offset ≡ true
            → Delivers cbs p nal timestamp marker s (loop (suc (suc fuel)) p offset r s)
        finished last = record {
          sender = counted p;
          receiver = handed p r offset;
          result =
              let e = (==_iff (offset + size_at offset) (length nal)).0 last in
              rw
                (
                  loop_step (suc fuel) p offset r s v begun inside,
                  last,
                  deliver-last p r offset s v e,
                  e,
                  loop_end fuel (counted p),
                )
                (if-result (call_nal cbs s nal timestamp marker).0 _ _);
          in_step = counted-InStep p (handed p r offset) refl;
          sequence_in = omega arith;
          same_mtu = refl;
        }
