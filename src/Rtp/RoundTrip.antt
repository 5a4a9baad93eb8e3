-- ===== src/Rtp/RoundTrip.antt =====
-- A NAL unit that `rtp_h264_packetize_marker` sends over a channel without loss comes out of
-- `rtp_h264_reassembler_push` as it went in (src/rtp_h264.c).
use nanokvm_rdp.Prelude.{
  ℕ, suc, ◌+◌, ◌-◌, ◌^◌, ◌<◌, ◌≤◌, ◌≡◌, refl, Bool, true, false, List, [], ◌∷◌, get_or, length,
  drop, take, leb, bit_and, arith, some, ap, ◌∙◌, Bool-cases, ◌&&◌, inl, inr, take-add, length-take,
  length-drop, lt→ltb, le→ltb, ne→==, leb→le, sub_u32, sub_u64,
}
use nanokvm_rdp.Rtp.Packetizer.{
  Packetizer, fu_indicator, fu_header, header_size, default_mtu, max_nal, counted, emit_packet,
  fragments, packetize_marker,
}
use nanokvm_rdp.Rtp.Reassembler.{Reassembler, Callbacks, call_nal}
use nanokvm_rdp.Rtp.Fields.{ReadsFragment, fragment-ReadsFragment}
use nanokvm_rdp.Rtp.Receive.{
  InStep, appended, begun, synced, push_payload-single, push_payload-fragment, push_fragment-first,
}
use nanokvm_rdp.Rtp.Fragments.{
  channel, Delivers, Delivers-counted, Receiving, emit_packet-channel, counted-InStep,
  loop-Delivers,
}

-- A NAL unit that the payload format can carry: not empty, not too long, of a single-unit type.
pub record IsNal (nal : List ℕ) : Type 0 where
  pub some_bytes : 0 < length nal
  pub size_in : length nal ≤ max_nal
  pub header_in : get_or nal 0 0 < 256
  pub type_low : 1 ≤ bit_and (get_or nal 0 0) 0x1f
  pub type_high : bit_and (get_or nal 0 0) 0x1f ≤ 23

-- What `rtp_h264_packetizer_init` sets up, and sending keeps.
pub record IsSender (p : Packetizer) : Type 0 where
  pub sequence_in : p.sequence < 2 ^ 16
  pub mtu_low : header_size + 3 ≤ p.mtu
  pub mtu_high : p.mtu ≤ default_mtu

take_one : (nal : List ℕ) → 0 < length nal → take 1 nal ≡ get_or nal 0 0 ∷ []
take_one [] h = elim h [ ]
take_one (x ∷ nal) h = refl

module _ {S : Type 0} (alloc : ℕ → Bool) (allocates : (n : ℕ) → alloc n ≡ true)
    (cbs : Callbacks S) where
  -- The first round of the loop: the receiver begins a unit and holds its first bytes.
  fragments-first :
      (fuel limit : ℕ) (p : Packetizer) (nal : List ℕ) (timestamp : ℕ) (marker : Bool)
      (r : Reassembler) (s : S)
      → IsNal nal
      → IsSender p
      → InStep p r
      → timestamp < 2 ^ 32
      → 0 < limit
      → limit + 2 + header_size ≤ default_mtu
      → 1 + limit < length nal
      → fragments (suc fuel) p nal 1 limit timestamp marker (channel alloc cbs) (r, s)
        ≡ fragments fuel (counted p) nal (1 + limit) limit timestamp marker (channel alloc cbs) (
          appended
              (appended (begun (synced p r) (get_or nal 0 0) timestamp) (get_or nal 0 0 ∷ []))
              (take limit (drop 1 nal)),
          s,
        )
  unfolding fragments
  fragments-first fuel limit p nal timestamp marker r s is_nal sender step ht pos small more = rw (
    lt→ltb 1 (length nal) (omega arith),
    le→ltb (length nal - 1) limit (omega arith),
    ne→== (1 + limit) (length nal) (omega arith),
    emit_packet-channel alloc allocates cbs p r
        (fu_indicator header ∷ fu_header header true false ∷ bytes) (marker && false) timestamp s _
        _ _ step sender.sequence_in ht (omega arith) (omega (arith, length-take limit (drop 1 nal)))
        (push_payload-fragment alloc allocates cbs (synced p r) header true false bytes
            (marker && false) timestamp s reads
            (omega (arith, length-take limit (drop 1 nal), length-drop 1 nal))
          ∙ ap some (
              push_fragment-first alloc allocates cbs (synced p r) header bytes (marker && false)
                timestamp s reads
                (omega (arith, length-take limit (drop 1 nal), length-drop 1 nal)))),
  )
    where
      header : ℕ
      header = get_or nal 0 0

      bytes : List ℕ
      bytes = take limit (drop 1 nal)

      reads : ReadsFragment header true false
      reads = fragment-ReadsFragment header true false is_nal.header_in

  -- A NAL unit that is split is delivered.
  split-Delivers :
      (limit : ℕ) (p : Packetizer) (nal : List ℕ) (timestamp : ℕ) (marker : Bool) (r : Reassembler)
      (s : S)
      → IsNal nal
      → IsSender p
      → InStep p r
      → timestamp < 2 ^ 32
      → 0 < limit
      → limit + 2 + header_size ≤ default_mtu
      → 1 + limit < length nal
      → Delivers cbs p nal timestamp marker s
          (fragments (length nal) p nal 1 limit timestamp marker (channel alloc cbs) (r, s))
  split-Delivers limit p [] timestamp marker r s is_nal sender step ht pos small more =
      absurd (omega arith)
  split-Delivers limit p (x ∷ xs) timestamp marker r s is_nal sender step ht pos small more =
      rw
        (fragments-first (length xs) limit p (x ∷ xs) timestamp marker r s is_nal sender step ht pos
          small more)
        (Delivers-counted (
          loop-Delivers alloc allocates cbs (x ∷ xs) timestamp marker limit is_nal.header_in ht
            is_nal.size_in pos small (length xs) (counted p) (1 + limit) begun_here s receiving
            (omega arith) more (omega arith)))
    where
      begun_here : Reassembler
      begun_here = appended (appended (begun (synced p r) x timestamp) (x ∷ [])) (take limit xs)

      receiving :
          Receiving alloc allocates cbs
            (x ∷ xs)
            timestamp
            marker
            limit
            is_nal.header_in
            ht
            is_nal.size_in
            pos
            small
            (counted p)
            begun_here
            (1 + limit)
      receiving = record {
        in_step = counted-InStep p begun_here refl;
        sequence_in = omega arith;
        assembling = refl;
        same_timestamp = refl;
        received = take-add 1 limit (x ∷ xs);
      }

  -- A NAL unit of a single-unit type, sent by `rtp_h264_packetize_marker` over a channel without
  -- loss to a receiver in step with the sender whose allocations succeed, is handed to the NAL
  -- callback exactly once, byte for byte, with its timestamp and marker, in one packet or in
  -- fragments; the sender returns what the callback returned, and the two stay in step.
  pub packetize_marker-Delivers :
      (p : Packetizer) (nal : List ℕ) (timestamp : ℕ) (marker : Bool) (r : Reassembler) (s : S)
      → IsNal nal
      → IsSender p
      → InStep p r
      → timestamp < 2 ^ 32
      → Delivers cbs p nal timestamp marker s
          (packetize_marker p nal timestamp marker (channel alloc cbs) (r, s))
  unfolding packetize_marker
  packetize_marker-Delivers p nal timestamp marker r s is_nal sender step ht =
      rw (ne→== (length nal) 0 (omega arith), le→ltb max_nal (length nal) (omega arith))
        (elim (Bool-cases (leb (length nal) room)) [
          | inl whole ↦ rw whole (record {
            sender = counted p;
            receiver = synced p r;
            result = ap some (single (leb→le (length nal) room whole));
            in_step = counted-InStep p (synced p r) refl;
            sequence_in = omega arith;
            same_mtu = refl;
          })
          | inr split ↦
              rw (split, ne→== (sub_u64 room 2) 0 (omega arith))
                (split-Delivers (sub_u64 room 2) p nal timestamp marker r s is_nal sender step ht
                  (omega arith) (omega arith) (ground arith))
        ])
    where
      room : ℕ
      room = sub_u32 p.mtu header_size

      single :
          length nal ≤ room
          → emit_packet p nal marker timestamp (channel alloc cbs) (r, s) ≡ (
            (call_nal cbs s nal timestamp marker).0,
            counted p,
            (synced p r, (call_nal cbs s nal timestamp marker).1),
          )
      single fits =
          emit_packet-channel alloc allocates cbs p r nal marker timestamp s _ _ _ step
            sender.sequence_in ht is_nal.some_bytes (omega arith)
            (push_payload-single alloc allocates cbs (synced p r) nal marker timestamp s
              is_nal.type_low is_nal.type_high)
