-- ===== src/Rtp/Receive.antt =====
-- What `rtp_h264_reassembler_push` (src/rtp_h264.c) does with the packets that the packetizer
-- builds, in a receiver whose `realloc` succeeds.
use nanokvm_rdp.Prelude.{
  ℕ, ◌+◌, ◌^◌, ◌<◌, ◌≤◌, ◌≡◌, refl, Bool, true, false, not, List, [], ◌∷◌, ◌++◌, get_or, length,
  drop, ltb, ◌==◌, if◌then◌else◌, bit_and, arith, some, add_u16, ◌||◌,
}
use nanokvm_rdp.Rtp.Packetizer.{Packetizer, packet, fu_indicator, fu_header, max_nal}
use nanokvm_rdp.Rtp.Reassembler.{
  Reassembler, Callbacks, grow, append, gap, note_sequence, call_nal, deliver, continue_fragment,
  push_fragment, push_payload, push,
}
use nanokvm_rdp.Rtp.Fields.{
  packet-payload, length-packet, packet-version, packet-marker, packet-sequence, packet-timestamp,
  ReadsFragment,
}

-- The receiver expects what the sender sends next.
abbrev pub InStep : Packetizer → Reassembler → Type 0
InStep p r = gap r p.sequence ≡ false

-- The capacity after an append.
pub capacity_after : Reassembler → List ℕ → ℕ
capacity_after r bytes =
    let needed = length r.buffer + length bytes in
    if ltb r.capacity needed
    then grow 64 (if r.capacity == 0 then 2048 else r.capacity) needed
    else r.capacity

abbrev pub appended : Reassembler → List ℕ → Reassembler
appended r bytes = record r { buffer = r.buffer ++ bytes; capacity = capacity_after r bytes }

-- The state when a NAL unit with this header begins.
abbrev pub begun : Reassembler → ℕ → ℕ → Reassembler
begun r header at = record r { assembling = true; timestamp = at; buffer = []; nal_header = header }

abbrev pub synced : Packetizer → Reassembler → Reassembler
synced p r = record r { have_sequence = true; expected_sequence = add_u16 p.sequence 1 }

module _ (alloc : ℕ → Bool) (allocates : (n : ℕ) → alloc n ≡ true) where
  append-appended :
      (r : Reassembler) (bytes : List ℕ)
      → length r.buffer + length bytes ≤ max_nal
      → append alloc r bytes ≡ (true, appended r bytes)
  unfolding append capacity_after
  append-appended r bytes h = ground (
    arith,
    allocates
        (grow 64 (if r.capacity == 0 then 2048 else r.capacity) (length r.buffer + length bytes)),
  )

  module _ {S : Type 0} (cbs : Callbacks S) where
    pub push-packet :
        (p : Packetizer) (r : Reassembler) (payload : List ℕ) (marker : Bool) (timestamp : ℕ)
        (s : S)
        → InStep p r
        → p.sequence < 2 ^ 16
        → timestamp < 2 ^ 32
        → 0 < length payload
        → push alloc cbs r (packet p payload marker timestamp) s
          ≡ push_payload alloc cbs (synced p r) payload timestamp marker s
    unfolding push note_sequence
    push-packet p r payload marker timestamp s step hs ht hp = ground (
      arith,
      packet-sequence p payload marker timestamp hs,
      packet-timestamp p payload marker timestamp ht,
      packet-payload p payload marker timestamp,
      length-packet p payload marker timestamp,
      packet-version p payload marker timestamp,
      packet-marker p payload marker timestamp,
    )

    -- A payload of a single-NAL type is handed on as it is.
    pub push_payload-single :
        (r : Reassembler) (payload : List ℕ) (marker : Bool) (timestamp : ℕ) (s : S)
        → 1 ≤ bit_and (get_or payload 0 0) 0x1f
        → bit_and (get_or payload 0 0) 0x1f ≤ 23
        → push_payload alloc cbs r payload timestamp marker s
          ≡ some (
            (call_nal cbs s payload timestamp marker).0,
            r,
            (call_nal cbs s payload timestamp marker).1,
          )
    unfolding push_payload
    push_payload-single r payload marker timestamp s lo hi = ground arith

    continue_fragment-last :
        (r : Reassembler) (payload : List ℕ) (last marker : Bool) (timestamp : ℕ) (s : S)
        → not (bit_and (get_or payload 1 0) 0x40 == 0) ≡ last
        → r.assembling ≡ true
        → r.timestamp ≡ timestamp
        → length r.buffer + length (drop 2 payload) ≤ max_nal
        → continue_fragment alloc cbs r payload timestamp marker s ≡ (
            if last
            then deliver (appended r (drop 2 payload)) cbs marker s
            else (true, appended r (drop 2 payload), s))
    unfolding continue_fragment
    continue_fragment-last r payload last marker timestamp s end on same room =
        rw (append-appended r (drop 2 payload) room, expected on same, end) refl
      where
        expected :
            r.assembling ≡ true
            → r.timestamp ≡ timestamp
            → (not r.assembling || not (timestamp == r.timestamp)) ≡ false
        expected _ _ = ground arith

    -- A fragment that follows those received is appended, and the last one delivers.
    pub push_fragment-next :
        (r : Reassembler) (header : ℕ) (bytes : List ℕ) (last marker : Bool) (timestamp : ℕ) (s : S)
        → ReadsFragment header false last
        → r.assembling ≡ true
        → r.timestamp ≡ timestamp
        → length r.buffer + length bytes ≤ max_nal
        → push_fragment alloc cbs r
            (fu_indicator header ∷ fu_header header false last ∷ bytes)
            timestamp
            marker
            s
          ≡ (if last then deliver (appended r bytes) cbs marker s else (true, appended r bytes, s))
    unfolding push_fragment
    push_fragment-next r header bytes last marker timestamp s reads on same room = rw reads.first (
        continue_fragment-last r (fu_indicator header ∷ fu_header header false last ∷ bytes) last
          marker timestamp s reads.last on same room)

    -- The first fragment starts the unit anew, with the header of the NAL unit rebuilt.
    pub push_fragment-first :
        (r : Reassembler) (header : ℕ) (bytes : List ℕ) (marker : Bool) (timestamp : ℕ) (s : S)
        → ReadsFragment header true false
        → 1 + length bytes ≤ max_nal
        → push_fragment alloc cbs r
            (fu_indicator header ∷ fu_header header true false ∷ bytes)
            timestamp
            marker
            s
          ≡ (true, appended (appended (begun r header timestamp) (header ∷ [])) bytes, s)
    unfolding push_fragment
    push_fragment-first r header bytes marker timestamp s reads room =
        rw
          (
            reads.first,
            reads.rebuilt,
            append-appended (begun r header timestamp) (header ∷ []) (omega arith),
          )
          (continue_fragment-last (appended (begun r header timestamp) (header ∷ []))
            (fu_indicator header ∷ fu_header header true false ∷ bytes) false marker timestamp s
            reads.last refl refl room)

    pub push_payload-fragment :
        (r : Reassembler) (header : ℕ) (start end : Bool) (bytes : List ℕ) (marker : Bool)
        (timestamp : ℕ) (s : S)
        → ReadsFragment header start end
        → 0 < length bytes
        → push_payload alloc cbs r
            (fu_indicator header ∷ fu_header header start end ∷ bytes)
            timestamp
            marker
            s
          ≡ some (
              push_fragment alloc cbs r
                (fu_indicator header ∷ fu_header header start end ∷ bytes)
                timestamp
                marker
                s)
    unfolding push_payload
    push_payload-fragment r header start end bytes marker timestamp s reads h =
        rw reads.kind (ground arith)
