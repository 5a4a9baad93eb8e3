-- ===== src/Rtp/Reassembler.antt =====
-- The receiving half of src/rtp_h264.c. The buffer is the list of the `length` bytes written to
-- it, so its length is that of the list; `realloc` is the argument `alloc`, which says whether
-- a block of the given size is had. A callback with its context acts on the context's state `S`,
-- and is `none` for a null pointer.
use nanokvm_rdp.Prelude.{
  ℕ, zero, suc, ◌+◌, ◌-◌, ◌/◌, ◌^◌, Bool, true, false, ◌&&◌, ◌||◌, not, List, [], ◌∷◌, ◌++◌, Option,
  none, some, get_or, length, take, drop, ltb, leb, ◌==◌, if◌then◌else◌, u8, add_u16, sub_u64,
  mul_u64, bit_and, bit_or,
}
use nanokvm_rdp.Bytes.{read_u16, read_u32}
use nanokvm_rdp.Rtp.Packetizer.{header_size, max_nal}

pub record Reassembler : Type 0 where
  pub expected_sequence : ℕ
  pub have_sequence : Bool
  pub assembling : Bool
  pub buffer : List ℕ
  pub capacity : ℕ
  pub nal_header : ℕ
  pub timestamp : ℕ

abbrev pub reassembler_init : Reassembler
reassembler_init = record {
  expected_sequence = 0;
  have_sequence = false;
  assembling = false;
  buffer = [];
  capacity = 0;
  nal_header = 0;
  timestamp = 0;
}

pub record Callbacks {ℓ} (S : Type ℓ) : Type ℓ where
  pub nal : Option (S → List ℕ → ℕ → Bool → Bool × S)
  pub loss : Option (S → S)

-- `while (capacity < needed) capacity *= 2U;` on fuel.
unfoldable pub grow : ℕ → ℕ → ℕ → ℕ
grow zero capacity needed = capacity
grow (suc fuel) capacity needed = elim (ltb capacity needed) [
  | true ↦ grow fuel (mul_u64 capacity 2) needed
  | false ↦ capacity
]

unfoldable pub append : (ℕ → Bool) → Reassembler → List ℕ → Bool × Reassembler
append alloc r bytes =
    let needed = length r.buffer + length bytes in
    let first = if r.capacity == 0 then 2048 else r.capacity in
    let capacity = grow 64 first needed in
    if ltb (sub_u64 max_nal (length r.buffer)) (length bytes)
    then (false, r)
    else if ltb r.capacity needed
    then if alloc capacity
      then (true, record r { buffer = r.buffer ++ bytes; capacity = capacity })
      else (false, r)
    else (true, record r { buffer = r.buffer ++ bytes })

-- The sequence number of a packet is taken in, and a gap drops what is being assembled.
abbrev pub gap : Reassembler → ℕ → Bool
gap r sequence = r.have_sequence && not (sequence == r.expected_sequence)

unfoldable pub note_sequence : Reassembler → ℕ → Reassembler
note_sequence r sequence =
    let kept = if gap r sequence then record r { assembling = false; buffer = [] } else r in
    record kept { have_sequence = true; expected_sequence = add_u16 sequence 1 }

-- The state at the first fragment of a NAL unit.
abbrev pub started : Reassembler → List ℕ → ℕ → Reassembler
started r payload timestamp = record r {
  assembling = true;
  timestamp = timestamp;
  buffer = [];
  nal_header = u8 (bit_or (bit_and (get_or payload 0 0) 0xe0) (bit_and (get_or payload 1 0) 0x1f));
}

module _ {ℓ} {S : Type ℓ} where
  abbrev pub call_nal : Callbacks S → S → List ℕ → ℕ → Bool → Bool × S
  call_nal cbs s nal timestamp marker = elim cbs.nal [
    | none ↦ (false, s)
    | some f ↦ f s nal timestamp marker
  ]

  abbrev pub call_loss : Callbacks S → S → S
  call_loss cbs s = elim cbs.loss [ none ↦ s | some f ↦ f s ]

  unfoldable pub deliver : Reassembler → Callbacks S → Bool → S → Bool × Reassembler × S
  deliver r cbs marker s =
      let (result, s') = call_nal cbs s r.buffer r.timestamp marker in
      (result, record r { assembling = false; buffer = [] }, s')

  -- The loop over the NAL units of a STAP-A payload, from `offset` on.
  unfoldable pub aggregate : ℕ → Callbacks S → List ℕ → ℕ → ℕ → Bool → Bool → S → Option (Bool × S)
  aggregate zero cbs payload offset timestamp marker delivered s = none
  aggregate (suc fuel) cbs payload offset timestamp marker delivered s =
      let nal_length = read_u16 payload offset in
      let start = offset + 2 in
      let end = start + nal_length in
      let (ok, s') =
        call_nal cbs s (take nal_length (drop start payload)) timestamp
          (marker && end == length payload) in
      let rest = aggregate fuel cbs payload end timestamp marker true s' in
      if leb start (length payload)
      then if nal_length == 0 || ltb (length payload - start) nal_length
        then some (false, s)
        else if ok
        then rest
        else some (false, s')
      else some (delivered && offset == length payload, s)

  -- The second part of a FU-A packet: the fragment is appended, and the last one delivers.
  unfoldable pub continue_fragment :
      (ℕ → Bool) → Callbacks S → Reassembler → List ℕ → ℕ → Bool → S → Bool × Reassembler × S
  continue_fragment alloc cbs r payload timestamp marker s =
      let (ok, r') = append alloc r (drop 2 payload) in
      let end = not (bit_and (get_or payload 1 0) 0x40 == 0) in
      if not r.assembling || not (timestamp == r.timestamp)
      then (false, r, s)
      else if ok
      then if end then deliver r' cbs marker s else (true, r', s)
      else (false, r', s)

  unfoldable pub push_fragment :
      (ℕ → Bool) → Callbacks S → Reassembler → List ℕ → ℕ → Bool → S → Bool × Reassembler × S
  push_fragment alloc cbs r payload timestamp marker s =
      let fresh = started r payload timestamp in
      let (ok, r') = append alloc fresh (fresh.nal_header ∷ []) in
      if not (bit_and (get_or payload 1 0) 0x80 == 0)
      then if ok then continue_fragment alloc cbs r' payload timestamp marker s else (false, r', s)
      else continue_fragment alloc cbs r payload timestamp marker s

  -- The payload of a packet, by its type.
  unfoldable pub push_payload :
      (ℕ → Bool)
      → Callbacks S
      → Reassembler
      → List ℕ
      → ℕ
      → Bool
      → S
      → Option (Bool × Reassembler × S)
  push_payload alloc cbs r payload timestamp marker s =
      let type = bit_and (get_or payload 0 0) 0x1f in
      let (single, s') = call_nal cbs s payload timestamp marker in
      let together : Option (Bool × Reassembler × S) =
        elim (aggregate (length payload) cbs payload 1 timestamp marker false s) [
          | none ↦ none
          | some (ok, s') ↦ some (ok, r, s')
        ] in
      if leb 1 type && leb type 23
      then some (single, r, s')
      else if type == 24
      then together
      else if not (type == 28) || ltb (length payload) 3
      then some (true, r, s)
      else some (push_fragment alloc cbs r payload timestamp marker s)

  -- `none` would mean that the loop over a STAP-A payload had not come to its end.
  unfoldable pub push :
      (ℕ → Bool) → Callbacks S → Reassembler → List ℕ → S → Option (Bool × Reassembler × S)
  push alloc cbs r bytes s =
      let sequence = read_u16 bytes 2 in
      let heard = if gap r sequence then call_loss cbs s else s in
      if leb (length bytes) header_size || not (get_or bytes 0 0 / 2 ^ 6 == 2)
      then some (false, r, s)
      else push_payload alloc cbs (note_sequence r sequence) (drop header_size bytes)
          (read_u32 bytes 4) (not (bit_and (get_or bytes 1 0) 0x80 == 0)) heard
