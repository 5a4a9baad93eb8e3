-- ===== src/Rtp/Packetizer.antt =====
-- The sending half of src/rtp_h264.c: RTP headers, single-NAL packets and FU-A fragments, and the
-- split of an access unit at its start codes.
-- A packet callback with its context is a function on the context's state `S`, or `none` for a
-- null pointer; the other pointers are valid. A function returns its result, the packetizer and
-- the context's state; a loop runs on fuel, and `none` means that the fuel ran out.
use nanokvm_rdp.Prelude.{
  ℕ, zero, suc, ◌+◌, ◌-◌, ◌*◌, Bool, true, false, ◌&&◌, ◌||◌, List, ◌∷◌, ◌++◌, Option, none, some,
  get_or, length, take, drop, ltb, leb, ◌==◌, if◌then◌else◌, u8, add_u16, sub_u32, sub_u64, bit_and,
  bit_or,
}
use nanokvm_rdp.Bytes.{write_u16, write_u32}

abbrev pub header_size : ℕ
header_size = 12

abbrev pub payload_type : ℕ
payload_type = 96

abbrev pub default_mtu : ℕ
default_mtu = 1200

abbrev pub max_nal : ℕ
max_nal = 2 * 1024 * 1024

pub record Packetizer : Type 0 where
  pub sequence : ℕ
  pub ssrc : ℕ
  pub mtu : ℕ

abbrev pub PacketCallback {ℓ} : Type ℓ → Type ℓ
PacketCallback S = Option (S → List ℕ → Bool × S)

unfoldable pub packetizer_init : ℕ → ℕ → Packetizer
packetizer_init mtu ssrc =
    let wide = if ltb mtu (header_size + 3) then default_mtu else mtu in
    record { sequence = 1; ssrc = ssrc; mtu = if ltb default_mtu wide then default_mtu else wide }

-- The bytes of a packet, from the packetizer before its sequence number is counted up.
unfoldable pub packet : Packetizer → List ℕ → Bool → ℕ → List ℕ
packet p payload marker timestamp =
    0x80
    ∷ u8 (bit_or payload_type (if marker then 0x80 else 0))
    ∷ (write_u16 p.sequence ++ (write_u32 timestamp ++ (write_u32 p.ssrc ++ payload)))

abbrev pub counted : Packetizer → Packetizer
counted p = record p { sequence = add_u16 p.sequence 1 }

-- The two bytes of a FU-A payload's header.
unfoldable pub fu_indicator : ℕ → ℕ
fu_indicator header = u8 (bit_or (bit_and header 0xe0) 28)

unfoldable pub fu_header : ℕ → Bool → Bool → ℕ
fu_header header start end =
    u8 (bit_or (bit_or (bit_and header 0x1f) (if start then 0x80 else 0)) (if end then 0x40 else 0))

-- start_code_length
unfoldable pub start_code_length : List ℕ → ℕ → ℕ
start_code_length data_ offset =
    let at = λ (k : ℕ). get_or data_ (offset + k) 0 in
    if leb (offset + 3) (length data_) && (at 0 == 0 && (at 1 == 0 && at 2 == 1))
    then 3
    else if leb (offset + 4) (length data_)
        && (at 0 == 0 && (at 1 == 0 && (at 2 == 0 && at 3 == 1)))
    then 4
    else 0

-- The first offset from `offset` on where a start code stands (`found`), or the end of the data:
-- the search loops of `rtp_h264_packetize_access_unit`, over the `rounds` offsets that are left.
unfoldable pub next_start_code : ℕ → List ℕ → ℕ → ℕ
next_start_code zero data_ offset = offset
next_start_code (suc rounds) data_ offset =
    let later = next_start_code rounds data_ (offset + 1) in
    if start_code_length data_ offset == 0 then later else offset

abbrev pub Outcome {ℓ} : Type ℓ → Type ℓ
Outcome S = Option (Bool × Packetizer × S)

module _ {ℓ} {S : Type ℓ} where
  unfoldable pub emit_packet :
      Packetizer → List ℕ → Bool → ℕ → PacketCallback S → S → Bool × Packetizer × S
  emit_packet p payload marker timestamp none s = (false, p, s)
  emit_packet p payload marker timestamp (some callback) s =
      let (ok, s') = callback s (packet p payload marker timestamp) in
      if ltb default_mtu (length payload + header_size) then (false, p, s) else (ok, counted p, s')

  -- The loop over the fragments, from `offset` on.
  unfoldable pub fragments :
      ℕ → Packetizer → List ℕ → ℕ → ℕ → ℕ → Bool → PacketCallback S → S → Outcome S
  fragments zero p nal offset limit timestamp marker callback s = none
  fragments (suc fuel) p nal offset limit timestamp marker callback s =
      let left = length nal - offset in
      let fragment = if ltb left limit then left else limit in
      let last = offset + fragment == length nal in
      let header = get_or nal 0 0 in
      let payload =
        fu_indicator header
        ∷ fu_header header (offset == 1) last
        ∷ take fragment (drop offset nal) in
      let (ok, p', s') = emit_packet p payload (marker && last) timestamp callback s in
      let rest = fragments fuel p' nal (offset + fragment) limit timestamp marker callback s' in
      if ltb offset (length nal)
      then if ok then rest else some (false, p', s')
      else some (true, p, s)

  unfoldable pub packetize_marker :
      Packetizer → List ℕ → ℕ → Bool → PacketCallback S → S → Outcome S
  packetize_marker p nal timestamp marker callback s =
      let payload_limit = sub_u32 p.mtu header_size in
      let fragment_limit = sub_u64 payload_limit 2 in
      if length nal == 0 || ltb max_nal (length nal)
      then some (false, p, s)
      else if leb (length nal) payload_limit
      then some (emit_packet p nal marker timestamp callback s)
      else if fragment_limit == 0
      then some (false, p, s)
      else fragments (length nal) p nal 1 fragment_limit timestamp marker callback s

  unfoldable pub packetize : Packetizer → List ℕ → ℕ → PacketCallback S → S → Outcome S
  packetize p nal timestamp callback s = packetize_marker p nal timestamp true callback s

  -- The loop over the NAL units of an access unit, each behind its start code at `offset`.
  unfoldable pub units : ℕ → Packetizer → List ℕ → ℕ → ℕ → PacketCallback S → Bool → S → Outcome S
  units zero p data_ offset timestamp callback sent s = none
  units (suc fuel) p data_ offset timestamp callback sent s =
      let code = start_code_length data_ offset in
      let start = offset + code in
      let next = next_start_code (length data_ - start) data_ start in
      let nal = take (next - start) (drop start data_) in
      let skip = units fuel p data_ next timestamp callback sent s in
      let unit = λ (done : Bool × Packetizer × S).
        let (ok, p', s') = done in
        let rest = units fuel p' data_ next timestamp callback true s' in
        if ok then rest else some (false, p', s') in
      let marked : Outcome S =
        elim (packetize_marker p nal timestamp (next == length data_) callback s) [
          | none ↦ none
          | some done ↦ unit done
        ] in
      if ltb offset (length data_)
      then if code == 0 then some (false, p, s) else if ltb start next then marked else skip
      else some (sent, p, s)

  unfoldable pub packetize_access_unit : Packetizer → List ℕ → ℕ → PacketCallback S → S → Outcome S
  packetize_access_unit p data_ timestamp none s = some (false, p, s)
  packetize_access_unit p data_ timestamp (some callback) s =
      let first = next_start_code (length data_) data_ 0 in
      if length data_ == 0
      then some (false, p, s)
      else if first == length data_
      then packetize p data_ timestamp (some callback) s
      else units (suc (length data_)) p data_ first timestamp (some callback) false s
