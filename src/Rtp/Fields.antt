-- ===== src/Rtp/Fields.antt =====
-- What the receiver reads in a packet that the sender built (src/rtp_h264.c): the header fields and
-- the bytes of a FU-A payload.
use nanokvm_rdp.Prelude.{
  ℕ, ◌+◌, ◌/◌, ◌^◌, ◌<◌, ◌≡◌, refl, Bool, true, false, not, List, ◌++◌, get_or, length, drop, ◌==◌,
  if◌then◌else◌, u8, bit_and, bit_or, arith, all_below, byte_table,
}
use nanokvm_rdp.Bytes.{
  read_u16, read_u32, write_u16, write_u32, read_u16-write_u16, read_u32-write_u32,
}
use nanokvm_rdp.Rtp.Packetizer.{
  Packetizer, packet, fu_indicator, fu_header, header_size, payload_type,
}

marker_bit :
    (m : Bool) → not (bit_and (u8 (bit_or payload_type (if m then 0x80 else 0))) 0x80 == 0) ≡ m
marker_bit true = refl
marker_bit false = refl

module _ (p : Packetizer) (payload : List ℕ) (marker : Bool) (timestamp : ℕ) where
  pub packet-payload : drop header_size (packet p payload marker timestamp) ≡ payload
  unfolding packet write_u16 write_u32
  packet-payload = refl

  pub length-packet : length (packet p payload marker timestamp) ≡ length payload + header_size
  unfolding packet write_u16 write_u32
  length-packet = omega arith

  pub packet-version : get_or (packet p payload marker timestamp) 0 0 / 2 ^ 6 ≡ 2
  unfolding packet
  packet-version = refl

  pub packet-marker :
      not (bit_and (get_or (packet p payload marker timestamp) 1 0) 0x80 == 0) ≡ marker
  unfolding packet
  packet-marker = marker_bit marker

  pub packet-sequence :
      p.sequence < 2 ^ 16 → read_u16 (packet p payload marker timestamp) 2 ≡ p.sequence
  unfolding packet read_u16
  packet-sequence h =
      read_u16-write_u16 p.sequence (write_u32 timestamp ++ (write_u32 p.ssrc ++ payload)) h

  pub packet-timestamp :
      timestamp < 2 ^ 32 → read_u32 (packet p payload marker timestamp) 4 ≡ timestamp
  unfolding packet read_u32 write_u16
  packet-timestamp h = read_u32-write_u32 timestamp (write_u32 p.ssrc ++ payload) h

abbrev flag : Bool → ℕ → ℕ
flag b mask = if b then mask else 0

-- The bits of the two bytes before a FU-A fragment, read back at every NAL header.
fu_indicator-kind : (header : ℕ) → header < 256 → bit_and (fu_indicator header) 0x1f ≡ 28
unfolding fu_indicator all_below
fu_indicator-kind header h = byte_table (λ n. bit_and (fu_indicator n) 0x1f) (λ _. 28) header refl h

abbrev start_bit : Bool → Bool → ℕ → ℕ
start_bit start end header = bit_and (fu_header header start end) 0x80

abbrev end_bit : Bool → Bool → ℕ → ℕ
end_bit start end header = bit_and (fu_header header start end) 0x40

abbrev rebuilt_header : Bool → Bool → ℕ → ℕ
rebuilt_header start end header =
    u8 (bit_or (bit_and (fu_indicator header) 0xe0) (bit_and (fu_header header start end) 0x1f))

fu_header-tables :
    (start end : Bool)
    → (all_below 256 (λ n. start_bit start end n == flag start 0x80) ≡ true)
      × (all_below 256 (λ n. end_bit start end n == flag end 0x40) ≡ true)
      × (all_below 256 (λ n. rebuilt_header start end n == n) ≡ true)
unfolding fu_header fu_indicator all_below
fu_header-tables true true = (refl, refl, refl)
fu_header-tables true false = (refl, refl, refl)
fu_header-tables false true = (refl, refl, refl)
fu_header-tables false false = (refl, refl, refl)

-- What a receiver makes of the payload of a fragment.
pub record ReadsFragment (header : ℕ) (start end : Bool) : Type 0 where
  pub kind : bit_and (fu_indicator header) 0x1f ≡ 28
  pub first : not (bit_and (fu_header header start end) 0x80 == 0) ≡ start
  pub last : not (bit_and (fu_header header start end) 0x40 == 0) ≡ end
  pub rebuilt :
      u8 (bit_or (bit_and (fu_indicator header) 0xe0) (bit_and (fu_header header start end) 0x1f))
      ≡ header

flag-test : (b : Bool) (mask x : ℕ) → 0 < mask → x ≡ flag b mask → not (x == 0) ≡ b
flag-test true mask x h e = ground arith
flag-test false mask x h e = ground arith

pub fragment-ReadsFragment :
    (header : ℕ) (start end : Bool) → header < 256 → ReadsFragment header start end
fragment-ReadsFragment header start end h =
    let (first, last, rebuilt) = fu_header-tables start end in
    record {
      kind = fu_indicator-kind header h;
      first =
          flag-test start 0x80 _ (omega arith)
            (byte_table (start_bit start end) (λ _. flag start 0x80) header first h);
      last =
          flag-test end 0x40 _ (omega arith)
            (byte_table (end_bit start end) (λ _. flag end 0x40) header last h);
      rebuilt = byte_table (rebuilt_header start end) (λ n. n) header rebuilt h;
    }
