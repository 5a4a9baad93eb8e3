-- ===== src/Client/Bounds.antt =====
-- Memory bounds and the end of `rtp_client_read_h264` (src/rtp_client.c), on any stream.
use nanokvm_rdp.Prelude.{
  ℕ, ◌<◌, ◌≤◌, ◌≡◌, refl, ◌⊎◌, inl, inr, Bool, true, false, ◌&&◌, not, List, [], ◌∷◌, Option, none,
  some, get_or, length, take, ◌==◌, if◌then◌else◌, arith, bit_and, ap, Bool-cases, Option-cases,
}
use nanokvm_rdp.Rtp.Packetizer.{max_nal}
use nanokvm_rdp.Rtp.Bounds.{IsBounded, push-IsBounded}
use nanokvm_rdp.Rtp.Context.{push-Holds}
use nanokvm_rdp.Client.{
  Context, RtpClient, Recv, datagram, interrupted, failed, ReadResult, start_code, callbacks,
  handed, read_packet, read_loop, read_h264,
}
use nanokvm_rdp.Client.Assembled.{IsAssembled, callbacks-Keeps}

pub record IsValid (client : RtpClient) : Type 0 where
  pub bounded : IsBounded client.reassembler
  pub assembled : IsAssembled client.context

-- What a read may hand over: a start code and what follows, at most as long as the largest unit.
pub data IsUnit : Option (List ℕ) → Type 0 where
  nothing : IsUnit none
  unit : (bytes : List ℕ) → take 4 bytes ≡ start_code → length bytes ≤ max_nal → IsUnit (some bytes)

handed-IsAssembled :
    {client : Context} (packet : List ℕ) → IsAssembled client → IsAssembled (handed client packet)
unfolding handed
handed-IsAssembled packet v = record {
  in_capacity = omega arith;
  in_limit = omega arith;
  starts = inl refl;
}

assembled-IsUnit :
    {client : Context}
    → IsAssembled client
    → (length client.access_unit == 0) ≡ false
    → IsUnit (some client.access_unit)
assembled-IsUnit {client} v some_bytes = elim v.starts [
  | inl empty ↦ absurd (ground (arith, ap length empty))
  | inr starts ↦ unit client.access_unit starts (omega (arith, v.in_capacity, v.in_limit))
]

abbrev Reads : Option (Option (List ℕ) × RtpClient) → Type 0
Reads out = (r : Option (List ℕ) × RtpClient) × (out ≡ some r) × IsUnit r.0 × IsValid r.1

read_packet-Reads :
    (alloc : ℕ → Bool) {client : RtpClient} (packet : List ℕ)
    → IsValid client
    → Reads (read_packet alloc client packet)
unfolding read_packet
read_packet-Reads alloc {client} packet v =
    let ((pushed, r, next), e, bounded) =
      push-IsBounded alloc (callbacks alloc) packet client.context v.bounded in
    let kept : IsAssembled next = rw e at (
      push-Holds IsAssembled alloc (callbacks alloc) (callbacks-Keeps alloc) client.reassembler
        packet client.context v.assembled) in
    let ends : Bool = not (bit_and (get_or packet 1 0) 0x80 == 0) in
    elim (Bool-cases (pushed && (ends && not (length next.access_unit == 0)))) [
      | inr more ↦ (
        (none, record { context = next; reassembler = r }),
        rw (e, read_packet, more) refl,
        nothing,
        record { bounded = bounded; assembled = kept },
      )
      | inl done ↦ (
        (some next.access_unit, record { context = handed next packet; reassembler = r }),
        rw (e, read_packet, done) refl,
        assembled-IsUnit kept (ground arith),
        record { bounded = bounded; assembled = handed-IsAssembled packet kept },
      )
    ]

-- The read has come to its end within the answers, and used one up if it hands a unit over.
pub record Hands (answers : List Recv) (out : ReadResult) : Type 0 where
  pub result : Option (List ℕ)
  pub rest : List Recv
  pub client : RtpClient
  pub ends : out ≡ some (result, rest, client)
  pub is_unit : IsUnit result
  pub is_valid : IsValid client
  pub left : length rest ≤ length answers
  pub used : (result ≡ none) ⊎ (length rest < length answers)

later :
    {answers : List Recv} {out : ReadResult} (answer : Recv)
    → Hands answers out
    → Hands (answer ∷ answers) out
later answer h = record {
  result = h.result;
  rest = h.rest;
  client = h.client;
  ends = h.ends;
  is_unit = h.is_unit;
  is_valid = h.is_valid;
  left = omega (arith, h.left);
  used = elim h.used [ inl e ↦ inl e | inr less ↦ inr (omega (arith, less)) ];
}

gives_up :
    (answers rest : List Recv) (client : RtpClient)
    → length rest ≤ length answers
    → IsValid client
    → Hands answers (some (none, rest, client))
gives_up answers rest client h v = record {
  result = none;
  rest = rest;
  client = client;
  ends = refl;
  is_unit = nothing;
  is_valid = v;
  left = h;
  used = inl refl;
}

read_loop-Hands :
    (alloc : ℕ → Bool) (answers : List Recv) {client : RtpClient}
    → IsValid client
    → Hands answers (read_loop alloc answers client)
unfolding read_loop
read_loop-Hands alloc [] v = gives_up [] [] _ (omega arith) v
read_loop-Hands alloc (interrupted ∷ answers) v =
    later interrupted (read_loop-Hands alloc answers v)
read_loop-Hands alloc (failed ∷ answers) v = gives_up _ answers _ (omega arith) v
read_loop-Hands alloc (datagram bytes ∷ answers) {client} v =
    elim (Bool-cases (length bytes == 0)) [
      | inl empty ↦ rw (empty, read_loop) (gives_up _ answers client (omega arith) v)
      | inr some_bytes ↦
          let ((result, client'), e, is_unit, valid) =
            read_packet-Reads alloc (take 1500 bytes) v in
          rw (some_bytes, read_loop, e)
            (elim (Option-cases result) [
              | inl more ↦ rw more (later (datagram bytes) (read_loop-Hands alloc answers valid))
              | inr (data_, done) ↦ rw done (record {
                result = some data_;
                rest = answers;
                client = client';
                ends = refl;
                is_unit = rw done at is_unit;
                is_valid = valid;
                left = omega arith;
                used = inr (omega arith);
              })
            ])
    ]

if-Hands :
    {answers : List Recv} {out out' : ReadResult} (test : Bool)
    → Hands answers out
    → Hands answers out'
    → Hands answers (if test then out else out')
if-Hands true h h' = h
if-Hands false h h' = h'

-- For a valid client a read comes to its end on any answers of `recv`, whichever allocations succeed,
-- and leaves the client valid: its buffers stay within their capacities and the largest NAL unit. What
-- it hands over begins with a start code and is no longer than that, and at least one answer is used
-- up for it.
pub read_h264-Hands :
    (alloc : ℕ → Bool) (answers : List Recv) {client : RtpClient}
    → IsValid client
    → Hands answers (read_h264 alloc answers client)
unfolding read_h264
read_h264-Hands alloc answers {client} v =
    if-Hands client.context.opened (read_loop-Hands alloc answers v)
      (gives_up answers answers client (omega arith) v)
