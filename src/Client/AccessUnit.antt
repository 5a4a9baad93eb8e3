-- ===== src/Client/AccessUnit.antt =====
-- An access unit end to end: from `rtp_h264_packetize_access_unit` (src/rtp_h264.c) over a wire without
-- loss to what `rtp_client_read_h264` (src/rtp_client.c) hands over.
use nanokvm_rdp.Prelude.{
  ℕ, suc, ◌^◌, ◌<◌, ◌≤◌, ◌≡◌, refl, Bool, true, false, List, [], ◌∷◌, some, length, if◌then◌else◌,
  arith, ◌∙◌, ne→==, length-append, inl, inr,
}
use nanokvm_rdp.Rtp.Packetizer.{
  Packetizer, max_nal, start_code_length, next_start_code, units, packetize_access_unit,
}
use nanokvm_rdp.Rtp.Receive.{InStep}
use nanokvm_rdp.Rtp.RoundTrip.{IsSender}
use nanokvm_rdp.Rtp.Wire.{Packets, wire}
use nanokvm_rdp.Rtp.Split.{annexb, unit_at, next_start_code-finds}
use nanokvm_rdp.Client.{
  Context, RtpClient, Recv, in_access_unit, handed, read_loop, read_h264, ReadResult,
}
use nanokvm_rdp.Client.Assembled.{IsAssembled}
use nanokvm_rdp.Client.Reading.{State, client_at, arrivals}
use nanokvm_rdp.Client.Units.{AreUnits, units-Arrived}

-- A sender, and a client that is in step with it and has no access unit begun.
pub record IsReady (p : Packetizer) (client : RtpClient) : Type 0 where
  pub is_sender : IsSender p
  pub in_step : InStep p client.reassembler
  pub assembled : IsAssembled client.context
  pub opened : client.context.opened ≡ true
  pub fresh : client.context.have_access_unit ≡ false

-- The units go out in packets, and the read of these hands over the units as they are in Annex B,
-- without a loss, with their timestamp, and leaves both ends ready.
pub record Received (alloc : ℕ → Bool) (p : Packetizer) (client : RtpClient) (nals : List (List ℕ))
    (timestamp : ℕ) : Type 0 where
  pub packets : Packets
  pub sender : Packetizer
  pub client' : RtpClient
  pub sent :
      packetize_access_unit p (annexb nals) timestamp (some wire) [] ≡ some (true, sender, packets)
  pub read :
      (rest : List Recv)
      → read_h264 alloc (arrivals packets rest) client ≡ some (some (annexb nals), rest, client')
  pub ready : IsReady sender client'
  pub same_timestamp : client'.context.access_unit_timestamp ≡ timestamp
  pub no_loss : client'.context.losses ≡ client.context.losses

handed-IsReady :
    {p : Packetizer} (s : State) (packet : List ℕ)
    → IsSender p
    → InStep p s.0
    → s.1.opened ≡ true
    → IsReady p (client_at (s.0, handed s.1 packet))
unfolding handed
handed-IsReady s packet is_sender in_step opened = record {
  is_sender = is_sender;
  in_step = in_step;
  assembled = record { in_capacity = omega arith; in_limit = omega arith; starts = inl refl };
  opened = opened;
  fresh = refl;
}

fresh-empty :
    (c : Context) (timestamp : ℕ)
    → c.have_access_unit ≡ false
    → (in_access_unit c timestamp).access_unit ≡ []
unfolding in_access_unit
fresh-empty c timestamp e = rw e refl

packetize_access_unit-units :
    (p : Packetizer) (data_ : List ℕ) (timestamp : ℕ)
    → 0 < length data_
    → start_code_length data_ 0 ≡ 4
    → packetize_access_unit p data_ timestamp (some wire) []
      ≡ units (suc (length data_)) p data_ 0 timestamp (some wire) false []
unfolding packetize_access_unit
packetize_access_unit-units p data_ timestamp pos code =
    rw (first, ne→== (length data_) 0 (omega arith), ne→== 0 (length data_) (omega arith)) refl
  where
    first : next_start_code (length data_) data_ 0 ≡ 0
    first =
        next_start_code-finds (length data_) 0 data_ 0 (λ k h. absurd (omega arith)) (omega arith)
          (inr (ground (arith, code)))

read_h264-opened :
    (alloc : ℕ → Bool) (answers : List Recv) (client : RtpClient)
    → client.context.opened ≡ true
    → read_h264 alloc answers client ≡ read_loop alloc answers client
unfolding read_h264
read_h264-opened alloc answers client e = if_true _ _ client.context.opened e
  where
    if_true : (a b : ReadResult) (test : Bool) → test ≡ true → (if test then a else b) ≡ a
    if_true a b true e = refl
    if_true a b false e = absurd (cc)

-- The NAL units of an access unit, each of a single-unit type and without a start code in it, sent
-- by `rtp_h264_packetize_access_unit` over a wire without loss: the sender succeeds, and one call of
-- `rtp_client_read_h264` on its packets hands over exactly the bytes that were sent, with their
-- timestamp and no loss counted, provided that they fit the largest NAL unit, that allocations
-- succeed, and that both ends are ready, which they are again for the next access unit.
pub read_h264-packetize_access_unit :
    (alloc : ℕ → Bool)
    → ((n : ℕ) → alloc n ≡ true)
    → (p : Packetizer) (client : RtpClient) (nal : List ℕ) (nals : List (List ℕ)) (timestamp : ℕ)
    → AreUnits (nal ∷ nals)
    → length (annexb (nal ∷ nals)) ≤ max_nal
    → timestamp < 2 ^ 32
    → IsReady p client
    → Received alloc p client (nal ∷ nals) timestamp
unfolding handed
read_h264-packetize_access_unit alloc allocates p client nal nals timestamp are_units fits ht
      ready =
    let data_ : List ℕ = annexb (nal ∷ nals) in
    let at = unit_at data_ 0 nal nals (omega arith) refl are_units.1 in
    let a =
      units-Arrived alloc allocates timestamp ht data_ (length data_) p 0 nal nals false
        (client.reassembler, client.context) [] are_units
        (omega (arith, few nals, length-append nal (annexb nals))) ready.is_sender ready.in_step
        ready.assembled (fresh-empty client.context timestamp ready.fresh) (omega (arith, fits))
        (omega arith) refl in
    record {
      packets = a.packets;
      sender = a.sender;
      client' = client_at (a.state.0, handed a.state.1 a.final);
      sent = packetize_access_unit-units p data_ timestamp (omega arith) at.length_code ∙ a.same [];
      read = λ rest. read_h264-opened alloc _ client ready.opened ∙ a.read rest;
      ready =
          handed-IsReady a.state a.final a.is_sender a.in_step (a.saved.same_opened ∙ ready.opened);
      same_timestamp = a.saved.same_timestamp;
      no_loss = a.saved.same_losses;
    }
  where
    few : (nals : List (List ℕ)) → length nals ≤ length (annexb nals)
    few [] = omega arith
    few (n ∷ nals) = omega (arith, few nals, length-append n (annexb nals))
