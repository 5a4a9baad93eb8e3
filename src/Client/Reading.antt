-- ===== src/Client/Reading.antt =====
-- The packets of a NAL unit at `rtp_client_read_h264` (src/rtp_client.c).
use nanokvm_rdp.Prelude.{
  ℕ, zero, suc, ◌<◌, ◌≤◌, ◌≡◌, refl, Bool, true, false, List, [], ◌∷◌, ◌++◌, Option, none, some,
  length, take, arith, ne→==, ap, ◌∙◌, Option-cases, inl, inr,
}
use nanokvm_rdp.Rtp.Reassembler.{Reassembler, push}
use nanokvm_rdp.Rtp.Wire.{Packets, IsPacket, Sent, last, next}
use nanokvm_rdp.Client.{
  Context, RtpClient, Recv, datagram, callbacks, handed, read_packet, read_loop,
}

-- The packets arrive as datagrams, in order and without loss, in front of other answers.
abbrev pub arrivals : Packets → List Recv → List Recv
arrivals [] rest = rest
arrivals (packet ∷ packets) rest = datagram packet ∷ arrivals packets rest

pub arrivals-append :
    (before after : Packets) (rest : List Recv)
    → arrivals (before ++ after) rest ≡ arrivals before (arrivals after rest)
arrivals-append [] after rest = refl
arrivals-append (packet ∷ before) after rest =
    ap (λ (l : List Recv). datagram packet ∷ l) (arrivals-append before after rest)

take_all : (n : ℕ) (xs : List ℕ) → length xs ≤ n → take n xs ≡ xs
take_all zero [] h = refl
take_all zero (x ∷ xs) h = absurd (omega arith)
take_all (suc n) [] h = refl
take_all (suc n) (x ∷ xs) h = ap (λ (l : List ℕ). x ∷ l) (take_all n xs (omega arith))

abbrev pub State : Type 0
State = Reassembler × Context

abbrev pub client_at : State → RtpClient
client_at s = record { context = s.1; reassembler = s.0 }

module _ (alloc : ℕ → Bool) where
  -- The receiver's side of `channel`.
  abbrev pub pushed : State → List ℕ → Bool × State
  pushed (r, c) bytes = elim (push alloc (callbacks alloc) r bytes c) [
    | none ↦ (false, (r, c))
    | some (ok, r', c') ↦ (ok, (r', c'))
  ]

  pushed-push :
      (s : State) (bytes : List ℕ) (s' : State)
      → pushed s bytes ≡ (true, s')
      → push alloc (callbacks alloc) s.0 bytes s.1 ≡ some (true, s'.0, s'.1)
  pushed-push (r, c) bytes s' e = elim (Option-cases (push alloc (callbacks alloc) r bytes c)) [
    | inl stuck ↦ absurd (cc (rw (stuck, pushed) at e))
    | inr (out, done) ↦
        done ∙ ap (λ (t : Bool × State). some (t.0, t.1.0, t.1.1)) (rw (done, pushed) at e)
  ]

  read_loop-packet :
      (s : State) (bytes : List ℕ) (rest : List Recv) (out : Option (List ℕ) × RtpClient)
      → length bytes ≤ 1200
      → 0 < length bytes
      → read_packet alloc (client_at s) bytes ≡ some out
      → read_loop alloc (datagram bytes ∷ rest) (client_at s) ≡ elim out.0 [
        | none ↦ read_loop alloc rest out.1
        | some data_ ↦ some (some data_, rest, out.1)
      ]
  unfolding read_loop
  read_loop-packet s bytes rest out fits pos e =
      rw (ne→== (length bytes) 0 (omega arith), read_loop, take_all 1500 bytes (omega arith), e)
        refl

  -- A packet without the marker is taken in.
  read_loop-next :
      (s s' : State) (bytes : List ℕ) (rest : List Recv)
      → pushed s bytes ≡ (true, s')
      → IsPacket bytes false
      → read_loop alloc (datagram bytes ∷ rest) (client_at s) ≡ read_loop alloc rest (client_at s')
  unfolding read_packet
  read_loop-next s s' bytes rest e h =
      read_loop-packet s bytes rest (none, client_at s') h.fits h.some_bytes
        (rw (pushed-push s bytes s' e, read_packet, h.marked) refl)

  -- A packet with the marker hands the access unit over.
  read_loop-last :
      (s s' : State) (bytes : List ℕ) (rest : List Recv)
      → pushed s bytes ≡ (true, s')
      → IsPacket bytes true
      → 0 < length s'.1.access_unit
      → read_loop alloc (datagram bytes ∷ rest) (client_at s)
        ≡ some (some s'.1.access_unit, rest, client_at (s'.0, handed s'.1 bytes))
  unfolding read_packet
  read_loop-last s s' bytes rest e h pos =
      read_loop-packet s bytes rest (some s'.1.access_unit, client_at (s'.0, handed s'.1 bytes))
        h.fits h.some_bytes
        (rw
          (
            pushed-push s bytes s' e,
            read_packet,
            h.marked,
            ne→== (length s'.1.access_unit) 0 (omega arith),
          )
          refl)

  pub Sent-next :
      {s s' : State} {packets : Packets} (rest : List Recv)
      → Sent pushed false s packets s'
      → read_loop alloc (arrivals packets rest) (client_at s) ≡ read_loop alloc rest (client_at s')
  Sent-next rest (last bytes e h) = read_loop-next _ _ bytes rest e h
  Sent-next {s} {s'} rest (next {t = t} {packets = packets} bytes e h sent) =
      read_loop-next _ _ bytes (arrivals packets rest) e h ∙ Sent-next rest sent

  -- The access unit is handed over in exchange for a client that waits for the next one.
  abbrev pub Hands : State → Packets → State → Type 0
  Hands s packets s' =
      (bytes : List ℕ) × ((rest : List Recv)
        → read_loop alloc (arrivals packets rest) (client_at s)
          ≡ some (some s'.1.access_unit, rest, client_at (s'.0, handed s'.1 bytes)))

  pub Sent-last :
      {s s' : State} {packets : Packets}
      → 0 < length s'.1.access_unit
      → Sent pushed true s packets s'
      → Hands s packets s'
  Sent-last pos (last bytes e h) = (bytes, λ rest. read_loop-last _ _ bytes rest e h pos)
  Sent-last {s} {s'} pos (next {t = t} {packets = packets} bytes e h sent) =
      let (final, hands) = Sent-last pos sent in
      (final, λ rest. read_loop-next _ _ bytes (arrivals packets rest) e h ∙ hands rest)
