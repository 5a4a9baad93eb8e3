-- ===== src/Protocol/Framing.antt =====
-- A frame that `protocol_send` puts on the wire is read back by `protocol_receive_available`
-- (src/protocol.c), however the bytes are cut up on the way.
use nanokvm_rdp.Prelude.{
  ℕ, zero, suc, ◌+◌, ◌-◌, ◌≤◌, ◌<◌, ◌≡◌, ◌⊎◌, refl, List, [], ◌∷◌, ◌++◌, length, take, drop, leb,
  ◌==◌, if◌then◌else◌, arith, inl, inr, Bool-cases, ap, ◌∙◌, take-length, take-add, take-append,
  drop-append, drop-drop, length-append, length-take, length-drop, le→ltb, ne→==, eq→==, ==_iff,
}
use nanokvm_rdp.Bytes.{write_u16, read_u16, read_u16-write_u16}
use nanokvm_rdp.Protocol.{
  Message, frame, RecvEvent, arrived, recv_interrupted, would_block, recv_failed, partial, Received,
  done, needs, progress, taken, finished, stopped, receive_available, max_payload, version,
}

-- A peer that neither fails nor goes away.
abbrev pub Lives : List RecvEvent → Type 0
Lives [] = Unit {0}
Lives (recv_failed ∷ events) = ⊥
Lives (e ∷ events) = Lives events

-- A peer whose bytes flow: every call hands some over, or is interrupted.
abbrev pub Flows : List RecvEvent → Type 0
Flows [] = Unit {0}
Flows (arrived k ∷ events) = Flows events
Flows (recv_interrupted ∷ events) = Flows events
Flows (would_block ∷ events) = ⊥
Flows (recv_failed ∷ events) = ⊥

abbrev pub chunks : List RecvEvent → ℕ
chunks [] = 0
chunks (arrived k ∷ events) = suc (chunks events)
chunks (e ∷ events) = chunks events

receive-arrived :
    (k : ℕ) (events : List RecvEvent) (reader stream : List ℕ) (n : ℕ)
    → progress reader ≡ needs n
    → 0 < length stream
    → receive_available (arrived k ∷ events) reader stream
      ≡ receive_available events
          (reader ++ take (taken k (n - length reader)) stream)
          (drop (taken k (n - length reader)) stream)
unfolding receive_available
receive-arrived k events reader stream n e h =
    rw (e, receive_available) (rw (ne→== (length stream) 0 (omega arith)) refl)

receive-done :
    (events : List RecvEvent) (reader stream : List ℕ) (message : Message)
    → progress reader ≡ done message
    → receive_available events reader stream ≡ finished message stream
unfolding receive_available
receive-done [] reader stream message e = rw (e, receive_available)
receive-done (arrived k ∷ events) reader stream message e = rw (e, receive_available)
receive-done (recv_interrupted ∷ events) reader stream message e = rw (e, receive_available)
receive-done (would_block ∷ events) reader stream message e = rw (e, receive_available)
receive-done (recv_failed ∷ events) reader stream message e = rw (e, receive_available)

receive-waits :
    (reader stream : List ℕ) (n : ℕ)
    → progress reader ≡ needs n
    → receive_available [] reader stream ≡ stopped partial reader stream
unfolding receive_available
receive-waits reader stream n e = rw (e, receive_available)

receive-would_block :
    (events : List RecvEvent) (reader stream : List ℕ) (n : ℕ)
    → progress reader ≡ needs n
    → receive_available (would_block ∷ events) reader stream ≡ stopped partial reader stream
unfolding receive_available
receive-would_block events reader stream n e = rw (e, receive_available)

receive-interrupted :
    (events : List RecvEvent) (reader stream : List ℕ) (n : ℕ)
    → progress reader ≡ needs n
    → receive_available (recv_interrupted ∷ events) reader stream
      ≡ receive_available events reader stream
unfolding receive_available
receive-interrupted events reader stream n e = rw (e, receive_available)

module _ (type : ℕ) (payload rest : List ℕ) (payload_in : length payload ≤ max_payload) where
  abbrev pub whole : List ℕ
  whole = frame type payload ++ rest

  size-header :
      (bytes : List ℕ)
      → read_u16 (version ∷ type ∷ (write_u16 (length payload) ++ bytes)) 2 ≡ length payload
  unfolding read_u16 write_u16
  size-header bytes = read_u16-write_u16 (length payload) bytes (omega arith)

  -- With the header and `n` bytes of the payload read, what the top of the loop finds.
  progress-header :
      (n : ℕ)
      → n ≤ length payload
      → progress (version ∷ type ∷ (write_u16 (length payload) ++ take n (payload ++ rest))) ≡ (
          if n == length payload
          then done (record { type = type; payload = payload })
          else needs (4 + length payload))
  unfolding progress write_u16
  progress-header n h = elim (Bool-cases (n == length payload)) [
    | inl all ↦
        rw
          (
            size-header (take n (payload ++ rest)),
            all,
            ap (λ k. take k (payload ++ rest)) ((==_iff n (length payload)).0 all),
            take-append payload rest,
            le→ltb max_payload (length payload) payload_in,
            take-length payload,
          )
          (ground arith)
    | inr more ↦
        rw
          (
            size-header (take n (payload ++ rest)),
            more,
            le→ltb max_payload (length payload) payload_in,
          )
          (ground (arith, length-take n (payload ++ rest), length-append payload rest))
  ]

  -- With `n` bytes of the frame read.
  progress-frame :
      (n : ℕ)
      → n ≤ 4 + length payload
      → progress (take n whole) ≡ (
          if n == 4 + length payload
          then done (record { type = type; payload = payload })
          else needs (if leb 4 n then 4 + length payload else 4))
  unfolding progress frame write_u16
  progress-frame zero h = ground arith
  progress-frame (suc zero) h = ground arith
  progress-frame (suc (suc zero)) h = ground arith
  progress-frame (suc (suc (suc zero))) h = ground arith
  progress-frame (suc (suc (suc (suc n)))) h = rw (progress-header n (omega arith)) (ground arith)

  length-whole : length whole ≡ 4 + length payload + length rest
  unfolding frame write_u16
  length-whole = omega (arith, length-append payload rest)

  abbrev at : List RecvEvent → ℕ → Received
  at events n = receive_available events (take n whole) (drop n whole)

  -- How many bytes the loop takes with `n` of them read, where `recv` hands over `k + 1` at most.
  abbrev step_size : ℕ → ℕ → ℕ
  step_size k n = taken k ((if leb 4 n then 4 + length payload else 4) - n)

  length-read : (n : ℕ) → n ≤ 4 + length payload → length (take n whole) ≡ n
  length-read n h = omega (arith, length-take n whole, length-whole)

  needs-frame :
      (n : ℕ)
      → n < 4 + length payload
      → progress (take n whole) ≡ needs (if leb 4 n then 4 + length payload else 4)
  needs-frame n h =
      rw (progress-frame n (omega arith), ne→== n (4 + length payload) (omega arith)) refl

  -- An event that hands over bytes moves the loop on within the frame.
  at-arrived :
      (k : ℕ) (events : List RecvEvent) (n : ℕ)
      → n < 4 + length payload
      → at (arrived k ∷ events) n ≡ at events (n + step_size k n)
  at-arrived k events n h =
      receive-arrived k events (take n whole) (drop n whole) _ (needs-frame n h)
        (omega (arith, length-drop n whole, length-whole))
      ∙ rw (
        length-read n (omega arith),
        take-add n (step_size k n) whole,
        drop-drop n (step_size k n) whole,
      )

  step-inside :
      (k n : ℕ)
      → n < 4 + length payload
      → (n < n + step_size k n) × (n + step_size k n ≤ 4 + length payload)
  step-inside k n h = ground arith

  abbrev pub sent_message : Message
  sent_message = record { type = type; payload = payload }

  length-frame : 4 + length payload ≡ length (frame type payload)
  unfolding frame write_u16
  length-frame = omega arith

  at-whole : (events : List RecvEvent) → at events (4 + length payload) ≡ finished sent_message rest
  at-whole events =
      receive-done events (take (4 + length payload) whole) (drop (4 + length payload) whole)
        sent_message
        (rw (
          progress-frame (4 + length payload) (omega arith),
          eq→== (4 + length payload) (4 + length payload) refl,
        ))
      ∙ ap (finished sent_message)
          (ap (λ k. drop k whole) length-frame ∙ drop-append (frame type payload) rest)

  -- What a call ends with: the message, or a wait with every byte still there.
  abbrev pub InFrame : Received → Type 0
  InFrame out =
      (out ≡ finished sent_message rest)
      ⊎ ((m : ℕ) × (m < 4 + length payload) × (out ≡ stopped partial (take m whole) (drop m whole)))

  read-cases :
      (n : ℕ) → n ≤ 4 + length payload → (n ≡ 4 + length payload) ⊎ (n < 4 + length payload)
  read-cases n h = omega arith

  at-full :
      (events : List RecvEvent) (n : ℕ)
      → n ≡ 4 + length payload
      → at events n ≡ finished sent_message rest
  at-full events n e = ap (at events) e ∙ at-whole events

  at-InFrame :
      (events : List RecvEvent) (n : ℕ)
      → Lives events
      → n ≤ 4 + length payload
      → InFrame (at events n)
  at-InFrame [] n live h = elim (read-cases n h) [
    | inl e ↦ inl (at-full [] n e)
    | inr lt ↦ inr (n, lt, receive-waits (take n whole) (drop n whole) _ (needs-frame n lt))
  ]
  at-InFrame (arrived k ∷ events) n live h = elim (read-cases n h) [
    | inl e ↦ inl (at-full (arrived k ∷ events) n e)
    | inr lt ↦
        rw (at-arrived k events n lt)
          (at-InFrame events (n + step_size k n) live (step-inside k n lt).1)
  ]
  at-InFrame (recv_interrupted ∷ events) n live h = elim (read-cases n h) [
    | inl e ↦ inl (at-full (recv_interrupted ∷ events) n e)
    | inr lt ↦
        rw (receive-interrupted events (take n whole) (drop n whole) _ (needs-frame n lt))
          (at-InFrame events n live h)
  ]
  at-InFrame (would_block ∷ events) n live h = elim (read-cases n h) [
    | inl e ↦ inl (at-full (would_block ∷ events) n e)
    | inr lt ↦
        inr (n, lt, receive-would_block events (take n whole) (drop n whole) _ (needs-frame n lt))
  ]
  at-InFrame (recv_failed ∷ events) n live h = absurd live

  at_complete :
      (events : List RecvEvent) (n : ℕ)
      → Flows events
      → n ≤ 4 + length payload
      → 4 + length payload ≤ n + chunks events
      → at events n ≡ finished sent_message rest
  at_complete [] n flows h enough = at-full [] n (omega arith)
  at_complete (arrived k ∷ events) n flows h enough = elim (read-cases n h) [
    | inl e ↦ at-full (arrived k ∷ events) n e
    | inr lt ↦
        at-arrived k events n lt
        ∙ at_complete events (n + step_size k n) flows (step-inside k n lt).1
            (omega (arith, step-inside k n lt))
  ]
  at_complete (recv_interrupted ∷ events) n flows h enough = elim (read-cases n h) [
    | inl e ↦ at-full (recv_interrupted ∷ events) n e
    | inr lt ↦
        receive-interrupted events (take n whole) (drop n whole) _ (needs-frame n lt)
        ∙ at_complete events n flows h enough
  ]
  at_complete (would_block ∷ events) n flows h enough = absurd flows
  at_complete (recv_failed ∷ events) n flows h enough = absurd flows

  -- With any `n` bytes of a frame in the reader and the rest of it at the front of the stream, and a
  -- peer that does not fail, the call returns the frame's message with the reader empty and exactly
  -- what follows the frame left in the stream, or it waits with some `m` bytes of the frame in the
  -- reader and the rest still in the stream. It never refuses the frame.
  pub receive_available-frame :
      (events : List RecvEvent) (n : ℕ)
      → Lives events
      → n ≤ 4 + length payload
      → InFrame (receive_available events (take n whole) (drop n whole))
  receive_available-frame events n live h = at-InFrame events n live h

  -- From an empty reader, with at least as many arrivals as the frame has bytes and no failure and
  -- no wait among the events, the call returns the message and leaves what follows the frame,
  -- however the arrivals are cut up and interrupted.
  pub receive_available_complete :
      (events : List RecvEvent)
      → Flows events
      → 4 + length payload ≤ chunks events
      → receive_available events [] whole ≡ finished sent_message rest
  receive_available_complete events flows enough =
      at_complete events 0 flows (omega arith) (omega arith)
