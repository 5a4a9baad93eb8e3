-- ===== src/Protocol/Sending.antt =====
-- What `protocol_send` (src/protocol.c) leaves on the wire, however `write` answers.
use nanokvm_rdp.Prelude.{
  ℕ, suc, ◌+◌, ◌≤◌, ◌<◌, ◌≡◌, ◌⊎◌, refl, Bool, true, false, List, [], ◌∷◌, ◌++◌, Option, none, some,
  length, take, drop, arith, inl, inr, le→ltb, take-append-drop, length-drop, take-add,
}
use nanokvm_rdp.Protocol.{
  WriteEvent, wrote, write_interrupted, write_failed, write_all, frame, Sent, protocol_send,
  max_payload,
}

-- All of `xs` is out and the result says so, or some of it is and the result does not.
abbrev Wrote : List ℕ → Option Bool × List ℕ → Type 0
Wrote xs out =
    (out ≡ (some true, xs))
    ⊎ ((n : ℕ) × (n < length xs) × ((out ≡ (none, take n xs)) ⊎ (out ≡ (some false, take n xs))))

Wrote-cons :
    (x k : ℕ) (xs : List ℕ) (out : Option Bool × List ℕ)
    → Wrote (drop k xs) out
    → Wrote (x ∷ xs) (out.0, x ∷ (take k xs ++ out.1))
Wrote-cons x k xs out (inl all) = inl (rw (all, take-append-drop k xs))
Wrote-cons x k xs out (inr (n, h, inl wait)) =
    inr (suc (k + n), omega (arith, length-drop k xs), inl (rw (wait, take-add k n xs)))
Wrote-cons x k xs out (inr (n, h, inr failed)) =
    inr (suc (k + n), omega (arith, length-drop k xs), inr (rw (failed, take-add k n xs)))

write_all-Wrote : (events : List WriteEvent) (xs : List ℕ) → Wrote xs (write_all events xs)
unfolding write_all
write_all-Wrote [] [] = inl refl
write_all-Wrote (e ∷ events) [] = inl refl
write_all-Wrote [] (x ∷ xs) = inr (0, omega arith, inl refl)
write_all-Wrote (wrote k ∷ events) (x ∷ xs) =
    Wrote-cons x k xs (write_all events (drop k xs)) (write_all-Wrote events (drop k xs))
write_all-Wrote (write_interrupted ∷ events) (x ∷ xs) = write_all-Wrote events (x ∷ xs)
write_all-Wrote (write_failed ∷ events) (x ∷ xs) = inr (0, omega arith, inr refl)

abbrev pub sent : Option Bool → List ℕ → Bool → Sent
sent result bytes shut_down = record { result = result; bytes = bytes; shut_down = shut_down }

-- A payload that fits is sent in one of three ways: the whole frame is out and the call returns
-- true; only the first `n` bytes of it are out, the call returns false and the socket is shut down;
-- or only those are out and the call has not returned.
pub protocol_send-frame :
    (events : List WriteEvent) (type : ℕ) (payload : List ℕ)
    → length payload ≤ max_payload
    → (protocol_send events type payload ≡ sent (some true) (frame type payload) false)
      ⊎ ((n : ℕ) × (n < length (frame type payload))
          × ((protocol_send events type payload ≡ sent none (take n (frame type payload)) false)
              ⊎ (protocol_send events type payload
                  ≡ sent (some false) (take n (frame type payload)) true)))
unfolding protocol_send
protocol_send-frame events type payload h =
    rw (le→ltb max_payload (length payload) h) (elim (write_all-Wrote events (frame type payload)) [
      | inl all ↦ inl (rw all)
      | inr (n, lt, inl wait) ↦ inr (n, lt, inl (rw wait))
      | inr (n, lt, inr failed) ↦ inr (n, lt, inr (rw failed))
    ])

-- A peer that takes bytes at every call, or is interrupted.
abbrev pub Takes : List WriteEvent → Type 0
Takes [] = Unit {0}
Takes (wrote k ∷ events) = Takes events
Takes (write_interrupted ∷ events) = Takes events
Takes (write_failed ∷ events) = ⊥

abbrev pub pieces : List WriteEvent → ℕ
pieces [] = 0
pieces (wrote k ∷ events) = suc (pieces events)
pieces (e ∷ events) = pieces events

write_all-Takes :
    (events : List WriteEvent) (xs : List ℕ)
    → Takes events
    → length xs ≤ pieces events
    → write_all events xs ≡ (some true, xs)
unfolding write_all
write_all-Takes [] [] t h = refl
write_all-Takes (e ∷ events) [] t h = refl
write_all-Takes [] (x ∷ xs) t h = absurd (omega arith)
write_all-Takes (wrote k ∷ events) (x ∷ xs) t h =
    rw
      (
        write_all-Takes events (drop k xs) t (omega (arith, length-drop k xs)),
        take-append-drop k xs,
      )
      refl
write_all-Takes (write_interrupted ∷ events) (x ∷ xs) t h = write_all-Takes events (x ∷ xs) t h
write_all-Takes (write_failed ∷ events) (x ∷ xs) t h = absurd t

-- With no failure, and as many calls that take bytes as the frame has, a payload that fits is sent
-- whole: the call returns true and the frame is on the wire, in whatever pieces it was taken.
pub protocol_send-Takes :
    (events : List WriteEvent) (type : ℕ) (payload : List ℕ)
    → length payload ≤ max_payload
    → Takes events
    → length (frame type payload) ≤ pieces events
    → protocol_send events type payload ≡ sent (some true) (frame type payload) false
unfolding protocol_send
protocol_send-Takes events type payload h t enough =
    rw (le→ltb max_payload (length payload) h, write_all-Takes events (frame type payload) t enough)
      refl
