-- ===== src/Rtp/Context.antt =====
-- What the callbacks keep of their context, `rtp_h264_reassembler_push` of src/rtp_h264.c keeps.
use nanokvm_rdp.Prelude.{
  ℕ, zero, suc, ◌+◌, ◌-◌, ◌^◌, ◌/◌, Bool, true, false, ◌&&◌, ◌||◌, not, List, get_or, length, drop,
  take, ltb, leb, ◌==◌, bit_and, Option, none, some, Bool-cases, Option-cases, inl, ◌∷◌, [], inr,
}
use nanokvm_rdp.Bytes.{read_u16}
use nanokvm_rdp.Rtp.Packetizer.{header_size}
use nanokvm_rdp.Rtp.Reassembler.{
  Reassembler, Callbacks, gap, append, started, call_nal, call_loss, deliver, aggregate,
  continue_fragment, push_fragment, push_payload, push,
}

-- Both callbacks keep the predicate.
pub record Keeps {S : Type 0} (P : S → Type 0) (cbs : Callbacks S) : Type 0 where
  pub nal :
      (s : S) (bytes : List ℕ) (timestamp : ℕ) (marker : Bool)
      → P s
      → P (call_nal cbs s bytes timestamp marker).1
  pub loss : (s : S) → P s → P (call_loss cbs s)

-- The context that a result holds, if there is one.
abbrev pub Holds : {A : Type 0} {S : Type 0} → (S → Type 0) → Option (Bool × A × S) → Type 0
Holds P none = Unit
Holds P (some (ok, a, s)) = P s

module _ {S : Type 0} (P : S → Type 0) (alloc : ℕ → Bool) (cbs : Callbacks S)
    (keeps : Keeps P cbs) where
  abbrev Ends : Option (Bool × S) → Type 0
  Ends none = Unit
  Ends (some (ok, s)) = P s

  aggregate-Holds :
      (fuel : ℕ) (payload : List ℕ) (offset timestamp : ℕ) (marker delivered : Bool) (s : S)
      → P s
      → Ends (aggregate fuel cbs payload offset timestamp marker delivered s)
  unfolding aggregate
  aggregate-Holds zero payload offset timestamp marker delivered s h = tt
  aggregate-Holds (suc fuel) payload offset timestamp marker delivered s h =
      elim (Bool-cases (leb start (length payload))) [
        | inr over ↦ rw over h
        | inl room ↦ elim (Bool-cases (n == 0 || ltb (length payload - start) n)) [
          | inl bad ↦ rw (room, bad) h
          | inr good ↦ elim (Bool-cases result.0) [
            | inr refused ↦ rw (room, good, refused) kept
            | inl ok ↦
                rw (room, good, ok)
                  (aggregate-Holds fuel payload (start + n) timestamp marker true result.1 kept)
          ]
        ]
      ]
    where
      n : ℕ
      n = read_u16 payload offset

      start : ℕ
      start = offset + 2

      result : Bool × S
      result =
          call_nal cbs s (take n (drop start payload)) timestamp
            (marker && start + n == length payload)

      kept : P result.1
      kept = keeps.nal s _ _ _ h

  continue_fragment-keeps :
      (r : Reassembler) (payload : List ℕ) (timestamp : ℕ) (marker : Bool) (s : S)
      → P s
      → P (continue_fragment alloc cbs r payload timestamp marker s).2
  unfolding continue_fragment deliver
  continue_fragment-keeps r payload timestamp marker s h =
      elim (Bool-cases (not r.assembling || not (timestamp == r.timestamp))) [
        | inl other ↦ rw other h
        | inr same ↦ elim (Bool-cases appended.0) [
          | inr full ↦ rw (same, full) h
          | inl ok ↦ elim (Bool-cases (not (bit_and (get_or payload 1 0) 0x40 == 0))) [
            | inr more ↦ rw (same, ok, more) h
            | inl end ↦
                rw (same, ok, end) (keeps.nal s appended.1.buffer appended.1.timestamp marker h)
          ]
        ]
      ]
    where
      appended : Bool × Reassembler
      appended = append alloc r (drop 2 payload)

  push_fragment-keeps :
      (r : Reassembler) (payload : List ℕ) (timestamp : ℕ) (marker : Bool) (s : S)
      → P s
      → P (push_fragment alloc cbs r payload timestamp marker s).2
  unfolding push_fragment
  push_fragment-keeps r payload timestamp marker s h =
      elim (Bool-cases (not (bit_and (get_or payload 1 0) 0x80 == 0))) [
        | inr later ↦ rw later (continue_fragment-keeps r payload timestamp marker s h)
        | inl first ↦ elim (Bool-cases begun.0) [
          | inr full ↦ rw (first, full) h
          | inl ok ↦ rw (first, ok) (continue_fragment-keeps begun.1 payload timestamp marker s h)
        ]
      ]
    where
      fresh : Reassembler
      fresh = started r payload timestamp

      begun : Bool × Reassembler
      begun = append alloc fresh (fresh.nal_header ∷ [])

  push_payload-Holds :
      (r : Reassembler) (payload : List ℕ) (timestamp : ℕ) (marker : Bool) (s : S)
      → P s
      → Holds P (push_payload alloc cbs r payload timestamp marker s)
  unfolding push_payload
  push_payload-Holds r payload timestamp marker s h =
      elim (Bool-cases (leb 1 type && leb type 23)) [
        | inl single ↦ rw single (keeps.nal s payload timestamp marker h)
        | inr other ↦ elim (Bool-cases (type == 24)) [
          | inl stap ↦
              rw (other, stap)
                (elim (Option-cases loop) [
                  | inl e ↦ rw e tt
                  | inr (out, e) ↦ rw e (
                      rw e at
                        (aggregate-Holds (length payload) payload 1 timestamp marker false s h))
                ])
          | inr fu ↦ elim (Bool-cases (not (type == 28) || ltb (length payload) 3)) [
            | inl skipped ↦ rw (other, fu, skipped) h
            | inr taken ↦ rw (other, fu, taken) (push_fragment-keeps r payload timestamp marker s h)
          ]
        ]
      ]
    where
      type : ℕ
      type = bit_and (get_or payload 0 0) 0x1f

      loop : Option (Bool × S)
      loop = aggregate (length payload) cbs payload 1 timestamp marker false s

  pub push-Holds :
      (r : Reassembler) (bytes : List ℕ) (s : S) → P s → Holds P (push alloc cbs r bytes s)
  unfolding push
  push-Holds r bytes s h =
      elim (Bool-cases (leb (length bytes) header_size || not (get_or bytes 0 0 / 2 ^ 6 == 2))) [
        | inl refused ↦ rw refused h
        | inr taken ↦ rw taken (elim (Bool-cases (gap r (read_u16 bytes 2))) [
          | inl lost ↦ rw lost (push_payload-Holds _ _ _ _ _ (keeps.loss s h))
          | inr next ↦ rw next (push_payload-Holds _ _ _ _ _ h)
        ])
      ]
