-- ===== src/Rtp/Bounds.antt =====
-- Memory bounds and termination of `rtp_h264_reassembler_push` (src/rtp_h264.c), on every packet.
use native.Mathlib.Nat.{pow-suc}
use nanokvm_rdp.Prelude.{
  ℕ, zero, suc, ◌+◌, ◌-◌, ◌*◌, ◌/◌, ◌^◌, ◌<◌, ◌≤◌, ◌≡◌, ◌⊎◌, Bool, true, false, not, List, [], ◌∷◌,
  get_or, length, drop, take, ltb, leb, ◌==◌, if◌then◌else◌, bit_and, arith, Option, some, ap,
  Bool-cases, ◌&&◌, inl, inr, length-drop, length-append, mul_u64, ◌||◌,
}
use nanokvm_rdp.Bytes.{read_u16}
use nanokvm_rdp.Rtp.Packetizer.{header_size, max_nal}
use nanokvm_rdp.Rtp.Reassembler.{
  Reassembler, Callbacks, grow, append, note_sequence, started, call_nal, deliver, aggregate,
  continue_fragment, push_fragment, push_payload, push,
}

-- The buffer never holds more than it has room for, nor more than the largest NAL unit.
pub record IsBounded (r : Reassembler) : Type 0 where
  pub in_capacity : length r.buffer ≤ r.capacity
  pub in_nal : length r.buffer ≤ max_nal
  pub sane : (r.capacity ≡ 0) ⊎ ((2048 ≤ r.capacity) × (r.capacity ≤ 2 * max_nal))

-- Doubling reaches what is needed, without wrapping.
grow-reaches :
    (fuel capacity needed : ℕ)
    → needed ≤ max_nal
    → 2048 ≤ capacity
    → capacity ≤ 2 * max_nal
    → needed ≤ capacity * 2 ^ fuel
    → let c = grow fuel capacity needed in (needed ≤ c) × (2048 ≤ c) × (c ≤ 2 * max_nal)
unfolding grow
grow-reaches zero capacity needed hn lo hi enough = omega arith
grow-reaches (suc fuel) capacity needed hn lo hi enough = elim (Bool-cases (ltb capacity needed)) [
  | inl more ↦
      rw (more, grow)
        (grow-reaches fuel (mul_u64 capacity 2) needed hn (ground arith) (ground arith)
          (doubled (ground arith)))
  | inr done ↦ rw (done, grow) (ground arith)
]
  where
    doubled : capacity < max_nal → needed ≤ mul_u64 capacity 2 * 2 ^ fuel
    doubled h =
        let twice : mul_u64 capacity 2 ≡ capacity * 2 = omega arith in
        rw twice (omega (arith, enough, ap (λ (t : ℕ). capacity * t) (pow-suc 2 fuel)))

append-IsBounded :
    (alloc : ℕ → Bool) {r : Reassembler} (bytes : List ℕ)
    → IsBounded r
    → IsBounded (append alloc r bytes).1
unfolding append
append-IsBounded alloc {r} bytes v = ground (
  arith,
  length-append r.buffer bytes,
  grow-reaches 64 (if r.capacity == 0 then 2048 else r.capacity) (length r.buffer + length bytes),
)

module _ {S : Type 0} (alloc : ℕ → Bool) (cbs : Callbacks S) where
  continue_fragment-IsBounded :
      {r : Reassembler} (payload : List ℕ) (timestamp : ℕ) (marker : Bool) (s : S)
      → IsBounded r
      → IsBounded (continue_fragment alloc cbs r payload timestamp marker s).1
  unfolding continue_fragment deliver
  continue_fragment-IsBounded {r} payload timestamp marker s v =
      ground (arith, append-IsBounded alloc (drop 2 payload) v)

  push_fragment-IsBounded :
      {r : Reassembler} (payload : List ℕ) (timestamp : ℕ) (marker : Bool) (s : S)
      → IsBounded r
      → IsBounded (push_fragment alloc cbs r payload timestamp marker s).1
  unfolding push_fragment
  push_fragment-IsBounded {r} payload timestamp marker s v =
      elim (Bool-cases (not (bit_and (get_or payload 1 0) 0x80 == 0))) [
        | inl first ↦ rw first (elim (Bool-cases begun.0) [
          | inl ok ↦ rw ok (continue_fragment-IsBounded payload timestamp marker s begun-IsBounded)
          | inr out ↦ rw out begun-IsBounded
        ])
        | inr later ↦ rw later (continue_fragment-IsBounded payload timestamp marker s v)
      ]
    where
      fresh : Reassembler
      fresh = started r payload timestamp

      begun : Bool × Reassembler
      begun = append alloc fresh (fresh.nal_header ∷ [])

      fresh-IsBounded : IsBounded r → IsBounded fresh
      fresh-IsBounded _ = omega arith

      begun-IsBounded : IsBounded begun.1
      begun-IsBounded = append-IsBounded alloc (fresh.nal_header ∷ []) (fresh-IsBounded v)

  -- Each round of the STAP-A loop moves on by three bytes at least.
  aggregate-ends :
      (fuel : ℕ) (payload : List ℕ) (offset timestamp : ℕ) (marker delivered : Bool) (s : S)
      → offset ≤ length payload
      → length payload < offset + fuel
      → (out : Bool × S) × (aggregate fuel cbs payload offset timestamp marker delivered s
          ≡ some out)
  unfolding aggregate
  aggregate-ends zero payload offset timestamp marker delivered s inside enough =
      absurd (omega arith)
  aggregate-ends (suc fuel) payload offset timestamp marker delivered s inside enough =
      elim (Bool-cases (leb start (length payload))) [
        | inr over ↦ ((delivered && offset == length payload, s), rw over)
        | inl room ↦ elim (Bool-cases (n == 0 || ltb (length payload - start) n)) [
          | inl bad ↦ ((false, s), rw (room, bad))
          | inr good ↦ elim (Bool-cases result.0) [
            | inr refused ↦ ((false, result.1), rw (room, good, refused))
            | inl ok ↦
                rw (room, good, ok)
                  (aggregate-ends fuel payload (start + n) timestamp marker true result.1
                    (ground arith) (ground arith))
          ]
        ]
      ]
    where
      n : ℕ
      n = read_u16 payload offset

      start : ℕ
      start = offset + 2

      result : Bool × S
      result =
          call_nal cbs s (take n (drop start payload)) timestamp
            (marker && start + n == length payload)

  note_sequence-IsBounded :
      {r : Reassembler} (sequence : ℕ) → IsBounded r → IsBounded (note_sequence r sequence)
  unfolding note_sequence
  note_sequence-IsBounded {r} sequence v = ground arith

  abbrev Ends : Option (Bool × Reassembler × S) → Type 0
  Ends result = (out : Bool × Reassembler × S) × (result ≡ some out) × IsBounded out.1

  push_payload-Ends :
      {r : Reassembler} (payload : List ℕ) (timestamp : ℕ) (marker : Bool) (s : S)
      → IsBounded r
      → 0 < length payload
      → Ends (push_payload alloc cbs r payload timestamp marker s)
  unfolding push_payload
  push_payload-Ends {r} payload timestamp marker s v some_bytes =
      elim (Bool-cases (leb 1 type && leb type 23)) [
        | inl single ↦ (
          (
            (call_nal cbs s payload timestamp marker).0,
            r,
            (call_nal cbs s payload timestamp marker).1,
          ),
          rw single,
          v,
        )
        | inr other ↦ elim (Bool-cases (type == 24)) [
          | inl stap ↦ let ((ok, s'), e) = loop in ((ok, r, s'), rw (other, stap, e), v)
          | inr fu ↦ elim (Bool-cases (not (type == 28) || ltb (length payload) 3)) [
            | inl skipped ↦ ((true, r, s), rw (other, fu, skipped), v)
            | inr taken ↦ (
              push_fragment alloc cbs r payload timestamp marker s,
              rw (other, fu, taken),
              push_fragment-IsBounded payload timestamp marker s v,
            )
          ]
        ]
      ]
    where
      type : ℕ
      type = bit_and (get_or payload 0 0) 0x1f

      loop :
          (out : Bool × S) × (aggregate (length payload) cbs payload 1 timestamp marker false s
            ≡ some out)
      loop =
          aggregate-ends (length payload) payload 1 timestamp marker false s some_bytes
            (omega arith)

  -- On every packet whatever the reassembler comes to its end, and its buffer stays within its
  -- capacity and the largest NAL unit, whichever allocations succeed.
  pub push-IsBounded :
      {r : Reassembler} (bytes : List ℕ) (s : S)
      → IsBounded r
      → (out : Bool × Reassembler × S) × (push alloc cbs r bytes s ≡ some out) × IsBounded out.1
  unfolding push
  push-IsBounded {r} bytes s v =
      elim (Bool-cases (leb (length bytes) header_size || not (get_or bytes 0 0 / 2 ^ 6 == 2))) [
        | inl refused ↦ ((false, r, s), rw refused, v)
        | inr taken ↦ rw taken (
            push_payload-Ends (drop header_size bytes) _ _ _
              (note_sequence-IsBounded (read_u16 bytes 2) v)
              (ground (arith, length-drop header_size bytes)))
      ]
