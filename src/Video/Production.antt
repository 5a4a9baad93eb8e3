-- ===== src/Video/Production.antt =====
-- The operations of src/video_source.c on the RTP client. The client's socket stands beside it, as what
-- its system calls will answer, and `C` is the context of the requests for an IDR.
use mathlib.Core.Option.{some_inj}
use nanokvm_rdp.Prelude.{
  ℕ, ◌<◌, ◌≡◌, Bool, List, Option, none, some, length, if◌then◌else◌, arith, Option-cases, inl, inr,
  ap, sym,
}
use nanokvm_rdp.Client.{RtpClient, closed_client, Recv, OpenAnswers, open_client, read_h264}
use nanokvm_rdp.Client.Bounds.{IsValid, read_h264-Hands}
use nanokvm_rdp.Video.{Frame, Ops}
use nanokvm_rdp.Video.Reading.{Ending}

pub record Stream : Type 0 where
  pub client : RtpClient
  pub opens : OpenAnswers
  pub answers : List Recv

module _ {C : Type 0} (alloc : ℕ → Bool) where
  unfoldable pub production_open : Stream × C → ℕ → ℕ → Bool × ℕ × (Stream × C)
  production_open (t, c) port bytes =
      let (ok, client) = open_client t.opens t.client port in
      (
        ok,
        if ok then client.context.receive_buffer_bytes else bytes,
        (record t { client = client }, c),
      )

  -- The read always comes to its end, so that the case of no result does not occur.
  unfoldable pub production_read : Stream × C → Option Frame × (Stream × C)
  production_read (t, c) = elim (read_h264 alloc t.answers t.client) [
    | none ↦ (none, (t, c))
    | some (unit, rest, client) ↦ (
      elim unit [
        | none ↦ none
        | some bytes ↦ some (record {
          data_ = bytes;
          timestamp = client.context.access_unit_timestamp;
          ssrc = client.context.access_unit_ssrc;
          losses = client.context.losses;
        })
      ],
      (record t { client = client; answers = rest }, c),
    )
  ]

  unfoldable pub production_close : Stream × C → Stream × C
  production_close (t, c) = (record t { client = closed_client }, c)

  module _ (request : Option (C → ℕ → Bool × C)) where
    abbrev pub requests : Option (Stream × C → ℕ → Bool × (Stream × C))
    requests = elim request [
      | none ↦ none
      | some f ↦ some λ (t, c) epoch. let (ok, c') = f c epoch in (ok, (t, c'))
    ]

    abbrev pub production_rtp_ops : Ops (Stream × C)
    production_rtp_ops = record {
      open_port = production_open;
      read = production_read;
      close = production_close;
      request = requests;
    }

    pub read-Hands :
        (t : Stream) (c : C)
        → IsValid t.client
        → let out = production_read (t, c) in
          IsValid out.1.0.client
          × ((frame : Frame) → out.0 ≡ some frame → length out.1.0.answers < length t.answers)
    unfolding production_read
    read-Hands t c v =
        let h = read_h264-Hands alloc t.answers v in
        rw (h.ends, production_read)
          (
            h.is_valid,
            λ frame e. elim h.used [
              | inl nothing ↦ absurd (cc (rw nothing at e))
              | inr less ↦ less
            ],
          )

    pub requests-keeps :
        (f : Stream × C → ℕ → Bool × (Stream × C))
        → requests ≡ some f
        → (t : Stream) (c : C) (epoch : ℕ) → (f (t, c) epoch).1.0 ≡ t
    requests-keeps f e t c epoch = elim (Option-cases request) [
      | inl missing ↦ absurd (cc (rw missing at e))
      | inr (g, given) ↦ sym (
          ap (λ (k : Stream × C → ℕ → Bool × (Stream × C)). (k (t, c) epoch).1.0)
            (some_inj.0 (rw given at e)))
    ]

    -- A valid client is one that the source can read from: each unit uses up a datagram.
    unfoldable pub production_ending : Ending production_rtp_ops
    production_ending = record {
      Valid = λ (s : Stream × C). IsValid s.0.client;
      left = λ (s : Stream × C). length s.0.answers;
      read_keeps = λ s v. (read-Hands s.0 s.1 v).0;
      read_uses = λ s frame v e. (read-Hands s.0 s.1 v).1 frame e;
      request_keeps = λ f e s epoch v.
          let same = requests-keeps f e s.0 s.1 epoch in
          (rw same v, omega (arith, ap (λ (t : Stream). length t.answers) same));
    }
