-- ===== src/Video.antt =====
-- The video source of src/video_source.c and src/video_source.h: it opens the stream, asks for an IDR,
-- and holds back what a decoder cannot use yet.
-- The operations on the stream and the request for an IDR are an interface, with the contexts of both
-- in one state `S`; a source is its fields without them. A pointer to a source is valid, and an access
-- unit that is freed is left out.
pub mod History
pub mod Gate
pub mod Reading
pub mod Production
use nanokvm_rdp.Prelude.{
  ℕ, zero, suc, ◌^◌, Bool, true, false, ◌&&◌, ◌||◌, not, List, Option, none, some, ◌==◌,
  if◌then◌else◌, add_u64, bit_and,
}
use nanokvm_rdp.H264.Cache.{nal_type_mask}

-- What an operation `read` writes through its pointers.
pub record Frame : Type 0 where
  pub data_ : List ℕ
  pub timestamp : ℕ
  pub ssrc : ℕ
  pub losses : ℕ

-- `VideoSourceRtpOps` and the callback of `VideoSourceConfig`. `open_port` is given the field that it
-- may write the size of the receive buffer to.
pub record Ops (S : Type 0) : Type 0 where
  pub open_port : S → ℕ → ℕ → Bool × ℕ × S
  pub read : S → Option Frame × S
  pub close : S → S
  pub request : Option (S → ℕ → Bool × S)

pub record VideoSource : Type 0 where
  pub epoch : ℕ
  pub observed_losses : ℕ
  pub receive_buffer_bytes : ℕ
  pub awaiting_idr : Bool
  pub have_sps : Bool
  pub have_pps : Bool
  pub pending_packet_loss : Bool
  pub pending_idr_requested : Bool
  pub opened : Bool

pub record AccessUnit : Type 0 where
  pub frame : Frame
  pub nal_types : ℕ
  pub epoch : ℕ
  pub packet_loss : Bool
  pub idr_requested : Bool

-- `calloc`.
abbrev pub new_source : VideoSource
new_source = record {
  epoch = 0;
  observed_losses = 0;
  receive_buffer_bytes = 0;
  awaiting_idr = false;
  have_sps = false;
  have_pps = false;
  pending_packet_loss = false;
  pending_idr_requested = false;
  opened = false;
}

-- The choice of the operations in `video_source_create`, where `given` may lack some of its own.
pub record GivenOps (S : Type 0) : Type 0 where
  pub open_port : Option (S → ℕ → ℕ → Bool × ℕ × S)
  pub read : Option (S → Option Frame × S)
  pub close : Option (S → S)

abbrev pub has_type : ℕ → ℕ → Bool
has_type types type = not (bit_and types (2 ^ type) == 0)

unfoldable pub note_types : VideoSource → ℕ → VideoSource
note_types source types =
    let sps = source.have_sps || has_type types 7 in
    let pps = source.have_pps || has_type types 8 in
    let decodes = has_type types 5 && (sps && pps) in
    record source {
      have_sps = sps;
      have_pps = pps;
      awaiting_idr = if decodes then false else source.awaiting_idr;
    }

module _ {S : Type 0} where
  unfoldable pub create :
      Bool → Ops S → Option (GivenOps S) → Option (S → ℕ → Bool × S) → Option (VideoSource × Ops S)
  create allocated production given request =
      let ops : Option (Ops S) = elim given [
        | none ↦ some (record production { request = request })
        | some g ↦ elim g.open_port [
          | none ↦ none
          | some o ↦ elim g.read [
            | none ↦ none
            | some r ↦ elim g.close [
              | none ↦ none
              | some c ↦ some (record { open_port = o; read = r; close = c; request = request })
            ]
          ]
        ]
      ] in
      if allocated then elim ops [ none ↦ none | some chosen ↦ some (new_source, chosen) ] else none

  module _ (ops : Ops S) where
    unfoldable pub request_idr : VideoSource → S → Bool × S
    request_idr source s = elim ops.request [
      | none ↦ (false, s)
      | some request ↦ if source.opened then request s source.epoch else (false, s)
    ]

    unfoldable pub open_source : VideoSource → S → ℕ → Bool × VideoSource × S
    open_source source s port =
        let (ok, bytes, s') = ops.open_port s port source.receive_buffer_bytes in
        let failed = record source { receive_buffer_bytes = bytes } in
        let epoch = add_u64 source.epoch 1 in
        let fresh : VideoSource = record {
          epoch = if epoch == 0 then 1 else epoch;
          observed_losses = 0;
          receive_buffer_bytes = bytes;
          awaiting_idr = true;
          have_sps = false;
          have_pps = false;
          pending_packet_loss = false;
          pending_idr_requested = false;
          opened = true;
        } in
        if source.opened
        then (false, source, s)
        else if ok
        then (true, fresh, (request_idr fresh s').1)
        else (false, failed, s')

    -- What a read frame does to the source, up to the test of the gate.
    unfoldable pub note_losses : VideoSource → S → Frame → VideoSource × S
    note_losses source s frame =
        let (requested, s') = request_idr source s in
        let lost = record source {
          pending_packet_loss = true;
          awaiting_idr = true;
          pending_idr_requested = requested || source.pending_idr_requested;
          observed_losses = frame.losses;
        } in
        if frame.losses == source.observed_losses then (source, s) else (lost, s')

    -- One round of `video_source_read`: the access unit that it returns, or `none` to go on.
    unfoldable pub take_frame : VideoSource → S → Frame → Option AccessUnit × VideoSource × S
    take_frame source s frame =
        let types = nal_type_mask frame.data_ in
        let (counted, s') = note_losses source s frame in
        let seen = note_types counted types in
        let unit : AccessUnit = record {
          frame = frame;
          nal_types = types;
          epoch = source.epoch;
          packet_loss = seen.pending_packet_loss;
          idr_requested = seen.pending_idr_requested;
        } in
        if not seen.awaiting_idr || (has_type types 7 || has_type types 8)
        then (
          some unit,
          record seen { pending_packet_loss = false; pending_idr_requested = false },
          s',
        )
        else (none, seen, s')

    -- The loop, on fuel: the outer `none` means that it ran out.
    unfoldable pub read_from : ℕ → VideoSource → S → Option (Option AccessUnit × VideoSource × S)
    read_from zero source s = none
    read_from (suc fuel) source s =
        let (frame, s') = ops.read s in
        elim frame [
          | none ↦ some (none, source, s')
          | some f ↦
              let (unit, source', s'') = take_frame source s' f in
              elim unit [ none ↦ read_from fuel source' s'' | some u ↦ some (some u, source', s'') ]
        ]

    unfoldable pub read_source : ℕ → VideoSource → S → Option (Option AccessUnit × VideoSource × S)
    read_source fuel source s =
        if source.opened then read_from fuel source s else some (none, source, s)

    unfoldable pub close_source : VideoSource → S → VideoSource × S
    close_source source s =
        if source.opened
        then (record new_source { epoch = source.epoch }, ops.close s)
        else (source, s)
