-- ===== src/Video/Reading.antt =====
-- `video_source_read` (src/video_source.c) over any operations whose reads come to an end.
use nanokvm_rdp.Prelude.{
  ℕ, zero, suc, ◌<◌, ◌≤◌, ◌≡◌, refl, Bool, true, false, List, [], ◌∷◌, Option, none, some, ◌==◌,
  if◌then◌else◌, arith, Bool-cases, Option-cases, inl, inr,
}
use nanokvm_rdp.Video.{
  Frame, Ops, VideoSource, AccessUnit, request_idr, open_source, note_losses, take_frame, read_from,
  read_source,
}
use nanokvm_rdp.Video.History.{shown}
use nanokvm_rdp.Video.Gate.{Matches, IsFor, Takes, held_back, handed_over, take_frame-Takes}

-- What reading needs of the operations: in a valid context there is only so much left to read, and a
-- request for an IDR adds nothing to it.
pub record Ending {S : Type 0} (ops : Ops S) : Type 1 where
  pub Valid : S → Type 0
  pub left : S → ℕ
  pub read_keeps : (s : S) → Valid s → Valid (ops.read s).1
  pub read_uses :
      (s : S) (frame : Frame) → Valid s → (ops.read s).0 ≡ some frame → left (ops.read s).1 < left s
  pub request_keeps :
      (request : S → ℕ → Bool × S)
      → ops.request ≡ some request
      → (s : S) (epoch : ℕ) → Valid s
      → Valid (request s epoch).1 × (left (request s epoch).1 ≤ left s)

-- What a read comes to. Frames that are of no use are skipped.
pub data Reads (epoch : ℕ) (out : Option AccessUnit × VideoSource) : List Frame → Type 0 where
  ended : {older : List Frame} → out.0 ≡ none → Matches epoch out.1 older → Reads epoch out older
  shows :
      {older : List Frame} (frame : Frame) (unit : AccessUnit)
      → out.0 ≡ some unit
      → shown (frame ∷ older) ≡ true
      → IsFor epoch frame older unit
      → Matches epoch out.1 (frame ∷ older)
      → Reads epoch out older
  skips :
      {older : List Frame} (frame : Frame)
      → shown (frame ∷ older) ≡ false
      → Reads epoch out (frame ∷ older)
      → Reads epoch out older

-- A source that has just been opened matches the empty history.
pub open_source-Matches :
    {S : Type 0} (ops : Ops S) (source : VideoSource) (s : S) (port : ℕ)
    → (open_source ops source s port).0 ≡ true
    → let opened = (open_source ops source s port).1 in Matches opened.epoch opened []
unfolding open_source
open_source-Matches ops source s port e = elim (Bool-cases source.opened) [
  | inl already ↦ absurd (cc (rw already at e))
  | inr closed ↦ elim (Bool-cases (ops.open_port s port source.receive_buffer_bytes).0) [
    | inr failed ↦ absurd (cc (rw (closed, failed) at e))
    | inl ok ↦
        rw (closed, ok)
          (record {
            opened = refl;
            same_epoch = refl;
            losses = refl;
            awaiting = refl;
            sps = refl;
            pps = refl;
            pending = refl;
            requested = λ h. absurd (cc);
          })
  ]
]

module _ {S : Type 0} (ops : Ops S) (ending : Ending ops) where
  request_idr-keeps :
      (source : VideoSource) (s : S)
      → ending.Valid s
      → let s' = (request_idr ops source s).1 in ending.Valid s' × (ending.left s' ≤ ending.left s)
  unfolding request_idr
  request_idr-keeps source s v = elim (Option-cases ops.request) [
    | inl missing ↦ rw missing (v, omega arith)
    | inr (request, e) ↦ elim (Bool-cases source.opened) [
      | inl on ↦ rw (e, on) (ending.request_keeps request e s source.epoch v)
      | inr off ↦ rw (e, off) (v, omega arith)
    ]
  ]

  note_losses-keeps :
      (source : VideoSource) (s : S) (frame : Frame)
      → ending.Valid s
      → let s' = (note_losses ops source s frame).1 in
        ending.Valid s' × (ending.left s' ≤ ending.left s)
  unfolding note_losses
  note_losses-keeps source s frame v = elim (Bool-cases (frame.losses == source.observed_losses)) [
    | inl same ↦ rw same (v, omega arith)
    | inr gone ↦ rw gone (request_idr-keeps source s v)
  ]

  take_frame-keeps :
      (source : VideoSource) (s : S) (frame : Frame)
      → ending.Valid s
      → let s' = (take_frame ops source s frame).2 in
        ending.Valid s' × (ending.left s' ≤ ending.left s)
  unfolding take_frame
  take_frame-keeps source s frame v = if_keeps _ _ _ _ _ (note_losses-keeps source s frame v)
    where
      if_keeps :
          (a b : Option AccessUnit) (x y : VideoSource) {t : S} (test : Bool)
          → ending.Valid t × (ending.left t ≤ ending.left s)
          → let out : Option AccessUnit × VideoSource × S = if test then (a, x, t) else (b, y, t) in
            ending.Valid out.2 × (ending.left out.2 ≤ ending.left s)
      if_keeps a b x y true h = h
      if_keeps a b x y false h = h

  pub record ReadsOn (epoch : ℕ) (older : List Frame)
      (run : Option (Option AccessUnit × VideoSource × S)) : Type 0 where
    pub result : Option AccessUnit
    pub source : VideoSource
    pub state : S
    pub ends : run ≡ some (result, source, state)
    pub reads : Reads epoch (result, source) older
    pub valid : ending.Valid state

  read_from-ReadsOn :
      (fuel : ℕ) {epoch : ℕ} {source : VideoSource} {older : List Frame} (s : S)
      → ending.left s < fuel
      → ending.Valid s
      → Matches epoch source older
      → ReadsOn epoch older (read_from ops fuel source s)
  unfolding read_from
  read_from-ReadsOn zero s enough v m = absurd (omega arith)
  read_from-ReadsOn (suc fuel) {epoch} {source} {older} s enough v m =
      elim (Option-cases (ops.read s).0) [
        | inl over ↦
            rw (over, read_from)
              (record {
                result = none;
                source = source;
                state = (ops.read s).1;
                ends = refl;
                reads = ended refl m;
                valid = ending.read_keeps s v;
              })
        | inr (frame, e) ↦
            let s' : S = (ops.read s).1 in
            let less : ending.left s' < ending.left s = ending.read_uses s frame v e in
            let (v', most) = take_frame-keeps source s' frame (ending.read_keeps s v) in
            let (takes, m') = take_frame-Takes ops s' frame m in
            rw (e, read_from)
              (taken frame (take_frame ops source s' frame)
                (λ source' t enough' v'' m''. read_from-ReadsOn fuel t enough' v'' m'') takes m' v'
                (omega arith))
      ]
    where
      taken :
          (frame : Frame) (out : Option AccessUnit × VideoSource × S)
          → ((source' : VideoSource) (t : S)
              → ending.left t < fuel
              → ending.Valid t
              → Matches epoch source' (frame ∷ older)
              → ReadsOn epoch (frame ∷ older) (read_from ops fuel source' t))
          → Takes epoch frame older out.0
          → Matches epoch out.1 (frame ∷ older)
          → ending.Valid out.2
          → ending.left out.2 < fuel
          → ReadsOn epoch older (elim out.0 [
            | none ↦ read_from ops fuel out.1 out.2
            | some u ↦ some (some u, out.1, out.2)
          ])
      taken frame (_, source', t) again (held_back wait) m' v' enough' =
          let rest = again source' t enough' v' m' in
          record {
            result = rest.result;
            source = rest.source;
            state = rest.state;
            ends = rest.ends;
            reads = skips frame wait rest.reads;
            valid = rest.valid;
          }
      taken frame (_, source', t) again (handed_over unit now for_frame) m' v' enough' = record {
        result = some unit;
        source = source';
        state = t;
        ends = refl;
        reads = shows frame unit refl now for_frame m';
        valid = v';
      }

  -- A read of an open source whose state matches the frames read so far, over operations that end,
  -- comes to its end. It hands over the next frame that can be decoded, or has parameter sets, and
  -- skips just the frames before it that are of no use; with the frame it reports whether something
  -- was lost since the last one that was handed over, and it says that an IDR was requested only if
  -- so. Without such a frame it ends with the stream; the source matches the longer history.
  pub read_source-ReadsOn :
      {epoch : ℕ} {source : VideoSource} {older : List Frame} (s : S)
      → ending.Valid s
      → Matches epoch source older
      → ReadsOn epoch older (read_source ops (suc (ending.left s)) source s)
  unfolding read_source
  read_source-ReadsOn {epoch} {source} {older} s v m =
      if_open _ source.opened m.opened (read_from-ReadsOn (suc (ending.left s)) s (omega arith) v m)
    where
      if_open :
          {run : Option (Option AccessUnit × VideoSource × S)}
          (other : Option (Option AccessUnit × VideoSource × S)) (test : Bool)
          → test ≡ true
          → ReadsOn epoch older run
          → ReadsOn epoch older (if test then run else other)
      if_open other true e h = h
      if_open other false e h = absurd (cc)
