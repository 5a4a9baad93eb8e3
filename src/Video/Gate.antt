-- ===== src/Video/Gate.antt =====
-- The gate of `video_source_read` (src/video_source.c) against the history of the frames.
use nanokvm_rdp.Prelude.{
  ℕ, ◌≡◌, refl, Bool, true, false, ◌&&◌, ◌||◌, not, List, ◌∷◌, Option, none, some, ◌==◌,
  if◌then◌else◌, arith, Bool-cases, inl, inr, ap, ap₂, ◌∙◌,
}
use nanokvm_rdp.H264.Cache.{nal_type_mask}
use nanokvm_rdp.Video.{Frame, Ops, VideoSource, AccessUnit, note_losses, note_types, take_frame}
use nanokvm_rdp.Video.History.{has, seen, last_losses, lost, decodable, shown, unreported}

-- The source holds what the history says.
pub record Matches (epoch : ℕ) (source : VideoSource) (history : List Frame) : Type 0 where
  pub opened : source.opened ≡ true
  pub same_epoch : source.epoch ≡ epoch
  pub losses : source.observed_losses ≡ last_losses history
  pub awaiting : source.awaiting_idr ≡ not (decodable history)
  pub sps : source.have_sps ≡ seen history 7
  pub pps : source.have_pps ≡ seen history 8
  pub pending : source.pending_packet_loss ≡ (not (shown history) && unreported history)
  pub requested : source.pending_idr_requested ≡ true → source.pending_packet_loss ≡ true

-- The access unit of a frame, with what the decoder is told of losses.
pub record IsFor (epoch : ℕ) (frame : Frame) (older : List Frame) (unit : AccessUnit) : Type 0 where
  pub same_frame : unit.frame ≡ frame
  pub types : unit.nal_types ≡ nal_type_mask frame.data_
  pub same_epoch : unit.epoch ≡ epoch
  pub loss : unit.packet_loss ≡ unreported (frame ∷ older)
  pub requested : unit.idr_requested ≡ true → unit.packet_loss ≡ true

-- A frame is handed over when it is of use, and only then.
pub data Takes (epoch : ℕ) (frame : Frame) (older : List Frame) : Option AccessUnit → Type 0 where
  held_back : shown (frame ∷ older) ≡ false → Takes epoch frame older none
  handed_over :
      (unit : AccessUnit)
      → shown (frame ∷ older) ≡ true
      → IsFor epoch frame older unit
      → Takes epoch frame older (some unit)

module _ {S : Type 0} (ops : Ops S) where
  -- The gate with the truth values that it reads.
  counted-lost :
      (source : VideoSource) (s : S) (frame : Frame)
      → let counted = (note_losses ops source s frame).0 in
        let here = not (frame.losses == source.observed_losses) in
        (counted.opened ≡ source.opened)
        × (counted.epoch ≡ source.epoch)
        × (counted.observed_losses ≡ frame.losses)
        × (counted.awaiting_idr ≡ (here || source.awaiting_idr))
        × (counted.have_sps ≡ source.have_sps)
        × (counted.have_pps ≡ source.have_pps)
        × (counted.pending_packet_loss ≡ (here || source.pending_packet_loss))
  unfolding note_losses
  counted-lost source s frame = elim (Bool-cases (frame.losses == source.observed_losses)) [
    | inl same ↦ rw same (refl, refl, ground (arith, same), refl, refl, refl, refl)
    | inr gone ↦ rw gone (refl, refl, refl, refl, refl, refl, refl)
  ]

  -- The source after both notes, before the gate.
  abbrev noted : VideoSource → S → Frame → VideoSource
  noted source s frame = note_types (note_losses ops source s frame).0 (nal_type_mask frame.data_)

  record Noted (epoch : ℕ) (frame : Frame) (older : List Frame) (source : VideoSource)
      : Type 0 where
    opened : source.opened ≡ true
    same_epoch : source.epoch ≡ epoch
    losses : source.observed_losses ≡ frame.losses
    awaiting : source.awaiting_idr ≡ not (decodable (frame ∷ older))
    sps : source.have_sps ≡ seen (frame ∷ older) 7
    pps : source.have_pps ≡ seen (frame ∷ older) 8
    pending : source.pending_packet_loss ≡ unreported (frame ∷ older)
    requested : source.pending_idr_requested ≡ true → source.pending_packet_loss ≡ true

  note_losses-requested :
      (source : VideoSource) (s : S) (frame : Frame)
      → (source.pending_idr_requested ≡ true → source.pending_packet_loss ≡ true)
      → let counted = (note_losses ops source s frame).0 in
        counted.pending_idr_requested ≡ true → counted.pending_packet_loss ≡ true
  unfolding note_losses
  note_losses-requested source s frame h =
      elim (Bool-cases (frame.losses == source.observed_losses)) [
        | inl same ↦ rw same h
        | inr gone ↦ rw gone (λ e. refl)
      ]

  awaits : (d l a o : Bool) → a ≡ not o → (if d then false else l || a) ≡ not (d || (not l && o))
  awaits true l a o e = refl
  awaits false true a o e = refl
  awaits false false a o e = e

  noted-Noted :
      {epoch : ℕ} {source : VideoSource} {older : List Frame} (s : S) (frame : Frame)
      → Matches epoch source older
      → Noted epoch frame older (noted source s frame)
  unfolding note_types
  noted-Noted {epoch} {source} {older} s frame m =
      let (opened, same_epoch, losses, awaiting, sps, pps, pending) = counted-lost source s frame in
      let here : not (frame.losses == source.observed_losses) ≡ lost frame older =
        ap (λ (n : ℕ). not (frame.losses == n)) m.losses in
      let sps' : (noted source s frame).have_sps ≡ seen (frame ∷ older) 7 =
        ap (λ (b : Bool). b || has frame 7) (sps ∙ m.sps) in
      let pps' : (noted source s frame).have_pps ≡ seen (frame ∷ older) 8 =
        ap (λ (b : Bool). b || has frame 8) (pps ∙ m.pps) in
      record {
        opened = opened ∙ m.opened;
        same_epoch = same_epoch ∙ m.same_epoch;
        losses = losses;
        awaiting =
            ap₂ (λ (d w : Bool). if d then false else w)
              (ap₂ (λ (p q : Bool). has frame 5 && (p && q)) sps' pps')
              (awaiting ∙ ap (λ (l : Bool). l || source.awaiting_idr) here)
            ∙ awaits (has frame 5 && (seen (frame ∷ older) 7 && seen (frame ∷ older) 8))
                (lost frame older) source.awaiting_idr (decodable older) m.awaiting;
        sps = sps';
        pps = pps';
        pending = pending ∙ ap₂ (λ (l w : Bool). l || w) here m.pending;
        requested = note_losses-requested source s frame m.requested;
      }

  gate_open : (a d p : Bool) → a ≡ not d → (not a || p) ≡ (d || p)
  gate_open a true p e = rw e refl
  gate_open a false p e = rw e refl

  -- What the gate decides on a frame, and the source that it leaves.
  pub take_frame-Takes :
      {epoch : ℕ} {source : VideoSource} {older : List Frame} (s : S) (frame : Frame)
      → Matches epoch source older
      → let out = take_frame ops source s frame in
        Takes epoch frame older out.0 × Matches epoch out.1 (frame ∷ older)
  unfolding take_frame
  take_frame-Takes {epoch} {source} {older} s frame m =
      let n = noted-Noted s frame m in
      let after = noted source s frame in
      let gate : (not after.awaiting_idr || (has frame 7 || has frame 8)) ≡ shown (frame ∷ older) =
        gate_open after.awaiting_idr (decodable (frame ∷ older)) (has frame 7 || has frame 8)
          n.awaiting in
      elim (Bool-cases (shown (frame ∷ older))) [
        | inl of_use ↦ rw (gate ∙ of_use) (
          handed_over _ of_use (record {
            same_frame = refl;
            types = refl;
            same_epoch = m.same_epoch;
            loss = n.pending;
            requested = n.requested;
          }),
          record {
            opened = n.opened;
            same_epoch = n.same_epoch;
            losses = n.losses;
            awaiting = n.awaiting;
            sps = n.sps;
            pps = n.pps;
            pending = rw of_use refl;
            requested = λ e. absurd (cc);
          },
        )
        | inr wait ↦ rw (gate ∙ wait) (
          held_back wait,
          record {
            opened = n.opened;
            same_epoch = n.same_epoch;
            losses = n.losses;
            awaiting = n.awaiting;
            sps = n.sps;
            pps = n.pps;
            pending = rw wait n.pending;
            requested = n.requested;
          },
        )
      ]
