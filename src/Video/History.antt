-- ===== src/Video/History.antt =====
-- What a decoder can use, told from the frames that were read since the source of src/video_source.c
-- was opened. The newest frame comes first.
use nanokvm_rdp.Prelude.{ℕ, Bool, false, ◌&&◌, ◌||◌, not, List, [], ◌∷◌, ◌==◌}
use nanokvm_rdp.H264.Cache.{nal_type_mask}
use nanokvm_rdp.Video.{Frame, has_type}

abbrev pub has : Frame → ℕ → Bool
has frame type = has_type (nal_type_mask frame.data_) type

abbrev pub seen : List Frame → ℕ → Bool
seen [] type = false
seen (frame ∷ older) type = seen older type || has frame type

abbrev pub last_losses : List Frame → ℕ
last_losses [] = 0
last_losses (frame ∷ older) = frame.losses

-- The counter of the losses has changed with this frame.
abbrev pub lost : Frame → List Frame → Bool
lost frame older = not (frame.losses == last_losses older)

-- An IDR behind an SPS and a PPS has been read, and nothing has been lost after it.
abbrev pub decodable : List Frame → Bool
decodable [] = false
decodable (frame ∷ older) =
    (has frame 5 && (seen (frame ∷ older) 7 && seen (frame ∷ older) 8))
    || (not (lost frame older) && decodable older)

-- The newest frame is of use: it can be decoded, or it has parameter sets.
abbrev pub shown : List Frame → Bool
shown [] = false
shown (frame ∷ older) = decodable (frame ∷ older) || (has frame 7 || has frame 8)

-- Something was lost with the newest frame, or before it and after the last one of use.
abbrev pub unreported : List Frame → Bool
unreported [] = false
unreported (frame ∷ older) = lost frame older || (not (shown older) && unreported older)
