-- ===== src/Tests/H264.antt =====
-- src/h264.c at a concrete access unit.
use nanokvm_rdp.Prelude.{
  ℕ, refl, ◌+◌, ◌^◌, ◌<◌, ◌≤◌, ◌≡◌, ◌⊎◌, Bool, true, false, List, [], ◌∷◌, ◌++◌, some, none, length,
  arith, ltb,
}
use nanokvm_rdp.H264.{
  Buffer, ParameterSets, copy_annexb, prepare_idr, ensure_annexb, has_annexb_start_code,
}
use nanokvm_rdp.H264.Nal.{nal_start, unit_end, find_nal, UnitOf, find_nal_lem}
use nanokvm_rdp.H264.Cache.{
  mask_start, types_from, nal_type_mask, contains_nal_type, parameter_sets_update,
}
use nanokvm_rdp.H264.Update.{unit_of, prepare_idr-parameter_sets_update}
use nanokvm_rdp.H264.Prepare.{in_front, prepare_idr_lem, ensure_annexb-Starts}

abbrev sps : Buffer
sps = record { present = true; bytes = 0 ∷ 0 ∷ 1 ∷ 0x67 ∷ 0x42 ∷ []; capacity = 5 }

abbrev pps : Buffer
pps = record { present = true; bytes = 0x68 ∷ 0xce ∷ []; capacity = 2 }

abbrev none_yet : Buffer
none_yet = record { present = false; bytes = []; capacity = 0 }

abbrev sets : ParameterSets
sets = record { sps = sps; pps = pps; scratch = none_yet }

abbrev idr : List ℕ
idr = 0 ∷ 0 ∷ 0 ∷ 1 ∷ 0x65 ∷ 0x88 ∷ []

abbrev had : ℕ → Bool
had n = ltb n 4096

prepare_idr_lem_example :
    ((prepare_idr had sets idr 0x20).1.sps ≡ sps)
    × ((prepare_idr had sets idr 0x20).1.pps ≡ pps)
    × ((((prepare_idr had sets idr 0x20).0
            ≡ some (in_front sps 0x20 7 ++ (in_front pps 0x20 8 ++ idr)))
          × (((in_front sps 0x20 7 ++ (in_front pps 0x20 8 ++ idr)) ≡ idr)
              ⊎ (length (in_front sps 0x20 7 ++ (in_front pps 0x20 8 ++ idr))
                  ≤ (prepare_idr had sets idr 0x20).1.scratch.capacity)))
        ⊎ (((prepare_idr had sets idr 0x20).0 ≡ none)
            × (0 < length (in_front sps 0x20 7 ++ (in_front pps 0x20 8 ++ idr)))
            × (had (length (in_front sps 0x20 7 ++ (in_front pps 0x20 8 ++ idr))) ≡ false)))
unfolding copy_annexb has_annexb_start_code
prepare_idr_lem_example = prepare_idr_lem had sets idr 0x20 (omega arith)

abbrev unit : List ℕ
unit = 0x65 ∷ []

ensure_annexb-Starts_example :
    ((out : List ℕ) × ((ensure_annexb had none_yet unit).0 ≡ some out)
      × (has_annexb_start_code out ≡ true)
      × ((out ≡ unit)
          ⊎ ((out ≡ 0 ∷ 0 ∷ 0 ∷ 1 ∷ unit)
              × ((ensure_annexb had none_yet unit).1.bytes ≡ out)
              × (length unit + 4 ≤ (ensure_annexb had none_yet unit).1.capacity))))
    ⊎ ((ensure_annexb had none_yet unit ≡ (none, none_yet))
        × ((2 ^ 64 ≤ length unit + 4)
            ⊎ ((length unit + 4 < 2 ^ 64) × (had (length unit + 4) ≡ false))))
ensure_annexb-Starts_example = ensure_annexb-Starts had none_yet unit (omega arith) (omega arith)

abbrev access_unit : List ℕ
access_unit = 0 ∷ 0 ∷ 1 ∷ 0x67 ∷ 0x42 ∷ 0 ∷ 0 ∷ 1 ∷ 0x68 ∷ 0xce ∷ 0 ∷ 0 ∷ 0 ∷ 1 ∷ 0x65 ∷ 0x88 ∷ []

found : find_nal 16 access_unit 8 0 ≡ some (5, 5)
unfolding find_nal unit_end nal_start
found = refl

find_nal_lem_example : UnitOf access_unit 8 5 5
find_nal_lem_example = find_nal_lem 16 access_unit 8 0 5 5 found

mask-access_unit : nal_type_mask access_unit ≡ 0x1a0
unfolding nal_type_mask types_from mask_start
mask-access_unit = refl

contains-idr : contains_nal_type access_unit 5 ≡ true
unfolding contains_nal_type nal_type_mask types_from mask_start
contains-idr = refl

found_sps : find_nal 16 access_unit 7 0 ≡ some (0, 5)
unfolding find_nal unit_end nal_start
found_sps = refl

abbrev always : ℕ → Bool
always n = true

abbrev no_sets : ParameterSets
no_sets = record { sps = none_yet; pps = none_yet; scratch = none_yet }

prepare_idr-parameter_sets_update_example :
    (prepare_idr always (parameter_sets_update always no_sets access_unit 0x1a0) idr 0x20).0
    ≡ some (unit_of access_unit 0 5 ++ (unit_of access_unit 5 5 ++ idr))
prepare_idr-parameter_sets_update_example =
    prepare_idr-parameter_sets_update always no_sets access_unit idr 0x1a0 0x20 0 5 5 5 (λ n. refl)
      (record { empty = λ e. refl }) (record { empty = λ e. refl }) found_sps found
      (λ e. absurd (omega (arith, e))) (λ e. absurd (omega (arith, e))) refl refl (omega arith)
