-- ===== src/H264.antt =====
-- Annex-B units and the cached parameter sets: src/h264.c and src/h264.h.
-- A buffer is whether its pointer is set, its `length` bytes and its capacity; `realloc` is the
-- argument `alloc`, which says whether a block of the given size is had. An output pointer with its
-- length is the list of the bytes that it stands for. Other pointers are valid.
pub mod Nal
pub mod Prepare
pub mod Cache
pub mod Update
use nanokvm_rdp.Prelude.{
  ℕ, ◌+◌, ◌-◌, ◌^◌, Bool, true, false, ◌&&◌, ◌||◌, not, List, [], ◌∷◌, ◌++◌, Option, none, some,
  get_or, length, ltb, leb, ◌==◌, if◌then◌else◌, bit_and, add_u64,
}

pub record Buffer : Type 0 where
  pub present : Bool
  pub bytes : List ℕ
  pub capacity : ℕ

-- The output of `h264_parameter_sets_prepare_idr` stands in `scratch`, whose length is not used.
pub record ParameterSets : Type 0 where
  pub sps : Buffer
  pub pps : Buffer
  pub scratch : Buffer

unfoldable pub has_annexb_start_code : List ℕ → Bool
has_annexb_start_code data_ =
    leb 3 (length data_)
    && (get_or data_ 0 0 == 0
        && (get_or data_ 1 0 == 0
            && (get_or data_ 2 0 == 1
                || (leb 4 (length data_) && (get_or data_ 2 0 == 0 && get_or data_ 3 0 == 1)))))

unfoldable pub annexb_size : List ℕ → ℕ
annexb_size data_ =
    if length data_ == 0
    then 0
    else add_u64 (length data_) (if has_annexb_start_code data_ then 0 else 4)

-- The bytes that `h264_copy_annexb` writes; it returns their number.
unfoldable pub copy_annexb : List ℕ → List ℕ
copy_annexb data_ =
    if length data_ == 0
    then []
    else if has_annexb_start_code data_
    then data_
    else 0 ∷ 0 ∷ 0 ∷ 1 ∷ data_

abbrev pub size_max : ℕ
size_max = 2 ^ 64 - 1

-- The output, `none` for the result false, and the buffer.
unfoldable pub ensure_annexb : (ℕ → Bool) → Buffer → List ℕ → Option (List ℕ) × Buffer
ensure_annexb alloc buffer data_ =
    let needed = annexb_size data_ in
    let out = copy_annexb data_ in
    if length data_ == 0 || has_annexb_start_code data_
    then (some data_, buffer)
    else if ltb needed (length data_)
    then (none, buffer)
    else if ltb buffer.capacity needed
    then if alloc needed
      then (some out, record { present = true; bytes = out; capacity = needed })
      else (none, buffer)
    else (some out, record buffer { bytes = out })

-- What is put in front of the access unit for one of the sets.
abbrev pub missing : Buffer → ℕ → ℕ → Bool
missing set mask type = bit_and mask (2 ^ type) == 0 && set.present

unfoldable pub prepare_idr :
    (ℕ → Bool) → ParameterSets → List ℕ → ℕ → Option (List ℕ) × ParameterSets
prepare_idr alloc sets au nal_mask =
    let sps_size = if missing sets.sps nal_mask 7 then annexb_size sets.sps.bytes else 0 in
    let pps_size = if missing sets.pps nal_mask 8 then annexb_size sets.pps.bytes else 0 in
    let combined_length = sps_size + pps_size + length au in
    let first = if sps_size == 0 then [] else copy_annexb sets.sps.bytes in
    let second = if pps_size == 0 then [] else copy_annexb sets.pps.bytes in
    let out = first ++ (second ++ au) in
    if ltb (size_max - pps_size) sps_size || ltb (size_max - length au) (sps_size + pps_size)
    then (none, sets)
    else if sps_size == 0 && pps_size == 0
    then (some au, sets)
    else if ltb sets.scratch.capacity combined_length
    then if alloc combined_length
      then (
        some out,
        record sets {
          scratch = record sets.scratch { present = true; capacity = combined_length };
        },
      )
      else (none, sets)
    else (some out, sets)
