-- ===== src/H264/Cache.antt =====
-- The cache of the parameter sets in src/h264.c, and the mask of the types of an access unit.
use nanokvm_rdp.Prelude.{
  ℕ, zero, suc, ◌+◌, ◌^◌, Bool, true, false, ◌&&◌, not, List, Option, none, some, get_or, length,
  take, drop, ltb, leb, ◌==◌, if◌then◌else◌, bit_and, bit_or,
}
use nanokvm_rdp.H264.{Buffer, ParameterSets}
use nanokvm_rdp.H264.Nal.{find_nal}

-- `start_length` in the loop of `h264_nal_type_mask`.
unfoldable pub mask_start : List ℕ → ℕ → ℕ
mask_start data_ index =
    let at = λ (k : ℕ). get_or data_ (index + k) 0 in
    if at 0 == 0 && (at 1 == 0 && at 2 == 1)
    then 3
    else if ltb (index + 4) (length data_) && (at 0 == 0 && (at 1 == 0 && (at 2 == 0 && at 3 == 1)))
    then 4
    else 0

-- The loop, over the `rounds` offsets that are left from `index` on.
unfoldable pub types_from : ℕ → List ℕ → ℕ → ℕ → ℕ
types_from zero data_ index mask = mask
types_from (suc rounds) data_ index mask =
    let code = mask_start data_ index in
    let type = bit_and (get_or data_ (index + code) 0) 0x1f in
    let next =
      if not (code == 0) && ltb (index + code) (length data_)
      then bit_or mask (2 ^ type)
      else mask in
    let rest = types_from rounds data_ (index + 1) next in
    if leb (length data_) (index + 3) then mask else rest

unfoldable pub nal_type_mask : List ℕ → ℕ
nal_type_mask data_ = types_from (length data_) data_ 0 0

unfoldable pub contains_nal_type : List ℕ → ℕ → Bool
contains_nal_type data_ type = ltb type 32 && not (bit_and (nal_type_mask data_) (2 ^ type) == 0)

unfoldable pub buffer_copy_nal : (ℕ → Bool) → Buffer → List ℕ → ℕ → Bool × Buffer
buffer_copy_nal alloc buffer data_ type = elim (find_nal (length data_) data_ type 0) [
  | none ↦ (false, buffer)
  | some (start, size) ↦
      let bytes = take size (drop start data_) in
      if ltb buffer.capacity size
      then if alloc size
        then (true, record { present = true; bytes = bytes; capacity = size })
        else (false, buffer)
      else (true, record buffer { bytes = bytes })
]

unfoldable pub parameter_sets_update : (ℕ → Bool) → ParameterSets → List ℕ → ℕ → ParameterSets
parameter_sets_update alloc sets au nal_mask =
    let sps =
      if bit_and nal_mask (2 ^ 7) == 0 then sets.sps else (buffer_copy_nal alloc sets.sps au 7).1 in
    let pps =
      if bit_and nal_mask (2 ^ 8) == 0 then sets.pps else (buffer_copy_nal alloc sets.pps au 8).1 in
    record sets { sps = sps; pps = pps }

-- `h264_copy_nal`, with the destination as the bytes it points to.
unfoldable pub copy_nal : (ℕ → Bool) → Option (List ℕ) → List ℕ → ℕ → Bool × Option (List ℕ)
copy_nal alloc destination data_ type = elim (find_nal (length data_) data_ type 0) [
  | none ↦ (false, destination)
  | some (start, size) ↦
      if alloc size then (true, some (take size (drop start data_))) else (false, destination)
]
