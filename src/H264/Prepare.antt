-- ===== src/H264/Prepare.antt =====
-- The bytes that reach the decoder: the start codes and the parameter sets in front (src/h264.c).
use nanokvm_rdp.Prelude.{
  ℕ, ◌+◌, ◌-◌, ◌%◌, ◌^◌, ◌<◌, ◌≤◌, ◌≡◌, ◌⊎◌, inl, inr, refl, Bool, true, false, ◌&&◌, ◌||◌, List,
  [], ◌∷◌, ◌++◌, none, some, length, length-append, ltb, ◌==◌, if◌then◌else◌, arith, Bool-cases, ap,
  ◌∙◌, suc, ne→==, sym,
}
use nanokvm_rdp.H264.{
  Buffer, ParameterSets, has_annexb_start_code, annexb_size, copy_annexb, missing, prepare_idr,
  ensure_annexb, size_max,
}

-- The size is that of the bytes that are written, in 64 bits.
annexb_size-copy_annexb : (data_ : List ℕ) → annexb_size data_ ≡ length (copy_annexb data_) % 2 ^ 64
unfolding copy_annexb annexb_size
annexb_size-copy_annexb [] = refl
annexb_size-copy_annexb (x ∷ xs) =
    let more : suc (length xs) == 0 ≡ false = ne→== (suc (length xs)) 0 (λ e. omega arith) in
    elim (Bool-cases (has_annexb_start_code (x ∷ xs))) [
      | inl e ↦ rw (more, e) (omega arith)
      | inr e ↦ rw (more, e) (omega arith)
    ]

-- What one cached set contributes.
abbrev pub in_front : Buffer → ℕ → ℕ → List ℕ
in_front set mask type = if missing set mask type then copy_annexb set.bytes else []

size-in_front :
    (set : Buffer) (mask type : ℕ)
    → length (in_front set mask type) < 2 ^ 64
    → (if missing set mask type then annexb_size set.bytes else 0) ≡ length (in_front set mask type)
size-in_front set mask type h = wrapped ∙ omega arith
  where
    wrapped :
        (if missing set mask type then annexb_size set.bytes else 0)
        ≡ length (in_front set mask type) % 2 ^ 64
    wrapped = elim (Bool-cases (missing set mask type)) [
      | inl e ↦ rw e (annexb_size-copy_annexb set.bytes)
      | inr e ↦ rw e
    ]

length-zero : (xs : List ℕ) → length xs ≡ 0 → xs ≡ []
length-zero [] e = refl
length-zero (x ∷ xs) e = absurd (omega arith)

copied-in_front :
    (set : Buffer) (mask type : ℕ)
    → (if length (in_front set mask type) == 0 then [] else copy_annexb set.bytes)
      ≡ in_front set mask type
copied-in_front set mask type = elim (Bool-cases (missing set mask type)) [
  | inl e ↦ elim (Bool-cases (length (copy_annexb set.bytes) == 0)) [
    | inl z ↦ rw (e, z) (sym (length-zero (copy_annexb set.bytes) (ground (arith, z))))
    | inr z ↦ rw (e, z)
  ]
  | inr e ↦ rw e
]

nothing_added : (a b au : List ℕ) → length a == 0 && length b == 0 ≡ true → a ++ (b ++ au) ≡ au
nothing_added [] [] au e = refl
nothing_added [] (y ∷ b) au e = absurd (ground (arith, e))
nothing_added (x ∷ a) b au e = absurd (ground (arith, e))

-- With sizes that fit, the output is the access unit behind those cached sets that it lacks, the
-- SPS first, as `h264_copy_annexb` writes them, and fits the scratch buffer, unless it is the access
-- unit alone; or there is none, the scratch buffer being too small and no larger one had. The cached
-- sets stay as they are.
pub prepare_idr_lem :
    (alloc : ℕ → Bool) (sets : ParameterSets) (au : List ℕ) (mask : ℕ)
    → length (in_front sets.sps mask 7) + length (in_front sets.pps mask 8) + length au < 2 ^ 64
    → let out = in_front sets.sps mask 7 ++ (in_front sets.pps mask 8 ++ au) in
      let result = prepare_idr alloc sets au mask in
      (result.1.sps ≡ sets.sps)
      × (result.1.pps ≡ sets.pps)
      × (((result.0 ≡ some out) × ((out ≡ au) ⊎ (length out ≤ result.1.scratch.capacity)))
          ⊎ ((result.0 ≡ none)
              × (sets.scratch.capacity < length out)
              × (alloc (length out) ≡ false)))
unfolding prepare_idr
prepare_idr_lem alloc sets au mask h =
    let a = in_front sets.sps mask 7 in
    let b = in_front sets.pps mask 8 in
    let n = length a + length b + length au in
    let over : ltb (size_max - length b) (length a)
          || ltb (size_max - length au) (length a + length b)
        ≡ false =
      ground (arith, h) in
    let size : length (a ++ (b ++ au)) ≡ n =
      omega (arith, length-append a (b ++ au), length-append b au) in
    rw
      (
        size-in_front sets.sps mask 7 (omega arith),
        size-in_front sets.pps mask 8 (omega arith),
        copied-in_front sets.sps mask 7,
        copied-in_front sets.pps mask 8,
      )
      (elim (Bool-cases (length a == 0 && length b == 0)) [
        | inl e ↦
            let alone : a ++ (b ++ au) ≡ au = nothing_added a b au e in
            rw (over, e) (refl, refl, inl (ap some (sym alone), inl alone))
        | inr e ↦ elim (Bool-cases (ltb sets.scratch.capacity n)) [
          | inl c ↦ elim (Bool-cases (alloc n)) [
            | inl y ↦ rw (over, e, c, y) (refl, refl, inl (refl, inr (omega (arith, size))))
            | inr y ↦
                rw (over, e, c, y)
                  (refl, refl, inr (refl, ground (arith, c, size), ap alloc size ∙ y))
          ]
          | inr c ↦ rw (over, e, c) (refl, refl, inl (refl, inr (ground (arith, c, size))))
        ]
      ])

-- Four bytes in front of any unit are a start code.
prefixed-Starts : (data_ : List ℕ) → has_annexb_start_code (0 ∷ 0 ∷ 0 ∷ 1 ∷ data_) ≡ true
unfolding has_annexb_start_code
prefixed-Starts data_ = ground arith

-- For a unit that is not empty and whose length is a word, what `h264_ensure_annexb` puts out begins
-- with a start code, and is the unit itself or, held by the buffer and within its capacity, the unit
-- behind a start code of four bytes; or nothing is put out and the buffer is as it was, and then the
-- length with four bytes more is no word, or the larger buffer was not had.
pub ensure_annexb-Starts :
    (alloc : ℕ → Bool) (buffer : Buffer) (data_ : List ℕ)
    → 0 < length data_
    → length data_ < 2 ^ 64
    → let result = ensure_annexb alloc buffer data_ in
      ((out : List ℕ) × (result.0 ≡ some out)
        × (has_annexb_start_code out ≡ true)
        × ((out ≡ data_)
            ⊎ ((out ≡ 0 ∷ 0 ∷ 0 ∷ 1 ∷ data_)
                × (result.1.bytes ≡ out)
                × (length data_ + 4 ≤ result.1.capacity))))
      ⊎ ((result ≡ (none, buffer))
          × ((2 ^ 64 ≤ length data_ + 4)
              ⊎ ((length data_ + 4 < 2 ^ 64) × (alloc (length data_ + 4) ≡ false))))
unfolding ensure_annexb annexb_size copy_annexb
ensure_annexb-Starts alloc buffer data_ h small =
    let more : length data_ == 0 ≡ false = ne→== (length data_) 0 (λ e. omega arith) in
    let n = length data_ + 4 in
    let framed = 0 ∷ 0 ∷ 0 ∷ 1 ∷ data_ in
    let starts = prefixed-Starts data_ in
    elim (Bool-cases (has_annexb_start_code data_)) [
      | inl e ↦ rw (more, e) (inl (data_, refl, e, inl refl))
      | inr e ↦ elim (Bool-cases (ltb (n % 2 ^ 64) (length data_))) [
        | inl over ↦ rw (more, e, over) (inr (refl, inl (ground (arith, over))))
        | inr fits ↦
            let whole : n % 2 ^ 64 ≡ n = ground (arith, fits) in
            let bound : n < 2 ^ 64 = ground (arith, fits) in
            elim (Bool-cases (ltb buffer.capacity n)) [
              | inl c ↦ elim (Bool-cases (alloc n)) [
                | inl y ↦
                    rw (more, e, fits, whole, c, y)
                      (inl (framed, refl, starts, inr (refl, refl, omega arith)))
                | inr y ↦ rw (more, e, fits, whole, c, y) (inr (refl, inr (bound, refl)))
              ]
              | inr c ↦
                  rw (more, e, fits, whole, c)
                    (inl (framed, refl, starts, inr (refl, refl, ground (arith, c))))
            ]
      ]
    ]
