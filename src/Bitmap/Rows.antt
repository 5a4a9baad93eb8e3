-- ===== src/Bitmap/Rows.antt =====
-- The two loops of `send_classic_bitmap_frame` (src/rdp_bitmap.c) over the tiles.
use nanokvm_rdp.Prelude.{
  ℕ, zero, suc, ◌+◌, ◌^◌, ◌<◌, ◌≤◌, ◌≡◌, ◌⊎◌, refl, Bool, List, Option, some, ltb, arith,
  Bool-cases, inl, inr, add_u16, ltb→lt,
}
use nanokvm_rdp.Bitmap.{
  Picture, Rectangle, Slice, Answers, Outcome, goes_on, yields, fails, tile_size, send_tile,
  send_row, send_rows,
}
use nanokvm_rdp.Bitmap.Tile.{
  Between, Grows, Done, Done-Grows, Behind, TileResult, passed, paused, broken, in-Tile,
  send_tile-TileResult,
}

module _ (width height : ℕ) (valid : Bool) (before bgra : Picture) where
  abbrev Updates : Type 0
  Updates = List (List Rectangle)

  -- What became of the tiles from a place on: to the end of the row or of the frame, or to a place to
  -- resume from. `Part` is where they stand, and
  -- `Place` where a place can be.
  pub data LoopResult (Part Place : ℕ → ℕ → Type 0) (updates : Updates) : Outcome → Type 0 where
    through :
        (next : Slice)
        → Between width height valid before bgra next
        → Grows width height valid before bgra updates next.updates
        → ((x y : ℕ)
            → x < width
            → y < height
            → Part x y
            → Done width height valid before bgra next.updates x y)
        → LoopResult Part Place updates (goes_on next)
    stopped :
        (l t : ℕ) (next : Slice)
        → Between width height valid before bgra next
        → Grows width height valid before bgra updates next.updates
        → Place l t
        → ((x y : ℕ)
            → x < width
            → y < height
            → Part x y
            → Behind width height valid before bgra l t x y
            → Done width height valid before bgra next.updates x y)
        → LoopResult Part Place updates (yields l t next)
    failed : (next : Slice) → LoopResult Part Place updates (fails next)

  abbrev InRow : ℕ → ℕ → ℕ → ℕ → Type 0
  InRow left top x y = (left ≤ x) × (top ≤ y) × (y < top + tile_size)

  abbrev InNext : ℕ → ℕ → ℕ → Type 0
  InNext top l t = (t ≡ top) ⊎ ((t ≡ top + tile_size) × (l ≡ 0))

  -- The loop has come to its end, with this result.
  abbrev pub Ends : (ℕ → ℕ → Type 0) → (ℕ → ℕ → Type 0) → Updates → Option Outcome → Type 0
  Ends Part Place updates run =
      (out : Outcome) × (run ≡ some out) × LoopResult Part Place updates out

  module _ (max_update : ℕ) (answers : ℕ → Answers) (width_in : width + tile_size ≤ 2 ^ 16)
      (height_in : height + tile_size ≤ 2 ^ 16) where
    abbrev row_from : ℕ → ℕ → ℕ → Slice → Option Outcome
    row_from fuel left top slice =
        send_row width height valid max_update bgra answers fuel left top slice

    module _ (top : ℕ) (above : top < height) where
      -- The rest of a row behind one of its tiles.
      row_behind :
          (fuel left : ℕ) (inside : left < width) (updates : Updates) (out : Outcome)
          → TileResult width height valid before bgra max_update answers left top inside above
              width_in height_in updates out
          → ((next : Slice)
              → Between width height valid before bgra next
              → Ends
                  (InRow (left + tile_size) top)
                  (InNext top)
                  next.updates
                  (row_from fuel (add_u16 left tile_size) top next))
          → Ends (InRow left top) (InNext top) updates (elim out [
            | goes_on next ↦ row_from fuel (add_u16 left tile_size) top next
            | yields l t next ↦ some (yields l t next)
            | fails next ↦ some (fails next)
          ])
      row_behind fuel left inside updates (goes_on next) (passed _ b grows done) again =
          let (out, run, result) = again next b in (out, run, joined out result)
        where
          joined :
              (out : Outcome)
              → LoopResult (InRow (left + tile_size) top) (InNext top) next.updates out
              → LoopResult (InRow left top) (InNext top) updates out
          joined (goes_on last) (through _ b' grows' done') =
              through last b' (λ x y h. grows' x y (grows x y h))
                (λ x y hx hy (a, c, d). elim (Bool-cases (ltb x (left + tile_size))) [
                  | inl now ↦
                      Done-Grows width height valid before bgra next.updates last.updates x y grows'
                        (done x y hx hy (
                          in-Tile width height valid before bgra max_update answers left top inside
                            above width_in height_in x y hy hx a (ground (arith, now)) c d))
                  | inr later ↦ done' x y hx hy (ground (arith, later), c, d)
                ])
          joined (yields l t last) (stopped _ _ _ b' grows' place done') =
              stopped l t last b' (λ x y h. grows' x y (grows x y h)) place
                (λ x y hx hy (a, c, d) behind. elim (Bool-cases (ltb x (left + tile_size))) [
                  | inl now ↦
                      Done-Grows width height valid before bgra next.updates last.updates x y grows'
                        (done x y hx hy (
                          in-Tile width height valid before bgra max_update answers left top inside
                            above width_in height_in x y hy hx a (ground (arith, now)) c d))
                  | inr later ↦ done' x y hx hy (ground (arith, later), c, d) behind
                ])
          joined (fails last) (failed _) = failed last
      row_behind fuel left inside updates (yields l t next) (paused _ _ _ b grows place done)
            again =
          (
            yields l t next,
            refl,
            stopped l t next b grows place
                (λ x y hx hy (a, c, d) behind. done x y hx hy a c behind),
          )
      row_behind fuel left inside updates (fails next) (broken _) again =
          (fails next, refl, failed next)

      row_step :
          (fuel left : ℕ) (slice : Slice)
          → Between width height valid before bgra slice
          → (left < width
              → (next : Slice) → Between width height valid before bgra next
              → Ends
                  (InRow (left + tile_size) top)
                  (InNext top)
                  next.updates
                  (row_from fuel (add_u16 left tile_size) top next))
          → Ends (InRow left top) (InNext top) slice.updates (row_from (suc fuel) left top slice)
      unfolding send_row
      row_step fuel left slice b again = elim (Bool-cases (ltb left width)) [
        | inr over ↦ (
          goes_on slice,
          rw (over, send_row) refl,
          through slice b (λ x y h. h) (λ x y hx hy (a, c, d). absurd (ground (arith, over))),
        )
        | inl more ↦
            let inside : left < width = ltb→lt left width more in
            rw (more, send_row)
              (row_behind fuel left inside slice.updates
                (send_tile width height valid max_update bgra answers left top slice)
                (send_tile-TileResult width height valid before bgra max_update answers left top
                  inside above width_in height_in slice b)
                (again inside))
      ]

      row_at :
          (fuel left n : ℕ) (next : Slice)
          → n ≡ left + tile_size
          → Ends
              (InRow (left + tile_size) top)
              (InNext top)
              next.updates
              (row_from fuel (left + tile_size) top next)
          → Ends (InRow (left + tile_size) top) (InNext top) next.updates (row_from fuel n top next)
      row_at fuel left n next e h = rw e h

      send_row-Ends :
          (fuel left : ℕ) (slice : Slice)
          → width ≤ left + fuel
          → Between width height valid before bgra slice
          → Ends (InRow left top) (InNext top) slice.updates (row_from (suc fuel) left top slice)
      send_row-Ends zero left slice enough b =
          row_step 0 left slice b (λ inside next b'. absurd (omega arith))
      send_row-Ends (suc fuel) left slice enough b =
          row_step (suc fuel) left slice b (λ inside next b'.
            row_at (suc fuel) left (add_u16 left tile_size) next (omega arith)
              (send_row-Ends fuel (left + tile_size) next (omega arith) b'))

    -- From a place on to the end of the frame.
    abbrev pub Ahead : ℕ → ℕ → ℕ → ℕ → Type 0
    Ahead left top x y = ¬ Behind width height valid before bgra left top x y

    abbrev pub Anywhere : ℕ → ℕ → Type 0
    Anywhere l t = Unit {0}

    abbrev pub rows_from : ℕ → ℕ → ℕ → Slice → Option Outcome
    rows_from fuel left top slice =
        send_rows width height valid max_update bgra answers fuel left top slice

    in_row : (left top x y : ℕ) → Ahead left top x y → y < top + tile_size → InRow left top x y
    in_row left top x y ahead d = elim (Bool-cases (ltb y top)) [
      | inl over ↦ absurd (ahead (inl (ground (arith, over))))
      | inr under ↦ elim (Bool-cases (ltb x left)) [
        | inl west ↦ absurd (ahead (inr (d, ground (arith, west))))
        | inr beyond ↦ (ground (arith, beyond), ground (arith, under), d)
      ]
    ]

    rows_behind :
        (fuel left top : ℕ) (updates : Updates) (out : Outcome)
        → LoopResult (InRow left top) (InNext top) updates out
        → ((next : Slice)
            → Between width height valid before bgra next
            → Ends
                (Ahead 0 (top + tile_size))
                Anywhere
                next.updates
                (rows_from fuel 0 (add_u16 top tile_size) next))
        → Ends (Ahead left top) Anywhere updates (elim out [
          | goes_on next ↦ rows_from fuel 0 (add_u16 top tile_size) next
          | yields l t next ↦ some (yields l t next)
          | fails next ↦ some (fails next)
        ])
    rows_behind fuel left top updates (goes_on next) (through _ b grows done) again =
        let (out, run, result) = again next b in (out, run, joined out result)
      where
        below : (x y : ℕ) → top + tile_size ≤ y → Ahead 0 (top + tile_size) x y
        below x y h (inl over) = omega arith
        below x y h (inr (_, less)) = omega arith

        joined :
            (out : Outcome)
            → LoopResult (Ahead 0 (top + tile_size)) Anywhere next.updates out
            → LoopResult (Ahead left top) Anywhere updates out
        joined (goes_on last) (through _ b' grows' done') =
            through last b' (λ x y h. grows' x y (grows x y h))
              (λ x y hx hy ahead. elim (Bool-cases (ltb y (top + tile_size))) [
                | inl now ↦
                    Done-Grows width height valid before bgra next.updates last.updates x y grows'
                      (done x y hx hy (in_row left top x y ahead (ground (arith, now))))
                | inr later ↦ done' x y hx hy (below x y (ground (arith, later)))
              ])
        joined (yields l t last) (stopped _ _ _ b' grows' place done') =
            stopped l t last b' (λ x y h. grows' x y (grows x y h)) tt
              (λ x y hx hy ahead behind. elim (Bool-cases (ltb y (top + tile_size))) [
                | inl now ↦
                    Done-Grows width height valid before bgra next.updates last.updates x y grows'
                      (done x y hx hy (in_row left top x y ahead (ground (arith, now))))
                | inr later ↦ done' x y hx hy (below x y (ground (arith, later))) behind
              ])
        joined (fails last) (failed _) = failed last
    rows_behind fuel left top updates (yields l t next) (stopped _ _ _ b grows place done) again = (
      yields l t next,
      refl,
      stopped l t next b grows tt (λ x y hx hy ahead behind.
          done x y hx hy (in_row left top x y ahead (in_strip x y behind place)) behind),
    )
      where
        in_strip :
            (x y : ℕ)
            → Behind width height valid before bgra l t x y
            → InNext top l t
            → y < top + tile_size
        in_strip x y (inl over) place = ground arith
        in_strip x y (inr (d, less)) (inl same) = omega arith
        in_strip x y (inr (d, less)) (inr (below, none_left)) = absurd (omega arith)
    rows_behind fuel left top updates (fails next) (failed _) again =
        (fails next, refl, failed next)

    rows_step :
        (fuel left top : ℕ) (slice : Slice)
        → Between width height valid before bgra slice
        → (top < height
            → (next : Slice) → Between width height valid before bgra next
            → Ends
                (Ahead 0 (top + tile_size))
                Anywhere
                next.updates
                (rows_from fuel 0 (add_u16 top tile_size) next))
        → Ends (Ahead left top) Anywhere slice.updates (rows_from (suc fuel) left top slice)
    unfolding send_rows
    rows_step fuel left top slice b again = elim (Bool-cases (ltb top height)) [
      | inr over ↦ (
        goes_on slice,
        rw (over, send_rows) refl,
        through slice b (λ x y h. h)
            (λ x y hx hy ahead. absurd (ahead (inl (ground (arith, over))))),
      )
      | inl more ↦
          let above : top < height = ltb→lt top height more in
          let (out, run, result) = send_row-Ends top above width left slice (omega arith) b in
          rw (more, send_rows, run)
            (rows_behind fuel left top slice.updates out result (again above))
    ]

    rows_at :
        (fuel top n : ℕ) (next : Slice)
        → n ≡ top + tile_size
        → Ends
            (Ahead 0 (top + tile_size))
            Anywhere
            next.updates
            (rows_from fuel 0 (top + tile_size) next)
        → Ends (Ahead 0 (top + tile_size)) Anywhere next.updates (rows_from fuel 0 n next)
    rows_at fuel top n next e h = rw e h

    pub send_rows-Ends :
        (fuel left top : ℕ) (slice : Slice)
        → height ≤ top + fuel
        → Between width height valid before bgra slice
        → Ends (Ahead left top) Anywhere slice.updates (rows_from (suc fuel) left top slice)
    send_rows-Ends zero left top slice enough b =
        rows_step 0 left top slice b (λ above next b'. absurd (omega arith))
    send_rows-Ends (suc fuel) left top slice enough b =
        rows_step (suc fuel) left top slice b (λ above next b'.
          rows_at (suc fuel) top (add_u16 top tile_size) next (omega arith)
            (send_rows-Ends fuel 0 (top + tile_size) next (omega arith) b'))
