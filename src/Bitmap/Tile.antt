-- ===== src/Bitmap/Tile.antt =====
-- One tile of `send_classic_bitmap_frame` (src/rdp_bitmap.c): what was sent of the picture, and what the
-- client is known to show.
use nanokvm_rdp.Prelude.{
  ℕ, ◌+◌, ◌-◌, ◌*◌, ◌^◌, ◌<◌, ◌≤◌, ◌≡◌, ◌⊎◌, refl, Bool, true, false, ◌&&◌, ◌||◌, not, List, [],
  ◌∷◌, some, length, ltb, leb, ◌==◌, arith, Bool-cases, inl, inr, ap, ◌∙◌, sym, u16, add_u32,
}
use nanokvm_rdp.Bitmap.{
  Picture, Rectangle, Slice, Answers, Outcome, goes_on, yields, fails, tile_size, least,
  tile_max_encoded, slice_budget_ms, bitmap_tile_changed, classic_tile_copy, rectangle_at, put_tile,
  send_tile,
}
use nanokvm_rdp.Bitmap.Tiles.{
  SamePixel, InTile, unchanged-SamePixel, classic_tile_copy-SamePixel, classic_tile_copy-fixed,
  classic_tile_copy-outside,
}

-- The rectangle, one of an update, or one of the updates has the pixel.
abbrev pub covers : Rectangle → ℕ → ℕ → Bool
covers r x y =
    leb r.dest_left x && (leb x r.dest_right && (leb r.dest_top y && leb y r.dest_bottom))

abbrev pub has_pixel : List Rectangle → ℕ → ℕ → Bool
has_pixel [] x y = false
has_pixel (r ∷ rs) x y = covers r x y || has_pixel rs x y

abbrev pub covered : List (List Rectangle) → ℕ → ℕ → Bool
covered [] x y = false
covered (update ∷ updates) x y = has_pixel update x y || covered updates x y

SamePixel-trans :
    {width : ℕ} {p q r : Picture} {x y : ℕ}
    → SamePixel width p q x y
    → SamePixel width q r x y
    → SamePixel width p r x y
SamePixel-trans h k = record {
  blue = h.blue ∙ k.blue;
  green = h.green ∙ k.green;
  red = h.red ∙ k.red;
}

module _ (width height : ℕ) (valid : Bool) (before bgra : Picture) where
  -- What was sent is in the picture that is compared with, and the rest of it is as it was.
  pub record Agrees (previous : Picture) (updates : List (List Rectangle)) : Type 0 where
    pub sent :
        (x y : ℕ)
        → x < width
        → y < height
        → covered updates x y ≡ true
        → SamePixel width previous bgra x y
    pub kept :
        (x y : ℕ)
        → x < width
        → y < height
        → covered updates x y ≡ false
        → SamePixel width previous before x y

  -- The pixel of the frame was sent, or it was shown before.
  abbrev pub Done : List (List Rectangle) → ℕ → ℕ → Type 0
  Done updates x y =
      (covered updates x y ≡ true) ⊎ ((valid ≡ true) × SamePixel width before bgra x y)

  pub record Between (slice : Slice) : Type 0 where
    pub pending : slice.rectangles ≡ []
    pub agrees : Agrees slice.previous slice.updates

  -- Nothing that was sent is taken back.
  abbrev pub Grows : List (List Rectangle) → List (List Rectangle) → Type 0
  Grows updates later = (x y : ℕ) → covered updates x y ≡ true → covered later x y ≡ true

  pub Done-Grows :
      (updates later : List (List Rectangle)) (x y : ℕ)
      → Grows updates later
      → Done updates x y
      → Done later x y
  Done-Grows updates later x y grows (inl sent) = inl (grows x y sent)
  Done-Grows updates later x y grows (inr shown) = inr shown

  -- The part of the frame that a tile has.
  abbrev pub columns_at : ℕ → ℕ
  columns_at left = least tile_size (width - left)

  abbrev pub rows_at : ℕ → ℕ
  rows_at top = least tile_size (height - top)

  abbrev pub Tile : ℕ → ℕ → ℕ → ℕ → Type 0
  Tile left top x y = InTile left top (columns_at left) (rows_at top) x y

  -- The pixels that come before a place in the order of the loop.
  abbrev pub Behind : ℕ → ℕ → ℕ → ℕ → Type 0
  Behind left top x y = (y < top) ⊎ ((y < top + tile_size) × (x < left))

  unchanged-Done :
      {slice : Slice} (left top x y : ℕ)
      → Between slice
      → valid ≡ true
      → bitmap_tile_changed
          (some slice.previous)
          bgra
          width
          left
          top
          (columns_at left)
          (rows_at top)
        ≡ false
      → x < width
      → y < height
      → Tile left top x y
      → Done slice.updates x y
  unchanged-Done {slice} left top x y b v same hx hy t =
      elim (Bool-cases (covered slice.updates x y)) [
        | inl sent ↦ inl sent
        | inr kept ↦
            let now =
              unchanged-SamePixel slice.previous bgra width left top (columns_at left) (rows_at top)
                x y same t.from_left t.to_right t.from_top t.to_bottom in
            let old = b.agrees.kept x y hx hy kept in
            inr (
              v,
              record {
                blue = sym old.blue ∙ now.blue;
                green = sym old.green ∙ now.green;
                red = sym old.red ∙ now.red;
              },
            )
      ]

  module _ (max_update : ℕ) (answers : ℕ → Answers) (left top : ℕ) (inside : left < width)
      (above : top < height) (width_in : width + tile_size ≤ 2 ^ 16)
      (height_in : height + tile_size ≤ 2 ^ 16) where
    here : Rectangle
    here = rectangle_at width height valid max_update bgra answers left top

    covers-Tile : (x y : ℕ) → covers here x y ≡ true → Tile left top x y
    unfolding here
    covers-Tile x y e = record {
      from_left = ground (arith, e);
      to_right = ground (arith, e);
      from_top = ground (arith, e);
      to_bottom = ground (arith, e);
    }

    Tile-covers : (x y : ℕ) → Tile left top x y → covers here x y ≡ true
    unfolding here
    Tile-covers x y t = ground (arith, t.from_left, t.to_right, t.from_top, t.to_bottom)

    copied : Picture → Picture
    copied p = classic_tile_copy p bgra width left top (columns_at left) (rows_at top)

    put-Agrees :
        (p : Picture) (updates : List (List Rectangle))
        → Agrees p updates
        → Agrees (copied p) ((here ∷ []) ∷ updates)
    unfolding copied
    put-Agrees p updates a = record {
      sent = λ x y hx hy e. elim (Bool-cases (covers here x y)) [
        | inl now ↦
            let t = covers-Tile x y now in
            classic_tile_copy-SamePixel p bgra width left top (columns_at left) (rows_at top) x y
              t.from_left t.to_right t.from_top t.to_bottom
        | inr old ↦
            let same = a.sent x y hx hy (rw old at e) in
            record {
              blue =
                  classic_tile_copy-fixed p bgra width left top (columns_at left) (rows_at top) _
                    same.blue;
              green =
                  classic_tile_copy-fixed p bgra width left top (columns_at left) (rows_at top) _
                    same.green;
              red =
                  classic_tile_copy-fixed p bgra width left top (columns_at left) (rows_at top) _
                    same.red;
            }
      ];
      kept = λ x y hx hy e. elim (Bool-cases (covers here x y)) [
        | inl now ↦ absurd (cc (rw now at e))
        | inr out ↦
            SamePixel-trans
              (classic_tile_copy-outside p bgra width left top (columns_at left) (rows_at top) x y
                (ground arith) hx (λ t. absurd (cc (Tile-covers x y t))))
              (a.kept x y hx hy (rw out at e))
      ];
    }

    -- What became of a tile: of the pixels from it on, those before the next place are done.
    pub data TileResult (updates : List (List Rectangle)) : Outcome → Type 0 where
      passed :
          (next : Slice)
          → Between next
          → Grows updates next.updates
          → ((x y : ℕ) → x < width → y < height → Tile left top x y → Done next.updates x y)
          → TileResult updates (goes_on next)
      paused :
          (l t : ℕ) (next : Slice)
          → Between next
          → Grows updates next.updates
          → (t ≡ top) ⊎ ((t ≡ top + tile_size) × (l ≡ 0))
          → ((x y : ℕ)
              → x < width
              → y < height
              → left ≤ x
              → top ≤ y
              → Behind l t x y
              → Done next.updates x y)
          → TileResult updates (yields l t next)
      broken : (next : Slice) → TileResult updates (fails next)

    -- The slice behind a tile that was sent.
    Sends : Slice → Slice → Type 0
    Sends slice next = Between next × (next.updates ≡ (here ∷ []) ∷ slice.updates)

    Sends-Grows : (slice next : Slice) → Sends slice next → Grows slice.updates next.updates
    unfolding Sends
    Sends-Grows slice next (b, e) x y h =
        ap (λ (u : List (List Rectangle)). covered u x y) e ∙ or_true (covers here x y || false) h
      where
        or_true : {b : Bool} (a : Bool) → b ≡ true → (a || b) ≡ true
        or_true true e = refl
        or_true false e = e

    Sends-Done :
        (slice next : Slice) (x y : ℕ)
        → Sends slice next
        → Tile left top x y
        → Done next.updates x y
    unfolding Sends
    Sends-Done slice next x y (b, e) t =
        inl (ap (λ (u : List (List Rectangle)). covered u x y) e ∙ rw (Tile-covers x y t) refl)

    pub in-Tile :
        (x y : ℕ)
        → y < height
        → x < width
        → left ≤ x
        → x < left + tile_size
        → top ≤ y
        → y < top + tile_size
        → Tile left top x y
    in-Tile x y hy hx a b c d = record {
      from_left = a;
      to_right = ground arith;
      from_top = c;
      to_bottom = ground arith;
    }

    put_tile-TileResult :
        (answer : Answers) {slice : Slice}
        → Between slice
        → TileResult slice.updates
            (put_tile width height valid max_update bgra answers left top answer slice)
    unfolding put_tile here copied Sends
    put_tile-TileResult answer {slice} b =
        let next : Slice = record slice {
          previous = copied slice.previous;
          rectangles = [];
          update_size = 1024;
          frame_tiles = slice.frame_tiles + 1;
          frame_bytes = slice.frame_bytes + columns_at left * rows_at top * 2;
          updates = (here ∷ []) ∷ slice.updates;
        } in
        let sends : Sends slice next = (
          record { pending = refl; agrees = put-Agrees slice.previous slice.updates b.agrees },
          refl,
        ) in
        rw (b.pending, put_tile)
          (elim (Bool-cases answer.wrote) [
            | inr failed ↦ rw failed (broken _)
            | inl wrote ↦ elim (Bool-cases answer.blocked) [
              | inr free ↦
                  rw (wrote, free)
                    (passed next sends.0 (Sends-Grows slice next sends)
                      (λ x y hx hy t. Sends-Done slice next x y sends t))
              | inl blocked ↦ elim (Bool-cases (leb width (u16 (left + tile_size)))) [
                | inl wrapped ↦
                    rw (wrote, blocked, wrapped)
                      (paused 0 (u16 (top + tile_size)) next sends.0 (Sends-Grows slice next sends)
                        (inr (omega arith, refl))
                        (λ x y hx hy hl ht behind.
                          Sends-Done slice next x y sends
                            (in-Tile x y hy hx hl (ground (arith, wrapped)) ht (ground arith))))
                | inr further ↦
                    rw (wrote, blocked, further)
                      (paused (u16 (left + tile_size)) top next sends.0
                        (Sends-Grows slice next sends) (inl refl)
                        (λ x y hx hy hl ht behind.
                          Sends-Done slice next x y sends
                            (in-Tile x y hy hx hl (ground arith) ht (ground arith))))
              ]
            ]
          ])

    -- What the tile comes to, whether it is skipped, put off or sent.
    pub send_tile-TileResult :
        (slice : Slice)
        → Between slice
        → TileResult slice.updates
            (send_tile width height valid max_update bgra answers left top slice)
    unfolding send_tile
    send_tile-TileResult slice b =
        let answer : Answers = answers slice.visited in
        let seen : Slice = record slice { visited = slice.visited + 1 } in
        let between : Between seen = record { pending = b.pending; agrees = b.agrees } in
        let again : Grows slice.updates seen.updates = λ x y h. h in
        elim (Bool-cases (leb 1 slice.frame_tiles && leb slice_budget_ms answer.elapsed)) [
          | inl late ↦ rw late (
              paused left top seen between again (inl refl)
                (λ x y hx hy hl ht behind. absurd (not_behind x y hl ht behind)))
          | inr early ↦ elim (Bool-cases (valid && not changed)) [
            | inl skip ↦
                rw (early, skip)
                  (passed seen between again (λ x y hx hy t.
                    unchanged-Done left top x y between (ground (arith, skip))
                      (ground (arith, skip)) hx hy t))
            | inr send ↦ elim (Bool-cases (encoded == 0 || ltb tile_max_encoded encoded)) [
              | inl bad ↦ rw (early, send, bad) (broken seen)
              | inr good ↦
                  rw (early, send, good, no_flush b full) (put_tile-TileResult answer between)
            ]
          ]
        ]
      where
        changed : Bool
        changed =
            bitmap_tile_changed (some slice.previous) bgra width left top (columns_at left)
              (rows_at top)

        encoded : ℕ
        encoded = columns_at left * rows_at top * 2

        full : Bool
        full = leb max_update (add_u32 (add_u32 slice.update_size encoded) 16)

        no_flush : Between slice → (test : Bool) → (ltb 0 (length slice.rectangles) && test) ≡ false
        no_flush v test = rw v.pending refl

        not_behind : (x y : ℕ) → left ≤ x → top ≤ y → Behind left top x y → ⊥
        not_behind x y hl ht (inl over) = omega arith
        not_behind x y hl ht (inr (_, before)) = omega arith
