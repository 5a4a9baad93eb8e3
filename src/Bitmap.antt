-- ===== src/Bitmap.antt =====
-- The classic bitmap path of the RDP peer: src/bitmap_diff.h and the part of src/rdp_bitmap.c that sends
-- a decoded frame in tiles. A picture is the function from an index to its byte. What FreeRDP, the clock
-- and the memory answer is an argument; a `Client` has the fields that this path uses.
pub mod Tiles
pub mod Tile
pub mod Rows
pub mod Frame
use nanokvm_rdp.Prelude.{
  ℕ, zero, suc, ◌+◌, ◌-◌, ◌*◌, ◌/◌, ◌^◌, Bool, true, false, ◌&&◌, ◌||◌, not, List, [], ◌∷◌, ◌++◌,
  Option, none, some, length, ltb, leb, ◌==◌, if◌then◌else◌, u8, u16, add_u16, add_u32, bit_and,
  bit_or,
}

abbrev pub Picture : Type 0
Picture = ℕ → ℕ

abbrev pub offset_of : ℕ → ℕ → ℕ → ℕ
offset_of width x y = (y * width + x) * 4

-- Some number from `start` on, among as many as there are rounds, passes the test.
unfoldable pub any_from : ℕ → ℕ → (ℕ → Bool) → Bool
any_from zero start test = false
any_from (suc rounds) start test = test start || any_from rounds (start + 1) test

abbrev pub pixel_changed : Picture → Picture → ℕ → Bool
pixel_changed previous current pixel =
    not (previous pixel == current pixel)
    || (not (previous (pixel + 1) == current (pixel + 1))
        || not (previous (pixel + 2) == current (pixel + 2)))

unfoldable pub bitmap_tile_changed : Option Picture → Picture → ℕ → ℕ → ℕ → ℕ → ℕ → Bool
bitmap_tile_changed none current width left top columns rows = true
bitmap_tile_changed (some previous) current width left top columns rows = any_from rows 0 λ row.
    any_from columns 0
      λ column. pixel_changed previous current (offset_of width left (top + row) + column * 4)

-- `memcpy(destination + offset, source + offset, length)`.
abbrev pub copy : Picture → Picture → ℕ → ℕ → Picture
copy destination source offset size index =
    if leb offset index && ltb index (offset + size) then source index else destination index

unfoldable pub copy_rows : ℕ → ℕ → Picture → Picture → ℕ → ℕ → ℕ → ℕ → Picture
copy_rows zero row destination source width left top columns = destination
copy_rows (suc rounds) row destination source width left top columns =
    copy_rows rounds (row + 1)
      (copy destination source (offset_of width left (top + row)) (columns * 4)) source width left
      top columns

unfoldable pub classic_tile_copy : Picture → Picture → ℕ → ℕ → ℕ → ℕ → ℕ → Picture
classic_tile_copy destination source width left top columns rows =
    copy_rows rows 0 destination source width left top columns

abbrev pub color : Picture → ℕ → ℕ
color bgra pixel = u16 (
    bit_or
      (bit_or (bit_and (bgra (pixel + 2)) 0xf8 * 2 ^ 8) (bit_and (bgra (pixel + 1)) 0xfc * 2 ^ 3))
      (bgra pixel / 2 ^ 3))

unfoldable pub pack_row : ℕ → ℕ → Picture → ℕ → List ℕ
pack_row zero column bgra offset = []
pack_row (suc rounds) column bgra offset =
    let c = color bgra (offset + column * 4) in
    u8 c ∷ u8 (c / 2 ^ 8) ∷ pack_row rounds (column + 1) bgra offset

unfoldable pub pack_rows : ℕ → ℕ → Picture → ℕ → ℕ → ℕ → ℕ → List ℕ
pack_rows zero row bgra width left top columns = []
pack_rows (suc rounds) row bgra width left top columns =
    pack_row columns 0 bgra (offset_of width left (top + row))
    ++ pack_rows rounds (row + 1) bgra width left top columns

unfoldable pub classic_pack_rgb16 : Picture → ℕ → ℕ → ℕ → ℕ → ℕ → List ℕ
classic_pack_rgb16 bgra width left top columns rows = pack_rows rows 0 bgra width left top columns

abbrev pub tile_size : ℕ
tile_size = 64

abbrev pub tile_max_encoded : ℕ
tile_max_encoded = tile_size * tile_size * 2

abbrev pub batch : ℕ
batch = 1

abbrev pub max_update_size : ℕ
max_update_size = 32 * 1024

abbrev pub slice_budget_ms : ℕ
slice_budget_ms = 4

-- The fields of BITMAP_DATA that depend on the tile.
pub record Rectangle : Type 0 where
  pub dest_left : ℕ
  pub dest_top : ℕ
  pub dest_right : ℕ
  pub dest_bottom : ℕ
  pub width : ℕ
  pub height : ℕ
  pub data_ : List ℕ

pub record Client : Type 0 where
  pub render_width : ℕ
  pub render_height : ℕ
  pub previous_bitmap : Option Picture
  pub previous_bitmap_length : ℕ
  pub previous_bitmap_valid : Bool
  pub has_encoded : Bool
  pub resume_left : ℕ
  pub resume_top : ℕ
  pub frame_open : Bool
  pub tiles_sent : ℕ
  pub bytes_sent : ℕ

-- The picture that is compared with, and the local variables of the loop. `updates` has what was
-- given to BitmapUpdate, the last one first.
pub record Slice : Type 0 where
  pub previous : Picture
  pub rectangles : List Rectangle
  pub update_size : ℕ
  pub frame_tiles : ℕ
  pub frame_bytes : ℕ
  pub updates : List (List Rectangle)
  pub visited : ℕ

-- What is answered while a tile is looked at: the milliseconds since the call began, whether the two
-- BitmapUpdates succeed, whether the output is ready after the first, and blocked after the second.
pub record Answers : Type 0 where
  pub elapsed : ℕ
  pub wrote_before : Bool
  pub ready : Bool
  pub wrote : Bool
  pub blocked : Bool

-- The loop goes on, yields at the place to resume from, or fails.
pub data Outcome : Type 0 where
  goes_on : Slice → Outcome
  yields : ℕ → ℕ → Slice → Outcome
  fails : Slice → Outcome

abbrev pub least : ℕ → ℕ → ℕ
least a b = if ltb a b then a else b

abbrev pub flushed : Slice → Slice
flushed slice = record slice {
  rectangles = [];
  update_size = 1024;
  updates = slice.rectangles ∷ slice.updates;
}

module _ (width height : ℕ) (valid : Bool) (max_update : ℕ) (bgra : Picture)
    (answers : ℕ → Answers) where
  abbrev pub rectangle_at : ℕ → ℕ → Rectangle
  rectangle_at left top =
      let rows = least tile_size (height - top) in
      let columns = least tile_size (width - left) in
      record {
        dest_left = left;
        dest_top = top;
        dest_right = left + columns - 1;
        dest_bottom = top + rows - 1;
        width = columns;
        height = rows;
        data_ = classic_pack_rgb16 bgra width left top columns rows;
      }

  -- A changed tile is packed, put into the update, and sent when the update is full.
  unfoldable pub put_tile : ℕ → ℕ → Answers → Slice → Outcome
  put_tile left top answer slice =
      let rows = least tile_size (height - top) in
      let columns = least tile_size (width - left) in
      let next : Slice = record slice {
        previous = classic_tile_copy slice.previous bgra width left top columns rows;
        rectangles = slice.rectangles ++ rectangle_at left top ∷ [];
        update_size = add_u32 slice.update_size (columns * rows * 2 + 16);
        frame_tiles = slice.frame_tiles + 1;
        frame_bytes = slice.frame_bytes + columns * rows * 2;
      } in
      let after = u16 (left + tile_size) in
      if length next.rectangles == batch
      then if answer.wrote
        then if answer.blocked
          then if leb width after
            then yields 0 (u16 (top + tile_size)) (flushed next)
            else yields after top (flushed next)
          else goes_on (flushed next)
        else fails next
      else goes_on next

  unfoldable pub send_tile : ℕ → ℕ → Slice → Outcome
  send_tile left top before =
      let rows = least tile_size (height - top) in
      let columns = least tile_size (width - left) in
      let encoded = columns * rows * 2 in
      let answer = answers before.visited in
      let slice = record before { visited = before.visited + 1 } in
      if leb 1 slice.frame_tiles && leb slice_budget_ms answer.elapsed
      then yields left top slice
      else if valid
          && not (bitmap_tile_changed (some slice.previous) bgra width left top columns rows)
      then goes_on slice
      else if encoded == 0 || ltb tile_max_encoded encoded
      then fails slice
      else if ltb 0 (length slice.rectangles)
          && leb max_update (add_u32 (add_u32 slice.update_size encoded) 16)
      then if answer.wrote_before
        then if answer.ready
          then put_tile left top answer (flushed slice)
          else yields left top (flushed slice)
        else fails slice
      else put_tile left top answer slice

  -- The loop over a row of tiles, on fuel.
  unfoldable pub send_row : ℕ → ℕ → ℕ → Slice → Option Outcome
  send_row zero left top slice = none
  send_row (suc fuel) left top slice = elim (ltb left width) [
    | false ↦ some (goes_on slice)
    | true ↦ elim (send_tile left top slice) [
      | goes_on next ↦ send_row fuel (add_u16 left tile_size) top next
      | yields l t next ↦ some (yields l t next)
      | fails next ↦ some (fails next)
    ]
  ]

  -- The loop over the rows, each of which begins at the left but the one that is resumed.
  unfoldable pub send_rows : ℕ → ℕ → ℕ → Slice → Option Outcome
  send_rows zero left top slice = none
  send_rows (suc fuel) left top slice = elim (ltb top height) [
    | false ↦ some (goes_on slice)
    | true ↦ elim (send_row (suc width) left top slice) [
      | none ↦ none
      | some outcome ↦ elim outcome [
        | goes_on next ↦ send_rows fuel 0 (add_u16 top tile_size) next
        | yields l t next ↦ some (yields l t next)
        | fails next ↦ some (fails next)
      ]
    ]
  ]

-- What `client_output_write_ready` reads of the peer, before and after it drains the output.
pub record PeerAnswers : Type 0 where
  pub connected : Bool
  pub stopped : Bool
  pub has_functions : Bool
  pub blocked : Bool
  pub connected_after : Bool
  pub stopped_after : Bool
  pub blocked_after : Bool

unfoldable pub output_write_ready : PeerAnswers → Bool
output_write_ready peer =
    if not peer.connected || (peer.stopped || not peer.has_functions)
    then false
    else if not peer.blocked
    then true
    else peer.connected_after && (not peer.stopped_after && not peer.blocked_after)

-- What a call is answered. `memory` is what stands in the block that `malloc` gives, if it gives one.
pub record FrameAnswers : Type 0 where
  pub can_update : Bool
  pub stopped : Bool
  pub peer : PeerAnswers
  pub memory : Option Picture
  pub negotiated_update_size : ℕ
  pub tiles : ℕ → Answers
  pub wrote_last : Bool

unfoldable pub with_previous : Client → Option Picture → Client
with_previous client memory = elim client.previous_bitmap [
  | some p ↦ client
  | none ↦ elim memory [
    | none ↦ record client { previous_bitmap = none; previous_bitmap_length = 0 }
    | some p ↦ record client {
      previous_bitmap = some p;
      previous_bitmap_length = client.render_width * client.render_height * 4;
    }
  ]
]

-- What the loop leaves for the client, with its result; the last update goes out after the loop.
unfoldable pub finish_frame : Client → Outcome → Bool → Bool × Client × List (List Rectangle)
finish_frame client (fails slice) wrote_last =
    (false, record client { previous_bitmap = some slice.previous }, slice.updates)
finish_frame client (yields left top slice) wrote_last =
    let paused = record client {
      previous_bitmap = some slice.previous;
      resume_left = left;
      resume_top = top;
      frame_open = true;
    } in
    let counted = record paused {
      tiles_sent = client.tiles_sent + slice.frame_tiles;
      bytes_sent = client.bytes_sent + slice.frame_bytes;
    } in
    if length slice.rectangles == 0
    then (true, counted, slice.updates)
    else if wrote_last
    then (true, counted, (flushed slice).updates)
    else (false, paused, slice.updates)
finish_frame client (goes_on slice) wrote_last =
    let kept = record client { previous_bitmap = some slice.previous } in
    let done = record kept {
      tiles_sent = client.tiles_sent + slice.frame_tiles;
      bytes_sent = client.bytes_sent + slice.frame_bytes;
      resume_left = 0;
      resume_top = 0;
      frame_open = false;
      previous_bitmap_valid = ltb 0 slice.frame_tiles || client.previous_bitmap_valid;
    } in
    if length slice.rectangles == 0
    then (true, done, slice.updates)
    else if wrote_last
    then (true, done, (flushed slice).updates)
    else (false, kept, slice.updates)

abbrev pub first_slice : Picture → Slice
first_slice previous = record {
  previous = previous;
  rectangles = [];
  update_size = 1024;
  frame_tiles = 0;
  frame_bytes = 0;
  updates = [];
  visited = 0;
}

-- The result, the client and the updates that were sent; `none` if the loop is endless.
unfoldable pub send_classic_bitmap_frame :
    Client → Picture → ℕ → FrameAnswers → Option (Bool × Client × List (List Rectangle))
send_classic_bitmap_frame client bgra size answers =
    let width = client.render_width in
    let height = client.render_height in
    let expected = width * height * 4 in
    let max_update = least answers.negotiated_update_size max_update_size in
    let ready = with_previous client answers.memory in
    if not answers.can_update
      || (not client.has_encoded || (not (size == expected) || answers.stopped))
    then some (false, client, [])
    else if not (output_write_ready answers.peer)
    then some (true, record client { frame_open = true }, [])
    else elim ready.previous_bitmap [
      | none ↦ some (false, ready, [])
      | some previous ↦
          if not (ready.previous_bitmap_length == expected)
          then some (false, ready, [])
          else elim (send_rows width height client.previous_bitmap_valid max_update bgra
              answers.tiles (suc height) client.resume_left client.resume_top
              (first_slice previous)) [
                | none ↦ none
                | some outcome ↦ some (finish_frame ready outcome answers.wrote_last)
              ]
    ]
