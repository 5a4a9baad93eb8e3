-- ===== src/Tests/Bitmap.antt =====
-- src/rdp_bitmap.c at a screen of two pixels, the second of which is red.
use nanokvm_rdp.Prelude.{
  ℕ, ◌≡◌, refl, Bool, true, false, List, [], ◌∷◌, Option, none, some, arith, ◌==◌, if◌then◌else◌,
}
use nanokvm_rdp.Bitmap.{
  Picture, Client, FrameAnswers, Rectangle, send_classic_bitmap_frame, output_write_ready,
  with_previous, finish_frame, send_rows, send_row, send_tile, put_tile, bitmap_tile_changed,
  any_from, classic_tile_copy, copy_rows, classic_pack_rgb16, pack_rows, pack_row,
}
use nanokvm_rdp.Bitmap.Frame.{Shows, send_classic_bitmap_frame-Shows}

abbrev red_pixel : Picture
red_pixel i = if i == 6 then 255 else 0

abbrev new_client : Client
new_client = record {
  render_width = 2;
  render_height = 1;
  previous_bitmap = none;
  previous_bitmap_length = 0;
  previous_bitmap_valid = false;
  has_encoded = true;
  resume_left = 0;
  resume_top = 0;
  frame_open = false;
  tiles_sent = 0;
  bytes_sent = 0;
}

abbrev at_once : FrameAnswers
at_once = record {
  can_update = true;
  stopped = false;
  peer = record {
    connected = true;
    stopped = false;
    has_functions = true;
    blocked = false;
    connected_after = true;
    stopped_after = false;
    blocked_after = false;
  };
  memory = some λ i. 0;
  negotiated_update_size = 65_536;
  tiles = λ (n : ℕ). record {
    elapsed = 0;
    wrote_before = true;
    ready = true;
    wrote = true;
    blocked = false;
  };
  wrote_last = true;
}

send_classic_bitmap_frame-Shows_example :
    Shows new_client red_pixel at_once (send_classic_bitmap_frame new_client red_pixel 8 at_once)
send_classic_bitmap_frame-Shows_example =
    send_classic_bitmap_frame-Shows new_client red_pixel at_once 8 (omega arith) (omega arith)

-- The rectangles of the updates.
abbrev sent_of : Option (Bool × Client × List (List Rectangle)) → List (List Rectangle)
sent_of none = []
sent_of (some (ok, client, updates)) = updates

one_rectangle :
    sent_of (send_classic_bitmap_frame new_client red_pixel 8 at_once)
    ≡ (record {
      dest_left = 0;
      dest_top = 0;
      dest_right = 1;
      dest_bottom = 0;
      width = 2;
      height = 1;
      data_ = 0 ∷ 0 ∷ 0 ∷ 0xf8 ∷ [];
    }
        ∷ [])
      ∷ []
unfolding send_classic_bitmap_frame output_write_ready with_previous finish_frame send_rows send_row
    send_tile put_tile bitmap_tile_changed any_from classic_tile_copy copy_rows classic_pack_rgb16
    pack_rows pack_row
one_rectangle = refl
