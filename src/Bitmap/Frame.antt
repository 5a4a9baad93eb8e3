-- ===== src/Bitmap/Frame.antt =====
-- A call of `send_classic_bitmap_frame` (src/rdp_bitmap.c): what the client shows after it.
use mathlib.Core.Option.{some_inj}
use nanokvm_rdp.Prelude.{
  ℕ, suc, ◌+◌, ◌*◌, ◌^◌, ◌<◌, ◌≤◌, ◌≡◌, ◌⊎◌, refl, Bool, true, false, ◌||◌, not, List, [], Option,
  none, some, length, ltb, ◌==◌, if◌then◌else◌, arith, Bool-cases, Option-cases, inl, inr, sym, ◌∙◌,
  ap,
}
use nanokvm_rdp.Bitmap.{
  Picture, Rectangle, Client, Outcome, goes_on, yields, fails, FrameAnswers, tile_size, least,
  max_update_size, offset_of, output_write_ready, with_previous, first_slice, finish_frame,
  send_rows, send_classic_bitmap_frame,
}
use nanokvm_rdp.Bitmap.Tile.{Agrees, Done}
use nanokvm_rdp.Bitmap.Rows.{LoopResult, through, stopped, failed, send_rows-Ends}

-- The picture that a frame is compared with, which is in fresh memory if there is none yet.
abbrev pub picture_of : Client → Option Picture → Picture
picture_of client memory = elim client.previous_bitmap [
  | some p ↦ p
  | none ↦ elim memory [ some p ↦ p | none ↦ λ i. 0 ]
]

module _ (client : Client) (bgra : Picture) (answers : FrameAnswers) where
  -- What a call that succeeds has done. The picture is that of the frame where something was sent, and
  -- as it was elsewhere; each pixel from the old place to resume from up to the new one, or to the
  -- end if no frame is left open, was sent, or a valid picture shows it as the frame has it.
  pub record IsShown (client' : Client) (updates : List (List Rectangle)) : Type 0 where
    pub agrees :
        Agrees client.render_width client.render_height client.previous_bitmap_valid
          (picture_of client answers.memory)
          bgra
          (picture_of client' answers.memory)
          updates
    pub done :
        (x y : ℕ)
        → x < client.render_width
        → y < client.render_height
        → ¬ (
            (y < client.resume_top)
            ⊎ ((y < client.resume_top + tile_size) × (x < client.resume_left)))
        → (client'.frame_open ≡ false)
          ⊎ ((y < client'.resume_top)
              ⊎ ((y < client'.resume_top + tile_size) × (x < client'.resume_left)))
        → Done client.render_width client.render_height client.previous_bitmap_valid
            (picture_of client answers.memory)
            bgra
            updates
            x
            y

  pub record Shows (run : Option (Bool × Client × List (List Rectangle))) : Type 0 where
    pub ok : Bool
    pub client' : Client
    pub updates : List (List Rectangle)
    pub ends : run ≡ some (ok, client', updates)
    pub shown : ok ≡ true → IsShown client' updates

  refuses : (client' : Client) → Shows (some (false, client', []))
  refuses client' = record {
    ok = false;
    client' = client';
    updates = [];
    ends = refl;
    shown = λ e. absurd (cc);
  }

  -- A frame that is put off is left open, and nothing has changed.
  put_off : Shows (some (true, record client { frame_open = true }, []))
  put_off = record {
    ok = true;
    client' = record client { frame_open = true };
    updates = [];
    ends = refl;
    shown = λ e. record {
      agrees = record {
        sent = λ x y hx hy covered. absurd (cc);
        kept = λ x y hx hy none_sent. record { blue = refl; green = refl; red = refl };
      };
      done = λ x y hx hy ahead now.
          absurd (elim now [ inl closed ↦ (cc) | inr behind ↦ ahead behind ]);
    };
  }

  -- The block for the picture is taken once, and `previous_bitmap` is then what is compared with.
  with_previous-picture :
      (previous : Picture)
      → (with_previous client answers.memory).previous_bitmap ≡ some previous
      → picture_of client answers.memory ≡ previous
  unfolding with_previous
  with_previous-picture previous e = elim (Option-cases client.previous_bitmap) [
    | inr (p, held) ↦ rw held (some_inj.0 (sym held ∙ (rw (held, with_previous) at e)))
    | inl missing ↦ elim (Option-cases answers.memory) [
      | inl out ↦ absurd (cc (rw (missing, with_previous, out) at e))
      | inr (p, got) ↦ rw (missing, got) (some_inj.0 (rw (missing, with_previous, got) at e))
    ]
  ]

  abbrev result_of : Client → Outcome → Bool → Option (Bool × Client × List (List Rectangle))
  result_of ready outcome wrote_last = some (finish_frame ready outcome wrote_last)

  finish_frame-Shows :
      (ready : Client) (outcome : Outcome) (wrote_last : Bool) (updates : List (List Rectangle))
      → LoopResult client.render_width client.render_height client.previous_bitmap_valid
          (picture_of client answers.memory)
          bgra
          (λ x y. ¬ (
            (y < client.resume_top)
            ⊎ ((y < client.resume_top + tile_size) × (x < client.resume_left))))
          (λ l t. Unit {0})
          updates
          outcome
      → Shows (result_of ready outcome wrote_last)
  unfolding finish_frame
  finish_frame-Shows ready (fails slice) wrote_last updates (failed _) = record {
    ok = false;
    client' = record ready { previous_bitmap = some slice.previous };
    updates = slice.updates;
    ends = refl;
    shown = λ e. absurd (cc);
  }
  finish_frame-Shows ready (goes_on slice) wrote_last updates (through _ b grows done) =
      let done_client : Client = record ready {
        previous_bitmap = some slice.previous;
        tiles_sent = ready.tiles_sent + slice.frame_tiles;
        bytes_sent = ready.bytes_sent + slice.frame_bytes;
        resume_left = 0;
        resume_top = 0;
        frame_open = false;
        previous_bitmap_valid = ltb 0 slice.frame_tiles || ready.previous_bitmap_valid;
      } in
      record {
        ok = true;
        client' = done_client;
        updates = slice.updates;
        ends = none_left b.pending _ _;
        shown =
            λ e. record { agrees = b.agrees; done = λ x y hx hy ahead now. done x y hx hy ahead };
      }
    where
      none_left :
          {A : Type 0} {rs : List Rectangle}
          → rs ≡ []
          → (a b : A) → ◌≡◌ {A = Option A} (some (if length rs == 0 then a else b)) (some a)
      none_left e a b = rw e refl
  finish_frame-Shows ready (yields l t slice) wrote_last updates (stopped _ _ _ b grows _ done) =
      let paused_client : Client = record ready {
        previous_bitmap = some slice.previous;
        tiles_sent = ready.tiles_sent + slice.frame_tiles;
        bytes_sent = ready.bytes_sent + slice.frame_bytes;
        resume_left = l;
        resume_top = t;
        frame_open = true;
      } in
      record {
        ok = true;
        client' = paused_client;
        updates = slice.updates;
        ends = none_left b.pending _ _;
        shown = λ e. record {
          agrees = b.agrees;
          done = λ x y hx hy ahead now. elim now [
            | inl closed ↦ absurd (cc)
            | inr behind ↦ done x y hx hy ahead behind
          ];
        };
      }
    where
      none_left :
          {A : Type 0} {rs : List Rectangle}
          → rs ≡ []
          → (a b : A) → ◌≡◌ {A = Option A} (some (if length rs == 0 then a else b)) (some a)
      none_left e a b = rw e refl

  -- For a screen whose sides leave room for one tile more in 16 bits, the loop comes to its end. When
  -- the call succeeds, the picture to compare with agrees with the frame wherever a rectangle was
  -- sent, and is unchanged elsewhere; and every pixel from the old place to resume from up to the new
  -- one, or to the end of the frame when none is left open, was sent, or is in a valid picture already
  -- as the frame has it.
  pub send_classic_bitmap_frame-Shows :
      (size : ℕ)
      → client.render_width + tile_size ≤ 2 ^ 16
      → client.render_height + tile_size ≤ 2 ^ 16
      → Shows (send_classic_bitmap_frame client bgra size answers)
  unfolding send_classic_bitmap_frame
  send_classic_bitmap_frame-Shows size width_in height_in =
      elim (Bool-cases (
        not answers.can_update
        || (not client.has_encoded || (not (size == expected) || answers.stopped)))) [
          | inl refused ↦ rw refused (refuses client)
          | inr able ↦ elim (Bool-cases (not (output_write_ready answers.peer))) [
            | inl full ↦ rw (able, full) put_off
            | inr free ↦
                rw (able, free)
                  (elim (Option-cases ready.previous_bitmap) [
                    | inl out ↦ rw out (refuses ready)
                    | inr (previous, e) ↦
                        rw e (elim (Bool-cases (not (ready.previous_bitmap_length == expected))) [
                          | inl resized ↦ rw resized (refuses ready)
                          | inr fits ↦
                              let (outcome, run, result) = loop previous e in
                              rw (fits, run)
                                (finish_frame-Shows ready outcome answers.wrote_last [] result)
                        ])
                  ])
          ]
        ]
    where
      expected : ℕ
      expected = client.render_width * client.render_height * 4

      ready : Client
      ready = with_previous client answers.memory

      loop :
          (previous : Picture)
          → ready.previous_bitmap ≡ some previous
          → (outcome : Outcome) × (send_rows client.render_width client.render_height
                client.previous_bitmap_valid
                (least answers.negotiated_update_size max_update_size)
                bgra
                answers.tiles
                (suc client.render_height)
                client.resume_left
                client.resume_top
                (first_slice previous)
              ≡ some outcome)
            × LoopResult client.render_width client.render_height client.previous_bitmap_valid
                (picture_of client answers.memory)
                bgra
                (λ x y. ¬ (
                  (y < client.resume_top)
                  ⊎ ((y < client.resume_top + tile_size) × (x < client.resume_left))))
                (λ l t. Unit {0})
                []
                outcome
      loop previous e =
          let p = with_previous-picture previous e in
          send_rows-Ends client.render_width client.render_height client.previous_bitmap_valid
            (picture_of client answers.memory) bgra
            (least answers.negotiated_update_size max_update_size) answers.tiles width_in height_in
            client.render_height client.resume_left client.resume_top (first_slice previous)
            (omega arith)
            (record {
              pending = refl;
              agrees = record {
                sent = λ x y hx hy covered. absurd (cc);
                kept = λ x y hx hy none_sent. record {
                  blue = ap (λ (q : Picture). q (offset_of client.render_width x y)) (sym p);
                  green = ap (λ (q : Picture). q (offset_of client.render_width x y + 1)) (sym p);
                  red = ap (λ (q : Picture). q (offset_of client.render_width x y + 2)) (sym p);
                };
              };
            })
