-- ===== src/Tests/Hid.antt =====
-- src/hid.c at concrete reports and texts.
use nanokvm_rdp.Prelude.{
  ℕ, suc, ap, ◌≡◌, ◌<◌, ◌≤◌, ◌-◌, if◌then◌else◌, refl, true, false, [], ◌∷◌, arith, some, inl,
  replicate, length-replicate,
}
use nanokvm_rdp.Hid.Utf8.{utf8_decode, utf8_encode}
use nanokvm_rdp.Hid.Utf8.RoundTrip.{IsScalar, utf8_decode-utf8_encode}
use nanokvm_rdp.Hid.Keymap.{map_scancode, translate_scancode}
use nanokvm_rdp.Hid.Keymap.Swap.{swapped, translate_scancode-swapped}
use nanokvm_rdp.Hid.Pointer.{pointer_buttons, scale_absolute}
use nanokvm_rdp.Hid.Pointer.Buttons.{held, named, is_down, pointer_buttons-held}
use nanokvm_rdp.Hid.Pointer.Scale.{scale_absolute-monotone}
use nanokvm_rdp.Hid.Queue.{
  Queue, capacity, blank, Counters, Answer, ready, written, again, Request, report_of, report,
  flush_reports, queue_report, append_report, advance, count_sent, submit, round, flush,
}
use nanokvm_rdp.Hid.Queue.Window.{IsRing, pending}
use nanokvm_rdp.Hid.Queue.Order.{Keeps, flush_reports-Keeps}
use nanokvm_rdp.Hid.Queue.Enqueue.{Takes, queue_report-Takes}

utf8_decode-utf8_encode_example :
    utf8_decode (0x41 ∷ 0xea ∷ 0xb0 ∷ 0x80 ∷ 0x42 ∷ []) 1 ≡ (some 0xac00, 4)
utf8_decode-utf8_encode_example =
    utf8_decode-utf8_encode 0xac00 (0x41 ∷ 0xea ∷ 0xb0 ∷ 0x80 ∷ 0x42 ∷ []) 1
      (0xea ∷ 0xb0 ∷ 0x80 ∷ []) (0x42 ∷ []) scalar encoded refl
  where
    scalar : IsScalar 0xac00
    scalar = record { in_range = omega arith; not_surrogate = inl (omega arith) }

    encoded : utf8_encode 0xac00 ≡ some (0xea ∷ 0xb0 ∷ 0x80 ∷ [])
    encoded = (unfold utf8_encode in refl)

abbrev fresh : Queue
fresh = record {
  reports = replicate capacity blank;
  head = 255;
  count = 0;
  ready_at = 0;
  blocked_at = 0;
  inflight_endpoint = 0;
}

fresh-IsRing : IsRing fresh
fresh-IsRing = record {
  size = length-replicate capacity blank;
  head_in = omega arith;
  count_in = omega arith;
}

abbrev counters : Counters
counters = record {
  reports_sent = 0;
  write_retries = 0;
  write_errors = 0;
  queue_overflows = 0;
  max_queue_age_ms = 0;
  submitted_state = 0 ∷ 0 ∷ 0 ∷ [];
}

abbrev press : Request
press = record {
  endpoint = 1;
  bytes = 2 ∷ 0 ∷ 4 ∷ 0 ∷ 0 ∷ 0 ∷ 0 ∷ 0 ∷ [];
  motion = false;
  delay_ms = 0;
  paste_codepoint = 0;
  queued_at = 10;
}

abbrev accepts : ℕ → Answer
accepts k = record { now = 20; poll = ready; write = written; pasted = true }

abbrev busy : ℕ → Answer
busy k = record { now = 20; poll = ready; write = again; pasted = true }

pressed :
    (flush_reports (append_report fresh press) counters accepts).output ≡ report 1 press.bytes ∷ []
unfolding flush_reports flush round submit advance count_sent append_report
pressed = refl

abbrev holding : Queue
holding = record fresh { reports = report_of press ∷ replicate 255 blank; head = 0; count = 1 }

holding-IsRing : IsRing holding
holding-IsRing = record {
  size = ap suc (length-replicate 255 blank);
  head_in = omega arith;
  count_in = omega arith;
}

flush_reports-Keeps_example : Keeps (pending holding) (flush_reports holding counters accepts)
flush_reports-Keeps_example = flush_reports-Keeps holding counters accepts holding-IsRing

queue_report-Takes_example :
    Takes (pending holding) press (queue_report holding counters press busy accepts)
queue_report-Takes_example = queue_report-Takes holding counters press busy accepts holding-IsRing

translate_scancode-swapped_example :
    translate_scancode (map_scancode 0x38 true true).0 (map_scancode 0x38 true true).1
    ≡ swapped (translate_scancode 0x38 true)
translate_scancode-swapped_example = translate_scancode-swapped 0x38 true (omega arith)

pointer_buttons-held_example :
    (pointer_buttons 3 0xc000 < 256)
    × (held (pointer_buttons 3 0xc000) 2 ≡ (if named 0xc000 2 then is_down 0xc000 else held 3 2))
pointer_buttons-held_example = pointer_buttons-held 3 0xc000 2 (omega arith) (omega arith)

scale_absolute-monotone_example :
    (1 ≤ scale_absolute 100 1920)
    × (scale_absolute 100 1920 ≤ scale_absolute 101 1920)
    × (scale_absolute 101 1920 ≤ 0x7fff)
    × (scale_absolute (1920 - 1) 1920 ≡ 0x7fff)
scale_absolute-monotone_example =
    scale_absolute-monotone 100 101 1920 (omega arith) (omega arith) (omega arith) (omega arith)
