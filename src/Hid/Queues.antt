-- ===== src/Hid/Queues.antt =====
-- The two report queues of the HID state as the outlet of its operations (src/hid.c), and the
-- functions that look after them: `hid_init`, `hid_flush` and `hid_poll_timeout`.
pub mod Rings
pub mod Waiting
use nanokvm_rdp.Prelude.{
  ℕ, ◌+◌, ◌-◌, Bool, true, false, ◌&&◌, ◌||◌, not, List, [], ◌∷◌, ◌++◌, get_or, set, replicate, ltb,
  ◌==◌, if◌then◌else◌, add_u64,
}
use nanokvm_rdp.Hid.Queue
use nanokvm_rdp.Hid.Queue.{
  Queue, blank, capacity, Counters, Answer, Request, Flushed, Output, report, flush_reports,
}
use nanokvm_rdp.Hid.Device.{Device, Submission, Outlet, none_held}

-- `calls` counts the calls that the outlet has answered, each of which meets its own environment.
pub record Queues : Type 0 where
  pub keyboard : Queue
  pub pointer : Queue
  pub counters : Counters
  pub output : List Output
  pub calls : ℕ

-- What the clock, the endpoints and the direct write answer in one call.
pub record Environment : Type 0 where
  pub queued_at : ℕ
  pub early : ℕ → Answer
  pub late : ℕ → Answer
  pub touch_open : Bool
  pub written : Bool

abbrev pub empty_queue : Queue
empty_queue = record {
  reports = replicate capacity blank;
  head = 0;
  count = 0;
  ready_at = 0;
  blocked_at = 0;
  inflight_endpoint = 0;
}

-- The queues and the device after `hid_init`, whose clock says `now`; the descriptors of the touch
-- endpoint give the length of an absolute report. `paste_open` is whether the paste channel was opened;
-- that a failed write closes it later is not followed.
abbrev pub init_queues : Queues
init_queues = record {
  keyboard = empty_queue;
  pointer = empty_queue;
  counters = record {
    reports_sent = 0;
    write_retries = 0;
    write_errors = 0;
    queue_overflows = 0;
    max_queue_age_ms = 0;
    submitted_state = 0 ∷ 0 ∷ 0 ∷ [];
  };
  output = [];
  calls = 0;
}

abbrev pub init_device : ℕ → ℕ → Bool → Device
init_device now absolute_report_length paste_open = record {
  modifiers = 0;
  usages = none_held;
  keyboard_delay_ms = 0;
  keyboard_paste_codepoint = 0;
  keyboard_desynced = false;
  last_x = 0x3fff;
  last_y = 0x3fff;
  keepalive_at = add_u64 now 300000;
  keepalive_dx = 1;
  buttons = 0;
  mouse_buttons = 0;
  wheel = 0;
  pan = 0;
  absolute_report_length = absolute_report_length;
  paste_open = paste_open;
}

abbrev pub is_keyboard : Submission → Bool
is_keyboard submission = submission.endpoint == 1

-- The queue that a submission goes to.
abbrev pub target : Queues → Submission → Queue
target q submission = if is_keyboard submission then q.keyboard else q.pointer

unfoldable pub put : Queues → Submission → Environment → Bool × Queues
put q submission e =
    let r =
      Queue.queue_report (target q submission) q.counters
        (record {
          endpoint = submission.endpoint;
          bytes = submission.bytes;
          motion = submission.motion;
          delay_ms = submission.delay_ms;
          paste_codepoint = if is_keyboard submission then submission.paste_codepoint else 0;
          queued_at = e.queued_at;
        })
        e.early e.late in
    (
      r.ok,
      record {
        keyboard = if is_keyboard submission then r.queue else q.keyboard;
        pointer = if is_keyboard submission then q.pointer else r.queue;
        counters = r.counters;
        output = q.output ++ r.output;
        calls = q.calls + 1;
      },
    )

-- write_absolute_now
unfoldable pub write_now : Queues → List ℕ → Environment → Bool × Queues
write_now q bytes e =
    let after = record q { calls = q.calls + 1 } in
    if not (q.pointer.count == 0) || (not (q.pointer.inflight_endpoint == 0) || not e.touch_open)
    then (false, after)
    else if e.written
    then (
      true,
      record after {
        counters = record q.counters {
          submitted_state = set q.counters.submitted_state 2 (get_or bytes 0 0);
          reports_sent = add_u64 q.counters.reports_sent 1;
        };
        output = q.output ++ report 3 bytes ∷ [];
      },
    )
    else (false, after)

abbrev pub queues_outlet : (ℕ → Environment) → Outlet Queues
queues_outlet env = record {
  queue_report = λ q submission. put q submission (env q.calls);
  keyboard_pending = λ q. ltb 0 q.keyboard.count;
  pointer_pending = λ q. ltb 0 q.pointer.count;
  write_absolute_now = λ q bytes. write_now q bytes (env q.calls);
  clear = λ q. record q { keyboard = empty_queue; pointer = empty_queue };
}

-- `hid_flush`, after the keyboard's feedback has been read.
unfoldable pub flush_all : Device → Queues → Environment → Bool × Device × Queues
flush_all d q e =
    let keyboard = flush_reports q.keyboard q.counters e.early in
    let pointer = flush_reports q.pointer keyboard.counters e.late in
    (
      keyboard.ok && pointer.ok,
      record d { keyboard_desynced = ltb 0 keyboard.queue.count },
      record {
        keyboard = keyboard.queue;
        pointer = pointer.queue;
        counters = pointer.counters;
        output = q.output ++ (keyboard.output ++ pointer.output);
        calls = q.calls + 1;
      },
    )

-- One round of `hid_poll_timeout`.
abbrev pub sooner : Queue → ℕ → ℕ → ℕ
sooner queue now idle_ms =
    let delay = if ltb now queue.ready_at then queue.ready_at - now else 5 in
    if queue.count == 0 then idle_ms else if ltb delay idle_ms then delay else idle_ms

unfoldable pub poll_timeout : Queues → ℕ → ℕ → ℕ
poll_timeout q now idle_ms = sooner q.pointer now (sooner q.keyboard now idle_ms)
