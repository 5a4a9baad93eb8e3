-- ===== src/Hid/Queue.antt =====
-- The report queues of src/hid.c: `queue_report` and `flush_reports` over a ring of 256 reports.
-- What the clock, `poll`, the write of a report and the write to the paste channel answer in a round
-- of the loop is an `Answer`; the reports and code points that were written are the output.
pub mod Window
pub mod Order
pub mod Enqueue
use nanokvm_rdp.Prelude.{
  ℕ, zero, suc, ◌+◌, ◌-◌, ◌*◌, ◌%◌, ◌^◌, Bool, true, false, ◌&&◌, ◌||◌, not, List, [], ◌∷◌, ◌++◌,
  get_or, set, length, take, drop, ltb, leb, ◌==◌, if◌then◌else◌, u8, add_u64, sub_u64,
}

abbrev pub capacity : ℕ
capacity = 256

abbrev pub stall_timeout_ms : ℕ
stall_timeout_ms = 1000

-- HidReport; `bytes` are the eight bytes of `data`.
pub record Report : Type 0 where
  pub bytes : List ℕ
  pub endpoint : ℕ
  pub length_ : ℕ
  pub delay_ms : ℕ
  pub motion : Bool
  pub paste_codepoint : ℕ
  pub queued_at : ℕ

abbrev pub blank : Report
blank = record {
  bytes = 0 ∷ 0 ∷ 0 ∷ 0 ∷ 0 ∷ 0 ∷ 0 ∷ 0 ∷ [];
  endpoint = 0;
  length_ = 0;
  delay_ms = 0;
  motion = false;
  paste_codepoint = 0;
  queued_at = 0;
}

-- HidReportQueue.
pub record Queue : Type 0 where
  pub reports : List Report
  pub head : ℕ
  pub count : ℕ
  pub ready_at : ℕ
  pub blocked_at : ℕ
  pub inflight_endpoint : ℕ

-- The counters of HidState that the queues write.
pub record Counters : Type 0 where
  pub reports_sent : ℕ
  pub write_retries : ℕ
  pub write_errors : ℕ
  pub queue_overflows : ℕ
  pub max_queue_age_ms : ℕ
  pub submitted_state : List ℕ

pub data Poll : Type 0 where
  ready not_ready hung_up : Poll

-- What a write of a report comes to: it takes all of the report, or not all of it with `errno` at
-- EAGAIN, or at anything else. The part that it may have taken then is not part of the output.
pub data Write : Type 0 where
  written again broken : Write

pub record Answer : Type 0 where
  pub now : ℕ
  pub poll : Poll
  pub write : Write
  pub pasted : Bool

-- What left for the USB endpoints and for the paste channel.
pub data Output : Type 0 where
  report : ℕ → List ℕ → Output
  paste : ℕ → Output

pub record Flushed : Type 0 where
  pub ok : Bool
  pub queue : Queue
  pub counters : Counters
  pub output : List Output

abbrev pub failed_write : Counters → Counters
failed_write c = record c { write_errors = add_u64 c.write_errors 1 }

-- The time since when the head is blocked, kept if it is set already.
abbrev pub block : Queue → ℕ → Queue
block q now = record q { blocked_at = if q.blocked_at == 0 then now else q.blocked_at }

-- The head has been submitted and leaves the queue.
unfoldable pub advance : Queue → ℕ → Queue
advance q now =
    let head = get_or q.reports q.head blank in
    record q {
      blocked_at = 0;
      inflight_endpoint = head.endpoint;
      ready_at = add_u64 now head.delay_ms;
      head = (q.head + 1) % capacity;
      count = q.count - 1;
    }

unfoldable pub count_sent : Counters → Report → ℕ → Counters
count_sent c r now =
    let age = sub_u64 now r.queued_at in
    record c {
      submitted_state = set c.submitted_state (r.endpoint - 1) (get_or r.bytes 0 0);
      max_queue_age_ms = if ltb c.max_queue_age_ms age then age else c.max_queue_age_ms;
      reports_sent = add_u64 c.reports_sent 1;
    }

-- The end of a round: leave the loop with a result, or go on.
pub data Round : Type 0 where
  leave : Flushed → Round
  go_on : Queue → Counters → List Output → Round

-- The part of a round after the endpoint of the previous report has completed.
unfoldable pub submit : Queue → Counters → Answer → Round
submit q c a =
    let head = get_or q.reports q.head blank in
    if not (head.paste_codepoint == 0)
    then if a.pasted
      then leave (record {
        ok = true;
        queue = record q {
          reports = set q.reports q.head (record head { paste_codepoint = 0 });
          ready_at = add_u64 a.now 30;
        };
        counters = c;
        output = paste head.paste_codepoint ∷ [];
      })
      else leave (record { ok = false; queue = q; counters = failed_write c; output = [] })
    else elim a.write [
      | written ↦
          go_on (advance q a.now) (count_sent c head a.now)
            (report head.endpoint (take head.length_ head.bytes) ∷ [])
      | again ↦ leave (record {
        ok = true;
        queue = block q a.now;
        counters = record c { write_retries = add_u64 c.write_retries 1 };
        output = [];
      })
      | broken ↦ leave (record {
        ok = false;
        queue = record (block q a.now) { ready_at = add_u64 a.now 100 };
        counters = failed_write c;
        output = [];
      })
    ]

-- One round of the loop of `flush_reports`, with a report in the queue.
unfoldable pub round : Queue → Counters → Answer → Round
round q c a =
    let head = get_or q.reports q.head blank in
    if ltb a.now q.ready_at
    then leave (record { ok = true; queue = q; counters = c; output = [] })
    else if not (q.blocked_at == 0) && leb stall_timeout_ms (sub_u64 a.now q.blocked_at)
    then leave (record { ok = false; queue = q; counters = failed_write c; output = [] })
    else if not (q.inflight_endpoint == 0) && not (q.inflight_endpoint == head.endpoint)
    then elim a.poll [
      | ready ↦ submit (record q { inflight_endpoint = 0 }) c a
      | not_ready ↦ leave (record { ok = true; queue = block q a.now; counters = c; output = [] })
      | hung_up ↦ leave (record { ok = false; queue = q; counters = failed_write c; output = [] })
    ]
    else submit q c a

-- The loop, over the `pending` reports that the queue holds; `answers k` is what the environment
-- answers when `k` reports are left.
unfoldable pub flush : ℕ → Queue → Counters → (ℕ → Answer) → Flushed
flush zero q c answers = record { ok = true; queue = q; counters = c; output = [] }
flush (suc pending) q c answers = elim (round q c (answers pending)) [
  | leave done ↦ done
  | go_on q' c' out ↦
      let rest = flush pending q' c' answers in
      record {
        ok = rest.ok;
        queue = rest.queue;
        counters = rest.counters;
        output = out ++ rest.output;
      }
]

unfoldable pub flush_reports : Queue → Counters → (ℕ → Answer) → Flushed
flush_reports q c answers = flush q.count q c answers

-- A report that is to be queued: `queue_report`'s arguments, with the endpoint of the path, the
-- time and, on the keyboard queue, the code point to paste first.
pub record Request : Type 0 where
  pub endpoint : ℕ
  pub bytes : List ℕ
  pub motion : Bool
  pub delay_ms : ℕ
  pub paste_codepoint : ℕ
  pub queued_at : ℕ

unfoldable pub coalesces : Queue → Request → Bool
coalesces q request =
    let previous = get_or q.reports ((q.head + q.count - 1) % capacity) blank in
    (request.motion && ltb 0 q.count)
    && (previous.motion
        && (previous.endpoint == request.endpoint
            && get_or previous.bytes 0 0 == get_or request.bytes 0 0))

-- The newest report takes the new bytes.
unfoldable pub merge : Queue → Request → Queue
merge q request =
    let last = (q.head + q.count - 1) % capacity in
    let previous = get_or q.reports last blank in
    record q {
      reports =
          set q.reports last (record previous {
            bytes = request.bytes ++ drop (length request.bytes) previous.bytes;
          });
    }

abbrev pub report_of : Request → Report
report_of request = record {
  bytes = request.bytes ++ drop (length request.bytes) blank.bytes;
  endpoint = request.endpoint;
  length_ = u8 (length request.bytes);
  delay_ms = request.delay_ms;
  motion = request.motion;
  paste_codepoint = request.paste_codepoint;
  queued_at = request.queued_at;
}

unfoldable pub append_report : Queue → Request → Queue
append_report q request = record q {
  reports = set q.reports ((q.head + q.count) % capacity) (report_of request);
  count = q.count + 1;
}

-- `early` are the answers to the flush of a full queue, `answers` those to the last flush.
unfoldable pub queue_report : Queue → Counters → Request → (ℕ → Answer) → (ℕ → Answer) → Flushed
queue_report q c request early answers =
    let made_room = flush_reports q c early in
    let tail = flush_reports (append_report q request) c answers in
    let later = flush_reports (append_report made_room.queue request) made_room.counters answers in
    if coalesces q request
    then flush_reports (merge q request) c answers
    else if q.count == capacity
    then if made_room.queue.count == capacity
      then record made_room {
        ok = false;
        counters = record made_room.counters {
          queue_overflows = add_u64 made_room.counters.queue_overflows 1;
        };
      }
      else record later { output = made_room.output ++ later.output }
    else tail
