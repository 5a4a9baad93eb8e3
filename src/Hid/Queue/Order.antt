-- ===== src/Hid/Queue/Order.antt =====
-- Flushing a queue of reports (src/hid.c): what leaves, and what stays behind.
use nanokvm_rdp.Prelude.{
  ℕ, zero, suc, ◌+◌, ◌-◌, ◌%◌, ◌<◌, ◌≡◌, refl, ap, ◌∙◌, List, [], ◌∷◌, ◌++◌, get_or, set, length,
  length-set, get_or-set_self, arith, Bool, true, false, not, ◌&&◌, ltb, leb, ◌==◌, if◌then◌else◌,
  take, append_assoc, Bool-cases, inl, inr, sub_u64,
}
use nanokvm_rdp.Hid.Queue.{
  Report, blank, Queue, capacity, Counters, Answer, Poll, Write, ready, not_ready, hung_up, written,
  again, broken, Output, report, paste, Flushed, Round, leave, go_on, advance, submit, round, flush,
  flush_reports, stall_timeout_ms,
}
use nanokvm_rdp.Hid.Queue.Window.{window, pending, IsRing, window-set_past}

-- What a report puts out when it leaves: the code point to paste, then the report itself.
unfoldable pub owed_by : Report → List Output
owed_by r =
    let sent = report r.endpoint (take r.length_ r.bytes) ∷ [] in
    if r.paste_codepoint == 0 then sent else paste r.paste_codepoint ∷ sent

unfoldable pub owed : List Report → List Output
owed [] = []
owed (r ∷ rs) = owed_by r ++ owed rs

pub owed-append : (rs ts : List Report) → owed (rs ++ ts) ≡ owed rs ++ owed ts
unfolding owed
owed-append [] ts = refl
owed-append (r ∷ rs) ts = rw (owed-append rs ts, append_assoc (owed_by r) (owed rs) (owed ts))

-- What has left and what is still to leave make up what was to leave.
pub record Keeps (before : List Report) (done : Flushed) : Type 0 where
  pub total : done.output ++ owed (pending done.queue) ≡ owed before
  pub ring : IsRing done.queue

pub Turns : List Report → ℕ → Round → Type 0
Turns before n (leave done) = Keeps before done
Turns before n (go_on q' c' out) =
    (out ++ owed (pending q') ≡ owed before) × IsRing q' × (q'.count ≡ n)

-- Nothing left and the queue is as it was, but for its times.
Keeps-same :
    (q : Queue) (d : Flushed)
    → IsRing q
    → d.output ≡ []
    → d.queue.reports ≡ q.reports
    → d.queue.head ≡ q.head
    → d.queue.count ≡ q.count
    → Keeps (pending q) d
Keeps-same q d ring o r h n = record {
  total = rw (o, r, h, n);
  ring = record {
    size = rw r ring.size;
    head_in = rw h ring.head_in;
    count_in = rw n ring.count_in;
  };
}

pasted-owed :
    (reports : List Report) (head n : ℕ)
    → length reports ≡ capacity
    → head < capacity
    → n < capacity
    → (get_or reports head blank).paste_codepoint == 0 ≡ false
    → paste (get_or reports head blank).paste_codepoint
        ∷ owed (
            window
              (set reports head (record (get_or reports head blank) { paste_codepoint = 0 }))
              head
              (suc n))
      ≡ owed (window reports head (suc n))
unfolding owed owed_by
pasted-owed reports head n size hh hn e = rw (
  get_or-set_self reports head (record (get_or reports head blank) { paste_codepoint = 0 }) blank
      (omega arith),
  window-set_past reports (record (get_or reports head blank) { paste_codepoint = 0 }) n 255
      ((head + 1) % capacity) head (omega arith) (omega arith) (omega arith) (omega arith),
  e,
)

advance-owed :
    (q : Queue) (now n : ℕ)
    → q.count ≡ suc n
    → (get_or q.reports q.head blank).paste_codepoint == 0 ≡ true
    → report
          (get_or q.reports q.head blank).endpoint
          (take (get_or q.reports q.head blank).length_ (get_or q.reports q.head blank).bytes)
        ∷ owed (pending (advance q now))
      ≡ owed (pending q)
unfolding advance owed owed_by
advance-owed q now n e z = let left : q.count - 1 ≡ n = omega arith in rw (left, e, z)

advance-IsRing : (q : Queue) (now : ℕ) → IsRing q → IsRing (advance q now)
unfolding advance
advance-IsRing q now ring = record {
  size = ring.size;
  head_in = omega arith;
  count_in = omega arith;
}

abbrev answer : ℕ → Poll → Write → Bool → Answer
answer now poll write pasted = record { now = now; poll = poll; write = write; pasted = pasted }

module _ (q : Queue) (c : Counters) (now n : ℕ) (poll : Poll) (ring : IsRing q)
    (e : q.count ≡ suc n) where
  submit_report-Turns :
      (write : Write) (pasted : Bool)
      → (get_or q.reports q.head blank).paste_codepoint == 0 ≡ true
      → Turns (pending q) n (submit q c (answer now poll write pasted))
  unfolding submit Turns
  submit_report-Turns written pasted z =
      rw z (advance-owed q now n e z, advance-IsRing q now ring, advance-count)
    where
      advance-count : (advance q now).count ≡ n
      advance-count = (unfold advance in (omega arith))
  submit_report-Turns again pasted z = rw z (Keeps-same q _ ring refl refl refl refl)
  submit_report-Turns broken pasted z = rw z (Keeps-same q _ ring refl refl refl refl)

  submit_paste-Turns :
      (write : Write) (pasted : Bool)
      → (get_or q.reports q.head blank).paste_codepoint == 0 ≡ false
      → Turns (pending q) n (submit q c (answer now poll write pasted))
  unfolding submit Turns
  submit_paste-Turns write true z = rw z (record {
    total = rw e (pasted-owed q.reports q.head n ring.size ring.head_in (omega arith) z);
    ring = record {
      size = length-set q.reports q.head _ ∙ ring.size;
      head_in = ring.head_in;
      count_in = ring.count_in;
    };
  })
  submit_paste-Turns write false z = rw z (Keeps-same q _ ring refl refl refl refl)

  submit-Turns :
      (write : Write) (pasted : Bool)
      → Turns (pending q) n (submit q c (answer now poll write pasted))
  submit-Turns write pasted =
      elim (Bool-cases ((get_or q.reports q.head blank).paste_codepoint == 0)) [
        | inl z ↦ submit_report-Turns write pasted z
        | inr z ↦ submit_paste-Turns write pasted z
      ]

module _ (q : Queue) (c : Counters) (now n : ℕ) (ring : IsRing q) (e : q.count ≡ suc n) where
  free-IsRing : IsRing (record q { inflight_endpoint = 0 })
  free-IsRing = record { size = ring.size; head_in = ring.head_in; count_in = ring.count_in }

  -- A report of another endpoint waits for the endpoint of the one before.
  switch-Turns :
      (poll : Poll) (write : Write) (pasted : Bool)
      → ltb now q.ready_at ≡ false
      → not (q.blocked_at == 0) && leb stall_timeout_ms (sub_u64 now q.blocked_at) ≡ false
      → not (q.inflight_endpoint == 0)
          && not (q.inflight_endpoint == (get_or q.reports q.head blank).endpoint)
        ≡ true
      → Turns (pending q) n (round q c (answer now poll write pasted))
  unfolding round Turns
  switch-Turns ready write pasted t s i =
      rw (t, s, i)
        (submit-Turns (record q { inflight_endpoint = 0 }) c now n ready free-IsRing e write pasted)
  switch-Turns not_ready write pasted t s i = rw (t, s, i) (Keeps-same q _ ring refl refl refl refl)
  switch-Turns hung_up write pasted t s i = rw (t, s, i) (Keeps-same q _ ring refl refl refl refl)

  round-Turns :
      (poll : Poll) (write : Write) (pasted : Bool)
      → Turns (pending q) n (round q c (answer now poll write pasted))
  unfolding round Turns
  round-Turns poll write pasted = elim (Bool-cases (ltb now q.ready_at)) [
    | inl t ↦ rw t (Keeps-same q _ ring refl refl refl refl)
    | inr t ↦
        elim (Bool-cases
          (not (q.blocked_at == 0) && leb stall_timeout_ms (sub_u64 now q.blocked_at))) [
            | inl s ↦ rw (t, s) (Keeps-same q _ ring refl refl refl refl)
            | inr s ↦
                elim (Bool-cases (
                  not (q.inflight_endpoint == 0)
                  && not (q.inflight_endpoint == (get_or q.reports q.head blank).endpoint))) [
                    | inl i ↦ switch-Turns poll write pasted t s i
                    | inr i ↦ rw (t, s, i) (submit-Turns q c now n poll ring e write pasted)
                  ]
          ]
  ]

finish-Keeps :
    (before : List Report) (n : ℕ) (answers : ℕ → Answer)
    → ((q : Queue) (c : Counters)
        → IsRing q
        → q.count ≡ n
        → Keeps (pending q) (flush n q c answers))
    → (q : Queue) (c : Counters) (r : Round) → round q c (answers n) ≡ r
    → Turns before n r
    → Keeps before (flush (suc n) q c answers)
unfolding flush Turns
finish-Keeps before n answers ih q c (leave done) e k = rw (e, flush) k
finish-Keeps before n answers ih q c (go_on q' c' out) e (o, ring, l) =
    let k = ih q' c' ring l in
    rw (e, flush)
      (record {
        total =
            append_assoc out (flush n q' c' answers).output
              (owed (pending (flush n q' c' answers).queue))
            ∙ ap (out ++◌) k.total
            ∙ o;
        ring = k.ring;
      })

flush-Keeps :
    (n : ℕ) (q : Queue) (c : Counters) (answers : ℕ → Answer)
    → IsRing q
    → q.count ≡ n
    → Keeps (pending q) (flush n q c answers)
unfolding flush
flush-Keeps zero q c answers ring e = record { total = refl; ring = ring }
flush-Keeps (suc n) q c answers ring e =
    let a = answers n in
    finish-Keeps (pending q) n answers (λ q' c' ring' e'. flush-Keeps n q' c' answers ring' e') q c
      (round q c a) refl (round-Turns q c a.now n ring e a.poll a.write a.pasted)

-- Whatever the environment answers, a flush neither drops nor reorders anything, and sends nothing
-- twice: what leaves, followed by what the queue still owes, is what it owed, where a report owes
-- its code point to the paste channel and then its bytes to its endpoint. The ring stays well formed.
pub flush_reports-Keeps :
    (q : Queue) (c : Counters) (answers : ℕ → Answer)
    → IsRing q
    → Keeps (pending q) (flush_reports q c answers)
unfolding flush_reports
flush_reports-Keeps q c answers ring = flush-Keeps q.count q c answers ring refl
