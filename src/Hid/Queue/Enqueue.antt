-- ===== src/Hid/Queue/Enqueue.antt =====
-- Queueing a report (src/hid.c): it joins the end of the queue, or the newest motion takes its bytes.
use nanokvm_rdp.Prelude.{
  ℕ, zero, suc, ◌+◌, ◌-◌, ◌%◌, ◌<◌, ◌≡◌, refl, sym, ap, ◌∙◌, List, [], ◌∷◌, ◌++◌, get_or, set,
  length, length-set, arith, Bool, true, false, ◌&&◌, ltb, ◌==◌, if◌then◌else◌, drop, append_assoc,
  Bool-cases, lt→ltb, eq→==, inl, inr, ◌⊎◌,
}
use nanokvm_rdp.Hid.Queue.{
  Report, blank, Queue, capacity, Counters, Answer, Request, report_of, coalesces, merge,
  append_report, Flushed, flush_reports, queue_report,
}
use nanokvm_rdp.Hid.Queue.Window.{window, pending, IsRing, window-set_end, window-end}
use nanokvm_rdp.Hid.Queue.Order.{owed, owed-append, flush_reports-Keeps}

-- A motion absorbs the next one of its endpoint with the same first byte, the buttons.
unfoldable pub absorbs : Report → Request → Bool
absorbs previous request =
    request.motion
    && (previous.motion
        && (previous.endpoint == request.endpoint
            && get_or previous.bytes 0 0 == get_or request.bytes 0 0))

abbrev pub absorbed : Report → Request → Report
absorbed previous request = record previous {
  bytes = request.bytes ++ drop (length request.bytes) previous.bytes;
}

-- The reports in order, after a request.
unfoldable pub enqueue : List Report → Request → List Report
enqueue [] request = report_of request ∷ []
enqueue (r ∷ []) request =
    if absorbs r request then absorbed r request ∷ [] else r ∷ report_of request ∷ []
enqueue (r ∷ r' ∷ rs) request = r ∷ enqueue (r' ∷ rs) request

module _ (r : Report) (request : Request) where
  enqueue-absorbed :
      (rs : List Report)
      → absorbs r request ≡ true
      → enqueue (rs ++ r ∷ []) request ≡ rs ++ absorbed r request ∷ []
  unfolding enqueue
  enqueue-absorbed [] e = rw e
  enqueue-absorbed (x ∷ []) e = rw e
  enqueue-absorbed (x ∷ y ∷ rs) e = ap (◌∷◌ x) (enqueue-absorbed (y ∷ rs) e)

  enqueue-added :
      (rs : List Report)
      → absorbs r request ≡ false
      → enqueue (rs ++ r ∷ []) request ≡ (rs ++ r ∷ []) ++ report_of request ∷ []
  unfolding enqueue
  enqueue-added [] e = rw e
  enqueue-added (x ∷ []) e = rw e
  enqueue-added (x ∷ y ∷ rs) e = ap (◌∷◌ x) (enqueue-added (y ∷ rs) e)

abbrev newest : Queue → Report
newest q = get_or q.reports ((q.head + q.count - 1) % capacity) blank

coalesces-absorbs :
    (q : Queue) (request : Request)
    → coalesces q request ≡ ltb 0 q.count && absorbs (newest q) request
unfolding coalesces absorbs
coalesces-absorbs q request = elim (Bool-cases request.motion) [
  | inl e ↦ rw e
  | inr e ↦ elim (Bool-cases (ltb 0 q.count)) [ inl f ↦ rw (e, f) | inr f ↦ rw (e, f) ]
]

module _ (q : Queue) (request : Request) (ring : IsRing q) where
  pending-append_report :
      q.count < capacity → pending (append_report q request) ≡ pending q ++ report_of request ∷ []
  unfolding append_report
  pending-append_report h =
      let next : q.count + 1 ≡ suc q.count = omega arith in
      rw next (
        window-set_end q.reports (report_of request) q.count q.head _ ring.size ring.head_in h refl)

  append_report-IsRing : q.count < capacity → IsRing (append_report q request)
  unfolding append_report
  append_report-IsRing h = record {
    size = length-set q.reports _ _ ∙ ring.size;
    head_in = ring.head_in;
    count_in = omega arith;
  }

  merge-IsRing : IsRing (merge q request)
  unfolding merge
  merge-IsRing = record {
    size = length-set q.reports _ _ ∙ ring.size;
    head_in = ring.head_in;
    count_in = ring.count_in;
  }

  pending-newest :
      (n : ℕ) → q.count ≡ suc n → pending q ≡ window q.reports q.head n ++ newest q ∷ []
  pending-newest n e =
      let last : q.head + q.count - 1 ≡ q.head + n = omega arith in
      rw (last, e) (window-end q.reports n q.head ring.head_in)

  merge-pending :
      (n : ℕ)
      → q.count ≡ suc n
      → pending (merge q request) ≡ window q.reports q.head n ++ absorbed (newest q) request ∷ []
  unfolding merge
  merge-pending n e =
      let last = (q.head + q.count - 1) % capacity in
      let v = absorbed (newest q) request in
      ap (λ k. window (set q.reports last v) q.head k) e
      ∙ window-set_end q.reports v n q.head last ring.size ring.head_in (omega arith) (omega arith)

  absorbs-coalesces : (n : ℕ) → q.count ≡ suc n → absorbs (newest q) request ≡ coalesces q request
  absorbs-coalesces n e =
      let some_left : ltb 0 q.count ≡ true = lt→ltb 0 q.count (omega arith) in
      sym (rw some_left at (coalesces-absorbs q request))

  coalesces-enqueue :
      (n : ℕ)
      → q.count ≡ n
      → coalesces q request ≡ true
      → pending (merge q request) ≡ enqueue (pending q) request
  coalesces-enqueue zero e c =
      let none_left : ltb 0 q.count ≡ false = rw e in
      let never : coalesces q request ≡ false = rw none_left at (coalesces-absorbs q request) in
      ground (arith, c, never)
  coalesces-enqueue (suc n) e c =
      let a : absorbs (newest q) request ≡ true = absorbs-coalesces n e ∙ c in
      merge-pending n e
      ∙ sym (enqueue-absorbed (newest q) request (window q.reports q.head n) a)
      ∙ ap (λ rs. enqueue rs request) (sym (pending-newest n e))

  enqueue-append_report :
      (n : ℕ)
      → q.count ≡ n
      → coalesces q request ≡ false
      → enqueue (pending q) request ≡ pending q ++ report_of request ∷ []
  unfolding enqueue
  enqueue-append_report zero e c = rw e
  enqueue-append_report (suc n) e c =
      let a : absorbs (newest q) request ≡ false = absorbs-coalesces n e ∙ c in
      ap (λ rs. enqueue rs request) (pending-newest n e)
      ∙ enqueue-added (newest q) request (window q.reports q.head n) a
      ∙ ap (λ rs. rs ++ report_of request ∷ []) (sym (pending-newest n e))

-- What was asked for is either queued or, with the queue full, refused.
pub record Takes (before : List Report) (request : Request) (done : Flushed) : Type 0 where
  pub ring : IsRing done.queue
  pub total :
      (done.output ++ owed (pending done.queue) ≡ owed (enqueue before request))
      ⊎ ((done.ok ≡ false)
          × (done.queue.count ≡ capacity)
          × (done.output ++ owed (pending done.queue) ≡ owed before))

-- The flush that makes room, when the request joins a full queue, leaves what the order needs.
join-Takes :
    (rs : List Report) (request : Request) (first then_ : Flushed)
    → first.output ++ owed (pending first.queue) ≡ owed rs
    → then_.output ++ owed (pending then_.queue)
      ≡ owed (pending first.queue ++ report_of request ∷ [])
    → (first.output ++ then_.output) ++ owed (pending then_.queue)
      ≡ owed (rs ++ report_of request ∷ [])
join-Takes rs request first then_ e f =
    append_assoc first.output then_.output (owed (pending then_.queue))
    ∙ ap (first.output ++◌) (f ∙ owed-append (pending first.queue) (report_of request ∷ []))
    ∙ sym (append_assoc first.output (owed (pending first.queue)) (owed (report_of request ∷ [])))
    ∙ ap (λ o. o ++ owed (report_of request ∷ [])) e
    ∙ sym (owed-append rs (report_of request ∷ []))

module _ (q : Queue) (c : Counters) (request : Request) (early answers : ℕ → Answer)
    (ring : IsRing q) where
  full-Takes :
      q.count ≡ capacity
      → coalesces q request ≡ false
      → Takes (pending q) request (queue_report q c request early answers)
  unfolding queue_report
  full-Takes full e =
      let made = flush_reports q c early in
      let k = flush_reports-Keeps q c early ring in
      let room : q.count == capacity ≡ true = eq→== q.count capacity full in
      elim (Bool-cases (made.queue.count == capacity)) [
        | inl f ↦
            rw (e, room, f)
              (record { ring = k.ring; total = inr (refl, ground (arith, f), k.total) })
        | inr f ↦
            let less : made.queue.count < capacity = ground (arith, f, k.ring.count_in) in
            let later =
              flush_reports-Keeps (append_report made.queue request) made.counters answers
                (append_report-IsRing made.queue request k.ring less) in
            rw (e, room, f)
              (record {
                ring = later.ring;
                total = inl (
                    join-Takes (pending q) request made
                      (flush_reports (append_report made.queue request) made.counters answers)
                      k.total
                      (later.total ∙ ap owed (pending-append_report made.queue request k.ring less))
                    ∙ ap owed (sym (enqueue-append_report q request ring q.count refl e)));
              })
      ]

  -- Whatever the environment answers, queueing a report leaves out nothing and changes no order: what
  -- leaves and what is still owed are what the queue owed with the report at its end, or with the
  -- newest report's bytes replaced where both are motions of one endpoint with the same first byte;
  -- or else the call returns false, the queue is full, and they are what the queue owed before.
  -- The ring stays well formed.
  pub queue_report-Takes : Takes (pending q) request (queue_report q c request early answers)
  unfolding queue_report
  queue_report-Takes = elim (Bool-cases (coalesces q request)) [
    | inl e ↦
        let k = flush_reports-Keeps (merge q request) c answers (merge-IsRing q request ring) in
        rw e (record {
          ring = k.ring;
          total = inl (k.total ∙ ap owed (coalesces-enqueue q request ring q.count refl e));
        })
    | inr e ↦ elim (Bool-cases (q.count == capacity)) [
      | inl full ↦ full-Takes (ground (arith, full)) e
      | inr room ↦
          let less : q.count < capacity = ground (arith, room, ring.count_in) in
          let k =
            flush_reports-Keeps (append_report q request) c answers
              (append_report-IsRing q request ring less) in
          rw (e, room)
            (record {
              ring = k.ring;
              total = inl (
                  k.total
                  ∙ ap owed (
                      pending-append_report q request ring less
                      ∙ sym (enqueue-append_report q request ring q.count refl e)));
            })
    ]
  ]
