-- ===== src/Hid/Queues/Rings.antt =====
-- Both queues of the HID state (src/hid.c) stay well-formed rings under every operation on the device.
use nanokvm_rdp.Prelude.{ℕ, List, ◌==◌, ◌||◌, not, arith, Bool-cases, inl, inr, length-replicate}
use nanokvm_rdp.Hid.Queue.{blank, capacity}
use nanokvm_rdp.Hid.Queue.Window.{IsRing}
use nanokvm_rdp.Hid.Queue.Order.{flush_reports-Keeps}
use nanokvm_rdp.Hid.Queue.Enqueue.{queue_report-Takes}
use nanokvm_rdp.Hid.Device.{Device, Submission}
use nanokvm_rdp.Hid.Device.Preserves.{Preserved}
use nanokvm_rdp.Hid.Queues.{
  Queues, Environment, empty_queue, is_keyboard, put, write_now, queues_outlet, flush_all,
  init_queues,
}

pub record AreRings (q : Queues) : Type 0 where
  pub keyboard : IsRing q.keyboard
  pub pointer : IsRing q.pointer

pub empty_queue-IsRing : IsRing empty_queue
empty_queue-IsRing = record {
  size = length-replicate capacity blank;
  head_in = omega arith;
  count_in = omega arith;
}

pub init_queues-AreRings : AreRings init_queues
init_queues-AreRings = record { keyboard = empty_queue-IsRing; pointer = empty_queue-IsRing }

put-AreRings :
    (q : Queues) (submission : Submission) (e : Environment)
    → AreRings q
    → AreRings (put q submission e).1
unfolding put
put-AreRings q submission e r = elim (Bool-cases (is_keyboard submission)) [
  | inl k ↦ rw k (record {
    keyboard = (queue_report-Takes q.keyboard q.counters _ e.early e.late r.keyboard).ring;
    pointer = r.pointer;
  })
  | inr k ↦ rw k (record {
    keyboard = r.keyboard;
    pointer = (queue_report-Takes q.pointer q.counters _ e.early e.late r.pointer).ring;
  })
]

write_now-AreRings :
    (q : Queues) (bytes : List ℕ) (e : Environment) → AreRings q → AreRings (write_now q bytes e).1
unfolding write_now
write_now-AreRings q bytes e r =
    elim (Bool-cases (
      not (q.pointer.count == 0) || (not (q.pointer.inflight_endpoint == 0) || not e.touch_open))) [
        | inl b ↦ rw b (record { keyboard = r.keyboard; pointer = r.pointer })
        | inr b ↦ elim (Bool-cases e.written) [
          | inl w ↦ rw (b, w) (record { keyboard = r.keyboard; pointer = r.pointer })
          | inr w ↦ rw (b, w) (record { keyboard = r.keyboard; pointer = r.pointer })
        ]
      ]

pub queues_outlet-Preserved : (env : ℕ → Environment) → Preserved (queues_outlet env) AreRings
queues_outlet-Preserved env = record {
  queue_report = λ q submission r. put-AreRings q submission (env q.calls) r;
  write_absolute_now = λ q bytes r. write_now-AreRings q bytes (env q.calls) r;
  clear = λ q r. record { keyboard = empty_queue-IsRing; pointer = empty_queue-IsRing };
}

pub flush_all-AreRings :
    (d : Device) (q : Queues) (e : Environment) → AreRings q → AreRings (flush_all d q e).2
unfolding flush_all
flush_all-AreRings d q e r = record {
  keyboard = (flush_reports-Keeps q.keyboard q.counters e.early r.keyboard).ring;
  pointer = (flush_reports-Keeps q.pointer _ e.late r.pointer).ring;
}
