-- ===== src/Timer/Wait.antt =====
-- What process_timers and enable_timer do, and the delays that the mechanisms wait with.
use dasynq.Prelude.{
  ℕ, ◌+◌, ◌*◌, ◌≤◌, ◌<◌, ◌≡◌, ◌↔◌, ◌⊎◌, inl, inr, refl, ap, Bool, true, false, some, List,
  if◌then◌else◌, Bool-cases, arith,
}
use dasynq.Prelude.Int.{pos_part}
use dasynq.Vector.{Throws, ok}
use dasynq.Flags.{ClockType}
use dasynq.Heap
use dasynq.Heap.{get_root, get_root_priority}
use dasynq.Heap.Valid.{queued, queued-get_root}
use dasynq.Time.Defs.{TimeVal, total, second, minus, less_equal}
use dasynq.Time.Span.{IsSpan, less_equal_iff}
use dasynq.Timer.Defs.{TimerStorage, TimerBase, TimerQueue, Processing, queue_for_clock, put_queue}
use dasynq.Timer.Calls.{Wait, to_timeval, set_delay, process_timers, processed}
use dasynq.Timer.Next.{minus-IsSpan}
use dasynq.Timer.Round.{IsSane, Ring}
use dasynq.Timer.Late.{none_due, root_first}
use dasynq.Timer.Loop.{Expired, process_timer_queue-Expired}

-- For a delay that is not negative with its nanoseconds below a second, the microseconds of the `timeval` are at
-- most 1000000, and are 1000000, which is no valid `timeval`, exactly if the nanoseconds are above 999999000.
-- The `timeval` is not less than the delay, and less than a microsecond more.
pub to_timeval_bounds :
    (d : TimeVal)
    → IsSpan d
    → ((to_timeval d).tv_usec ≤ 1_000_000)
      × (((to_timeval d).tv_usec ≡ 1_000_000) ↔ (999_999_000 < d.nseconds))
      × (total d ≤ pos_part (to_timeval d).tv_sec * second + (to_timeval d).tv_usec * 1000)
      × (pos_part (to_timeval d).tv_sec * second + (to_timeval d).tv_usec * 1000 < total d + 1000)
unfolding to_timeval
to_timeval_bounds d v =
    let n = v.normal in
    (omega arith, (λ e. omega arith, λ e. omega arith), omega arith, omega arith)

module _ {B D : Type 0} (receive : ℕ → ℕ → ℕ → B → B) (al : TimerStorage) (to_delay : TimeVal → D)
    (now : TimeVal) (clock : ClockType) (w : Wait D) (t : TimerBase B) where
  abbrev q : TimerQueue
  q = queue_for_clock clock t

  -- a timer is due, and the timers are processed
  pub record Rang (r : Throws (TimerBase B × Wait D)) : Type 0 where
    pub hnd : ℕ
    pub timeout : TimeVal
    pub at : queued q hnd ≡ some timeout
    pub due : total timeout ≤ total now
    pub processing : Processing B
    pub rings : List Ring
    pub expired : Expired now receive al q t.base processing rings
    pub returns :
        r
        ≡ ok (
          put_queue clock processing.queue (record t { base = processing.base }),
          record w { do_wait = false },
        )

  -- no timer is due, and the delay until the first one is set if the mechanism is to wait
  pub record Waits (r : Throws (TimerBase B × Wait D)) : Type 0 where
    pub hnd : ℕ
    pub timeout : TimeVal
    pub at : queued q hnd ≡ some timeout
    pub delay : TimeVal
    pub until : total now + total delay ≡ total timeout
    pub span : IsSpan delay
    pub some_delay : 0 < total delay
    pub first : (g : ℕ) (p : TimeVal) → queued q g ≡ some p → total timeout ≤ total p
    pub returns : r ≡ ok (t, if w.do_wait then record w { delay = some (to_delay delay) } else w)

  abbrev pub Outcome : Throws (TimerBase B × Wait D) → Type 0
  Outcome r = (Heap.empty q ≡ true) × (r ≡ ok (t, w)) ⊎ Rang r ⊎ Waits r

  set_delay-if :
      (b : Bool) (d : D) → set_delay b d w ≡ (if b then record w { delay = some d } else w)
  unfolding set_delay
  set_delay-if true d = refl
  set_delay-if false d = refl

  module _ (v : IsSane al now q) (vn : IsSpan now) (some_timer : Heap.empty q ≡ false) where
    root_at : queued q (get_root q) ≡ some (get_root_priority q)
    unfolding Heap.empty
    root_at = queued-get_root q v.valid (ground arith)

    nonempty : 0 < q.hvec.size_v
    unfolding Heap.empty
    nonempty = ground arith

    process_timers-Rang :
        less_equal (get_root_priority q) now ≡ true
        → Rang (process_timers receive al to_delay now clock w t)
    unfolding process_timers processed
    process_timers-Rang e =
        let (s, rs, returns, expired) = process_timer_queue-Expired now receive al vn q t.base v in
        record {
          hnd = get_root q;
          timeout = get_root_priority q;
          at = root_at;
          due = (less_equal_iff (get_root_priority q) now (v.spans _ _ root_at).0 vn).0 e;
          processing = s;
          rings = rs;
          expired = expired;
          returns = rw (process_timers, some_timer, e, returns) refl;
        }

    process_timers-Waits :
        less_equal (get_root_priority q) now ≡ false
        → Waits (process_timers receive al to_delay now clock w t)
    unfolding process_timers
    process_timers-Waits e =
        let vr = (v.spans _ _ root_at).0 in
        let later = none_due now al q v vn nonempty e (get_root q) (get_root_priority q) root_at in
        let (span, sum) = minus-IsSpan (get_root_priority q) now vr vn (omega (arith, later)) in
        record {
          hnd = get_root q;
          timeout = get_root_priority q;
          at = root_at;
          delay = minus (get_root_priority q) now;
          until = omega (arith, sum);
          span = span;
          some_delay = omega (arith, sum, later);
          first = root_first now al q v nonempty;
          returns =
              rw (process_timers, some_timer, e) (ap (λ x. ok (t, x)) (set_delay-if w.do_wait _));
        }

    process_timers_some : Outcome (process_timers receive al to_delay now clock w t)
    process_timers_some = elim (Bool-cases (less_equal (get_root_priority q) now)) [
      | inl e ↦ inr (inl (process_timers-Rang e))
      | inr e ↦ inr (inr (process_timers-Waits e))
    ]

  process_timers_none :
      Heap.empty q ≡ true → process_timers receive al to_delay now clock w t ≡ ok (t, w)
  unfolding process_timers
  process_timers_none e = rw (process_timers, e) refl

  -- On a valid ordered queue with timeouts and intervals that are not negative, where a one-off timer has counted
  -- less than 2^30 expiries and a periodic timer is late by less than 2^30 of its intervals less those counted,
  -- at a time that is not negative, process_timers returns, in one of three ways. If the queue
  -- of the clock is empty, it changes nothing. If a timer of it is due, the timers that are due expire as
  -- process_timer_queue does it, the mechanism is told not to wait, and the delay stays. If no timer is due, the
  -- timers and the base class stay; a mechanism that is to wait gets the delay, which is above zero, until
  -- the first timeout of the queue, and for one that is not to wait the delay stays.
  pub process_timers-Outcome :
      IsSane al now q → IsSpan now → Outcome (process_timers receive al to_delay now clock w t)
  process_timers-Outcome v vn = elim (Bool-cases (Heap.empty q)) [
    | inl e ↦ inl (e, process_timers_none e)
    | inr e ↦ process_timers_some v vn e
  ]
