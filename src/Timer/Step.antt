-- ===== src/Timer/Step.antt =====
-- One round of the loop of process_timer_queue.
use dasynq.Prelude.{
  ℕ, ◌+◌, ◌<◌, ◌≡◌, inl, inr, refl, sym, ap, ◌∙◌, Bool, true, false, some, List, Bool-cases, arith,
  subst,
}
use dasynq.Heap
use dasynq.Vector.{Throws, ok}
use dasynq.Heap.{get_root, get_root_priority, pull_root, insert}
use dasynq.Heap.Valid.{queued}
use dasynq.Time.Defs.{TimeVal, total, less_equal, compare_timespec, int_limit}
use dasynq.Time.Divide.{below_range}
use dasynq.Time.Span.{IsSpan}
use dasynq.Timer.Defs.{
  TimerStorage, TimerQueue, Processing, set_data, add_expiries, is_one_off, process_root, expired,
  take_expiries, inserted, report,
}
use dasynq.Timer.Next
use dasynq.Timer.Round.{IsSane, Progress, Fired, Ring, deliver, report-Progress}
use dasynq.Timer.Requeue.{rearmed}
use dasynq.Timer.Pull.{pulled_data, pulled_off, root_queued, stale_later}

module _ (al : TimerStorage) (now : TimeVal) (q : TimerQueue) (v : IsSane al now q)
    (some_timer : 0 < q.hvec.size_v) (vn : IsSpan now)
    (due : less_equal (get_root_priority q) now ≡ true) where
  abbrev h : ℕ
  h = get_root q

  abbrev timeout : TimeVal
  timeout = get_root_priority q

  abbrev pulled : TimerQueue
  pulled = pull_root compare_timespec (set_data h (add_expiries 1) q)

  abbrev stale : TimeVal
  stale = get_root_priority pulled

  abbrev next : TimeVal
  next = Next.newtime now stale (q.node_data h).interval_time

  abbrev quotient : ℕ
  quotient = (Next.division now stale (q.node_data h).interval_time).quotient

  abbrev counted_twice : TimerQueue
  counted_twice = set_data h (add_expiries quotient) pulled

  -- What one round does to the timers and to the base class `b`.
  module _ {B : Type 0} (receive : ℕ → ℕ → ℕ → B → B) (b : B) where
    pub record Rounded (s : Processing B) (more : Bool) (rs : List Ring) : Type 0 where
      pub progress : Progress al now q s.queue rs
      pub base : s.base ≡ deliver receive rs b
      pub fired : Fired now q s.queue rs h
      pub goes_on : more ≡ true → 0 < s.queue.hvec.size_v
      pub stops : more ≡ false → s.queue.hvec.size_v ≡ 0

    abbrev pub Round : Throws (Processing B × Bool) → Type 0
    Round r =
        (s : Processing B) × (more : Bool) × (rs : List Ring) × (r ≡ ok (s, more))
        × Rounded s more rs

    pulled_interval : (pulled.node_data h).interval_time ≡ (q.node_data h).interval_time
    unfolding add_expiries
    pulled_interval = ground (arith, ap (λ d. d h) (pulled_data al now q v some_timer vn due))

    pulled_enabled : (q.node_data h).enabled ≡ (pulled.node_data h).enabled
    unfolding add_expiries
    pulled_enabled = ground (arith, ap (λ d. d h) (pulled_data al now q v some_timer vn due))

    expired_off :
        is_one_off (q.node_data h).interval_time ≡ true
        → Round (expired receive al now true h (record { queue = pulled; base = b }))
    unfolding expired Heap.empty
    expired_off e =
        let (progress, base, fired, same) =
          report-Progress receive al now q pulled h 1 timeout
            ((pulled_off al now q v some_timer vn due) e) b (pulled.node_data h).enabled
            pulled_enabled in
        (
          _,
          _,
          _,
          refl,
          record {
            progress = progress;
            base = base;
            fired = fired;
            goes_on = λ m. ground arith;
            stops = λ m. ground arith;
          },
        )

    pub expired_step :
        expired receive al now false h (record { queue = pulled; base = b })
        ≡ inserted receive h b (insert compare_timespec al h next counted_twice)
    unfolding expired
    expired_step =
        ap
          (λ i. inserted receive h b (
            insert compare_timespec al h (Next.newtime now stale i)
              (set_data h (add_expiries (Next.division now stale i).quotient) pulled)))
          pulled_interval

    expired_periodic :
        is_one_off (q.node_data h).interval_time ≡ false
        → Round (expired receive al now false h (record { queue = pulled; base = b }))
    unfolding inserted add_expiries
    expired_periodic e =
        let (r, returns, counted, some_left, at) = rearmed al now q v some_timer vn due e in
        let (progress, base, fired, same) =
          report-Progress receive al now q r.0 h (quotient + 1) timeout counted b
            (r.0.node_data h).enabled (ground (arith, ap (λ d. d h) counted.data_now)) in
        (
          report receive (r.0.node_data h).enabled h (record { queue = r.0; base = b }),
          true,
          _,
          expired_step ∙ ap (λ x. inserted receive h b x) returns,
          record {
            progress = progress;
            base = base;
            fired = fired;
            goes_on = λ m. subst (λ v. 0 < v.size_v) (sym same) some_left;
            stops = λ m. ground arith;
          },
        )

    pub one_off_kept :
        is_one_off ((set_data h (add_expiries 1) q).node_data h).interval_time
        ≡ is_one_off (q.node_data h).interval_time
    unfolding set_data add_expiries
    one_off_kept = ap is_one_off (ground arith)

    pub process_root-Round : Round (process_root receive al now (record { queue = q; base = b }))
    unfolding process_root
    process_root-Round = elim (Bool-cases (is_one_off (q.node_data h).interval_time)) [
      | inl e ↦
          subst (λ o. Round (expired receive al now o h (record { queue = pulled; base = b })))
            (sym (one_off_kept ∙ e)) (expired_off e)
      | inr e ↦
          subst (λ o. Round (expired receive al now o h (record { queue = pulled; base = b })))
            (sym (one_off_kept ∙ e)) (expired_periodic e)
    ]

    report_entry :
        (enabled : Bool) (r : TimerQueue)
        → queued (report receive enabled h (record { queue = r; base = b })).queue h ≡ queued r h
    unfolding report set_data
    report_entry true r = refl
    report_entry false r = refl

    -- One expiry more is counted, and reported if the timer was enabled.
    abbrev pub OneMore : Bool → Processing B → Type 0
    OneMore true s =
        ((s.queue.node_data h).expiry_count ≡ 0)
        × (s.base ≡ receive h (q.node_data h).userdata ((q.node_data h).expiry_count + 1) b)
    OneMore false s =
        ((s.queue.node_data h).expiry_count ≡ (q.node_data h).expiry_count + 1) × (s.base ≡ b)

    report-OneMore :
        (enabled : Bool) (r : TimerQueue)
        → r.node_data h ≡ add_expiries 1 (q.node_data h)
        → (q.node_data h).expiry_count + 1 < int_limit
        → OneMore enabled (report receive enabled h (record { queue = r; base = b }))
    unfolding report set_data take_expiries add_expiries
    report-OneMore true r e few =
        let n = below_range _ few in
        (
          ground arith,
          ap (λ d. receive h d.userdata d.expiry_count b) e
              ∙ ap (λ k. receive h (q.node_data h).userdata k b) n,
        )
    report-OneMore false r e few =
        let n = below_range _ few in (ap (λ d. d.expiry_count) e ∙ n, refl)

    -- On a valid ordered queue with timeouts and intervals that are not negative, where a one-off timer has
    -- counted less than 2^30 expiries and a periodic timer is late by less than 2^30 of its intervals less those
    -- counted, whose root is a periodic timer that is due at a time that is not negative: if the timer that comes to the root
    -- when it is pulled is not due, a round of process_timer_queue queues the periodic timer at the timeout of
    -- that other timer plus its interval, whatever its own timeout was. It counts one expiry more than before:
    -- if the timer was enabled, it reports all that were counted and that one, and none is counted any more.
    pub process_root-stale :
        is_one_off (q.node_data h).interval_time ≡ false
        → total now < total stale
        → (s : Processing B) × (p : TimeVal) × (process_root receive al now
              (record { queue = q; base = b })
            ≡ ok (s, true))
          × (queued s.queue h ≡ some p)
          × (total p ≡ total stale + total (q.node_data h).interval_time)
          × OneMore (q.node_data h).enabled s
    unfolding process_root set_data inserted add_expiries
    process_root-stale e early =
        let (r, returns, counted, some_left, at) = rearmed al now q v some_timer vn due e in
        let (vs, later, alone) = stale_later al now q v some_timer vn due in
        let vi = (v.spans h timeout (root_queued al now q v some_timer vn due)).1 in
        let (vw, none_more, sum) =
          Next.newtime-early now stale (q.node_data h).interval_time vn vs vi early in
        let s = report receive (r.0.node_data h).enabled h (record { queue = r.0; base = b }) in
        let one : r.0.node_data h ≡ add_expiries 1 (q.node_data h) =
          ground (arith, ap (λ d. d h) counted.data_now, none_more) in
        let few : (q.node_data h).expiry_count + 1 < int_limit =
          omega (arith, counted.bounded, none_more) in
        (
          s,
          next,
          subst
              (λ o. expired receive al now o h (record { queue = pulled; base = b }) ≡ ok (s, true))
              (sym (one_off_kept ∙ e)) (expired_step ∙ ap (λ x. inserted receive h b x) returns),
          report_entry (r.0.node_data h).enabled r.0 ∙ at,
          sum,
          subst (λ x. OneMore x s) (ap (λ d. d.enabled) one)
              (report-OneMore (r.0.node_data h).enabled r.0 one few),
        )
