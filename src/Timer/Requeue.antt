-- ===== src/Timer/Requeue.antt =====
-- The second part of a round of process_timer_queue: a periodic timer gets its next timeout and is queued again.
use dasynq.Prelude.{
  ℕ, leb, ◌==◌, ◌-◌, ◌+◌, ◌*◌, ◌≤◌, ◌<◌, ◌≡◌, inl, inr, ap, ◌∙◌, Bool, true, false, none, some,
  Bool-cases, write, arith, subst, fun_ext,
}
use dasynq.Vector.{ok}
use dasynq.Heap.{get_root, get_root_priority, pull_root, insert}
use dasynq.Heap.Valid.{queued}
use dasynq.Heap.Insert.{insert_inserts, Inserted}
use dasynq.Time.Defs.{TimeVal, total, less_equal, compare_timespec, int_limit}
use dasynq.Time.Divide.{periods, below_range, less_times}
use dasynq.Time.Order.{time_compare}
use dasynq.Time.Span.{IsSpan}
use dasynq.Timer.Defs.{TimerStorage, TimerQueue, set_data, add_expiries, is_one_off}
use dasynq.Timer.Data.{set_data-IsValid, insert-node_data}
use dasynq.Timer.Next
use dasynq.Timer.Round.{IsSane, Fits, FitsAt, Counted}
use dasynq.Timer.Pull.{is_one_off-positive, pulled_data, pulls, root_due, root_queued, stale_later}

later_by :
    (k interval stale timeout new : ℕ)
    → timeout ≤ stale
    → new ≡ stale + (k + 1) * interval
    → timeout + interval ≤ new
later_by k interval stale timeout new h e = omega arith

leb→gt : (a b : ℕ) → leb a b ≡ false → b < a
leb→gt a b h = ground arith

module _ (al : TimerStorage) (now : TimeVal) (q : TimerQueue) (v : IsSane al now q)
    (some_timer : 0 < q.hvec.size_v) (vn : IsSpan now)
    (due : less_equal (get_root_priority q) now ≡ true) where
  abbrev pub h : ℕ
  h = get_root q

  abbrev pub timeout : TimeVal
  timeout = get_root_priority q

  abbrev pub pulled : TimerQueue
  pulled = pull_root compare_timespec (set_data h (add_expiries 1) q)

  abbrev pub stale : TimeVal
  stale = get_root_priority pulled

  abbrev pub next : TimeVal
  next = Next.newtime now stale (q.node_data h).interval_time

  abbrev pub quotient : ℕ
  quotient = (Next.division now stale (q.node_data h).interval_time).quotient

  module _ (periodic : is_one_off (q.node_data h).interval_time ≡ false) where
    few_periods :
        total now + (q.node_data h).expiry_count * total (q.node_data h).interval_time
        < total timeout + periods * total (q.node_data h).interval_time
    few_periods =
        subst (λ o. Fits o now (q.node_data h) timeout) periodic
          (v.fits h timeout (root_queued al now q v some_timer vn due))

    count_fits :
        total stale + quotient * total (q.node_data h).interval_time
          ≤ total stale + (total now - total stale)
        → (q.node_data h).expiry_count + (quotient + 1) < int_limit
    count_fits over =
        let (vs, later, same) = stale_later al now q v some_timer vn due in
        let root = root_due al now q v some_timer vn due in
        let few =
          less_times ((q.node_data h).expiry_count + quotient) periods
            (total (q.node_data h).interval_time) (omega (arith, few_periods, later, root)) in
        omega (arith, few)

    -- What is known of the next timeout: it is later by the interval or more, and by the interval for each expiry.
    record NextTimeout : Type 0 where
      span : IsSpan next
      later : total timeout + total (q.node_data h).interval_time ≤ total next
      later_each : total timeout + (quotient + 1) * total (q.node_data h).interval_time ≤ total next
      exact :
          q.hvec.size_v ≡ 1
          → total next ≡ total timeout + (quotient + 1) * total (q.node_data h).interval_time
      counts : (q.node_data h).expiry_count + (quotient + 1) < int_limit

    next_later : NextTimeout
    next_later =
        let (vs, later, same) = (stale_later al now q v some_timer vn due) in
        let vi = (v.spans h timeout (root_queued al now q v some_timer vn due)).1 in
        elim (Bool-cases (leb (total stale) (total now))) [
          | inl le ↦
              let le' : total stale ≤ total now = ground arith in
              let (vw, e, bound) =
                Next.newtime-late now stale (q.node_data h).interval_time vn vs vi
                  (is_one_off-positive _ vi periodic) le' (omega (arith, few_periods, later)) in
              record {
                span = vw;
                later = later_by quotient _ _ _ _ later e;
                later_each = omega (arith, e, later);
                exact = λ one.
                    e
                    ∙ ap (λ x. total x + (quotient + 1) * total (q.node_data h).interval_time)
                        (same one);
                counts = count_fits (omega (arith, e, bound, le'));
              }
          | inr early ↦
              let (vw, z, e) =
                Next.newtime-early now stale (q.node_data h).interval_time vn vs vi
                  (ground arith) in
              let none_more : quotient ≡ 0 = z in
              record {
                span = vw;
                later = omega (arith, e);
                later_each = rw none_more (omega (arith, e, later));
                exact = λ one. absurd (
                    omega (
                      arith,
                      ap (λ x. total x) (same one),
                      (root_due al now q v some_timer vn due),
                      leb→gt _ _ early,
                    ));
                counts = count_fits (rw none_more (omega arith));
              }
        ]

  abbrev pub counted_twice : TimerQueue
  counted_twice = set_data h (add_expiries quotient) pulled

  module _ (periodic : is_one_off (q.node_data h).interval_time ≡ false) (r : TimerQueue × Bool)
      (returns : insert compare_timespec al h next counted_twice ≡ ok r)
      (ins : Inserted time_compare al h next counted_twice r) where
    inserted_data :
        (g : ℕ)
        → r.0.node_data g ≡ write q.node_data h (add_expiries (quotient + 1) (q.node_data h)) g
    unfolding set_data add_expiries
    inserted_data g =
        let kept = insert-node_data compare_timespec al h next counted_twice r returns in
        ground (
          arith,
          ap (λ d. d g) kept,
          ap (λ d. d g) (pulled_data al now q v some_timer vn due),
          ap (λ d. d h) (pulled_data al now q v some_timer vn due),
        )

    new-Fits : FitsAt now next (add_expiries (quotient + 1) (q.node_data h))
    unfolding add_expiries
    new-Fits =
        let n = next_later periodic in
        let each = n.later_each in
        let few = few_periods periodic in
        rw (periodic, below_range _ n.counts) (omega (arith, each, few))

    inserted-Fits : (g : ℕ) (p : TimeVal) → queued r.0 g ≡ some p → FitsAt now p (r.0.node_data g)
    unfolding set_data
    inserted-Fits g p e = elim (Bool-cases (g == h)) [
      | inl at ↦
          let there : next ≡ p = ground (arith, ins.entries g, at, e) in
          subst (λ x. FitsAt now p x) (ground (arith, inserted_data g, at))
            (subst (λ x. FitsAt now x (add_expiries (quotient + 1) (q.node_data h))) there new-Fits)
      | inr other ↦
          subst (λ x. FitsAt now p x) (ground (arith, inserted_data g, other))
            (v.fits g p (
              ground
                (arith, ins.entries g, (pulls al now q v some_timer vn due).0.entries g, other, e)))
    ]

    inserted-IsSane : IsSane al now r.0
    unfolding set_data add_expiries
    inserted-IsSane = record {
      valid = ins.valid;
      ordered = ins.ordered;
      spans = λ g p e. ground (
        arith,
        inserted_data g,
        ins.entries g,
        (pulls al now q v some_timer vn due).0.entries g,
        v.spans g p,
        v.spans h timeout (root_queued al now q v some_timer vn due),
        (next_later periodic).span,
      );
      fits = inserted-Fits;
    }

    inserted-Counted : Counted al now q r.0 h (quotient + 1) timeout
    unfolding set_data
    inserted-Counted =
        let n = next_later periodic in
        record {
          sane = inserted-IsSane;
          before = (root_queued al now q v some_timer vn due);
          due = (root_due al now q v some_timer vn due);
          others = λ g other.
              ground
                (arith, (pulls al now q v some_timer vn due).0.entries g, ins.entries g, other);
          data_now = fun_ext inserted_data;
          left = rw periodic (next, ground (arith, ins.entries h), n.later, n.exact);
          some_expiry = omega arith;
          bounded = n.counts;
          size = omega (arith, (pulls al now q v some_timer vn due).0.size, ins.size);
          nodes = ins.nodes ∙ (pulls al now q v some_timer vn due).0.nodes;
        }

  pub rearmed :
      is_one_off (q.node_data h).interval_time ≡ false
      → (r : TimerQueue × Bool) × (insert compare_timespec al h next counted_twice ≡ ok r)
        × Counted al now q r.0 h (quotient + 1) timeout
        × (0 < r.0.hvec.size_v)
        × (queued r.0 h ≡ some next)
  unfolding set_data
  rearmed e =
      let (removed, ordered) = (pulls al now q v some_timer vn due) in
      let gone : pulled.heap_index h ≡ none = ground (arith, removed.entries h) in
      let (r, returns, ins) =
        insert_inserts time_compare al h next counted_twice
          (set_data-IsValid h (add_expiries quotient) pulled removed.valid) ordered gone
          (omega (arith, removed.size, removed.nodes, v.valid.allocated)) in
      (
        r,
        returns,
        inserted-Counted e r returns ins,
        omega (arith, ins.size),
        ground (arith, ins.entries h),
      )
