-- ===== src/Timer/Pull.antt =====
-- The first part of a round of process_timer_queue: the timer is counted and taken out of the queue, and the
-- pointer to its timeout is left behind.
use dasynq.Prelude.{
  ℕ, ltb, ◌+◌, ◌≤◌, ◌<◌, ◌≡◌, inl, inr, refl, sym, ap, true, false, some, ◌==◌, Bool-cases, write,
  arith, subst,
}
use dasynq.Vector
use dasynq.Heap
use dasynq.Vector.{Throws, ok}
use dasynq.Heap.{get_root, get_root_priority, pull_root, insert}
use dasynq.Heap.Valid.{IsOrdered, queued, queued-get_root}
use dasynq.Heap.Remove.{pull_root_pulls, Removed}
use dasynq.Time.Defs.{TimeVal, total, less_equal, compare_timespec, int_limit}
use dasynq.Time.Divide.{periods}
use dasynq.Time.Order.{time_compare}
use dasynq.Time.Span.{IsSpan, less_equal_iff}
use dasynq.Timer.Defs.{TimerStorage, TimerQueue, set_data, add_expiries, is_one_off}
use dasynq.Timer.Data.{set_data-IsValid, pull_root-node_data}
use dasynq.Timer.Round.{IsSane, Fits, FitsAt, Counted}

pub not_before :
    (a b : TimeVal) → IsSpan a → IsSpan b → compare_timespec b a ≡ false → total a ≤ total b
unfolding compare_timespec
not_before a b va vb e = ground arith

pub is_one_off-positive : (i : TimeVal) → IsSpan i → is_one_off i ≡ false → 0 < total i
unfolding is_one_off
is_one_off-positive i vi e = ground (arith, vi)

module _ (al : TimerStorage) (now : TimeVal) (q : TimerQueue) (v : IsSane al now q)
    (some_timer : 0 < q.hvec.size_v) (vn : IsSpan now)
    (due : less_equal (get_root_priority q) now ≡ true) where
  abbrev pub h : ℕ
  h = get_root q

  abbrev pub timeout : TimeVal
  timeout = get_root_priority q

  abbrev pub pulled : TimerQueue
  pulled = pull_root compare_timespec (set_data h (add_expiries 1) q)

  pub root_queued : queued q h ≡ some timeout
  root_queued = queued-get_root q v.valid some_timer

  pub root_due : total timeout ≤ total now
  root_due = (less_equal_iff timeout now (v.spans h timeout root_queued).0 vn).0 due

  pub pulls : Removed time_compare al h q pulled × IsOrdered time_compare pulled
  unfolding set_data get_root
  pulls =
      let q1 = set_data h (add_expiries 1) q in
      let (_, removed, ordered) =
        pull_root_pulls time_compare al q1 (set_data-IsValid h (add_expiries 1) q v.valid) v.ordered
          some_timer in
      (
        record {
          valid = removed.valid;
          entries = removed.entries;
          size = removed.size;
          nodes = removed.nodes;
        },
        ordered,
      )

  least : (g : ℕ) (p : TimeVal) → queued q g ≡ some p → compare_timespec p timeout ≡ false
  unfolding set_data get_root_priority
  least =
      (pull_root_pulls time_compare al (set_data h (add_expiries 1) q)
        (set_data-IsValid h (add_expiries 1) q v.valid) v.ordered some_timer).0

  pub pulled_data : pulled.node_data ≡ write q.node_data h (add_expiries 1 (q.node_data h))
  unfolding set_data
  pulled_data = pull_root-node_data compare_timespec (set_data h (add_expiries 1) q)

  pulled-Fits : (g : ℕ) (p : TimeVal) → queued pulled g ≡ some p → FitsAt now p (pulled.node_data g)
  pulled-Fits g p e = elim (Bool-cases (g == h)) [
    | inl at ↦ absurd (ground (arith, pulls.0.entries g, at, e))
    | inr other ↦
        subst (λ x. FitsAt now p x) (ground (arith, ap (λ d. d g) pulled_data, other))
          (v.fits g p (ground (arith, pulls.0.entries g, other, e)))
  ]

  pulled-IsSane : IsSane al now pulled
  pulled-IsSane =
      let (removed, ordered) = pulls in
      record {
        valid = removed.valid;
        ordered = ordered;
        spans = λ g p e. ground (arith, removed.entries g, v.spans g p, ap (λ d. d g) pulled_data);
        fits = pulled-Fits;
      }

  -- the expiries counted, if the timer is a one-off timer
  one_off-fits :
      is_one_off (q.node_data h).interval_time ≡ true → (q.node_data h).expiry_count + 1 < int_limit
  one_off-fits e =
      let few : (q.node_data h).expiry_count < periods =
        subst (λ o. Fits o now (q.node_data h) timeout) e (v.fits h timeout root_queued) in
      omega (arith, few)

  pub pulled_off :
      is_one_off (q.node_data h).interval_time ≡ true → Counted al now q pulled h 1 timeout
  pulled_off e =
      let (removed, ordered) = pulls in
      record {
        sane = pulled-IsSane;
        before = root_queued;
        due = root_due;
        others = λ g other. ground (arith, removed.entries g, other);
        data_now = pulled_data;
        left = rw e (ground (arith, removed.entries h), refl);
        some_expiry = omega arith;
        bounded = one_off-fits e;
        size = omega (arith, removed.size);
        nodes = removed.nodes;
      }

  abbrev pub stale : TimeVal
  stale = get_root_priority pulled

  alone : q.hvec.size_v ≡ 1 → stale ≡ timeout
  unfolding pull_root Heap.remove_h get_root_priority set_data Vector.pop_back
  alone e = let last : (q.hvec.size_v == 1) ≡ true = ground arith in rw last

  stale_queued : 1 < q.hvec.size_v → queued q (get_root pulled) ≡ some stale
  stale_queued several =
      let (removed, ordered) = pulls in
      ground (
        arith,
        removed.entries (get_root pulled),
        queued-get_root pulled removed.valid (omega (arith, removed.size)),
      )

  pub stale_later :
      IsSpan stale × (total timeout ≤ total stale) × (q.hvec.size_v ≡ 1 → stale ≡ timeout)
  stale_later = elim (Bool-cases (ltb 1 q.hvec.size_v)) [
    | inl several ↦
        let e = stale_queued (ground arith) in
        let vs = (v.spans (get_root pulled) stale e).0 in
        (
          vs,
          not_before timeout stale (v.spans h timeout root_queued).0 vs
              (least (get_root pulled) stale e),
          λ one. absurd (ground arith),
        )
    | inr few ↦
        let e = alone (ground arith) in
        (
          subst (λ x. IsSpan x) (sym e) (v.spans h timeout root_queued).0,
          subst (λ x. total timeout ≤ total x) (sym e) (omega arith),
          λ one. e,
        )
  ]
