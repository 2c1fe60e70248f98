-- ===== src/Timer/Loop.antt =====
-- The whole of process_timer_queue: it ends, and no timer is due any more.
use dasynq.Prelude.{
  ℕ, zero, suc, ◌+◌, ◌-◌, ◌≤◌, ◌<◌, ◌≡◌, inl, inr, refl, sym, ap, subst, ◌∙◌, true, false, some,
  List, [], ◌++◌, ◌==◌, ltb, Bool-cases, arith, count,
}
use dasynq.Vector.{Throws, ok}
use dasynq.Heap
use dasynq.Heap.{get_root, get_root_priority}
use dasynq.Heap.Valid.{queued, queued_position, queued-get_root}
use dasynq.Time.Defs.{TimeVal, total, less_equal}
use dasynq.Time.Span.{IsSpan, less_equal_iff}
use dasynq.Timer.Defs.{
  TimerStorage, TimerQueue, Processing, late, lateness_of, handles, rounds_of, process_loop,
  process_timer_queue, process_root,
}
use dasynq.Timer.Round.{IsSane, Progress, Fired, Kept, Ring, deliver, deliver-append}
use dasynq.Timer.Chain.{Progress-refl, Progress-trans}
use dasynq.Timer.Step.{process_root-Round, Round}
use dasynq.Timer.Late.{
  count-handles, lateness_of-lt, late-lateness_of, Fired-late, Progress-late, Progress-due,
  none_due,
}

module _ (now : TimeVal) where
  -- What a run leaves: `s`, when the timers that expired were reported to the base class `b`.
  pub record Expired {B : Type 0} (receive : ℕ → ℕ → ℕ → B → B) (al : TimerStorage) (q : TimerQueue)
      (b : B) (s : Processing B) (rs : List Ring) : Type 0 where
    pub sane : IsSane al now s.queue
    pub nodes : s.queue.num_nodes ≡ q.num_nodes
    pub nothing_due : (g : ℕ) (p : TimeVal) → queued s.queue g ≡ some p → total now < total p
    pub fired :
        (g : ℕ) (p : TimeVal) → queued q g ≡ some p → total p ≤ total now → Fired now q s.queue rs g
    pub kept :
        (g : ℕ)
        → ((p : TimeVal) → queued q g ≡ some p → total now < total p)
        → Kept now q s.queue rs g
    pub base : s.base ≡ deliver receive rs b

  module _ {B : Type 0} (receive : ℕ → ℕ → ℕ → B → B) (al : TimerStorage) (vn : IsSpan now) where
    -- what the loop leaves
    record Ended (q : TimerQueue) (b : B) (s : Processing B) (rs : List Ring) : Type 0 where
      progress : Progress al now q s.queue rs
      base : s.base ≡ deliver receive rs b
      done : (g : ℕ) (p : TimeVal) → queued s.queue g ≡ some p → total now < total p

    abbrev Ends : TimerQueue → B → Throws (Processing B) → Type 0
    Ends q b r = (s : Processing B) × (rs : List Ring) × (r ≡ ok s) × Ended q b s rs

    -- the handles of the due timers are among `hs`
    abbrev Covers : List ℕ → TimerQueue → Type 0
    Covers hs q = (g : ℕ) (p : TimeVal) → queued q g ≡ some p → total p ≤ total now → 0 < count g hs

    nothing_late :
        (hs : List ℕ) (q : TimerQueue)
        → Covers hs q
        → lateness_of now hs q ≤ 0
        → (g : ℕ) (p : TimeVal) → queued q g ≡ some p
        → total now < total p
    nothing_late hs q covers e g p at = elim (Bool-cases (ltb (total now) (total p))) [
      | inl lt ↦ ground arith
      | inr due ↦
          let bound = late-lateness_of now hs q g (covers g p at (ground arith)) in
          let some_late : late now (queued q g) ≡ total now + 1 - total p =
            ap (λ x. late now x) at in
          absurd (ground arith)
    ]

    module _ (k : ℕ) (s : Processing B) where
      process_loop-stops :
          less_equal (get_root_priority s.queue) now ≡ false
          → process_loop receive al now (suc k) s ≡ ok s
      unfolding process_loop
      process_loop-stops e = rw (process_loop, e) refl

      process_loop-breaks :
          (s' : Processing B)
          → less_equal (get_root_priority s.queue) now ≡ true
          → process_root receive al now s ≡ ok (s', false)
          → process_loop receive al now (suc k) s ≡ ok s'
      unfolding process_loop
      process_loop-breaks s' e r = rw (process_loop, e, r) refl

      process_loop-goes_on :
          (s' : Processing B)
          → less_equal (get_root_priority s.queue) now ≡ true
          → process_root receive al now s ≡ ok (s', true)
          → process_loop receive al now (suc k) s ≡ process_loop receive al now k s'
      unfolding process_loop
      process_loop-goes_on s' e r = rw (process_loop, e, r) refl

    -- an empty queue has no timer
    nothing_queued :
        (q : TimerQueue)
        → IsSane al now q
        → q.hvec.size_v ≡ 0
        → (g : ℕ) (p : TimeVal) → queued q g ≡ some p
        → total now < total p
    nothing_queued q v e g p at =
        let (i, place, inside, h, prio) = queued_position q g p v.valid at in absurd (omega arith)

    -- a round before the rest of the loop
    prepend :
        (q : TimerQueue) (b : B) (s : Processing B) (rs : List Ring) (x : Throws (Processing B))
        → Progress al now q s.queue rs
        → s.base ≡ deliver receive rs b
        → Ends s.queue s.base x
        → Ends q b x
    prepend q b s rs x progress base (t, ss, returns, ended) = (
      t,
      rs ++ ss,
      returns,
      record {
        progress = Progress-trans now al q s.queue t.queue rs ss progress ended.progress;
        base =
            ended.base ∙ ap (λ c. deliver receive ss c) base ∙ sym (deliver-append receive rs ss b);
        done = ended.done;
      },
    )

    -- a round that is followed by a loop of at most `k` rounds
    Round-Ends :
        (k : ℕ) (hs : List ℕ) (q : TimerQueue) (b : B) (v : IsSane al now q)
        (some_timer : 0 < q.hvec.size_v)
        → Covers hs q
        → lateness_of now hs q ≤ suc k
        → ((r : TimerQueue) (c : B)
            → IsSane al now r
            → 0 < r.hvec.size_v
            → Covers hs r
            → lateness_of now hs r ≤ k
            → Ends r c (process_loop receive al now k (record { queue = r; base = c })))
        → (e : less_equal (get_root_priority q) now ≡ true)
        → Round al now q v some_timer vn e receive b
            (process_root receive al now (record { queue = q; base = b }))
        → Ends q b (process_loop receive al now (suc k) (record { queue = q; base = b }))
    Round-Ends k hs q b v some_timer covers bound rest e (s, true, rs, step, r) =
        let at_root = queued-get_root q v.valid some_timer in
        let root_due = (less_equal_iff (get_root_priority q) now (v.spans _ _ at_root).0 vn).0 e in
        let shorter =
          lateness_of-lt now hs q s.queue (get_root q)
            (Progress-late now al q s.queue rs v r.progress) (covers _ _ at_root root_due)
            (Fired-late now al q s.queue rs v (get_root q) r.fired) in
        prepend q b s rs _ r.progress r.base (
          subst (λ x. Ends s.queue s.base x)
            (sym (process_loop-goes_on k (record { queue = q; base = b }) s e step))
            (rest s.queue s.base r.progress.sane (r.goes_on refl)
              (λ g p at due.
                let (p', at', due') = Progress-due now al q s.queue rs v r.progress g p at due in
                covers g p' at' due')
              (omega arith)))
    Round-Ends k hs q b v some_timer covers bound rest e (s, false, rs, step, r) = (
      s,
      rs,
      process_loop-breaks k (record { queue = q; base = b }) s e step,
      record {
        progress = r.progress;
        base = r.base;
        done = nothing_queued s.queue r.progress.sane (r.stops refl);
      },
    )

    process_loop-Ends :
        (k : ℕ) (hs : List ℕ) (q : TimerQueue) (b : B)
        → IsSane al now q
        → 0 < q.hvec.size_v
        → Covers hs q
        → lateness_of now hs q ≤ k
        → Ends q b (process_loop receive al now k (record { queue = q; base = b }))
    unfolding process_loop
    process_loop-Ends zero hs q b v some_timer covers bound = (
      _,
      [],
      refl,
      record {
        progress = Progress-refl now al q v;
        base = refl;
        done = nothing_late hs q covers bound;
      },
    )
    process_loop-Ends (suc k) hs q b v some_timer covers bound =
        elim (Bool-cases (less_equal (get_root_priority q) now)) [
          | inr e ↦ (
            record { queue = q; base = b },
            [],
            process_loop-stops k (record { queue = q; base = b }) e,
            record {
              progress = Progress-refl now al q v;
              base = refl;
              done = none_due now al q v vn some_timer e;
            },
          )
          | inl e ↦
              Round-Ends k hs q b v some_timer covers bound (process_loop-Ends k hs) e
                (process_root-Round al now q v some_timer vn e receive b)
        ]

    handles-Covers : (q : TimerQueue) → IsSane al now q → Covers (handles q.hvec.size_v q) q
    handles-Covers q v g p at due =
        let (i, place, inside, h, prio) = queued_position q g p v.valid at in
        subst (λ x. 0 < count x (handles q.hvec.size_v q)) h
          (count-handles q.hvec.size_v i q inside)

    finished :
        (q : TimerQueue) (b : B)
        → IsSane al now q
        → (x : Throws (Processing B)) → Ends q b x
        → (s : Processing B) × (rs : List Ring) × (x ≡ ok s) × Expired receive al q b s rs
    finished q b v x (s, rs, returns, ended) = (
      s,
      rs,
      returns,
      record {
        sane = ended.progress.sane;
        nodes = ended.progress.nodes;
        nothing_due = ended.done;
        fired = λ g p at due. elim (ended.progress.fate g) [
          | inr f ↦ f
          | inl k ↦ let later = ended.done g p (k.entry ∙ at) in absurd (omega arith)
        ];
        kept = λ g later. elim (ended.progress.fate g) [
          | inl k ↦ k
          | inr f ↦ let h = later f.timeout f.before in absurd (omega (arith, f.due))
        ];
        base = ended.base;
      },
    )

    -- A queue that is valid and ordered, with timeouts and intervals that are not negative, has no due timer
    -- when process_timer_queue returns at a time that is not negative, and it returns, whatever the base
    -- class and the allocator do. A one-off timer has counted less than 2^30 expiries, and a periodic timer is
    -- late by less than 2^30 of its intervals less those counted. The queue stays so, with the same number of
    -- nodes. Each timer that was due expires: if it was enabled it is reported
    -- once, with its own user data, and it is disabled. A one-off timer expires once and leaves the queue. A
    -- periodic timer is queued again, later by its interval or more; if it is the only timer of the queue, its
    -- timeout is later by its interval times the number of its expiries. The expiries, and those counted
    -- before, are those reported and those still counted. The other timers stay as they are and are not
    -- reported, and the base class receives the reports and nothing else.
    pub process_timer_queue-Expired :
        (q : TimerQueue) (b : B)
        → IsSane al now q
        → (s : Processing B) × (rs : List Ring) × (process_timer_queue receive al now q b ≡ ok s)
          × Expired receive al q b s rs
    unfolding process_timer_queue Heap.empty
    process_timer_queue-Expired q b v = elim (Bool-cases (q.hvec.size_v == 0)) [
      | inl e ↦ finished q b v _ (
        record { queue = q; base = b },
        [],
        rw (process_timer_queue, e) refl,
        record {
          progress = Progress-refl now al q v;
          base = refl;
          done = nothing_queued q v (ground arith);
        },
      )
      | inr e ↦
          let covers : Covers (handles q.hvec.size_v q) q = handles-Covers q v in
          let (s, rs, returns, ended) =
            process_loop-Ends (rounds_of now q) (handles q.hvec.size_v q) q b v (ground arith)
              covers (omega arith) in
          finished q b v _ (s, rs, rw (process_timer_queue, e) returns, ended)
    ]
