-- ===== src/Timer/Chain.antt =====
-- Two parts of a run of process_timer_queue are one.
use dasynq.Prelude.{
  ℕ, ◌+◌, ◌*◌, ◌≡◌, ◌⊎◌, inl, inr, refl, sym, ap, subst, ◌∙◌, Bool, true, false, some, List, [],
  ◌++◌, arith,
}
use dasynq.Heap.Valid.{queued, queued_position}
use dasynq.Time.Defs.{TimeVal, total}
use dasynq.Timer.Defs.{TimerStorage, TimerQueue, is_one_off}
use dasynq.Timer.Round.{
  IsSane, Progress, Fired, Kept, Left, Ring, Carries, Carries-append, Carries-silent, times-append,
  reported-append,
}

twice_exact :
    (k l interval timeout middle new : ℕ)
    → middle ≡ timeout + k * interval
    → new ≡ middle + l * interval
    → new ≡ timeout + (k + l) * interval
twice_exact k l interval timeout middle new a b = omega arith

module _ (now : TimeVal) (al : TimerStorage) (q r t : TimerQueue) (rs ss : List Ring)
    (before : Progress al now q r rs) (after : Progress al now r t ss) (g : ℕ) where
  alone_after : (p : TimeVal) → queued r g ≡ some p → q.hvec.size_v ≡ 1 → r.hvec.size_v ≡ 1
  alone_after p e one =
      let (i, place, inside, h, at) = queued_position r g p before.sane.valid e in
      omega (arith, before.size)

  -- a timer that expired in the second part only, in the first part only, and in both
  Left-second :
      (one_off : Bool) (k : ℕ) (timeout : TimeVal)
      → (r.node_data g).interval_time ≡ (q.node_data g).interval_time
      → queued r g ≡ some timeout
      → Left r t g one_off k timeout
      → Left q t g one_off k timeout
  Left-second true k timeout same e l = l
  Left-second false k timeout same e (p, at, later, exact) =
      let i : total (r.node_data g).interval_time ≡ total (q.node_data g).interval_time =
        ap (λ x. total x) same in
      (
        p,
        at,
        omega (arith, i),
        λ one. exact (alone_after timeout e one) ∙ ap (λ x. total timeout + k * total x) same,
      )

  Left-first :
      (one_off : Bool) (k : ℕ) (timeout : TimeVal)
      → queued t g ≡ queued r g
      → Left q r g one_off k timeout
      → Left q t g one_off k timeout
  Left-first true k timeout e (gone, one) = (e ∙ gone, one)
  Left-first false k timeout e (p, at, later, exact) = (p, e ∙ at, later, exact)

  Left-both :
      (one_off : Bool) (k l : ℕ) (timeout middle : TimeVal)
      → (r.node_data g).interval_time ≡ (q.node_data g).interval_time
      → queued r g ≡ some middle
      → Left q r g one_off k timeout
      → Left r t g one_off l middle
      → Left q t g one_off (k + l) timeout
  Left-both true k l timeout middle same e a c = absurd (ground arith)
  Left-both false k l timeout middle same e (p, at, later, exact) c =
      let (p', at', later', exact') = Left-second false l middle same e c in
      let here : p ≡ middle = ground (arith, at, e) in
      let sum : total p ≡ total middle = ap (λ x. total x) here in
      (
        p',
        at',
        omega (arith, sum),
        λ one.
            twice_exact k l (total (q.node_data g).interval_time) (total timeout) (total middle) _
              (sym sum ∙ exact one) (exact' one),
      )

  Fate-trans :
      Kept now q r rs g ⊎ Fired now q r rs g
      → Kept now r t ss g ⊎ Fired now r t ss g
      → Kept now q t (rs ++ ss) g ⊎ Fired now q t (rs ++ ss) g
  Fate-trans (inl k) (inl l) = inl (record {
    entry = l.entry ∙ k.entry;
    data_same = l.data_same ∙ k.data_same;
    silent = ground (arith, times-append g rs ss, reported-append g rs ss, k.silent, l.silent);
  })
  Fate-trans (inl k) (inr f) =
      let same : (r.node_data g).interval_time ≡ (q.node_data g).interval_time =
        ap (λ d. d.interval_time) k.data_same in
      inr (record {
        timeout = f.timeout;
        before = sym k.entry ∙ f.before;
        due = f.due;
        expiries = f.expiries;
        left =
            subst (λ i. Left q t g (is_one_off i) f.expiries f.timeout) same
              (Left-second (is_one_off (r.node_data g).interval_time) f.expiries f.timeout same
                f.before f.left);
        rings = ground (arith, times-append g rs ss, k.silent, f.rings, k.data_same);
        carries =
            Carries-append g _ rs ss (Carries-silent g _ rs k.silent.0)
              (subst (λ u. Carries g u ss) (ap (λ d. d.userdata) k.data_same) f.carries);
        counted = ground (arith, reported-append g rs ss, k.silent, f.counted, k.data_same);
        some_expiry = f.some_expiry;
        disabled = f.disabled;
        interval = f.interval ∙ same;
        userdata = f.userdata ∙ ap (λ d. d.userdata) k.data_same;
      })
  Fate-trans (inr f) (inl k) = inr (record {
    timeout = f.timeout;
    before = f.before;
    due = f.due;
    expiries = f.expiries;
    left =
        Left-first (is_one_off (q.node_data g).interval_time) f.expiries f.timeout k.entry f.left;
    rings = ground (arith, times-append g rs ss, k.silent, f.rings);
    carries = Carries-append g _ rs ss f.carries (Carries-silent g _ ss k.silent.0);
    counted = ground (arith, reported-append g rs ss, k.silent, f.counted, k.data_same);
    some_expiry = f.some_expiry;
    disabled = ap (λ d. d.enabled) k.data_same ∙ f.disabled;
    interval = ap (λ d. d.interval_time) k.data_same ∙ f.interval;
    userdata = ap (λ d. d.userdata) k.data_same ∙ f.userdata;
  })
  Fate-trans (inr f) (inr f') = inr (record {
    timeout = f.timeout;
    before = f.before;
    due = f.due;
    expiries = f.expiries + f'.expiries;
    left =
        Left-both (is_one_off (q.node_data g).interval_time) f.expiries f'.expiries f.timeout
          f'.timeout f.interval f'.before f.left
          (subst (λ i. Left r t g (is_one_off i) f'.expiries f'.timeout) f.interval f'.left);
    rings = ground (arith, times-append g rs ss, f.rings, f'.rings, f.disabled);
    carries =
        Carries-append g _ rs ss f.carries (subst (λ u. Carries g u ss) f.userdata f'.carries);
    counted = omega (arith, reported-append g rs ss, f.counted, f'.counted);
    some_expiry = omega (arith, f.some_expiry);
    disabled = f'.disabled;
    interval = f'.interval ∙ f.interval;
    userdata = f'.userdata ∙ f.userdata;
  })

module _ (now : TimeVal) (al : TimerStorage) (q : TimerQueue) where
  pub Progress-refl : IsSane al now q → Progress al now q q []
  Progress-refl v = record {
    sane = v;
    fate = λ g. inl (record { entry = refl; data_same = refl; silent = (refl, refl) });
    size = omega arith;
    nodes = refl;
  }

  pub Progress-trans :
      (r t : TimerQueue) (rs ss : List Ring)
      → Progress al now q r rs
      → Progress al now r t ss
      → Progress al now q t (rs ++ ss)
  Progress-trans r t rs ss a b = record {
    sane = b.sane;
    fate = λ g. Fate-trans now al q r t rs ss a b g (a.fate g) (b.fate g);
    size = omega (arith, a.size, b.size);
    nodes = b.nodes ∙ a.nodes;
  }
