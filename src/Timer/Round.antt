-- ===== src/Timer/Round.antt =====
-- What one round of process_timer_queue, and then several, do to the timers.
use dasynq.Prelude.{
  ℕ, ◌+◌, ◌*◌, ◌%◌, ◌≤◌, ◌<◌, ◌≡◌, ◌⊎◌, inl, inr, refl, sym, subst, ap, Bool, true, false, none,
  some, List, [], ◌∷◌, ◌++◌, ◌==◌, if◌then◌else◌, Bool-cases, write, arith,
}
use dasynq.Heap.Valid.{IsValid, IsOrdered, queued}
use dasynq.Time.Defs.{TimeVal, total, int_range, int_limit}
use dasynq.Time.Order.{time_compare}
use dasynq.Time.Span.{IsSpan}
use dasynq.Time.Divide.{periods, below_range}
use dasynq.Timer.Defs.{
  TimerData, TimerStorage, TimerQueue, set_data, add_expiries, take_expiries, is_one_off, report,
}
use dasynq.Timer.Data.{set_data-IsValid}

-- A report to the base class.
pub record Ring : Type 0 where
  pub hnd : ℕ
  pub userdata : ℕ
  pub expiries : ℕ

abbrev pub deliver : {B : Type 0} → (ℕ → ℕ → ℕ → B → B) → List Ring → B → B
deliver receive [] b = b
deliver receive (r ∷ rs) b = deliver receive rs (receive r.hnd r.userdata r.expiries b)

-- how often a timer is reported, and with how many expiries in all
abbrev pub times : ℕ → List Ring → ℕ
times g [] = 0
times g (r ∷ rs) = (if r.hnd == g then 1 else 0) + times g rs

abbrev pub reported : ℕ → List Ring → ℕ
reported g [] = 0
reported g (r ∷ rs) = (if r.hnd == g then r.expiries else 0) + reported g rs

-- the user data of the reports of a timer
abbrev pub Carries : ℕ → ℕ → List Ring → Type 0
Carries g u [] = Unit {0}
Carries g u (r ∷ rs) = ((r.hnd == g) ≡ true → r.userdata ≡ u) × Carries g u rs

pub Carries-append :
    (g u : ℕ) (rs ss : List Ring) → Carries g u rs → Carries g u ss → Carries g u (rs ++ ss)
Carries-append g u [] ss c d = d
Carries-append g u (r ∷ rs) ss (e, c) d = (e, Carries-append g u rs ss c d)

pub Carries-silent : (g u : ℕ) (rs : List Ring) → times g rs ≡ 0 → Carries g u rs
Carries-silent g u [] e = tt
Carries-silent g u (r ∷ rs) e = (λ at. absurd (ground arith), Carries-silent g u rs (omega arith))

pub times-append : (g : ℕ) (rs ss : List Ring) → times g (rs ++ ss) ≡ times g rs + times g ss
times-append g [] ss = omega arith
times-append g (r ∷ rs) ss = let h = times-append g rs ss in omega (arith, h)

pub reported-append :
    (g : ℕ) (rs ss : List Ring) → reported g (rs ++ ss) ≡ reported g rs + reported g ss
reported-append g [] ss = omega arith
reported-append g (r ∷ rs) ss = let h = reported-append g rs ss in omega (arith, h)

pub deliver-append :
    {B : Type 0} (receive : ℕ → ℕ → ℕ → B → B) (rs ss : List Ring) (b : B)
    → deliver receive (rs ++ ss) b ≡ deliver receive ss (deliver receive rs b)
deliver-append receive [] ss b = refl
deliver-append receive (r ∷ rs) ss b =
    deliver-append receive rs ss (receive r.hnd r.userdata r.expiries b)

-- What keeps the counts in the range of an `int` at the time `now`: a one-off timer has counted less than 2^30 expiries, and a periodic timer
-- is late by less than 2^30 of its intervals, less those counted.
abbrev pub Fits : Bool → TimeVal → TimerData → TimeVal → Type 0
Fits true now d p = d.expiry_count < periods
Fits false now d p =
    total now + d.expiry_count * total d.interval_time < total p + periods * total d.interval_time

abbrev pub FitsAt : TimeVal → TimeVal → TimerData → Type 0
FitsAt now p d = Fits (is_one_off d.interval_time) now d p

-- A valid ordered queue whose timeouts and intervals are times that are not negative, none of them too late.
pub record IsSane (al : TimerStorage) (now : TimeVal) (q : TimerQueue) : Type 0 where
  pub valid : IsValid al q
  pub ordered : IsOrdered time_compare q
  pub spans :
      (g : ℕ) (p : TimeVal) → queued q g ≡ some p → IsSpan p × IsSpan (q.node_data g).interval_time
  pub fits :
      (g : ℕ) (p : TimeVal)
      → queued q g ≡ some p
      → Fits (is_one_off (q.node_data g).interval_time) now (q.node_data g) p

module _ (q r : TimerQueue) (g : ℕ) where
  -- What is left of a timer that expired `k` times: a one-off timer has left the queue, and a periodic timer
  -- has a later timeout, which is exact if it is the only timer.
  abbrev pub Left : Bool → ℕ → TimeVal → Type 0
  Left true k timeout = (queued r g ≡ none) × (k ≡ 1)
  Left false k timeout =
      (p : TimeVal) × (queued r g ≡ some p)
      × (total timeout + total (q.node_data g).interval_time ≤ total p)
      × (q.hvec.size_v ≡ 1 → total p ≡ total timeout + k * total (q.node_data g).interval_time)

module _ (now : TimeVal) (q r : TimerQueue) (rs : List Ring) (g : ℕ) where
  pub record Fired : Type 0 where
    pub timeout : TimeVal
    pub before : queued q g ≡ some timeout
    pub due : total timeout ≤ total now
    pub expiries : ℕ
    pub left : Left q r g (is_one_off (q.node_data g).interval_time) expiries timeout
    pub rings : times g rs ≡ (if (q.node_data g).enabled then 1 else 0)
    pub carries : Carries g (q.node_data g).userdata rs
    pub counted :
        (r.node_data g).expiry_count + reported g rs ≡ (q.node_data g).expiry_count + expiries
    pub some_expiry : 0 < expiries
    pub disabled : (r.node_data g).enabled ≡ false
    pub interval : (r.node_data g).interval_time ≡ (q.node_data g).interval_time
    pub userdata : (r.node_data g).userdata ≡ (q.node_data g).userdata

  pub record Kept : Type 0 where
    pub entry : queued r g ≡ queued q g
    pub data_same : r.node_data g ≡ q.node_data g
    pub silent : (times g rs ≡ 0) × (reported g rs ≡ 0)

-- `r` is `q` after some timers expired, and `rs` are the reports.
pub record Progress (al : TimerStorage) (now : TimeVal) (q r : TimerQueue) (rs : List Ring)
    : Type 0 where
  pub sane : IsSane al now r
  pub fate : (g : ℕ) → Kept now q r rs g ⊎ Fired now q r rs g
  pub size : r.hvec.size_v ≤ q.hvec.size_v
  pub nodes : r.num_nodes ≡ q.num_nodes

module _ (al : TimerStorage) (now : TimeVal) (q r : TimerQueue) (h k : ℕ) (timeout : TimeVal) where
  -- `r` is `q` when the timer `h` expired, before it is reported.
  pub record Counted : Type 0 where
    pub sane : IsSane al now r
    pub before : queued q h ≡ some timeout
    pub due : total timeout ≤ total now
    pub others : (g : ℕ) → (g == h) ≡ false → queued r g ≡ queued q g
    pub data_now : r.node_data ≡ write q.node_data h (add_expiries k (q.node_data h))
    pub left : Left q r h (is_one_off (q.node_data h).interval_time) k timeout
    pub some_expiry : 0 < k
    pub bounded : (q.node_data h).expiry_count + k < int_limit
    pub size : r.hvec.size_v ≤ q.hvec.size_v
    pub nodes : r.num_nodes ≡ q.num_nodes

module _ {B : Type 0} (receive : ℕ → ℕ → ℕ → B → B) (al : TimerStorage) (now : TimeVal)
    (q r : TimerQueue) (h k : ℕ) (timeout : TimeVal) (c : Counted al now q r h k timeout)
    (b : B) where
  abbrev pub ring : Bool → List Ring
  ring true =
      record {
        hnd = h;
        userdata = (q.node_data h).userdata;
        expiries = ((q.node_data h).expiry_count + k) % int_range;
      }
      ∷ []
  ring false = []

  counted_data : (g : ℕ) → r.node_data g ≡ write q.node_data h (add_expiries k (q.node_data h)) g
  counted_data g = ap (λ d. d g) c.data_now

  counted_same : r.node_data h ≡ add_expiries k (q.node_data h)
  counted_same = ground (arith, counted_data h)

  Fits-taken :
      (o : Bool) (d : TimerData) (p : TimeVal) → Fits o now d p → Fits o now (take_expiries d) p
  unfolding take_expiries
  Fits-taken true d p f = omega arith
  Fits-taken false d p f = omega arith

  taken_data :
      (g : ℕ)
      → (g == h) ≡ true
      → (set_data h take_expiries r).node_data g ≡ take_expiries (r.node_data g)
  unfolding set_data
  taken_data g at = ground (arith, at)

  taken-Fits :
      (g : ℕ) (p : TimeVal)
      → (g == h) ≡ true
      → queued r g ≡ some p
      → FitsAt now p ((set_data h take_expiries r).node_data g)
  unfolding take_expiries
  taken-Fits g p at e =
      subst (λ x. FitsAt now p x) (sym (taken_data g at))
        (Fits-taken _ (r.node_data g) p (c.sane.fits g p e))

  taken-IsSane : IsSane al now (set_data h take_expiries r)
  unfolding set_data take_expiries
  taken-IsSane = record {
    valid = set_data-IsValid h take_expiries r c.sane.valid;
    ordered = c.sane.ordered;
    spans = λ g p e. ground (arith, c.sane.spans g p e);
    fits = λ g p e. elim (Bool-cases (g == h)) [
      | inl at ↦ taken-Fits g p at e
      | inr other ↦ subst (λ x. FitsAt now p x) (ground (arith, other)) (c.sane.fits g p e)
    ];
  }

  pub report-Progress :
      (enabled : Bool)
      → (q.node_data h).enabled ≡ enabled
      → let s = report receive enabled h (record { queue = r; base = b }) in
        Progress al now q s.queue (ring enabled)
        × (s.base ≡ deliver receive (ring enabled) b)
        × Fired now q s.queue (ring enabled) h
        × (s.queue.hvec ≡ r.hvec)
  unfolding report set_data take_expiries add_expiries
  report-Progress true e =
      let d = counted_data h in
      let below = below_range _ c.bounded in
      let fired : Fired now q (set_data h take_expiries r) (ring true) h = record {
        timeout = timeout;
        before = c.before;
        due = c.due;
        expiries = k;
        left = c.left;
        rings = ground (arith, e);
        carries = (λ at. refl, tt);
        counted = ground (arith, e, c.bounded, below);
        some_expiry = c.some_expiry;
        disabled = ground (arith, e);
        interval = ground (arith, d);
        userdata = ground (arith, d);
      } in
      (
        record {
          sane = taken-IsSane;
          fate = λ g. elim (Bool-cases (g == h)) [
            | inl at ↦ inr (
                subst (λ x. Fired now q (set_data h take_expiries r) (ring true) x)
                  (ground (arith, at)) fired)
            | inr other ↦ inl (record {
              entry = c.others g other;
              data_same = ground (arith, counted_data g, other);
              silent = ground (arith, other);
            })
          ];
          size = c.size;
          nodes = c.nodes;
        },
        ap (λ x. receive h x.userdata x.expiry_count b) (counted_same),
        fired,
        refl,
      )
  report-Progress false e =
      let d = counted_data h in
      let below = below_range _ c.bounded in
      let fired : Fired now q r (ring false) h = record {
        timeout = timeout;
        before = c.before;
        due = c.due;
        expiries = k;
        left = c.left;
        rings = ground (arith, e);
        carries = tt;
        counted = ground (arith, e, c.bounded, below);
        some_expiry = c.some_expiry;
        disabled = ground (arith, e);
        interval = ground (arith, d);
        userdata = ground (arith, d);
      } in
      (
        record {
          sane = c.sane;
          fate = λ g. elim (Bool-cases (g == h)) [
            | inl at ↦ inr (subst (λ x. Fired now q r (ring false) x) (ground (arith, at)) fired)
            | inr other ↦ inl (record {
              entry = c.others g other;
              data_same = ground (arith, counted_data g, other);
              silent = (refl, refl);
            })
          ];
          size = c.size;
          nodes = c.nodes;
        },
        refl,
        fired,
        refl,
      )
