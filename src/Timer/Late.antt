-- ===== src/Timer/Late.antt =====
-- How late the timers are, in all: each round of process_timer_queue makes it less.
use dasynq.Prelude.{
  ℕ, zero, suc, ◌≤◌, ◌<◌, ◌≡◌, inl, inr, refl, sym, ap, ◌∙◌, Bool, true, false, some, List, [], ◌∷◌,
  ◌==◌, Bool-cases, arith, count,
}
use dasynq.Heap.{get_root, get_root_priority}
use dasynq.Heap.Valid.{queued, queued-get_root}
use dasynq.Heap.Remove.{pull_root_pulls}
use dasynq.Time.Defs.{TimeVal, total, less_equal}
use dasynq.Time.Order.{time_compare}
use dasynq.Time.Span.{IsSpan, less_equal_iff}
use dasynq.Timer.Defs.{TimerStorage, TimerQueue, is_one_off, late, lateness_of, handles}
use dasynq.Timer.Round.{IsSane, Progress, Fired, Left, Ring}
use dasynq.Timer.Pull.{not_before, is_one_off-positive}

-- a handle of a node is among the handles
pub count-handles :
    (n i : ℕ) (q : TimerQueue) → i < n → 0 < count (q.hvec.array i).hnd (handles n q)
count-handles zero i q h = absurd (omega arith)
count-handles (suc n) i q h = elim (Bool-cases (i == n)) [
  | inl e ↦ ground (arith, e)
  | inr e ↦ let rest = count-handles n i q (ground arith) in omega (arith, rest)
]

module _ (now : TimeVal) where
  pub lateness_of-le :
      (hs : List ℕ) (q r : TimerQueue)
      → ((g : ℕ) → late now (queued r g) ≤ late now (queued q g))
      → lateness_of now hs r ≤ lateness_of now hs q
  lateness_of-le [] q r le = omega arith
  lateness_of-le (h ∷ hs) q r le = let rest = lateness_of-le hs q r le in omega (arith, le h, rest)

  pub lateness_of-lt :
      (hs : List ℕ) (q r : TimerQueue) (h : ℕ)
      → ((g : ℕ) → late now (queued r g) ≤ late now (queued q g))
      → 0 < count h hs
      → late now (queued r h) < late now (queued q h)
      → lateness_of now hs r < lateness_of now hs q
  lateness_of-lt [] q r h le c lt = absurd (omega arith)
  lateness_of-lt (k ∷ hs) q r h le c lt = elim (Bool-cases (k == h)) [
    | inl e ↦
        let here : late now (queued r k) < late now (queued q k) = ground (arith, e) in
        let rest = lateness_of-le hs q r le in omega (arith, here, rest)
    | inr e ↦
        let there : 0 < count h hs = ground arith in
        let rest = lateness_of-lt hs q r h le there lt in omega (arith, le k, rest)
  ]

  pub late-lateness_of :
      (hs : List ℕ) (q : TimerQueue) (h : ℕ)
      → 0 < count h hs
      → late now (queued q h) ≤ lateness_of now hs q
  late-lateness_of [] q h c = absurd (omega arith)
  late-lateness_of (k ∷ hs) q h c = elim (Bool-cases (k == h)) [
    | inl e ↦ ground arith
    | inr e ↦ let rest = late-lateness_of hs q h (ground arith) in omega (arith, rest)
  ]

  module _ (al : TimerStorage) where
    -- a timer that expires is less late afterwards, or gone
    module _ (q r : TimerQueue) (rs : List Ring) (v : IsSane al now q) where
      pub Left-late :
          (one_off : Bool) (g k : ℕ) (timeout : TimeVal)
          → is_one_off (q.node_data g).interval_time ≡ one_off
          → queued q g ≡ some timeout
          → total timeout ≤ total now
          → Left q r g one_off k timeout
          → late now (queued r g) < late now (queued q g)
      Left-late true g k timeout o e due (gone, one) = rw (gone, e) (omega arith)
      Left-late false g k timeout o e due (p, at, later, exact) =
          let some_i = is_one_off-positive _ (v.spans g timeout e).1 o in rw (at, e) (omega arith)

      pub Fired-late : (g : ℕ) → Fired now q r rs g → late now (queued r g) < late now (queued q g)
      Fired-late g f =
          Left-late (is_one_off (q.node_data g).interval_time) g f.expiries f.timeout refl f.before
            f.due f.left

      pub Progress-late :
          Progress al now q r rs → (g : ℕ) → late now (queued r g) ≤ late now (queued q g)
      Progress-late p g = elim (p.fate g) [
        | inl k ↦ let same = ap (λ x. late now x) k.entry in omega (arith, same)
        | inr f ↦ let less = Fired-late g f in omega (arith, less)
      ]

      -- the handles of the due timers after, among those before
      pub Progress-due :
          Progress al now q r rs
          → (g : ℕ) (p : TimeVal) → queued r g ≡ some p
          → total p ≤ total now
          → (p' : TimeVal) × (queued q g ≡ some p') × (total p' ≤ total now)
      Progress-due progress g p e due = elim (progress.fate g) [
        | inl k ↦ (p, sym k.entry ∙ e, due)
        | inr f ↦ (f.timeout, f.before, f.due)
      ]

    pub root_first :
        (q : TimerQueue)
        → IsSane al now q
        → 0 < q.hvec.size_v
        → (g : ℕ) (p : TimeVal) → queued q g ≡ some p
        → total (get_root_priority q) ≤ total p
    root_first q v some_timer g p at =
        let least = (pull_root_pulls time_compare al q v.valid v.ordered some_timer).0 g p at in
        let vr =
          (v.spans (get_root q) (get_root_priority q) (queued-get_root q v.valid some_timer)).0 in
        not_before (get_root_priority q) p vr (v.spans g p at).0 least

    -- if the timer at the root is not due, none is
    pub none_due :
        (q : TimerQueue)
        → IsSane al now q
        → IsSpan now
        → 0 < q.hvec.size_v
        → less_equal (get_root_priority q) now ≡ false
        → (g : ℕ) (p : TimeVal) → queued q g ≡ some p
        → total now < total p
    none_due q v vn some_timer e g p at =
        let le = root_first q v some_timer g p at in
        let vr =
          (v.spans (get_root q) (get_root_priority q) (queued-get_root q v.valid some_timer)).0 in
        let iff = less_equal_iff (get_root_priority q) now vr vn in ground (arith, iff, le)
