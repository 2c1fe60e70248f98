-- ===== src/EventLoop/Runs.antt =====
-- process_events as a sequence of steps, each of which pulls one watcher and dispatches it.
use dasynq.Prelude.{
  ℕ, suc, zero, ◌≤◌, ◌<◌, ◌≡◌, ◌⊎◌, inl, inr, refl, sym, subst, Bool, true, false, Option, none,
  some, List, [], ◌∷◌, length, ◌==◌, arith, Bool-cases,
}
use dasynq.Prelude.Int.{ltb_ℤ}
use dasynq.Heap
use dasynq.StableHeap.Defs as Stable
use dasynq.Watcher.{Rearm}
use dasynq.Dispatch.Defs
use dasynq.Dispatch.Defs.{Storage, Dispatch, lock, unlock}
use dasynq.EventLoop.Defs.{Mechanism, Loop, on_dispatch}
use dasynq.EventLoop.Callbacks.{WatcherClass}
use dasynq.EventLoop.Process.{
  bound, process_event, pull, process_loop, process_up_to, process_events, is_some,
}

module _ {M : Type 0} (m : Mechanism M) (al : Storage) (class : ℕ → WatcherClass)
    (callback : ℕ → Loop M → Loop M × Rearm) (on_removed : Bool → ℕ → Loop M → Loop M) where
  -- The watchers of the list are pulled and dispatched in turn.
  pub data Runs : List ℕ → Loop M → Loop M → Type 0 where
    stops : (l : Loop M) → Runs [] l l
    runs :
        (w : ℕ) (ws : List ℕ) (l l1 r : Loop M)
        → pull l ≡ (l1, some w)
        → Runs ws (process_event m al class callback on_removed w l1) r
        → Runs (w ∷ ws) l r

  abbrev pub is_any : List ℕ → Bool
  is_any [] = false
  is_any (w ∷ ws) = true

  -- nothing is queued, or a watcher is pulled
  pull-cases :
      (l : Loop M)
      → ((pull l ≡ (l, none)) × (Defs.num_queued_events l.dispatch ≡ 0))
        ⊎ ((w : ℕ) × (l1 : Loop M) × (pull l ≡ (l1, some w))
            × (0 < Defs.num_queued_events l.dispatch))
  unfolding pull Defs.pull_queued_event Defs.num_queued_events Stable.empty Heap.empty Stable.size
      Heap.size
  pull-cases l = elim (Bool-cases (l.dispatch.event_queue.base.hvec.size_v == 0)) [
    | inl e ↦ inl (rw (e, Defs.pull_queued_event) refl, ground (arith, e))
    | inr e ↦
        let d = record l.dispatch { event_queue = Stable.pull_root ltb_ℤ l.dispatch.event_queue } in
        inr (
          Stable.get_root l.dispatch.event_queue,
          record l { dispatch = d },
          rw (e, Defs.pull_queued_event) refl,
          ground (arith, e),
        )
  ]

  -- What a loop over at most `k` events ends with.
  pub record Bounded (k : ℕ) (l r : Loop M) (active : Bool) : Type 0 where
    pub handled : List ℕ
    pub steps : Runs handled l r
    pub limit : length handled ≤ k
    pub any : is_any handled ≡ active
    pub rest : (length handled ≡ k) ⊎ (pull r ≡ (r, none))

  idle-Bounded : (k : ℕ) (l : Loop M) → pull l ≡ (l, none) → Bounded k l l false
  idle-Bounded k l e = record {
    handled = [];
    steps = stops l;
    limit = omega arith;
    any = refl;
    rest = inr e;
  }

  -- one event more
  next-Bounded :
      (k w : ℕ) (l l1 r : Loop M) (active : Bool)
      → pull l ≡ (l1, some w)
      → Bounded k (process_event m al class callback on_removed w l1) r active
      → Bounded (suc k) l r true
  next-Bounded k w l l1 r active e b = record {
    handled = w ∷ b.handled;
    steps = runs w b.handled l l1 r e b.steps;
    limit = omega (arith, b.limit);
    any = refl;
    rest = elim b.rest [ inl n ↦ inl (omega (arith, n)) | inr f ↦ inr f ];
  }

  last-Bounded : (l : Loop M) → Bounded 0 l l false
  last-Bounded l = record {
    handled = [];
    steps = stops l;
    limit = omega arith;
    any = refl;
    rest = inl refl;
  }

  at_pull :
      (k : ℕ) (l : Loop M) (p : Loop M × Option ℕ)
      → pull l ≡ p
      → Bounded k l (process_loop m al class callback on_removed k p) (is_some p.1)
      → Bounded k l (process_loop m al class callback on_removed k (pull l)) (is_some (pull l).1)
  at_pull k l p e b =
      subst
        (λ (q : Loop M × Option ℕ).
          Bounded k l (process_loop m al class callback on_removed k q) (is_some q.1))
        (sym e) b

  process_loop-Bounded :
      (k : ℕ) (l : Loop M)
      → (k ≡ 0 → Defs.num_queued_events l.dispatch ≡ 0)
      → Bounded k l (process_loop m al class callback on_removed k (pull l)) (is_some (pull l).1)
  unfolding process_loop
  process_loop-Bounded zero l z = elim (pull-cases l) [
    | inl (e, n) ↦ at_pull 0 l _ e (idle-Bounded 0 l e)
    | inr (w, l1, e, n) ↦ absurd (omega (arith, z refl, n))
  ]
  process_loop-Bounded (suc zero) l z = elim (pull-cases l) [
    | inl (e, n) ↦ at_pull 1 l _ e (idle-Bounded 1 l e)
    | inr (w, l1, e, n) ↦ at_pull 1 l _ e (next-Bounded 0 w l l1 _ false e (last-Bounded _))
  ]
  process_loop-Bounded (suc (suc k)) l z =
      let rest : (l' : Loop M)
          → Bounded (suc k) l' (process_loop m al class callback on_removed (suc k) (pull l'))
              (is_some (pull l').1) =
        λ l'. process_loop-Bounded (suc k) l' (λ i. absurd (omega (arith, i))) in
      elim (pull-cases l) [
        | inl (e, n) ↦ at_pull (suc (suc k)) l _ e (idle-Bounded (suc (suc k)) l e)
        | inr (w, l1, e, n) ↦ at_pull (suc (suc k)) l _ e (
            next-Bounded (suc k) w l l1 _ _ e
              (rest (process_event m al class callback on_removed w l1)))
      ]

  -- What process_events does for a limit: for 0 it takes the lock and keeps it, and for others it dispatches
  -- events with the lock held.
  abbrev pub Processed : Option ℕ → Loop M → Loop M × Bool → Type 0
  Processed (some zero) l (r, active) = (r ≡ on_dispatch lock l) × (active ≡ false)
  Processed none l (r, active) =
      (r' : Loop M) × (r ≡ on_dispatch unlock r')
      × Bounded (Defs.num_queued_events l.dispatch) (on_dispatch lock l) r' active
  Processed (some (suc k)) l (r, active) =
      (r' : Loop M) × (r ≡ on_dispatch unlock r')
      × Bounded (bound (some (suc k)) (Defs.num_queued_events l.dispatch)) (on_dispatch lock l) r'
          active

  process_up_to-Bounded :
      (k : ℕ) (l : Loop M)
      → (k ≡ 0 → Defs.num_queued_events l.dispatch ≡ 0)
      → (r' : Loop M) × ((process_up_to m al class callback on_removed k l).0
          ≡ on_dispatch unlock r')
        × Bounded k l r' (process_up_to m al class callback on_removed k l).1
  unfolding process_up_to
  process_up_to-Bounded k l z = (_, refl, process_loop-Bounded k l z)

  -- Whatever the callbacks and watch_removed do, process_events returns after at most `limit` dispatches, and at most as many
  -- as events were queued at the start: it pulls one watcher after the other and dispatches it, until the
  -- bound is reached or the queue is empty; it gives `true` exactly if a watcher was dispatched, and the lock
  -- is free in the end. For the limit 0 it dispatches nothing, gives `false`, and returns with the lock held.
  pub process_events-Processed :
      (limit : Option ℕ) (l : Loop M)
      → Processed limit l (process_events m al class callback on_removed limit l)
  unfolding process_events Defs.num_queued_events
  process_events-Processed none l = process_up_to-Bounded _ (on_dispatch lock l) (λ z. z)
  process_events-Processed (some zero) l = (refl, refl)
  process_events-Processed (some (suc k)) l =
      process_up_to-Bounded _ (on_dispatch lock l) (λ z. ground (arith, z))
