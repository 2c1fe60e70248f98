-- ===== src/EventLoop/Ends.antt =====
-- The value that a callback returned, by class of the watcher: whether the watcher is removed, queued again or
-- left.
use dasynq.Prelude.{
  ℕ, ◌+◌, ◌%◌, ◌≡◌, refl, ◌∙◌, Bool, true, false, ◌&&◌, Option, none, some, if◌then◌else◌, arith,
}
use dasynq.Watcher.{Rearm}
use dasynq.Dispatch.Defs
use dasynq.Dispatch.Defs.{Storage, PrioQueue, Dispatch, set, lock, unlock, inserted, watch_removed}
use dasynq.Time.Defs.{int_range}
use dasynq.Vector.{Throws, ok, bad_alloc}
use dasynq.EventLoop.Defs.{Mechanism, Loop, on_dispatch, requeue_watcher}
use dasynq.EventLoop.Rearm.{at, fd_rearm, process_fd_rearm, process_timer_rearm, timer_reported}
use dasynq.EventLoop.Callbacks.{WatcherClass, post_dispatch}
use dasynq.EventLoop.Armed.Halves.{is_remove}
use dasynq.EventLoop.Keeps.{Keeps, interrupt-Keeps}

abbrev pub is_bidi : WatcherClass → Bool
is_bidi WatcherClass.bidi_fd_watcher = true
is_bidi WatcherClass.signal_watcher = false
is_bidi WatcherClass.fd_watcher = false
is_bidi WatcherClass.child_proc_watcher = false
is_bidi WatcherClass.timer = false

abbrev pub is_requeue : Rearm → Bool
is_requeue Rearm.requeue = true
is_requeue Rearm.remove = false
is_requeue Rearm.rearm = false
is_requeue Rearm.disarm = false
is_requeue Rearm.noop = false
is_requeue Rearm.removed = false

-- Whether an fd watcher is queued again, by `emulatefd` and `emulate_enabled`.
abbrev pub fd_requeues : Bool → Bool → Rearm → Bool
fd_requeues emulated enabled Rearm.requeue = true
fd_requeues emulated enabled Rearm.rearm = emulated
fd_requeues emulated enabled Rearm.noop = emulated && enabled
fd_requeues emulated enabled Rearm.disarm = false
fd_requeues emulated enabled Rearm.remove = false
fd_requeues emulated enabled Rearm.removed = false

abbrev pub is_reported : Option ℕ → Bool
is_reported none = false
is_reported (some n) = true

module _ {M : Type 0} (m : Mechanism M) (al : Storage) (callback : ℕ → Loop M → Loop M × Rearm)
    (on_removed : Bool → ℕ → Loop M → Loop M) where
  -- whether a timer is queued again, or by enable_timer since expiries are counted
  abbrev pub timer_requeues : Rearm → ℕ → Loop M → Bool
  timer_requeues Rearm.requeue w l = true
  timer_requeues Rearm.rearm w l =
      is_reported (m.enable_timer_nolock w true (at l w).clock l.loop_mech).1
  timer_requeues Rearm.disarm w l =
      is_reported (m.enable_timer_nolock w false (at l w).clock l.loop_mech).1
  timer_requeues Rearm.noop w l = false
  timer_requeues Rearm.remove w l = false
  timer_requeues Rearm.removed w l = false

  abbrev pub requeues : WatcherClass → Rearm → ℕ → Loop M → Bool
  requeues WatcherClass.fd_watcher x w l = fd_requeues (at l w).emulatefd (at l w).emulate_enabled x
  requeues WatcherClass.timer x w l = timer_requeues x w l
  requeues WatcherClass.signal_watcher x w l = is_requeue x
  requeues WatcherClass.child_proc_watcher x w l = is_requeue x
  requeues WatcherClass.bidi_fd_watcher x w l = is_requeue x

  -- What follows a callback, by whether the watcher is to be removed, and to be queued again: its node is
  -- released and its watch_removed runs with the lock free; it is queued under its priority; the queue stays.
  abbrev pub Ends : Bool → Bool → ℕ → Loop M → Loop M → Type 0
  Ends true queued w l r =
      (l2 : Loop M) × (l2.dispatch.locked ≡ false)
      × (l2.dispatch.event_queue ≡ l.dispatch.event_queue)
      × (l2.dispatch.removed ≡ l.dispatch.removed)
      × (r
          ≡ on_dispatch lock (
              on_removed true w (
                on_dispatch (λ d. watch_removed w (Defs.release_watcher al w d))
                  (on_removed false w l2))))
  Ends false true w l r =
      ((d : Dispatch) × (d.event_queue ≡ l.dispatch.event_queue)
        × ((d.watcher w).priority ≡ (at l w).priority)
        × (r.dispatch.event_queue ≡ (Defs.queue_watcher al w d).event_queue))
      × (r.dispatch.removed ≡ l.dispatch.removed)
      × (r.dispatch.locked ≡ l.dispatch.locked)
  Ends false false w l r =
      (r.dispatch.event_queue ≡ l.dispatch.event_queue)
      × (r.dispatch.removed ≡ l.dispatch.removed)
      × (r.dispatch.locked ≡ l.dispatch.locked)

  inserted-rest :
      (d : Dispatch) (t : Throws (PrioQueue × Bool))
      → ((inserted d t).removed ≡ d.removed) × ((inserted d t).locked ≡ d.locked)
  inserted-rest d (ok (q, _)) = (refl, refl)
  inserted-rest d bad_alloc = (refl, refl)

  queue_watcher-rest :
      (w : ℕ) (d : Dispatch)
      → ((Defs.queue_watcher al w d).removed ≡ d.removed)
        × ((Defs.queue_watcher al w d).locked ≡ d.locked)
  unfolding Defs.queue_watcher
  queue_watcher-rest w d = inserted-rest d _

  pub post_dispatch-Ends :
      (w : ℕ) (x : Rearm) (l : Loop M)
      → Ends (is_remove x) (is_requeue x) w l (post_dispatch m al callback on_removed w x l)
  unfolding post_dispatch requeue_watcher
  post_dispatch-Ends w Rearm.remove l = (on_dispatch unlock l, refl, refl, refl, refl)
  post_dispatch-Ends w Rearm.requeue l =
      let (removed, locked) = queue_watcher-rest w l.dispatch in
      let k = interrupt-Keeps m (on_dispatch (Defs.queue_watcher al w) l) in
      ((l.dispatch, refl, refl, k.queue), k.removed ∙ removed, k.locked ∙ locked)
  post_dispatch-Ends w Rearm.rearm l = (refl, refl, refl)
  post_dispatch-Ends w Rearm.disarm l = (refl, refl, refl)
  post_dispatch-Ends w Rearm.noop l = (refl, refl, refl)
  post_dispatch-Ends w Rearm.removed l = (refl, refl, refl)

  pub Keeps-Ends :
      (b q : Bool) (w : ℕ) (l l' r : Loop M) → Keeps m l l' → Ends b q w l' r → Ends b q w l r
  Keeps-Ends true q w l l' r k (l2, free, queue, removed, ends) =
      (l2, free, queue ∙ k.queue, removed ∙ k.removed, ends)
  Keeps-Ends false true w l l' r k ((d, e, p, queue), removed, locked) =
      ((d, e ∙ k.queue, p ∙ k.prio w, queue), removed ∙ k.removed, locked ∙ k.locked)
  Keeps-Ends false false w l l' r k (queue, removed, locked) =
      (queue ∙ k.queue, removed ∙ k.removed, locked ∙ k.locked)

  requeue_noop : (b : Bool) → is_remove (if b then Rearm.requeue else Rearm.noop) ≡ false
  requeue_noop true = refl
  requeue_noop false = refl

  requeue_if : (b : Bool) → is_requeue (if b then Rearm.requeue else Rearm.noop) ≡ b
  requeue_if true = refl
  requeue_if false = refl

  -- what process_fd_rearm gives post_dispatch
  fd_rearm-value :
      (b : Bool) (w : ℕ) (x : Rearm) (l : Loop M)
      → (is_remove (fd_rearm m b w x l).1 ≡ is_remove x)
        × (is_requeue (fd_rearm m b w x l).1 ≡ fd_requeues b (at l w).emulate_enabled x)
  unfolding fd_rearm
  fd_rearm-value true w Rearm.noop l =
      (requeue_noop (at l w).emulate_enabled, requeue_if (at l w).emulate_enabled)
  fd_rearm-value false w Rearm.noop l = (refl, refl)
  fd_rearm-value true w Rearm.rearm l = (refl, refl)
  fd_rearm-value false w Rearm.rearm l = (refl, refl)
  fd_rearm-value true w Rearm.disarm l = (refl, refl)
  fd_rearm-value false w Rearm.disarm l = (refl, refl)
  fd_rearm-value true w Rearm.remove l = (refl, refl)
  fd_rearm-value false w Rearm.remove l = (refl, refl)
  fd_rearm-value true w Rearm.removed l = (refl, refl)
  fd_rearm-value false w Rearm.removed l = (refl, refl)
  fd_rearm-value true w Rearm.requeue l = (refl, refl)
  fd_rearm-value false w Rearm.requeue l = (refl, refl)

  pub process_fd_rearm-value :
      (w : ℕ) (x : Rearm) (l : Loop M)
      → (is_remove (process_fd_rearm m w x l).1 ≡ is_remove x)
        × (is_requeue (process_fd_rearm m w x l).1
            ≡ fd_requeues (at l w).emulatefd (at l w).emulate_enabled x)
  unfolding process_fd_rearm
  process_fd_rearm-value w x l = fd_rearm-value _ w x l

  timer_reported-Ends :
      (w : ℕ) (l : Loop M) (p : M × Option ℕ)
      → Ends false (is_reported p.1) w l (timer_reported m al w l p)
  unfolding timer_reported Defs.receive_timer_expiry
  timer_reported-Ends w l (s, none) = (refl, refl, refl)
  timer_reported-Ends w l (s, some n) =
      let d = set w (λ y. record y { intervals = (y.intervals + n) % int_range }) l.dispatch in
      let (removed, locked) = queue_watcher-rest w d in
      ((d, refl, ground arith, refl), removed, locked)

  pub timer-Ends :
      (w : ℕ) (x : Rearm) (l : Loop M)
      → Ends
          (is_remove x)
          (timer_requeues x w l)
          w
          l
          (post_dispatch m al callback on_removed w x (process_timer_rearm m al w x l))
  unfolding process_timer_rearm post_dispatch
  timer-Ends w Rearm.rearm l = timer_reported-Ends w l _
  timer-Ends w Rearm.disarm l = timer_reported-Ends w l _
  timer-Ends w Rearm.remove l = (_, refl, refl, refl, refl)
  timer-Ends w Rearm.noop l = (refl, refl, refl)
  timer-Ends w Rearm.removed l = (refl, refl, refl)
  timer-Ends w Rearm.requeue l = post_dispatch-Ends w Rearm.requeue l
