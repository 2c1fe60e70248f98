-- ===== src/EventLoop/Removal.antt =====
-- What follows a callback, by the value that it returned: the dispatch functions of all classes but
-- bidi_fd_watcher.
use dasynq.Prelude.{ℕ, ◌≡◌, refl, subst, ◌∙◌, ap, Bool, true, false, arith}
use dasynq.Watcher.{Watcher, Rearm}
use dasynq.Dispatch.Defs.{Storage, lock, unlock}
use dasynq.EventLoop.Defs.{Mechanism, Loop, on_watcher, on_dispatch}
use dasynq.EventLoop.Rearm.{at, process_fd_rearm}
use dasynq.EventLoop.Callbacks.{
  WatcherClass, end_callback, drop_all_events, rearm_type, is_removed, post_dispatch, run_callback,
  after_signal, after_fd, after_child, after_timer, before_callback, after_callback, dispatch,
}
use dasynq.EventLoop.Armed.Halves.{is_remove}
use dasynq.EventLoop.Keeps.{
  Keeps, same, changed-Keeps, process_signal_rearm-Keeps, process_fd_rearm-Keeps,
  process_child_watch_rearm-Keeps,
}
use dasynq.EventLoop.Ends.{
  is_bidi, is_reported, is_requeue, fd_requeues, timer_requeues, requeues, Ends, post_dispatch-Ends,
  Keeps-Ends, process_fd_rearm-value, timer-Ends,
}

module _ {M : Type 0} (m : Mechanism M) (al : Storage) (callback : ℕ → Loop M → Loop M × Rearm)
    (on_removed : Bool → ℕ → Loop M → Loop M) where
  -- What follows the callback, by whether it returned REMOVED, for the value `x`.
  abbrev pub Outcome : WatcherClass → Bool → Rearm → ℕ → Loop M → Loop M → Type 0
  Outcome c true x w l r = r ≡ l
  Outcome c false x w l r =
      Ends m al callback on_removed (is_remove x) (requeues m al callback on_removed c x w l) w l r

  end_callback-priority : (x : Watcher) → (end_callback x).priority ≡ x.priority
  unfolding end_callback
  end_callback-priority x = refl

  drop_all_events-priority : (x : Watcher) → (drop_all_events x).priority ≡ x.priority
  unfolding drop_all_events
  drop_all_events-priority x = refl

  -- the steps of after_signal and after_child
  plain-Ends :
      (w : ℕ) (x : Rearm) (l l' : Loop M)
      → Keeps m (on_watcher w end_callback l) l'
      → Ends m al callback on_removed
          (is_remove x)
          (is_requeue x)
          w
          l
          (post_dispatch m al callback on_removed w x l')
  plain-Ends w x l l' k =
      Keeps-Ends m al callback on_removed _ _ w l l' _
        (changed-Keeps m end_callback w l l' end_callback-priority k)
        (post_dispatch-Ends m al callback on_removed w x l')

  timer-same :
      (x : Rearm) (w : ℕ) (l : Loop M)
      → timer_requeues m al callback on_removed x w (on_watcher w end_callback l)
        ≡ timer_requeues m al callback on_removed x w l
  unfolding end_callback
  timer-same Rearm.rearm w l =
      ap (λ c. is_reported (m.enable_timer_nolock w true c l.loop_mech).1) (ground arith)
  timer-same Rearm.disarm w l =
      ap (λ c. is_reported (m.enable_timer_nolock w false c l.loop_mech).1) (ground arith)
  timer-same Rearm.remove w l = refl
  timer-same Rearm.noop w l = refl
  timer-same Rearm.removed w l = refl
  timer-same Rearm.requeue w l = refl

  after_timer-Ends :
      (w : ℕ) (x : Rearm) (l : Loop M)
      → Ends m al callback on_removed
          (is_remove (rearm_type (at l w).deleteme x))
          (timer_requeues m al callback on_removed (rearm_type (at l w).deleteme x) w l)
          w
          l
          (after_timer m al callback on_removed false w x l)
  unfolding after_timer
  after_timer-Ends w x l =
      let v = rearm_type (at l w).deleteme x in
      let l1 = on_watcher w end_callback l in
      subst
        (λ b.
          Ends m al callback on_removed (is_remove v) b w l
            (after_timer m al callback on_removed false w x l))
        (timer-same v w l)
        (Keeps-Ends m al callback on_removed _ _ w l l1 _
          (changed-Keeps m end_callback w l l1 end_callback-priority (same m l1))
          (timer-Ends m al callback on_removed w v l1))

  after_fd-Ends :
      (w : ℕ) (x : Rearm) (l : Loop M)
      → let v = rearm_type (at l w).deleteme x in
        Ends m al callback on_removed
          (is_remove v)
          (fd_requeues (at l w).emulatefd (at l w).emulate_enabled v)
          w
          l
          (after_fd m al callback on_removed false w x l)
  unfolding after_fd drop_all_events end_callback
  after_fd-Ends w x l =
      let v = rearm_type (at l w).deleteme x in
      let l1 = on_watcher w drop_all_events l in
      let l2 = on_watcher w end_callback l1 in
      let k = process_fd_rearm-Keeps m w v l2 in
      let k' =
        changed-Keeps m drop_all_events w l _ drop_all_events-priority
          (changed-Keeps m end_callback w l1 _ end_callback-priority k) in
      let (removes, queues) = process_fd_rearm-value m al callback on_removed w v l2 in
      let emulated : (at l2 w).emulatefd ≡ (at l w).emulatefd = ground arith in
      let enabled : (at l2 w).emulate_enabled ≡ (at l w).emulate_enabled = ground arith in
      let r = after_fd m al callback on_removed false w x l in
      subst
        (λ (b : Bool).
          Ends m al callback on_removed b
            (fd_requeues (at l w).emulatefd (at l w).emulate_enabled v) w l r)
        removes
        (subst
          (λ (b : Bool).
            Ends m al callback on_removed (is_remove (process_fd_rearm m w v l2).1) b w l r)
          (queues
            ∙ ap (λ e. fd_requeues e (at l2 w).emulate_enabled v) emulated
            ∙ ap (λ e. fd_requeues (at l w).emulatefd e v) enabled)
          (Keeps-Ends m al callback on_removed _ _ w l _ _ k'
            (post_dispatch-Ends m al callback on_removed w _ _)))

  after_callback-Outcome :
      (c : WatcherClass) (removed : Bool) (w : ℕ) (x : Rearm) (l : Loop M)
      → is_bidi c ≡ false
      → Outcome c removed
          (rearm_type (at l w).deleteme x)
          w
          l
          (after_callback m al callback on_removed c removed w x l)
  unfolding after_callback after_signal after_fd after_child after_timer
  after_callback-Outcome WatcherClass.bidi_fd_watcher removed w x l e = absurd (ground (arith, e))
  after_callback-Outcome WatcherClass.fd_watcher true w x l e = refl
  after_callback-Outcome WatcherClass.fd_watcher false w x l e = after_fd-Ends w x l
  after_callback-Outcome WatcherClass.signal_watcher true w x l e = refl
  after_callback-Outcome WatcherClass.signal_watcher false w x l e =
      plain-Ends w _ l _ (process_signal_rearm-Keeps m w _ _)
  after_callback-Outcome WatcherClass.child_proc_watcher true w x l e = refl
  after_callback-Outcome WatcherClass.child_proc_watcher false w x l e =
      plain-Ends w _ l _ (process_child_watch_rearm-Keeps m w _ _)
  after_callback-Outcome WatcherClass.timer true w x l e = refl
  after_callback-Outcome WatcherClass.timer false w x l e = after_timer-Ends w x l

  -- nothing but the fields of the watcher changes before the callback
  before_callback-rest :
      (c : WatcherClass) (w : ℕ) (l : Loop M)
      → let l1 = before_callback m al callback on_removed c w l in
        (l1.dispatch.event_queue ≡ l.dispatch.event_queue)
        × (l1.dispatch.removed ≡ l.dispatch.removed)
        × (l1.loop_mech ≡ l.loop_mech)
  unfolding before_callback
  before_callback-rest WatcherClass.signal_watcher w l = (refl, refl, refl)
  before_callback-rest WatcherClass.fd_watcher w l = (refl, refl, refl)
  before_callback-rest WatcherClass.bidi_fd_watcher w l = (refl, refl, refl)
  before_callback-rest WatcherClass.child_proc_watcher w l = (refl, refl, refl)
  before_callback-rest WatcherClass.timer w l = (refl, refl, refl)

  -- The dispatch function of a watcher that is no bidi watcher runs the callback, once, with the lock free and
  -- the queue and the mechanism as they were, and then takes the lock again. If the callback returned REMOVED,
  -- nothing else happens. If it returned REMOVE, or the watcher was marked with `deleteme` meanwhile, the
  -- lock is freed, the node of the watcher is released and its watch_removed is issued, and the lock is
  -- taken again; other threads may do anything before the node is released and after. Otherwise no
  -- watch_removed is issued, the lock is held in the end, and the watcher is queued under its priority if and
  -- only if: REQUEUE is returned; or an fd watcher whose `emulatefd` is set returns REARM, or NOOP with
  -- `emulate_enabled` set; or a timer returns REARM or DISARM and enable_timer reports expiries that were
  -- counted. If it is not queued, the queue stays.
  pub dispatch-Outcome :
      (c : WatcherClass) (w : ℕ) (l : Loop M)
      → is_bidi c ≡ false
      → (l1 : Loop M) × (l1.dispatch.locked ≡ false)
        × (l1.dispatch.event_queue ≡ l.dispatch.event_queue)
        × (l1.dispatch.removed ≡ l.dispatch.removed)
        × (l1.loop_mech ≡ l.loop_mech)
        × (let (l', x) = callback w l1 in
            let l2 = on_dispatch lock l' in
            Outcome c
              (is_removed x)
              (rearm_type (at l2 w).deleteme x)
              w
              l2
              (dispatch m al callback on_removed c w l))
  unfolding dispatch run_callback
  dispatch-Outcome c w l e =
      let l0 = before_callback m al callback on_removed c w l in
      let (queue, removed, mech) = before_callback-rest c w l in
      let r = callback w (on_dispatch unlock l0) in
      (
        on_dispatch unlock l0,
        refl,
        queue,
        removed,
        mech,
        after_callback-Outcome c (is_removed r.1) w r.1 (on_dispatch lock r.0) e,
      )
