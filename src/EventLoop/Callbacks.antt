-- ===== src/EventLoop/Callbacks.antt =====
-- The dispatch functions of the watcher classes: the callback of a watcher runs with the lock free, and what
-- it returns is processed with the lock held.
use dasynq.Prelude.{ℕ, Bool, true, false}
use dasynq.Flags.{Mask, no_events, in_events, out_events, clear}
use dasynq.Watcher.{Watcher, Rearm, out_watcher}
use dasynq.Dispatch.Defs
use dasynq.Dispatch.Defs.{Storage, Dispatch, lock, unlock, watch_removed}
use dasynq.EventLoop.Defs.{Mechanism, Loop, on_watcher, on_dispatch, requeue_watcher}
use dasynq.EventLoop.Rearm.{
  at, set_emulate_enabled, process_signal_rearm, process_fd_rearm, process_primary_rearm,
  process_secondary_rearm, process_child_watch_rearm, process_timer_rearm,
}

unfoldable pub end_callback : Watcher → Watcher
end_callback x = record x { active = false }

-- event_flags &= ~flags
unfoldable pub drop_events : Mask → Watcher → Watcher
drop_events flags x = record x { event_flags = clear x.event_flags flags }

unfoldable pub drop_all_events : Watcher → Watcher
drop_all_events x = record x { event_flags = no_events }

unfoldable pub reset_intervals : Watcher → Watcher
reset_intervals x = record x { intervals = 0 }

-- The class of a watcher, which its virtual functions depend on.
pub data WatcherClass : Type 0 where
  signal_watcher fd_watcher bidi_fd_watcher child_proc_watcher timer : WatcherClass

-- The value a callback returned, by the watcher's `deleteme`: a watcher that is marked does not re-arm itself.
abbrev pub rearm_type : Bool → Rearm → Rearm
rearm_type true x = Rearm.remove
rearm_type false x = x

abbrev pub is_removed : Rearm → Bool
is_removed Rearm.removed = true
is_removed Rearm.remove = false
is_removed Rearm.rearm = false
is_removed Rearm.disarm = false
is_removed Rearm.noop = false
is_removed Rearm.requeue = false

-- `callback w` is the callback of the watcher `w`, with whatever other threads do while it runs.
-- `on_removed b w` is what happens with the lock free while `w` is removed: what other threads do before its
-- node is released (`false`), and its watch_removed, with what other threads do meanwhile (`true`).
module _ {M : Type 0} (m : Mechanism M) (al : Storage) (callback : ℕ → Loop M → Loop M × Rearm)
    (on_removed : Bool → ℕ → Loop M → Loop M) where
  unfoldable pub post_dispatch : ℕ → Rearm → Loop M → Loop M
  post_dispatch w Rearm.remove l = on_dispatch lock (
      on_removed true w (
        on_dispatch (λ d. watch_removed w (Defs.release_watcher al w d))
          (on_removed false w (on_dispatch unlock l))))
  post_dispatch w Rearm.requeue l = requeue_watcher m al w l
  post_dispatch w Rearm.rearm l = l
  post_dispatch w Rearm.disarm l = l
  post_dispatch w Rearm.noop l = l
  post_dispatch w Rearm.removed l = l

  unfoldable pub post_dispatch_bidi : ℕ → Rearm → Loop M → Loop M
  post_dispatch_bidi w Rearm.remove l = on_dispatch lock (
      on_removed true w (
        on_dispatch
          (λ d.
            watch_removed w (Defs.release_watcher al (out_watcher w) (Defs.release_watcher al w d)))
          (on_removed false w (on_dispatch unlock l))))
  post_dispatch_bidi w Rearm.requeue l = requeue_watcher m al w l
  post_dispatch_bidi w Rearm.rearm l = l
  post_dispatch_bidi w Rearm.disarm l = l
  post_dispatch_bidi w Rearm.noop l = l
  post_dispatch_bidi w Rearm.removed l = l

  -- unlock, run the callback of `w`, lock
  unfoldable pub run_callback : ℕ → Loop M → Loop M × Rearm
  run_callback w l = let (l', x) = callback w (on_dispatch unlock l) in (on_dispatch lock l', x)

  -- What follows the callback, by whether it returned REMOVED, with the value `x` that it returned.
  unfoldable pub after_signal : Bool → ℕ → Rearm → Loop M → Loop M
  unfolding post_dispatch
  after_signal true w x l = l
  after_signal false w x l =
      let x' = rearm_type (at l w).deleteme x in
      post_dispatch w x' (process_signal_rearm m w x' (on_watcher w end_callback l))

  unfoldable pub after_fd : Bool → ℕ → Rearm → Loop M → Loop M
  unfolding post_dispatch
  after_fd true w x l = l
  after_fd false w x l =
      let x' = rearm_type (at l w).deleteme x in
      let (l', y) =
        process_fd_rearm m w x' (on_watcher w end_callback (on_watcher w drop_all_events l)) in
      post_dispatch w y l'

  unfoldable pub after_primary : Bool → ℕ → Rearm → Loop M → Loop M
  unfolding post_dispatch_bidi
  after_primary true w x l = l
  after_primary false w x l =
      let x' = rearm_type (at l w).deleteme x in
      let (l', y) =
        process_primary_rearm m w x'
          (on_watcher w end_callback (on_watcher w (drop_events in_events) l)) in
      post_dispatch_bidi w y l'

  -- REQUEUE of the secondary half queues that half; other values go by the watcher itself.
  unfoldable pub post_secondary : ℕ → Rearm → Loop M → Loop M
  unfolding post_dispatch post_dispatch_bidi
  post_secondary w Rearm.requeue l = post_dispatch (out_watcher w) Rearm.requeue l
  post_secondary w Rearm.remove l = post_dispatch_bidi w Rearm.remove l
  post_secondary w Rearm.rearm l = post_dispatch_bidi w Rearm.rearm l
  post_secondary w Rearm.disarm l = post_dispatch_bidi w Rearm.disarm l
  post_secondary w Rearm.noop l = post_dispatch_bidi w Rearm.noop l
  post_secondary w Rearm.removed l = post_dispatch_bidi w Rearm.removed l

  unfoldable pub after_secondary : Bool → ℕ → Rearm → Loop M → Loop M
  unfolding post_secondary
  after_secondary true w x l = l
  after_secondary false w x l =
      let x' = rearm_type (at l (out_watcher w)).deleteme x in
      let (l', y) =
        process_secondary_rearm m w x'
          (on_watcher (out_watcher w) end_callback (on_watcher w (drop_events out_events) l)) in
      post_secondary w y l'

  unfoldable pub after_child : Bool → ℕ → Rearm → Loop M → Loop M
  unfolding post_dispatch
  after_child true w x l = l
  after_child false w x l =
      let x' = rearm_type (at l w).deleteme x in
      post_dispatch w x' (process_child_watch_rearm m w x' (on_watcher w end_callback l))

  unfoldable pub after_timer : Bool → ℕ → Rearm → Loop M → Loop M
  unfolding post_dispatch
  after_timer true w x l = l
  after_timer false w x l =
      let x' = rearm_type (at l w).deleteme x in
      post_dispatch w x' (process_timer_rearm m al w x' (on_watcher w end_callback l))

  -- What a dispatch function does before the callback: `emulate_enabled` and `intervals` are reset; the
  -- callback of a timer gets the count from before.
  unfoldable pub before_callback : WatcherClass → ℕ → Loop M → Loop M
  unfolding set_emulate_enabled reset_intervals
  before_callback WatcherClass.signal_watcher w l = l
  before_callback WatcherClass.fd_watcher w l = on_watcher w (set_emulate_enabled false) l
  before_callback WatcherClass.bidi_fd_watcher w l = on_watcher w (set_emulate_enabled false) l
  before_callback WatcherClass.child_proc_watcher w l = l
  before_callback WatcherClass.timer w l = on_watcher w reset_intervals l

  unfoldable pub after_callback : WatcherClass → Bool → ℕ → Rearm → Loop M → Loop M
  unfolding after_signal after_fd after_primary after_child after_timer
  after_callback WatcherClass.signal_watcher removed w x l = after_signal removed w x l
  after_callback WatcherClass.fd_watcher removed w x l = after_fd removed w x l
  after_callback WatcherClass.bidi_fd_watcher removed w x l = after_primary removed w x l
  after_callback WatcherClass.child_proc_watcher removed w x l = after_child removed w x l
  after_callback WatcherClass.timer removed w x l = after_timer removed w x l

  -- the virtual function dispatch
  unfoldable pub dispatch : WatcherClass → ℕ → Loop M → Loop M
  unfolding before_callback run_callback after_callback
  dispatch class w l =
      let (l', x) = run_callback w (before_callback class w l) in
      after_callback class (is_removed x) w x l'

  -- dispatch_second of the bidi watcher `w`; its callback is that of the secondary half.
  unfoldable pub dispatch_second : ℕ → Loop M → Loop M
  unfolding run_callback after_secondary
  dispatch_second w l =
      let (l', x) = run_callback (out_watcher w) l in after_secondary (is_removed x) w x l'
