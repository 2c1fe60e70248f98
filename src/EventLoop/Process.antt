-- ===== src/EventLoop/Process.antt =====
-- process_events of the event loop. `class w` is the class of the watcher at `w`; a watcher of type SECONDARYFD
-- is the out_watcher of a bidi watcher. A limit below zero is `none`.
use dasynq.Prelude.{ℕ, suc, zero, ◌-◌, Bool, true, false, Option, none, some, ltb, if◌then◌else◌}
use dasynq.Watcher.{WatchType, Watcher, Rearm, out_offset}
use dasynq.Dispatch.Defs
use dasynq.Dispatch.Defs.{Storage, Dispatch, lock, unlock}
use dasynq.EventLoop.Defs.{Mechanism, Loop, on_watcher, on_dispatch}
use dasynq.EventLoop.Rearm.{at}
use dasynq.EventLoop.Callbacks.{WatcherClass, dispatch, dispatch_second}

unfoldable pub start_callback : Watcher → Watcher
start_callback x = record x { active = true }

abbrev pub is_secondary : WatchType → Bool
is_secondary WatchType.secondary_fd = true
is_secondary WatchType.signal = false
is_secondary WatchType.fd = false
is_secondary WatchType.child = false
is_secondary WatchType.timer = false

-- std::min(size_t(limit), num_queued_events())
abbrev pub bound : Option ℕ → ℕ → ℕ
bound none n = n
bound (some k) n = if ltb n k then n else k

abbrev pub is_some : Option ℕ → Bool
is_some none = false
is_some (some w) = true

unfoldable pub pull : {M : Type 0} → Loop M → Loop M × Option ℕ
pull l = let (d, p) = Defs.pull_queued_event l.dispatch in (record l { dispatch = d }, p)

module _ {M : Type 0} (m : Mechanism M) (al : Storage) (class : ℕ → WatcherClass)
    (callback : ℕ → Loop M → Loop M × Rearm) (on_removed : Bool → ℕ → Loop M → Loop M) where
  -- the body of the loop up to the test of the limit
  unfoldable pub process_event : ℕ → Loop M → Loop M
  unfolding start_callback
  process_event w l =
      let l' = on_watcher w start_callback l in
      if is_secondary (at l' w).watch_type
      then dispatch_second m al callback on_removed (w - out_offset) l'
      else dispatch m al callback on_removed (class w) w l'

  -- The loop for the pulled watcher `w`, if any, with `k` events left of the limit. The limit is not 0 where
  -- a watcher was pulled, since it is that of the caller or the number of queued watchers.
  unfoldable pub process_loop : ℕ → Loop M × Option ℕ → Loop M
  unfolding process_event pull
  process_loop k (l, none) = l
  process_loop zero (l, some w) = process_event w l
  process_loop (suc zero) (l, some w) = process_event w l
  process_loop (suc (suc k)) (l, some w) = process_loop (suc k) (pull (process_event w l))

  -- process_events with the lock held, up to `k` events; the limit fits an `int`.
  unfoldable pub process_up_to : ℕ → Loop M → Loop M × Bool
  unfolding process_loop pull
  process_up_to k l = let p = pull l in (on_dispatch unlock (process_loop k p), is_some p.1)

  -- For the limit 0 the code returns with the lock held.
  unfoldable pub process_events : Option ℕ → Loop M → Loop M × Bool
  unfolding process_up_to
  process_events (some zero) l = (on_dispatch lock l, false)
  process_events none l =
      process_up_to (bound none (Defs.num_queued_events l.dispatch)) (on_dispatch lock l)
  process_events (some (suc k)) l =
      process_up_to (bound (some (suc k)) (Defs.num_queued_events l.dispatch)) (on_dispatch lock l)
