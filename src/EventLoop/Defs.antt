-- ===== src/EventLoop/Defs.antt =====
-- The state of an event loop, its mechanism, and the functions by which a watcher is enabled and queued.
use dasynq.Prelude.{ℕ, Bool, true, false, Option, if◌then◌else◌}
use dasynq.Prelude.Int.{ℤ}
use dasynq.Flags.{Mask, ClockType, one_shot, bit_or}
use dasynq.Watcher.{Watcher}
use dasynq.AttnLock.{WaitState, interrupt_if_necessary}
use dasynq.Dispatch.Defs
use dasynq.Dispatch.Defs.{Storage, Dispatch, set}

-- What the loop uses of the mechanism, all with the lock of the loop held: two flags of the traits, and the
-- functions, by a descriptor, a signal number, or the watcher whose handle is given. enable_timer_nolock may
-- report a count of expiries to the watcher, by receive_timer_expiry.
pub record Mechanism (M : Type 0) : Type 0 where
  pub has_separate_rw_fd_watches : Bool
  pub interrupt_after_fd_add : Bool
  pub interrupt_after_signal_add : Bool
  pub enable_fd_watch_nolock : ℤ → ℕ → Mask → M → M
  pub disable_fd_watch_nolock : ℤ → Mask → M → M
  pub remove_fd_watch_nolock : ℤ → Mask → M → M
  pub rearm_signal_watch_nolock : ℕ → ℕ → M → M
  pub remove_signal_watch_nolock : ℕ → M → M
  pub unreserve_child_watch_nolock : ℕ → M → M
  pub enable_timer_nolock : ℕ → Bool → ClockType → M → M × Option ℕ
  pub remove_timer_nolock : ℕ → ClockType → M → M
  pub interrupt_wait : M → M

-- `waits` is what `wait_lock` protects; for a null_mutex it is `no_waiters`.
pub record Loop (M : Type 0) : Type 0 where
  pub dispatch : Dispatch
  pub loop_mech : M
  pub waits : WaitState

module _ {M : Type 0} where
  -- a change of the watcher `w`, of the queue and the other watchers, and of the mechanism
  abbrev pub on_watcher : ℕ → (Watcher → Watcher) → Loop M → Loop M
  on_watcher w f l = record l { dispatch = set w f l.dispatch }

  abbrev pub on_dispatch : (Dispatch → Dispatch) → Loop M → Loop M
  on_dispatch f l = record l { dispatch = f l.dispatch }

  abbrev pub on_mech : (M → M) → Loop M → Loop M
  on_mech f l = record l { loop_mech = f l.loop_mech }

  module _ (m : Mechanism M) where
    unfoldable pub interrupt : Loop M → Loop M
    interrupt l = if interrupt_if_necessary l.waits then on_mech m.interrupt_wait l else l

    unfoldable pub interrupt_after : Bool → Loop M → Loop M
    unfolding interrupt
    interrupt_after true l = interrupt l
    interrupt_after false l = l

    unfoldable pub set_fd_enabled_nolock : ℕ → ℤ → Mask → Bool → Loop M → Loop M
    unfolding interrupt_after
    set_fd_enabled_nolock w fd watch_flags true l =
        interrupt_after m.interrupt_after_fd_add
          (on_mech (m.enable_fd_watch_nolock fd w (bit_or watch_flags one_shot)) l)
    set_fd_enabled_nolock w fd watch_flags false l =
        on_mech (m.disable_fd_watch_nolock fd watch_flags) l

    unfoldable pub requeue_watcher : Storage → ℕ → Loop M → Loop M
    unfolding interrupt
    requeue_watcher al w l = interrupt (on_dispatch (Defs.queue_watcher al w) l)
