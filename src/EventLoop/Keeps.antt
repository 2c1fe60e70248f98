-- ===== src/EventLoop/Keeps.antt =====
-- What the functions that process a rearm value leave alone: the queue, the lock, the removed watchers and the
-- priorities.
use dasynq.Prelude.{ℕ, ◌≡◌, refl, Bool, true, false, Bool-cases, inl, inr, arith}
use dasynq.Prelude.Int.{ℤ}
use dasynq.Flags.{Mask}
use dasynq.Watcher.{Watcher, Rearm}
use dasynq.AttnLock.{interrupt_if_necessary}
use dasynq.EventLoop.Defs.{
  Mechanism, Loop, on_watcher, interrupt, interrupt_after, set_fd_enabled_nolock,
}
use dasynq.EventLoop.Rearm.{
  set_emulate_enabled, enable_io, disable, remove_fd, fd_rearm, process_signal_rearm,
  process_fd_rearm, process_child_watch_rearm,
}

module _ {M : Type 0} (m : Mechanism M) where
  pub record Keeps (l r : Loop M) : Type 0 where
    pub queue : r.dispatch.event_queue ≡ l.dispatch.event_queue
    pub removed : r.dispatch.removed ≡ l.dispatch.removed
    pub locked : r.dispatch.locked ≡ l.dispatch.locked
    pub prio : (g : ℕ) → (r.dispatch.watcher g).priority ≡ (l.dispatch.watcher g).priority

  abbrev pub same : (l : Loop M) → Keeps l l
  same l = record { queue = refl; removed = refl; locked = refl; prio = λ g. refl }

  pub interrupt-Keeps : (l : Loop M) → Keeps l (interrupt m l)
  unfolding interrupt
  interrupt-Keeps l = elim (Bool-cases (interrupt_if_necessary l.waits)) [
    | inl e ↦
        rw (e, interrupt) record { queue = refl; removed = refl; locked = refl; prio = λ g. refl }
    | inr e ↦ rw (e, interrupt) (same l)
  ]

  pub interrupt_after-Keeps : (b : Bool) (l : Loop M) → Keeps l (interrupt_after m b l)
  unfolding interrupt_after
  interrupt_after-Keeps true l = interrupt-Keeps l
  interrupt_after-Keeps false l = same l

  pub set_fd_enabled_nolock-Keeps :
      (w : ℕ) (fd : ℤ) (flags : Mask) (b : Bool) (l : Loop M)
      → Keeps l (set_fd_enabled_nolock m w fd flags b l)
  unfolding set_fd_enabled_nolock
  set_fd_enabled_nolock-Keeps w fd flags true l =
      let k = interrupt_after-Keeps m.interrupt_after_fd_add _ in
      record { queue = k.queue; removed = k.removed; locked = k.locked; prio = k.prio }
  set_fd_enabled_nolock-Keeps w fd flags false l = record {
    queue = refl;
    removed = refl;
    locked = refl;
    prio = λ g. refl;
  }

  -- a change of the watcher is left out of account
  pub changed-Keeps :
      (f : Watcher → Watcher) (w : ℕ) (l r : Loop M)
      → ((x : Watcher) → (f x).priority ≡ x.priority)
      → Keeps (on_watcher w f l) r
      → Keeps l r
  changed-Keeps f w l r same_prio k = record {
    queue = k.queue;
    removed = k.removed;
    locked = k.locked;
    prio = λ g. ground (arith, k.prio g, same_prio (l.dispatch.watcher w));
  }

  pub process_signal_rearm-Keeps :
      (w : ℕ) (x : Rearm) (l : Loop M) → Keeps l (process_signal_rearm m w x l)
  unfolding process_signal_rearm
  process_signal_rearm-Keeps w Rearm.rearm l =
      let k = interrupt_after-Keeps m.interrupt_after_signal_add _ in
      record { queue = k.queue; removed = k.removed; locked = k.locked; prio = k.prio }
  process_signal_rearm-Keeps w Rearm.remove l = record {
    queue = refl;
    removed = refl;
    locked = refl;
    prio = λ g. refl;
  }
  process_signal_rearm-Keeps w Rearm.disarm l = same l
  process_signal_rearm-Keeps w Rearm.noop l = same l
  process_signal_rearm-Keeps w Rearm.removed l = same l
  process_signal_rearm-Keeps w Rearm.requeue l = same l

  pub process_child_watch_rearm-Keeps :
      (w : ℕ) (x : Rearm) (l : Loop M) → Keeps l (process_child_watch_rearm m w x l)
  unfolding process_child_watch_rearm
  process_child_watch_rearm-Keeps w Rearm.remove l = record {
    queue = refl;
    removed = refl;
    locked = refl;
    prio = λ g. refl;
  }
  process_child_watch_rearm-Keeps w Rearm.disarm l = record {
    queue = refl;
    removed = refl;
    locked = refl;
    prio = λ g. refl;
  }
  process_child_watch_rearm-Keeps w Rearm.rearm l = same l
  process_child_watch_rearm-Keeps w Rearm.noop l = same l
  process_child_watch_rearm-Keeps w Rearm.removed l = same l
  process_child_watch_rearm-Keeps w Rearm.requeue l = same l

  fd_rearm-Keeps : (b : Bool) (w : ℕ) (x : Rearm) (l : Loop M) → Keeps l (fd_rearm m b w x l).0
  unfolding fd_rearm enable_io disable remove_fd set_emulate_enabled
  fd_rearm-Keeps true w Rearm.rearm l = record {
    queue = refl;
    removed = refl;
    locked = refl;
    prio = λ g. ground arith;
  }
  fd_rearm-Keeps true w Rearm.disarm l = record {
    queue = refl;
    removed = refl;
    locked = refl;
    prio = λ g. ground arith;
  }
  fd_rearm-Keeps true w Rearm.noop l = same l
  fd_rearm-Keeps true w Rearm.remove l = same l
  fd_rearm-Keeps true w Rearm.removed l = same l
  fd_rearm-Keeps true w Rearm.requeue l = same l
  fd_rearm-Keeps false w Rearm.rearm l = set_fd_enabled_nolock-Keeps w _ _ true l
  fd_rearm-Keeps false w Rearm.disarm l = record {
    queue = refl;
    removed = refl;
    locked = refl;
    prio = λ g. ground arith;
  }
  fd_rearm-Keeps false w Rearm.noop l = same l
  fd_rearm-Keeps false w Rearm.remove l = record {
    queue = refl;
    removed = refl;
    locked = refl;
    prio = λ g. ground arith;
  }
  fd_rearm-Keeps false w Rearm.removed l = same l
  fd_rearm-Keeps false w Rearm.requeue l = same l

  pub process_fd_rearm-Keeps :
      (w : ℕ) (x : Rearm) (l : Loop M) → Keeps l (process_fd_rearm m w x l).0
  unfolding process_fd_rearm
  process_fd_rearm-Keeps w x l = fd_rearm-Keeps _ w x l
