-- ===== src/Epoll/Rearms.antt =====
-- An event of a bidi watcher, whose watch in the epoll set is disabled when the kernel reports it (EPOLLONESHOT):
-- the direction that is not reported is watched again.
use dasynq.Prelude.{
  ℕ, ◌+◌, ◌<◌, ◌≡◌, refl, sym, ap, subst, ◌∙◌, Bool, true, false, ◌||◌, Option, if◌then◌else◌,
  arith,
}
use dasynq.Prelude.Int.{ℤ}
use dasynq.StableHeap.Defs.{u64_mod}
use dasynq.Flags.{Mask, clear, has_any, bit_or, bit_and, io_events, one_shot, no_events}
use dasynq.Watcher.{out_watcher}
use dasynq.Dispatch.Defs.{Storage, receive_fd_event}
use dasynq.Dispatch.Queue.{IsReady, is_pending, nodes, pending}
use dasynq.Dispatch.Receive.{Received, rearms, is_multi, receive_fd_event-Received}
use dasynq.Epoll.Defs.{EpollEvent, Kernel, Epoll, watch_event}
use dasynq.Epoll.Events.{Polled, process_fd_event, rearm_fd}
use dasynq.Epoll.Refine.{IsKernel, watch, reads_of, writes_of, is_some, enable_fd_watch-watch}

module _ {K : Type 0} (kernel : Kernel K) (interest : K → ℤ → ℤ → Option EpollEvent)
    (v : IsKernel kernel interest) where
  -- The directions watched are those in the rest of the watch flags.
  abbrev pub Follows : ℤ → Mask → Epoll K → Type 0
  Follows fd left s =
      (reads_of (watch kernel interest s fd) ≡ left.bit_1)
      × (writes_of (watch kernel interest s fd) ≡ left.bit_2)

  rearm_fd-Follows :
      (any : Bool) (fd : ℤ) (w : ℕ) (left : Mask) (s : Epoll K)
      → (left.bit_1 || left.bit_2) ≡ any
      → is_some (watch kernel interest s fd) ≡ true
      → Follows fd no_events s
      → let mask = if any then bit_or (bit_and left io_events) one_shot else no_events in
        Follows fd left (rearm_fd kernel (has_any mask) fd w mask s)
  unfolding rearm_fd watch_event
  rearm_fd-Follows true fd w left s e known off =
      let mask = bit_or (bit_and left io_events) one_shot in
      let again =
        enable_fd_watch-watch kernel interest v fd w mask s (watch kernel interest s fd) refl
          known in
      let some_left : has_any mask ≡ true = ground arith in
      rw some_left
        (ground (arith, ap (λ o. reads_of o) again), ground (arith, ap (λ o. writes_of o) again))
  rearm_fd-Follows false fd w left s e known off = (ground (arith, off), ground (arith, off))

  -- On a ready queue with room for two nodes, a counter two below its limit or lower, and a bidi watcher `w` none
  -- of whose halves is queued: if its descriptor is registered in the epoll set and the kernel has disabled it,
  -- process_events of an event of `w` leaves the epoll set watching the directions of the descriptor that are
  -- in the watch flags of `w`, from which those of the event are cleared. The halves are queued as
  -- receive_fd_event queues them.
  pub process_fd_event-Follows :
      (al : Storage) (w : ℕ) (flags : Mask) (p : Polled K)
      → IsReady al p.dispatch
      → pending p.dispatch + 1 < nodes p.dispatch
      → p.dispatch.event_queue.sequence + 2 < u64_mod
      → is_pending p.dispatch w ≡ false
      → is_pending p.dispatch (out_watcher w) ≡ false
      → is_multi (p.dispatch.watcher w) ≡ true
      → is_some (watch kernel interest p.mech (p.dispatch.watcher w).watch_fd) ≡ true
      → Follows (p.dispatch.watcher w).watch_fd no_events p.mech
      → let r = process_fd_event al kernel w flags p in
        Received al w flags p.dispatch r.dispatch
        × ((r.dispatch.watcher w).watch_flags ≡ clear (p.dispatch.watcher w).watch_flags flags)
        × Follows (r.dispatch.watcher w).watch_fd (r.dispatch.watcher w).watch_flags r.mech
  unfolding process_fd_event
  process_fd_event-Follows al w flags p ready room counter free free' multi known off =
      let (received, mask) =
        receive_fd_event-Received al false w flags p.dispatch ready room counter free
          (λ m. free') in
      let d = (receive_fd_event al false w flags p.dispatch).0 in
      let fd = (d.watcher w).watch_fd in
      let left = (d.watcher w).watch_flags in
      let same = sym received.same_fd in
      let again =
        rearm_fd-Follows _ fd w left p.mech refl
          (subst (λ x. is_some (watch kernel interest p.mech x) ≡ true) same known)
          (subst (λ x. Follows x no_events p.mech) same off) in
      let follows =
        subst (λ x. Follows fd left (rearm_fd kernel (has_any x) fd w x p.mech))
          (sym (mask ∙ ap (λ b. rearms b false left) multi)) again in
      (received, ground (arith, received.watched, multi), follows)
