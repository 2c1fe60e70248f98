-- ===== src/Dispatch/Defs.antt =====
-- The state of event_dispatch, and its functions.
use dasynq.Prelude.{
  ℕ, ◌+◌, ◌%◌, Bool, true, false, not, ◌&&◌, Option, none, some, List, ◌∷◌, if◌then◌else◌, write,
}
use dasynq.Prelude.Int.{ℤ, ltb_ℤ}
use dasynq.Vector.{Allocator, Throws, ok, bad_alloc}
use dasynq.Heap.{Node}
use dasynq.StableHeap.Defs
use dasynq.StableHeap.Defs.{StablePrio, StableHeap}
use dasynq.Flags.{
  Mask, no_events, in_events, out_events, one_shot, io_events, multi_watch, bit_or, bit_and, clear,
  has_any,
}
use dasynq.Watcher.{Watcher, out_watcher}
use dasynq.Time.Defs.{int_range}

abbrev pub PrioQueue : Type 0
PrioQueue = StableHeap ℤ (Unit {0})

abbrev pub Storage : Type 0
Storage = Allocator (Node (StablePrio ℤ))

pub record Dispatch : Type 0 where
  pub event_queue : PrioQueue
  pub watcher : ℕ → Watcher
  pub locked : Bool
  pub removed : List ℕ
  pub terminated : Bool

-- an assignment to fields of the watcher `w`
abbrev pub set : ℕ → (Watcher → Watcher) → Dispatch → Dispatch
set w f d = record d { watcher = write d.watcher w (f (d.watcher w)) }

-- event_flags |= flags, and watch_flags &= ~flags
unfoldable pub add_events : Mask → Watcher → Watcher
add_events flags x = record x { event_flags = bit_or x.event_flags flags }

unfoldable pub drop_watches : Mask → Watcher → Watcher
drop_watches flags x = record x { watch_flags = clear x.watch_flags flags }

-- the virtual callback watch_removed
abbrev pub watch_removed : ℕ → Dispatch → Dispatch
watch_removed w d = record d { removed = w ∷ d.removed }

abbrev pub lock : Dispatch → Dispatch
lock d = record d { locked = true }

abbrev pub unlock : Dispatch → Dispatch
unlock d = record d { locked = false }

-- The result of an insertion in a function that is noexcept.
abbrev pub inserted : Dispatch → Throws (PrioQueue × Bool) → Dispatch
inserted d (ok (q, _)) = record d { event_queue = q }
inserted d bad_alloc = record d { terminated = true }

abbrev pub with_queue : Dispatch → Throws PrioQueue → Throws Dispatch
with_queue d (ok q) = ok (record d { event_queue = q })
with_queue d bad_alloc = bad_alloc

module _ (al : Storage) where
  unfoldable pub prepare_watcher : ℕ → Dispatch → Throws Dispatch
  prepare_watcher w d = with_queue d (Defs.allocate al w tt d.event_queue)

  unfoldable pub queue_watcher : ℕ → Dispatch → Dispatch
  queue_watcher w d = inserted d (Defs.insert ltb_ℤ al w (d.watcher w).priority d.event_queue)

  unfoldable pub release_watcher : ℕ → Dispatch → Dispatch
  release_watcher w d = record d { event_queue = Defs.deallocate al d.event_queue }

unfoldable pub dequeue_watcher : ℕ → Dispatch → Dispatch
dequeue_watcher w d =
    if Defs.is_queued d.event_queue w
    then record d { event_queue = Defs.remove ltb_ℤ w d.event_queue }
    else d

-- Pull a single event from the queue; `none` for a null pointer.
unfoldable pub pull_queued_event : Dispatch → Dispatch × Option ℕ
pull_queued_event d = if Defs.empty d.event_queue then (d, none) else (
  record d { event_queue = Defs.pull_root ltb_ℤ d.event_queue },
  some (Defs.get_root d.event_queue),
)

unfoldable pub num_queued_events : Dispatch → ℕ
num_queued_events d = Defs.size d.event_queue

module _ (al : Storage) where
  unfoldable pub receive_signal : ℕ → ℕ → Dispatch → Dispatch × Bool
  receive_signal siginfo w d =
      (queue_watcher al w (set w (λ x. record x { siginfo = siginfo }) d), true)

  -- What is queued for an event with input and with output readiness on a bidi watcher: the secondary
  -- watcher first, where both are.
  unfoldable pub queue_halves : Bool → Bool → ℕ → Dispatch → Dispatch
  queue_halves true true w d = queue_watcher al w (queue_watcher al (out_watcher w) d)
  queue_halves false true w d = queue_watcher al (out_watcher w) d
  queue_halves true false w d = queue_watcher al w d
  queue_halves false false w d = queue_watcher al w d

  -- The part of receive_fd_event that queues, by `is_multi_watch`.
  unfoldable pub queue_event : Bool → ℕ → Mask → Dispatch → Dispatch
  unfolding queue_halves
  queue_event true w flags d =
      queue_halves (has_any (bit_and flags in_events)) (has_any (bit_and flags out_events)) w
        (set w (drop_watches flags) d)
  queue_event false w flags d = queue_watcher al w d

  -- `separate` is has_separate_rw_fd_watches of the traits. The result is the watch mask; the descriptor that
  -- goes with it is the watcher's `watch_fd`.
  unfoldable pub receive_fd_event : Bool → ℕ → Mask → Dispatch → Dispatch × Mask
  unfolding queue_event
  receive_fd_event separate w flags d =
      let is_multi_watch = has_any (bit_and (d.watcher w).watch_flags multi_watch) in
      let d' = queue_event is_multi_watch w flags (set w (add_events flags) d) in
      let left = bit_and (d'.watcher w).watch_flags io_events in
      (
        d',
        if is_multi_watch && not separate
            then (if has_any left then bit_or left one_shot else no_events)
            else no_events,
      )

  unfoldable pub receive_child_stat : ℕ → ℕ → Dispatch → Dispatch
  receive_child_stat status w d =
      queue_watcher al w (set w (λ x. record x { child_status = status; child_termd = true }) d)

  unfoldable pub receive_timer_expiry : ℕ → ℕ → Dispatch → Dispatch
  receive_timer_expiry w intervals d =
      queue_watcher al w
        (set w (λ x. record x { intervals = (x.intervals + intervals) % int_range }) d)

-- watcher->deleteme = true, watcher->read_removed = true, watcher->write_removed = true
unfoldable pub mark_deleteme : Watcher → Watcher
mark_deleteme x = record x { deleteme = true }

unfoldable pub mark_read_removed : Watcher → Watcher
mark_read_removed x = record x { read_removed = true }

unfoldable pub mark_write_removed : Watcher → Watcher
mark_write_removed x = record x { write_removed = true }

module _ (al : Storage) where
  -- issue_delete with the lock held, by whether the watcher is active
  unfoldable pub delete_by : Bool → ℕ → Dispatch → Dispatch
  delete_by true w d = unlock (set w mark_deleteme d)
  delete_by false w d = watch_removed w (unlock (release_watcher al w (dequeue_watcher w d)))

  unfoldable pub issue_delete : ℕ → Dispatch → Dispatch
  unfolding delete_by
  issue_delete w d = delete_by (d.watcher w).active w (lock d)

  -- The two halves of issue_delete for a bidi watcher `w`, by whether the half is active. The code releases
  -- the primary watcher in both: the release reads nothing of the watcher.
  unfoldable pub delete_primary : Bool → ℕ → Dispatch → Dispatch
  delete_primary true w d = release_watcher al w (set w mark_deleteme d)
  delete_primary false w d = set w mark_read_removed (release_watcher al w (dequeue_watcher w d))

  unfoldable pub delete_secondary : Bool → ℕ → Dispatch → Dispatch
  delete_secondary true w d = release_watcher al w (set (out_watcher w) mark_deleteme d)
  delete_secondary false w d =
      set w mark_write_removed (release_watcher al w (dequeue_watcher (out_watcher w) d))

  -- the end of issue_delete for a bidi watcher, by whether both halves are removed
  unfoldable pub delete_removed : Bool → ℕ → Dispatch → Dispatch
  delete_removed true w d = watch_removed w (unlock d)
  delete_removed false w d = unlock d

  unfoldable pub issue_delete_bidi : ℕ → Dispatch → Dispatch
  unfolding delete_primary delete_secondary delete_removed
  issue_delete_bidi w d =
      let d1 = delete_primary (d.watcher w).active w (lock d) in
      let d2 = delete_secondary (d1.watcher (out_watcher w)).active w d1 in
      delete_removed ((d2.watcher w).read_removed && (d2.watcher w).write_removed) w d2
