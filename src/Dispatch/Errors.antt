-- ===== src/Dispatch/Errors.antt =====
-- ERR_EVENTS and multi_watch are the same bit.
use dasynq.Prelude.{ℕ, ◌+◌, ◌<◌, ◌≡◌, Bool, true, false, arith}
use dasynq.StableHeap.Defs.{u64_mod}
use dasynq.Flags.{Mask, no_events}
use dasynq.Watcher.{out_watcher}
use dasynq.Dispatch.Defs.{Storage, Dispatch, receive_fd_event}
use dasynq.Dispatch.Queue.{IsReady, is_pending, nodes, pending}
use dasynq.Dispatch.Receive.{is_multi, receive_fd_event-Received}

-- After an event with ERR_EVENTS on a bidi watcher, under the conditions of receive_fd_event-Received, the
-- watcher has lost its multi_watch flag. Any later event on it, in a state in which its watch flags are still
-- those and the same conditions hold, queues the watcher itself whatever the flags of the event are, never its
-- secondary watcher, and gives a zero watch mask.
pub receive_fd_event_error :
    (al : Storage) (separate : Bool) (w : ℕ) (flags flags' : Mask) (d d' : Dispatch)
    → IsReady al d
    → pending d + 1 < nodes d
    → d.event_queue.sequence + 2 < u64_mod
    → is_pending d w ≡ false
    → is_pending d (out_watcher w) ≡ false
    → is_multi (d.watcher w) ≡ true
    → flags.bit_4 ≡ true
    → (d'.watcher w).watch_flags
      ≡ ((receive_fd_event al separate w flags d).0.watcher w).watch_flags
    → IsReady al d'
    → pending d' + 1 < nodes d'
    → d'.event_queue.sequence + 2 < u64_mod
    → is_pending d' w ≡ false
    → let r = receive_fd_event al separate w flags' d' in
      (is_multi (d'.watcher w) ≡ false)
      × (is_pending r.0 w ≡ true)
      × (is_pending r.0 (out_watcher w) ≡ is_pending d' (out_watcher w))
      × (r.1 ≡ no_events)
receive_fd_event_error al separate w flags flags' d d' v room counter free free' multi err same v'
      room' counter' idle =
    let (first, _) =
      receive_fd_event-Received al separate w flags d v room counter free (λ _. free') in
    let lost : is_multi (d'.watcher w) ≡ false = ground (arith, first.watched) in
    let (second, mask) =
      receive_fd_event-Received al separate w flags' d' v' room' counter' idle
        (λ m. absurd (ground arith)) in
    (
      lost,
      ground (arith, second.queued w),
      ground (arith, second.queued (out_watcher w)),
      ground (arith, mask),
    )
