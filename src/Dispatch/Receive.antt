-- ===== src/Dispatch/Receive.antt =====
-- A backend reports an event: which watchers are queued for it.
use dasynq.Prelude.{
  ℕ, ◌+◌, ◌<◌, ◌≡◌, refl, ◌∙◌, Bool, true, false, not, ◌&&◌, ◌||◌, ◌==◌, if◌then◌else◌, arith,
}
use dasynq.StableHeap.Defs.{u64_mod}
use dasynq.Flags.{
  Mask, io_events, one_shot, no_events, bit_or, bit_and, clear, has_any-in, has_any-out,
  has_any-multi, has_any-io,
}
use dasynq.Watcher.{Watcher, out_watcher}
use dasynq.Dispatch.Defs.{
  Storage, Dispatch, set, add_events, drop_watches, queue_watcher, queue_halves, queue_event,
  receive_fd_event,
}
use dasynq.Dispatch.Queue.{IsReady, is_pending, nodes, pending, queue_watcher-Queued}

-- The halves that an event queues: that of `w` unless a bidi watcher has output readiness only, and that of
-- its out_watcher if a bidi watcher has output readiness.
abbrev pub queues_primary : Bool → Mask → Bool
queues_primary multi flags = not (multi && (flags.bit_2 && not flags.bit_1))

abbrev pub queues_secondary : Bool → Mask → Bool
queues_secondary multi flags = multi && flags.bit_2

abbrev pub is_multi : Watcher → Bool
is_multi x = x.watch_flags.bit_4

-- The watch mask that receive_fd_event gives to the backend.
abbrev pub rearms : Bool → Bool → Mask → Mask
rearms multi separate left =
    if multi && not separate
    then (if left.bit_1 || left.bit_2 then bit_or (bit_and left io_events) one_shot else no_events)
    else no_events

module _ (al : Storage) (w : ℕ) where
  -- What the part that queues an event leaves; `primary` and `secondary` say which halves are queued.
  record Queues (primary secondary : Bool) (d r : Dispatch) : Type 0 where
    ready : IsReady al r
    queued :
        (g : ℕ)
        → is_pending r g ≡ (
            if g == w
            then is_pending d g || primary
            else if g == out_watcher w
            then is_pending d g || secondary
            else is_pending d g)
    watcher : r.watcher ≡ d.watcher
    same : nodes r ≡ nodes d
    fine : r.terminated ≡ d.terminated

  primary-Queues :
      (d : Dispatch)
      → IsReady al d
      → pending d < nodes d
      → d.event_queue.sequence + 1 < u64_mod
      → is_pending d w ≡ false
      → Queues true false d (queue_watcher al w d)
  primary-Queues d v room counter free =
      let q = queue_watcher-Queued al w d v free room counter in
      record {
        ready = q.ready;
        queued = λ g. ground (arith, q.here g);
        watcher = q.rest.0;
        same = q.same;
        fine = q.rest.3;
      }

  secondary-Queues :
      (d : Dispatch)
      → IsReady al d
      → pending d < nodes d
      → d.event_queue.sequence + 1 < u64_mod
      → is_pending d (out_watcher w) ≡ false
      → Queues false true d (queue_watcher al (out_watcher w) d)
  secondary-Queues d v room counter free =
      let q = queue_watcher-Queued al (out_watcher w) d v free room counter in
      record {
        ready = q.ready;
        queued = λ g. ground (arith, q.here g);
        watcher = q.rest.0;
        same = q.same;
        fine = q.rest.3;
      }

  queue_halves-Queues :
      (inp out : Bool) (d : Dispatch)
      → IsReady al d
      → pending d + 1 < nodes d
      → d.event_queue.sequence + 2 < u64_mod
      → is_pending d w ≡ false
      → is_pending d (out_watcher w) ≡ false
      → Queues (not (out && not inp)) out d (queue_halves al inp out w d)
  unfolding queue_halves
  queue_halves-Queues true true d v room counter free free' =
      let q = queue_watcher-Queued al (out_watcher w) d v free' (omega arith) (omega arith) in
      let r = queue_watcher al (out_watcher w) d in
      let free2 : is_pending r w ≡ false = ground (arith, q.here w) in
      let q2 =
        queue_watcher-Queued al w r q.ready free2 (omega (arith, q.size, q.same))
          (omega (arith, q.counted)) in
      record {
        ready = q2.ready;
        queued = λ g. ground (arith, q2.here g, q.here g);
        watcher = q2.rest.0 ∙ q.rest.0;
        same = q2.same ∙ q.same;
        fine = q2.rest.3 ∙ q.rest.3;
      }
  queue_halves-Queues false true d v room counter free free' =
      secondary-Queues d v (omega arith) (omega arith) free'
  queue_halves-Queues true false d v room counter free free' =
      primary-Queues d v (omega arith) (omega arith) free
  queue_halves-Queues false false d v room counter free free' =
      primary-Queues d v (omega arith) (omega arith) free

  -- The queue and the watchers after receive_fd_event.
  pub record Received (flags : Mask) (d r : Dispatch) : Type 0 where
    pub ready : IsReady al r
    pub queued :
        (g : ℕ)
        → is_pending r g ≡ (
            if g == w
            then is_pending d g || queues_primary (is_multi (d.watcher w)) flags
            else if g == out_watcher w
            then is_pending d g || queues_secondary (is_multi (d.watcher w)) flags
            else is_pending d g)
    pub watched : (r.watcher w).watch_flags ≡ (
        if is_multi (d.watcher w)
        then clear (d.watcher w).watch_flags flags
        else (d.watcher w).watch_flags)
    pub events : (r.watcher w).event_flags ≡ bit_or (d.watcher w).event_flags flags
    pub same_fd : (r.watcher w).watch_fd ≡ (d.watcher w).watch_fd
    pub same : nodes r ≡ nodes d
    pub fine : r.terminated ≡ d.terminated

  module _ (flags : Mask) (d : Dispatch) (v : IsReady al d) (room : pending d + 1 < nodes d)
      (counter : d.event_queue.sequence + 2 < u64_mod) (free : is_pending d w ≡ false) where
    queue_event-single :
        is_multi (d.watcher w) ≡ false
        → Received flags d (queue_event al false w flags (set w (add_events flags) d))
    unfolding queue_event add_events
    queue_event-single e =
        let v' : IsReady al (set w (add_events flags) d) = record {
          valid = v.valid;
          ordered = v.ordered;
        } in
        let q = primary-Queues (set w (add_events flags) d) v' (omega arith) (omega arith) free in
        record {
          ready = q.ready;
          queued = λ g. ground (arith, q.queued g);
          watched = ground (arith, q.watcher);
          events = ground (arith, q.watcher);
          same_fd = ground (arith, q.watcher);
          same = q.same;
          fine = q.fine;
        }

    queue_event-multi :
        is_multi (d.watcher w) ≡ true
        → is_pending d (out_watcher w) ≡ false
        → Received flags d (queue_event al true w flags (set w (add_events flags) d))
    unfolding queue_event add_events drop_watches
    queue_event-multi e free' =
        let d' = set w (drop_watches flags) (set w (add_events flags) d) in
        let v' : IsReady al d' = record { valid = v.valid; ordered = v.ordered } in
        let q = queue_halves-Queues flags.bit_1 flags.bit_2 d' v' room counter free free' in
        rw (has_any-in flags, has_any-out flags)
          (record {
            ready = q.ready;
            queued = λ g. ground (arith, q.queued g);
            watched = ground (arith, q.watcher);
            events = ground (arith, q.watcher);
            same_fd = ground (arith, q.watcher);
            same = q.same;
            fine = q.fine;
          })

    queue_event-Received :
        (multi : Bool)
        → is_multi (d.watcher w) ≡ multi
        → (multi ≡ true → is_pending d (out_watcher w) ≡ false)
        → Received flags d (queue_event al multi w flags (set w (add_events flags) d))
    queue_event-Received true e free' = queue_event-multi e (free' refl)
    queue_event-Received false e free' = queue_event-single e

-- On a ready queue with room for two nodes, a counter two below its limit or lower, and a watcher `w` that is
-- not queued, nor its secondary watcher if `w` is a bidi watcher, receive_fd_event does not throw, keeps the
-- queue ready and the number of nodes and the descriptor of `w`, and adds the flags to the event flags of `w`. If `w` is not a bidi
-- watcher it is queued, its watch flags stay, and the watch mask is zero. If it is, input readiness queues
-- `w`, output readiness queues its secondary watcher, an event with neither queues `w`, and the flags are
-- cleared from the watch flags of `w`; then the mask is the rest of the watched directions, with ONE_SHOT,
-- if there is any and the backend has no separate watches, and zero otherwise. No other watcher is queued or
-- leaves the queue.
pub receive_fd_event-Received :
    (al : Storage) (separate : Bool) (w : ℕ) (flags : Mask) (d : Dispatch)
    → IsReady al d
    → pending d + 1 < nodes d
    → d.event_queue.sequence + 2 < u64_mod
    → is_pending d w ≡ false
    → (is_multi (d.watcher w) ≡ true → is_pending d (out_watcher w) ≡ false)
    → let r = receive_fd_event al separate w flags d in
      Received al w flags d r.0
      × (r.1 ≡ rearms (is_multi (d.watcher w)) separate (r.0.watcher w).watch_flags)
unfolding receive_fd_event
receive_fd_event-Received al separate w flags d v room counter free free' =
    rw (has_any-multi (d.watcher w).watch_flags, has_any-io)
      (queue_event-Received al w flags d v room counter free _ refl free', refl)
