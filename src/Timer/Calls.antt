-- ===== src/Timer/Calls.antt =====
-- The functions of timer_base that a mechanism calls: the timers processed at the time of the clock, and a timer
-- added, removed and enabled.
use dasynq.Prelude.{ℕ, ◌+◌, ◌/◌, Bool, true, false, not, ◌&&◌, Option, some, ◌==◌}
use dasynq.Prelude.Int.{ℤ}
use dasynq.Vector.{Throws, ok, bad_alloc}
use dasynq.Heap
use dasynq.Heap.{Node, Heap}
use dasynq.Flags.{ClockType}
use dasynq.Time.Defs.{TimeVal, minus, less_equal, compare_timespec}
use dasynq.Timer.Defs.{
  TimerData, TimerQueue, TimerStorage, TimerBase, Processing, timer_data, set_data, queue_for_clock,
  put_queue, process_timer_queue,
}

unfoldable pub remove_queued : Bool → ℕ → TimerQueue → TimerQueue
remove_queued true h q = Heap.remove compare_timespec h q
remove_queued false h q = q

unfoldable pub set_enabled : Bool → TimerData → TimerData
set_enabled enable x = record x { enabled = enable }

unfoldable pub clear_expiries : TimerData → TimerData
clear_expiries x = record x { expiry_count = 0 }

-- The delay before the next timer, in the two forms that the mechanisms wait with.
pub record Timeval : Type 0 where
  pub tv_sec : ℤ
  pub tv_usec : ℕ

-- The parameters `do_wait` and `wait_ts` (or `wait_tv`), which are references: `none` is the null pointer.
pub record Wait (D : Type 0) : Type 0 where
  pub do_wait : Bool
  pub delay : Option D

unfoldable pub to_timespec : TimeVal → TimeVal
to_timespec t = t

unfoldable pub to_timeval : TimeVal → Timeval
to_timeval t = record { tv_sec = t.seconds; tv_usec = (t.nseconds + 999) / 1000 }

unfoldable pub set_delay : {D : Type 0} → Bool → D → Wait D → Wait D
set_delay true d w = record w { delay = some d }
set_delay false d w = w

module _ {B D : Type 0} where
  -- the assignments to the queue, the base class and the parameters, if process_timer_queue returned
  unfoldable pub processed :
      ClockType → TimerBase B → Wait D → Throws (Processing B) → Throws (TimerBase B × Wait D)
  unfolding put_queue
  processed clock t w bad_alloc = bad_alloc
  processed clock t w (ok s) =
      ok (put_queue clock s.queue (record t { base = s.base }), record w { do_wait = false })

  -- process_timers, at the time `now` that get_time gives; `to_delay` is the form of the delay.
  unfoldable pub process_timers :
      (ℕ → ℕ → ℕ → B → B)
      → TimerStorage
      → (TimeVal → D)
      → TimeVal
      → ClockType
      → Wait D
      → TimerBase B
      → Throws (TimerBase B × Wait D)
  unfolding processed set_delay queue_for_clock process_timer_queue
  process_timers receive al to_delay now clock w t =
      let timer_q = queue_for_clock clock t in
      let timeout = Heap.get_root_priority timer_q in
      elim (Heap.empty timer_q) [
        | true ↦ ok (t, w)
        | false ↦ elim (less_equal timeout now) [
          | true ↦ processed clock t w (process_timer_queue receive al now timer_q t.base)
          | false ↦ ok (t, set_delay w.do_wait (to_delay (minus timeout now)) w)
        ]
      ]

module _ {B : Type 0} where
  -- The node of a timer made: a timer that is not running. The base class is left as it was.
  unfoldable pub allocated : ClockType → TimerBase B → Throws TimerQueue → Throws (TimerBase B)
  unfolding put_queue
  allocated clock t bad_alloc = bad_alloc
  allocated clock t (ok q) = ok (put_queue clock q t)

  unfoldable pub add_timer_nolock :
      TimerStorage → ℕ → ℕ → ClockType → TimerBase B → Throws (TimerBase B)
  unfolding allocated queue_for_clock timer_data
  add_timer_nolock al h userdata clock t =
      allocated clock t (Heap.allocate al h (timer_data userdata) (queue_for_clock clock t))

  unfoldable pub remove_timer_nolock : TimerStorage → ℕ → ClockType → TimerBase B → TimerBase B
  unfolding put_queue queue_for_clock remove_queued
  remove_timer_nolock al h clock t =
      let q = queue_for_clock clock t in
      put_queue clock (Heap.deallocate al (remove_queued (Heap.is_queued q h) h q)) t

  -- by `expiry_count != 0 && enable`
  unfoldable pub enable_data : (ℕ → ℕ → ℕ → B → B) → Bool → ℕ → Bool → Processing B → Processing B
  unfolding set_data clear_expiries set_enabled
  enable_data receive true h enable s =
      let d = s.queue.node_data h in
      record {
        queue = set_data h clear_expiries s.queue;
        base = receive h d.userdata d.expiry_count s.base;
      }
  enable_data receive false h enable s = record s {
    queue = set_data h (set_enabled enable) s.queue;
  }

  unfoldable pub enable_timer_nolock :
      (ℕ → ℕ → ℕ → B → B) → ℕ → Bool → ClockType → TimerBase B → TimerBase B
  unfolding enable_data put_queue queue_for_clock
  enable_timer_nolock receive h enable clock t =
      let q = queue_for_clock clock t in
      let s =
        enable_data receive (not ((q.node_data h).expiry_count == 0) && enable) h enable
          (record { queue = q; base = t.base }) in
      put_queue clock s.queue (record t { base = s.base })
