-- ===== src/Timer/Defs.antt =====
-- The timers of timerbase.h and the functions of timer_base.
use dasynq.Prelude.{
  ℕ, zero, suc, ◌+◌, Bool, true, false, not, ◌&&◌, Option, none, some, List, [], ◌∷◌, ◌-◌, ◌%◌,
  ◌==◌, write,
}
use dasynq.Prelude.Int.{pos, eqb_ℤ}
use dasynq.Vector.{Allocator, Throws, ok, bad_alloc}
use dasynq.Heap
use dasynq.Heap.{Node, Heap}
use dasynq.Heap.Valid.{queued}
use dasynq.Flags.{ClockType, monotonic, system}
use dasynq.Time.Defs.{
  TimeVal, minus, plus, less_equal, compare_timespec, divide_timespec, total, int_range,
}

-- `expiry_count` is an `int`, as its pattern of 32 bits; `userdata` is the watcher.
pub record TimerData : Type 0 where
  pub interval_time : TimeVal
  pub expiry_count : ℕ
  pub enabled : Bool
  pub userdata : ℕ

abbrev pub TimerQueue : Type 0
TimerQueue = Heap TimeVal TimerData

abbrev pub TimerStorage : Type 0
TimerStorage = Allocator (Node TimeVal)

-- The object, with the state `B` of its base class.
pub record TimerBase (B : Type 0) : Type 0 where
  pub timer_queue : TimerQueue
  pub mono_timer_queue : TimerQueue
  pub base : B

-- One of the queues and the base class, while the timers of the queue are processed.
pub record Processing (B : Type 0) : Type 0 where
  pub queue : TimerQueue
  pub base : B

-- the constructor of timer_data
unfoldable pub timer_data : ℕ → TimerData
timer_data udata = record {
  interval_time = record { seconds = pos 0; nseconds = 0 };
  expiry_count = 0;
  enabled = true;
  userdata = udata;
}

-- a change of `node_data(h)`
unfoldable pub set_data : ℕ → (TimerData → TimerData) → TimerQueue → TimerQueue
set_data h f q = record q { node_data = write q.node_data h (f (q.node_data h)) }

unfoldable pub add_expiries : ℕ → TimerData → TimerData
add_expiries n x = record x { expiry_count = (x.expiry_count + n) % int_range }

unfoldable pub take_expiries : TimerData → TimerData
take_expiries x = record x { enabled = false; expiry_count = 0 }

-- interval.seconds() == 0 && interval.nseconds() == 0
unfoldable pub is_one_off : TimeVal → Bool
is_one_off interval = eqb_ℤ interval.seconds (pos 0) && (interval.nseconds == 0)

abbrev pub handles : ℕ → TimerQueue → List ℕ
handles zero q = []
handles (suc n) q = (q.hvec.array n).hnd ∷ handles n q

module _ (curtime : TimeVal) where
  -- The nanoseconds by which a timer is late, and one: each round takes it out of the queue or makes it
  -- later by its interval.
  abbrev pub lateness : TimeVal → ℕ
  lateness timeout = total curtime + 1 - total timeout

  abbrev pub late : Option TimeVal → ℕ
  late none = 0
  late (some timeout) = lateness timeout

  abbrev pub lateness_of : List ℕ → TimerQueue → ℕ
  lateness_of [] q = 0
  lateness_of (h ∷ hs) q = late (queued q h) + lateness_of hs q

  abbrev pub rounds_of : TimerQueue → ℕ
  rounds_of q = lateness_of (handles q.hvec.size_v q) q

module _ {B : Type 0} where
  unfoldable pub queue_for_clock : ClockType → TimerBase B → TimerQueue
  queue_for_clock monotonic t = t.mono_timer_queue
  queue_for_clock system t = t.timer_queue

  -- an assignment through the reference that queue_for_clock returns
  unfoldable pub put_queue : ClockType → TimerQueue → TimerBase B → TimerBase B
  put_queue monotonic q t = record t { mono_timer_queue = q }
  put_queue system q t = record t { timer_queue = q }

  unfoldable pub timer_queues_empty : TimerBase B → Bool
  timer_queues_empty t = Heap.empty t.timer_queue && Heap.empty t.mono_timer_queue

  -- `receive` is receive_timer_expiry of the base class, on a handle, its user data and a count.
  module _ (receive : ℕ → ℕ → ℕ → B → B) where
    -- the block `if (data.enabled) { ... }`
    unfoldable pub report : Bool → ℕ → Processing B → Processing B
    unfolding set_data take_expiries
    report true h s =
        let d = s.queue.node_data h in
        record {
          queue = set_data h take_expiries s.queue;
          base = receive h d.userdata d.expiry_count s.base;
        }
    report false h s = s

    -- the rest of the branch of a periodic timer, after `queue.insert`
    unfoldable pub inserted : ℕ → B → Throws (TimerQueue × Bool) → Throws (Processing B × Bool)
    unfolding report
    inserted h b bad_alloc = bad_alloc
    inserted h b (ok (q, root)) =
        ok (report (q.node_data h).enabled h (record { queue = q; base = b }), true)

    module _ (al : TimerStorage) (curtime : TimeVal) where
      -- The `if` of the loop, with the timer `h` taken out of the queue; the argument says whether it is a
      -- one-off timer. `timeout` still points at the first cell of the vector. The Boolean result is false
      -- for `break`. An exception of `insert` ends the program, since the function is noexcept.
      unfoldable pub expired : Bool → ℕ → Processing B → Throws (Processing B × Bool)
      unfolding report inserted
      expired true h s =
          let s' = report (s.queue.node_data h).enabled h s in ok (s', not (Heap.empty s'.queue))
      expired false h s =
          let interval = (s.queue.node_data h).interval_time in
          let overrun = minus curtime (Heap.get_root_priority s.queue) in
          let division = divide_timespec overrun interval in
          let q = set_data h (add_expiries division.quotient) s.queue in
          let newtime = minus (plus curtime interval) division.rem in
          inserted h s.base (Heap.insert compare_timespec al h newtime q)

      -- one round of the loop
      unfoldable pub process_root : Processing B → Throws (Processing B × Bool)
      unfolding expired set_data add_expiries
      process_root s =
          let thandle = Heap.get_root s.queue in
          let q = set_data thandle (add_expiries 1) s.queue in
          expired (is_one_off (q.node_data thandle).interval_time) thandle
            (record s { queue = Heap.pull_root compare_timespec q })

      -- The loop, with a bound on its rounds, of which `rounds_of` gives enough.
      unfoldable pub process_loop : ℕ → Processing B → Throws (Processing B)
      unfolding process_root
      process_loop zero s = ok s
      process_loop (suc k) s = elim (less_equal (Heap.get_root_priority s.queue) curtime) [
        | true ↦ elim (process_root s) [
          | ok (s', true) ↦ process_loop k s'
          | ok (s', false) ↦ ok s'
          | bad_alloc ↦ bad_alloc
        ]
        | false ↦ ok s
      ]

      unfoldable pub process_timer_queue : TimerQueue → B → Throws (Processing B)
      unfolding process_loop
      process_timer_queue q b = elim (Heap.empty q) [
        | true ↦ ok (record { queue = q; base = b })
        | false ↦ process_loop (rounds_of curtime q) (record { queue = q; base = b })
      ]
