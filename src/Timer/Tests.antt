-- ===== src/Timer/Tests.antt =====
-- Runs of the theorems about the timers: the handle 1 is a periodic timer and the handle 2 a one-off timer.
use dasynq.Prelude.{
  ℕ, ◌+◌, ◌*◌, ◌≤◌, ◌<◌, ◌≡◌, ◌↔◌, refl, ap, true, false, none, some, List, ◌==◌, if◌then◌else◌,
  arith, Bool-cases, inl, inr,
}
use dasynq.Prelude.Int.{pos, pos_part}
use dasynq.Vector.{Allocator, ok}
use dasynq.Flags.{monotonic, system}
use dasynq.Heap.{
  get_root, get_root_priority, pull_root, remove_h, bubble_up, bubble_up_loop, select_child,
  select_loop,
}
use dasynq.Vector
use dasynq.Heap.Valid.{IsOrdered, queued}
use dasynq.Time.Defs.{TimeVal, total, second, less_equal, compare_timespec}
use dasynq.Time.Order.{time_compare}
use dasynq.Time.Span.{IsSpan}
use dasynq.Timer.Defs.{
  TimerStorage, TimerQueue, TimerBase, Processing, process_timer_queue, process_root, set_data,
  add_expiries, is_one_off, queue_for_clock,
}
use dasynq.Timer.Calls.{Timeval, Wait, to_timeval, process_timers, enable_timer_nolock}
use dasynq.Timer.Round.{IsSane, FitsAt, Ring}
use dasynq.Timer.Loop.{Expired, process_timer_queue-Expired}
use dasynq.Timer.Step.{process_root-stale}
use dasynq.Timer.Wait.{Outcome, process_timers-Outcome, to_timeval_bounds}
use dasynq.Timer.Enable.{Enabled, enable_timer_nolock-Enabled}

abbrev at_second : ℕ → TimeVal
at_second n = record { seconds = pos n; nseconds = 0 }

abbrev storage : TimerStorage
storage = record {
  grants = λ n. false;
  fresh = λ n. record { prio = at_second 0; hnd = 0 };
  max_size = 100;
}

-- The timer 1 with a period of 3 s and the timeout 5 s, and the one-off timer 2 with the timeout 100 s.
abbrev two_timers : TimerQueue
two_timers = record {
  hvec = record {
    array = λ i.
        if i == 0
        then record { prio = at_second 5; hnd = 1 }
        else record { prio = at_second 100; hnd = 2 };
    size_v = 2;
    capacity_v = 8;
  };
  num_nodes = 2;
  heap_index = λ h. if h == 1 then some 0 else if h == 2 then some 1 else none;
  node_data = λ h. record {
    interval_time = if h == 1 then at_second 3 else at_second 0;
    expiry_count = 0;
    enabled = true;
    userdata = h;
  };
}

abbrev count_reports : ℕ → ℕ → ℕ → ℕ → ℕ
count_reports h userdata expiries n = n + expiries

two_timers-IsOrdered : IsOrdered time_compare two_timers
unfolding compare_timespec
two_timers-IsOrdered = λ c a b. ground arith

abbrev seven : TimeVal
seven = at_second 7

two_timers-Fits :
    (g : ℕ) (p : TimeVal) → queued two_timers g ≡ some p → FitsAt seven p (two_timers.node_data g)
unfolding is_one_off
two_timers-Fits g p e = elim (Bool-cases (g == 1)) [
  | inl at ↦ rw at (ground (arith, at))
  | inr other ↦ rw other (ground (arith, other))
]

two_timers-IsSane : IsSane storage seven two_timers
two_timers-IsSane = record {
  valid = record {
    room = omega arith;
    vector = record { within = omega arith; bounded = omega arith };
    reserved = omega arith;
    allocated = omega arith;
    indexed = record { forward = λ i a. ground arith; backward = λ g i e. ground arith };
  };
  ordered = two_timers-IsOrdered;
  spans = λ g p e. ground arith;
  fits = two_timers-Fits;
}

seven-IsSpan : IsSpan seven
seven-IsSpan = omega arith

process_timer_queue-Expired_example :
    (s : Processing ℕ) × (rs : List Ring) × (process_timer_queue count_reports storage seven
        two_timers 0
      ≡ ok s)
    × Expired seven count_reports storage two_timers 0 s rs
process_timer_queue-Expired_example =
    process_timer_queue-Expired seven count_reports storage seven-IsSpan two_timers 0
      two_timers-IsSane

next_root :
    get_root_priority
      (pull_root compare_timespec (set_data (get_root two_timers) (add_expiries 1) two_timers))
    ≡ at_second 100
unfolding get_root get_root_priority pull_root remove_h bubble_up bubble_up_loop select_child
    select_loop set_data add_expiries compare_timespec Vector.pop_back Vector.back
next_root = refl

process_root-stale_example :
    let stale =
      get_root_priority (pull_root compare_timespec (set_data 1 (add_expiries 1) two_timers)) in
    (s : Processing ℕ) × (p : TimeVal) × (process_root count_reports storage seven
        (record { queue = two_timers; base = 0 })
      ≡ ok (s, true))
    × (queued s.queue 1 ≡ some p)
    × (total p ≡ total stale + total (at_second 3))
    × (((s.queue.node_data 1).expiry_count ≡ 0) × (s.base ≡ 0 + 1))
unfolding get_root get_root_priority less_equal is_one_off
process_root-stale_example =
    process_root-stale storage seven two_timers two_timers-IsSane (omega arith) seven-IsSpan refl
      count_reports 0 refl (omega (arith, ap (λ x. total x) next_root))

abbrev timers : TimerBase ℕ
timers = record { timer_queue = two_timers; mono_timer_queue = two_timers; base = 0 }

abbrev waiting : Wait Timeval
waiting = record { do_wait = true; delay = none }

process_timers-Outcome_example :
    Outcome count_reports storage to_timeval seven monotonic waiting timers
      (process_timers count_reports storage to_timeval seven monotonic waiting timers)
unfolding queue_for_clock
process_timers-Outcome_example =
    process_timers-Outcome count_reports storage to_timeval seven monotonic waiting timers
      two_timers-IsSane seven-IsSpan

-- 2.9999995 s
abbrev almost_three : TimeVal
almost_three = record { seconds = pos 2; nseconds = 999_999_500 }

to_timeval_bounds_example :
    ((to_timeval almost_three).tv_usec ≤ 1_000_000)
    × (((to_timeval almost_three).tv_usec ≡ 1_000_000) ↔ (999_999_000 < almost_three.nseconds))
    × (total almost_three
        ≤ pos_part (to_timeval almost_three).tv_sec * second
          + (to_timeval almost_three).tv_usec * 1000)
    × (pos_part (to_timeval almost_three).tv_sec * second + (to_timeval almost_three).tv_usec * 1000
        < total almost_three + 1000)
to_timeval_bounds_example = to_timeval_bounds almost_three (omega arith)

enable_timer_nolock-Enabled_example :
    (rs : List Ring) × Enabled count_reports 1 true system timers
      (enable_timer_nolock count_reports 1 true system timers)
      rs
enable_timer_nolock-Enabled_example = enable_timer_nolock-Enabled count_reports 1 true system timers
