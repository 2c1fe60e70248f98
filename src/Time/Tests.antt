-- ===== src/Time/Tests.antt =====
-- Runs of the theorems about the times of timerbase.h.
use dasynq.Prelude.{◌+◌, ◌*◌, ◌<◌, ◌≡◌, ◌≤◌, ◌↔◌, true, false, not, ◌&&◌, arith}
use dasynq.Prelude.Int.{pos, negsuc}
use dasynq.Time.Defs.{
  TimeVal, second, total, minus, plus, add_to, subtract_from, divide_timespec, compare_timespec,
  less, less_equal, equal,
}
use dasynq.Time.Span.{IsSpan}
use dasynq.Time.Order.{minus-plus, compare_timespec_total}
use dasynq.Time.Divide.{IsRegular, periods, divide_timespec_divides, divide_timespec_stops}

abbrev before_epoch : TimeVal
before_epoch = record { seconds = negsuc 2; nseconds = 700_000_000 }

abbrev after_epoch : TimeVal
after_epoch = record { seconds = pos 5; nseconds = 600_000_000 }

minus-plus_example :
    (plus (minus before_epoch after_epoch) after_epoch ≡ before_epoch)
    × (minus (plus before_epoch after_epoch) after_epoch ≡ before_epoch)
    × ((minus before_epoch after_epoch).nseconds < second)
    × ((plus before_epoch after_epoch).nseconds < second)
    × (add_to before_epoch after_epoch ≡ plus before_epoch after_epoch)
    × (subtract_from before_epoch after_epoch ≡ minus before_epoch after_epoch)
minus-plus_example = minus-plus before_epoch after_epoch (omega arith) (omega arith)

-- 3.5 s by 0.7 s
abbrev long_time : TimeVal
long_time = record { seconds = pos 3; nseconds = 500_000_000 }

abbrev period : TimeVal
period = record { seconds = pos 0; nseconds = 700_000_000 }

divide_timespec_divides_example :
    let d = divide_timespec long_time period in
    IsSpan d.rem
    × (d.quotient < periods)
    × (d.quotient * total period + total d.rem ≡ total long_time)
    × (IsRegular long_time period → total d.rem < total period)
divide_timespec_divides_example =
    divide_timespec_divides long_time period (omega arith) (omega arith) (omega arith) (omega arith)

-- 1.1 s by 0.3 s
abbrev short_time : TimeVal
short_time = record { seconds = pos 1; nseconds = 100_000_000 }

abbrev short_period : TimeVal
short_period = record { seconds = pos 0; nseconds = 300_000_000 }

divide_timespec_stops_example :
    ((divide_timespec short_time short_period).quotient ≡ 2)
    × (total short_period ≤ total (divide_timespec short_time short_period).rem)
divide_timespec_stops_example =
    divide_timespec_stops short_time short_period (omega arith) (omega arith) (omega arith)
      (omega arith)

compare_timespec_total_example :
    (compare_timespec before_epoch after_epoch ≡ less before_epoch after_epoch)
    × (less_equal before_epoch after_epoch ≡ not (less after_epoch before_epoch))
    × (equal before_epoch after_epoch
        ≡ (not (less before_epoch after_epoch) && not (less after_epoch before_epoch)))
    × ((equal before_epoch after_epoch ≡ true) ↔ (before_epoch ≡ after_epoch))
    × (less before_epoch after_epoch ≡ true → less after_epoch before_epoch ≡ false)
    × (less before_epoch after_epoch ≡ true
        → less after_epoch long_time ≡ true
        → less before_epoch long_time ≡ true)
    × (less_equal before_epoch after_epoch ≡ true
        → less_equal after_epoch long_time ≡ true
        → less_equal before_epoch long_time ≡ true)
compare_timespec_total_example = compare_timespec_total before_epoch after_epoch long_time
