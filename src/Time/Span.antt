-- ===== src/Time/Span.antt =====
-- What the operators do to times that are not negative and whose nanoseconds are below a second.
use dasynq.Prelude.{◌+◌, ◌*◌, ◌/◌, ◌≤◌, ◌<◌, ◌≡◌, ◌↔◌, true, arith}
use dasynq.Prelude.Int.{neg_part, ◌+ℤ◌, ◌-ℤ◌, double, half, low_bit}
use dasynq.Time.Defs.{
  TimeVal, second, total, subtract_from, less, less_equal, shift_left_once, shift_right_once,
}

pub record IsSpan (t : TimeVal) : Type 0 where
  pub nonneg : neg_part t.seconds ≡ 0
  pub normal : t.nseconds < second

pub subtract_from-IsSpan :
    (a b : TimeVal)
    → IsSpan a
    → IsSpan b
    → total b ≤ total a
    → IsSpan (subtract_from a b) × (total (subtract_from a b) + total b ≡ total a)
unfolding subtract_from ◌-ℤ◌
subtract_from-IsSpan a b v w h = ground arith

pub shift_left_once-IsSpan :
    (t : TimeVal)
    → IsSpan t
    → IsSpan (shift_left_once t) × (total (shift_left_once t) ≡ 2 * total t)
unfolding shift_left_once ◌+ℤ◌ double
shift_left_once-IsSpan t v = ground arith

pub shift_right_once-IsSpan :
    (t : TimeVal)
    → IsSpan t
    → IsSpan (shift_right_once t) × (total (shift_right_once t) ≡ total t / 2)
unfolding shift_right_once half low_bit
shift_right_once-IsSpan t v = ground arith

pub less_equal_iff :
    (a b : TimeVal) → IsSpan a → IsSpan b → (less_equal a b ≡ true) ↔ (total a ≤ total b)
unfolding less_equal
less_equal_iff a b v w = (λ e. ground arith, λ e. ground arith)

pub less_iff : (a b : TimeVal) → IsSpan a → IsSpan b → (less a b ≡ true) ↔ (total a < total b)
unfolding less
less_iff a b v w = (λ e. ground arith, λ e. ground arith)
