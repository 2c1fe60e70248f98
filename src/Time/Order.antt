-- ===== src/Time/Order.antt =====
-- The order of times, which the timer queues use, and the laws of sums and differences.
use dasynq.Prelude.{◌<◌, ◌≡◌, ◌↔◌, true, false, not, ◌&&◌, arith}
use dasynq.Prelude.Int.{int_laws, ℤ, pos, ◌+ℤ◌, ◌-ℤ◌}
use dasynq.Prelude.Compare.{Compare}
use dasynq.Time.Defs.{
  TimeVal, second, minus, plus, add_to, subtract_from, less, equal, less_equal, compare_timespec,
}

pub compare_timespec-asymm :
    (a b : TimeVal) → compare_timespec a b ≡ true → compare_timespec b a ≡ false
unfolding compare_timespec
compare_timespec-asymm a b e = ground arith

pub compare_timespec-le_trans :
    (a b c : TimeVal)
    → compare_timespec b a ≡ false
    → compare_timespec c b ≡ false
    → compare_timespec c a ≡ false
unfolding compare_timespec
compare_timespec-le_trans a b c h k = ground arith

-- The `Compare` of the timer queues.
abbrev pub time_compare : Compare TimeVal
time_compare = record {
  lt = compare_timespec;
  asymm = compare_timespec-asymm;
  le_trans = compare_timespec-le_trans;
}

regroup :
    (a b : ℤ)
    → (a -ℤ b +ℤ b ≡ a)
      × (a -ℤ b -ℤ pos 1 +ℤ b +ℤ pos 1 ≡ a)
      × (a +ℤ b -ℤ b ≡ a)
      × (a +ℤ b +ℤ pos 1 -ℤ b -ℤ pos 1 ≡ a)
regroup a b = omega int_laws

-- For times with nanoseconds below a second, of any sign: the sum and the difference have nanoseconds
-- below a second, a difference added to what was taken away gives the first time again, a sum less one
-- of its terms gives the other, and the operators that assign give the same times.
pub minus-plus :
    (a b : TimeVal)
    → a.nseconds < second
    → b.nseconds < second
    → (plus (minus a b) b ≡ a)
      × (minus (plus a b) b ≡ a)
      × ((minus a b).nseconds < second)
      × ((plus a b).nseconds < second)
      × (add_to a b ≡ plus a b)
      × (subtract_from a b ≡ minus a b)
unfolding minus plus add_to subtract_from
minus-plus a b va vb = (
  ground (arith, regroup a.seconds b.seconds),
  ground (arith, regroup a.seconds b.seconds),
  ground arith,
  ground arith,
  ground arith,
  ground arith,
)

-- compare_timespec, `<`, `<=` and `==` are one total order: `compare_timespec` is `<`, `a <= b` is the
-- opposite of `b < a`, `a == b` says that neither is before the other, and then they are the same time. If
-- `a < b` then not `b < a`, and `<` and `<=` are transitive.
pub compare_timespec_total :
    (a b c : TimeVal)
    → (compare_timespec a b ≡ less a b)
      × (less_equal a b ≡ not (less b a))
      × (equal a b ≡ (not (less a b) && not (less b a)))
      × ((equal a b ≡ true) ↔ (a ≡ b))
      × (less a b ≡ true → less b a ≡ false)
      × (less a b ≡ true → less b c ≡ true → less a c ≡ true)
      × (less_equal a b ≡ true → less_equal b c ≡ true → less_equal a c ≡ true)
unfolding compare_timespec less less_equal equal
compare_timespec_total a b c = (
  ground arith,
  ground arith,
  ground arith,
  (λ e. ground arith, λ e. ground arith),
  λ e. ground arith,
  λ e f. ground arith,
  λ e f. ground arith,
)
