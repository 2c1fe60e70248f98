-- ===== src/Time/Defs.antt =====
-- The definitions of time_val, compare_timespec and divide_timespec.
use dasynq.Prelude.{
  ℕ, zero, suc, ◌+◌, ◌-◌, ◌*◌, ◌/◌, ◌%◌, Bool, true, false, ◌&&◌, ltb, leb, ◌==◌, if◌then◌else◌,
}
use dasynq.Prelude.Int.{pos_part, ℤ, pos, ◌+ℤ◌, ◌-ℤ◌, ltb_ℤ, eqb_ℤ, double, half, low_bit}

pub record TimeVal : Type 0 where
  pub seconds : ℤ
  pub nseconds : ℕ

abbrev pub second : ℕ
second = 1_000_000_000

unfoldable pub minus : TimeVal → TimeVal → TimeVal
minus t1 t2 =
    if leb t2.nseconds t1.nseconds
    then record { seconds = t1.seconds -ℤ t2.seconds; nseconds = t1.nseconds - t2.nseconds }
    else record {
      seconds = t1.seconds -ℤ t2.seconds -ℤ pos 1;
      nseconds = second - t2.nseconds + t1.nseconds;
    }

unfoldable pub plus : TimeVal → TimeVal → TimeVal
plus t1 t2 =
    let ns = t1.nseconds + t2.nseconds in
    let s = t1.seconds +ℤ t2.seconds in
    if leb second ns
    then record { seconds = s +ℤ pos 1; nseconds = ns - second }
    else record { seconds = s; nseconds = ns }

-- operator+= and operator-= assign to `t1`; the new value of `t1` is the result.
unfoldable pub add_to : TimeVal → TimeVal → TimeVal
add_to t1 t2 =
    let nsum = t1.nseconds + t2.nseconds in
    let t = record t1 { seconds = t1.seconds +ℤ t2.seconds } in
    if leb second nsum
    then record { seconds = t.seconds +ℤ pos 1; nseconds = nsum - second }
    else record t { nseconds = nsum }

unfoldable pub subtract_from : TimeVal → TimeVal → TimeVal
subtract_from t1 t2 =
    let t = record t1 { seconds = t1.seconds -ℤ t2.seconds } in
    if leb t2.nseconds t.nseconds
    then record t { nseconds = t.nseconds - t2.nseconds }
    else record { seconds = t.seconds -ℤ pos 1; nseconds = second - t2.nseconds + t.nseconds }

unfoldable pub less : TimeVal → TimeVal → Bool
less t1 t2 =
    if ltb_ℤ t1.seconds t2.seconds
    then true
    else if eqb_ℤ t1.seconds t2.seconds && ltb t1.nseconds t2.nseconds
    then true
    else false

unfoldable pub equal : TimeVal → TimeVal → Bool
equal t1 t2 = eqb_ℤ t1.seconds t2.seconds && (t1.nseconds == t2.nseconds)

unfoldable pub less_equal : TimeVal → TimeVal → Bool
less_equal t1 t2 =
    if ltb_ℤ t1.seconds t2.seconds
    then true
    else if eqb_ℤ t1.seconds t2.seconds && leb t1.nseconds t2.nseconds
    then true
    else false

-- One round of operator<<= and of operator>>=, and their loops.
unfoldable pub shift_left_once : TimeVal → TimeVal
shift_left_once t =
    let s = double t.seconds in
    let ns = t.nseconds * 2 in
    if leb second ns
    then record { seconds = s +ℤ pos 1; nseconds = ns - second }
    else record { seconds = s; nseconds = ns }

unfoldable pub shift_left : ℕ → TimeVal → TimeVal
shift_left zero t = t
shift_left (suc n) t = shift_left n (shift_left_once t)

unfoldable pub shift_right_once : TimeVal → TimeVal
shift_right_once t =
    let low = low_bit t.seconds in
    record {
      seconds = half t.seconds;
      nseconds = t.nseconds / 2 + (if low == 0 then 0 else 500_000_000);
    }

unfoldable pub shift_right : ℕ → TimeVal → TimeVal
shift_right zero t = t
shift_right (suc n) t = shift_right n (shift_right_once t)

-- compare_timespec::operator()
unfoldable pub compare_timespec : TimeVal → TimeVal → Bool
compare_timespec a b =
    if ltb_ℤ a.seconds b.seconds
    then true
    else if eqb_ℤ a.seconds b.seconds
    then ltb a.nseconds b.nseconds
    else false

-- An `int` is its pattern of 32 bits. An overflow, which the language leaves undefined, wraps here.
abbrev pub int_range : ℕ
int_range = 4_294_967_296

abbrev pub int_limit : ℕ
int_limit = 2_147_483_648

-- `n > 0` of an `int`
abbrev pub is_positive : ℕ → Bool
is_positive n = ltb 0 n && ltb n int_limit

-- The quotient, an `int`, and the remainder that divide_timespec gives.
pub record Division : Type 0 where
  pub quotient : ℕ
  pub rem : TimeVal

-- The first loop of divide_timespec doubles `d` while it has fewer seconds than `r`. Each round but the
-- first at least adds a second, so `2 + seconds` rounds or fewer are made.
unfoldable pub shift_den : ℕ → TimeVal → TimeVal → ℕ → TimeVal × ℕ
shift_den zero r d nval = (d, nval)
shift_den (suc k) r d nval =
    let rest = shift_den k r (shift_left_once d) ((nval * 2) % int_range) in
    if ltb_ℤ d.seconds r.seconds then rest else (d, nval)

-- The second loop. `nval` is halved until it is 0.
unfoldable pub subtract_den : ℕ → TimeVal → TimeVal → ℕ → ℕ → Division
subtract_den zero r d nval rval = record { quotient = rval; rem = r }
subtract_den (suc k) r d nval rval =
    let fits = less_equal d r in
    let r' = if fits then subtract_from r d else r in
    let rval' = if fits then (rval + nval) % int_range else rval in
    let rest = subtract_den k r' (shift_right_once d) (nval / 2) rval' in
    if is_positive nval then rest else record { quotient = rval; rem = r }

-- The nanoseconds of a time that is not negative.
abbrev pub total : TimeVal → ℕ
total t = pos_part t.seconds * second + t.nseconds

-- The part of divide_timespec after the subtraction of one denominator. The bounds on the rounds are
-- the nanoseconds of `r`, which each doubling of `d` approaches by one or more, and `nval`.
unfoldable pub divide_rest : TimeVal → TimeVal → Division
unfolding shift_den subtract_den
divide_rest r d =
    let (d', nval) = shift_den (total r + 1) r d 1 in subtract_den (nval + 1) r d' nval 1

unfoldable pub divide_timespec : TimeVal → TimeVal → Division
unfolding divide_rest subtract_from less
divide_timespec num den =
    let r = subtract_from num den in
    if ltb_ℤ num.seconds den.seconds
    then record { quotient = 0; rem = num }
    else if eqb_ℤ num.seconds den.seconds
    then (if ltb num.nseconds den.nseconds
        then record { quotient = 0; rem = num }
        else if eqb_ℤ num.seconds (pos 0)
        then record {
          quotient = (num.nseconds / den.nseconds) % int_range;
          rem = record { seconds = pos 0; nseconds = num.nseconds % den.nseconds };
        }
        else record {
          quotient = 1;
          rem = record { seconds = pos 0; nseconds = num.nseconds - den.nseconds };
        })
    else if less r den
    then record { quotient = 1; rem = r }
    else divide_rest r den
