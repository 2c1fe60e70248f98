-- ===== src/Timer/Next.antt =====
-- The next timeout of a periodic timer, as process_timer_queue calculates it.
use dasynq.Prelude.{ℕ, ◌+◌, ◌*◌, ◌≤◌, ◌<◌, ◌≡◌, refl, true, arith}
use dasynq.Prelude.Int.{ltb_ℤ, neg_part, ◌+ℤ◌, ◌-ℤ◌}
use dasynq.Time.Defs.{TimeVal, second, total, minus, plus, divide_timespec, Division}
use dasynq.Time.Span.{IsSpan}
use dasynq.Time.Divide.{periods, divide_timespec_divides}

plus-IsSpan :
    (a b : TimeVal)
    → IsSpan a
    → IsSpan b
    → IsSpan (plus a b) × (total (plus a b) ≡ total a + total b)
unfolding plus ◌+ℤ◌
plus-IsSpan a b v w = ground arith

pub minus-IsSpan :
    (a b : TimeVal)
    → IsSpan a
    → IsSpan b
    → total b ≤ total a
    → IsSpan (minus a b) × (total (minus a b) + total b ≡ total a)
unfolding minus ◌-ℤ◌
minus-IsSpan a b v w h = ground arith

-- a difference below zero has fewer seconds than any time that is not negative
minus-negative :
    (a b c : TimeVal)
    → IsSpan a
    → IsSpan b
    → IsSpan c
    → total a < total b
    → ltb_ℤ (minus a b).seconds c.seconds ≡ true
unfolding minus ◌-ℤ◌
minus-negative a b c va vb vc h = ground arith

-- The nanoseconds below zero: `total t` less these is the time `t`.
abbrev debt : TimeVal → ℕ
debt t = neg_part t.seconds * second

-- a difference of times of any sign
minus_parts :
    (a b : TimeVal)
    → a.nseconds < second
    → b.nseconds < second
    → (total (minus a b) + debt a + total b ≡ debt (minus a b) + total a + debt b)
      × ((minus a b).nseconds < second)
unfolding minus ◌-ℤ◌
minus_parts a b va vb = ground arith

paid-IsSpan : (t : TimeVal) → t.nseconds < second → debt t ≤ total t → IsSpan t
paid-IsSpan t v h = record { nonneg = ground arith; normal = v }

minus-plus-minus :
    (a b c : TimeVal)
    → IsSpan a
    → IsSpan b
    → IsSpan c
    → total a < total b
    → IsSpan (minus (plus a c) (minus a b))
      × (total (minus (plus a c) (minus a b)) ≡ total b + total c)
minus-plus-minus a b c va vb vc h =
    let (vp, ep) = plus-IsSpan a c va vc in
    let (e, n) = minus_parts a b va.normal vb.normal in
    let (e', n') = minus_parts (plus a c) (minus a b) vp.normal n in
    let v =
      paid-IsSpan (minus (plus a c) (minus a b)) n'
        (omega (arith, va.nonneg, vb.nonneg, vp.nonneg)) in
    (v, omega (arith, va.nonneg, vb.nonneg, vp.nonneg, v.nonneg))

next_exact :
    (over rem q i now timeout sum new : ℕ)
    → over + timeout ≡ now
    → q * i + rem ≡ over
    → sum ≡ now + i
    → new + rem ≡ sum
    → new ≡ timeout + (q + 1) * i
next_exact over rem q i now timeout sum new a b c d = omega arith

module _ (now timeout interval : TimeVal) where
  abbrev pub division : Division
  division = divide_timespec (minus now timeout) interval

  abbrev pub newtime : TimeVal
  newtime = minus (plus now interval) division.rem

  module _ (vn : IsSpan now) (vt : IsSpan timeout) (vi : IsSpan interval) where
    pub newtime-late :
        0 < total interval
        → total timeout ≤ total now
        → total now < total timeout + periods * total interval
        → IsSpan newtime
          × (total newtime ≡ total timeout + (division.quotient + 1) * total interval)
          × (total newtime ≤ total now + total interval)
    newtime-late some_i le few =
        let (vo, eo) = minus-IsSpan now timeout vn vt le in
        let (vr, below, exact, small) =
          divide_timespec_divides (minus now timeout) interval vo vi some_i (omega (arith, eo)) in
        let (vp, ep) = plus-IsSpan now interval vn vi in
        let (vw, ew) = minus-IsSpan (plus now interval) division.rem vp vr (omega arith) in
        (vw, next_exact _ _ _ _ _ _ _ _ eo exact ep ew, omega (arith, ep, ew))

    pub newtime-early :
        total now < total timeout
        → IsSpan newtime
          × (division.quotient ≡ 0)
          × (total newtime ≡ total timeout + total interval)
    unfolding divide_timespec
    newtime-early lt =
        let before = minus-negative now timeout interval vn vt vi lt in
        rw before (let (v, e) = minus-plus-minus now timeout interval vn vt vi lt in (v, refl, e))
