-- ===== src/Time/Divide.antt =====
-- divide_timespec divides.
use dasynq.Prelude.{
  ℕ, zero, suc, ◌+◌, ◌-◌, ◌*◌, ◌/◌, ◌%◌, ◌≤◌, ◌<◌, ◌≡◌, refl, ap, ◌∙◌, ◌⊎◌, inl, inr, true, false,
  arith, ltb, Bool-cases,
}
use dasynq.Prelude.Int.{pos, pos_part, ltb_ℤ, eqb_ℤ}
use dasynq.Time.Defs.{
  TimeVal, Division, int_range, int_limit, is_positive, second, total, subtract_from, less,
  less_equal, shift_left_once, shift_right_once, shift_den, subtract_den, divide_rest,
  divide_timespec,
}
use dasynq.Time.Span.{
  IsSpan, subtract_from-IsSpan, shift_left_once-IsSpan, shift_right_once-IsSpan, less_equal_iff,
  less_iff,
}

-- `d` and `n` are `den` and 1, doubled `j` times.
abbrev Doubled : ℕ → ℕ → ℕ → ℕ → Type 0
Doubled den zero d n = (d ≡ den) × (n ≡ 1)
Doubled den (suc j) d n = (e : ℕ) × (m : ℕ) × (d ≡ 2 * e) × (n ≡ 2 * m) × Doubled den j e m

-- The periods, at most, that fit into a time that is divided.
abbrev pub periods : ℕ
periods = 1_073_741_824

Doubled-eq : (den j d n : ℕ) → Doubled den j d n → (d ≡ n * den) × (0 < n)
Doubled-eq den zero d n (a, b) = (rw (a, b) (omega arith), omega arith)
Doubled-eq den (suc j) d n (e, m, a, b, h) =
    let (eq, pos_m) = Doubled-eq den j e m h in (rw (a, b, eq) (omega arith), omega arith)

pub less_times : (a b c : ℕ) → a * c < b * c → a < b
less_times a b c h = elim (Bool-cases (ltb a b)) [
  | inl e ↦ ground arith
  | inr e ↦
      let sum : a ≡ b + (a - b) = ground arith in
      let more : a * c ≡ (b + (a - b)) * c = ap (λ (x : ℕ). x * c) sum in absurd (omega arith)
]

pub below_range : (n : ℕ) → n < int_limit → n % int_range ≡ n
below_range n h = omega arith

-- While the first loop goes on, `nval` is small enough to double.
Doubled-small :
    (den j d n r : ℕ) → Doubled den j d n → d < r → r < periods * den → n * 2 < int_limit
Doubled-small den j d n r h lt few =
    let (eq, some_n) = Doubled-eq den j d n h in
    let le : n < periods = less_times n periods den (omega (arith, eq)) in omega arith

-- The first loop ends with a denominator that has as many seconds as the numerator, or more.
shift_den_lem :
    (k den j : ℕ) (r d : TimeVal) (n : ℕ)
    → IsSpan r
    → IsSpan d
    → 0 < total d
    → total r < total d + k
    → total r < periods * den
    → n < int_limit
    → Doubled den j (total d) n
    → let (d', n') = shift_den k r d n in
      IsSpan d'
      × (n' < int_limit)
      × (pos_part r.seconds ≤ pos_part d'.seconds)
      × ((i : ℕ) × Doubled den i (total d') n')
unfolding shift_den
shift_den_lem zero den j r d n vr vd some_d f few small h = (vd, small, omega arith, (j, h))
shift_den_lem (suc k) den j r d n vr vd some_d f few small h =
    elim (Bool-cases (ltb_ℤ d.seconds r.seconds)) [
      | inr e ↦ rw e (vd, small, ground (arith, vr, vd), (j, h))
      | inl e ↦
          let (v, doubled) = shift_left_once-IsSpan d vd in
          let less_d : total d < total r = ground (arith, vr, vd) in
          let twice = Doubled-small den j (total d) n (total r) h less_d few in
          rw (e, below_range (n * 2) twice)
            (shift_den_lem k den (suc j) r (shift_left_once d) (n * 2) vr v (omega arith)
              (omega arith) few twice (total d, n, doubled, omega arith, h))
    ]

subtract_den_done :
    (k : ℕ) (r d : TimeVal) (rval : ℕ)
    → subtract_den k r d 0 rval ≡ record { quotient = rval; rem = r }
unfolding subtract_den
subtract_den_done zero r d rval = refl
subtract_den_done (suc k) r d rval = refl

-- The numerator that is left, `r`, and the quotient so far.
record Divides (den num : ℕ) (below : Type 0) (q : Division) : Type 0 where
  span : IsSpan q.rem
  exact : q.quotient * den + total q.rem ≡ num
  small : below → total q.rem < den

Divides-map :
    {den m n : ℕ} {A B : Type 0} {q : Division}
    → m ≡ n
    → (B → A)
    → Divides den m A q
    → Divides den n B q
Divides-map e f v = record { span = v.span; exact = v.exact ∙ e; small = λ b. v.small (f b) }

-- The second loop: one round for each doubling, and one more.
subtract_den_lem :
    (k den j : ℕ) (r d : TimeVal) (n rval : ℕ)
    → IsSpan r
    → IsSpan d
    → n < k
    → n < int_limit
    → rval * den + total r < int_limit * den
    → Doubled den j (total d) n
    → Divides den (rval * den + total r) (total r < 2 * total d) (subtract_den k r d n rval)
unfolding subtract_den
subtract_den_lem zero den j r d n rval vr vd f small few h = absurd (omega arith)
subtract_den_lem (suc k) den zero r d n rval vr vd f small few (at_den, one) =
    let going : is_positive n ≡ true = ground arith in
    let last : n / 2 ≡ 0 = omega arith in
    rw (going, last, subtract_den_done)
      (elim (Bool-cases (less_equal d r)) [
        | inl e ↦
            let le = (less_equal_iff d r vd vr).0 e in
            let (v', rest) = subtract_from-IsSpan r d vr vd le in
            let some_fit : (rval + n) * den ≤ rval * den + total r = rw one (omega arith) in
            let fits =
              below_range (rval + n)
                (less_times (rval + n) int_limit den (omega (arith, some_fit))) in
            rw (e, fits)
              (record { span = v'; exact = rw one (omega arith); small = λ b. omega arith })
        | inr e ↦ rw e (record {
          span = vr;
          exact = refl;
          small = λ b. ground (arith, less_equal_iff d r vd vr);
        })
      ])
subtract_den_lem (suc k) den (suc j) r d n rval vr vd f small few (d', m, at_d, at_n, h) =
    let (v, halved) = shift_right_once-IsSpan d vd in
    let (eq, some_m) = Doubled-eq den j d' m h in
    let going : is_positive n ≡ true = ground arith in
    let at_n' : n / 2 ≡ m = omega arith in
    let at_d' : total (shift_right_once d) ≡ d' = omega arith in
    let h' : Doubled den j (total (shift_right_once d)) (n / 2) = rw (at_d', at_n') h in
    rw going (elim (Bool-cases (less_equal d r)) [
      | inl e ↦
          let le = (less_equal_iff d r vd vr).0 e in
          let (v', rest) = subtract_from-IsSpan r d vr vd le in
          let whole : (rval + n) * den + total (subtract_from r d) ≡ rval * den + total r =
            rw at_n (omega (arith, eq)) in
          let fits =
            below_range (rval + n) (less_times (rval + n) int_limit den (omega (arith, whole))) in
          rw (e, fits)
            (Divides-map whole (λ b. omega arith)
              (subtract_den_lem k den j (subtract_from r d) (shift_right_once d) (n / 2) (rval + n)
                v' v (omega arith) (omega arith) (omega (arith, whole)) h'))
      | inr e ↦ rw e (
          Divides-map refl (λ b. ground (arith, less_equal_iff d r vd vr))
            (subtract_den_lem k den j r (shift_right_once d) (n / 2) rval vr v (omega arith)
              (omega arith) few h'))
    ])

Doubled-le : (den j d n : ℕ) → Doubled den j d n → den ≤ d
Doubled-le den zero d n (a, b) = omega arith
Doubled-le den (suc j) d n (e, m, a, b, h) = omega (arith, Doubled-le den j e m h)

divide_rest_lem :
    (r d : TimeVal)
    → IsSpan r
    → IsSpan d
    → 0 < total d
    → total d + total r < periods * total d
    → Divides
        (total d)
        (total d + total r)
        ((second ≤ total d) ⊎ (second ≤ total r) ⊎ (total r < 2 * total d))
        (divide_rest r d)
unfolding divide_rest
divide_rest_lem r d vr vd some_d few =
    let (d', n) = shift_den (total r + 1) r d 1 in
    let (vd', small, seconds, (j, h)) =
      shift_den_lem (total r + 1) (total d) 0 r d 1 vr vd some_d (omega arith) (omega arith)
        (omega arith) (refl, refl) in
    Divides-map (omega arith)
      (λ b. omega (arith, Doubled-le (total d) j _ _ h, vr.normal, vd'.normal))
      (subtract_den_lem (n + 1) (total d) j r d' n 1 vr vd' (omega arith) small (omega arith) h)

-- What makes the remainder smaller than the denominator: a denominator of a second or more, a numerator
-- below a second or above the denominator by a second or more, or a quotient of at most 2.
abbrev pub IsRegular : TimeVal → TimeVal → Type 0
IsRegular num den =
    (second ≤ total den)
    ⊎ (total num < second)
    ⊎ (total den + second ≤ total num)
    ⊎ (total num < 3 * total den)

quotient_fits : (a b : ℕ) → a < second → (a / b) % int_range ≡ a / b
quotient_fits a b h = grind arith

divide_timespec-Divides :
    (num den : TimeVal)
    → IsSpan num
    → IsSpan den
    → 0 < total den
    → total num < periods * total den
    → Divides (total den) (total num) (IsRegular num den) (divide_timespec num den)
unfolding divide_timespec
divide_timespec-Divides num den vn vd some_den few =
    elim (Bool-cases (ltb_ℤ num.seconds den.seconds)) [
      | inl e ↦
          rw e (record { span = vn; exact = omega arith; small = λ b. ground (arith, vn, vd) })
      | inr e ↦ rw e (elim (Bool-cases (eqb_ℤ num.seconds den.seconds)) [
        | inl same ↦ rw same (elim (Bool-cases (ltb num.nseconds den.nseconds)) [
          | inl less_ns ↦
              rw less_ns
                (record { span = vn; exact = omega arith; small = λ b. ground (arith, vn, vd) })
          | inr ge_ns ↦ rw ge_ns (elim (Bool-cases (eqb_ℤ num.seconds (pos 0))) [
            | inl zero_s ↦
                let num_s : pos_part num.seconds ≡ 0 = ground (arith, vn) in
                let den_s : pos_part den.seconds ≡ 0 = ground (arith, vn, vd) in
                let fits = quotient_fits num.nseconds den.nseconds vn.normal in
                rw (zero_s, fits)
                  (record {
                    span = record { nonneg = refl; normal = omega (arith, vn.normal) };
                    exact = rw (num_s, den_s) (omega arith);
                    small = λ b. omega arith;
                  })
            | inr some_s ↦ rw some_s (record {
              span = record { nonneg = refl; normal = omega (arith, vn.normal) };
              exact = ground (arith, vn, vd);
              small = λ b. ground (arith, vn, vd);
            })
          ])
        ])
        | inr above ↦
            let (vr, rest) = subtract_from-IsSpan num den vn vd (ground (arith, vn, vd)) in
            let big : second ≤ total num = ground (arith, vn, vd) in
            rw above (elim (Bool-cases (less (subtract_from num den) den)) [
              | inl once ↦
                  let lt = (less_iff (subtract_from num den) den vr vd).0 once in
                  rw once (record { span = vr; exact = omega arith; small = λ b. lt })
              | inr more ↦ rw more (
                  Divides-map (omega arith) (λ b. omega arith)
                    (divide_rest_lem (subtract_from num den) den vr vd some_den (omega arith)))
            ])
      ])
    ]

-- On times that are not negative, with nanoseconds below a second, a positive denominator and a numerator
-- below 2^30 denominators, divide_timespec gives a quotient below 2^30 and a remainder whose sum with the
-- quotient times the denominator is the numerator; the remainder is a time with nanoseconds below a
-- second, not negative. It is smaller than the denominator if the denominator is a second or more, or the
-- numerator is below a second, or above the denominator by a second or more, or below three denominators.
pub divide_timespec_divides :
    (num den : TimeVal)
    → IsSpan num
    → IsSpan den
    → 0 < total den
    → total num < periods * total den
    → let d = divide_timespec num den in
      IsSpan d.rem
      × (d.quotient < periods)
      × (d.quotient * total den + total d.rem ≡ total num)
      × (IsRegular num den → total d.rem < total den)
divide_timespec_divides num den vn vd some_den few =
    let v = divide_timespec-Divides num den vn vd some_den few in
    (v.span, less_times _ periods (total den) (omega (arith, v.exact)), v.exact, v.small)

shift_den_stays :
    (k : ℕ) (r d : TimeVal) (n : ℕ) → ltb_ℤ d.seconds r.seconds ≡ false → shift_den k r d n ≡ (d, n)
unfolding shift_den
shift_den_stays zero r d n e = refl
shift_den_stays (suc k) r d n e = rw e

-- In all other cases, which are those of a denominator below a second and a numerator of a second or
-- more, less than a second above the denominator and at least three denominators, divide_timespec gives
-- the quotient 2, and the remainder is not smaller than the denominator.
pub divide_timespec_stops :
    (num den : TimeVal)
    → IsSpan num
    → IsSpan den
    → 0 < total den
    → ¬ IsRegular num den
    → ((divide_timespec num den).quotient ≡ 2) × (total den ≤ total (divide_timespec num den).rem)
unfolding divide_timespec divide_rest subtract_den
divide_timespec_stops num den vn vd some_den irregular =
    let not_den : ¬ (second ≤ total den) = λ x. irregular (inl x) in
    let not_num : ¬ (total num < second) = λ x. irregular (inr (inl x)) in
    let not_far : ¬ (total den + second ≤ total num) = λ x. irregular (inr (inr (inl x))) in
    let not_two : ¬ (total num < 3 * total den) = λ x. irregular (inr (inr (inr x))) in
    let (vr, rest) = subtract_from-IsSpan num den vn vd (omega arith) in
    let r = subtract_from num den in
    let over : ltb_ℤ num.seconds den.seconds ≡ false = ground (arith, vn, vd) in
    let differ : eqb_ℤ num.seconds den.seconds ≡ false = ground (arith, vn, vd) in
    let more : less r den ≡ false = ground (arith, less_iff r den vr vd) in
    let stay : ltb_ℤ den.seconds r.seconds ≡ false = ground (arith, vr, vd) in
    let le : total den ≤ total r = omega arith in
    let fits : less_equal den r ≡ true = (less_equal_iff den r vd vr).1 le in
    let (vr', rest') = subtract_from-IsSpan r den vr vd le in
    let left : total den ≤ total (subtract_from r den) = omega arith in
    rw (over, differ, more, shift_den_stays (total r + 1) r den 1 stay, fits) (refl, left)
