-- ===== src/Time/Seconds.antt =====
-- Seconds since 1970 to the fields of a date and time, and back.
use ceres_standard_library.Prelude.{
  ℕ, ◌+◌, ◌-◌, ◌*◌, ◌/◌, ◌%◌, ◌<◌, ◌≤◌, ◌≡◌, ◌⊎◌, inl, inr, ◌||◌, Bool-cases, refl, arith, none,
  some, true, false,
}
use ceres_standard_library.Prelude.Int.{
  ℤ, pos, negsuc, pos_part, neg_part, ◌+ℤ◌, ◌-ℤ◌, times, quotient, remainder, eq_of_parts, +ℤ_parts,
  -ℤ_parts, times_parts, one_part, ltb_ℤ,
}
use ceres_standard_library.Time.{
  civil_from_days, days_from_civil, floor_div, max_days, Tm, out_of_days, tm_of, gmtime_r,
  days_of_tm, mktime,
}
use ceres_standard_library.Time.Days.{Splits, days_from_civil-civil_from_days, year_range}

floor_pos : (n b : ℕ) → floor_div (pos n) b ≡ pos (n / b)
unfolding floor_div quotient remainder
floor_pos n b = ground arith

day_below : (n : ℕ) → floor_div (negsuc n) 86400 ≡ negsuc (n / 86400)
unfolding floor_div quotient remainder ◌-ℤ◌
day_below n = ground arith

month_below : (n : ℕ) → floor_div (negsuc n) 12 ≡ negsuc (n / 12)
unfolding floor_div quotient remainder ◌-ℤ◌
month_below n = ground arith

-- from the quotient rounded down, what is left
left_over :
    (b : ℕ) (t q : ℤ) (r : ℕ)
    → r < b
    → pos_part t + neg_part q * b ≡ neg_part t + pos_part q * b + r
    → Splits b t q (pos_part (t -ℤ times q b))
unfolding Splits
left_over b t q r less sum =
    let scaled = times_parts q b in
    let rest = -ℤ_parts t (times q b) in
    let sign = one_part (t -ℤ times q b) in
    let value : pos_part (t -ℤ times q b) ≡ r = omega arith in (omega arith, omega arith)

day_split :
    (t : ℤ) → Splits 86400 t (floor_div t 86400) (pos_part (t -ℤ times (floor_div t 86400) 86400))
day_split (pos n) =
    rw (floor_pos n 86400)
      (left_over 86400 (pos n) (pos (n / 86400)) (n % 86400) (omega arith) (omega arith))
day_split (negsuc n) = rw (day_below n) (
    left_over 86400 (negsuc n) (negsuc (n / 86400)) (86399 - n % 86400) (omega arith) (omega arith))

month_split : (t : ℤ) → Splits 12 t (floor_div t 12) (pos_part (t -ℤ times (floor_div t 12) 12))
month_split (pos n) =
    rw (floor_pos n 12) (left_over 12 (pos n) (pos (n / 12)) (n % 12) (omega arith) (omega arith))
month_split (negsuc n) =
    rw (month_below n)
      (left_over 12 (negsuc n) (negsuc (n / 12)) (11 - n % 12) (omega arith) (omega arith))

day_unique :
    (t d : ℤ) (r : ℕ)
    → Splits 86400 t d r
    → (floor_div t 86400 ≡ d) × (pos_part (t -ℤ times (floor_div t 86400) 86400) ≡ r)
unfolding Splits
day_unique t d r (less, sum) =
    let (less', sum') = day_split t in
    let same : pos_part (floor_div t 86400) + neg_part d
        ≡ pos_part d + neg_part (floor_div t 86400) =
      omega arith in
    (eq_of_parts (floor_div t 86400) d same, omega arith)

month_unique :
    (t d : ℤ) (r : ℕ)
    → Splits 12 t d r
    → (floor_div t 12 ≡ d) × (pos_part (t -ℤ times (floor_div t 12) 12) ≡ r)
unfolding Splits
month_unique t d r (less, sum) =
    let (less', sum') = month_split t in
    let same : pos_part (floor_div t 12) + neg_part d ≡ pos_part d + neg_part (floor_div t 12) =
      omega arith in
    (eq_of_parts (floor_div t 12) d same, omega arith)

shift_day :
    (e : ℤ) (years x d : ℕ)
    → 1 ≤ d
    → e +ℤ pos (years + (x + 1 - 1)) -ℤ pos 719468 +ℤ (pos d -ℤ pos 1)
      ≡ e +ℤ pos (years + (x + d - 1)) -ℤ pos 719468
shift_day e years x d h = eq_of_parts _ _ (
    omega (
      arith,
      +ℤ_parts e (pos (years + (x + 1 - 1))),
      +ℤ_parts e (pos (years + (x + d - 1))),
      -ℤ_parts (e +ℤ pos (years + (x + 1 - 1))) (pos 719468),
      -ℤ_parts (e +ℤ pos (years + (x + d - 1))) (pos 719468),
      -ℤ_parts (pos d) (pos 1),
      +ℤ_parts (e +ℤ pos (years + (x + 1 - 1)) -ℤ pos 719468) (pos d -ℤ pos 1),
    ))

day_split' :
    (t : ℤ)
    → let q = floor_div t 86400 in
      let r = pos_part (t -ℤ times q 86400) in
      (r < 86400) × (pos_part t + neg_part q * 86400 ≡ neg_part t + pos_part q * 86400 + r)
unfolding Splits
day_split' t = day_split t

-- the day of the month counts on from the first
day_of_month :
    (y : ℤ) (m d : ℕ) → 1 ≤ d → days_from_civil y m 1 +ℤ (pos d -ℤ pos 1) ≡ days_from_civil y m d
unfolding days_from_civil
day_of_month y m d h = shift_day _ _ _ d h

days_inside :
    (days : ℤ)
    → out_of_days days ≡ false
    → (pos_part days ≤ 2000000000) × (neg_part days ≤ 2000000000)
unfolding out_of_days max_days ◌-ℤ◌
days_inside (pos n) h = ground arith
days_inside (negsuc n) h = ground arith

-- the month of a date, counted from 0, is one of a year's
month_field :
    (m : ℕ)
    → 1 ≤ m
    → m ≤ 12
    → (floor_div (pos m -ℤ pos 1) 12 ≡ pos 0)
      × (pos_part (pos m -ℤ pos 1 -ℤ times (floor_div (pos m -ℤ pos 1) 12) 12) ≡ m - 1)
month_field m low high =
    let less = -ℤ_parts (pos m) (pos 1) in
    let sign = one_part (pos m -ℤ pos 1) in
    month_unique (pos m -ℤ pos 1) (pos 0) (m - 1) (unfold Splits in (omega arith, omega arith))

abbrev seconds_of : ℕ → ℤ
seconds_of rest =
    times (pos (rest / 3600)) 3600 +ℤ times (pos (rest % 3600 / 60)) 60 +ℤ pos (rest % 60)

second_fields :
    (rest : ℕ)
    → rest < 86400
    → (floor_div (seconds_of rest) 86400 ≡ pos 0)
      × (pos_part (seconds_of rest -ℤ times (floor_div (seconds_of rest) 86400) 86400) ≡ rest)
second_fields rest less =
    let hours = times_parts (pos (rest / 3600)) 3600 in
    let minutes = times_parts (pos (rest % 3600 / 60)) 60 in
    let inner = +ℤ_parts (times (pos (rest / 3600)) 3600) (times (pos (rest % 3600 / 60)) 60) in
    let outer =
      +ℤ_parts (times (pos (rest / 3600)) 3600 +ℤ times (pos (rest % 3600 / 60)) 60)
        (pos (rest % 60)) in
    day_unique (seconds_of rest) (pos 0) rest (unfold Splits in (less, omega arith))

add_zero : (a : ℤ) → a +ℤ pos 0 ≡ a
add_zero a = eq_of_parts _ _ (omega (arith, +ℤ_parts a (pos 0)))

-- the fields of a day, and a second of it, stand for them
days_of_tm-tm_of :
    (days : ℤ) (rest : ℕ)
    → rest < 86400
    → days_of_tm (civil_from_days days).year (tm_of days rest) ≡ (days, rest)
unfolding days_of_tm tm_of
days_of_tm-tm_of days rest h =
    let c = civil_from_days days in
    let (m1, m2, d1, d2, back) = days_from_civil-civil_from_days days in
    let (months, month) = month_field c.month m1 m2 in
    let (carry, second) = second_fields rest h in
    let one_up : c.month - 1 + 1 ≡ c.month = omega arith in
    rw (month, second, carry, one_up, day_of_month c.year c.month c.day d1, back, add_zero days)
      refl

year_field : (y : ℤ) → y -ℤ pos 1900 +ℤ pos 1900 +ℤ pos 0 ≡ y
year_field y = eq_of_parts _ _ (
    omega (
      arith,
      -ℤ_parts y (pos 1900),
      +ℤ_parts (y -ℤ pos 1900) (pos 1900),
      +ℤ_parts (y -ℤ pos 1900 +ℤ pos 1900) (pos 0),
    ))

year_of_tm :
    (days : ℤ) (rest : ℕ)
    → (tm_of days rest).year +ℤ pos 1900 +ℤ floor_div (tm_of days rest).mon 12
      ≡ (civil_from_days days).year
unfolding tm_of
year_of_tm days rest =
    let (m1, m2, d1, d2, back) = days_from_civil-civil_from_days days in
    let (months, month) = month_field (civil_from_days days).month m1 m2 in
    rw months (year_field (civil_from_days days).year)

year_inside :
    (y : ℤ)
    → pos_part y ≤ 5800000
    → neg_part y ≤ 5800000
    → (ltb_ℤ (pos 5800000) y || ltb_ℤ y (pos 0 -ℤ pos 5800000)) ≡ false
unfolding ◌-ℤ◌
year_inside (pos n) up down = ground arith
year_inside (negsuc n) up down = ground arith

-- mktime on the fields that gmtime_r makes
mktime-tm_of :
    (days t : ℤ) (rest : ℕ)
    → rest < 86400
    → out_of_days days ≡ false
    → times days 86400 +ℤ pos rest ≡ t
    → gmtime_r t ≡ some (tm_of days rest)
    → mktime (tm_of days rest) ≡ (some t, tm_of days rest)
unfolding mktime
mktime-tm_of days t rest h inside time fields =
    let (up, down) = days_inside days inside in
    let (late, early) = year_range days up down in
    rw
      (
        mktime,
        year_of_tm days rest,
        days_of_tm-tm_of days rest h,
        year_inside (civil_from_days days).year late early,
        inside,
        time,
        fields,
      )
      refl

-- A time is turned into fields exactly when its day is one that the calendar works with, and mktime
-- turns these fields back into the time and leaves them as they are.
pub mktime-gmtime_r :
    (t : ℤ)
    → ((gmtime_r t ≡ none) × (out_of_days (floor_div t 86400) ≡ true))
      ⊎ ((tm : Tm) × (gmtime_r t ≡ some tm)
          × (mktime tm ≡ (some t, tm))
          × (out_of_days (floor_div t 86400) ≡ false))
unfolding gmtime_r
mktime-gmtime_r t =
    let days : ℤ = floor_div t 86400 in
    let rest : ℕ = pos_part (t -ℤ times days 86400) in
    let (less, sum) = day_split' t in
    elim (Bool-cases (out_of_days days)) [
      | inl outside ↦ inl (rw outside refl, outside)
      | inr inside ↦
          let fields : gmtime_r t ≡ some (tm_of days rest) = rw (gmtime_r, inside) refl in
          let time : times days 86400 +ℤ pos rest ≡ t =
            eq_of_parts _ _ (
              omega (arith, sum, times_parts days 86400, +ℤ_parts (times days 86400) (pos rest))) in
          inr (tm_of days rest, fields, mktime-tm_of days t rest less inside time fields, inside)
    ]
