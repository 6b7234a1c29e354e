-- ===== src/Time/Days.antt =====
-- Days to civil dates and back.
use ceres_standard_library.Prelude.{
  ℕ, ◌+◌, ◌-◌, ◌*◌, ◌/◌, ◌<◌, ◌≤◌, ◌≡◌, ap, ◌∙◌, arith, leb, ltb, if◌then◌else◌,
}
use ceres_standard_library.Prelude.Int.{
  ℤ, pos, negsuc, pos_part, neg_part, ◌+ℤ◌, ◌-ℤ◌, times, quotient, eq_of_parts, +ℤ_parts, -ℤ_parts,
  times_parts, one_part,
}
use ceres_standard_library.Time.{era, days_of_years, civil_from_days, days_from_civil}

abbrev year_of : ℕ → ℕ
year_of doe = (doe - doe / 1460 + doe / 36524 - doe / 146096) / 365

year_of_lem :
    (doe : ℕ)
    → doe < 146097
    → (year_of doe < 400)
      × (days_of_years (year_of doe) ≤ doe)
      × (doe ≤ days_of_years (year_of doe) + 365)
unfolding days_of_years
year_of_lem doe h = (omega arith, omega arith, omega arith)

-- `x` is `e` whole eras of `n` and `r` more
unfoldable pub Splits : ℕ → ℤ → ℤ → ℕ → Type 0
Splits n x e r = (r < n) × (pos_part x + neg_part e * n ≡ neg_part x + pos_part e * n + r)

era_long : (z : ℤ) → Splits 146097 z (era 146097 z) (pos_part (z -ℤ times (era 146097 z) 146097))
unfolding era Splits quotient ◌-ℤ◌ times
era_long (pos n) = ground arith
era_long (negsuc n) = ground arith

era_short : (z : ℤ) → Splits 400 z (era 400 z) (pos_part (z -ℤ times (era 400 z) 400))
unfolding era Splits quotient ◌-ℤ◌ times
era_short (pos n) = ground arith
era_short (negsuc n) = ground arith

era_unique :
    (z e : ℤ) (r : ℕ)
    → Splits 400 z e r
    → (era 400 z ≡ e) × (pos_part (z -ℤ times (era 400 z) 400) ≡ r)
unfolding Splits
era_unique z e r (less, sum) =
    let (less', sum') = era_short z in
    let same : pos_part (era 400 z) + neg_part e ≡ pos_part e + neg_part (era 400 z) =
      omega arith in
    (eq_of_parts (era 400 z) e same, omega arith)

abbrev month_of : ℕ → ℕ
month_of mp = if ltb mp 10 then mp + 3 else mp - 9

-- the months of a year that begins in March
month_of_lem :
    (doy : ℕ)
    → doy ≤ 365
    → let mp = (5 * doy + 2) / 153 in
      let m = month_of mp in
      let d = doy - (153 * mp + 2) / 5 + 1 in
      (1 ≤ m)
      × (m ≤ 12)
      × (1 ≤ d)
      × (d ≤ 31)
      × ((153 * (if ltb 2 m then m - 3 else m + 9) + 2) / 5 + d - 1 ≡ doy)
month_of_lem doy h = ground arith

year_back :
    (e : ℤ) (yoe b : ℕ) → yoe < 400 → Splits 400 (pos yoe +ℤ times e 400 +ℤ pos b -ℤ pos b) e yoe
unfolding Splits
year_back e yoe b less = (
  less,
  omega (
    arith,
    +ℤ_parts (pos yoe) (times e 400),
    +ℤ_parts (pos yoe +ℤ times e 400) (pos b),
    -ℤ_parts (pos yoe +ℤ times e 400 +ℤ pos b) (pos b),
    times_parts e 400,
  ),
)

days_back :
    (days e : ℤ) (doe : ℕ)
    → Splits 146097 (days +ℤ pos 719468) e doe
    → times e 146097 +ℤ pos doe -ℤ pos 719468 ≡ days
unfolding Splits
days_back days e doe (less, sum) = eq_of_parts _ _ (
    omega (
      arith,
      sum,
      +ℤ_parts days (pos 719468),
      +ℤ_parts (times e 146097) (pos doe),
      -ℤ_parts (times e 146097 +ℤ pos doe) (pos 719468),
      times_parts e 146097,
    ))

-- the two directions, written over the parts that they compute
from_parts :
    (y e : ℤ) (yoe m d : ℕ)
    → Splits 400 (y -ℤ pos (if leb m 2 then 1 else 0)) e yoe
    → days_from_civil y m d
      ≡ times e 146097
        +ℤ pos (days_of_years yoe + ((153 * (if ltb 2 m then m - 3 else m + 9) + 2) / 5 + d - 1))
        -ℤ pos 719468
unfolding days_from_civil
from_parts y e yoe m d s =
    let (same, same') = era_unique (y -ℤ pos (if leb m 2 then 1 else 0)) e yoe s in rw (same', same)

-- Every number of days is a date with a month from 1 to 12 and a day from 1 to 31, which
-- days_from_civil turns back into the number.
pub days_from_civil-civil_from_days :
    (days : ℤ)
    → let c = civil_from_days days in
      (1 ≤ c.month)
      × (c.month ≤ 12)
      × (1 ≤ c.day)
      × (c.day ≤ 31)
      × (days_from_civil c.year c.month c.day ≡ days)
unfolding civil_from_days
days_from_civil-civil_from_days days =
    let z : ℤ = days +ℤ pos 719468 in
    let e : ℤ = era 146097 z in
    let doe : ℕ = pos_part (z -ℤ times e 146097) in
    let yoe : ℕ = year_of doe in
    let doy : ℕ = doe - days_of_years yoe in
    let long = era_long z in
    let (short, below, above) = year_of_lem doe (unfold Splits in long.0) in
    let (m1, m2, d1, d2, back) = month_of_lem doy (omega arith) in
    let mp : ℕ = (5 * doy + 2) / 153 in
    let m : ℕ = month_of mp in
    let d : ℕ = doy - (153 * mp + 2) / 5 + 1 in
    let late : ℕ = if leb m 2 then 1 else 0 in
    let whole : days_of_years yoe + doy ≡ doe = omega arith in
    (
      m1,
      m2,
      d1,
      d2,
      from_parts (pos yoe +ℤ times e 400 +ℤ pos late) e yoe m d (year_back e yoe late short)
          ∙ ap (λ (x : ℕ). times e 146097 +ℤ pos (days_of_years yoe + x) -ℤ pos 719468) back
          ∙ ap (λ (x : ℕ). times e 146097 +ℤ pos x -ℤ pos 719468) whole
          ∙ days_back days e doe long,
    )

year_limits :
    (e : ℤ) (yoe b : ℕ)
    → yoe < 400
    → b ≤ 1
    → pos_part e ≤ 14000
    → neg_part e ≤ 14000
    → let y = pos yoe +ℤ times e 400 +ℤ pos b in (pos_part y ≤ 5800000) × (neg_part y ≤ 5800000)
year_limits e yoe b short one up down =
    let y : ℤ = pos yoe +ℤ times e 400 +ℤ pos b in
    let inner = +ℤ_parts (pos yoe) (times e 400) in
    let outer = +ℤ_parts (pos yoe +ℤ times e 400) (pos b) in
    let scaled = times_parts e 400 in let sign = one_part y in (omega arith, omega arith)

-- the years of the days that an `int` has room for
pub year_range :
    (days : ℤ)
    → pos_part days ≤ 2000000000
    → neg_part days ≤ 2000000000
    → let y = (civil_from_days days).year in (pos_part y ≤ 5800000) × (neg_part y ≤ 5800000)
unfolding civil_from_days
year_range days up down =
    let z : ℤ = days +ℤ pos 719468 in
    let e : ℤ = era 146097 z in
    let doe : ℕ = pos_part (z -ℤ times e 146097) in
    let yoe : ℕ = year_of doe in
    let long : Splits 146097 z e doe = era_long z in
    let inside : doe < 146097 = unfold Splits in long.0 in
    let whole : pos_part z + neg_part e * 146097 ≡ neg_part z + pos_part e * 146097 + doe =
      unfold Splits in long.1 in
    let (short, below, above) = year_of_lem doe inside in
    let doy : ℕ = doe - days_of_years yoe in
    let mp : ℕ = (5 * doy + 2) / 153 in
    year_limits e yoe (if leb (month_of mp) 2 then 1 else 0) short (ground arith)
      (omega (arith, whole, +ℤ_parts days (pos 719468), one_part days, one_part z, one_part e))
      (omega (arith, whole, +ℤ_parts days (pos 719468), one_part days, one_part z, one_part e))
