-- ===== src/Time/Tests.antt =====
-- Runs of the calendar: a leap day, a day before 1970, and the range of the days.
use ceres_standard_library.Prelude.{ℕ, ◌≡◌, ◌⊎◌, ◌≤◌, refl, none, some, true, false}
use ceres_standard_library.Prelude.Int.{ℤ, pos, negsuc, ◌+ℤ◌, ◌-ℤ◌, times, quotient, remainder}
use ceres_standard_library.Time.{
  Civil, civil_from_days, days_from_civil, Tm, floor_div, out_of_days, max_days, gmtime_r, mktime,
}
use ceres_standard_library.Time.Days.{days_from_civil-civil_from_days}
use ceres_standard_library.Time.Seconds.{mktime-gmtime_r}

abbrev date : ℤ → ℕ → ℕ → Civil
date y m d = record { year = y; month = m; day = d }

runs :
    (civil_from_days (pos 11016) ≡ date (pos 2000) 2 29)
    × (civil_from_days (negsuc 0) ≡ date (pos 1969) 12 31)
    × (days_from_civil (pos 1970) 1 1 ≡ pos 0)
    × (gmtime_r (pos 172800000086400) ≡ none)
unfolding civil_from_days days_from_civil gmtime_r floor_div out_of_days max_days ◌+ℤ◌ ◌-ℤ◌ times
    quotient remainder
runs = (refl, refl, refl, refl)

days_from_civil-civil_from_days_example :
    let c = civil_from_days (negsuc 719467) in
    (1 ≤ c.month)
    × (c.month ≤ 12)
    × (1 ≤ c.day)
    × (c.day ≤ 31)
    × (days_from_civil c.year c.month c.day ≡ negsuc 719467)
days_from_civil-civil_from_days_example = days_from_civil-civil_from_days (negsuc 719467)

mktime-gmtime_r_example :
    ((gmtime_r (pos 951827696) ≡ none) × (out_of_days (floor_div (pos 951827696) 86400) ≡ true))
    ⊎ ((tm : Tm) × (gmtime_r (pos 951827696) ≡ some tm)
        × (mktime tm ≡ (some (pos 951827696), tm))
        × (out_of_days (floor_div (pos 951827696) 86400) ≡ false))
mktime-gmtime_r_example = mktime-gmtime_r (pos 951827696)
