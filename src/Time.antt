-- ===== src/Time.antt =====
-- src/time.c: the calendar. An `int` or a `long long` is an integer; `int` values that the code
-- shows not to be negative (parts of an era, of a year, of a day) are numbers. Nothing here leaves
-- the range of its type: gmtime_r and mktime test the days and the year first.
pub mod Days
pub mod Seconds
mod Tests
use ceres_standard_library.Prelude.{
  ℕ, zero, suc, ◌+◌, ◌-◌, ◌*◌, ◌/◌, ◌%◌, ◌==◌, ltb, leb, if◌then◌else◌, Bool, true, false, not,
  ◌&&◌, ◌||◌, Option, none, some,
}
use ceres_standard_library.Prelude.Int.{
  ℤ, pos, negsuc, pos_part, neg_part, ◌+ℤ◌, ◌-ℤ◌, ltb_ℤ, times, quotient, remainder,
}

-- `(x >= 0 ? x : x - (n - 1)) / n`, as both directions have it
pub era : ℕ → ℤ → ℤ
era n x = quotient (if ltb_ℤ x (pos 0) then x -ℤ pos (n - 1) else x) n

pub record Civil : Type 0 where
  pub year : ℤ
  pub month : ℕ
  pub day : ℕ

-- the day of the era from the year of the era and the day of the year
pub days_of_years : ℕ → ℕ
days_of_years yoe = 365 * yoe + yoe / 4 - yoe / 100

pub civil_from_days : ℤ → Civil
unfolding era days_of_years
civil_from_days days =
    let z = days +ℤ pos 719468 in
    let e = era 146097 z in
    let doe = pos_part (z -ℤ times e 146097) in
    let yoe = (doe - doe / 1460 + doe / 36524 - doe / 146096) / 365 in
    let doy = doe - days_of_years yoe in
    let mp = (5 * doy + 2) / 153 in
    let month = if ltb mp 10 then mp + 3 else mp - 9 in
    record {
      year = pos yoe +ℤ times e 400 +ℤ pos (if leb month 2 then 1 else 0);
      month = month;
      day = doy - (153 * mp + 2) / 5 + 1;
    }

pub days_from_civil : ℤ → ℕ → ℕ → ℤ
unfolding era days_of_years
days_from_civil year m d =
    let y = year -ℤ pos (if leb m 2 then 1 else 0) in
    let e = era 400 y in
    let yoe = pos_part (y -ℤ times e 400) in
    let doy = (153 * (if ltb 2 m then m - 3 else m + 9) + 2) / 5 + d - 1 in
    let doe = days_of_years yoe + doy in times e 146097 +ℤ pos doe -ℤ pos 719468

-- floor_div and floor_div64 for a positive divisor, as all their calls have it
pub floor_div : ℤ → ℕ → ℤ
floor_div a n =
    let q = quotient a n in
    if not (pos_part (remainder a n) + neg_part (remainder a n) == 0) && ltb_ℤ a (pos 0)
    then q -ℤ pos 1
    else q

pub max_days : ℕ
max_days = 2000000000

pub record Tm : Type 0 where
  pub sec : ℤ
  pub min : ℤ
  pub hour : ℤ
  pub mday : ℤ
  pub mon : ℤ
  pub year : ℤ
  pub wday : ℤ
  pub yday : ℤ
  pub isdst : ℤ

pub out_of_days : ℤ → Bool
unfolding max_days
out_of_days days = ltb_ℤ (pos max_days) days || ltb_ℤ days (pos 0 -ℤ pos max_days)

-- the fields of a day and a second of it
pub tm_of : ℤ → ℕ → Tm
unfolding civil_from_days days_from_civil
tm_of days rest =
    let c = civil_from_days days in
    record {
      sec = pos (rest % 60);
      min = pos (rest % 3600 / 60);
      hour = pos (rest / 3600);
      mday = pos c.day;
      mon = pos c.month -ℤ pos 1;
      year = c.year -ℤ pos 1900;
      wday = remainder (remainder (days +ℤ pos 4) 7 +ℤ pos 7) 7;
      yday = days -ℤ days_from_civil c.year 1 1;
      isdst = pos 0;
    }

-- NULL, with EOVERFLOW, is `none`
pub gmtime_r : ℤ → Option Tm
gmtime_r t =
    let days = floor_div t 86400 in
    if out_of_days days then none else some (tm_of days (pos_part (t -ℤ times days 86400)))

-- the days and the second of the day that the fields of a `tm` stand for
pub days_of_tm : ℤ → Tm → ℤ × ℕ
unfolding floor_div days_from_civil
days_of_tm year tm =
    let mon = pos_part (tm.mon -ℤ times (floor_div tm.mon 12) 12) in
    let seconds = times tm.hour 3600 +ℤ times tm.min 60 +ℤ tm.sec in
    let carry = floor_div seconds 86400 in
    (
      days_from_civil year (mon + 1) 1 +ℤ (tm.mday -ℤ pos 1) +ℤ carry,
      pos_part (seconds -ℤ times carry 86400),
    )

-- the time, or `none` for -1 with EOVERFLOW, and the `tm` as it is left
pub mktime : Tm → Option ℤ × Tm
mktime tm =
    let year = tm.year +ℤ pos 1900 +ℤ floor_div tm.mon 12 in
    let (days, second) = days_of_tm year tm in
    let t = times days 86400 +ℤ pos second in
    if ltb_ℤ (pos 5800000) year || ltb_ℤ year (pos 0 -ℤ pos 5800000)
    then (none, tm)
    else if out_of_days days
    then (none, tm)
    else (some t, elim (gmtime_r t) [ none ↦ tm | some tm' ↦ tm' ])
