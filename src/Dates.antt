-- ===== src/Dates.antt =====
-- UTC dates, and the fiscal year of src/common/dates/fiscal-year.ts and utc-day.ts.
-- A JS `Date` is its UTC fields, months counted from 1, with the milliseconds since midnight;
-- `Date.UTC` and the comparison of instants are the language's. Dates are of the years from 1 on.
pub mod FiscalYear
pub mod DayBefore
use accounting_api.Common.{
  ℕ, zero, suc, ◌+◌, ◌-◌, ◌*◌, ◌/◌, ◌%◌, ◌≤◌, ◌<◌, Bool, true, false, not, ◌&&◌, ◌||◌, ltb, leb,
  ◌==◌, if◌then◌else◌,
}

pub record Date : Type 0 where
  pub year : ℕ
  pub month : ℕ
  pub day : ℕ
  pub time : ℕ

unfoldable pub is_leap : ℕ → Bool
is_leap y = (y % 4 == 0) && (not (y % 100 == 0) || (y % 400 == 0))

unfoldable pub days_in_month : ℕ → ℕ → ℕ
days_in_month y m =
    if (m == 4) || (m == 6) || (m == 9) || (m == 11)
    then 30
    else if m == 2
    then (if is_leap y then 29 else 28)
    else 31

-- The dates that occur: `time` is below a day.
pub record IsDate (d : Date) : Type 0 where
  pub month_in : (1 ≤ d.month) × (d.month ≤ 12)
  pub day_in : (1 ≤ d.day) × (d.day ≤ days_in_month d.year d.month)
  pub time_in : d.time < 86400000

-- Instants in the order of time: years have 12 months, months at most 31 days.
abbrev pub day_key : Date → ℕ
day_key d = (d.year * 12 + (d.month - 1)) * 31 + (d.day - 1)

abbrev pub key : Date → ℕ
key d = day_key d * 86400000 + d.time

abbrev pub leb_date : Date → Date → Bool
leb_date a b = leb (key a) (key b)

-- `Date.UTC` takes the years 0 to 99 as 1900 to 1999.
abbrev pub utc_year : ℕ → ℕ
utc_year y = if ltb y 100 then y + 1900 else y

-- `truncateToUtcDay`.
unfoldable pub truncate_to_utc_day : Date → Date
truncate_to_utc_day d = record d { year = utc_year d.year; time = 0 }

-- What a `@db.Date` column keeps of a date.
abbrev pub stored_day : Date → Date
stored_day d = record d { time = 0 }

-- `new Date(d.getTime() - 86_400_000)`, from the year 1 on.
unfoldable pub day_before : Date → Date
day_before d =
    if ltb 1 d.day
    then record d { day = d.day - 1 }
    else if ltb 1 d.month
    then record d { month = d.month - 1; day = days_in_month d.year (d.month - 1) }
    else record d { year = d.year - 1; month = 12; day = 31 }

-- The days from the start of the year 0 to a date: what `getTime()` of midnights differs by, in days.
unfoldable pub days_of_months : ℕ → ℕ → ℕ
unfolding days_in_month
days_of_months y zero = 0
days_of_months y (suc m) = days_of_months y m + days_in_month y (suc m)

unfoldable pub day_number : Date → ℕ
unfolding days_of_months
day_number d =
    let leap_days = (d.year + 3) / 4 - (d.year + 99) / 100 + (d.year + 399) / 400 in
    d.year * 365 + leap_days + days_of_months d.year (d.month - 1) + (d.day - 1)

-- `Date.UTC(year, month0, 1)` with a month counted from 0 that may exceed 11.
unfoldable pub first_of_month : ℕ → ℕ → Date
first_of_month y month0 = record {
  year = utc_year y + month0 / 12;
  month = month0 % 12 + 1;
  day = 1;
  time = 0;
}

-- `Date.UTC(year, month0 + 1, 0)`: day 0 of the next month is the last day of month `month0`.
unfoldable pub last_of_month : ℕ → ℕ → Date
last_of_month y month0 =
    let year = utc_year y + month0 / 12 in
    let month = month0 % 12 + 1 in
    record { year = year; month = month; day = days_in_month year month; time = 0 }

unfoldable pub fiscal_year_for_date : Date → ℕ → ℕ
fiscal_year_for_date d start_month = if leb start_month d.month then d.year else d.year - 1

unfoldable pub fiscal_year_start_date : ℕ → ℕ → Date
unfolding first_of_month
fiscal_year_start_date fiscal_year start_month = first_of_month fiscal_year (start_month - 1)

unfoldable pub fiscal_year_end_date : ℕ → ℕ → Date
unfolding last_of_month
fiscal_year_end_date fiscal_year start_month =
    let end_year = if start_month == 1 then fiscal_year else fiscal_year + 1 in
    let end_month0 = if start_month == 1 then 11 else start_month - 2 in
    last_of_month end_year end_month0
