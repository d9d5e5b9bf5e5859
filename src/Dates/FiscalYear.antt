-- ===== src/Dates/FiscalYear.antt =====
-- A fiscal year is the days from its start date to its end date.
use native.Mathlib.Decide.{dec_lt}
use accounting_api.Common.{ℕ, ◌+◌, ◌-◌, ◌*◌, ◌/◌, ◌%◌, ◌≤◌, ◌≡◌, ◌↔◌, arith}
use accounting_api.Dates.{
  Date, IsDate, days_in_month, utc_year, key, truncate_to_utc_day, first_of_month, last_of_month,
  fiscal_year_for_date, fiscal_year_start_date, fiscal_year_end_date,
}

-- A start month as the settings hold it.
abbrev pub IsMonth : ℕ → Type 0
IsMonth m = (1 ≤ m) × (m ≤ 12)

abbrev pub month_index : Date → ℕ
month_index d = d.year * 12 + (d.month - 1)

pub days_in_month_range : (y m : ℕ) → (28 ≤ days_in_month y m) × (days_in_month y m ≤ 31)
unfolding days_in_month
days_in_month_range y m = ground arith

pub day_range : (d : Date) → IsDate d → d.day ≤ 31
day_range d v = omega (arith, days_in_month_range d.year d.month, v.day_in.1)

last_day : (d : Date) (y m : ℕ) → IsDate d → d.year ≡ y → d.month ≡ m → d.day ≤ days_in_month y m
last_day d y m v e f = rw (← e, ← f) v.day_in.1

-- `Date.UTC` keeps the years from 100 on.
pub utc_year-late : (y : ℕ) → 100 ≤ y → utc_year y ≡ y
utc_year-late y h = ground (arith, h)

-- A day from the year 100 on is on or after the first of a month of such a year just when its month is
-- that month or a later one.
pub first_of_month-le :
    (d : Date) (y month0 : ℕ)
    → IsDate d
    → 100 ≤ d.year
    → 100 ≤ y
    → (key (first_of_month y month0) ≤ key (truncate_to_utc_day d))
      ↔ (y * 12 + month0 ≤ month_index d)
unfolding first_of_month truncate_to_utc_day
first_of_month-le d y month0 v hd hy =
    rw (utc_year-late d.year hd, utc_year-late y hy)
      (λ h. omega (arith, day_range d v), λ h. omega (arith, day_range d v))

le_last_day :
    (d : Date) (y m : ℕ)
    → IsDate d
    → month_index d ≡ y * 12 + (m - 1)
    → 1 ≤ m
    → m ≤ 12
    → d.day ≤ days_in_month y m
le_last_day d y m v e lo hi = last_day d y m v (omega arith) (omega arith)

-- It is on or before the last of a month just when its month is that month or an earlier one.
pub le-last_of_month :
    (d : Date) (y month0 : ℕ)
    → IsDate d
    → 100 ≤ d.year
    → 100 ≤ y
    → (key (truncate_to_utc_day d) ≤ key (last_of_month y month0))
      ↔ (month_index d ≤ y * 12 + month0)
unfolding last_of_month truncate_to_utc_day
le-last_of_month d y month0 v hd hy =
    let year = y + month0 / 12 in
    let month = month0 % 12 + 1 in
    let last = days_in_month_range year month in
    rw (utc_year-late d.year hd, utc_year-late y hy)
      (
        λ h. omega (arith, last, day_range d v),
        λ h. elim (dec_lt (month_index d) (y * 12 + month0)) [
          | yes p ↦ omega (arith, last, day_range d v)
          | no p ↦
              omega (arith, le_last_day d year month v (omega arith) (omega arith) (omega arith))
        ],
      )

-- For a valid start month, a valid date from the year 100 on and a fiscal year from 100 on, the
-- date's day lies between the first and the last day of the fiscal year just when that is the fiscal
-- year of the date.
pub fiscal_year_for_date_iff :
    (d : Date) (fy start_month : ℕ)
    → IsDate d
    → IsMonth start_month
    → 100 ≤ d.year
    → 100 ≤ fy
    → ((key (fiscal_year_start_date fy start_month) ≤ key (truncate_to_utc_day d))
        × (key (truncate_to_utc_day d) ≤ key (fiscal_year_end_date fy start_month)))
      ↔ (fiscal_year_for_date d start_month ≡ fy)
unfolding fiscal_year_for_date fiscal_year_start_date fiscal_year_end_date
fiscal_year_for_date_iff d fy s v hs hd hy =
    let lo = first_of_month-le d fy (s - 1) v hd hy in
    let hi_jan = le-last_of_month d fy 11 v hd hy in
    let hi = le-last_of_month d (fy + 1) (s - 2) v hd (omega arith) in
    ground (arith, lo, hi_jan, hi)
