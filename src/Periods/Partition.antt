-- ===== src/Periods/Partition.antt =====
-- The generated periods cut a fiscal year into months without gaps or overlaps.
use accounting_api.Common.{
  ℕ, zero, suc, ◌+◌, ◌-◌, ◌*◌, ◌/◌, ◌%◌, ◌≤◌, ◌≡◌, arith, leb, ltb, count, if◌then◌else◌, ◌==◌,
  ◌&&◌,
}
use accounting_api.Dates.{Date, IsDate, fiscal_year_for_date}
use accounting_api.Dates.FiscalYear.{month_index, IsMonth, first_of_month-le, le-last_of_month}
use accounting_api.Periods.{generated_period, generated_periods, contains}

module _ (d : Date) (v : IsDate d) (hd : 100 ≤ d.year) (fy s : ℕ) (hy : 100 ≤ fy)
    (new_id : ℕ → ℕ) where
  -- The date lies in the period of the month `i` just when its month is that one.
  contains-generated_period :
      (i : ℕ)
      → contains d (generated_period fy s new_id i) ≡ (month_index d == fy * 12 + (s - 1) + i)
  unfolding contains generated_period
  contains-generated_period i =
      let m = s - 1 + i in
      ground (
        arith,
        first_of_month-le d (fy + m / 12) (m % 12) v hd (omega arith),
        le-last_of_month d (fy + m / 12) (m % 12) v hd (omega arith),
      )

  count-generated_periods :
      (n i : ℕ)
      → count (contains d) (generated_periods fy s new_id n i) ≡ (
          if leb (fy * 12 + (s - 1) + i) (month_index d)
            && ltb (month_index d) (fy * 12 + (s - 1) + i + n)
          then 1
          else 0)
  unfolding generated_periods
  count-generated_periods zero i = ground arith
  count-generated_periods (suc n) i =
      rw (contains-generated_period i, count-generated_periods n (i + 1)) (ground arith)

-- Of the twelve periods generated for a fiscal year from 100 on with a valid start month, a valid date
-- from the year 100 on lies in exactly one if it is in that fiscal year, and in none otherwise.
pub generated_periods_partition :
    (d : Date) (fy start_month : ℕ) (new_id : ℕ → ℕ)
    → IsDate d
    → IsMonth start_month
    → 100 ≤ d.year
    → 100 ≤ fy
    → count (contains d) (generated_periods fy start_month new_id 12 0)
      ≡ (if fiscal_year_for_date d start_month == fy then 1 else 0)
unfolding fiscal_year_for_date
generated_periods_partition d fy s new_id v hs hd hy =
    rw (count-generated_periods d v hd fy s hy new_id 12 0) (ground arith)
