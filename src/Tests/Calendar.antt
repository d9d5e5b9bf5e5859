-- ===== src/Tests/Calendar.antt =====
-- The calendar, counter and reference theorems.
use accounting_api.Common.{
  refl, ℕ, ◌+◌, ◌≤◌, ◌≡◌, ◌↔◌, List, [], ◌∷◌, count, ◌==◌, ==_iff, if◌then◌else◌, arith,
}
use accounting_api.Dates.{
  Date, IsDate, days_in_month, is_leap, key, truncate_to_utc_day, fiscal_year_for_date,
  fiscal_year_start_date, fiscal_year_end_date, first_of_month,
}
use accounting_api.Dates.FiscalYear.{fiscal_year_for_date_iff}
use accounting_api.DocRef.{codes, build_doc_ref}
use accounting_api.DocRef.Read.{has_no_slash, read_doc_ref, read_doc_ref-build_doc_ref}
use accounting_api.Periods.{generated_periods, contains}
use accounting_api.Periods.Partition.{generated_periods_partition}
use accounting_api.Sequence.{read_number, next_sequence_number}
use accounting_api.Sequence.Counter.{next_sequence_number_lem}
use accounting_api.Tests.{day}

abbrev leap_day : Date
leap_day = day 2028 2 29

leap_day-IsDate : IsDate leap_day
unfolding days_in_month is_leap
leap_day-IsDate = record {
  month_in = (omega arith, omega arith);
  day_in = (omega arith, ground arith);
  time_in = omega arith;
}

-- `Date.UTC` takes the year 99 as 1999.
last_of_century : fiscal_year_start_date 99 7 ≡ day 1999 7 1
unfolding fiscal_year_start_date first_of_month
last_of_century = refl

-- A fiscal year from April.
fiscal_year_for_date_iff_example :
    ((key (fiscal_year_start_date 2027 4) ≤ key (truncate_to_utc_day leap_day))
      × (key (truncate_to_utc_day leap_day) ≤ key (fiscal_year_end_date 2027 4)))
    ↔ (fiscal_year_for_date leap_day 4 ≡ 2027)
fiscal_year_for_date_iff_example =
    fiscal_year_for_date_iff leap_day 2027 4 leap_day-IsDate (omega arith, omega arith)
      (omega arith) (omega arith)

generated_periods_partition_example :
    count (contains leap_day) (generated_periods 2027 4 (λ i. i) 12 0)
    ≡ (if fiscal_year_for_date leap_day 4 == 2027 then 1 else 0)
generated_periods_partition_example =
    generated_periods_partition leap_day 2027 4 (λ i. i) leap_day-IsDate (omega arith, omega arith)
      (omega arith) (omega arith)

abbrev counters : List (ℕ × ℕ)
counters = (2025, 40) ∷ (2026, 3) ∷ []

next_sequence_number_lem_example :
    ((next_sequence_number (λ a b. a == b) 2026 counters).0
      ≡ read_number (λ a b. a == b) 2026 counters)
    × ((k : ℕ)
        → read_number (λ a b. a == b) k (next_sequence_number (λ a b. a == b) 2026 counters).1 ≡ (
            if 2026 == k
            then read_number (λ a b. a == b) 2026 counters + 1
            else read_number (λ a b. a == b) k counters))
next_sequence_number_lem_example = next_sequence_number_lem (λ a b. a == b) ==_iff 2026 counters

-- A number of more than six digits.
read_doc_ref-build_doc_ref_example :
    read_doc_ref (build_doc_ref "JE" 2026 1234567) ≡ (codes "JE", (2026, 1234567))
unfolding has_no_slash
read_doc_ref-build_doc_ref_example = read_doc_ref-build_doc_ref "JE" 2026 1234567 refl
