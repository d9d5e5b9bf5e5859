-- ===== src/Periods.antt =====
-- Accounting periods (src/ledger/periods/periods.service.ts).
pub mod Partition
use accounting_api.Common.{
  ℕ, zero, suc, ◌+◌, ◌-◌, ◌/◌, ◌%◌, Bool, true, false, ◌&&◌, not, Option, none, some, List, [], ◌∷◌,
  ◌++◌, ◌==◌, leb, if◌then◌else◌, find, filter, update_first, length,
}
use accounting_api.Errors.{Result, ok, err, not_found, conflict, ◌>>=◌, throw_if, ◌>>◌}
use accounting_api.Dates.{Date, leb_date, truncate_to_utc_day, first_of_month, last_of_month}
use accounting_api.Store.{
  Db, AccountingPeriod, PeriodStatus, open_period, shut_period, is_open, Timestamp,
}
use accounting_api.Company

-- The row that `generatePeriods` makes for the month `i` of the fiscal year, counted from 0.
pub generated_period : ℕ → ℕ → (ℕ → ℕ) → ℕ → AccountingPeriod
generated_period fiscal_year start_month new_id i =
    let month_index = start_month - 1 + i in
    let year = fiscal_year + month_index / 12 in
    let month = month_index % 12 in
    record {
      id = new_id i;
      fiscal_year = fiscal_year;
      sequence = i + 1;
      start_date = first_of_month year month;
      end_date = last_of_month year month;
      status = open_period;
      closed_at = none;
      closed_by = none;
    }

-- `Array.from({ length: n }, …)`, from index `i`.
pub generated_periods : ℕ → ℕ → (ℕ → ℕ) → ℕ → ℕ → List AccountingPeriod
generated_periods fiscal_year start_month new_id zero i = []
generated_periods fiscal_year start_month new_id (suc n) i =
    generated_period fiscal_year start_month new_id i
    ∷ generated_periods fiscal_year start_month new_id n (i + 1)

abbrev pub same_sequence : AccountingPeriod → AccountingPeriod → Bool
same_sequence p q = (p.fiscal_year == q.fiscal_year) && (p.sequence == q.sequence)

-- `createMany` with `skipDuplicates`: a row whose fiscal year and sequence are taken is dropped.
pub create_many : List AccountingPeriod → List AccountingPeriod → List AccountingPeriod
create_many [] rows = rows
create_many (p ∷ ps) rows =
    create_many ps (elim (find (same_sequence p) rows) [ none ↦ rows ++ (p ∷ []) | some q ↦ rows ])

insert_by_sequence : AccountingPeriod → List AccountingPeriod → List AccountingPeriod
insert_by_sequence p [] = p ∷ []
insert_by_sequence p (q ∷ qs) =
    if leb p.sequence q.sequence then p ∷ q ∷ qs else q ∷ insert_by_sequence p qs

order_by_sequence : List AccountingPeriod → List AccountingPeriod
unfolding insert_by_sequence
order_by_sequence [] = []
order_by_sequence (p ∷ ps) = insert_by_sequence p (order_by_sequence ps)

pub list : ℕ → Db → List AccountingPeriod
unfolding order_by_sequence
list fiscal_year db = order_by_sequence (filter (λ p. p.fiscal_year == fiscal_year) db.periods)

pub generate_periods : ℕ → (ℕ → ℕ) → Db → Result (List AccountingPeriod × Db)
generate_periods fiscal_year new_id db =
    if length (list fiscal_year db) == 12 then ok (list fiscal_year db, db) else do
      bounds ← Company.fiscal_year_bounds fiscal_year db
      let rows = generated_periods fiscal_year bounds.0.month new_id 12 0
      let db' = record db { periods = create_many rows db.periods }
      ok (list fiscal_year db', db')

-- The date, as a day, lies within the period.
unfoldable pub contains : Date → AccountingPeriod → Bool
contains date p =
    leb_date p.start_date (truncate_to_utc_day date)
    && leb_date (truncate_to_utc_day date) p.end_date

unfoldable pub find_open_period_for_date : Date → Db → Option AccountingPeriod
unfolding contains
find_open_period_for_date date db = find (λ p. is_open p.status && contains date p) db.periods

abbrev pub has_id : ℕ → AccountingPeriod → Bool
has_id id p = p.id == id

-- The columns that a closing sets, and a reopening.
abbrev pub closed : ℕ → Timestamp → AccountingPeriod → AccountingPeriod
closed closed_by now p = record p {
  status = shut_period;
  closed_at = some now;
  closed_by = some closed_by;
}

abbrev pub reopened : AccountingPeriod → AccountingPeriod
reopened p = record p { status = open_period; closed_at = none; closed_by = none }

unfoldable pub close : ℕ → ℕ → Timestamp → Db → Result Db
close id closed_by now db = elim (find (has_id id) db.periods) [
  | none ↦ err (not_found "Period not found")
  | some p ↦ do
    throw_if (not (is_open p.status)) (conflict "Period already closed")
    ok (record db { periods = update_first (has_id id) (closed closed_by now) db.periods })
]

unfoldable pub reopen : ℕ → Db → Result Db
reopen id db = elim (find (has_id id) db.periods) [
  | none ↦ err (not_found "Period not found")
  | some p ↦ do
    throw_if (is_open p.status) (conflict "Period is not closed")
    ok (record db { periods = update_first (has_id id) reopened db.periods })
]
