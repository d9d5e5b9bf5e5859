-- ===== src/Company.antt =====
-- Company settings (src/company/company.service.ts).
use accounting_api.Common.{ℕ, Bool, true, ◌&&◌, Option, none, some, or_else, ◌==◌}
use accounting_api.Errors.{Result, ok, err, not_found, ◌>>=◌}
use accounting_api.Dates.{Date, fiscal_year_for_date, fiscal_year_start_date, fiscal_year_end_date}
use accounting_api.Store.{Db, CompanySettings, JournalSourceType, is_manual}

-- `seedIfEmpty`: the schema's defaults, if there is no row.
pub seed_if_empty : Db → Db
seed_if_empty db = elim db.company [
  | none ↦ record db {
    company = some (record { fiscal_year_start_month = 1; segregation_of_duties_enabled = true });
  }
  | some c ↦ db
]

abbrev pub get : Db → Result CompanySettings
get db = elim db.company [
  | none ↦ err (not_found "Company settings not initialized")
  | some settings ↦ ok settings
]

unfoldable pub fiscal_year_for : Date → Db → Result ℕ
fiscal_year_for date db = do
  settings ← get db
  ok (fiscal_year_for_date date settings.fiscal_year_start_month)

unfoldable pub fiscal_year_bounds : ℕ → Db → Result (Date × Date)
fiscal_year_bounds fiscal_year db = do
  settings ← get db
  ok (
    fiscal_year_start_date fiscal_year settings.fiscal_year_start_month,
    fiscal_year_end_date fiscal_year settings.fiscal_year_start_month,
  )

unfoldable pub is_segregation_violation : JournalSourceType → ℕ → ℕ → Db → Result Bool
is_segregation_violation source_type created_by posted_by db = do
  settings ← get db
  ok (
      settings.segregation_of_duties_enabled
      && (is_manual source_type && (posted_by == created_by)))

-- `update`: the two settings that the ledger reads; an absent one stays.
pub update : Option ℕ → Option Bool → Db → Result Db
update start_month segregation db = do
  current ← get db
  ok (record db {
    company = some (record {
      fiscal_year_start_month = or_else start_month current.fiscal_year_start_month;
      segregation_of_duties_enabled = or_else segregation current.segregation_of_duties_enabled;
    });
  })
