-- ===== src/Posting/Accepted.antt =====
-- Which postings `preparePosting` accepts (src/ledger/posting/posting.service.ts).
use accounting_api.Common.{ℕ, ◌≡◌, some, All}
use accounting_api.Dates.{Date, fiscal_year_for_date}
use accounting_api.Store.{Db, CompanySettings}
use accounting_api.Company
use accounting_api.Periods
use accounting_api.Posting.Rules.{Exists, IsOpenOn, IsOtherOrOpen}

module _ (db : Db) (settings : CompanySettings) (company : db.company ≡ some settings) where
  abbrev year_of : Date → ℕ
  year_of date = fiscal_year_for_date date settings.fiscal_year_start_month

  -- What `assertPostableDate` answers with.
  abbrev Dated : Date → ℕ → ℕ → Type 0
  Dated date period_id fiscal_year =
      (fiscal_year ≡ year_of date)
      × Exists (λ q. (q.id ≡ period_id) × IsOpenOn date q) db.periods
      × All (IsOtherOrOpen (year_of date)) db.year_end_closings
