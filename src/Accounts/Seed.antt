-- ===== src/Accounts/Seed.antt =====
-- The chart that an empty ledger starts with (src/ledger/accounts/chart-of-accounts.seed.ts, and
-- seedIfEmpty of accounts.service.ts).
pub mod Assets
pub mod Liabilities
pub mod Results
use accounting_api.Common.{
  ℕ, suc, Bool, true, false, not, Option, none, some, List, [], ◌∷◌, ◌++◌, find, filter, or_else,
  if◌then◌else◌,
}
use accounting_api.Errors.{
  DomainError, Result, ok, err, ◌>>=◌, or_throw, unique_violation, plain_error,
}
use accounting_api.DocRef.{Text, codes, same_text}
use accounting_api.Store.{
  Db, Account, is_none, is_some, asset, liability, equity, revenue, expense, current_asset,
  fixed_asset, accumulated_depreciation, current_liability, non_current_liability, equity_subtype,
  revenue_subtype, cogs, operating_expense, other_income, other_expense, tax_payable,
  tax_receivable, operating, investing, financing, cash, ar_control, ap_control, retained_earnings,
  opening_balance_equity, tax_expense, debit_normal, credit_normal,
}
use accounting_api.Accounts.{CreateAccountInput, SeedAccount, new_account, insert_account}
pub use accounting_api.Accounts.Seed.Assets.{assets_chart}
pub use accounting_api.Accounts.Seed.Liabilities.{liabilities_chart, equities_chart}
pub use accounting_api.Accounts.Seed.Results.{revenues_chart, expenses_chart}

abbrev pub chart_of_accounts : List SeedAccount
chart_of_accounts =
    assets_chart ++ (liabilities_chart ++ (equities_chart ++ (revenues_chart ++ expenses_chart)))

-- The order of the insertions: the headers before the others, each part in the chart's order.
abbrev pub is_header : SeedAccount → Bool
is_header a = not (or_else a.is_postable true)

abbrev pub ordered : List SeedAccount → List SeedAccount
ordered chart = filter is_header chart ++ filter (λ (a : SeedAccount). not (is_header a)) chart

-- `idByCode`.
abbrev pub IdByCode : Type 0
IdByCode = List (Text × ℕ)

unfoldable pub seed_parent : Option Text → IdByCode → Result (Option ℕ)
seed_parent none ids = ok none
seed_parent (some []) ids = ok none
seed_parent (some (c ∷ cs)) ids = do
  entry ←
      or_throw (find (λ (e : Text × ℕ). same_text e.0 (c ∷ cs)) ids)
        (plain_error "Seed: parent code not found")
  ok (some entry.1)

-- The loop of the transaction. New ids count from `new_id`.
unfoldable pub seed_rows : ℕ → List SeedAccount → IdByCode → Db → Result Db
unfolding seed_parent insert_account
seed_rows new_id [] ids db = ok db
seed_rows new_id (a ∷ rest) ids db = do
  parent_id ← seed_parent a.parent_code ids
  next ← insert_account (new_account new_id a parent_id) db
  seed_rows (suc new_id) rest ((a.code, new_id) ∷ ids) next

-- `err.code === 'P2002'`.
abbrev pub is_unique_violation : DomainError → Bool
is_unique_violation (unique_violation m) = true
is_unique_violation e = false

-- The `catch`: a seed that lost the race leaves the other instance's chart.
unfoldable pub lost_race : Db → Result Db → Result Db
lost_race db (ok next) = ok next
lost_race db (err e) = if is_unique_violation e then ok db else err e

-- `seen` is what the count reads before the transaction.
unfoldable pub seed_if_empty : ℕ → Db → Db → Result Db
unfolding seed_rows lost_race
seed_if_empty new_id seen db =
    if is_some (find (λ (a : Account). is_none a.deleted_at) seen.accounts)
    then ok db
    else lost_race db (seed_rows new_id (ordered chart_of_accounts) [] db)
