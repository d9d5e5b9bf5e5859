-- ===== src/Tests.antt =====
-- Runs of the model on small databases, and the theorems at concrete arguments. Each module of tests
-- takes its database from here. decimal.js is instantiated by exact integer arithmetic.
pub mod Journal
pub mod Calendar
pub mod Documents
pub mod Tokens
pub mod Taxes
pub mod YearEnd
pub mod Idempotency
pub mod Payments
pub mod Accounts
pub mod TaxCodes
pub mod Reports
pub mod Users
pub mod Invoices
pub mod Aging
use accounting_api.Common.{ℕ, refl, true, false, none, some, List, [], ◌∷◌}
use accounting_api.Common.Int.{ℤ, pos, ◌+ℤ◌, ◌-ℤ◌, ◌*ℤ◌}
use accounting_api.Money.{Decimals, half_up}
use accounting_api.DocRef.{codes}
use accounting_api.Dates.{Date}
use accounting_api.Store.{
  AccountRole, operating, Db, Account, current_asset, revenue_subtype, asset, revenue, debit_normal,
  credit_normal, AccountingPeriod, open_period, manual,
}
use accounting_api.Posting.{PostLineInput, PostEntryInput}

-- Twenty digits, with no rounding beyond them.
abbrev pub exact : Decimals
exact = record {
  limit = 100000000000000000000;
  plus = λ a b. a +ℤ b;
  minus = λ a b. a -ℤ b;
  times = λ a b. a *ℤ b;
  drop_digits = λ k a. half_up k a;
  plus_exact = λ a b h. refl;
  minus_exact = λ a b h. refl;
  times_exact = λ a b h. refl;
  drop_digits_exact = λ k a. refl;
}

abbrev pub day : ℕ → ℕ → ℕ → Date
day y m d = record { year = y; month = m; day = d; time = 0 }

abbrev pub cash : Account
cash = record {
  id = 1;
  code = codes "1-1000";
  name = codes "Cash";
  account_type = asset;
  subtype = current_asset;
  cash_flow_category = operating;
  parent_id = none;
  role = some AccountRole.cash;
  normal_balance = debit_normal;
  is_postable = true;
  is_active = true;
  deleted_at = none;
}

abbrev pub sales : Account
sales = record {
  id = 2;
  code = codes "4-1000";
  name = codes "Sales";
  account_type = revenue;
  subtype = revenue_subtype;
  cash_flow_category = operating;
  parent_id = none;
  role = none;
  normal_balance = credit_normal;
  is_postable = true;
  is_active = true;
  deleted_at = none;
}

abbrev pub january : AccountingPeriod
january = record {
  id = 7;
  fiscal_year = 2026;
  sequence = 1;
  start_date = day 2026 1 1;
  end_date = day 2026 1 31;
  status = open_period;
  closed_at = none;
  closed_by = none;
}

-- Two accounts, one open period, and an empty journal.
abbrev pub empty_book : Db
empty_book = record {
  company = some (record { fiscal_year_start_month = 1; segregation_of_duties_enabled = true });
  accounts = cash ∷ sales ∷ [];
  periods = january ∷ [];
  year_end_closings = [];
  journal_sequences = [];
  journal_entries = [];
}

-- A sale of 5000 rupiah.
abbrev pub sale_lines : List PostLineInput
sale_lines =
    record { account_id = 1; debit = some (pos 50000000); credit = none; description = none }
    ∷ record { account_id = 2; debit = none; credit = some (pos 50000000); description = none }
    ∷ []

abbrev pub sale : PostEntryInput
sale = record {
  date = day 2026 1 15;
  description = [];
  source_type = manual;
  source_id = none;
  created_by = 3;
  lines = sale_lines;
}
