-- ===== src/Store.antt =====
-- The database, as the ledger sees it (prisma/schema.prisma and its migrations): one record of
-- tables, each the list of its rows. Ids are numbers, since they are only compared. `timestamp`
-- is a database or server time. A deleted row stays in its table with `deleted_at` set.
use accounting_api.Common.{ℕ, Bool, true, false, Option, none, some, List, ◌==◌}
use accounting_api.Money.{Money}
use accounting_api.Dates.{Date}
use accounting_api.DocRef.{Text}

abbrev pub Timestamp : Type 0
Timestamp = ℕ

pub record CompanySettings : Type 0 where
  pub fiscal_year_start_month : ℕ
  pub segregation_of_duties_enabled : Bool

pub data AccountType : Type 0 where
  asset liability equity revenue expense : AccountType

pub data NormalBalance : Type 0 where
  debit_normal credit_normal : NormalBalance

pub data AccountRole : Type 0 where
  cash ar_control ap_control retained_earnings opening_balance_equity tax_expense : AccountRole

pub data AccountSubtype : Type 0 where
  current_asset non_current_asset fixed_asset accumulated_depreciation current_liability
        non_current_liability equity_subtype revenue_subtype cogs operating_expense other_income
        other_expense tax_payable tax_receivable :
      AccountSubtype

pub data CashFlowCategory : Type 0 where
  operating investing financing no_cash_flow : CashFlowCategory

pub record Account : Type 0 where
  pub id : ℕ
  pub code : Text
  pub name : Text
  pub account_type : AccountType
  pub subtype : AccountSubtype
  pub cash_flow_category : CashFlowCategory
  pub role : Option AccountRole
  pub parent_id : Option ℕ
  pub normal_balance : NormalBalance
  pub is_postable : Bool
  pub is_active : Bool
  pub deleted_at : Option Timestamp

pub data PeriodStatus : Type 0 where
  open_period shut_period : PeriodStatus

pub record AccountingPeriod : Type 0 where
  pub id : ℕ
  pub fiscal_year : ℕ
  pub sequence : ℕ
  pub start_date : Date
  pub end_date : Date
  pub status : PeriodStatus
  pub closed_at : Option Timestamp
  pub closed_by : Option ℕ

pub data JournalStatus : Type 0 where
  draft posted reversed : JournalStatus

pub data JournalSourceType : Type 0 where
  manual opening reversal sales_invoice purchase_bill payment closing : JournalSourceType

pub record JournalLine : Type 0 where
  pub line_no : ℕ
  pub account_id : ℕ
  pub debit : Money
  pub credit : Money
  pub description : Option Text

pub record JournalEntry : Type 0 where
  pub id : ℕ
  pub entry_number : Option ℕ
  pub entry_ref : Option Text
  pub fiscal_year : Option ℕ
  pub date : Date
  pub period_id : Option ℕ
  pub description : Text
  pub source_type : JournalSourceType
  pub source_id : Option ℕ
  pub status : JournalStatus
  pub reversal_of_id : Option ℕ
  pub reversed_by_id : Option ℕ
  pub created_by : ℕ
  pub posted_by : Option ℕ
  pub posted_at : Option Timestamp
  pub deleted_at : Option Timestamp
  pub lines : List JournalLine

pub data CloseStatus : Type 0 where
  open_year closed_year : CloseStatus

pub record YearEndClosing : Type 0 where
  pub fiscal_year : ℕ
  pub status : CloseStatus
  pub closing_entry_id : Option ℕ
  pub net_income : Money
  pub closed_at : Option Timestamp
  pub closed_by : Option ℕ
  pub reopened_at : Option Timestamp
  pub reopened_by : Option ℕ

-- `journal_sequences`: the next number of each fiscal year that has one.
abbrev pub Sequences : Type 0
Sequences = List (ℕ × ℕ)

pub record Db : Type 0 where
  pub company : Option CompanySettings
  pub accounts : List Account
  pub periods : List AccountingPeriod
  pub year_end_closings : List YearEndClosing
  pub journal_sequences : Sequences
  pub journal_entries : List JournalEntry

-- Tests on the enums, `===` in the source.
abbrev pub is_open : PeriodStatus → Bool
is_open open_period = true
is_open shut_period = false

abbrev pub is_closed : CloseStatus → Bool
is_closed closed_year = true
is_closed open_year = false

abbrev pub is_draft : JournalStatus → Bool
is_draft draft = true
is_draft _ = false

abbrev pub is_posted : JournalStatus → Bool
is_posted posted = true
is_posted _ = false

abbrev pub is_manual : JournalSourceType → Bool
is_manual manual = true
is_manual _ = false

abbrev pub is_none {ℓ} : {A : Type ℓ} → Option A → Bool
is_none none = true
is_none (some a) = false

abbrev pub is_some {ℓ} : {A : Type ℓ} → Option A → Bool
is_some none = false
is_some (some a) = true

-- `column = value` on a nullable column: never true of NULL.
abbrev pub holds : Option ℕ → ℕ → Bool
holds none n = false
holds (some m) n = m == n
