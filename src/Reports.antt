-- ===== src/Reports.antt =====
-- The income statement (src/reporting/income-statement.service.ts, report-line.ts), with its amounts as
-- money instead of text.
pub mod Parts
pub mod NetIncome
pub mod BalanceSheet
pub mod Balanced
pub mod CashFlow
pub mod Grown
pub mod Sections
pub mod OverTime
pub mod CashMoves
pub mod Reconciles
pub mod GeneralLedger
pub mod Running
pub mod Closing
pub mod Aging
pub mod Buckets
pub mod Aged
use accounting_api.Common.{
  Bool, true, false, ◌||◌, not, none, some, List, [], ◌∷◌, ◌==◌, filter, map,
}
use accounting_api.Money.{Decimals, Money, add, subtract, sum}
use accounting_api.Dates.{Date}
use accounting_api.DocRef.{Text}
use accounting_api.Store.{
  Db, Account, AccountType, asset, liability, equity, revenue, expense, AccountSubtype,
  revenue_subtype, cogs, operating_expense, other_income, other_expense, AccountRole, tax_expense,
}
use accounting_api.Invoicing.{role_code}
use accounting_api.Accounts.{subtype_code}
use accounting_api.Balances.{AccountBalanceRow, natural_side, movements_between}

pub record ReportLine : Type 0 where
  pub code : Text
  pub name : Text
  pub amount : Money

pub record Section : Type 0 where
  pub lines : List ReportLine
  pub total : Money

pub record IncomeStatement : Type 0 where
  pub revenue_section : Section
  pub cogs_section : Section
  pub gross_profit : Money
  pub operating_section : Section
  pub operating_profit : Money
  pub other_income_total : Money
  pub other_expense_total : Money
  pub profit_before_tax : Money
  pub tax_total : Money
  pub net_income : Money

abbrev pub is_pl_type : AccountType → Bool
is_pl_type asset = false
is_pl_type expense = true
is_pl_type liability = false
is_pl_type equity = false
is_pl_type revenue = true

abbrev pub is_income_row : AccountBalanceRow → Bool
is_income_row r = is_pl_type r.account.account_type

abbrev pub is_tax_row : AccountBalanceRow → Bool
is_tax_row r = elim r.account.role [
  | none ↦ false
  | some role ↦ role_code role == role_code tax_expense
]

abbrev pub is_not_tax_row : AccountBalanceRow → Bool
is_not_tax_row r = not (is_tax_row r)

abbrev pub has_subtype : AccountSubtype → AccountBalanceRow → Bool
has_subtype subtype r = subtype_code r.account.subtype == subtype_code subtype

module _ (D : Decimals) where
  abbrev pub amount_of : AccountBalanceRow → Money
  amount_of r = natural_side D r.account.account_type r.debit r.credit

  abbrev pub report_line : AccountBalanceRow → ReportLine
  report_line r = record { code = r.account.code; name = r.account.name; amount = amount_of r }

  -- The loop pushes a line for each row and keeps a running total from zero, as `sum` does.
  unfoldable pub section : List AccountBalanceRow → (AccountBalanceRow → Bool) → Section
  section rows pred = record {
    lines = map report_line (filter pred rows);
    total = sum D (map amount_of (filter pred rows));
  }

  unfoldable pub statement_of : List AccountBalanceRow → IncomeStatement
  unfolding section
  statement_of movements =
      let all = filter is_income_row movements in
      let rows = filter is_not_tax_row all in
      let revenue_section = section rows (has_subtype revenue_subtype) in
      let cogs_section = section rows (has_subtype cogs) in
      let gross_profit = subtract D revenue_section.total cogs_section.total in
      let operating_section = section rows (has_subtype operating_expense) in
      let operating_profit = subtract D gross_profit operating_section.total in
      let other_income_section = section rows (has_subtype other_income) in
      let other_expense_section = section rows (has_subtype other_expense) in
      let profit_before_tax =
        subtract D (add D operating_profit other_income_section.total)
          other_expense_section.total in
      let tax = section all is_tax_row in
      record {
        revenue_section = revenue_section;
        cogs_section = cogs_section;
        gross_profit = gross_profit;
        operating_section = operating_section;
        operating_profit = operating_profit;
        other_income_total = other_income_section.total;
        other_expense_total = other_expense_section.total;
        profit_before_tax = profit_before_tax;
        tax_total = tax.total;
        net_income = subtract D profit_before_tax tax.total;
      }

  unfoldable pub generate : Date → Date → Db → IncomeStatement
  unfolding statement_of
  generate from to db = statement_of (movements_between D from to db)
