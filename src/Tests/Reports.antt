-- ===== src/Tests/Reports.antt =====
-- The income statement of a sale, its cost and the tax on it.
use accounting_api.Common.{
  map, length, false, ◌≡◌, ◌<◌, ◌+◌, ◌*◌, refl, true, ◌≤◌, All, none, some, List, [], ◌∷◌, arith,
}
use accounting_api.Common.Int.{pos, ◌+ℤ◌, ◌-ℤ◌}
use accounting_api.Store.{Account, expense, cogs, other_expense, tax_expense, debit_normal}
use accounting_api.Accounts.{is_coherent}
use accounting_api.Balances.{AccountBalanceRow}
use accounting_api.Reports.{statement_of}
use accounting_api.Reports.NetIncome.{statement_of-earnings}
use accounting_api.Reports.Parts.{volume, earnings, weigh}
use accounting_api.Money.{sum, sum_from, add, subtract, new_money, half_up, half_up_ℕ}
use accounting_api.Dates.{Date, IsDate, leb_date, day_before, days_in_month, truncate_to_utc_day}
use accounting_api.Dates.DayBefore.{IsDay}
use accounting_api.Errors.{ok}
use accounting_api.Store.{CompanySettings}
use accounting_api.Posting.Write.{posted_entry, stored_lines}
use accounting_api.Balances.{
  balances_as_of, movements_between, grouped_balances, group_rows, sum_debit, sum_credit,
  counted_lines, to_row, signed_net,
}
use accounting_api.Reports.BalanceSheet
use accounting_api.Reports.BalanceSheet.{BalanceSheet}
use accounting_api.Reports.Balanced.{generate-balanced}
use accounting_api.Reports.CashFlow
use accounting_api.Reports.Reconciles.{generate-reconciles}
use accounting_api.Reports.GeneralLedger
use accounting_api.Reports.GeneralLedger.{GeneralLedger, LedgerLine, line_rows, sort_rows}
use accounting_api.Reports.Running.{rows_volume, last_balance}
use accounting_api.Reports.Closing.{days_before, days_within, generate-closing}
use accounting_api.Common.Sums.{sum_by_ℕ}
use accounting_api.Tests.Journal.{book, sale-GoodRows, sale-OnAccounts}
use accounting_api.Tests.{exact, sales, cash, day}

abbrev costs : Account
costs = record sales {
  id = 11;
  account_type = expense;
  subtype = cogs;
  normal_balance = debit_normal;
  role = none;
}

abbrev tax : Account
tax = record sales {
  id = 12;
  account_type = expense;
  subtype = other_expense;
  normal_balance = debit_normal;
  role = some tax_expense;
}

abbrev movements : List AccountBalanceRow
movements =
    record { account = sales; debit = pos 0; credit = pos 10000000; balance = pos 10000000 }
    ∷ record { account = costs; debit = pos 4000000; credit = pos 0; balance = pos 4000000 }
    ∷ record { account = tax; debit = pos 1000000; credit = pos 0; balance = pos 1000000 }
    ∷ []

volume_fits : 6 * volume movements < 100000000000000000000
unfolding volume
volume_fits = omega arith

earned : earnings movements ≡ pos 5000000
unfolding weigh ◌+ℤ◌ ◌-ℤ◌
earned = refl

statement_of-earnings_example : (statement_of exact movements).net_income ≡ earnings movements
unfolding is_coherent
statement_of-earnings_example =
    statement_of-earnings exact movements
      ((refl, λ h. cc), ((refl, λ h. cc), ((refl, λ h. refl), tt))) volume_fits

january_days : 31 ≤ days_in_month 2026 1
unfolding days_in_month
january_days = omega arith

days : All (λ e. IsDay e.date) book.journal_entries
unfolding posted_entry truncate_to_utc_day
days = (
  record {
    is_date = record {
      month_in = (omega arith, omega arith);
      day_in = (omega arith, omega (arith, january_days));
      time_in = omega arith;
    };
    midnight = refl;
  },
  tt,
)

settings : CompanySettings
settings = record { fiscal_year_start_month = 1; segregation_of_duties_enabled = true }

january_fits : 3 * volume (balances_as_of exact (day 2026 1 31) book) < 100000000000000000000
unfolding volume balances_as_of grouped_balances group_rows sum_debit sum_credit counted_lines
    to_row signed_net posted_entry stored_lines truncate_to_utc_day ◌+ℤ◌
january_fits = omega arith

generate-balanced_example :
    (sheet : BalanceSheet) × (BalanceSheet.generate exact (day 2026 1 31) book ≡ ok sheet)
    × (sheet.balanced ≡ true)
    × (sheet.assets.total ≡ sheet.liabilities.total +ℤ sheet.equity_side.total)
unfolding settings
generate-balanced_example =
    generate-balanced exact (day 2026 1 31) book settings refl sale-GoodRows sale-OnAccounts
      january_fits

abbrev first : Date
first = day 2026 1 10

abbrev last : Date
last = day 2026 1 31

flow_fits :
    5 * volume (movements_between exact first last book)
      + (volume (balances_as_of exact (day_before (truncate_to_utc_day first)) book)
          + volume (balances_as_of exact last book))
    < 100000000000000000000
unfolding volume balances_as_of movements_between grouped_balances group_rows sum_debit sum_credit
    counted_lines to_row signed_net posted_entry stored_lines truncate_to_utc_day day_before ◌+ℤ◌
flow_fits = omega arith

first-IsDate : IsDate first
first-IsDate = record {
  month_in = (omega arith, omega arith);
  day_in = (omega arith, omega (arith, january_days));
  time_in = omega arith;
}

in_order : leb_date (truncate_to_utc_day first) (truncate_to_utc_day last) ≡ true
unfolding truncate_to_utc_day
in_order = refl

generate-reconciles_example :
    ((CashFlow.generate exact first last book).reconciles ≡ true)
    × ((CashFlow.generate exact first last book).cash_after
        ≡ (CashFlow.generate exact first last book).cash_before
          +ℤ (CashFlow.generate exact first last book).net_change)
generate-reconciles_example =
    generate-reconciles exact first last book first-IsDate (omega arith) (omega arith) in_order days
      sale-GoodRows sale-OnAccounts flow_fits

-- The cash from the sale.
cash_after : (CashFlow.generate exact first last book).cash_after ≡ pos 50000000
unfolding CashFlow.generate CashFlow.flow_of CashFlow.cash_balance balances_as_of grouped_balances
    group_rows sum_debit sum_credit counted_lines to_row signed_net posted_entry stored_lines
    truncate_to_utc_day sum sum_from add subtract new_money half_up half_up_ℕ ◌+ℤ◌ ◌-ℤ◌
cash_after = refl

rows_fit :
    rows_volume (line_rows 1 (days_before first) book.journal_entries)
      + rows_volume (line_rows 1 (days_within first last) book.journal_entries)
    < 100000000000000000000
unfolding sum_by_ℕ line_rows posted_entry stored_lines truncate_to_utc_day day_before
rows_fit = omega arith

one_line : length (line_rows 1 (days_within first last) book.journal_entries) ≤ 10000
unfolding line_rows posted_entry stored_lines truncate_to_utc_day
one_line = omega arith

generate-closing_example :
    (g : GeneralLedger) × (GeneralLedger.generate exact 1 first last 10000 book ≡ ok g)
    × (g.truncated ≡ false)
    × (map (λ (l : LedgerLine). l.row) g.lines
        ≡ sort_rows (line_rows 1 (days_within first last) book.journal_entries))
    × (last_balance g.opening_balance g.lines ≡ g.closing_balance)
generate-closing_example =
    generate-closing exact 1 book cash first last 10000 refl first-IsDate (omega arith)
      (omega arith) in_order days one_line rows_fit
