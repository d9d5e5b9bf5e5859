-- ===== src/Reports/Balanced.antt =====
-- The balance sheet balances (src/reporting/balance-sheet.service.ts).
use accounting_api.Common.{
  ◌*◌, ◌<◌, ◌≤◌, ◌≡◌, refl, sym, ap, ◌∙◌, Bool, true, some, List, [], ◌∷◌, filter, map, All, arith,
}
use accounting_api.Common.Int.{
  eqb_ℤ_refl, ℤ, pos, abs, ◌+ℤ◌, ◌-ℤ◌, abs-+ℤ, int_laws, parts_of_eq, eq_of_parts,
}
use accounting_api.Errors.{ok}
use accounting_api.Money.{Decimals, Money, zero_money, add, sum, sum_from}
use accounting_api.Money.Exact.{total, add-eq}
use accounting_api.Dates.{
  leb_date, truncate_to_utc_day, Date, fiscal_year_for_date, fiscal_year_start_date,
}
use accounting_api.Store.{
  Db, CompanySettings, AccountType, asset, liability, equity, revenue, expense,
}
use accounting_api.Company.{fiscal_year_for, fiscal_year_bounds}
use accounting_api.Posting.Rows.{GoodRow}
use accounting_api.Balances.{
  counted_lines, grouped_balances, AccountBalanceRow, RawBalanceRow, to_row, balances_as_of,
  movements_between,
}
use accounting_api.Balances.Totals.{grouped_balances-columns, lines_as_of}
use accounting_api.Balances.Live.{OnAccounts}
use accounting_api.Reports.{amount_of, is_income_row, is_pl_type}
use accounting_api.Reports.Parts.{
  when, value, volume, part, earnings, weigh, gain, gain-IsExact, row_value, sum-weigh,
  amount_of-IsExact,
}
use accounting_api.Reports.BalanceSheet.{
  BySubtype, type_is, has_type, group_loop, group, net_earnings, BalanceSheet, sheet_of, generate,
}

unfoldable pub debits : List AccountBalanceRow → ℤ
debits [] = pos 0
debits (r ∷ rows) = r.debit +ℤ debits rows

unfoldable pub credits : List AccountBalanceRow → ℤ
credits [] = pos 0
credits (r ∷ rows) = r.credit +ℤ credits rows

-- One row's share of the two sides.
row_sides :
    (t : AccountType) (d c a l e n ds cs : ℤ)
    → a +ℤ cs ≡ (l +ℤ (e +ℤ n)) +ℤ ds
    → (when (type_is asset t) (value t d c) +ℤ a) +ℤ (c +ℤ cs)
      ≡ ((when (type_is liability t) (value t d c) +ℤ l)
          +ℤ ((when (type_is equity t) (value t d c) +ℤ e) +ℤ (when (is_pl_type t) (c -ℤ d) +ℤ n)))
        +ℤ (d +ℤ ds)
row_sides asset d c a l e n ds cs h = eq_of_parts _ _ (omega (int_laws, parts_of_eq h))
row_sides liability d c a l e n ds cs h = eq_of_parts _ _ (omega (int_laws, parts_of_eq h))
row_sides equity d c a l e n ds cs h = eq_of_parts _ _ (omega (int_laws, parts_of_eq h))
row_sides revenue d c a l e n ds cs h = eq_of_parts _ _ (omega (int_laws, parts_of_eq h))
row_sides expense d c a l e n ds cs h = eq_of_parts _ _ (omega (int_laws, parts_of_eq h))

-- The sides differ by what debits and credits differ.
sides :
    (rows : List AccountBalanceRow)
    → part (has_type asset) rows +ℤ credits rows
      ≡ (part (has_type liability) rows +ℤ (part (has_type equity) rows +ℤ earnings rows))
        +ℤ debits rows
unfolding weigh debits credits ◌+ℤ◌
sides [] = refl
sides (r ∷ rows) = row_sides r.account.account_type r.debit r.credit _ _ _ _ _ _ (sides rows)

-- The columns of the rows that the query gave.
debits-to_row :
    (D : Decimals) (raw : List RawBalanceRow)
    → debits (map (to_row D) raw) ≡ total (map (λ r. r.debit) raw)
unfolding debits to_row
debits-to_row D [] = refl
debits-to_row D (r ∷ raw) = ap (λ z. r.debit +ℤ z) (debits-to_row D raw)

credits-to_row :
    (D : Decimals) (raw : List RawBalanceRow)
    → credits (map (to_row D) raw) ≡ total (map (λ r. r.credit) raw)
unfolding credits to_row
credits-to_row D [] = refl
credits-to_row D (r ∷ raw) = ap (λ z. r.credit +ℤ z) (credits-to_row D raw)

-- Where the rows are good and the lines that count are on live accounts, the columns are equal.
pub debits-credits :
    (D : Decimals) (date_filter : Date → Bool) (db : Db)
    → All GoodRow db.journal_entries
    → OnAccounts db.accounts (counted_lines date_filter db.journal_entries)
    → debits (map (to_row D) (grouped_balances date_filter db))
      ≡ credits (map (to_row D) (grouped_balances date_filter db))
debits-credits D date_filter db good on =
    debits-to_row D (grouped_balances date_filter db)
    ∙ (grouped_balances-columns date_filter db good on).0
    ∙ sym (credits-to_row D (grouped_balances date_filter db))

module _ (D : Decimals) where
  group_loop-total :
      (rows : List AccountBalanceRow) (m : BySubtype) (acc : Money)
      → (group_loop D rows m acc).1 ≡ sum_from D acc (map (amount_of D) rows)
  unfolding group_loop sum_from
  group_loop-total [] m acc = refl
  group_loop-total (r ∷ rows) m acc = group_loop-total rows _ (add D acc (amount_of D r))

  group-part :
      (t : AccountType) (rows : List AccountBalanceRow)
      → volume rows < D.limit
      → ((group D (filter (has_type t) rows)).total ≡ part (has_type t) rows)
        × (abs (part (has_type t) rows) ≤ volume rows)
  unfolding group sum
  group-part t rows h =
      let exact = sum-weigh D (amount_of D) row_value (amount_of-IsExact D) (has_type t) rows h in
      (group_loop-total (filter (has_type t) rows) [] zero_money ∙ exact.0, exact.1)

  net_earnings-earnings :
      (rows : List AccountBalanceRow)
      → volume rows < D.limit
      → (net_earnings D rows ≡ earnings rows) × (abs (earnings rows) ≤ volume rows)
  unfolding net_earnings
  net_earnings-earnings rows h = sum-weigh D _ gain (gain-IsExact D) is_income_row rows h

  -- If debits and credits are equal and fit, the sheet of the rows balances.
  sheet_of-balanced :
      (rows fy_rows : List AccountBalanceRow)
      → debits rows ≡ credits rows
      → 3 * volume rows < D.limit
      → ((sheet_of D rows fy_rows).balanced ≡ true)
        × ((sheet_of D rows fy_rows).assets.total
            ≡ (sheet_of D rows fy_rows).liabilities.total
              +ℤ (sheet_of D rows fy_rows).equity_side.total)
  unfolding sheet_of
  sheet_of-balanced rows fy_rows even h =
      let fits : volume rows < D.limit = omega (arith, h) in
      let a = group-part asset rows fits in
      let l = group-part liability rows fits in
      let e = group-part equity rows fits in
      let n = net_earnings-earnings rows fits in
      let equity_sum =
        add-eq D (part (has_type equity) rows) (earnings rows) (omega (arith, e.1, n.1, h)) in
      let bound = abs-+ℤ (part (has_type equity) rows) (earnings rows) in
      let other_side =
        add-eq D (part (has_type liability) rows) (part (has_type equity) rows +ℤ earnings rows)
          (omega (arith, l.1, e.1, n.1, h, bound)) in
      let agree : part (has_type asset) rows
          ≡ part (has_type liability) rows +ℤ (part (has_type equity) rows +ℤ earnings rows) =
        eq_of_parts _ _ (omega (int_laws, parts_of_eq (sides rows), parts_of_eq even)) in
      rw (a.0, l.0, e.0, n.0, equity_sum, other_side, agree)
        (
          eqb_ℤ_refl
              (part (has_type liability) rows +ℤ (part (has_type equity) rows +ℤ earnings rows)),
          refl,
        )

  -- Where the company is set up, the journal's rows are good, every line that counts is on exactly one
  -- live account, and three times the debits and credits of the rows fit decimal.js's precision, the
  -- balance sheet is returned, it is marked as balanced, and its assets are exactly its liabilities
  -- and its equity.
  pub generate-balanced :
      (as_of : Date) (db : Db) (settings : CompanySettings)
      → db.company ≡ some settings
      → All GoodRow db.journal_entries
      → OnAccounts db.accounts (lines_as_of as_of db)
      → 3 * volume (balances_as_of D as_of db) < D.limit
      → (sheet : BalanceSheet) × (generate D as_of db ≡ ok sheet)
        × (sheet.balanced ≡ true)
        × (sheet.assets.total ≡ sheet.liabilities.total +ℤ sheet.equity_side.total)
  unfolding generate balances_as_of fiscal_year_for fiscal_year_bounds
  generate-balanced as_of db settings company good on h =
      let month = settings.fiscal_year_start_month in
      let fy = fiscal_year_for_date as_of month in
      let rows = balances_as_of D as_of db in
      let fy_rows = movements_between D (fiscal_year_start_date fy month) as_of db in
      let returned : generate D as_of db ≡ ok (sheet_of D rows fy_rows) = rw company refl in
      let balanced =
        sheet_of-balanced rows fy_rows
          (debits-credits D (λ d. leb_date d (truncate_to_utc_day as_of)) db good on) h in
      (sheet_of D rows fy_rows, returned, balanced.0, balanced.1)
