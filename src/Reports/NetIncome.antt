-- ===== src/Reports/NetIncome.antt =====
-- The net income of the statement (src/reporting/income-statement.service.ts).
use accounting_api.Common.{
  ◌<◌, ◌≤◌, ◌≡◌, refl, ap, ap₂, ◌∙◌, Bool, true, ◌&&◌, List, [], ◌∷◌, ◌*◌, filter, map, All, arith,
}
use accounting_api.Common.Int.{abs, ◌+ℤ◌, ◌-ℤ◌}
use accounting_api.Money.{Decimals, sum}
use accounting_api.Store.{
  expense, AccountSubtype, revenue_subtype, cogs, operating_expense, other_income, other_expense,
}
use accounting_api.Accounts.{is_coherent}
use accounting_api.Balances.{AccountBalanceRow}
use accounting_api.Reports.{
  is_income_row, is_tax_row, is_not_tax_row, has_subtype, amount_of, section, statement_of,
}
use accounting_api.Reports.Parts.{
  volume, earnings, weigh, row_value, sum-weigh, amount_of-IsExact, net, net_add, row_net, part,
  filter-filter, net_exact,
}

-- A row whose subtype belongs to its type, and which is an expense if it holds the role TAX_EXPENSE.
abbrev pub IsSoundRow : AccountBalanceRow → Type 0
IsSoundRow r =
    (is_coherent r.account.account_type r.account.subtype ≡ true)
    × (is_tax_row r ≡ true → r.account.account_type ≡ expense)

abbrev in_section : AccountSubtype → AccountBalanceRow → Bool
in_section wanted r = is_income_row r && (is_not_tax_row r && has_subtype wanted r)

abbrev in_tax : AccountBalanceRow → Bool
in_tax r = is_income_row r && is_tax_row r

parts_net :
    (rows : List AccountBalanceRow)
    → All IsSoundRow rows
    → net
        (part (in_section revenue_subtype) rows)
        (part (in_section cogs) rows)
        (part (in_section operating_expense) rows)
        (part (in_section other_income) rows)
        (part (in_section other_expense) rows)
        (part in_tax rows)
      ≡ earnings rows
unfolding weigh ◌-ℤ◌ ◌+ℤ◌
parts_net [] h = refl
parts_net (r ∷ rows) h =
    net_add _ _ _ _ _ _ _ _ _ _ _ _
    ∙ ap₂ (λ x y. x +ℤ y)
        (row_net r.account.account_type r.account.subtype (is_tax_row r) r.debit r.credit h.0.0
          h.0.1)
        (parts_net rows h.1)

module _ (D : Decimals) where
  -- The total of a section, and the bound on it.
  section_part :
      (wanted : AccountSubtype) (rows : List AccountBalanceRow)
      → volume rows < D.limit
      → (sum D (
            map
              (amount_of D)
              (filter (has_subtype wanted) (filter is_not_tax_row (filter is_income_row rows))))
          ≡ part (in_section wanted) rows)
        × (abs (part (in_section wanted) rows) ≤ volume rows)
  section_part wanted rows h =
      let all =
        sum-weigh D (amount_of D) row_value (amount_of-IsExact D) (in_section wanted) rows h in
      let nested =
        filter-filter (has_subtype wanted) is_not_tax_row (filter is_income_row rows)
        ∙ filter-filter (λ r. is_not_tax_row r && has_subtype wanted r) is_income_row rows in
      (ap (λ xs. sum D (map (amount_of D) xs)) nested ∙ all.0, all.1)

  tax_part :
      (rows : List AccountBalanceRow)
      → volume rows < D.limit
      → (sum D (map (amount_of D) (filter is_tax_row (filter is_income_row rows)))
          ≡ part in_tax rows)
        × (abs (part in_tax rows) ≤ volume rows)
  tax_part rows h =
      let all = sum-weigh D (amount_of D) row_value (amount_of-IsExact D) in_tax rows h in
      let nested = filter-filter is_tax_row is_income_row rows in
      (ap (λ xs. sum D (map (amount_of D) xs)) nested ∙ all.0, all.1)

  -- If every row's subtype belongs to its type, only expenses hold the role TAX_EXPENSE, and six times
  -- the sum of all debits and credits fits decimal.js's precision, then the net income of the
  -- statement is the exact sum of credit less debit over the revenue and expense rows.
  pub statement_of-earnings :
      (movements : List AccountBalanceRow)
      → All IsSoundRow movements
      → 6 * volume movements < D.limit
      → (statement_of D movements).net_income ≡ earnings movements
  unfolding statement_of section
  statement_of-earnings movements sound h =
      let fits : volume movements < D.limit = omega (arith, h) in
      let a = section_part revenue_subtype movements fits in
      let b = section_part cogs movements fits in
      let c = section_part operating_expense movements fits in
      let d = section_part other_income movements fits in
      let e = section_part other_expense movements fits in
      let f = tax_part movements fits in
      rw (a.0, b.0, c.0, d.0, e.0, f.0)
        (net_exact D _ _ _ _ _ _ (volume movements) a.1 b.1 c.1 d.1 e.1 f.1 h
          ∙ parts_net movements sound)
