-- ===== src/Reports/Sections.antt =====
-- The net change of the cash flow statement (src/reporting/cash-flow.service.ts).
use accounting_api.Common.{
  ◌*◌, ◌≡◌, ◌≤◌, ◌<◌, refl, ap, ◌∙◌, Bool, true, false, ◌&&◌, not, List, [], ◌∷◌, filter, map,
  Bool-cases, inl, inr, arith,
}
use accounting_api.Common.Int.{zero_plus, ℤ, abs, ◌+ℤ◌, abs-+ℤ, int_laws, parts_of_eq, eq_of_parts}
use accounting_api.Money.{Decimals, sum}
use accounting_api.Money.Exact.{add-eq}
use accounting_api.Store.{CashFlowCategory, operating, investing, financing, no_cash_flow}
use accounting_api.Balances.{AccountBalanceRow}
use accounting_api.Reports.{is_income_row}
use accounting_api.Reports.Parts.{when, weigh, gain, gain-IsExact, volume, sum-weigh, filter-filter}
use accounting_api.Reports.CashFlow.{
  is_other_row, is_sheet_row, no_sections, cash_effect, fill_sections, flow_of,
}
use accounting_api.Reports.Grown.{
  goes_operating, goes_investing, goes_financing, to_section, fill_sections-Grown,
}

weigh-filter :
    (g : AccountBalanceRow → ℤ) (p q : AccountBalanceRow → Bool) (rows : List AccountBalanceRow)
    → weigh g p (filter q rows) ≡ weigh g (λ r. q r && p r) rows
unfolding weigh
weigh-filter g p q [] = refl
weigh-filter g p q (r ∷ rows) = elim (Bool-cases (q r)) [
  | inl t ↦ rw (t, weigh-filter g p q rows) refl
  | inr f ↦ rw (f, weigh-filter g p q rows) (omega int_laws)
]

volume-filter :
    (q : AccountBalanceRow → Bool) (rows : List AccountBalanceRow)
    → volume (filter q rows) ≤ volume rows
unfolding volume
volume-filter q [] = omega arith
volume-filter q (r ∷ rows) =
    let rest = volume-filter q rows in
    elim (Bool-cases (q r)) [
      | inl t ↦ rw t (omega (arith, rest))
      | inr f ↦ rw f (omega (arith, rest))
    ]

-- A row's place among the income and the three sections.
row_buckets :
    (other income : Bool) (c : CashFlowCategory) (z : ℤ)
    → when (other && income) z
        +ℤ (when (other && (not income && goes_operating c)) z
            +ℤ (when (other && (not income && goes_investing c)) z
                +ℤ when (other && (not income && goes_financing c)) z))
      ≡ when other z
row_buckets false income c z = omega int_laws
row_buckets true true c z = omega int_laws
row_buckets true false operating z = omega int_laws
row_buckets true false no_cash_flow z = omega int_laws
row_buckets true false investing z = omega int_laws
row_buckets true false financing z = omega int_laws

abbrev in_bucket : (CashFlowCategory → Bool) → AccountBalanceRow → Bool
in_bucket goes r = is_other_row r && (is_sheet_row r && to_section goes r)

buckets :
    (rows : List AccountBalanceRow)
    → weigh gain (λ r. is_other_row r && is_income_row r) rows
        +ℤ (weigh gain (in_bucket goes_operating) rows
            +ℤ (weigh gain (in_bucket goes_investing) rows
                +ℤ weigh gain (in_bucket goes_financing) rows))
      ≡ weigh gain is_other_row rows
unfolding weigh
buckets [] = omega int_laws
buckets (r ∷ rows) =
    let here =
      row_buckets (is_other_row r) (is_income_row r) r.account.cash_flow_category (gain r) in
    let rest = buckets rows in
    eq_of_parts _ _ (omega (int_laws, parts_of_eq here, parts_of_eq rest))

module _ (D : Decimals) where
  -- One section's total, from the movements.
  section_total :
      (goes : CashFlowCategory → Bool) (movements : List AccountBalanceRow)
      → volume movements < D.limit
      → (weigh gain (to_section goes) (filter is_sheet_row (filter is_other_row movements))
          ≡ weigh gain (in_bucket goes) movements)
        × (abs (weigh gain (in_bucket goes) movements) ≤ volume movements)
  section_total goes movements h =
      let exact = sum-weigh D _ gain (gain-IsExact D) (in_bucket goes) movements h in
      (
        weigh-filter gain (to_section goes) is_sheet_row (filter is_other_row movements)
            ∙ weigh-filter gain (λ r. is_sheet_row r && to_section goes r) is_other_row movements,
        exact.1,
      )

  -- The three activities sum up to what the rows outside the cash accounts gain.
  pub net_change-gain :
      (movements before after : List AccountBalanceRow)
      → 5 * volume movements < D.limit
      → (flow_of D movements before after).net_change ≡ weigh gain is_other_row movements
  unfolding flow_of
  net_change-gain movements before after h =
      let fits : volume movements < D.limit = omega (arith, h) in
      let others = filter is_other_row movements in
      let rows = filter is_sheet_row others in
      let fewer = volume-filter is_other_row movements in
      let fewest = volume-filter is_sheet_row others in
      let in_others = λ (r : AccountBalanceRow). is_other_row r && is_income_row r in
      let n = weigh gain in_others movements in
      let o = weigh gain (in_bucket goes_operating) movements in
      let i = weigh gain (in_bucket goes_investing) movements in
      let f = weigh gain (in_bucket goes_financing) movements in
      let income : sum D (map (cash_effect D) (filter is_income_row others)) ≡ n =
        ap (λ xs. sum D (map (cash_effect D) xs))
          (filter-filter is_income_row is_other_row movements)
        ∙ (sum-weigh D _ gain (gain-IsExact D) in_others movements fits).0 in
      let nb = (sum-weigh D _ gain (gain-IsExact D) in_others movements fits).1 in
      let (oe, ob) = section_total goes_operating movements fits in
      let (ie, ib) = section_total goes_investing movements fits in
      let (fe, fb) = section_total goes_financing movements fits in
      let grown = fill_sections-Grown D rows no_sections (omega (arith, h, fewer, fewest)) in
      let op : (fill_sections D rows no_sections).operating_section.total ≡ o =
        grown.in_operating ∙ zero_plus _ ∙ oe in
      let inv : (fill_sections D rows no_sections).investing_section.total ≡ i =
        grown.in_investing ∙ zero_plus _ ∙ ie in
      let fin : (fill_sections D rows no_sections).financing_section.total ≡ f =
        grown.in_financing ∙ zero_plus _ ∙ fe in
      let b1 = abs-+ℤ n o in
      let b2 = abs-+ℤ (n +ℤ o) i in
      let s1 = add-eq D n o (omega (arith, nb, ob, h)) in
      let s2 = add-eq D (n +ℤ o) i (omega (arith, nb, ob, ib, b1, h)) in
      let s3 = add-eq D ((n +ℤ o) +ℤ i) f (omega (arith, nb, ob, ib, fb, b1, b2, h)) in
      let whole = buckets movements in
      rw (income, op, inv, fin, s1, s2, s3) (eq_of_parts _ _ (omega (int_laws, parts_of_eq whole)))
