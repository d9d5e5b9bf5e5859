-- ===== src/Reports/Grown.antt =====
-- What the loop over the sections adds up to (src/reporting/cash-flow.service.ts).
use accounting_api.Common.{
  ℕ, ◌+◌, ◌≡◌, ◌≤◌, ◌<◌, sym, ap, ◌∙◌, Bool, true, false, List, [], ◌∷◌, Bool-cases, inl, inr,
  arith,
}
use accounting_api.Common.Int.{ℤ, pos, abs, ◌+ℤ◌, abs-+ℤ, int_laws, parts_of_eq, eq_of_parts}
use accounting_api.Money.{Decimals, is_zero}
use accounting_api.Money.Exact.{add-eq, is_zero-eq}
use accounting_api.Store.{CashFlowCategory, operating, investing, financing, no_cash_flow}
use accounting_api.Balances.{AccountBalanceRow}
use accounting_api.Reports.{ReportLine}
use accounting_api.Reports.Parts.{when, weigh, gain, gain-IsExact, volume}
use accounting_api.Reports.CashFlow.{CashSections, cash_effect, put, cash_line, fill_sections}

abbrev pub goes_operating : CashFlowCategory → Bool
goes_operating operating = true
goes_operating no_cash_flow = true
goes_operating investing = false
goes_operating financing = false

abbrev pub goes_investing : CashFlowCategory → Bool
goes_investing investing = true
goes_investing operating = false
goes_investing no_cash_flow = false
goes_investing financing = false

abbrev pub goes_financing : CashFlowCategory → Bool
goes_financing financing = true
goes_financing operating = false
goes_financing no_cash_flow = false
goes_financing investing = false

abbrev pub to_section : (CashFlowCategory → Bool) → AccountBalanceRow → Bool
to_section goes r = goes r.account.cash_flow_category

-- The three totals of the sections, and what they have grown by.
pub record Grown (s s' : CashSections) (o i f : ℤ) : Type 0 where
  pub in_operating : s'.operating_section.total ≡ s.operating_section.total +ℤ o
  pub in_investing : s'.investing_section.total ≡ s.investing_section.total +ℤ i
  pub in_financing : s'.financing_section.total ≡ s.financing_section.total +ℤ f

Grown-trans :
    {s s' s'' : CashSections} {o i f o' i' f' : ℤ}
    → Grown s s' o i f
    → Grown s' s'' o' i' f'
    → Grown s s'' (o +ℤ o') (i +ℤ i') (f +ℤ f')
Grown-trans g h = record {
  in_operating =
      eq_of_parts _ _ (omega (int_laws, parts_of_eq g.in_operating, parts_of_eq h.in_operating));
  in_investing =
      eq_of_parts _ _ (omega (int_laws, parts_of_eq g.in_investing, parts_of_eq h.in_investing));
  in_financing =
      eq_of_parts _ _ (omega (int_laws, parts_of_eq g.in_financing, parts_of_eq h.in_financing));
}

zero_first : (b : Bool) (z : ℤ) → z ≡ when b (pos 0) +ℤ z
zero_first true z = omega int_laws
zero_first false z = omega int_laws

Grown-zero :
    {s s' : CashSections} {o i f : ℤ} (a b c : Bool)
    → Grown s s' o i f
    → Grown s s' (when a (pos 0) +ℤ o) (when b (pos 0) +ℤ i) (when c (pos 0) +ℤ f)
Grown-zero {s} {s'} {o} {i} {f} a b c g = record {
  in_operating = g.in_operating ∙ ap (λ z. s.operating_section.total +ℤ z) (zero_first a o);
  in_investing = g.in_investing ∙ ap (λ z. s.investing_section.total +ℤ z) (zero_first b i);
  in_financing = g.in_financing ∙ ap (λ z. s.financing_section.total +ℤ z) (zero_first c f);
}

abbrev pub size : CashSections → ℕ
size s =
    abs s.operating_section.total + abs s.investing_section.total + abs s.financing_section.total

module _ (D : Decimals) where
  put-Grown :
      (c : CashFlowCategory) (line : ReportLine) (s : CashSections)
      → size s + abs line.amount < D.limit
      → Grown s
          (put D c line s)
          (when (goes_operating c) line.amount)
          (when (goes_investing c) line.amount)
          (when (goes_financing c) line.amount)
  put-Grown operating line s h = record {
    in_operating = add-eq D s.operating_section.total line.amount (omega (arith, h));
    in_investing = omega int_laws;
    in_financing = omega int_laws;
  }
  put-Grown no_cash_flow line s h = record {
    in_operating = add-eq D s.operating_section.total line.amount (omega (arith, h));
    in_investing = omega int_laws;
    in_financing = omega int_laws;
  }
  put-Grown investing line s h = record {
    in_operating = omega int_laws;
    in_investing = add-eq D s.investing_section.total line.amount (omega (arith, h));
    in_financing = omega int_laws;
  }
  put-Grown financing line s h = record {
    in_operating = omega int_laws;
    in_investing = omega int_laws;
    in_financing = add-eq D s.financing_section.total line.amount (omega (arith, h));
  }

  size-put :
      (c : CashFlowCategory) (line : ReportLine) (s : CashSections)
      → size s + abs line.amount < D.limit
      → size (put D c line s) ≤ size s + abs line.amount
  size-put operating line s h =
      let bound = abs-+ℤ s.operating_section.total line.amount in
      rw (add-eq D s.operating_section.total line.amount (omega (arith, h))) (omega (arith, bound))
  size-put no_cash_flow line s h =
      let bound = abs-+ℤ s.operating_section.total line.amount in
      rw (add-eq D s.operating_section.total line.amount (omega (arith, h))) (omega (arith, bound))
  size-put investing line s h =
      let bound = abs-+ℤ s.investing_section.total line.amount in
      rw (add-eq D s.investing_section.total line.amount (omega (arith, h))) (omega (arith, bound))
  size-put financing line s h =
      let bound = abs-+ℤ s.financing_section.total line.amount in
      rw (add-eq D s.financing_section.total line.amount (omega (arith, h))) (omega (arith, bound))

  pub fill_sections-Grown :
      (rows : List AccountBalanceRow) (s : CashSections)
      → size s + volume rows < D.limit
      → Grown s
          (fill_sections D rows s)
          (weigh gain (to_section goes_operating) rows)
          (weigh gain (to_section goes_investing) rows)
          (weigh gain (to_section goes_financing) rows)
  unfolding fill_sections weigh volume
  fill_sections-Grown [] s h = record {
    in_operating = omega int_laws;
    in_investing = omega int_laws;
    in_financing = omega int_laws;
  }
  fill_sections-Grown (r ∷ rows) s h =
      let c = r.account.cash_flow_category in
      let amount_is : cash_effect D r ≡ gain r = (gain-IsExact D).agrees r (omega (arith, h)) in
      let small : abs (gain r) ≤ abs r.debit + abs r.credit = (gain-IsExact D).small r in
      let small' : abs (cash_effect D r) ≤ abs r.debit + abs r.credit = rw amount_is small in
      elim (Bool-cases (is_zero (cash_effect D r))) [
        | inl zero ↦
            let nothing : gain r ≡ pos 0 = sym amount_is ∙ is_zero-eq (cash_effect D r) zero in
            let rest = fill_sections-Grown rows s (omega (arith, h)) in
            rw (zero, nothing)
              (Grown-zero (goes_operating c) (goes_investing c) (goes_financing c) rest)
        | inr some_amount ↦
            let line = cash_line D r in
            let fits : size s + abs (cash_effect D r) < D.limit = omega (arith, h, small') in
            let larger = size-put c line s fits in
            let rest =
              fill_sections-Grown rows (put D c line s) (omega (arith, h, larger, small')) in
            rw (some_amount, ← amount_is) (Grown-trans (put-Grown c line s fits) rest)
      ]
