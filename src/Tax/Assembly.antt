-- ===== src/Tax/Assembly.antt =====
-- What becomes of a taxable transaction once its taxes are known.
use accounting_api.Common.{
  ◌+◌, ◌≤◌, ◌≡◌, ◌⊎◌, inl, inr, refl, true, false, ◌||◌, List, map, All, Bool-cases, arith,
}
use accounting_api.Common.Int.{zero_plus, ℤ, pos, abs, ◌+ℤ◌, ◌-ℤ◌, ◌≤ℤ◌, abs-+ℤ, abs--ℤ}
use accounting_api.Errors.{ok, err, validation_failed}
use accounting_api.Money.{Decimals, Money, zero_money, sum, equals, is_zero, is_negative}
use accounting_api.Money.Exact.{abs-total, total, total_abs, add-eq, subtract-eq, sum-eq-total}
use accounting_api.Posting.{debit_of, credit_of}
use accounting_api.Posting.Balanced.{debits, credits}
use accounting_api.Tax.{
  TaxableTransaction, TaxBreakdownRow, TaxCalculation, settlement_of, journal_lines_of, assemble,
  calculation_of,
}
use accounting_api.Tax.Entry.{
  ppn_sum, pph_sum, bases, amounts, TaxFits, IsAllowed, tax_totals-eq, entry_lines-balanced,
  sides_abs-entry, parts_abs,
}

-- Subtotal, plus the value-added tax, less the withholding.
abbrev pub exact_settlement : TaxableTransaction → List TaxBreakdownRow → ℤ
exact_settlement input ts = total (bases input) +ℤ ppn_sum ts -ℤ pph_sum ts

positive_of : (s : ℤ) → (is_zero s || is_negative s) ≡ false → pos 1 ≤ℤ s
positive_of s h = ground arith

not_positive_of : (s : ℤ) → (is_zero s || is_negative s) ≡ true → s ≤ℤ pos 0
not_positive_of s h = ground arith

equals_of : (a b : ℤ) → a ≡ b → equals a b ≡ true
equals_of a b h = rw h (ground arith)

exact_settlement-abs :
    (input : TaxableTransaction) (ts : List TaxBreakdownRow)
    → abs (exact_settlement input ts) ≤ total_abs (bases input) + total_abs (amounts ts)
exact_settlement-abs input ts =
    let b = total (bases input) in
    omega (
      arith,
      abs--ℤ (b +ℤ ppn_sum ts) (pph_sum ts),
      abs-+ℤ b (ppn_sum ts),
      abs-total (bases input),
      parts_abs ts,
    )

module _ (D : Decimals) where
  settlement_of-eq :
      (input : TaxableTransaction) (ts : List TaxBreakdownRow)
      → TaxFits D input ts
      → settlement_of D (sum D (bases input)) ts ≡ exact_settlement input ts
  settlement_of-eq input ts fits =
      let b = total (bases input) in
      let p = ppn_sum ts in
      let q = pph_sum ts in
      let small = abs-total (bases input) in
      let parts = parts_abs ts in
      rw
        (
          tax_totals-eq D ts zero_money zero_money (omega arith),
          sum-eq-total D (bases input) (omega arith),
          zero_plus p,
          zero_plus q,
          add-eq D b p (omega arith),
        )
        (subtract-eq D (b +ℤ p) q (omega (arith, abs-+ℤ b p)))

  -- The double-entry test at the end always passes.
  journal_sums-equal :
      (input : TaxableTransaction) (ts : List TaxBreakdownRow) (s : Money)
      → All (IsAllowed input.nature) ts
      → TaxFits D input ts
      → s ≡ exact_settlement input ts
      → let journal = journal_lines_of D input ts s in
        equals (sum D (map debit_of journal)) (sum D (map credit_of journal)) ≡ true
  journal_sums-equal input ts s allowed fits is =
      let journal = journal_lines_of D input ts s in
      let account = input.settlement_account_id in
      let size = sides_abs-entry input.nature input.lines account ts s in
      let small : abs s ≤ total_abs (bases input) + total_abs (amounts ts) =
        rw is (exact_settlement-abs input ts) in
      rw
        (
          sum-eq-total D (map debit_of journal) (omega (arith, size, small)),
          sum-eq-total D (map credit_of journal) (omega (arith, size, small)),
        )
        (equals_of _ _ (entry_lines-balanced input.nature input.lines account ts s allowed is))

  -- If the taxes are of kinds that the nature allows, and the amounts fit decimal.js's precision
  -- twice, then either the settlement is not positive and the transaction is rejected for that, or
  -- there is a result whose settlement is positive and whose lines have equal sums of debits and
  -- credits: the error of an unbalanced calculation cannot occur.
  pub assemble_lem :
      (input : TaxableTransaction) (ts : List TaxBreakdownRow)
      → All (IsAllowed input.nature) ts
      → TaxFits D input ts
      → ((assemble D input (sum D (bases input)) ts
            ≡ err (validation_failed "Total withholding leaves a non-positive settlement amount"))
          × (exact_settlement input ts ≤ℤ pos 0))
        ⊎ ((r : TaxCalculation) × (assemble D input (sum D (bases input)) ts ≡ ok r)
            × (r.settlement_amount ≡ exact_settlement input ts)
            × (pos 1 ≤ℤ r.settlement_amount)
            × (debits r.journal_lines ≡ credits r.journal_lines))
  unfolding assemble
  assemble_lem input ts allowed fits =
      let s = settlement_of D (sum D (bases input)) ts in
      let is = settlement_of-eq input ts fits in
      let lines =
        entry_lines-balanced input.nature input.lines input.settlement_account_id ts s allowed is in
      let same = journal_sums-equal input ts s allowed fits is in
      elim (Bool-cases (is_zero s || is_negative s)) [
        | inl t ↦ inl (rw (assemble, t) refl, rw (← is) (not_positive_of s t))
        | inr t ↦ inr (
          calculation_of D input (sum D (bases input)) ts,
          rw (assemble, t, same) refl,
          is,
          positive_of s t,
          lines,
        )
      ]
