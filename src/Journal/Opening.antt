-- ===== src/Journal/Opening.antt =====
-- The plug of the opening balances.
use accounting_api.Common.{
  ℕ, ◌+◌, ◌<◌, ap₂, ◌≡◌, sym, ◌∙◌, List, [], ◌∷◌, map, arith, Bool-cases, inl, inr,
}
use accounting_api.Common.Int.{
  plus_zero, plus_assoc, ℤ, pos, negsuc, abs, ◌+ℤ◌, ◌-ℤ◌, ◌*ℤ◌, int_laws, parts_of_eq, eq_of_parts,
  abs-+ℤ, abs--ℤ,
}
use accounting_api.Money.{Decimals, Money, zero_money, subtract, multiply, is_zero, is_negative}
use accounting_api.Money.Exact.{
  abs-total, is_zero-eq, total_abs, add-eq, subtract-eq, new_money-zero,
}
use accounting_api.Posting.{PostLineInput, debit_of, credit_of}
use accounting_api.Posting.Balanced.{debits-append, credits-append, debits, credits, Fits}
use accounting_api.Journal.{opening_totals, plug, opening_lines}

pub negated_add : (d : ℤ) → d +ℤ (d *ℤ negsuc 0) ≡ pos 0
unfolding ◌+ℤ◌ ◌*ℤ◌
negated_add d = ground arith

pub abs-negated : (d : ℤ) → abs (d *ℤ negsuc 0) ≡ abs d
unfolding ◌*ℤ◌
abs-negated d = ground arith

balance : (d c x y : ℤ) → x +ℤ (d -ℤ c) ≡ y → d +ℤ x ≡ c +ℤ y
balance d c x y h = eq_of_parts _ _ (omega (int_laws, parts_of_eq h))

module _ (D : Decimals) where
  pub multiply-negated : (d : Money) → abs d < D.limit → multiply D d (negsuc 0) 0 ≡ d *ℤ negsuc 0
  unfolding multiply
  multiply-negated d h =
      new_money-zero D (D.times d (negsuc 0))
      ∙ D.times_exact d (negsuc 0) (omega (arith, abs-negated d))

  opening_totals-eq :
      (bs : List PostLineInput) (debit credit : Money)
      → abs debit + abs credit + (total_abs (map debit_of bs) + total_abs (map credit_of bs))
        < D.limit
      → opening_totals D bs debit credit ≡ (debit +ℤ debits bs, credit +ℤ credits bs)
  unfolding opening_totals
  opening_totals-eq [] debit credit h =
      ap₂ (λ x y. (x, y)) (sym (plus_zero debit)) (sym (plus_zero credit))
  opening_totals-eq (b ∷ bs) debit credit h =
      let d = debit_of b in
      let c = credit_of b in
      rw (add-eq D debit d (omega arith), add-eq D credit c (omega arith))
        (opening_totals-eq bs (debit +ℤ d) (credit +ℤ c)
            (omega (arith, abs-+ℤ debit d, abs-+ℤ credit c))
          ∙ ap₂ (λ x y. (x, y)) (plus_assoc debit d (debits bs)) (plus_assoc credit c (credits bs)))

  plug-eq :
      (equity_id : ℕ) (diff : Money)
      → abs diff < D.limit
      → debits (plug D equity_id diff) +ℤ diff ≡ credits (plug D equity_id diff)
  unfolding plug
  plug-eq equity_id diff h = elim (Bool-cases (is_zero diff)) [
    | inl zero ↦ rw (zero, is_zero-eq diff zero) (omega int_laws)
    | inr some_amount ↦ elim (Bool-cases (is_negative diff)) [
      | inl neg ↦
          rw (some_amount, neg, multiply-negated diff h)
            (omega (int_laws, parts_of_eq (negated_add diff)))
      | inr positive ↦ rw (some_amount, positive) (omega int_laws)
    ]
  ]

  -- While the amounts fit decimal.js's precision, opening balances with their plug on Opening Balance
  -- Equity have equal exact sums of debits and credits, whatever the balances.
  pub opening_lines-balanced :
      (equity_id : ℕ) (balances : List PostLineInput)
      → Fits D balances
      → debits (opening_lines D equity_id balances) ≡ credits (opening_lines D equity_id balances)
  unfolding opening_lines
  opening_lines-balanced equity_id balances fits =
      let d = debits balances in
      let c = credits balances in
      let totals = opening_totals-eq balances zero_money zero_money (omega arith) in
      let zd : pos 0 +ℤ d ≡ d = omega int_laws in
      let zc : pos 0 +ℤ c ≡ c = omega int_laws in
      let bound : abs d + abs c < D.limit =
        omega (arith, abs-total (map debit_of balances), abs-total (map credit_of balances)) in
      let diff : subtract D (opening_totals D balances zero_money zero_money).0
            (opening_totals D balances zero_money zero_money).1
          ≡ d -ℤ c =
        rw (totals, zd, zc) (subtract-eq D d c bound) in
      let step = plug-eq equity_id (d -ℤ c) (omega (arith, abs--ℤ d c)) in
      rw diff (
        debits-append balances (plug D equity_id (d -ℤ c))
        ∙ balance d c (debits (plug D equity_id (d -ℤ c))) (credits (plug D equity_id (d -ℤ c)))
            step
        ∙ sym (credits-append balances (plug D equity_id (d -ℤ c))))
