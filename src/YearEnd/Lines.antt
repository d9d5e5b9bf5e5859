-- ===== src/YearEnd/Lines.antt =====
-- The lines of a closing entry.
use accounting_api.Common.{
  ℕ, ◌+◌, ◌<◌, ◌≤◌, ◌≡◌, ◌≢◌, sym, subst, ◌∙◌, ◌⊎◌, inl, inr, refl, List, [], ◌∷◌, ◌++◌, map, All,
  All-append, arith, find, Bool-cases, length,
}
use accounting_api.Common.Int.{
  ℤ, pos, negsuc, abs, ◌+ℤ◌, ◌-ℤ◌, ◌*ℤ◌, int_laws, parts_of_eq, eq_of_parts, abs--ℤ,
}
use accounting_api.Errors.{ok, or_throw, validation_failed, ok-injective, >>=-eq-ok}
use accounting_api.Money.{Decimals, Money, zero_money, is_zero, is_negative}
use accounting_api.Money.Exact.{total_abs, subtract-eq, is_zero-eq}
use accounting_api.Store.{Db, Account}
use accounting_api.Journal.Opening.{negated_add, abs-negated, multiply-negated}
use accounting_api.Posting.{PostLineInput, debit_of, credit_of, assert_balanced}
use accounting_api.Posting.Balanced.{
  debits, credits, debits-append, credits-append, OneSided, Fits, assert_balanced_iff,
}
use accounting_api.Balances.{AccountBalanceRow}
use accounting_api.YearEnd.{is_retained_earnings, signed_line, closing_loop, with_retained_earnings}

-- The absolute amounts of the rows and of the lines.
abbrev pub rows_size : List AccountBalanceRow → ℕ
rows_size rs = total_abs (map (λ r. r.debit) rs) + total_abs (map (λ r. r.credit) rs)

abbrev lines_size : List PostLineInput → ℕ
lines_size ls = total_abs (map debit_of ls) + total_abs (map credit_of ls)

-- A line that posts `amount`: its credit less its debit.
pub record Posts (amount : Money) (l : PostLineInput) : Type 0 where
  pub posts : debit_of l +ℤ amount ≡ credit_of l
  pub one_sided : amount ≢ pos 0 → OneSided l
  pub size : abs (debit_of l) + abs (credit_of l) ≡ abs amount

one_sided_debit :
    (x y : ℤ)
    → abs x ≡ abs y
    → y ≢ pos 0
    → ((x ≢ pos 0) × (pos 0 ≡ pos 0)) ⊎ ((x ≡ pos 0) × (pos 0 ≢ pos 0))
one_sided_debit x y h n = ground arith

module _ (D : Decimals) where
  pub signed_line-Posts :
      (account_id : ℕ) (amount : Money)
      → abs amount < D.limit
      → Posts amount (signed_line D account_id amount)
  unfolding signed_line
  signed_line-Posts account_id amount h = elim (Bool-cases (is_negative amount)) [
    | inl neg ↦
        rw (neg, multiply-negated D amount h)
          (record {
            posts = omega (int_laws, parts_of_eq (negated_add amount));
            one_sided = one_sided_debit (amount *ℤ negsuc 0) amount (abs-negated amount);
            size = omega (arith, abs-negated amount);
          })
    | inr positive ↦
        rw positive
          (record { posts = omega int_laws; one_sided = λ n. inr (refl, n); size = omega arith })
  ]

  -- What the loop makes of the rows, from the net income `net` on.
  record IsSwept (rs : List AccountBalanceRow) (net : Money) (p : List PostLineInput × Money)
      : Type 0 where
    pub sums : debits p.0 +ℤ net ≡ credits p.0 +ℤ p.1
    pub one_sided : All OneSided p.0
    pub lines_fit : lines_size p.0 ≤ rows_size rs
    pub net_fits : abs p.1 ≤ abs net + rows_size rs

  closing_loop-IsSwept :
      (rs : List AccountBalanceRow) (net : Money)
      → abs net + rows_size rs < D.limit
      → IsSwept rs net (closing_loop D rs net)
  unfolding closing_loop
  closing_loop-IsSwept [] net h = record {
    sums = refl;
    one_sided = tt;
    lines_fit = omega arith;
    net_fits = omega arith;
  }
  closing_loop-IsSwept (r ∷ rs) net h =
      let d = r.debit in
      let c = r.credit in
      let same = subtract-eq D d c (omega arith) in
      let small = abs--ℤ d c in
      elim (Bool-cases (is_zero (d -ℤ c))) [
        | inl zero ↦
            let ih = closing_loop-IsSwept rs net (omega arith) in
            rw (same, zero)
              (record {
                sums = ih.sums;
                one_sided = ih.one_sided;
                lines_fit = omega (arith, ih.lines_fit);
                net_fits = omega (arith, ih.net_fits);
              })
        | inr some_amount ↦
            let net' = net -ℤ (d -ℤ c) in
            let step = subtract-eq D net (d -ℤ c) (omega (arith, small)) in
            let ih = closing_loop-IsSwept rs net' (omega (arith, small, abs--ℤ net (d -ℤ c))) in
            let line = signed_line-Posts r.account.id (d -ℤ c) (omega (arith, small)) in
            let nonzero : (d -ℤ c) ≢ pos 0 = λ z. ground (arith, z) in
            rw (same, some_amount, step)
              (record {
                sums =
                    eq_of_parts _ _ (omega (int_laws, parts_of_eq line.posts, parts_of_eq ih.sums));
                one_sided = (line.one_sided nonzero, ih.one_sided);
                lines_fit = omega (arith, ih.lines_fit, line.size, small);
                net_fits = omega (arith, ih.net_fits, small, abs--ℤ net (d -ℤ c));
              })
      ]

  lines_size-append :
      (xs ys : List PostLineInput) → lines_size (xs ++ ys) ≡ lines_size xs + lines_size ys
  lines_size-append [] ys = omega arith
  lines_size-append (x ∷ xs) ys = omega (arith, lines_size-append xs ys)

  -- One line alone moves the net income.
  two_lines :
      (ls : List PostLineInput) → ls ≢ [] → All OneSided ls → debits ls ≡ credits ls → 2 ≤ length ls
  two_lines [] some_line one_sided same = absurd (some_line refl)
  two_lines (l ∷ []) some_line one_sided same =
      let eq : debit_of l ≡ credit_of l = eq_of_parts _ _ (omega (int_laws, parts_of_eq same)) in
      elim one_sided.0 [
        | inl (some_debit, no_credit) ↦ absurd (some_debit (eq ∙ no_credit))
        | inr (no_debit, some_credit) ↦ absurd (some_credit (sym eq ∙ no_debit))
      ]
  two_lines (l ∷ (m ∷ ls)) some_line one_sided same = omega arith

  length-two : (ls : List PostLineInput) (l : PostLineInput) → ls ≢ [] → 2 ≤ length (ls ++ (l ∷ []))
  length-two [] l some_line = absurd (some_line refl)
  length-two (m ∷ []) l some_line = omega arith
  length-two (m ∷ (n ∷ ls)) l some_line = omega arith

  -- The lines that are posted, from those of the loop: their net income goes to one line more.
  retained-balanced :
      (rs : List AccountBalanceRow) (p : List PostLineInput × Money) (db : Db)
      (lines : List PostLineInput)
      → rows_size rs + rows_size rs < D.limit
      → IsSwept rs zero_money p
      → p.0 ≢ []
      → with_retained_earnings D p.0 p.1 db ≡ ok lines
      → assert_balanced D lines ≡ ok tt
  unfolding with_retained_earnings
  retained-balanced rs p db lines fits swept some_line h = elim (Bool-cases (is_zero p.1)) [
    | inl zero ↦
        let e : p.0 ≡ lines = ok-injective (rw zero at h) in
        let same : debits p.0 ≡ credits p.0 =
          eq_of_parts _ _
            (omega (int_laws, parts_of_eq swept.sums, parts_of_eq (is_zero-eq p.1 zero))) in
        subst (λ ls. assert_balanced D ls ≡ ok tt) e
          ((assert_balanced_iff D p.0 (omega (arith, swept.lines_fit))).1
            (two_lines p.0 some_line swept.one_sided same, swept.one_sided, same))
    | inr income ↦
        let (retained, found, same) =
          >>=-eq-ok {T = Account}
            (or_throw (find is_retained_earnings db.accounts)
              (validation_failed "Laba Ditahan account missing from chart"))
            _ (rw income at h) in
        let line = signed_line D retained.id p.1 in
        let e : p.0 ++ (line ∷ []) ≡ lines = ok-injective same in
        let posts = signed_line-Posts retained.id p.1 (omega (arith, swept.net_fits)) in
        let nonzero : p.1 ≢ pos 0 = λ z. ground (arith, z) in
        let all =
          All-append OneSided p.0 (line ∷ []) swept.one_sided (posts.one_sided nonzero, tt) in
        let balanced : debits (p.0 ++ (line ∷ [])) ≡ credits (p.0 ++ (line ∷ [])) =
          debits-append p.0 (line ∷ [])
          ∙ eq_of_parts _ _ (omega (int_laws, parts_of_eq posts.posts, parts_of_eq swept.sums))
          ∙ sym (credits-append p.0 (line ∷ [])) in
        let size : Fits D (p.0 ++ (line ∷ [])) =
          omega (
            arith,
            lines_size-append p.0 (line ∷ []),
            swept.lines_fit,
            swept.net_fits,
            posts.size,
          ) in
        subst (λ ls. assert_balanced D ls ≡ ok tt) e
          ((assert_balanced_iff D (p.0 ++ (line ∷ [])) size).1
            (length-two p.0 line some_line, all, balanced))
  ]

  -- If twice the absolute amounts of the rows fit decimal.js's precision and the loop leaves a line,
  -- the lines of the closing entry, with the one on retained earnings, pass the balance check.
  pub closing_lines-balanced :
      (rs : List AccountBalanceRow) (db : Db) (lines : List PostLineInput)
      → rows_size rs + rows_size rs < D.limit
      → (closing_loop D rs zero_money).0 ≢ []
      → with_retained_earnings D
          (closing_loop D rs zero_money).0
          (closing_loop D rs zero_money).1
          db
        ≡ ok lines
      → assert_balanced D lines ≡ ok tt
  closing_lines-balanced rs db lines fits =
      retained-balanced rs (closing_loop D rs zero_money) db lines fits
        (closing_loop-IsSwept rs zero_money (omega arith))
