-- ===== src/Posting/Balanced.antt =====
-- What `assertBalanced` accepts.
use accounting_api.Common.{
  ◌+◌, ◌≤◌, ◌<◌, ◌≡◌, ◌≢◌, ◌↔◌, ◌⊎◌, inl, inr, refl, List, [], ◌∷◌, ◌++◌, map, length, All, true,
  false, Bool, not, arith, ltb, Bool-cases, not-false, ap,
}
use accounting_api.Common.Int.{ℤ, pos, abs, ◌+ℤ◌, eq_of_parts, int_laws, parts_of_eq, abs-+ℤ}
use accounting_api.Errors.{DomainError, ok, throw_if, unbalanced_entry}
use accounting_api.Money.{Decimals, Money, zero_money, is_zero, equals}
use accounting_api.Money.Exact.{total, total_abs, add-eq}
use accounting_api.Posting.{
  PostLineInput, debit_of, credit_of, has_one_side, check_lines, assert_balanced,
}

abbrev pub debits : List PostLineInput → ℤ
debits ls = total (map debit_of ls)

abbrev pub credits : List PostLineInput → ℤ
credits ls = total (map credit_of ls)

pub debits-append : (xs ys : List PostLineInput) → debits (xs ++ ys) ≡ debits xs +ℤ debits ys
debits-append [] ys = omega int_laws
debits-append (x ∷ xs) ys = eq_of_parts _ _ (omega (int_laws, parts_of_eq (debits-append xs ys)))

pub credits-append : (xs ys : List PostLineInput) → credits (xs ++ ys) ≡ credits xs +ℤ credits ys
credits-append [] ys = omega int_laws
credits-append (x ∷ xs) ys = eq_of_parts _ _ (omega (int_laws, parts_of_eq (credits-append xs ys)))

-- The amounts add up to less than decimal.js's precision holds.
abbrev pub Fits : Decimals → List PostLineInput → Type 0
Fits D ls = total_abs (map debit_of ls) + total_abs (map credit_of ls) < D.limit

-- Exactly one of the two amounts is not zero.
abbrev pub OneSided : PostLineInput → Type 0
OneSided l =
    ((debit_of l ≢ pos 0) × (credit_of l ≡ pos 0)) ⊎ ((debit_of l ≡ pos 0) × (credit_of l ≢ pos 0))

is_zero_iff : (a : ℤ) → (is_zero a ≡ true) ↔ (a ≡ pos 0)
is_zero_iff a = ground arith

equals_iff : (a b : ℤ) → (equals a b ≡ true) ↔ (a ≡ b)
equals_iff a b = (λ h. ground (arith, eq_of_parts a b), λ h. rw h (ground arith))

has_one_side_iff : (l : PostLineInput) → (has_one_side l ≡ true) ↔ OneSided l
unfolding has_one_side
has_one_side_iff l = ground (arith, is_zero_iff (debit_of l), is_zero_iff (credit_of l))

throw_if_iff : (c : Bool) (e : DomainError) → (throw_if c e ≡ ok tt) ↔ (c ≡ false)
throw_if_iff true e = (λ h. cc, λ h. cc)
throw_if_iff false e = (λ h. refl, λ h. refl)

module _ (D : Decimals) where
  check_lines_iff :
      (ls : List PostLineInput) (debit credit : Money)
      → abs debit + abs credit + (total_abs (map debit_of ls) + total_abs (map credit_of ls))
        < D.limit
      → (check_lines D ls debit credit ≡ ok tt)
        ↔ (All OneSided ls × (debit +ℤ debits ls ≡ credit +ℤ credits ls))
  unfolding check_lines
  check_lines_iff [] debit credit h =
      let test =
        throw_if_iff (not (equals debit credit))
          (unbalanced_entry "Total debits must equal total credits") in
      let same = equals_iff debit credit in
      (
        λ e. (tt, ap (λ x. x +ℤ pos 0) (same.0 (not-false _ (test.0 e)))),
        λ p.
            let eq = same.1 (eq_of_parts debit credit (omega (int_laws, parts_of_eq p.1))) in
            test.1 (ap not eq),
      )
  check_lines_iff (l ∷ ls) debit credit h =
      let d = debit_of l in
      let c = credit_of l in
      let ih =
        check_lines_iff ls (debit +ℤ d) (credit +ℤ c)
          (omega (arith, abs-+ℤ debit d, abs-+ℤ credit c)) in
      elim (Bool-cases (has_one_side l)) [
        | inl one ↦
            rw (one, add-eq D debit d (omega arith), add-eq D credit c (omega arith))
              (
                λ e. (
                  ((has_one_side_iff l).0 one, (ih.0 e).0),
                  eq_of_parts _ _ (omega (int_laws, parts_of_eq (ih.0 e).1)),
                ),
                λ p. ih.1 (p.0.1, eq_of_parts _ _ (omega (int_laws, parts_of_eq p.1))),
              )
        | inr two ↦ rw two (λ e. cc, λ p. cc ((has_one_side_iff l).1 p.0.0))
      ]

  -- While the amounts fit the precision, a list of lines passes just when it has at least two lines,
  -- each with exactly one non-zero amount, and its debits and credits have the same exact sum.
  pub assert_balanced_iff :
      (lines : List PostLineInput)
      → Fits D lines
      → (assert_balanced D lines ≡ ok tt)
        ↔ ((2 ≤ length lines) × All OneSided lines × (debits lines ≡ credits lines))
  unfolding assert_balanced
  assert_balanced_iff lines fits =
      let both = check_lines_iff lines zero_money zero_money (omega arith) in
      elim (Bool-cases (ltb (length lines) 2)) [
        | inl short ↦ rw short (λ e. cc, λ p. absurd (ground arith))
        | inr enough ↦ rw enough (
          λ e. (
            ground arith,
            (both.0 e).0,
            eq_of_parts _ _ (omega (int_laws, parts_of_eq (both.0 e).1)),
          ),
          λ p. both.1 (p.1, eq_of_parts _ _ (omega (int_laws, parts_of_eq p.2))),
        )
      ]
