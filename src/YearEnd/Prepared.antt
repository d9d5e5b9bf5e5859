-- ===== src/YearEnd/Prepared.antt =====
-- What a prepared close posts to the accounts that it does not take the earnings to.
use accounting_api.Common.{
  ℕ, ◌+◌, ◌≡◌, sym, subst, ap, ◌∙◌, inl, inr, refl, List, [], ◌∷◌, ◌++◌, find, Bool-cases, false,
  some, none, ◌==◌,
}
use accounting_api.Common.Int.{int_laws}
use accounting_api.Errors.{ok, >>=-eq-ok, ok-injective, or_throw, or_throw-eq-ok, validation_failed}
use accounting_api.Money.{Decimals, Money, is_zero}
use accounting_api.Dates.{Date}
use accounting_api.Store.{Db, Account, JournalLine}
use accounting_api.Posting.{PostLineInput, PostEntryInput, PreparedPosting, prepare_posting}
use accounting_api.Posting.Write.{stored_lines}
use accounting_api.Posting.Prepared.{prepare_posting-IsPrepared}
use accounting_api.Balances.{sum_debit, sum_credit}
use accounting_api.YearEnd.{
  signed_line, with_retained_earnings, is_retained_earnings, prepare_swept, closing_input,
}
use accounting_api.YearEnd.Zeroed.{signed_line-account_id}

-- A line on another account changes no sum.
stored_lines-other :
    (id n : ℕ) (ls : List PostLineInput) (l : PostLineInput)
    → (l.account_id == id) ≡ false
    → (sum_debit id (stored_lines n (ls ++ (l ∷ []))) ≡ sum_debit id (stored_lines n ls))
      × (sum_credit id (stored_lines n (ls ++ (l ∷ []))) ≡ sum_credit id (stored_lines n ls))
unfolding stored_lines sum_debit sum_credit
stored_lines-other id n [] l other = rw other (omega int_laws, omega int_laws)
stored_lines-other id n (x ∷ ls) l other =
    let ih = stored_lines-other id (n + 1) ls l other in rw (ih.0, ih.1) (refl, refl)

-- Whether the lines post the same to an account.
pub record SameSums (id : ℕ) (xs ys : List JournalLine) : Type 0 where
  pub debit_same : sum_debit id xs ≡ sum_debit id ys
  pub credit_same : sum_credit id xs ≡ sum_credit id ys

module _ (D : Decimals) (id : ℕ) (db : Db)
    (other : (r : Account)
      → find is_retained_earnings db.accounts ≡ some r
      → (r.id == id) ≡ false) where
  -- The line on retained earnings leaves the other accounts alone.
  retained-SameSums :
      (ls lines : List PostLineInput) (net : Money)
      → with_retained_earnings D ls net db ≡ ok lines
      → SameSums id (stored_lines 1 lines) (stored_lines 1 ls)
  unfolding with_retained_earnings
  retained-SameSums ls lines net h = elim (Bool-cases (is_zero net)) [
    | inl zero ↦
        let e : ls ≡ lines = ok-injective (rw zero at h) in
        subst (λ x. SameSums id (stored_lines 1 x) (stored_lines 1 ls)) e
          (record { debit_same = refl; credit_same = refl })
    | inr income ↦
        let (r, found, h1) =
          >>=-eq-ok {T = Account}
            (or_throw (find is_retained_earnings db.accounts)
              (validation_failed "Laba Ditahan account missing from chart"))
            _ (rw income at h) in
        let line = signed_line D r.id net in
        let e : ls ++ (line ∷ []) ≡ lines = ok-injective h1 in
        let off : (line.account_id == id) ≡ false =
          rw (signed_line-account_id D r.id net) (other r (or_throw-eq-ok _ _ found)) in
        let same = stored_lines-other id 1 ls line off in
        subst (λ x. SameSums id (stored_lines 1 x) (stored_lines 1 ls)) e
          (record { debit_same = same.0; credit_same = same.1 })
  ]

  -- What was prepared: lines that follow those of the loop.
  pub prepare_swept-SameSums :
      (fy by : ℕ) (year_end : Date) (ls : List PostLineInput) (net : Money)
      (q : PreparedPosting × Money)
      → prepare_swept D fy by year_end ls net db ≡ ok (some q)
      → (q.0.input.date ≡ year_end)
        × SameSums id (stored_lines 1 q.0.input.lines) (stored_lines 1 ls)
  unfolding prepare_swept
  prepare_swept-SameSums fy by year_end [] net q h = cc
  prepare_swept-SameSums fy by year_end (l ∷ ls) net q h =
      let (lines, hl, h1) = >>=-eq-ok (with_retained_earnings D (l ∷ ls) net db) _ h in
      let input = closing_input fy by year_end lines in
      let (p, hp, h2) = >>=-eq-ok (prepare_posting D input by db) _ h1 in
      let e : p ≡ q.0 = ok_some-first p q net h2 in
      let is =
        sym (ap (λ (x : PreparedPosting). x.input) e)
        ∙ (prepare_posting-IsPrepared D input by db p hp).input_is in
      (
        ap (λ (x : PostEntryInput). x.date) is,
        subst (λ x. SameSums id (stored_lines 1 x) (stored_lines 1 (l ∷ ls)))
            (sym (ap (λ (x : PostEntryInput). x.lines) is))
            (retained-SameSums (l ∷ ls) lines net hl),
      )
    where
      ok_some-first :
          (p : PreparedPosting) (q : PreparedPosting × Money) (net : Money)
          → ok (some (p, net)) ≡ ok (some q)
          → p ≡ q.0
      ok_some-first p q net e = cc

  -- An empty year has no line.
  pub prepare_swept-none :
      (fy by : ℕ) (year_end : Date) (ls : List PostLineInput) (net : Money)
      → prepare_swept D fy by year_end ls net db ≡ ok none
      → ls ≡ []
  unfolding prepare_swept
  prepare_swept-none fy by year_end [] net h = refl
  prepare_swept-none fy by year_end (l ∷ ls) net h =
      let (lines, hl, h1) = >>=-eq-ok (with_retained_earnings D (l ∷ ls) net db) _ h in
      let (p, hp, h2) =
        >>=-eq-ok (prepare_posting D (closing_input fy by year_end lines) by db) _ h1 in
      cc
