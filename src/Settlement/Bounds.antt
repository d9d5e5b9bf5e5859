-- ===== src/Settlement/Bounds.antt =====
-- How far a document can be paid, over all the allocations of a payment and its voiding.
use accounting_api.Common.{
  ℕ, ◌≡◌, refl, List, [], ◌∷◌, update_first, All, All-find, All-update_found,
}
use accounting_api.Common.Int.{pos, ◌+ℤ◌, ◌≤ℤ◌, int_laws}
use accounting_api.Errors.{ok, >>=-eq-ok}
use accounting_api.Money.{Decimals, Money}
use accounting_api.Settlement.{
  Document, Documents, AllocationInput, PaymentDirection, receipt, disbursement, increment,
  decrement, paid_by, Sign, document_by_id, payment_targets, settle_in_tx, unwind_in_tx, settle_all,
  unwind_all,
}
use accounting_api.Settlement.Outstanding.{
  IsWithinTotal, IsAmount, table_of, exceeds_outstanding_iff, floor-le, settle_in_tx-Settled,
  unwind_in_tx-Unwound,
}

-- The table of the direction takes the payment.
pub table_of-apply_paid :
    (direction : PaymentDirection) (id : ℕ) (amount : Money) (sign : Sign) (ds : Documents)
    → table_of direction ((payment_targets direction).apply_paid id amount sign ds)
      ≡ update_first (document_by_id id) (paid_by amount sign) (table_of direction ds)
unfolding payment_targets
table_of-apply_paid receipt id amount sign ds = refl
table_of-apply_paid disbursement id amount sign ds = refl

module _ (D : Decimals) where
  pub within-increment :
      (d : Document) (amount : Money)
      → IsWithinTotal D d
      → pos 0 ≤ℤ amount
      → d.amount_paid +ℤ amount ≤ℤ d.total
      → IsWithinTotal D (paid_by amount increment d)
  unfolding paid_by
  within-increment d amount w least le =
      let paid = w.paid_least in
      record { paid_least = omega int_laws; paid_most = le; total_fits = w.total_fits }

  within-decrement :
      (d : Document) (amount : Money)
      → IsWithinTotal D d
      → pos 0 ≤ℤ amount
      → amount ≤ℤ d.amount_paid
      → IsWithinTotal D (paid_by amount decrement d)
  unfolding paid_by
  within-decrement d amount w least le =
      let most = w.paid_most in
      record { paid_least = omega int_laws; paid_most = omega int_laws; total_fits = w.total_fits }

  settle_in_tx-IsWithinTotal :
      (direction : PaymentDirection) (a : AllocationInput) (partner_id : ℕ) (ds ds' : Documents)
      → IsAmount D a
      → All (IsWithinTotal D) (table_of direction ds)
      → settle_in_tx D (payment_targets direction) a partner_id ds ≡ ok ds'
      → All (IsWithinTotal D) (table_of direction ds')
  settle_in_tx-IsWithinTotal direction a partner_id ds ds' amount all h =
      let s = settle_in_tx-Settled D direction a partner_id ds ds' h in
      let w = All-find (IsWithinTotal D) _ _ _ all s.found in
      let le = (exceeds_outstanding_iff D s.row a.amount w amount.0 amount.1).0 s.outstanding in
      rw (s.after, table_of-apply_paid direction s.id a.amount increment ds)
        (All-update_found (IsWithinTotal D) _ _ s.row _ s.found
          (within-increment s.row a.amount w amount.0 le) all)

  unwind_in_tx-IsWithinTotal :
      (direction : PaymentDirection) (a : AllocationInput) (ds ds' : Documents)
      → IsAmount D a
      → All (IsWithinTotal D) (table_of direction ds)
      → unwind_in_tx D (payment_targets direction) a ds ≡ ok ds'
      → All (IsWithinTotal D) (table_of direction ds')
  unwind_in_tx-IsWithinTotal direction a ds ds' amount all h =
      let s = unwind_in_tx-Unwound D direction a ds ds' h in
      let w = All-find (IsWithinTotal D) _ _ _ all s.found in
      let le = (floor-le D s.row a.amount w amount.0 amount.1).0 s.floor in
      rw (s.after, table_of-apply_paid direction s.id a.amount decrement ds)
        (All-update_found (IsWithinTotal D) _ _ s.row _ s.found
          (within-decrement s.row a.amount w amount.0 le) all)

  -- If each document of the direction has been paid between nothing and its total, and the totals
  -- and the amounts, which are not negative, fit decimal.js's precision, then each document is
  -- still paid between nothing and its total after a payment's allocations are settled, repeated
  -- allocations to one document included.
  pub settle_all-IsWithinTotal :
      (direction : PaymentDirection) (allocations : List AllocationInput) (partner_id : ℕ)
      (ds ds' : Documents)
      → All (IsAmount D) allocations
      → All (IsWithinTotal D) (table_of direction ds)
      → settle_all D (payment_targets direction) allocations partner_id ds ≡ ok ds'
      → All (IsWithinTotal D) (table_of direction ds')
  unfolding settle_all
  settle_all-IsWithinTotal direction [] partner_id ds ds' amounts all h =
      let e : ds ≡ ds' = cc in rw (← e) all
  settle_all-IsWithinTotal direction (a ∷ allocations) partner_id ds ds' amounts all h =
      let (ds1, h1, h2) =
        >>=-eq-ok (settle_in_tx D (payment_targets direction) a partner_id ds) _ h in
      let all1 = settle_in_tx-IsWithinTotal direction a partner_id ds ds1 amounts.0 all h1 in
      settle_all-IsWithinTotal direction allocations partner_id ds1 ds' amounts.1 all1 h2

  -- If each document of the direction has been paid between nothing and its total, and the totals
  -- and the amounts, which are not negative, fit decimal.js's precision, then each document is
  -- still paid between nothing and its total after the allocations of a voided payment are unwound.
  pub unwind_all-IsWithinTotal :
      (direction : PaymentDirection) (allocations : List AllocationInput) (ds ds' : Documents)
      → All (IsAmount D) allocations
      → All (IsWithinTotal D) (table_of direction ds)
      → unwind_all D (payment_targets direction) allocations ds ≡ ok ds'
      → All (IsWithinTotal D) (table_of direction ds')
  unfolding unwind_all
  unwind_all-IsWithinTotal direction [] ds ds' amounts all h = let e : ds ≡ ds' = cc in rw (← e) all
  unwind_all-IsWithinTotal direction (a ∷ allocations) ds ds' amounts all h =
      let (ds1, h1, h2) = >>=-eq-ok (unwind_in_tx D (payment_targets direction) a ds) _ h in
      let all1 = unwind_in_tx-IsWithinTotal direction a ds ds1 amounts.0 all h1 in
      unwind_all-IsWithinTotal direction allocations ds1 ds' amounts.1 all1 h2
