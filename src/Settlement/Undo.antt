-- ===== src/Settlement/Undo.antt =====
-- A voided allocation takes back what it settled.
use accounting_api.Common.{
  ℕ, ◌≡◌, refl, ◌∙◌, ap, false, some, find, find-holds, find-update_same, update_first-undo, All,
  All-find,
}
use accounting_api.Common.Int.{◌+ℤ◌, ◌-ℤ◌, ◌≤ℤ◌, int_laws}
use accounting_api.Errors.{ok}
use accounting_api.Money.{Decimals, Money, is_negative, subtract}
use accounting_api.Settlement.{
  Document, Documents, AllocationInput, PaymentDirection, receipt, disbursement, increment,
  decrement, paid_by, Sign, document_by_id, payment_targets, settle_in_tx, unwind_in_tx,
}
use accounting_api.Settlement.Outstanding.{
  IsWithinTotal, IsAmount, table_of, exceeds_outstanding_iff, floor-le, settle_in_tx-Settled,
}
use accounting_api.Settlement.Bounds.{table_of-apply_paid, within-increment}

paid_by-undo :
    (amount : Money) (d : Document) → paid_by amount decrement (paid_by amount increment d) ≡ d
unfolding paid_by
paid_by-undo amount d =
    let same : d.amount_paid +ℤ amount -ℤ amount ≡ d.amount_paid = omega int_laws in
    ap (λ x. record d { amount_paid = x }) same

-- The row is still found by its id.
document_by_id-paid_by :
    (id : ℕ) (amount : Money) (sign : Sign) (d : Document)
    → document_by_id id (paid_by amount sign d) ≡ document_by_id id d
unfolding paid_by
document_by_id-paid_by id amount increment d = refl
document_by_id-paid_by id amount decrement d = refl

apply_paid-undo :
    (direction : PaymentDirection) (id : ℕ) (amount : Money) (d : Document) (ds : Documents)
    → find (document_by_id id) (table_of direction ds) ≡ some d
    → (payment_targets direction).apply_paid id amount decrement
        ((payment_targets direction).apply_paid id amount increment ds)
      ≡ ds
unfolding payment_targets
apply_paid-undo receipt id amount d ds h =
    let keep =
      document_by_id-paid_by id amount increment d ∙ find-holds (document_by_id id) d _ h in
    ap (λ t. record ds { sales_invoices = t })
      (update_first-undo (document_by_id id) (paid_by amount increment) (paid_by amount decrement) d
        ds.sales_invoices h keep (paid_by-undo amount d))
apply_paid-undo disbursement id amount d ds h =
    let keep =
      document_by_id-paid_by id amount increment d ∙ find-holds (document_by_id id) d _ h in
    ap (λ t. record ds { purchase_bills = t })
      (update_first-undo (document_by_id id) (paid_by amount increment) (paid_by amount decrement) d
        ds.purchase_bills h keep (paid_by-undo amount d))

module _ (D : Decimals) where
  paid_by-le :
      (d : Document) (x : Money) → IsWithinTotal D d → x ≤ℤ (paid_by x increment d).amount_paid
  unfolding paid_by
  paid_by-le d x w = let paid = w.paid_least in omega int_laws

  -- If each document of the direction has been paid between nothing and its total, and the totals
  -- and the amount, which is not negative, fit decimal.js's precision, then an allocation that was
  -- settled can be unwound, and this gives the documents back as they were.
  pub unwind_in_tx-settle_in_tx :
      (direction : PaymentDirection) (a : AllocationInput) (partner_id : ℕ) (ds ds' : Documents)
      → IsAmount D a
      → All (IsWithinTotal D) (table_of direction ds)
      → settle_in_tx D (payment_targets direction) a partner_id ds ≡ ok ds'
      → unwind_in_tx D (payment_targets direction) a ds' ≡ ok ds
  unfolding unwind_in_tx
  unwind_in_tx-settle_in_tx direction a partner_id ds ds' amount all h =
      let target = payment_targets direction in
      let s = settle_in_tx-Settled D direction a partner_id ds ds' h in
      let w = All-find (IsWithinTotal D) _ _ _ all s.found in
      let le = (exceeds_outstanding_iff D s.row a.amount w amount.0 amount.1).0 s.outstanding in
      let row' = paid_by a.amount increment s.row in
      let w' = within-increment D s.row a.amount w amount.0 le in
      let keep =
        document_by_id-paid_by s.id a.amount increment s.row
        ∙ find-holds (document_by_id s.id) s.row _ s.found in
      let found' : find (document_by_id s.id) (target.table ds') ≡ some row' =
        rw (s.after, table_of-apply_paid direction s.id a.amount increment ds)
          (find-update_same (document_by_id s.id) (paid_by a.amount increment) s.row _ s.found
            keep) in
      let floor : is_negative (subtract D row'.amount_paid a.amount) ≡ false =
        (floor-le D row' a.amount w' amount.0 amount.1).1 (paid_by-le s.row a.amount w) in
      let back : target.apply_paid s.id a.amount decrement ds' ≡ ds =
        rw s.after (apply_paid-undo direction s.id a.amount s.row ds s.found) in
      rw (s.names, found', floor, back) refl
