-- ===== src/Tests/Documents.antt =====
-- The settlement theorems on an invoice of 1000 rupiah, paid in two allocations.
use accounting_api.Common.{◌≡◌, refl, none, some, List, [], ◌∷◌, All, arith}
use accounting_api.Common.Int.{ℤ, pos, ◌+ℤ◌, ◌-ℤ◌}
use accounting_api.Errors.{ok}
use accounting_api.Money.{half_up_ℕ, half_up, new_money, subtract}
use accounting_api.Settlement.{
  Document, Documents, AllocationInput, receipt, posted_document, payment_targets, paid_by,
  exceeds_outstanding, settle_in_tx, unwind_in_tx, settle_all, unwind_all,
}
use accounting_api.Settlement.Outstanding.{IsWithinTotal, IsAmount, table_of}
use accounting_api.Settlement.Bounds.{settle_all-IsWithinTotal}
use accounting_api.Settlement.Undo.{unwind_in_tx-settle_in_tx}
use accounting_api.Tests.{exact, day}

abbrev pub invoice : ℤ → Document
invoice paid = record {
  id = 5;
  partner_id = 9;
  status = posted_document;
  total = pos 10000000;
  amount_paid = paid;
  deleted_at = none;
  number = some 1;
  ref = none;
  fiscal_year = some 2026;
  vendor_invoice_no = none;
  date = day 2026 1 10;
  due_date = none;
  description = none;
  subtotal = pos 10000000;
  tax_total = pos 0;
  withholding_total = pos 0;
  journal_entry_id = some 40;
  created_by = 3;
  posted_by = some 4;
  posted_at = some 900;
  lines = [];
}

abbrev pub documents : ℤ → Documents
documents paid = record { sales_invoices = invoice paid ∷ []; purchase_bills = [] }

abbrev allocation : ℤ → AllocationInput
allocation amount = record { sales_invoice_id = some 5; purchase_bill_id = none; amount = amount }

abbrev both : List AllocationInput
both = allocation (pos 4000000) ∷ allocation (pos 6000000) ∷ []

both-IsAmount : All (IsAmount exact) both
both-IsAmount = ((omega arith, omega arith), ((omega arith, omega arith), tt))

unpaid-IsWithinTotal : IsWithinTotal exact (invoice (pos 0))
unpaid-IsWithinTotal = record {
  paid_least = omega arith;
  paid_most = omega arith;
  total_fits = omega arith;
}

paid-IsWithinTotal : IsWithinTotal exact (invoice (pos 10000000))
paid-IsWithinTotal = record {
  paid_least = omega arith;
  paid_most = omega arith;
  total_fits = omega arith;
}

table_of-unpaid : All (IsWithinTotal exact) (table_of receipt (documents (pos 0)))
unfolding payment_targets
table_of-unpaid = (unpaid-IsWithinTotal, tt)

settle-both :
    settle_all exact (payment_targets receipt) both 9 (documents (pos 0))
    ≡ ok (documents (pos 10000000))
unfolding settle_all settle_in_tx payment_targets paid_by exceeds_outstanding subtract new_money
    half_up half_up_ℕ ◌+ℤ◌ ◌-ℤ◌
settle-both = refl

unwind-both :
    unwind_all exact (payment_targets receipt) both (documents (pos 10000000))
    ≡ ok (documents (pos 0))
unfolding unwind_all unwind_in_tx payment_targets paid_by subtract new_money half_up half_up_ℕ ◌+ℤ◌
    ◌-ℤ◌
unwind-both = refl

settle-whole :
    settle_in_tx exact (payment_targets receipt) (allocation (pos 10000000)) 9 (documents (pos 0))
    ≡ ok (documents (pos 10000000))
unfolding settle_in_tx payment_targets paid_by exceeds_outstanding subtract new_money half_up
    half_up_ℕ ◌+ℤ◌ ◌-ℤ◌
settle-whole = refl

settle_all-IsWithinTotal_example :
    All (IsWithinTotal exact) (table_of receipt (documents (pos 10000000)))
settle_all-IsWithinTotal_example =
    settle_all-IsWithinTotal exact receipt both 9 (documents (pos 0)) (documents (pos 10000000))
      both-IsAmount table_of-unpaid settle-both

unwind_in_tx-settle_in_tx_example :
    unwind_in_tx exact
      (payment_targets receipt)
      (allocation (pos 10000000))
      (documents (pos 10000000))
    ≡ ok (documents (pos 0))
unwind_in_tx-settle_in_tx_example =
    unwind_in_tx-settle_in_tx exact receipt (allocation (pos 10000000)) 9 (documents (pos 0))
      (documents (pos 10000000)) (omega arith, omega arith) table_of-unpaid settle-whole
