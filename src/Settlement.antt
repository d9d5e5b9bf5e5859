-- ===== src/Settlement.antt =====
-- What a payment does to the documents it settles (src/invoicing/payment-targets.ts): receipts
-- settle sales invoices, disbursements settle purchase bills. An amount is a money string of the
-- request or of the payment's row, with at most four decimals. Each function runs under the
-- document's row lock, in the payment's transaction.
pub mod Outstanding
pub mod Bounds
pub mod Undo
use accounting_api.Common.{
  ℕ, Bool, true, false, ◌&&◌, ◌||◌, not, Option, none, some, List, [], ◌∷◌, ◌==◌, find,
  update_first, if◌then◌else◌,
}
use accounting_api.Common.Int.{ℤ, ◌+ℤ◌, ◌-ℤ◌}
use accounting_api.Errors.{
  Result, ok, err, ◌>>=◌, ◌>>◌, throw_if, or_throw, validation_failed, not_found, conflict,
}
use accounting_api.Money.{Decimals, Money, subtract, is_negative}
use accounting_api.Store.{AccountRole, ar_control, ap_control, Timestamp, is_none, is_some}
use accounting_api.Dates.{Date}
use accounting_api.DocRef.{Text}
use accounting_api.Posting.{PostLineInput}

pub data DocumentStatus : Type 0 where
  draft_document posted_document void_document : DocumentStatus

abbrev pub is_posted_document : DocumentStatus → Bool
is_posted_document posted_document = true
is_posted_document _ = false

-- A line of a document; its quantity is its ten-thousandths.
pub record DocumentLine : Type 0 where
  pub line_no : ℕ
  pub description : Text
  pub account_id : ℕ
  pub quantity : ℤ
  pub unit_price : Money
  pub amount : Money
  pub tax_code_ids : List ℕ

-- A row of `sales_invoices` or `purchase_bills`; `number` and `ref` are `invoice_number` or
-- `bill_number` and so on, and a sales invoice has no `vendor_invoice_no`.
pub record Document : Type 0 where
  pub id : ℕ
  pub partner_id : ℕ
  pub status : DocumentStatus
  pub total : Money
  pub amount_paid : Money
  pub deleted_at : Option Timestamp
  pub number : Option ℕ
  pub ref : Option Text
  pub fiscal_year : Option ℕ
  pub vendor_invoice_no : Option Text
  pub date : Date
  pub due_date : Option Date
  pub description : Option Text
  pub subtotal : Money
  pub tax_total : Money
  pub withholding_total : Money
  pub journal_entry_id : Option ℕ
  pub created_by : ℕ
  pub posted_by : Option ℕ
  pub posted_at : Option Timestamp
  pub lines : List DocumentLine

pub record Documents : Type 0 where
  pub sales_invoices : List Document
  pub purchase_bills : List Document

pub record AllocationInput : Type 0 where
  pub sales_invoice_id : Option ℕ
  pub purchase_bill_id : Option ℕ
  pub amount : Money

pub data PaymentDirection : Type 0 where
  receipt disbursement : PaymentDirection

pub data Sign : Type 0 where
  increment decrement : Sign

abbrev pub document_by_id : ℕ → Document → Bool
document_by_id id d = (d.id == id) && is_none d.deleted_at

unfoldable pub paid_by : Money → Sign → Document → Document
paid_by amount increment d = record d { amount_paid = d.amount_paid +ℤ amount }
paid_by amount decrement d = record d { amount_paid = d.amount_paid -ℤ amount }

-- The entries of `PAYMENT_TARGETS`; its message texts stand in the errors below.
pub record PaymentTarget : Type 0 where
  pub direction : PaymentDirection
  pub control_role : AccountRole
  pub cash_is_debit : Bool
  pub alloc_id : AllocationInput → Option ℕ
  pub other_id : AllocationInput → Option ℕ
  pub table : Documents → List Document
  pub apply_paid : ℕ → Money → Sign → Documents → Documents

unfoldable pub payment_targets : PaymentDirection → PaymentTarget
unfolding paid_by
payment_targets receipt = record {
  direction = receipt;
  control_role = ar_control;
  cash_is_debit = true;
  alloc_id = λ a. a.sales_invoice_id;
  other_id = λ a. a.purchase_bill_id;
  table = λ ds. ds.sales_invoices;
  apply_paid = λ id amount sign ds. record ds {
    sales_invoices = update_first (document_by_id id) (paid_by amount sign) ds.sales_invoices;
  };
}
payment_targets disbursement = record {
  direction = disbursement;
  control_role = ap_control;
  cash_is_debit = false;
  alloc_id = λ a. a.purchase_bill_id;
  other_id = λ a. a.sales_invoice_id;
  table = λ ds. ds.purchase_bills;
  apply_paid = λ id amount sign ds. record ds {
    purchase_bills = update_first (document_by_id id) (paid_by amount sign) ds.purchase_bills;
  };
}

abbrev debit_line : ℕ → Money → PostLineInput
debit_line id amount = record {
  account_id = id;
  debit = some amount;
  credit = none;
  description = none;
}

abbrev credit_line : ℕ → Money → PostLineInput
credit_line id amount = record {
  account_id = id;
  debit = none;
  credit = some amount;
  description = none;
}

unfoldable pub build_payment_lines : PaymentTarget → ℕ → ℕ → Money → List PostLineInput
build_payment_lines target cash_account_id control_id amount =
    if target.cash_is_debit
    then debit_line cash_account_id amount ∷ credit_line control_id amount ∷ []
    else debit_line control_id amount ∷ credit_line cash_account_id amount ∷ []

-- `find` of the target, then the guards of the path that creates a draft.
unfoldable pub load_target : PaymentTarget → AllocationInput → Documents → Result Document
load_target target alloc ds = do
  id ←
      or_throw (target.alloc_id alloc)
        (validation_failed "The allocation must reference a document of the direction")
  throw_if (is_some (target.other_id alloc))
      (validation_failed "The allocation must reference a document of the direction")
  or_throw (find (document_by_id id) (target.table ds)) (not_found "Document not found")

module _ (D : Decimals) where
  unfoldable pub exceeds_outstanding : Money → Money → Money → Bool
  exceeds_outstanding total amount_paid amount =
      is_negative (subtract D (subtract D total amount_paid) amount)

  unfoldable pub settle_in_tx : PaymentTarget → AllocationInput → ℕ → Documents → Result Documents
  unfolding exceeds_outstanding
  settle_in_tx target alloc partner_id ds = do
    id ← or_throw (target.alloc_id alloc) (validation_failed "Allocated document is not posted")
    row ←
        or_throw (find (document_by_id id) (target.table ds))
          (validation_failed "Allocated document is not posted")
    throw_if (not (is_posted_document row.status))
        (validation_failed "Allocated document is not posted")
    throw_if (not (row.partner_id == partner_id))
        (validation_failed "Allocated document belongs to another partner")
    throw_if (exceeds_outstanding row.total row.amount_paid alloc.amount)
        (conflict "Allocation now exceeds outstanding")
    ok (target.apply_paid id alloc.amount increment ds)

  unfoldable pub unwind_in_tx : PaymentTarget → AllocationInput → Documents → Result Documents
  unwind_in_tx target alloc ds = do
    id ← or_throw (target.alloc_id alloc) (conflict "Void would drive amountPaid negative")
    row ←
        or_throw (find (document_by_id id) (target.table ds))
          (conflict "Void would drive amountPaid negative")
    throw_if (is_negative (subtract D row.amount_paid alloc.amount))
        (conflict "Void would drive amountPaid negative")
    ok (target.apply_paid id alloc.amount decrement ds)

  -- The loop over the allocations when a payment is posted.
  unfoldable pub settle_all :
      PaymentTarget → List AllocationInput → ℕ → Documents → Result Documents
  unfolding settle_in_tx
  settle_all target [] partner_id ds = ok ds
  settle_all target (a ∷ allocations) partner_id ds = do
    ds' ← settle_in_tx target a partner_id ds
    settle_all target allocations partner_id ds'

  -- The loop when it is voided.
  unfoldable pub unwind_all : PaymentTarget → List AllocationInput → Documents → Result Documents
  unfolding unwind_in_tx
  unwind_all target [] ds = ok ds
  unwind_all target (a ∷ allocations) ds = do
    ds' ← unwind_in_tx target a ds
    unwind_all target allocations ds'
