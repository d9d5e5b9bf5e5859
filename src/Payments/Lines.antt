-- ===== src/Payments/Lines.antt =====
-- What the two directions of a payment mean (src/invoicing/payment-targets.ts).
use accounting_api.Common.{ℕ, ◌≡◌, refl, none, List, [], ◌∷◌}
use accounting_api.Common.Int.{pos}
use accounting_api.Money.{Money}
use accounting_api.Store.{AccountRole, ar_control, ap_control, JournalLine}
use accounting_api.Posting.Write.{stored_lines}
use accounting_api.Settlement.{
  Document, Documents, PaymentDirection, receipt, disbursement, payment_targets,
  build_payment_lines,
}
use accounting_api.Settlement.Outstanding.{table_of}

-- The two lines of an entry that debits one account and credits another.
abbrev pub debits_and_credits : ℕ → ℕ → Money → List JournalLine
debits_and_credits debited credited amount =
    record { line_no = 1; account_id = debited; debit = amount; credit = pos 0; description = none }
    ∷ record {
      line_no = 2;
      account_id = credited;
      debit = pos 0;
      credit = amount;
      description = none;
    }
    ∷ []

-- A receipt debits the cash account and credits the receivables; a disbursement debits the payables
-- and credits the cash account.
abbrev pub expected_lines : PaymentDirection → ℕ → ℕ → Money → List JournalLine
expected_lines receipt cash control amount = debits_and_credits cash control amount
expected_lines disbursement cash control amount = debits_and_credits control cash amount

abbrev pub expected_role : PaymentDirection → AccountRole
expected_role receipt = ar_control
expected_role disbursement = ap_control

abbrev pub expected_table : PaymentDirection → Documents → List Document
expected_table receipt ds = ds.sales_invoices
expected_table disbursement ds = ds.purchase_bills

pub stored-build_payment_lines :
    (direction : PaymentDirection) (cash control : ℕ) (amount : Money)
    → stored_lines 1 (build_payment_lines (payment_targets direction) cash control amount)
      ≡ expected_lines direction cash control amount
unfolding stored_lines build_payment_lines payment_targets
stored-build_payment_lines receipt cash control amount = refl
stored-build_payment_lines disbursement cash control amount = refl

pub role_is :
    (direction : PaymentDirection)
    → (payment_targets direction).control_role ≡ expected_role direction
unfolding payment_targets
role_is receipt = refl
role_is disbursement = refl

pub table_is :
    (direction : PaymentDirection) (ds : Documents)
    → table_of direction ds ≡ expected_table direction ds
unfolding payment_targets
table_is receipt ds = refl
table_is disbursement ds = refl
