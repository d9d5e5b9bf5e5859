-- ===== src/Tests/Payments.antt =====
-- The payment theorems on a receipt of 1000 rupiah for one invoice.
use accounting_api.Common.{ℕ, ◌≡◌, refl, true, false, none, some, [], ◌∷◌, ◌++◌, arith}
use accounting_api.Common.Int.{pos, ◌+ℤ◌, ◌-ℤ◌}
use accounting_api.Errors.{ok, err, validation_failed}
use accounting_api.Money.{half_up_ℕ, half_up, new_money, add, subtract}
use accounting_api.Dates.{truncate_to_utc_day, fiscal_year_for_date}
use accounting_api.DocRef.{codes, build_doc_ref}
use accounting_api.Sequence.{ensure_row, read_number, next_sequence_number}
use accounting_api.Company.{fiscal_year_for, is_segregation_violation}
use accounting_api.Periods.{contains, find_open_period_for_date}
use accounting_api.Store.{
  operating, Db, Account, JournalEntry, asset, debit_normal, current_asset, ar_control,
}
use accounting_api.Posting.{
  has_one_side, check_lines, assert_balanced, without, unique_ids, check_account, check_accounts,
  resolve_postable_accounts, assert_postable_accounts, is_year_closed, assert_postable_date,
  PreparedPosting, prepare_posting,
}
use accounting_api.Posting.Write.{
  Env, line_check, lines_check, is_number_taken, is_reversal_taken, insert_entry,
  assert_postable_period_in_tx, next_number, stamp_posted_in_tx, stored_lines, posted_entry,
  create_posted_entry_in_tx,
}
use accounting_api.Settlement.{
  receipt, payment_targets, paid_by, exceeds_outstanding, settle_in_tx, settle_all, load_target,
  build_payment_lines, draft_document,
}
use accounting_api.Partners.{BusinessPartner, find_by_id}
use accounting_api.Invoicing.{
  Payment, Books, pay_rcv, find_control_account_id, next_document_number,
}
use accounting_api.Payments.{
  CreatePaymentInput, allocated, check_allocations, create_draft, get_by_id, payment_input,
  posted_payment, prepare_payment, update_payment, commit_payment, post,
}
use accounting_api.Payments.Lines.{debits_and_credits}
use accounting_api.Payments.Agree.{total_paid, post-create_draft}
use accounting_api.Payments.Once.{commit_payment-twice}
use accounting_api.Tests.{exact, day, cash, sales, empty_book}
use accounting_api.Tests.Documents.{documents}

abbrev receivables : Account
receivables = record {
  id = 4;
  code = codes "1-2000";
  name = codes "Receivables";
  account_type = asset;
  subtype = current_asset;
  cash_flow_category = operating;
  parent_id = none;
  role = some ar_control;
  normal_balance = debit_normal;
  is_postable = true;
  is_active = true;
  deleted_at = none;
}

abbrev pub customer : BusinessPartner
customer = record {
  id = 9;
  code = codes "C1";
  name = codes "Customer";
  is_customer = true;
  is_vendor = false;
  is_active = true;
  deleted_at = none;
}

abbrev input : CreatePaymentInput
input = record {
  direction = receipt;
  partner_id = 9;
  date = day 2026 1 20;
  cash_account_id = 1;
  description = none;
  allocations =
      record { sales_invoice_id = some 5; purchase_bill_id = none; amount = pos 4000000 }
      ∷ record { sales_invoice_id = some 5; purchase_bill_id = none; amount = pos 6000000 }
      ∷ [];
  created_by = 3;
}

abbrev pub ledger : Db
ledger = record empty_book { accounts = cash ∷ sales ∷ receivables ∷ [] }

abbrev pub before : Books
before = record {
  db = ledger;
  documents = documents (pos 0);
  payments = [];
  partners = customer ∷ [];
  tax_codes = [];
  document_sequences = [];
}

abbrev pub draft : Payment
draft = record {
  id = 21;
  number = none;
  ref = none;
  fiscal_year = none;
  direction = receipt;
  partner_id = 9;
  date = day 2026 1 20;
  cash_account_id = 1;
  amount = pos 10000000;
  description = none;
  status = draft_document;
  journal_entry_id = none;
  created_by = 3;
  posted_by = none;
  posted_at = none;
  deleted_at = none;
  allocations = input.allocations;
}

created : create_draft exact 21 input before ≡ ok draft
unfolding create_draft find_by_id check_allocations allocated load_target payment_targets add
    subtract new_money half_up half_up_ℕ ◌+ℤ◌ ◌-ℤ◌
created = refl

abbrev drafted : Books
drafted = record before { payments = draft ∷ [] }

abbrev env : Env
env = record { new_id = 41; now = 3000 }

abbrev prepared : PreparedPosting
prepared = record {
  input = payment_input draft 4;
  posted_by = 4;
  period_id = 7;
  fiscal_year = 2026;
}

abbrev paid : Books
paid = record drafted {
  db = record ledger {
    journal_sequences = (2026, 2) ∷ [];
    journal_entries = posted_entry env prepared 1 (build_doc_ref "JE" 2026 1) ∷ [];
  };
  documents = documents (pos 10000000);
  payments = posted_payment 1 (build_doc_ref "PAY-RCV" 2026 1) 2026 41 4 3000 draft ∷ [];
  document_sequences = ((pay_rcv, 2026), 2) ∷ [];
}

prepare-draft : prepare_payment exact 21 4 drafted ≡ ok (draft, prepared)
unfolding prepare_payment get_by_id find_control_account_id build_payment_lines payment_targets
    prepare_posting assert_balanced check_lines has_one_side add new_money half_up half_up_ℕ ◌+ℤ◌
    is_segregation_violation assert_postable_date find_open_period_for_date contains
    truncate_to_utc_day fiscal_year_for fiscal_year_for_date is_year_closed assert_postable_accounts
    resolve_postable_accounts unique_ids without check_accounts check_account
prepare-draft = refl

commit-draft : commit_payment exact env 4 (draft, prepared) drafted ≡ ok paid
unfolding commit_payment settle_all settle_in_tx exceeds_outstanding subtract new_money half_up
    half_up_ℕ payment_targets paid_by ◌+ℤ◌ ◌-ℤ◌ next_document_number next_sequence_number ensure_row
    read_number update_payment create_posted_entry_in_tx stamp_posted_in_tx
    assert_postable_period_in_tx next_number insert_entry is_number_taken is_reversal_taken
    lines_check line_check posted_entry stored_lines build_payment_lines
commit-draft = refl

post-draft : post exact env 21 4 drafted drafted ≡ ok paid
unfolding post
post-draft = rw (post, prepare-draft, commit-draft) refl

post-create_draft_example :
    (total_paid paid.documents.sales_invoices
      ≡ total_paid drafted.documents.sales_invoices +ℤ pos 10000000)
    × ((control_id : ℕ) × (find_control_account_id ar_control ledger ≡ ok control_id)
        × ((e : JournalEntry) × (paid.db.journal_entries ≡ ledger.journal_entries ++ (e ∷ []))
            × (e.lines ≡ debits_and_credits 1 control_id (pos 10000000))))
post-create_draft_example =
    post-create_draft exact env 21 4 input draft before drafted drafted paid (omega arith) created
      refl post-draft

commit_payment-twice_example :
    commit_payment exact env 6 (draft, prepared) paid
    ≡ err (validation_failed "Payment is no longer a draft")
commit_payment-twice_example =
    commit_payment-twice exact env env 4 6 (draft, prepared) (draft, prepared) drafted paid
      commit-draft refl
