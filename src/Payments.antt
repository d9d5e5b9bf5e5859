-- ===== src/Payments.antt =====
-- Payments (src/invoicing/payments.service.ts), on the targets of Settlement. `seen` is what the
-- checks before the transaction read. A null `description` gets the default text; the document
-- sequences are those of src/invoicing/document-number.service.ts.
pub mod Lines
pub mod Agree
pub mod Once
use accounting_api.Common.{
  ℕ, Bool, true, false, ◌&&◌, ◌||◌, not, Option, none, some, List, [], ◌∷◌, ◌++◌, ◌==◌, find,
  or_else, update_first, length, if◌then◌else◌, String, map,
}
use accounting_api.Errors.{
  Result, ok, err, ◌>>=◌, ◌>>◌, throw_if, or_throw, validation_failed, not_found, record_not_found,
  plain_error,
}
use accounting_api.Money.{Decimals, Money, zero_money, add, subtract, is_zero, is_negative}
use accounting_api.Dates.{Date}
use accounting_api.DocRef.{Text, codes, to_text, build_doc_ref}
use accounting_api.Sequence.{next_sequence_number}
use accounting_api.Store.{
  Db, Account, AccountRole, cash, ar_control, ap_control, retained_earnings, opening_balance_equity,
  tax_expense, payment, Timestamp, is_none, is_some,
}
use accounting_api.Posting.{account_by_id, PostEntryInput, PreparedPosting, prepare_posting}
use accounting_api.Posting.Write.{Env, create_posted_entry_in_tx}
use accounting_api.Settlement.{
  AllocationInput, Document, Documents, DocumentStatus, draft_document, posted_document,
  void_document, is_posted_document, PaymentDirection, receipt, disbursement, PaymentTarget,
  payment_targets, load_target, build_payment_lines, settle_all, unwind_all,
}
use accounting_api.Journal.{reverse_with_guard}
use accounting_api.Partners.{BusinessPartner, find_by_id}
use accounting_api.Invoicing.{
  Payment, DocumentType, inv, bill, pay_rcv, pay_dsb, type_text, type_code, Books,
  next_document_number, build_ref, is_draft_document, role_code, has_role, find_control_account_id,
}

abbrev pub number_prefix : PaymentDirection → DocumentType
number_prefix receipt = pay_rcv
number_prefix disbursement = pay_dsb

abbrev pub has_partner_flag : PaymentDirection → BusinessPartner → Bool
has_partner_flag receipt p = p.is_customer
has_partner_flag disbursement p = p.is_vendor

abbrev pub partner_required_message : PaymentDirection → String
partner_required_message receipt = "Receipt requires a customer"
partner_required_message disbursement = "Disbursement requires a vendor"

pub record CreatePaymentInput : Type 0 where
  pub direction : PaymentDirection
  pub partner_id : ℕ
  pub date : Date
  pub cash_account_id : ℕ
  pub description : Option Text
  pub allocations : List AllocationInput
  pub created_by : ℕ

-- `allocatedByDoc.get(id) ?? 0` and `set`.
unfoldable pub allocated : ℕ → List (ℕ × Money) → Money
allocated id [] = zero_money
allocated id (r ∷ rows) = let rest = allocated id rows in if r.0 == id then r.1 else rest

module _ (D : Decimals) where
  -- The loop over the allocations, with what each document has been given so far and the total.
  unfoldable pub check_allocations :
      PaymentTarget → ℕ → List AllocationInput → List (ℕ × Money) → Money → Documents → Result Money
  unfolding allocated load_target
  check_allocations target partner_id [] by_document total documents = ok total
  check_allocations target partner_id (a ∷ allocations) by_document total documents = do
    throw_if (is_zero a.amount || is_negative a.amount)
        (validation_failed "Allocation amount must be positive")
    row ← load_target target a documents
    throw_if (not (row.partner_id == partner_id))
        (validation_failed "Allocated document belongs to another partner")
    throw_if (not (is_posted_document row.status))
        (validation_failed "Can only allocate to a POSTED document")
    let already = allocated row.id by_document
    let outstanding = subtract D (subtract D row.total row.amount_paid) already
    throw_if (is_negative (subtract D outstanding a.amount))
        (validation_failed "Allocation exceeds the document outstanding")
    check_allocations target partner_id allocations ((row.id, add D already a.amount) ∷ by_document)
        (add D total a.amount) documents

  -- The draft's row; one database read is used for all of the checks.
  unfoldable pub create_draft : ℕ → CreatePaymentInput → Books → Result Payment
  unfolding find_by_id check_allocations payment_targets
  create_draft new_id input seen = do
    throw_if (length input.allocations == 0)
        (validation_failed "A payment needs at least one allocation")
    partner ← find_by_id input.partner_id seen.partners
    throw_if (not partner.is_active) (validation_failed "Partner is inactive")
    throw_if (not (has_partner_flag input.direction partner))
        (validation_failed (partner_required_message input.direction))
    cash_account ←
        or_throw (find (account_by_id input.cash_account_id) seen.db.accounts)
          (validation_failed "Cash account is not postable")
    throw_if (not cash_account.is_postable || not cash_account.is_active)
        (validation_failed "Cash account is not postable")
    total ←
        check_allocations (payment_targets input.direction) input.partner_id input.allocations []
          zero_money seen.documents
    ok (record {
      id = new_id;
      number = none;
      ref = none;
      fiscal_year = none;
      direction = input.direction;
      partner_id = input.partner_id;
      date = input.date;
      cash_account_id = input.cash_account_id;
      amount = total;
      description = input.description;
      status = draft_document;
      journal_entry_id = none;
      created_by = input.created_by;
      posted_by = none;
      posted_at = none;
      deleted_at = none;
      allocations = input.allocations;
    })

abbrev pub payment_by_id : ℕ → Payment → Bool
payment_by_id id p = (p.id == id) && is_none p.deleted_at

unfoldable pub get_by_id : ℕ → List Payment → Result Payment
get_by_id id payments = or_throw (find (payment_by_id id) payments) (not_found "Payment not found")

-- `payment.update` of a row that is not deleted.
unfoldable pub update_payment : ℕ → (Payment → Payment) → List Payment → Result (List Payment)
update_payment id change payments =
    if is_some (find (payment_by_id id) payments)
    then ok (update_first (payment_by_id id) change payments)
    else err (record_not_found "payments")

-- `softDeleteDraft` of the lifecycle service on the payments; `deletedBy` is left out.
abbrev pub draft_payment_by_id : ℕ → Payment → Bool
draft_payment_by_id id p = payment_by_id id p && is_draft_document p.status

unfoldable pub delete_draft : ℕ → Timestamp → List Payment → Result (List Payment)
delete_draft id now payments =
    if is_some (find (draft_payment_by_id id) payments)
    then ok
        (update_first (draft_payment_by_id id) (λ p. record p { deleted_at = some now }) payments)
    else err (validation_failed "Only a DRAFT payment can be deleted")

-- The entry of a payment.
abbrev pub payment_input : Payment → ℕ → PostEntryInput
payment_input p control_id = record {
  date = p.date;
  description = or_else p.description (codes "Payment " ++ to_text p.id);
  source_type = payment;
  source_id = some p.id;
  created_by = p.created_by;
  lines = build_payment_lines (payment_targets p.direction) p.cash_account_id control_id p.amount;
}

abbrev pub posted_payment : ℕ → Text → ℕ → ℕ → ℕ → Timestamp → Payment → Payment
posted_payment num ref fiscal_year entry_id posted_by now p = record p {
  status = posted_document;
  number = some num;
  ref = some ref;
  fiscal_year = some fiscal_year;
  journal_entry_id = some entry_id;
  posted_by = some posted_by;
  posted_at = some now;
}

-- The status of the row that is locked.
abbrev pub is_locked_draft : ℕ → List Payment → Bool
is_locked_draft id payments = elim (find (payment_by_id id) payments) [
  | none ↦ false
  | some p ↦ is_draft_document p.status
]

-- What `void` locks.
abbrev pub locked_status : ℕ → Documents × List Payment → Option DocumentStatus
locked_status id tables = elim (find (payment_by_id id) tables.1) [
  | none ↦ none
  | some p ↦ some p.status
]

module _ (D : Decimals) where
  -- The checks of `post` before its transaction.
  unfoldable pub prepare_payment : ℕ → ℕ → Books → Result (Payment × PreparedPosting)
  unfolding get_by_id find_control_account_id build_payment_lines payment_targets
  prepare_payment id posted_by seen = do
    p ← get_by_id id seen.payments
    throw_if (not (is_draft_document p.status)) (validation_failed "Payment is not a draft")
    control_id ← find_control_account_id (payment_targets p.direction).control_role seen.db
    prepared ← prepare_posting D (payment_input p control_id) posted_by seen.db
    ok (p, prepared)

  -- The transaction of `post`.
  unfoldable pub commit_payment : Env → ℕ → Payment × PreparedPosting → Books → Result Books
  unfolding settle_all next_document_number update_payment payment_targets
  commit_payment env posted_by checked books = do
    let p = checked.0
    let prepared = checked.1
    throw_if (not (is_locked_draft p.id books.payments))
        (validation_failed "Payment is no longer a draft")
    documents ←
        settle_all D (payment_targets p.direction) p.allocations p.partner_id books.documents
    let prefix = number_prefix p.direction
    let numbered = next_document_number prefix prepared.fiscal_year books.document_sequences
    done ← create_posted_entry_in_tx env prepared books.db
    payments ←
        update_payment p.id
          (posted_payment numbered.0 (build_ref prefix prepared.fiscal_year numbered.0)
            prepared.fiscal_year done.0.id posted_by env.now)
          books.payments
    ok (record books {
      db = done.1;
      documents = documents;
      payments = payments;
      document_sequences = numbered.1;
    })

  unfoldable pub post : Env → ℕ → ℕ → Books → Books → Result Books
  unfolding prepare_payment commit_payment
  post env id posted_by seen books = do
    checked ← prepare_payment id posted_by seen
    commit_payment env posted_by checked books

  -- Under the guard of `reverseWithGuard`: the allocations are unwound, and the payment is VOID.
  unfoldable pub unwind_payment :
      Payment → Documents × List Payment → Result (Documents × List Payment)
  unfolding unwind_all update_payment payment_targets
  unwind_payment p tables = do
    documents ← unwind_all D (payment_targets p.direction) p.allocations tables.0
    payments ← update_payment p.id (λ q. record q { status = void_document }) tables.1
    ok (documents, payments)

  -- `void`; a posted payment has its entry (`journalEntryId!`).
  unfoldable pub void : Env → ℕ → ℕ → Books → Books → Result Books
  unfolding get_by_id reverse_with_guard unwind_payment
  void env id voided_by seen books = do
    p ← get_by_id id seen.payments
    throw_if (not (is_posted_document p.status))
        (validation_failed "Only a POSTED payment can be voided")
    entry_id ← or_throw p.journal_entry_id (plain_error "journalEntryId")
    done ←
        reverse_with_guard env entry_id voided_by none (locked_status id) (unwind_payment p) seen.db
          books.db (books.documents, books.payments)
    ok (record books { db = done.0; documents = done.1.0; payments = done.1.1 })
