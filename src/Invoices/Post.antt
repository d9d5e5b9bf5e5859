-- ===== src/Invoices/Post.antt =====
-- Posting and voiding of invoices and bills: post and void of
-- src/invoicing/taxed-document.service.ts, with post of document-posting.service.ts.
use accounting_api.Common.{ℕ, Bool, false, not, Option, none, some, map, find, or_else, ◌++◌}
use accounting_api.Errors.{
  Result, ok, ◌>>=◌, ◌>>◌, throw_if, or_throw, validation_failed, conflict, plain_error,
}
use accounting_api.Money.{Decimals, is_zero}
use accounting_api.DocRef.{Text, codes, to_text}
use accounting_api.Store.{Timestamp}
use accounting_api.Posting.{PostEntryInput, PreparedPosting, prepare_posting}
use accounting_api.Posting.Write.{Env, create_posted_entry_in_tx}
use accounting_api.Settlement.{
  Document, Documents, DocumentStatus, posted_document, void_document, is_posted_document,
  document_by_id,
}
use accounting_api.Journal.{reverse_with_guard}
use accounting_api.Tax.{TaxCalculation, calculate}
use accounting_api.Invoicing.{
  Books, next_document_number, build_ref, is_draft_document, find_control_account_id,
}
use accounting_api.Invoices.{
  DocumentKind, descriptor, rows_of, DocumentTotals, line_input, get_by_id, update_document,
  check_partner, summarize,
}
use accounting_api.Invoices.Draft.{taxable_lines}

-- What the checks of `post` hand to its transaction.
pub record PreparedDocument : Type 0 where
  pub id : ℕ
  pub prepared : PreparedPosting
  pub totals : DocumentTotals

abbrev pub document_input : DocumentKind → Document → TaxCalculation → PostEntryInput
document_input kind row calc = record {
  date = row.date;
  description =
      or_else row.description (codes (descriptor kind).default_description ++ to_text row.id);
  source_type = (descriptor kind).source_type;
  source_id = some row.id;
  created_by = row.created_by;
  lines = calc.journal_lines;
}

-- `lockDraftInTx`.
abbrev pub is_locked_draft : DocumentKind → ℕ → Documents → Bool
is_locked_draft kind id documents = elim (find (document_by_id id) (rows_of kind documents)) [
  | none ↦ false
  | some d ↦ is_draft_document d.status
]

-- `finalizePosted`.
abbrev pub posted_row : ℕ → Text → ℕ → ℕ → DocumentTotals → ℕ → Timestamp → Document → Document
posted_row num ref fiscal_year entry_id totals posted_by now d = record d {
  status = posted_document;
  number = some num;
  ref = some ref;
  fiscal_year = some fiscal_year;
  journal_entry_id = some entry_id;
  posted_by = some posted_by;
  posted_at = some now;
  subtotal = totals.subtotal;
  tax_total = totals.tax_total;
  withholding_total = totals.withholding_total;
  total = totals.total;
}

-- The transaction of `post`.
unfoldable pub commit_document : Env → DocumentKind → ℕ → PreparedDocument → Books → Result Books
unfolding next_document_number update_document
commit_document env kind posted_by p books = do
  throw_if (not (is_locked_draft kind p.id books.documents))
      (validation_failed (descriptor kind).no_longer_draft)
  let fiscal_year = p.prepared.fiscal_year
  let numbered =
      next_document_number (descriptor kind).document_type fiscal_year books.document_sequences
  done ← create_posted_entry_in_tx env p.prepared books.db
  documents ←
      update_document kind p.id
        (posted_row numbered.0 (build_ref (descriptor kind).document_type fiscal_year numbered.0)
          fiscal_year done.0.id p.totals posted_by env.now)
        books.documents
  ok (record books { db = done.1; documents = documents; document_sequences = numbered.1 })

module _ (D : Decimals) (comes_before : Text → Text → Bool) where
  unfoldable pub prepare_document : DocumentKind → ℕ → ℕ → Books → Result PreparedDocument
  unfolding get_by_id check_partner taxable_lines
  prepare_document kind id posted_by seen = do
    row ← get_by_id kind id seen
    throw_if (not (is_draft_document row.status)) (validation_failed (descriptor kind).not_a_draft)
    partner ← check_partner kind row.partner_id seen
    settlement_id ← find_control_account_id (descriptor kind).control_role seen.db
    calc ←
        calculate D comes_before
          (record {
            nature = (descriptor kind).nature;
            settlement_account_id = settlement_id;
            lines = taxable_lines D (map line_input row.lines);
          })
          seen.tax_codes
    prepared ← prepare_posting D (document_input kind row calc) posted_by seen.db
    ok (record { id = row.id; prepared = prepared; totals = summarize calc })

  unfoldable pub post : Env → DocumentKind → ℕ → ℕ → Books → Books → Result Books
  unfolding prepare_document commit_document
  post env kind id posted_by seen books = do
    p ← prepare_document kind id posted_by seen
    commit_document env kind posted_by p books

-- `lockForVoid`, and the changes under the guard.
abbrev pub locked_status : DocumentKind → ℕ → Documents → Option DocumentStatus
locked_status kind id documents = elim (find (document_by_id id) (rows_of kind documents)) [
  | none ↦ none
  | some d ↦ some d.status
]

abbrev pub voided : Document → Document
voided d = record d { status = void_document }

unfoldable pub mark_void : DocumentKind → ℕ → Documents → Result Documents
unfolding update_document
mark_void kind id documents = do
  locked ← or_throw (find (document_by_id id) (rows_of kind documents)) (plain_error "locked")
  throw_if (not (is_zero locked.amount_paid)) (conflict (descriptor kind).void_with_payments)
  update_document kind id voided documents

-- `void`; `journalEntryId!` is set on a posted document.
unfoldable pub void : Env → DocumentKind → ℕ → ℕ → Books → Books → Result Books
unfolding get_by_id reverse_with_guard mark_void
void env kind id voided_by seen books = do
  row ← get_by_id kind id seen
  throw_if (not (is_posted_document row.status))
      (validation_failed (descriptor kind).only_posted_void)
  throw_if (not (is_zero row.amount_paid)) (conflict (descriptor kind).void_with_payments_first)
  entry_id ← or_throw row.journal_entry_id (plain_error "journalEntryId")
  done ←
      reverse_with_guard env entry_id voided_by none (locked_status kind id) (mark_void kind id)
        seen.db books.db books.documents
  ok (record books { db = done.0; documents = done.1 })
