-- ===== src/Invoices/Void.antt =====
-- A document is voided only while nothing is paid on it.
use accounting_api.Common.{
  ℕ, ◌≡◌, refl, sym, subst, ap, ◌∙◌, true, not, none, some, find, not-false,
}
use accounting_api.Common.Int.{pos}
use accounting_api.Errors.{ok, or_throw, >>=-eq-ok, throw_if-eq-ok, or_throw-eq-ok, ok-injective}
use accounting_api.Money.{is_zero}
use accounting_api.Money.Exact.{is_zero-eq}
use accounting_api.Posting.Write.{Env}
use accounting_api.Settlement.{
  Document, Documents, DocumentStatus, document_by_id, is_posted_document,
}
use accounting_api.Journal.{reverse_with_guard}
use accounting_api.Journal.Guarded.{reverse_with_guard-Guarded}
use accounting_api.Invoicing.{Books}
use accounting_api.Invoices.{DocumentKind, rows_of, get_by_id}
use accounting_api.Invoices.Post.{locked_status, voided, mark_void, void}
use accounting_api.Invoices.Rows.{some-injective, update_document-find}

-- What `mark_void` has found and done.
record Voided (kind : DocumentKind) (id : ℕ) (ds ds' : Documents) : Type 0 where
  row : Document
  found : find (document_by_id id) (rows_of kind ds) ≡ some row
  unpaid : row.amount_paid ≡ pos 0
  after : find (document_by_id id) (rows_of kind ds') ≡ some (voided row)

mark_void-Voided :
    (kind : DocumentKind) (id : ℕ) (ds ds' : Documents)
    → mark_void kind id ds ≡ ok ds'
    → Voided kind id ds ds'
unfolding mark_void
mark_void-Voided kind id ds ds' h =
    let (locked, hl, m1) =
      >>=-eq-ok (or_throw (find (document_by_id id) (rows_of kind ds)) _) _ h in
    let (nothing_paid, m2) = throw_if-eq-ok (not (is_zero locked.amount_paid)) _ _ m1 in
    let (d, found, after) = update_document-find kind id voided ds ds' (λ x. refl) m2 in
    let same : locked ≡ d = some-injective (sym (or_throw-eq-ok _ _ hl) ∙ found) in
    record {
      row = d;
      found = found;
      unpaid =
          subst (λ (x : Document). x.amount_paid ≡ pos 0) same
            (is_zero-eq locked.amount_paid (not-false _ nothing_paid));
      after = after;
    }

locked_status-posted :
    (kind : DocumentKind) (id : ℕ) (ds : Documents) (d : Document) (status : DocumentStatus)
    → find (document_by_id id) (rows_of kind ds) ≡ some d
    → locked_status kind id ds ≡ some status
    → is_posted_document status ≡ true
    → is_posted_document d.status ≡ true
locked_status-posted kind id ds d status found locked is_posted =
    let e : some d.status ≡ some status = rw (locked_status, found) at locked in
    subst (λ s. is_posted_document s ≡ true) (sym (some-injective e)) is_posted

-- If voiding a document succeeds, then under the lock its row was POSTED with nothing paid, whatever
-- was read before, and afterwards the row is VOID and otherwise the same.
pub void-unpaid :
    (env : Env) (kind : DocumentKind) (id voided_by : ℕ) (seen books books' : Books)
    → void env kind id voided_by seen books ≡ ok books'
    → (d : Document) × (find (document_by_id id) (rows_of kind books.documents) ≡ some d)
      × (is_posted_document d.status ≡ true)
      × (d.amount_paid ≡ pos 0)
      × (find (document_by_id id) (rows_of kind books'.documents) ≡ some (voided d))
unfolding void get_by_id
void-unpaid env kind id voided_by seen books books' h =
    let (row, hr, h1) =
      >>=-eq-ok (or_throw (find (document_by_id id) (rows_of kind seen.documents)) _) _ h in
    let (was_posted, h2) = throw_if-eq-ok (not (is_posted_document row.status)) _ _ h1 in
    let (unpaid, h3) = throw_if-eq-ok (not (is_zero row.amount_paid)) _ _ h2 in
    let (entry_id, he, h4) = >>=-eq-ok (or_throw row.journal_entry_id _) _ h3 in
    let (done, hd, h5) =
      >>=-eq-ok
        (reverse_with_guard env entry_id voided_by none (locked_status kind id) (mark_void kind id)
          seen.db books.db books.documents)
        _ h4 in
    let g =
      reverse_with_guard-Guarded env entry_id voided_by none (locked_status kind id)
        (mark_void kind id) seen.db books.db books.documents done hd in
    let v = mark_void-Voided kind id books.documents done.1 g.applied in
    let documents_are : done.1 ≡ books'.documents =
      ap (λ (b : Books). b.documents) (ok-injective h5) in
    (
      v.row,
      v.found,
      locked_status-posted kind id books.documents v.row g.status v.found g.locked g.is_posted,
      v.unpaid,
      subst (λ x. find (document_by_id id) (rows_of kind x) ≡ some (voided v.row)) documents_are
          v.after,
    )
