-- ===== src/Invoices/Agree.antt =====
-- A posted invoice or bill agrees with its journal entry.
use accounting_api.Common.{
  ℕ, ◌≡◌, refl, subst, ap, ◌∙◌, Bool, true, not, some, [], ◌∷◌, ◌++◌, map, find,
}
use accounting_api.DocRef.{Text}
use accounting_api.Errors.{
  Result, ok, or_throw, >>=-eq-ok, throw_if-eq-ok, or_throw-eq-ok, ok-injective,
}
use accounting_api.Money.{Decimals}
use accounting_api.Store.{JournalEntry}
use accounting_api.Posting.{PostEntryInput, prepare_posting}
use accounting_api.Posting.Write.{Env, stored_lines, posted_entry, create_posted_entry_in_tx}
use accounting_api.Posting.Prepared.{prepare_posting-IsPrepared}
use accounting_api.Posting.Effects.{create_posted_entry_in_tx-Booked}
use accounting_api.Settlement.{Document, document_by_id, is_posted_document}
use accounting_api.Tax.{TaxCalculation, calculate}
use accounting_api.Invoicing.{
  Books, next_document_number, build_ref, is_draft_document, find_control_account_id,
}
use accounting_api.Invoices.{
  DocumentKind, descriptor, rows_of, line_input, get_by_id, update_document, check_partner,
}
use accounting_api.Invoices.Draft.{taxable_lines}
use accounting_api.Invoices.Post.{
  PreparedDocument, document_input, is_locked_draft, posted_row, commit_document, prepare_document,
  post,
}
use accounting_api.Invoices.Rows.{update_document-find}

-- What the transaction of `post` has done.
record Posted (kind : DocumentKind) (p : PreparedDocument) (books books' : Books) : Type 0 where
  entry : JournalEntry
  row : Document
  entries_are : books'.db.journal_entries ≡ books.db.journal_entries ++ (entry ∷ [])
  lines_are : entry.lines ≡ stored_lines 1 p.prepared.input.lines
  found : find (document_by_id p.id) (rows_of kind books'.documents) ≡ some row
  is_posted : is_posted_document row.status ≡ true
  entry_is : row.journal_entry_id ≡ some entry.id
  total_is : row.total ≡ p.totals.total

commit_document-Posted :
    (env : Env) (kind : DocumentKind) (posted_by : ℕ) (p : PreparedDocument) (books books' : Books)
    → commit_document env kind posted_by p books ≡ ok books'
    → Posted kind p books books'
unfolding commit_document posted_entry
commit_document-Posted env kind posted_by p books books' h =
    let fy = p.prepared.fiscal_year in
    let type = (descriptor kind).document_type in
    let num = (next_document_number type fy books.document_sequences).0 in
    let (still_draft, h1) =
      throw_if-eq-ok (not (is_locked_draft kind p.id books.documents)) _ _ h in
    let ((e, db'), he, h2) = >>=-eq-ok (create_posted_entry_in_tx env p.prepared books.db) _ h1 in
    let (n, ref, is, booked) = create_posted_entry_in_tx-Booked env p.prepared books.db db' e he in
    let change = posted_row num (build_ref type fy num) fy e.id p.totals posted_by env.now in
    let (ds, hu, h3) = >>=-eq-ok (update_document kind p.id change books.documents) _ h2 in
    let (d, there, after) =
      update_document-find kind p.id change books.documents ds (λ x. refl) hu in
    subst (Posted kind p books) (ok-injective h3) (record {
      entry = e;
      row = change d;
      entries_are = booked.entries_are;
      lines_are = ap (λ (x : JournalEntry). x.lines) is;
      found = after;
      is_posted = refl;
      entry_is = refl;
      total_is = refl;
    })

module _ (D : Decimals) (comes_before : Text → Text → Bool) where
  -- The tax calculation of a row's lines.
  abbrev pub calculation : DocumentKind → ℕ → Document → Books → Result TaxCalculation
  calculation kind settlement_id row seen =
      calculate D comes_before
        (record {
          nature = (descriptor kind).nature;
          settlement_account_id = settlement_id;
          lines = taxable_lines D (map line_input row.lines);
        })
        seen.tax_codes

  record Calculated (kind : DocumentKind) (id : ℕ) (seen : Books) (p : PreparedDocument)
      : Type 0 where
    row : Document
    settlement_id : ℕ
    calc : TaxCalculation
    found : find (document_by_id id) (rows_of kind seen.documents) ≡ some row
    settles : find_control_account_id (descriptor kind).control_role seen.db ≡ ok settlement_id
    calculated : calculation kind settlement_id row seen ≡ ok calc
    id_is : p.id ≡ row.id
    lines_are : p.prepared.input.lines ≡ calc.journal_lines
    total_is : p.totals.total ≡ calc.settlement_amount

  prepare_document-Calculated :
      (kind : DocumentKind) (id posted_by : ℕ) (seen : Books) (p : PreparedDocument)
      → prepare_document D comes_before kind id posted_by seen ≡ ok p
      → Calculated kind id seen p
  unfolding prepare_document get_by_id
  prepare_document-Calculated kind id posted_by seen p h =
      let (row, hr, h1) =
        >>=-eq-ok (or_throw (find (document_by_id id) (rows_of kind seen.documents)) _) _ h in
      let (is_draft, h2) = throw_if-eq-ok (not (is_draft_document row.status)) _ _ h1 in
      let (partner, hp, h3) = >>=-eq-ok (check_partner kind row.partner_id seen) _ h2 in
      let (settlement, hs, h4) =
        >>=-eq-ok (find_control_account_id (descriptor kind).control_role seen.db) _ h3 in
      let (calc, hc, h5) = >>=-eq-ok (calculation kind settlement row seen) _ h4 in
      let (prepared, hq, h6) =
        >>=-eq-ok (prepare_posting D (document_input kind row calc) posted_by seen.db) _ h5 in
      subst (Calculated kind id seen) (ok-injective h6) (record {
        row = row;
        settlement_id = settlement;
        calc = calc;
        found = or_throw-eq-ok _ _ hr;
        settles = hs;
        calculated = hc;
        id_is = refl;
        lines_are =
            ap (λ (i : PostEntryInput). i.lines)
              (prepare_posting-IsPrepared D (document_input kind row calc) posted_by seen.db
                prepared hq).input_is;
        total_is = refl;
      })

  -- If posting a document succeeds, then its row is POSTED and points at the one entry that is added,
  -- whose lines are those of the tax calculation of the lines that were read, against the control
  -- account, and the row's total is the settlement amount of that calculation.
  pub post-agrees :
      (env : Env) (kind : DocumentKind) (id posted_by : ℕ) (seen books books' : Books)
      → post D comes_before env kind id posted_by seen books ≡ ok books'
      → (read : Document) × (settlement_id : ℕ) × (calc : TaxCalculation) × (entry : JournalEntry)
        × (row : Document) × (find (document_by_id id) (rows_of kind seen.documents) ≡ some read)
        × (find_control_account_id (descriptor kind).control_role seen.db ≡ ok settlement_id)
        × (calculation kind settlement_id read seen ≡ ok calc)
        × (books'.db.journal_entries ≡ books.db.journal_entries ++ (entry ∷ []))
        × (entry.lines ≡ stored_lines 1 calc.journal_lines)
        × (find (document_by_id read.id) (rows_of kind books'.documents) ≡ some row)
        × (is_posted_document row.status ≡ true)
        × (row.journal_entry_id ≡ some entry.id)
        × (row.total ≡ calc.settlement_amount)
  unfolding post
  post-agrees env kind id posted_by seen books books' h =
      let (p, hp, h1) = >>=-eq-ok (prepare_document D comes_before kind id posted_by seen) _ h in
      let c = prepare_document-Calculated kind id posted_by seen p hp in
      let d = commit_document-Posted env kind posted_by p books books' h1 in
      (
        c.row,
        c.settlement_id,
        c.calc,
        d.entry,
        d.row,
        c.found,
        c.settles,
        c.calculated,
        d.entries_are,
        d.lines_are ∙ ap (λ ls. stored_lines 1 ls) c.lines_are,
        subst (λ n. find (document_by_id n) (rows_of kind books'.documents) ≡ some d.row) c.id_is
            d.found,
        d.is_posted,
        d.entry_is,
        d.total_is ∙ c.total_is,
      )
