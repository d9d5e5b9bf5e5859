-- ===== src/Invoices/Draft.antt =====
-- The drafts of invoices and bills: createDraft and update of
-- src/invoicing/taxed-document.service.ts, with the totals of document-posting.service.ts.
use accounting_api.Common.{ℕ, ◌+◌, not, none, List, [], ◌∷◌, ◌++◌, or_else, map, Bool}
use accounting_api.DocRef.{Text}
use accounting_api.Errors.{Result, ok, ◌>>=◌, ◌>>◌, throw_if, validation_failed}
use accounting_api.Money.{Decimals, Money, zero_money, multiply}
use accounting_api.Settlement.{DocumentLine, draft_document}
use accounting_api.Tax.{TaxNature, TaxableLineInput, calculate}
use accounting_api.Invoicing.{Books, is_draft_document, find_control_account_id}
use accounting_api.Invoices.{
  DocumentKind, descriptor, rows_of, with_rows, DocumentLineInput, CreateDocumentInput,
  UpdateDocumentInput, DocumentTotals, or_kept, line_input, vendor_no, get_by_id, update_document,
  check_partner, summarize,
}

module _ (D : Decimals) where
  -- `amount = quantity * unitPrice`, to four places.
  unfoldable pub line_amount : DocumentLineInput → Money
  line_amount l = multiply D l.unit_price l.quantity 4

  unfoldable pub taxable_lines : List DocumentLineInput → List TaxableLineInput
  unfolding line_amount
  taxable_lines ls =
      map
        (λ l. record {
          account_id = l.account_id;
          amount = line_amount l;
          tax_code_ids = l.tax_code_ids;
        })
        ls

  -- `buildLineCreateData`, from line number `n`.
  unfoldable pub build_line_create_data : ℕ → List DocumentLineInput → List DocumentLine
  unfolding line_amount
  build_line_create_data n [] = []
  build_line_create_data n (l ∷ ls) =
      record {
        line_no = n;
        description = l.description;
        account_id = l.account_id;
        quantity = l.quantity;
        unit_price = l.unit_price;
        amount = line_amount l;
        tax_code_ids = l.tax_code_ids;
      }
      ∷ build_line_create_data (n + 1) ls

  module _ (comes_before : Text → Text → Bool) where
    unfoldable pub compute_totals :
        TaxNature → ℕ → List TaxableLineInput → Books → Result DocumentTotals
    compute_totals nature settlement_account_id lines seen = do
      calc ←
          calculate D comes_before
            (record {
              nature = nature;
              settlement_account_id = settlement_account_id;
              lines = lines;
            })
            seen.tax_codes
      ok (summarize calc)

    unfoldable pub create_draft :
        DocumentKind → ℕ → CreateDocumentInput → Books → Books → Result Books
    unfolding check_partner compute_totals taxable_lines build_line_create_data rows_of with_rows
    create_draft kind new_id input seen books = do
      partner ← check_partner kind input.partner_id seen
      settlement_id ← find_control_account_id (descriptor kind).control_role seen.db
      totals ←
          compute_totals (descriptor kind).nature settlement_id (taxable_lines input.lines) seen
      ok (record books {
        documents =
            with_rows kind
              (rows_of kind books.documents
                ++ (record {
                  id = new_id;
                  partner_id = input.partner_id;
                  status = draft_document;
                  total = totals.total;
                  amount_paid = zero_money;
                  deleted_at = none;
                  number = none;
                  ref = none;
                  fiscal_year = none;
                  vendor_invoice_no = vendor_no kind input.vendor_invoice_no;
                  date = input.date;
                  due_date = input.due_date;
                  description = input.description;
                  subtotal = totals.subtotal;
                  tax_total = totals.tax_total;
                  withholding_total = totals.withholding_total;
                  journal_entry_id = none;
                  created_by = input.created_by;
                  posted_by = none;
                  posted_at = none;
                  lines = build_line_create_data 1 input.lines;
                }
                    ∷ []))
              books.documents;
      })

    -- `updateRow` deletes the lines and writes the new ones; the row is not locked.
    unfoldable pub update : DocumentKind → ℕ → UpdateDocumentInput → Books → Books → Result Books
    unfolding get_by_id compute_totals taxable_lines build_line_create_data update_document
    update kind id input seen books = do
      row ← get_by_id kind id seen
      throw_if (not (is_draft_document row.status))
          (validation_failed (descriptor kind).only_draft_edit)
      let next_lines = or_else input.lines (map line_input row.lines)
      settlement_id ← find_control_account_id (descriptor kind).control_role seen.db
      totals ← compute_totals (descriptor kind).nature settlement_id (taxable_lines next_lines) seen
      documents ←
          update_document kind id
            (λ d. record d {
              date = or_else input.date row.date;
              due_date = or_kept input.due_date row.due_date;
              description = or_kept input.description row.description;
              vendor_invoice_no =
                  vendor_no kind (or_kept input.vendor_invoice_no row.vendor_invoice_no);
              subtotal = totals.subtotal;
              tax_total = totals.tax_total;
              withholding_total = totals.withholding_total;
              total = totals.total;
              lines = build_line_create_data 1 next_lines;
            })
            books.documents
      ok (record books { documents = documents })
