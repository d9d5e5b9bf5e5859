-- ===== src/Tests/Invoices.antt =====
-- The theorems on invoices, on one of 1000 rupiah without tax that is drafted, posted and voided.
use accounting_api.Common.{ℕ, ◌≡◌, refl, true, false, none, some, List, [], ◌∷◌, ◌++◌, Bool, find}
use accounting_api.Common.Int.{pos, ◌+ℤ◌, ◌-ℤ◌, ◌*ℤ◌}
use accounting_api.Errors.{ok}
use accounting_api.Money.{half_up_ℕ, half_up, new_money, add, subtract, multiply, sum_from, sum}
use accounting_api.Dates.{truncate_to_utc_day, fiscal_year_for_date}
use accounting_api.DocRef.{Text, codes, build_doc_ref}
use accounting_api.Sequence.{ensure_row, read_number, next_sequence_number}
use accounting_api.Company.{fiscal_year_for, is_segregation_violation}
use accounting_api.Periods.{contains, find_open_period_for_date}
use accounting_api.Store.{JournalEntry, sales_invoice}
use accounting_api.Posting.{
  has_one_side, check_lines, assert_balanced, without, unique_ids, check_account, check_accounts,
  resolve_postable_accounts, assert_postable_accounts, is_year_closed, assert_postable_date,
  PostLineInput, PreparedReversal, prepare_posting, prepare_reversal,
}
use accounting_api.Posting.Write.{
  Env, line_check, lines_check, is_number_taken, is_reversal_taken, insert_entry,
  assert_postable_period_in_tx, next_number, stamp_posted_in_tx, stored_lines, posted_entry,
  create_posted_entry_in_tx, swapped_lines, reversed_by, mark_reversed, reverse_in_tx,
  reversal_entry,
}
use accounting_api.Settlement.{Document, draft_document, document_by_id, is_posted_document}
use accounting_api.Journal.{on_unique_violation, reverse_with_guard}
use accounting_api.Tax.{
  TaxCalculation, check_repeats, flat_ids, codes_of, check_active, check_kinds, base_line, tax_line,
  settlement_line, add_line, base_by_code, tax_rows, tax_totals, assemble, sort_by_code, calculate,
}
use accounting_api.Partners.{find_by_id}
use accounting_api.Invoicing.{Books, inv, find_control_account_id, next_document_number}
use accounting_api.Invoices.{
  sales_invoices, descriptor, rows_of, with_rows, get_by_id, update_document, check_partner,
}
use accounting_api.Invoices.Draft.{line_amount, taxable_lines}
use accounting_api.Invoices.Post.{
  PreparedDocument, posted_row, commit_document, prepare_document, post, voided, mark_void, void,
}
use accounting_api.Invoices.Void.{void-unpaid}
use accounting_api.Invoices.Agree.{calculation, post-agrees}
use accounting_api.Tests.{exact, day}
use accounting_api.Tests.Payments.{customer, ledger}

-- No tax code is compared here.
abbrev any_order : Text → Text → Bool
any_order a b = true

abbrev draft : Document
draft = record {
  id = 8;
  partner_id = 9;
  status = draft_document;
  total = pos 10000000;
  amount_paid = pos 0;
  deleted_at = none;
  number = none;
  ref = none;
  fiscal_year = none;
  vendor_invoice_no = none;
  date = day 2026 1 12;
  due_date = none;
  description = some (codes "Work");
  subtotal = pos 10000000;
  tax_total = pos 0;
  withholding_total = pos 0;
  journal_entry_id = none;
  created_by = 3;
  posted_by = none;
  posted_at = none;
  lines =
      record {
        line_no = 1;
        description = codes "Work";
        account_id = 2;
        quantity = pos 10000;
        unit_price = pos 10000000;
        amount = pos 10000000;
        tax_code_ids = [];
      }
      ∷ [];
}

abbrev drafted : Books
drafted = record {
  db = ledger;
  documents = record { sales_invoices = draft ∷ []; purchase_bills = [] };
  payments = [];
  partners = customer ∷ [];
  tax_codes = [];
  document_sequences = [];
}

abbrev entry_lines : List PostLineInput
entry_lines =
    record { account_id = 2; debit = none; credit = some (pos 10000000); description = none }
    ∷ record { account_id = 4; debit = some (pos 10000000); credit = none; description = none }
    ∷ []

abbrev prepared : PreparedDocument
prepared = record {
  id = 8;
  prepared = record {
    input = record {
      date = day 2026 1 12;
      description = codes "Work";
      source_type = sales_invoice;
      source_id = some 8;
      created_by = 3;
      lines = entry_lines;
    };
    posted_by = 4;
    period_id = 7;
    fiscal_year = 2026;
  };
  totals = record {
    subtotal = pos 10000000;
    tax_total = pos 0;
    withholding_total = pos 0;
    total = pos 10000000;
  };
}

prepare-draft : prepare_document exact any_order sales_invoices 8 4 drafted ≡ ok prepared
unfolding prepare_document get_by_id rows_of check_partner find_by_id find_control_account_id
    taxable_lines line_amount multiply calculate check_repeats flat_ids codes_of check_active
    check_kinds base_by_code add_line tax_rows sort_by_code assemble tax_totals base_line tax_line
    settlement_line sum sum_from subtract prepare_posting assert_balanced check_lines has_one_side
    add new_money half_up half_up_ℕ ◌+ℤ◌ ◌-ℤ◌ ◌*ℤ◌ is_segregation_violation assert_postable_date
    find_open_period_for_date contains truncate_to_utc_day fiscal_year_for fiscal_year_for_date
    is_year_closed assert_postable_accounts resolve_postable_accounts unique_ids without
    check_accounts check_account
prepare-draft = refl

abbrev env : Env
env = record { new_id = 51; now = 4000 }

abbrev entry : JournalEntry
entry = posted_entry env prepared.prepared 1 (build_doc_ref "JE" 2026 1)

abbrev invoice : Document
invoice = posted_row 1 (build_doc_ref "INV" 2026 1) 2026 51 prepared.totals 4 4000 draft

abbrev invoiced : Books
invoiced = record drafted {
  db = record ledger { journal_sequences = (2026, 2) ∷ []; journal_entries = entry ∷ [] };
  documents = record { sales_invoices = invoice ∷ []; purchase_bills = [] };
  document_sequences = ((inv, 2026), 2) ∷ [];
}

commit-draft : commit_document env sales_invoices 4 prepared drafted ≡ ok invoiced
unfolding commit_document rows_of with_rows update_document next_document_number
    next_sequence_number ensure_row read_number create_posted_entry_in_tx stamp_posted_in_tx
    assert_postable_period_in_tx next_number insert_entry is_number_taken is_reversal_taken
    lines_check line_check posted_entry stored_lines
commit-draft = refl

post-draft : post exact any_order env sales_invoices 8 4 drafted drafted ≡ ok invoiced
unfolding post
post-draft = rw (post, prepare-draft, commit-draft) refl

post-agrees_example :
    (read : Document) × (settlement_id : ℕ) × (calc : TaxCalculation) × (entry : JournalEntry)
    × (row : Document) × (find (document_by_id 8) (rows_of sales_invoices drafted.documents)
        ≡ some read)
    × (find_control_account_id (descriptor sales_invoices).control_role ledger ≡ ok settlement_id)
    × (calculation exact any_order sales_invoices settlement_id read drafted ≡ ok calc)
    × (invoiced.db.journal_entries ≡ ledger.journal_entries ++ (entry ∷ []))
    × (entry.lines ≡ stored_lines 1 calc.journal_lines)
    × (find (document_by_id read.id) (rows_of sales_invoices invoiced.documents) ≡ some row)
    × (is_posted_document row.status ≡ true)
    × (row.journal_entry_id ≡ some entry.id)
    × (row.total ≡ calc.settlement_amount)
post-agrees_example =
    post-agrees exact any_order env sales_invoices 8 4 drafted drafted invoiced post-draft

abbrev void_env : Env
void_env = record { new_id = 52; now = 5000 }

abbrev reversing : PreparedReversal
reversing = record {
  original = entry;
  reversed_by = 4;
  period_id = 7;
  fiscal_year = 2026;
  reversal_date = day 2026 1 12;
  allow_closed_year = false;
}

abbrev undone : Books
undone = record invoiced {
  db = record ledger {
    journal_sequences = (2026, 3) ∷ [];
    journal_entries =
        reversed_by 52 entry ∷ reversal_entry void_env reversing 2 (build_doc_ref "JE" 2026 2) ∷ [];
  };
  documents = record { sales_invoices = voided invoice ∷ []; purchase_bills = [] };
}

void-invoice : void void_env sales_invoices 8 4 invoiced invoiced ≡ ok undone
unfolding void get_by_id rows_of with_rows reverse_with_guard on_unique_violation mark_void
    update_document prepare_reversal find_open_period_for_date contains truncate_to_utc_day
    fiscal_year_for fiscal_year_for_date is_year_closed reverse_in_tx mark_reversed
    stamp_posted_in_tx assert_postable_period_in_tx next_number next_sequence_number ensure_row
    read_number insert_entry is_number_taken is_reversal_taken lines_check line_check posted_entry
    reversal_entry swapped_lines stored_lines
void-invoice = refl

void-unpaid_example :
    (d : Document) × (find (document_by_id 8) (rows_of sales_invoices invoiced.documents) ≡ some d)
    × (is_posted_document d.status ≡ true)
    × (d.amount_paid ≡ pos 0)
    × (find (document_by_id 8) (rows_of sales_invoices undone.documents) ≡ some (voided d))
void-unpaid_example = void-unpaid void_env sales_invoices 8 4 invoiced invoiced undone void-invoice
