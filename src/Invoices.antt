-- ===== src/Invoices.antt =====
-- Sales invoices and purchase bills (src/invoicing/taxed-document.service.ts, document-posting.service.ts,
-- document-presenter.ts), which differ by a descriptor (sales-invoices.service.ts,
-- purchase-bills.service.ts). `seen` is what the checks before a transaction read. A quantity has at
-- most four decimals.
pub mod Draft
pub mod Post
pub mod Rows
pub mod Void
pub mod Agree
use accounting_api.Common.{
  ℕ, ◌+◌, Bool, true, false, ◌&&◌, ◌||◌, not, Option, none, some, List, [], ◌∷◌, ◌++◌, ◌==◌, find,
  or_else, update_first, if◌then◌else◌, String, map,
}
use accounting_api.Common.Int.{ℤ}
use accounting_api.Errors.{
  Result, ok, err, ◌>>=◌, ◌>>◌, throw_if, or_throw, validation_failed, not_found, conflict,
  record_not_found, plain_error,
}
use accounting_api.Money.{Decimals, Money, subtract, is_zero, is_negative}
use accounting_api.Dates.{Date}
use accounting_api.DocRef.{Text, codes, to_text}
use accounting_api.Store.{
  AccountRole, ar_control, ap_control, JournalSourceType, sales_invoice, purchase_bill,
  JournalEntry, Timestamp, is_none, is_some,
}
use accounting_api.Posting.{PostEntryInput, PreparedPosting, prepare_posting}
use accounting_api.Posting.Write.{Env, create_posted_entry_in_tx}
use accounting_api.Settlement.{
  Document, DocumentLine, Documents, DocumentStatus, draft_document, posted_document, void_document,
  is_posted_document, document_by_id,
}
use accounting_api.Journal.{reverse_with_guard}
use accounting_api.Tax.{
  TaxNature, sale_nature, purchase_nature, TaxableLineInput, TaxCode, TaxCalculation, calculate,
}
use accounting_api.Partners.{BusinessPartner, find_by_id}
use accounting_api.Invoicing.{
  Books, DocumentType, inv, bill, next_document_number, build_ref, is_draft_document,
  find_control_account_id,
}

pub data DocumentKind : Type 0 where
  sales_invoices purchase_bills : DocumentKind

-- The descriptor of a kind, with the texts that `documentMessages` makes of it.
pub record DocumentDescriptor : Type 0 where
  pub nature : TaxNature
  pub control_role : AccountRole
  pub source_type : JournalSourceType
  pub document_type : DocumentType
  pub partner_flag : BusinessPartner → Bool
  pub partner_inactive : String
  pub document_not_found : String
  pub only_draft_edit : String
  pub only_draft_delete : String
  pub not_a_draft : String
  pub no_longer_draft : String
  pub only_posted_void : String
  pub void_with_payments_first : String
  pub void_with_payments : String
  pub default_description : String

abbrev pub sales_invoice_descriptor : DocumentDescriptor
sales_invoice_descriptor = record {
  nature = sale_nature;
  control_role = ar_control;
  source_type = sales_invoice;
  document_type = inv;
  partner_flag = λ p. p.is_customer;
  partner_inactive = "Partner is not an active customer";
  document_not_found = "Sales invoice not found";
  only_draft_edit = "Only a DRAFT invoice can be edited";
  only_draft_delete = "Only a DRAFT invoice can be deleted";
  not_a_draft = "Invoice is not a draft";
  no_longer_draft = "Invoice is no longer a draft";
  only_posted_void = "Only a POSTED invoice can be voided";
  void_with_payments_first = "Cannot void an invoice with payments; void the payments first";
  void_with_payments = "Cannot void an invoice with payments";
  default_description = "Sales invoice ";
}

abbrev pub purchase_bill_descriptor : DocumentDescriptor
purchase_bill_descriptor = record {
  nature = purchase_nature;
  control_role = ap_control;
  source_type = purchase_bill;
  document_type = bill;
  partner_flag = λ p. p.is_vendor;
  partner_inactive = "Partner is not an active vendor";
  document_not_found = "Purchase bill not found";
  only_draft_edit = "Only a DRAFT bill can be edited";
  only_draft_delete = "Only a DRAFT bill can be deleted";
  not_a_draft = "Bill is not a draft";
  no_longer_draft = "Bill is no longer a draft";
  only_posted_void = "Only a POSTED bill can be voided";
  void_with_payments_first = "Cannot void a bill with payments; void the payments first";
  void_with_payments = "Cannot void a bill with payments";
  default_description = "Purchase bill ";
}

abbrev pub descriptor : DocumentKind → DocumentDescriptor
descriptor sales_invoices = sales_invoice_descriptor
descriptor purchase_bills = purchase_bill_descriptor

-- The table of the kind.
unfoldable pub rows_of : DocumentKind → Documents → List Document
rows_of sales_invoices documents = documents.sales_invoices
rows_of purchase_bills documents = documents.purchase_bills

unfoldable pub with_rows : DocumentKind → List Document → Documents → Documents
with_rows sales_invoices rows documents = record documents { sales_invoices = rows }
with_rows purchase_bills rows documents = record documents { purchase_bills = rows }

pub record DocumentLineInput : Type 0 where
  pub description : Text
  pub account_id : ℕ
  pub quantity : ℤ
  pub unit_price : Money
  pub tax_code_ids : List ℕ

pub record CreateDocumentInput : Type 0 where
  pub partner_id : ℕ
  pub date : Date
  pub due_date : Option Date
  pub description : Option Text
  pub vendor_invoice_no : Option Text
  pub lines : List DocumentLineInput
  pub created_by : ℕ

pub record UpdateDocumentInput : Type 0 where
  pub date : Option Date
  pub due_date : Option Date
  pub description : Option Text
  pub vendor_invoice_no : Option Text
  pub lines : Option (List DocumentLineInput)

pub record DocumentTotals : Type 0 where
  pub subtotal : Money
  pub tax_total : Money
  pub withholding_total : Money
  pub total : Money

-- An absent field keeps what is there.
abbrev pub or_kept {ℓ} : {A : Type ℓ} → Option A → Option A → Option A
or_kept none kept = kept
or_kept (some a) kept = some a

abbrev pub line_input : DocumentLine → DocumentLineInput
line_input l = record {
  description = l.description;
  account_id = l.account_id;
  quantity = l.quantity;
  unit_price = l.unit_price;
  tax_code_ids = l.tax_code_ids;
}

-- The purchase bill's own column.
abbrev pub vendor_no : DocumentKind → Option Text → Option Text
vendor_no sales_invoices number = none
vendor_no purchase_bills number = number

unfoldable pub get_by_id : DocumentKind → ℕ → Books → Result Document
unfolding rows_of
get_by_id kind id books =
    or_throw (find (document_by_id id) (rows_of kind books.documents))
      (not_found (descriptor kind).document_not_found)

-- An `update` of a row that is not deleted.
unfoldable pub update_document :
    DocumentKind → ℕ → (Document → Document) → Documents → Result Documents
unfolding rows_of with_rows
update_document kind id change documents =
    if is_some (find (document_by_id id) (rows_of kind documents))
    then ok (
        with_rows kind (update_first (document_by_id id) change (rows_of kind documents)) documents)
    else err (record_not_found "documents")

unfoldable pub check_partner : DocumentKind → ℕ → Books → Result BusinessPartner
unfolding find_by_id
check_partner kind partner_id seen = do
  partner ← find_by_id partner_id seen.partners
  throw_if (not ((descriptor kind).partner_flag partner) || not partner.is_active)
      (validation_failed (descriptor kind).partner_inactive)
  ok partner

-- `softDeleteDraft` on the table of the kind; `deletedBy` is left out.
abbrev pub draft_document_by_id : ℕ → Document → Bool
draft_document_by_id id d = document_by_id id d && is_draft_document d.status

unfoldable pub delete_draft : DocumentKind → ℕ → Timestamp → Documents → Result Documents
unfolding rows_of with_rows
delete_draft kind id now documents =
    if is_some (find (draft_document_by_id id) (rows_of kind documents))
    then ok (
        with_rows kind
          (update_first (draft_document_by_id id) (λ d. record d { deleted_at = some now })
            (rows_of kind documents))
          documents)
    else err (validation_failed (descriptor kind).only_draft_delete)

-- `summarize`.
abbrev pub summarize : TaxCalculation → DocumentTotals
summarize calc = record {
  subtotal = calc.subtotal;
  tax_total = calc.tax_total;
  withholding_total = calc.withholding_total;
  total = calc.settlement_amount;
}

-- The derived fields of `presentDocument`.
pub data PaymentStatus : Type 0 where
  unpaid paid partially_paid : PaymentStatus

pub outstanding_of : Decimals → Document → Money
outstanding_of D d = subtract D d.total d.amount_paid

pub payment_status : Decimals → Document → PaymentStatus
unfolding outstanding_of
payment_status D d =
    if is_zero d.amount_paid
    then unpaid
    else if is_zero (outstanding_of D d) || is_negative (outstanding_of D d)
    then paid
    else partially_paid
