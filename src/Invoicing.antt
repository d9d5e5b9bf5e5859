-- ===== src/Invoicing.antt =====
-- What invoices, bills and payments share: the tables beside the ledger's, the numbers of documents
-- (src/invoicing/document-number.service.ts) and the control accounts (document-helpers.ts).
use accounting_api.Common.{ℕ, Bool, true, false, ◌&&◌, Option, none, some, List, ◌==◌, find, String}
use accounting_api.Errors.{Result, ok, ◌>>=◌, or_throw, validation_failed}
use accounting_api.Money.{Money}
use accounting_api.Dates.{Date}
use accounting_api.DocRef.{Text, build_doc_ref}
use accounting_api.Sequence.{next_sequence_number}
use accounting_api.Store.{
  Db, Account, AccountRole, cash, ar_control, ap_control, retained_earnings, opening_balance_equity,
  tax_expense, Timestamp, is_none,
}
use accounting_api.Settlement.{
  AllocationInput, Documents, DocumentStatus, draft_document, PaymentDirection,
}
use accounting_api.Tax.{TaxCode}
use accounting_api.Partners.{BusinessPartner}

pub record Payment : Type 0 where
  pub id : ℕ
  pub number : Option ℕ
  pub ref : Option Text
  pub fiscal_year : Option ℕ
  pub direction : PaymentDirection
  pub partner_id : ℕ
  pub date : Date
  pub cash_account_id : ℕ
  pub amount : Money
  pub description : Option Text
  pub status : DocumentStatus
  pub journal_entry_id : Option ℕ
  pub created_by : ℕ
  pub posted_by : Option ℕ
  pub posted_at : Option Timestamp
  pub deleted_at : Option Timestamp
  pub allocations : List AllocationInput

-- The document types of the counters.
pub data DocumentType : Type 0 where
  inv bill pay_rcv pay_dsb : DocumentType

abbrev pub type_text : DocumentType → String
type_text inv = "INV"
type_text bill = "BILL"
type_text pay_rcv = "PAY-RCV"
type_text pay_dsb = "PAY-DSB"

abbrev pub type_code : DocumentType → ℕ
type_code inv = 0
type_code bill = 1
type_code pay_rcv = 2
type_code pay_dsb = 3

-- The tables of the invoicing module, beside those of the ledger.
pub record Books : Type 0 where
  pub db : Db
  pub documents : Documents
  pub payments : List Payment
  pub partners : List BusinessPartner
  pub tax_codes : List TaxCode
  pub document_sequences : List ((DocumentType × ℕ) × ℕ)

-- `DocumentNumberService.next`.
unfoldable pub next_document_number :
    DocumentType → ℕ → List ((DocumentType × ℕ) × ℕ) → ℕ × List ((DocumentType × ℕ) × ℕ)
unfolding next_sequence_number
next_document_number document_type fiscal_year seqs =
    next_sequence_number (λ a b. (type_code a.0 == type_code b.0) && (a.1 == b.1))
      (document_type, fiscal_year) seqs

abbrev pub build_ref : DocumentType → ℕ → ℕ → Text
build_ref document_type fiscal_year num = build_doc_ref (type_text document_type) fiscal_year num

abbrev pub is_draft_document : DocumentStatus → Bool
is_draft_document draft_document = true
is_draft_document _ = false

abbrev pub role_code : AccountRole → ℕ
role_code cash = 0
role_code ar_control = 1
role_code ap_control = 2
role_code retained_earnings = 3
role_code opening_balance_equity = 4
role_code tax_expense = 5

abbrev pub has_role : AccountRole → Account → Bool
has_role role a = elim a.role [
  | none ↦ false
  | some r ↦ (role_code r == role_code role) && is_none a.deleted_at
]

-- `findControlAccountId` (document-helpers.ts).
unfoldable pub find_control_account_id : AccountRole → Db → Result ℕ
find_control_account_id role db = do
  a ←
      or_throw (find (has_role role) db.accounts)
        (validation_failed "Control account missing from chart")
  ok a.id
