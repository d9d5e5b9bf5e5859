-- ===== src/Reports/Aging.antt =====
-- The aging of the open invoices or bills (src/reporting/aging.service.ts), with its amounts as
-- money instead of text and without the kind and the date that it repeats. `leb_name` is the
-- database's order of names; rows that the ORDER BY leaves equal keep the order of the tables.
use accounting_api.Common.{
  ℕ, suc, Bool, ◌&&◌, ◌||◌, not, ltb, ◌==◌, Option, none, some, List, [], ◌∷◌, ◌++◌, find, length,
  if◌then◌else◌,
}
use accounting_api.Common.Int.{ℤ, pos, ◌-ℤ◌, ltb_ℤ}
use accounting_api.Common.Sums.{sum_by, sort_by, take}
use accounting_api.Money.{Decimals, Money, zero_money, add, subtract, is_zero, is_negative}
use accounting_api.Dates.{Date, leb_date, truncate_to_utc_day, day_number}
use accounting_api.DocRef.{Text}
use accounting_api.Store.{is_none, holds}
use accounting_api.Settlement.{AllocationInput, Document, is_posted_document}
use accounting_api.Partners.{BusinessPartner}
use accounting_api.Invoicing.{Payment, Books}

pub data AgingKind : Type 0 where
  ar ap : AgingKind

-- The five of BUCKETS.
pub data Bucket : Type 0 where
  not_due to_30 to_60 to_90 over_90 : Bucket

abbrev pub bucket_code : Bucket → ℕ
bucket_code not_due = 0
bucket_code to_30 = 1
bucket_code to_60 = 2
bucket_code to_90 = 3
bucket_code over_90 = 4

-- The objects that are keyed by a bucket.
abbrev pub Buckets : Type 0
Buckets = Bucket → Money

pub record DocRow : Type 0 where
  pub ref : Option Text
  pub partner_id : ℕ
  pub partner_name : Text
  pub date : Date
  pub due_date : Option Date
  pub total : Money
  pub paid_as_of : Money

pub record AgingDocument : Type 0 where
  pub row : DocRow
  pub outstanding : Money
  pub bucket : Bucket

pub record PartnerAging : Type 0 where
  pub partner_id : ℕ
  pub partner_name : Text
  pub documents : List AgingDocument
  pub buckets : Buckets

pub record Aging : Type 0 where
  pub truncated : Bool
  pub partners : List PartnerAging
  pub totals_by_bucket : Buckets
  pub total_outstanding : Money

-- What the loop keeps: the map `byPartner` in the order of its insertions, and the totals.
pub record AgingTotals : Type 0 where
  pub by_partner : List PartnerAging
  pub grand : Buckets
  pub grand_total : Money

-- `bucketOf`.
unfoldable pub bucket_of : ℤ → Bucket
bucket_of days_past_due =
    if not (ltb_ℤ (pos 0) days_past_due)
    then not_due
    else if not (ltb_ℤ (pos 30) days_past_due)
    then to_30
    else if not (ltb_ℤ (pos 60) days_past_due)
    then to_60
    else if not (ltb_ℤ (pos 90) days_past_due)
    then to_90
    else over_90

unfoldable pub due_bucket : Date → DocRow → Bucket
unfolding bucket_of day_number
due_bucket day r =
    let due_or_date : Date = elim r.due_date [ none ↦ r.date | some due ↦ due ] in
    bucket_of (pos (day_number day) -ℤ pos (day_number (truncate_to_utc_day due_or_date)))

abbrev pub alloc_col : AgingKind → AllocationInput → Option ℕ
alloc_col ar a = a.sales_invoice_id
alloc_col ap a = a.purchase_bill_id

abbrev pub doc_table : AgingKind → Books → List Document
doc_table ar books = books.documents.sales_invoices
doc_table ap books = books.documents.purchase_bills

-- The allocations of a payment to a document, if the payment counts.
abbrev pub paid_by_payment : AgingKind → ℕ → Date → Payment → ℤ
paid_by_payment kind document_id day p =
    if is_posted_document p.status && (is_none p.deleted_at && leb_date p.date day)
    then sum_by
        (λ (a : AllocationInput). if holds (alloc_col kind a) document_id then a.amount else pos 0)
        p.allocations
    else pos 0

-- The `SUM` of the subquery.
unfoldable pub paid_until : AgingKind → ℕ → Date → List Payment → ℤ
unfolding sum_by
paid_until kind document_id day payments = sum_by (paid_by_payment kind document_id day) payments

abbrev pub is_open_on : Date → Money → Document → Bool
is_open_on day paid d =
    is_posted_document d.status
    && (is_none d.deleted_at && (leb_date d.date day && ltb_ℤ paid d.total))

abbrev pub doc_row : Money → BusinessPartner → Document → DocRow
doc_row paid partner d = record {
  ref = d.ref;
  partner_id = d.partner_id;
  partner_name = partner.name;
  date = d.date;
  due_date = d.due_date;
  total = d.total;
  paid_as_of = paid;
}

-- The rows of the query, before its ORDER BY and LIMIT.
unfoldable pub open_rows :
    AgingKind → Date → List BusinessPartner → List Payment → List Document → List DocRow
unfolding paid_until
open_rows kind day partners payments [] = []
open_rows kind day partners payments (d ∷ ds) =
    let rest = open_rows kind day partners payments ds in
    let paid = paid_until kind d.id day payments in
    elim (find (λ (p : BusinessPartner). p.id == d.partner_id) partners) [
      | none ↦ rest
      | some partner ↦ if is_open_on day paid d then doc_row paid partner d ∷ rest else rest
    ]

-- `ORDER BY doc.partner_name ASC, doc.date ASC`
abbrev pub is_sorted_before : (Text → Text → Bool) → DocRow → DocRow → Bool
is_sorted_before leb_name r s =
    leb_name r.partner_name s.partner_name
    && (not (leb_name s.partner_name r.partner_name) || leb_date r.date s.date)

abbrev pub same_bucket : Bucket → Bucket → Bool
same_bucket b c = bucket_code b == bucket_code c

module _ (D : Decimals) where
  unfoldable pub add_to_bucket : Bucket → Money → Buckets → Buckets
  add_to_bucket c m buckets b = if same_bucket b c then add D (buckets b) m else buckets b

  abbrev pub with_document : AgingDocument → PartnerAging → PartnerAging
  with_document d g = record g {
    documents = g.documents ++ (d ∷ []);
    buckets = add_to_bucket d.bucket d.outstanding g.buckets;
  }

  -- The partner's group, or a new one at the end, gets the document.
  unfoldable pub put_document : AgingDocument → List PartnerAging → List PartnerAging
  unfolding add_to_bucket
  put_document d [] =
      with_document d (record {
        partner_id = d.row.partner_id;
        partner_name = d.row.partner_name;
        documents = [];
        buckets = λ b. zero_money;
      })
      ∷ []
  put_document d (g ∷ groups) =
      let later = put_document d groups in
      if g.partner_id == d.row.partner_id then with_document d g ∷ groups else g ∷ later

  unfoldable pub age_row : Date → DocRow → AgingTotals → AgingTotals
  unfolding put_document due_bucket
  age_row day r s =
      let outstanding = subtract D r.total r.paid_as_of in
      let bucket = due_bucket day r in
      if is_zero outstanding || is_negative outstanding then s else record {
        by_partner =
            put_document (record { row = r; outstanding = outstanding; bucket = bucket })
              s.by_partner;
        grand = add_to_bucket bucket outstanding s.grand;
        grand_total = add D s.grand_total outstanding;
      }

  unfoldable pub age_rows : Date → List DocRow → AgingTotals → AgingTotals
  unfolding age_row
  age_rows day [] s = s
  age_rows day (r ∷ rows) s = age_rows day rows (age_row day r s)

  unfoldable pub aging : (Text → Text → Bool) → AgingKind → Date → ℕ → Books → Aging
  unfolding open_rows age_rows
  aging leb_name kind as_of max_docs books =
      let day = truncate_to_utc_day as_of in
      let rows = take (suc max_docs) (
        sort_by (is_sorted_before leb_name)
          (open_rows kind day books.partners books.payments (doc_table kind books))) in
      let truncated = ltb max_docs (length rows) in
      let included = if truncated then take max_docs rows else rows in
      let done =
        age_rows day included
          (record { by_partner = []; grand = λ b. zero_money; grand_total = zero_money }) in
      record {
        truncated = truncated;
        partners = done.by_partner;
        totals_by_bucket = done.grand;
        total_outstanding = done.grand_total;
      }
