-- ===== src/Reports/Aged.antt =====
-- The aging report adds up (src/reporting/aging.service.ts).
use accounting_api.Common.{◌≡◌, true, List, []}
use accounting_api.Common.Int.{ℤ, ◌+ℤ◌, ◌-ℤ◌, ltb_ℤ}
use accounting_api.Money.{zero_money}
use accounting_api.Dates.{Date, truncate_to_utc_day}
use accounting_api.Invoicing.{Books}
use accounting_api.Reports.Parts.{when}
use accounting_api.Reports.Aging.{
  AgingKind, Bucket, not_due, to_30, to_60, to_90, over_90, DocRow, AgingTotals, same_bucket,
  due_bucket, doc_table, open_rows,
}

-- What a row leaves open.
abbrev pub left : DocRow → ℤ
left r = r.total -ℤ r.paid_as_of

abbrev pub left_in : Date → Bucket → DocRow → ℤ
left_in day b r = when (same_bucket b (due_bucket day r)) (left r)

-- The open rows of a kind.
abbrev pub rows_of : AgingKind → Date → Books → List DocRow
rows_of kind as_of books =
    open_rows kind (truncate_to_utc_day as_of) books.partners books.payments (doc_table kind books)

-- The five buckets.
abbrev pub over_buckets : (Bucket → ℤ) → ℤ
over_buckets f = f not_due +ℤ (f to_30 +ℤ (f to_60 +ℤ (f to_90 +ℤ f over_90)))

abbrev IsOpen : DocRow → Type 0
IsOpen r = ltb_ℤ r.paid_as_of r.total ≡ true

abbrev no_totals : AgingTotals
no_totals = record { by_partner = []; grand = λ b. zero_money; grand_total = zero_money }
