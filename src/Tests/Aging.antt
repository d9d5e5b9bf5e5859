-- ===== src/Tests/Aging.antt =====
-- The aging of two invoices, one of them past due and partly paid.
use accounting_api.Common.{◌≡◌, ◌+◌, refl, true, none, some, Bool, [], ◌∷◌}
use accounting_api.Common.Sums.{sum_by, take, sort_by, insert_by}
use accounting_api.Common.Int.{pos, ◌+ℤ◌, ◌-ℤ◌}
use accounting_api.Money.{add, subtract, new_money, half_up, half_up_ℕ}
use accounting_api.DocRef.{Text}
use accounting_api.Dates.{
  Date, day_number, days_of_months, days_in_month, is_leap, truncate_to_utc_day,
}
use accounting_api.Settlement.{posted_document}
use accounting_api.Invoicing.{Payment, Books}
use accounting_api.Reports.Aging.{
  to_60, ar, aging, age_rows, age_row, put_document, add_to_bucket, due_bucket, bucket_of,
  open_rows, paid_until,
}
use accounting_api.Tests.{exact, day}
use accounting_api.Tests.Documents.{invoice}
use accounting_api.Tests.Payments.{before, draft}

abbrev part_payment : Payment
part_payment = record draft {
  status = posted_document;
  amount = pos 4000000;
  allocations =
      record { sales_invoice_id = some 5; purchase_bill_id = none; amount = pos 4000000 } ∷ [];
}

abbrev two_invoices : Books
two_invoices = record before {
  documents = record {
    sales_invoices =
        invoice (pos 4000000)
        ∷ record (invoice (pos 0)) { id = 6; due_date = some (day 2026 3 1) }
        ∷ [];
    purchase_bills = [];
  };
  payments = part_payment ∷ [];
}

abbrev any_order : Text → Text → Bool
any_order a b = true

abbrev as_of : Date
as_of = day 2026 2 28

-- From the end of February to the start of March, in a leap year and in the next.
leap_day : day_number (day 2024 3 1) ≡ 2 + day_number (day 2024 2 28)
unfolding day_number days_of_months days_in_month is_leap
leap_day = refl

new_year : day_number (day 2025 1 1) ≡ 1 + day_number (day 2024 12 31)
unfolding day_number days_of_months days_in_month is_leap
new_year = refl

-- The first invoice has been due for 49 days.
past_due : (aging exact any_order ar as_of 10000 two_invoices).totals_by_bucket to_60 ≡ pos 6000000
unfolding aging age_rows age_row put_document add_to_bucket due_bucket bucket_of open_rows
    paid_until sum_by take sort_by insert_by day_number days_of_months days_in_month is_leap
    truncate_to_utc_day add subtract new_money half_up half_up_ℕ ◌+ℤ◌ ◌-ℤ◌
past_due = refl
