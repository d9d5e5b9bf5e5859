-- ===== src/Tests/TaxCodes.antt =====
-- A tax code of 11 percent, created and then deactivated.
use accounting_api.Common.{◌≡◌, refl, false, Option, none, some, [], ◌∷◌, if◌then◌else◌}
use accounting_api.Common.Int.{pos, ◌*ℤ◌}
use accounting_api.Money.{half_up, half_up_ℕ}
use accounting_api.Errors.{ok, err, validation_failed}
use accounting_api.DocRef.{Text, codes, same_text}
use accounting_api.Store.{Db}
use accounting_api.Journal.{on_unique_violation}
use accounting_api.Tax.{TaxCode, ppn_output}
use accounting_api.Accounts
use accounting_api.TaxCodes.{
  DecimalNumber, finite, CreateTaxCodeInput, validate_rate, rate_column, validate_account_for_kind,
  find_by_id, insert_tax_code, new_tax_code, update_tax_code, deactivate, create,
}
use accounting_api.TaxCodes.Kept.{HasRates}
use accounting_api.TaxCodes.Changes.{ParsesSeed, start, by_create, by_deactivate, Reached-HasRates}
use accounting_api.Tests.{empty_book}

-- A parser of a few texts.
parse : Text → Option DecimalNumber
unfolding same_text
parse text =
    if same_text text (codes "0.11")
    then some (finite (pos 11) 2)
    else if same_text text (codes "0.02")
    then some (finite (pos 2) 2)
    else if same_text text (codes "0.10")
    then some (finite (pos 1) 1)
    else if same_text text (codes "1")
    then some (finite (pos 1) 0)
    else none

parse-ParsesSeed : ParsesSeed parse
unfolding parse
parse-ParsesSeed = record { eleven_percent = refl; two_percent = refl; ten_percent = refl }

abbrev book : Db
book = empty_book

abbrev vat : CreateTaxCodeInput
vat = record {
  code = codes "PPN";
  name = codes "PPN 11%";
  kind = ppn_output;
  rate = codes "0.11";
  tax_account_id = 2;
}

abbrev vat_row : TaxCode
vat_row = new_tax_code 1 (codes "PPN") (codes "PPN 11%") ppn_output (pos 110000) 2

vat_created : create parse 1 vat book [] [] ≡ ok (vat_row ∷ [])
unfolding parse create validate_rate validate_account_for_kind Accounts.find_by_id rate_column
    insert_tax_code on_unique_violation half_up half_up_ℕ ◌*ℤ◌
vat_created = refl

rate_of_one :
    create parse 1 (record vat { rate = codes "1" }) book [] []
    ≡ err (validation_failed "Rate must be greater than 0 and less than 1")
unfolding parse create validate_rate
rate_of_one = refl

abbrev idle_row : TaxCode
idle_row = record vat_row { is_active = false }

vat_deactivated : deactivate 1 (vat_row ∷ []) (vat_row ∷ []) ≡ ok (idle_row ∷ [])
unfolding deactivate find_by_id update_tax_code
vat_deactivated = refl

Reached-HasRates_example : HasRates (idle_row ∷ [])
Reached-HasRates_example =
    Reached-HasRates parse parse-ParsesSeed
      (by_deactivate (by_create start 1 vat book [] vat_created) 1 (vat_row ∷ []) vat_deactivated)
