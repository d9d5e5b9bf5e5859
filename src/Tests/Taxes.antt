-- ===== src/Tests/Taxes.antt =====
-- The tax theorem on a sale of 100 rupiah with value-added tax and withholding.
use accounting_api.Common.{
  ◌≡◌, ◌⊎◌, refl, none, true, Bool, String, List, [], ◌∷◌, length, leb, subst, arith,
}
use accounting_api.Common.Int.{pos, ◌≤ℤ◌, ◌*ℤ◌, ◌+ℤ◌}
use accounting_api.Errors.{ok, err, validation_failed}
use accounting_api.Money.{add, half_up_ℕ, half_up, new_money, multiply, round_to_rupiah}
use accounting_api.Posting.Balanced.{debits, credits}
use accounting_api.Tax.{
  TaxCode, tax_rows, tax_row, codes_of, flat_ids, base_by_code, add_line, add_base, sort_by_code,
  insert_by_code, calculate, sale_nature, ppn_output, pph_prepaid, TaxableTransaction,
  TaxBreakdownRow, TaxCalculation, tax_amount,
}
use accounting_api.Tax.Entry.{TaxFits}
use accounting_api.Tax.Outcome.{calculate_lem}
use accounting_api.DocRef.{Text, codes}
use accounting_api.Posting.{unique_ids, without}
use accounting_api.Tests.{exact}

abbrev taxed_sale : TaxableTransaction
taxed_sale = record {
  nature = sale_nature;
  settlement_account_id = 1;
  lines = record { account_id = 2; amount = pos 1000000; tax_code_ids = 5 ∷ 6 ∷ [] } ∷ [];
}

abbrev table : List TaxCode
table =
    record {
      id = 5;
      code = codes "PPN11";
      name = codes "PPN11";
      rate = pos 110000;
      kind = ppn_output;
      tax_account_id = 7;
      is_active = true;
      deleted_at = none;
    }
    ∷ record {
      id = 6;
      code = codes "PPH23";
      name = codes "PPH23";
      rate = pos 20000;
      kind = pph_prepaid;
      tax_account_id = 8;
      is_active = true;
      deleted_at = none;
    }
    ∷ []

-- Shorter codes first.
abbrev by_length : Text → Text → Bool
by_length a b = leb (length a) (length b)

abbrev computed : List TaxBreakdownRow
computed =
    record {
      tax_code_id = 5;
      code = codes "PPN11";
      kind = ppn_output;
      base = pos 1000000;
      amount = pos 110000;
      account_id = 7;
    }
    ∷ record {
      tax_code_id = 6;
      code = codes "PPH23";
      kind = pph_prepaid;
      base = pos 1000000;
      amount = pos 20000;
      account_id = 8;
    }
    ∷ []

rows_of_sale :
    tax_rows exact
      (codes_of (unique_ids (flat_ids taxed_sale.lines)) table)
      (base_by_code exact taxed_sale.lines [])
    ≡ ok computed
unfolding tax_rows tax_row codes_of unique_ids without flat_ids base_by_code add_line add_base add
    tax_amount multiply round_to_rupiah new_money half_up half_up_ℕ ◌+ℤ◌ ◌*ℤ◌
rows_of_sale = refl

computed-TaxFits : TaxFits exact taxed_sale (sort_by_code exact by_length computed)
unfolding sort_by_code insert_by_code
computed-TaxFits = omega arith

sale-TaxFits :
    (ts : List TaxBreakdownRow)
    → tax_rows exact
        (codes_of (unique_ids (flat_ids taxed_sale.lines)) table)
        (base_by_code exact taxed_sale.lines [])
      ≡ ok ts
    → TaxFits exact taxed_sale (sort_by_code exact by_length ts)
sale-TaxFits ts h =
    let same : computed ≡ ts = cc (rows_of_sale, h) in
    subst (λ us. TaxFits exact taxed_sale (sort_by_code exact by_length us)) same computed-TaxFits

calculate_lem_example :
    ((m : String) × (calculate exact by_length taxed_sale table ≡ err (validation_failed m)))
    ⊎ ((r : TaxCalculation) × (calculate exact by_length taxed_sale table ≡ ok r)
        × (pos 1 ≤ℤ r.settlement_amount)
        × (debits r.journal_lines ≡ credits r.journal_lines))
calculate_lem_example = calculate_lem exact by_length taxed_sale table sale-TaxFits

-- A tax of 11% on 4.5450 is 0.49995: rounded to four decimals, and then to a rupiah.
rounded_twice : tax_amount exact (pos 45450) (pos 110000) ≡ pos 10000
unfolding tax_amount multiply round_to_rupiah new_money half_up half_up_ℕ ◌*ℤ◌
rounded_twice = refl
