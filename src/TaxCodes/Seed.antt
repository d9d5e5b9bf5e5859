-- ===== src/TaxCodes/Seed.antt =====
-- The tax codes that an empty table starts with (src/tax/tax-codes.seed.ts).
use accounting_api.Common.{List, [], ◌∷◌}
use accounting_api.DocRef.{Text, codes}
use accounting_api.Tax.{TaxKind, ppn_output, ppn_input, pph_payable, pph_prepaid}

pub record SeedTaxCode : Type 0 where
  pub code : Text
  pub name : Text
  pub kind : TaxKind
  pub rate : Text
  pub account_code : Text

-- `TAX_CODE_SEED`.
abbrev pub tax_code_seed : List SeedTaxCode
tax_code_seed =
    record {
      code = codes "PPN-OUT-11";
      name = codes "PPN Keluaran 11%";
      kind = ppn_output;
      rate = codes "0.11";
      account_code = codes "2-1100";
    }
    ∷ record {
      code = codes "PPN-IN-11";
      name = codes "PPN Masukan 11%";
      kind = ppn_input;
      rate = codes "0.11";
      account_code = codes "1-1400";
    }
    ∷ record {
      code = codes "PPH23-PAY";
      name = codes "PPh 23 Jasa 2% (dipotong)";
      kind = pph_payable;
      rate = codes "0.02";
      account_code = codes "2-1200";
    }
    ∷ record {
      code = codes "PPH23-PRE";
      name = codes "PPh 23 Jasa 2% (dipungut)";
      kind = pph_prepaid;
      rate = codes "0.02";
      account_code = codes "1-1500";
    }
    ∷ record {
      code = codes "PPH42-PAY";
      name = codes "PPh 4(2) Sewa 10% (dipotong)";
      kind = pph_payable;
      rate = codes "0.10";
      account_code = codes "2-1200";
    }
    ∷ record {
      code = codes "PPH42-PRE";
      name = codes "PPh 4(2) Sewa 10% (dipungut)";
      kind = pph_prepaid;
      rate = codes "0.10";
      account_code = codes "1-1500";
    }
    ∷ []
