-- ===== src/Accounts/Seed/Assets.antt =====
-- The assets of the starting chart (src/ledger/accounts/chart-of-accounts.seed.ts).
use accounting_api.Common.{false, none, some, List, [], ◌∷◌}
use accounting_api.DocRef.{codes}
use accounting_api.Store.{
  asset, current_asset, fixed_asset, accumulated_depreciation, tax_receivable, operating, investing,
  cash, ar_control, debit_normal, credit_normal,
}
use accounting_api.Accounts.{SeedAccount}

abbrev pub assets_chart : List SeedAccount
assets_chart =
    record {
      code = codes "1-0000";
      name = codes "Aset";
      account_type = asset;
      subtype = current_asset;
      normal_balance = debit_normal;
      cash_flow_category = none;
      role = none;
      is_postable = some false;
      parent_code = none;
    }
    ∷ record {
      code = codes "1-1000";
      name = codes "Kas";
      account_type = asset;
      subtype = current_asset;
      normal_balance = debit_normal;
      cash_flow_category = some operating;
      role = some cash;
      is_postable = none;
      parent_code = some (codes "1-0000");
    }
    ∷ record {
      code = codes "1-1100";
      name = codes "Bank";
      account_type = asset;
      subtype = current_asset;
      normal_balance = debit_normal;
      cash_flow_category = some operating;
      role = some cash;
      is_postable = none;
      parent_code = some (codes "1-0000");
    }
    ∷ record {
      code = codes "1-1200";
      name = codes "Piutang Usaha";
      account_type = asset;
      subtype = current_asset;
      normal_balance = debit_normal;
      cash_flow_category = some operating;
      role = some ar_control;
      is_postable = none;
      parent_code = some (codes "1-0000");
    }
    ∷ record {
      code = codes "1-1300";
      name = codes "Persediaan";
      account_type = asset;
      subtype = current_asset;
      normal_balance = debit_normal;
      cash_flow_category = some operating;
      role = none;
      is_postable = none;
      parent_code = some (codes "1-0000");
    }
    ∷ record {
      code = codes "1-1400";
      name = codes "PPN Masukan";
      account_type = asset;
      subtype = tax_receivable;
      normal_balance = debit_normal;
      cash_flow_category = some operating;
      role = none;
      is_postable = none;
      parent_code = some (codes "1-0000");
    }
    ∷ record {
      code = codes "1-1500";
      name = codes "Uang Muka PPh";
      account_type = asset;
      subtype = tax_receivable;
      normal_balance = debit_normal;
      cash_flow_category = some operating;
      role = none;
      is_postable = none;
      parent_code = some (codes "1-0000");
    }
    ∷ record {
      code = codes "1-1800";
      name = codes "Perlengkapan";
      account_type = asset;
      subtype = current_asset;
      normal_balance = debit_normal;
      cash_flow_category = some operating;
      role = none;
      is_postable = none;
      parent_code = some (codes "1-0000");
    }
    ∷ record {
      code = codes "1-2000";
      name = codes "Aset Tetap";
      account_type = asset;
      subtype = fixed_asset;
      normal_balance = debit_normal;
      cash_flow_category = some investing;
      role = none;
      is_postable = none;
      parent_code = some (codes "1-0000");
    }
    ∷ record {
      code = codes "1-2900";
      name = codes "Akumulasi Penyusutan";
      account_type = asset;
      subtype = accumulated_depreciation;
      normal_balance = credit_normal;
      cash_flow_category = some investing;
      role = none;
      is_postable = none;
      parent_code = some (codes "1-0000");
    }
    ∷ []
