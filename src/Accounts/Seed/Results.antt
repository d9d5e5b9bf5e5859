-- ===== src/Accounts/Seed/Results.antt =====
-- The revenues and the expenses of the starting chart (src/ledger/accounts/chart-of-accounts.seed.ts).
use accounting_api.Common.{false, none, some, List, [], ◌∷◌}
use accounting_api.DocRef.{codes}
use accounting_api.Store.{
  revenue, expense, revenue_subtype, cogs, operating_expense, other_income, other_expense,
  operating, tax_expense, debit_normal, credit_normal,
}
use accounting_api.Accounts.{SeedAccount}

abbrev pub revenues_chart : List SeedAccount
revenues_chart =
    record {
      code = codes "4-0000";
      name = codes "Pendapatan";
      account_type = revenue;
      subtype = revenue_subtype;
      normal_balance = credit_normal;
      cash_flow_category = none;
      role = none;
      is_postable = some false;
      parent_code = none;
    }
    ∷ record {
      code = codes "4-1000";
      name = codes "Pendapatan Penjualan";
      account_type = revenue;
      subtype = revenue_subtype;
      normal_balance = credit_normal;
      cash_flow_category = some operating;
      role = none;
      is_postable = none;
      parent_code = some (codes "4-0000");
    }
    ∷ record {
      code = codes "4-9000";
      name = codes "Pendapatan Lain-lain";
      account_type = revenue;
      subtype = other_income;
      normal_balance = credit_normal;
      cash_flow_category = some operating;
      role = none;
      is_postable = none;
      parent_code = some (codes "4-0000");
    }
    ∷ []

abbrev pub expenses_chart : List SeedAccount
expenses_chart =
    record {
      code = codes "5-0000";
      name = codes "Beban";
      account_type = expense;
      subtype = operating_expense;
      normal_balance = debit_normal;
      cash_flow_category = none;
      role = none;
      is_postable = some false;
      parent_code = none;
    }
    ∷ record {
      code = codes "5-1000";
      name = codes "Harga Pokok Penjualan";
      account_type = expense;
      subtype = cogs;
      normal_balance = debit_normal;
      cash_flow_category = some operating;
      role = none;
      is_postable = none;
      parent_code = some (codes "5-0000");
    }
    ∷ record {
      code = codes "5-2000";
      name = codes "Beban Gaji";
      account_type = expense;
      subtype = operating_expense;
      normal_balance = debit_normal;
      cash_flow_category = some operating;
      role = none;
      is_postable = none;
      parent_code = some (codes "5-0000");
    }
    ∷ record {
      code = codes "5-3000";
      name = codes "Beban Sewa";
      account_type = expense;
      subtype = operating_expense;
      normal_balance = debit_normal;
      cash_flow_category = some operating;
      role = none;
      is_postable = none;
      parent_code = some (codes "5-0000");
    }
    ∷ record {
      code = codes "5-4000";
      name = codes "Beban Operasional";
      account_type = expense;
      subtype = operating_expense;
      normal_balance = debit_normal;
      cash_flow_category = some operating;
      role = none;
      is_postable = none;
      parent_code = some (codes "5-0000");
    }
    ∷ record {
      code = codes "5-9000";
      name = codes "Beban Pajak";
      account_type = expense;
      subtype = other_expense;
      normal_balance = debit_normal;
      cash_flow_category = some operating;
      role = some tax_expense;
      is_postable = none;
      parent_code = some (codes "5-0000");
    }
    ∷ []
