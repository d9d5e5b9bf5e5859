-- ===== src/Accounts/Seed/Liabilities.antt =====
-- The liabilities and the equity of the starting chart
-- (src/ledger/accounts/chart-of-accounts.seed.ts).
use accounting_api.Common.{false, none, some, List, [], ◌∷◌}
use accounting_api.DocRef.{codes}
use accounting_api.Store.{
  liability, equity, current_liability, non_current_liability, equity_subtype, tax_payable,
  operating, financing, ap_control, retained_earnings, opening_balance_equity, credit_normal,
}
use accounting_api.Accounts.{SeedAccount}

abbrev pub liabilities_chart : List SeedAccount
liabilities_chart =
    record {
      code = codes "2-0000";
      name = codes "Liabilitas";
      account_type = liability;
      subtype = current_liability;
      normal_balance = credit_normal;
      cash_flow_category = none;
      role = none;
      is_postable = some false;
      parent_code = none;
    }
    ∷ record {
      code = codes "2-1000";
      name = codes "Utang Usaha";
      account_type = liability;
      subtype = current_liability;
      normal_balance = credit_normal;
      cash_flow_category = some operating;
      role = some ap_control;
      is_postable = none;
      parent_code = some (codes "2-0000");
    }
    ∷ record {
      code = codes "2-1100";
      name = codes "PPN Keluaran";
      account_type = liability;
      subtype = tax_payable;
      normal_balance = credit_normal;
      cash_flow_category = some operating;
      role = none;
      is_postable = none;
      parent_code = some (codes "2-0000");
    }
    ∷ record {
      code = codes "2-1200";
      name = codes "Utang PPh";
      account_type = liability;
      subtype = tax_payable;
      normal_balance = credit_normal;
      cash_flow_category = some operating;
      role = none;
      is_postable = none;
      parent_code = some (codes "2-0000");
    }
    ∷ record {
      code = codes "2-2000";
      name = codes "Utang Bank";
      account_type = liability;
      subtype = non_current_liability;
      normal_balance = credit_normal;
      cash_flow_category = some financing;
      role = none;
      is_postable = none;
      parent_code = some (codes "2-0000");
    }
    ∷ []

abbrev pub equities_chart : List SeedAccount
equities_chart =
    record {
      code = codes "3-0000";
      name = codes "Ekuitas";
      account_type = equity;
      subtype = equity_subtype;
      normal_balance = credit_normal;
      cash_flow_category = none;
      role = none;
      is_postable = some false;
      parent_code = none;
    }
    ∷ record {
      code = codes "3-1000";
      name = codes "Modal";
      account_type = equity;
      subtype = equity_subtype;
      normal_balance = credit_normal;
      cash_flow_category = some financing;
      role = none;
      is_postable = none;
      parent_code = some (codes "3-0000");
    }
    ∷ record {
      code = codes "3-2000";
      name = codes "Laba Ditahan";
      account_type = equity;
      subtype = equity_subtype;
      normal_balance = credit_normal;
      cash_flow_category = some financing;
      role = some retained_earnings;
      is_postable = none;
      parent_code = some (codes "3-0000");
    }
    ∷ record {
      code = codes "3-9000";
      name = codes "Saldo Awal";
      account_type = equity;
      subtype = equity_subtype;
      normal_balance = credit_normal;
      cash_flow_category = none;
      role = some opening_balance_equity;
      is_postable = none;
      parent_code = some (codes "3-0000");
    }
    ∷ []
