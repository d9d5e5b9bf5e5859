-- ===== src/Reports/BalanceSheet.antt =====
-- The balance sheet (src/reporting/balance-sheet.service.ts), with its amounts as money instead of
-- text and without the date that it repeats.
use accounting_api.Common.{Bool, true, false, List, [], ◌∷◌, ◌++◌, ◌==◌, filter, map, if◌then◌else◌}
use accounting_api.Errors.{Result, ok, ◌>>=◌}
use accounting_api.Money.{Decimals, Money, zero_money, add, subtract, sum, equals}
use accounting_api.Dates.{Date}
use accounting_api.DocRef.{codes}
use accounting_api.Store.{
  Db, AccountType, asset, liability, equity, revenue, expense, AccountSubtype,
}
use accounting_api.Company.{fiscal_year_for, fiscal_year_bounds}
use accounting_api.Accounts.{subtype_code}
use accounting_api.Balances.{AccountBalanceRow, balances_as_of, movements_between}
use accounting_api.Reports.{ReportLine, is_income_row, amount_of, report_line}

-- The group's `subtype`: an account's, or CURRENT_EARNINGS.
pub data GroupName : Type 0 where
  subtype_group : AccountSubtype → GroupName
  current_earnings : GroupName

pub record ReportGroup : Type 0 where
  pub subtype : GroupName
  pub lines : List ReportLine
  pub subtotal : Money

pub record Side : Type 0 where
  pub groups : List ReportGroup
  pub total : Money

pub record BalanceSheet : Type 0 where
  pub assets : Side
  pub liabilities : Side
  pub equity_side : Side
  pub current_year_earnings : Money
  pub balanced : Bool

-- The map `bySubtype`, in the order of its insertions.
abbrev pub BySubtype : Type 0
BySubtype = List (AccountSubtype × List ReportLine)

-- A line goes to the end of its subtype's lines.
unfoldable pub push_line : AccountSubtype → ReportLine → BySubtype → BySubtype
push_line subtype line [] = (subtype, line ∷ []) ∷ []
push_line subtype line ((s, lines) ∷ rest) =
    let later = push_line subtype line rest in
    if subtype_code s == subtype_code subtype
    then (s, lines ++ (line ∷ [])) ∷ rest
    else (s, lines) ∷ later

abbrev pub type_is : AccountType → AccountType → Bool
type_is asset t = elim t [ asset ↦ true | _ ↦ false ]
type_is liability t = elim t [ liability ↦ true | _ ↦ false ]
type_is equity t = elim t [ equity ↦ true | _ ↦ false ]
type_is revenue t = elim t [ revenue ↦ true | _ ↦ false ]
type_is expense t = elim t [ expense ↦ true | _ ↦ false ]

abbrev pub has_type : AccountType → AccountBalanceRow → Bool
has_type t r = type_is t r.account.account_type

module _ (D : Decimals) where
  -- The loop of `group`.
  unfoldable pub group_loop : List AccountBalanceRow → BySubtype → Money → BySubtype × Money
  unfolding push_line
  group_loop [] by_subtype total = (by_subtype, total)
  group_loop (r ∷ rows) by_subtype total =
      group_loop rows (push_line r.account.subtype (report_line D r) by_subtype)
        (add D total (amount_of D r))

  abbrev pub report_group : AccountSubtype × List ReportLine → ReportGroup
  report_group (subtype, lines) = record {
    subtype = subtype_group subtype;
    lines = lines;
    subtotal = sum D (map (λ (l : ReportLine). l.amount) lines);
  }

  unfoldable pub group : List AccountBalanceRow → Side
  unfolding group_loop
  group rows =
      let done = group_loop rows [] zero_money in
      record { groups = map report_group done.0; total = done.1 }

  -- `reduce` of credit less debit over the revenue and expense rows.
  unfoldable pub net_earnings : List AccountBalanceRow → Money
  net_earnings rows =
      sum D
        (map (λ (r : AccountBalanceRow). subtract D r.credit r.debit) (filter is_income_row rows))

  abbrev pub earnings_group : Money → ReportGroup
  earnings_group cumulative = record {
    subtype = current_earnings;
    lines = record { code = []; name = codes "Laba (Rugi) Berjalan"; amount = cumulative } ∷ [];
    subtotal = cumulative;
  }

  -- The figures, from the balances and the movements of the year so far.
  unfoldable pub sheet_of : List AccountBalanceRow → List AccountBalanceRow → BalanceSheet
  unfolding group net_earnings
  sheet_of rows fy_rows =
      let assets = group (filter (has_type asset) rows) in
      let liabilities = group (filter (has_type liability) rows) in
      let eq = group (filter (has_type equity) rows) in
      let cumulative = net_earnings rows in
      let total_equity = add D eq.total cumulative in
      record {
        assets = assets;
        liabilities = liabilities;
        equity_side = record {
          groups = eq.groups ++ (earnings_group cumulative ∷ []);
          total = total_equity;
        };
        current_year_earnings = net_earnings fy_rows;
        balanced = equals assets.total (add D liabilities.total total_equity);
      }

  unfoldable pub generate : Date → Db → Result BalanceSheet
  unfolding sheet_of
  generate as_of db = do
    fy ← fiscal_year_for as_of db
    bounds ← fiscal_year_bounds fy db
    ok (sheet_of (balances_as_of D as_of db) (movements_between D bounds.0 as_of db))
