-- ===== src/Reports/CashFlow.antt =====
-- The cash flow statement (src/reporting/cash-flow.service.ts), with its amounts as money instead
-- of text and without the dates that it repeats.
use accounting_api.Common.{
  Bool, false, not, none, some, List, [], ◌∷◌, ◌++◌, ◌==◌, filter, map, if◌then◌else◌,
}
use accounting_api.Money.{Decimals, Money, zero_money, add, subtract, sum, equals, is_zero}
use accounting_api.Dates.{Date, truncate_to_utc_day, day_before}
use accounting_api.Store.{Db, CashFlowCategory, operating, investing, financing, no_cash_flow, cash}
use accounting_api.Invoicing.{role_code}
use accounting_api.Balances.{AccountBalanceRow, balances_as_of, movements_between}
use accounting_api.Reports.{ReportLine, is_income_row}

pub record CashSection : Type 0 where
  pub lines : List ReportLine
  pub total : Money

pub record CashSections : Type 0 where
  pub operating_section : CashSection
  pub investing_section : CashSection
  pub financing_section : CashSection

pub record CashFlow : Type 0 where
  pub net_income : Money
  pub operating_total : Money
  pub sections : CashSections
  pub net_change : Money
  pub cash_before : Money
  pub cash_after : Money
  pub reconciles : Bool

abbrev pub is_cash_row : AccountBalanceRow → Bool
is_cash_row r = elim r.account.role [ none ↦ false | some role ↦ role_code role == role_code cash ]

abbrev pub is_other_row : AccountBalanceRow → Bool
is_other_row r = not (is_cash_row r)

abbrev pub is_sheet_row : AccountBalanceRow → Bool
is_sheet_row r = not (is_income_row r)

abbrev pub empty_section : CashSection
empty_section = record { lines = []; total = zero_money }

abbrev pub no_sections : CashSections
no_sections = record {
  operating_section = empty_section;
  investing_section = empty_section;
  financing_section = empty_section;
}

module _ (D : Decimals) where
  abbrev pub cash_effect : AccountBalanceRow → Money
  cash_effect r = subtract D r.credit r.debit

  unfoldable pub cash_balance : List AccountBalanceRow → Money
  cash_balance rows =
      sum D (map (λ (r : AccountBalanceRow). subtract D r.debit r.credit) (filter is_cash_row rows))

  -- A line and its amount go to a section.
  abbrev pub grow : ReportLine → CashSection → CashSection
  grow line s = record { lines = s.lines ++ (line ∷ []); total = add D s.total line.amount }

  -- The section of a category, NONE among the operating activities.
  abbrev pub put : CashFlowCategory → ReportLine → CashSections → CashSections
  put investing line s = record s { investing_section = grow line s.investing_section }
  put financing line s = record s { financing_section = grow line s.financing_section }
  put operating line s = record s { operating_section = grow line s.operating_section }
  put no_cash_flow line s = record s { operating_section = grow line s.operating_section }

  abbrev pub cash_line : AccountBalanceRow → ReportLine
  cash_line r = record { code = r.account.code; name = r.account.name; amount = cash_effect r }

  unfoldable pub fill_sections : List AccountBalanceRow → CashSections → CashSections
  fill_sections [] s = s
  fill_sections (r ∷ rows) s =
      let grown = put r.account.cash_flow_category (cash_line r) s in
      fill_sections rows (if is_zero (cash_effect r) then s else grown)

  -- The figures, from the movements and the balances before and after.
  unfoldable pub flow_of :
      List AccountBalanceRow → List AccountBalanceRow → List AccountBalanceRow → CashFlow
  unfolding cash_balance fill_sections
  flow_of movements before after =
      let others = filter is_other_row movements in
      let net_income = sum D (map cash_effect (filter is_income_row others)) in
      let sections = fill_sections (filter is_sheet_row others) no_sections in
      let operating_total = add D net_income sections.operating_section.total in
      let net_change =
        add D (add D operating_total sections.investing_section.total)
          sections.financing_section.total in
      let cash_before = cash_balance before in
      let cash_after = cash_balance after in
      record {
        net_income = net_income;
        operating_total = operating_total;
        sections = sections;
        net_change = net_change;
        cash_before = cash_before;
        cash_after = cash_after;
        reconciles = equals (add D cash_before net_change) cash_after;
      }

  unfoldable pub generate : Date → Date → Db → CashFlow
  unfolding flow_of
  generate from to db =
      flow_of (movements_between D from to db)
        (balances_as_of D (day_before (truncate_to_utc_day from)) db) (balances_as_of D to db)
