-- ===== src/Reports/Reconciles.antt =====
-- The cash flow statement reconciles (src/reporting/cash-flow.service.ts).
use accounting_api.Common.{
  ◌+◌, ◌*◌, ◌≡◌, ◌≢◌, ◌≤◌, ◌<◌, refl, ap, ◌∙◌, true, ◌&&◌, List, [], ◌∷◌, map, All, Bool-cases, inl,
  inr, arith,
}
use accounting_api.Common.Int.{eqb_ℤ_refl, abs, ◌+ℤ◌, abs--ℤ, int_laws, parts_of_eq, eq_of_parts}
use accounting_api.Money.{Decimals, subtract, add, equals}
use accounting_api.Money.Exact.{add-eq, subtract-eq}
use accounting_api.Dates.{Date, IsDate, leb_date, truncate_to_utc_day, day_before}
use accounting_api.Dates.DayBefore.{
  IsDay, day_before-midnight, midnight-IsDay, truncate_to_utc_day-same, truncate_to_utc_day-year,
  day_before-late,
}
use accounting_api.Store.{Db}
use accounting_api.Posting.Rows.{GoodRow}
use accounting_api.Balances.{
  AccountBalanceRow, grouped_balances, to_row, balances_as_of, movements_between,
}
use accounting_api.Balances.Totals.{lines_as_of}
use accounting_api.Balances.Live.{OnAccounts}
use accounting_api.Reports.Parts.{weigh, gain, volume, sum-weigh, IsExact}
use accounting_api.Reports.Balanced.{debits, credits, debits-credits}
use accounting_api.Reports.CashFlow.{is_cash_row, is_other_row, cash_balance, flow_of, generate}
use accounting_api.Reports.Sections.{net_change-gain}
use accounting_api.Reports.OverTime.{loss}
use accounting_api.Reports.CashMoves.{All-narrow, All-day-Splits, cash_moves}

-- What the other rows gain is what the cash rows lose the other way round.
gain-loss :
    (rows : List AccountBalanceRow)
    → weigh gain is_other_row rows +ℤ debits rows ≡ weigh loss is_cash_row rows +ℤ credits rows
unfolding weigh debits credits
gain-loss [] = omega int_laws
gain-loss (r ∷ rows) =
    let rest = parts_of_eq (gain-loss rows) in
    elim (Bool-cases (is_cash_row r)) [
      | inl t ↦ rw t (eq_of_parts _ _ (omega (int_laws, rest)))
      | inr f ↦ rw f (eq_of_parts _ _ (omega (int_laws, rest)))
    ]

module _ (D : Decimals) where
  loss-IsExact : IsExact D (λ r. subtract D r.debit r.credit) loss
  loss-IsExact = record {
    agrees = λ r h. subtract-eq D r.debit r.credit h;
    small = λ r. abs--ℤ r.debit r.credit;
  }

  reconciles-equals :
      (movements before after : List AccountBalanceRow)
      → (flow_of D movements before after).reconciles
        ≡ equals
            (add D
              (flow_of D movements before after).cash_before
              (flow_of D movements before after).net_change)
            (flow_of D movements before after).cash_after
  unfolding flow_of
  reconciles-equals movements before after = refl

  -- The cash accounts of a list of rows.
  cash_balance-loss :
      (rows : List AccountBalanceRow)
      → volume rows < D.limit
      → (cash_balance D rows ≡ weigh loss is_cash_row rows)
        × (abs (weigh loss is_cash_row rows) ≤ volume rows)
  unfolding cash_balance
  cash_balance-loss rows h = sum-weigh D _ loss loss-IsExact is_cash_row rows h

  cash_before-loss :
      (movements before after : List AccountBalanceRow)
      → volume before < D.limit
      → (flow_of D movements before after).cash_before ≡ weigh loss is_cash_row before
  unfolding flow_of
  cash_before-loss movements before after h = (cash_balance-loss before h).0

  cash_after-loss :
      (movements before after : List AccountBalanceRow)
      → volume after < D.limit
      → (flow_of D movements before after).cash_after ≡ weigh loss is_cash_row after
  unfolding flow_of
  cash_after-loss movements before after h = (cash_balance-loss after h).0

  flow_of-reconciles :
      (movements before after : List AccountBalanceRow)
      → debits movements ≡ credits movements
      → weigh loss is_cash_row after
        ≡ weigh loss is_cash_row before +ℤ weigh loss is_cash_row movements
      → 5 * volume movements + (volume before + volume after) < D.limit
      → ((flow_of D movements before after).reconciles ≡ true)
        × ((flow_of D movements before after).cash_after
            ≡ (flow_of D movements before after).cash_before
              +ℤ (flow_of D movements before after).net_change)
  flow_of-reconciles movements before after even moves h =
      let b = cash_before-loss movements before after (omega (arith, h)) in
      let a = cash_after-loss movements before after (omega (arith, h)) in
      let gained = net_change-gain D movements before after (omega (arith, h)) in
      let turned : weigh gain is_other_row movements ≡ weigh loss is_cash_row movements =
        eq_of_parts _ _ (omega (int_laws, parts_of_eq (gain-loss movements), parts_of_eq even)) in
      let n = gained ∙ turned in
      let small = (cash_balance-loss movements (omega (arith, h))).1 in
      let small_b = (cash_balance-loss before (omega (arith, h))).1 in
      let exact_sum =
        add-eq D (weigh loss is_cash_row before) (weigh loss is_cash_row movements)
          (omega (arith, small, small_b, h)) in
      (
        rw (reconciles-equals movements before after, b, a, n, exact_sum, moves)
            (eqb_ℤ_refl (weigh loss is_cash_row before +ℤ weigh loss is_cash_row movements)),
        rw (b, a, n) moves,
      )

  rows_before :
      (F : Date) (db : Db)
      → F.time ≡ 0
      → 100 ≤ (day_before F).year
      → balances_as_of D (day_before F) db
        ≡ map (to_row D) (grouped_balances (λ d. leb_date d (day_before F)) db)
  unfolding balances_as_of
  rows_before F db midnight late =
      ap (λ b. map (to_row D) (grouped_balances (λ d. leb_date d b) db))
        (truncate_to_utc_day-same (day_before F) (day_before-midnight F midnight) late)

  -- For a first day from the year 1 on that is not of the year 100 and not after the last one, where
  -- the entries' dates are days, the journal's rows are good, every line that counts up to the last day is on exactly one live
  -- account, and the debits and credits of the balances and five times those of the movements fit
  -- decimal.js's precision, the cash flow statement is marked as reconciled, and the cash after is
  -- exactly the cash before and the net change.
  pub generate-reconciles :
      (from to : Date) (db : Db)
      → IsDate from
      → 1 ≤ from.year
      → from.year ≢ 100
      → leb_date (truncate_to_utc_day from) (truncate_to_utc_day to) ≡ true
      → All (λ e. IsDay e.date) db.journal_entries
      → All GoodRow db.journal_entries
      → OnAccounts db.accounts (lines_as_of to db)
      → 5 * volume (movements_between D from to db)
          + (volume (balances_as_of D (day_before (truncate_to_utc_day from)) db)
              + volume (balances_as_of D to db))
        < D.limit
      → ((generate D from to db).reconciles ≡ true)
        × ((generate D from to db).cash_after
            ≡ (generate D from to db).cash_before +ℤ (generate D from to db).net_change)
  unfolding generate balances_as_of movements_between truncate_to_utc_day
  generate-reconciles from to db is_date h other order days good on fits =
      let F = truncate_to_utc_day from in
      let T = truncate_to_utc_day to in
      let hF = midnight-IsDay from is_date h in
      let hY = truncate_to_utc_day-year from h in
      let splits = All-day-Splits F T db.journal_entries hF hY order days in
      let on_movements = All-narrow _ _ _ _ db.journal_entries splits on in
      let even = debits-credits D (λ d. leb_date F d && leb_date d T) db good on_movements in
      let moves = cash_moves D F T db days hF hY order in
      flow_of-reconciles (movements_between D from to db) (balances_as_of D (day_before F) db)
        (balances_as_of D to db) even
        (rw (rows_before F db hF.midnight (day_before-late from h other)) moves) fits
