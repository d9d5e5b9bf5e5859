-- ===== src/Reports/GeneralLedger.antt =====
-- The general ledger of an account (src/reporting/general-ledger.service.ts), with its amounts as
-- money instead of text and without the dates that it repeats. Lines that the ORDER BY leaves equal
-- keep the order of the tables.
use accounting_api.Common.{
  ℕ, suc, Bool, true, false, ◌&&◌, ◌||◌, ltb, leb, ◌==◌, Option, none, some, List, [], ◌∷◌, ◌++◌,
  map, filter, length, if◌then◌else◌,
}
use accounting_api.Common.Sums.{sort_by, take}
use accounting_api.Errors.{Result, ok, ◌>>=◌}
use accounting_api.Money.{Decimals, Money, add}
use accounting_api.Dates.{Date, key, leb_date, truncate_to_utc_day, day_before}
use accounting_api.DocRef.{Text}
use accounting_api.Store.{Db, Account, NormalBalance, JournalEntry, JournalLine}
use accounting_api.Accounts.{find_by_id}
use accounting_api.Balances.{is_posted_je, on_account, signed_net, account_balance}

pub record LineRow : Type 0 where
  pub date : Date
  pub entry_number : Option ℕ
  pub entry_ref : Option Text
  pub description : Option Text
  pub debit : Money
  pub credit : Money

pub record LedgerLine : Type 0 where
  pub row : LineRow
  pub running_balance : Money

pub record GeneralLedger : Type 0 where
  pub account : Account
  pub opening_balance : Money
  pub lines : List LedgerLine
  pub truncated : Bool
  pub closing_balance : Money

abbrev pub line_row : JournalEntry → JournalLine → LineRow
line_row e l = record {
  date = e.date;
  entry_number = e.entry_number;
  entry_ref = e.entry_ref;
  description = l.description;
  debit = l.debit;
  credit = l.credit;
}

-- The join and the WHERE clause.
unfoldable pub line_rows : ℕ → (Date → Bool) → List JournalEntry → List LineRow
line_rows account_id date_filter [] = []
line_rows account_id date_filter (e ∷ es) =
    let rest = line_rows account_id date_filter es in
    if is_posted_je e && date_filter e.date
    then map (line_row e) (filter (on_account account_id) e.lines) ++ rest
    else rest

-- A missing number comes last.
abbrev pub leb_number : Option ℕ → Option ℕ → Bool
leb_number _ none = true
leb_number none (some n) = false
leb_number (some m) (some n) = leb m n

-- `ORDER BY je.date ASC, je.entry_number ASC`
abbrev pub is_in_order : LineRow → LineRow → Bool
is_in_order r s =
    ltb (key r.date) (key s.date)
    || ((key r.date == key s.date) && leb_number r.entry_number s.entry_number)

unfoldable pub sort_rows : List LineRow → List LineRow
sort_rows rows = sort_by is_in_order rows

module _ (D : Decimals) where
  -- The loop over the rows, with its running balance.
  unfoldable pub ledger_lines : NormalBalance → Money → List LineRow → List LedgerLine
  ledger_lines normal running [] = []
  ledger_lines normal running (r ∷ rows) =
      let balance = add D running (signed_net D normal r.debit r.credit) in
      record { row = r; running_balance = balance } ∷ ledger_lines normal balance rows

  unfoldable pub generate : ℕ → Date → Date → ℕ → Db → Result GeneralLedger
  unfolding find_by_id line_rows sort_rows take ledger_lines
  generate account_id from to max_lines db = do
    account ← find_by_id account_id db
    opening ← account_balance D account_id (day_before (truncate_to_utc_day from)) db
    let rows = take (suc max_lines) (
        sort_rows (
          line_rows account_id
            (λ d. leb_date (truncate_to_utc_day from) d && leb_date d (truncate_to_utc_day to))
            db.journal_entries))
    let truncated = ltb max_lines (length rows)
    let included = if truncated then take max_lines rows else rows
    closing ← account_balance D account_id (truncate_to_utc_day to) db
    ok (record {
      account = account;
      opening_balance = opening.balance;
      lines = ledger_lines account.normal_balance opening.balance included;
      truncated = truncated;
      closing_balance = closing.balance;
    })
