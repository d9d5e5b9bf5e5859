-- ===== src/YearEnd.antt =====
-- Year-end close (src/close/year-end-close.service.ts). A close reads the year's movements on the
-- database `seen` and commits on `db`; each transaction, under the year's advisory lock, is one step.
pub mod Lines
pub mod Zeroed
pub mod Prepared
pub mod Swept
pub mod Twice
use accounting_api.Common.{
  ℕ, Bool, true, false, not, ◌&&◌, Option, none, some, List, [], ◌∷◌, ◌++◌, find, filter, ◌==◌,
  if◌then◌else◌, update_first,
}
use accounting_api.Common.Int.{ℤ, pos, negsuc}
use accounting_api.Errors.{
  Result, ok, err, ◌>>=◌, ◌>>◌, throw_if, or_throw, conflict, validation_failed, record_not_found,
}
use accounting_api.Money.{Decimals, Money, zero_money, subtract, multiply, is_zero, is_negative}
use accounting_api.Dates.{Date}
use accounting_api.DocRef.{codes, to_text}
use accounting_api.Store.{
  Db, Account, AccountType, asset, liability, equity, revenue, expense, AccountRole,
  retained_earnings, closing, YearEndClosing, closed_year, open_year, is_closed, is_none, is_some,
  Timestamp,
}
use accounting_api.Company
use accounting_api.Posting.{
  PostLineInput, PostEntryInput, PreparedPosting, PreparedReversal, prepare_posting,
  prepare_reversal,
}
use accounting_api.Posting.Write.{Env, reads_closed, create_posted_entry_in_tx, reverse_in_tx}
use accounting_api.Balances.{AccountBalanceRow, movements_between}

abbrev pub for_year : ℕ → YearEndClosing → Bool
for_year fiscal_year c = c.fiscal_year == fiscal_year

abbrev pub get_status : ℕ → Db → Option YearEndClosing
get_status fiscal_year db = find (for_year fiscal_year) db.year_end_closings

abbrev pub is_profit_or_loss : AccountType → Bool
is_profit_or_loss revenue = true
is_profit_or_loss expense = true
is_profit_or_loss asset = false
is_profit_or_loss liability = false
is_profit_or_loss equity = false

abbrev pub is_profit_or_loss_row : AccountBalanceRow → Bool
is_profit_or_loss_row r = is_profit_or_loss r.account.account_type

abbrev pub is_retained_earnings : Account → Bool
is_retained_earnings a = elim a.role [
  | none ↦ false
  | some r ↦ elim r [ retained_earnings ↦ is_none a.deleted_at | _ ↦ false ]
]

abbrev pub closing_input : ℕ → ℕ → Date → List PostLineInput → PostEntryInput
closing_input fiscal_year closed_by year_end lines = record {
  date = year_end;
  description = codes "Year-end close FY" ++ to_text fiscal_year;
  source_type = closing;
  source_id = none;
  created_by = closed_by;
  lines = lines;
}

module _ (D : Decimals) where
  -- The line that posts an amount: its opposite as a debit if it is negative, else a credit.
  unfoldable pub signed_line : ℕ → Money → PostLineInput
  signed_line account_id amount =
      if is_negative amount
      then record {
        account_id = account_id;
        debit = some (multiply D amount (negsuc 0) 0);
        credit = none;
        description = none;
      }
      else record {
        account_id = account_id;
        debit = none;
        credit = some amount;
        description = none;
      }

  -- The loop over the rows, with the net income so far.
  unfoldable pub closing_loop : List AccountBalanceRow → Money → List PostLineInput × Money
  unfolding signed_line
  closing_loop [] net_income = ([], net_income)
  closing_loop (r ∷ rs) net_income =
      let position = subtract D r.debit r.credit in
      let skipped = closing_loop rs net_income in
      let rest = closing_loop rs (subtract D net_income position) in
      if is_zero position then skipped else (signed_line r.account.id position ∷ rest.0, rest.1)

  -- The line on retained earnings (Laba Ditahan), unless the net income is zero.
  unfoldable pub with_retained_earnings :
      List PostLineInput → Money → Db → Result (List PostLineInput)
  unfolding signed_line
  with_retained_earnings lines net_income db = if is_zero net_income then ok lines else do
    retained ←
        or_throw (find is_retained_earnings db.accounts)
          (validation_failed "Laba Ditahan account missing from chart")
    ok (lines ++ (signed_line retained.id net_income ∷ []))

  -- The revenue and expense rows of a year's own movements.
  abbrev pub profit_or_loss_rows : Date → Date → Db → List AccountBalanceRow
  profit_or_loss_rows start year_end db =
      filter is_profit_or_loss_row (movements_between D start year_end db)

  -- The entry of the closing lines, if there are any, with the net income.
  unfoldable pub prepare_swept :
      ℕ → ℕ → Date → List PostLineInput → Money → Db → Result (Option (PreparedPosting × Money))
  prepare_swept fiscal_year closed_by year_end [] net_income db = ok none
  prepare_swept fiscal_year closed_by year_end (l ∷ ls) net_income db = do
    lines ← with_retained_earnings (l ∷ ls) net_income db
    prepared ← prepare_posting D (closing_input fiscal_year closed_by year_end lines) closed_by db
    ok (some (prepared, net_income))

  -- What `close` does before its transaction: nothing to post, or a posting with the net income.
  unfoldable pub prepare_close : ℕ → ℕ → Db → Result (Option (PreparedPosting × Money))
  unfolding prepare_swept
  prepare_close fiscal_year closed_by db = do
    throw_if (reads_closed fiscal_year db) (conflict "Fiscal year is already closed")
    bounds ← Company.fiscal_year_bounds fiscal_year db
    let swept = closing_loop (profit_or_loss_rows bounds.0 bounds.1 db) zero_money
    prepare_swept fiscal_year closed_by bounds.1 swept.0 swept.1 db

-- `yearEndClosing.upsert`, on the unique fiscal year: what it sets on the row that is there.
abbrev pub marked_closed : Option ℕ → Money → ℕ → Timestamp → YearEndClosing → YearEndClosing
marked_closed closing_entry_id net_income closed_by now c = record c {
  status = closed_year;
  closing_entry_id = closing_entry_id;
  net_income = net_income;
  closed_at = some now;
  closed_by = some closed_by;
  reopened_at = none;
  reopened_by = none;
}

unfoldable pub upsert_closed : ℕ → Option ℕ → Money → ℕ → Timestamp → Db → Db
upsert_closed fiscal_year closing_entry_id net_income closed_by now db =
    if is_some (get_status fiscal_year db)
    then record db {
      year_end_closings =
          update_first (for_year fiscal_year)
            (marked_closed closing_entry_id net_income closed_by now) db.year_end_closings;
    }
    else record db {
      year_end_closings =
          db.year_end_closings
          ++ (record {
            fiscal_year = fiscal_year;
            status = closed_year;
            closing_entry_id = closing_entry_id;
            net_income = net_income;
            closed_at = some now;
            closed_by = some closed_by;
            reopened_at = none;
            reopened_by = none;
          }
              ∷ []);
    }

-- The transaction of `close`: the status again under the lock, the entry, the year's row.
unfoldable pub commit_close : Env → ℕ → ℕ → PreparedPosting → Money → Db → Result Db
unfolding upsert_closed
commit_close env fiscal_year closed_by prepared net_income db = do
  throw_if (reads_closed fiscal_year db) (conflict "Fiscal year is already closed")
  done ← create_posted_entry_in_tx env prepared db
  ok (upsert_closed fiscal_year (some done.0.id) net_income closed_by env.now done.1)

unfoldable pub close : Decimals → Env → ℕ → ℕ → Db → Db → Result Db
close D env fiscal_year closed_by seen db = do
  prepared ← prepare_close D fiscal_year closed_by seen
  elim prepared [
    | none ↦ ok (upsert_closed fiscal_year none zero_money closed_by env.now db)
    | some p ↦ commit_close env fiscal_year closed_by p.0 p.1 db
  ]

-- `yearEndClosing.update` back to OPEN, which misses an absent row.
abbrev pub marked_reopened : ℕ → Timestamp → YearEndClosing → YearEndClosing
marked_reopened reopened_by now c = record c {
  status = open_year;
  reopened_at = some now;
  reopened_by = some reopened_by;
}

unfoldable pub set_reopened : ℕ → ℕ → Timestamp → Db → Result Db
set_reopened fiscal_year reopened_by now db =
    if is_some (get_status fiscal_year db)
    then ok (record db {
      year_end_closings =
          update_first (for_year fiscal_year) (marked_reopened reopened_by now)
            db.year_end_closings;
    })
    else err (record_not_found "year_end_closings")

-- The transaction of `reopen`.
unfoldable pub commit_reopen : Env → ℕ → ℕ → PreparedReversal → Db → Result Db
unfolding set_reopened
commit_reopen env fiscal_year reopened_by prepared db = do
  throw_if (not (reads_closed fiscal_year db)) (validation_failed "Fiscal year is not closed")
  done ← reverse_in_tx env prepared db
  set_reopened fiscal_year reopened_by env.now done.1

unfoldable pub reopen : Env → ℕ → ℕ → Db → Db → Result Db
reopen env fiscal_year reopened_by seen db = do
  rec ← or_throw (get_status fiscal_year seen) (validation_failed "Fiscal year is not closed")
  throw_if (not (is_closed rec.status)) (validation_failed "Fiscal year is not closed")
  elim rec.closing_entry_id [
    | none ↦ set_reopened fiscal_year reopened_by env.now db
    | some entry_id ↦ do
      prepared ← prepare_reversal entry_id reopened_by none true seen
      commit_reopen env fiscal_year reopened_by prepared db
  ]
