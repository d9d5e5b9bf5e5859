-- ===== src/Balances.antt =====
-- Account balances from the posted journal (src/ledger/balances/). The SQL sums are exact; the
-- grouped query lists an account just when a line of it counts. Its ORDER BY is left out: the rows
-- come in the order of the accounts table.
pub mod Live
pub mod Totals
pub mod Appended
use accounting_api.Common.{
  ℕ, ◌+◌, Bool, true, false, ◌&&◌, not, Option, none, some, List, [], ◌∷◌, ◌++◌, map, find, ◌==◌,
  filter, if◌then◌else◌,
}
use accounting_api.Common.Int.{ℤ, pos, ◌+ℤ◌}
use accounting_api.Errors.{Result, ok, or_throw, not_found, ◌>>=◌}
use accounting_api.Money.{Decimals, Money, zero_money, add, subtract, is_zero}
use accounting_api.Dates.{Date, truncate_to_utc_day, leb_date}
use accounting_api.Store.{
  Db, Account, AccountType, asset, liability, equity, revenue, expense, NormalBalance, debit_normal,
  credit_normal, JournalEntry, JournalLine, is_some, is_none,
}
use accounting_api.Posting.{account_by_id}

-- POSTED_JE of posted-entry.sql.ts.
abbrev pub is_posted_je : JournalEntry → Bool
is_posted_je e = is_some e.posted_at && is_none e.deleted_at

-- The lines that the joins and the WHERE clause leave.
unfoldable pub counted_lines : (Date → Bool) → List JournalEntry → List JournalLine
counted_lines date_filter [] = []
counted_lines date_filter (e ∷ es) =
    let rest = counted_lines date_filter es in
    if is_posted_je e && date_filter e.date then e.lines ++ rest else rest

-- `SUM(jl.debit)` and `SUM(jl.credit)` of one account.
abbrev pub on_account : ℕ → JournalLine → Bool
on_account account_id l = l.account_id == account_id

unfoldable pub sum_debit : ℕ → List JournalLine → ℤ
sum_debit account_id [] = pos 0
sum_debit account_id (l ∷ ls) =
    (if on_account account_id l then l.debit else pos 0) +ℤ sum_debit account_id ls

unfoldable pub sum_credit : ℕ → List JournalLine → ℤ
sum_credit account_id [] = pos 0
sum_credit account_id (l ∷ ls) =
    (if on_account account_id l then l.credit else pos 0) +ℤ sum_credit account_id ls

pub record RawBalanceRow : Type 0 where
  pub account : Account
  pub debit : Money
  pub credit : Money

-- The groups of the given accounts.
unfoldable pub group_rows : List JournalLine → List Account → List RawBalanceRow
unfolding sum_debit sum_credit
group_rows ls [] = []
group_rows ls (a ∷ accounts) =
    let rest = group_rows ls accounts in
    if is_none a.deleted_at && is_some (find (on_account a.id) ls)
    then record { account = a; debit = sum_debit a.id ls; credit = sum_credit a.id ls } ∷ rest
    else rest

unfoldable pub grouped_balances : (Date → Bool) → Db → List RawBalanceRow
unfolding group_rows counted_lines
grouped_balances date_filter db =
    group_rows (counted_lines date_filter db.journal_entries) db.accounts

pub record AccountBalanceRow : Type 0 where
  pub account : Account
  pub debit : Money
  pub credit : Money
  pub balance : Money

pub record TrialBalance : Type 0 where
  pub rows : List AccountBalanceRow
  pub total_debit : Money
  pub total_credit : Money

module _ (D : Decimals) where
  -- signing.ts
  unfoldable pub signed_net : NormalBalance → Money → Money → Money
  signed_net debit_normal debit credit = subtract D debit credit
  signed_net credit_normal debit credit = subtract D credit debit

  unfoldable pub natural_side : AccountType → Money → Money → Money
  natural_side asset debit credit = subtract D debit credit
  natural_side expense debit credit = subtract D debit credit
  natural_side liability debit credit = subtract D credit debit
  natural_side equity debit credit = subtract D credit debit
  natural_side revenue debit credit = subtract D credit debit

  unfoldable pub to_row : RawBalanceRow → AccountBalanceRow
  unfolding signed_net
  to_row r = record {
    account = r.account;
    debit = r.debit;
    credit = r.credit;
    balance = signed_net r.account.normal_balance r.debit r.credit;
  }

  unfoldable pub balances_as_of : Date → Db → List AccountBalanceRow
  unfolding to_row grouped_balances
  balances_as_of as_of db =
      map to_row (grouped_balances (λ d. leb_date d (truncate_to_utc_day as_of)) db)

  unfoldable pub movements_between : Date → Date → Db → List AccountBalanceRow
  unfolding to_row grouped_balances
  movements_between from to db = map to_row (
      grouped_balances
        (λ d. leb_date (truncate_to_utc_day from) d && leb_date d (truncate_to_utc_day to)) db)

  -- The loop of `trialBalance`; the totals go by decimal.js's `add`.
  pub trial_rows : List RawBalanceRow → Money → Money → List AccountBalanceRow → TrialBalance
  unfolding to_row
  trial_rows [] total_debit total_credit out = record {
    rows = out;
    total_debit = total_debit;
    total_credit = total_credit;
  }
  trial_rows (r ∷ rs) total_debit total_credit out =
      let skipped = trial_rows rs total_debit total_credit out in
      let kept =
        trial_rows rs (D.plus total_debit r.debit) (D.plus total_credit r.credit)
          (out ++ (to_row r ∷ [])) in
      if is_zero r.debit && is_zero r.credit then skipped else kept

  pub trial_balance : Date → Db → TrialBalance
  unfolding trial_rows grouped_balances
  trial_balance as_of db =
      trial_rows (grouped_balances (λ d. leb_date d (truncate_to_utc_day as_of)) db) zero_money
        zero_money []

  -- `accountBalance`: one account, without a join to the accounts table.
  unfoldable pub account_balance : ℕ → Date → Db → Result AccountBalanceRow
  unfolding to_row counted_lines sum_debit sum_credit
  account_balance account_id as_of db = do
    account ← or_throw (find (account_by_id account_id) db.accounts) (not_found "Account not found")
    let ls = counted_lines (λ d. leb_date d (truncate_to_utc_day as_of)) db.journal_entries
    ok (
        to_row (record {
          account = account;
          debit = sum_debit account_id ls;
          credit = sum_credit account_id ls;
        }))
