-- ===== src/Posting.antt =====
-- Journal posting (src/ledger/posting/): the double-entry check, the checks before the write, and
-- the writes themselves. Reads before a transaction and the transaction are separate functions,
-- since other requests may come in between. A function that writes returns the new database, and
-- an error leaves none: the transaction is rolled back. `$queryRaw … FOR UPDATE`, FOR SHARE and the
-- advisory locks order transactions, so each transaction is one step.
pub mod Write
pub mod Draft
pub mod Effects
pub mod DraftEffects
pub mod Rows
pub mod Prepared
pub mod Rules
pub mod PostableLines
pub mod Accepted
pub mod Ledger
pub mod History
pub mod GoodRows
pub mod Invariant
pub mod Guard
pub mod Closed
pub mod Balanced
use Prim.Native.String.{String}
use accounting_api.Common.{
  ℕ, ◌+◌, Bool, true, false, ◌&&◌, ◌||◌, not, Option, none, some, List, [], ◌∷◌, ◌++◌, ◌==◌, ltb,
  if◌then◌else◌, find, or_else, length, map,
}
use accounting_api.Common.Int.{ℤ, pos}
use accounting_api.Errors.{
  Result, ok, err, ◌>>=◌, ◌>>◌, throw_if, or_throw, validation_failed, not_found, unbalanced_entry,
  closed_period, closed_year, invalid_account, segregation_of_duties, unique_violation,
  record_not_found, check_violation,
}
use accounting_api.Money.{
  Decimals, Money, zero_money, add, equals, is_zero, is_negative, greater_than,
}
use accounting_api.Dates.{Date, truncate_to_utc_day}
use accounting_api.DocRef.{Text, codes, build_doc_ref}
use accounting_api.Sequence.{next_sequence_number}
use accounting_api.Store.{
  Db, Account, JournalEntry, JournalLine, JournalSourceType, reversal, JournalStatus, draft, posted,
  reversed, Timestamp, YearEndClosing, is_closed, is_open, is_draft, is_posted, is_none, is_some,
  holds,
}
use accounting_api.Store as Store
use accounting_api.Company
use accounting_api.Periods

-- An absent amount is `undefined`, and stands for '0'.
pub record PostLineInput : Type 0 where
  pub account_id : ℕ
  pub debit : Option Money
  pub credit : Option Money
  pub description : Option Text

pub record PostEntryInput : Type 0 where
  pub date : Date
  pub description : Text
  pub source_type : JournalSourceType
  pub source_id : Option ℕ
  pub created_by : ℕ
  pub lines : List PostLineInput

abbrev pub debit_of : PostLineInput → Money
debit_of l = or_else l.debit zero_money

abbrev pub credit_of : PostLineInput → Money
credit_of l = or_else l.credit zero_money

-- `dPos !== cPos`.
unfoldable pub has_one_side : PostLineInput → Bool
has_one_side l = if is_zero (debit_of l) then not (is_zero (credit_of l)) else is_zero (credit_of l)

module _ (D : Decimals) where
  -- The loop of `assertBalanced` over the lines, with its two totals, and the test after it.
  unfoldable pub check_lines : List PostLineInput → Money → Money → Result (Unit {0})
  check_lines [] debit credit =
      throw_if (not (equals debit credit))
        (unbalanced_entry "Total debits must equal total credits")
  check_lines (l ∷ ls) debit credit =
      let rest = check_lines ls (add D debit (debit_of l)) (add D credit (credit_of l)) in
      if has_one_side l
      then rest
      else err (unbalanced_entry "Each line must have exactly one of debit or credit > 0")

  unfoldable pub assert_balanced : List PostLineInput → Result (Unit {0})
  unfolding check_lines has_one_side
  assert_balanced lines =
      if ltb (length lines) 2
      then err (unbalanced_entry "An entry needs at least two lines")
      else check_lines lines zero_money zero_money

-- The soft-delete filter of the Prisma client.
abbrev pub account_by_id : ℕ → Account → Bool
account_by_id id a = (a.id == id) && is_none a.deleted_at

abbrev pub entry_by_id : ℕ → JournalEntry → Bool
entry_by_id id e = (e.id == id) && is_none e.deleted_at

-- `[...new Set(ids)]`: each id at its first place.
unfoldable pub without : ℕ → List ℕ → List ℕ
without a [] = []
without a (b ∷ bs) = let rest = without a bs in if b == a then rest else b ∷ rest

unfoldable pub unique_ids : List ℕ → List ℕ
unfolding without
unique_ids [] = []
unique_ids (a ∷ bs) = a ∷ without a (unique_ids bs)

unfoldable pub check_account : Db → ℕ → Result Account
check_account db id = elim (find (account_by_id id) db.accounts) [
  | none ↦ err (invalid_account "Account not found")
  | some a ↦
      if not a.is_postable
      then err (invalid_account "Account is not postable (header account)")
      else if not a.is_active
      then err (invalid_account "Account is inactive")
      else ok a
]

unfoldable pub check_accounts : Db → List ℕ → Result (List Account)
unfolding check_account
check_accounts db [] = ok []
check_accounts db (id ∷ ids) = do
  a ← check_account db id
  rest ← check_accounts db ids
  ok (a ∷ rest)

-- The accounts, in place of the map that is keyed by them.
unfoldable pub resolve_postable_accounts : List ℕ → Db → Result (List Account)
unfolding check_accounts unique_ids
resolve_postable_accounts ids db = check_accounts db (unique_ids ids)

unfoldable pub assert_postable_accounts : List PostLineInput → Db → Result (Unit {0})
unfolding resolve_postable_accounts
assert_postable_accounts lines db = do
  resolved ← resolve_postable_accounts (map (λ l. l.account_id) lines) db
  ok tt

-- `yearEndClosing.findFirst({ fiscalYear, status: 'CLOSED' })` finds a row; there is at most one
-- row of a fiscal year.
unfoldable pub is_year_closed : ℕ → Db → Bool
is_year_closed fiscal_year db = is_some (
    find (λ (c : YearEndClosing). (c.fiscal_year == fiscal_year) && is_closed c.status)
      db.year_end_closings)

-- The id of the open period and the fiscal year.
unfoldable pub assert_postable_date : Date → Db → Result (ℕ × ℕ)
assert_postable_date date db = elim (Periods.find_open_period_for_date date db) [
  | none ↦ err (closed_period "No open accounting period contains this date")
  | some period ↦ do
    fiscal_year ← Company.fiscal_year_for date db
    throw_if (is_year_closed fiscal_year db)
        (closed_year "Fiscal year is closed; reopen it before posting")
    ok (period.id, fiscal_year)
]

-- The tokens: no other code can build one.
pub record PreparedPosting : Type 0 where
  pub input : PostEntryInput
  pub posted_by : ℕ
  pub period_id : ℕ
  pub fiscal_year : ℕ

pub record PreparedReversal : Type 0 where
  pub original : JournalEntry
  pub reversed_by : ℕ
  pub period_id : ℕ
  pub fiscal_year : ℕ
  pub reversal_date : Date
  pub allow_closed_year : Bool

unfoldable pub prepare_posting : Decimals → PostEntryInput → ℕ → Db → Result PreparedPosting
prepare_posting D input posted_by db = do
  assert_balanced D input.lines
  violation ← Company.is_segregation_violation input.source_type input.created_by posted_by db
  throw_if violation (segregation_of_duties "The poster must differ from the entry creator")
  found ← assert_postable_date input.date db
  assert_postable_accounts input.lines db
  ok (record { input = input; posted_by = posted_by; period_id = found.0; fiscal_year = found.1 })

unfoldable pub prepare_reversal : ℕ → ℕ → Option Date → Bool → Db → Result PreparedReversal
prepare_reversal entry_id reversed_by date allow_closed_year db = do
  original ←
      or_throw (find (entry_by_id entry_id) db.journal_entries)
        (not_found "Journal entry not found")
  throw_if (not (is_posted original.status))
      (validation_failed "Only a POSTED entry can be reversed")
  let reversal_date = or_else date original.date
  period ←
      or_throw (Periods.find_open_period_for_date reversal_date db)
        (closed_period "No open period for the reversal date")
  fiscal_year ← Company.fiscal_year_for reversal_date db
  throw_if (not allow_closed_year && is_year_closed fiscal_year db)
      (closed_year "Fiscal year is closed; reopen it before reversing")
  ok (record {
    original = original;
    reversed_by = reversed_by;
    period_id = period.id;
    fiscal_year = fiscal_year;
    reversal_date = reversal_date;
    allow_closed_year = allow_closed_year;
  })
