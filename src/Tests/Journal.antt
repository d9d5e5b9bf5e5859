-- ===== src/Tests/Journal.antt =====
-- The posting theorems on a sale that is posted and then reversed.
use accounting_api.Common.{
  ◌≤◌, ◌≡◌, ◌↔◌, ◌⊎◌, refl, true, false, none, some, List, [], ◌∷◌, length, All, find, arith,
}
use accounting_api.Common.Int.{pos, ◌+ℤ◌}
use accounting_api.Errors.{ok}
use accounting_api.Money.{half_up_ℕ, half_up, new_money, add}
use accounting_api.Dates.{truncate_to_utc_day, fiscal_year_for_date}
use accounting_api.DocRef.{build_doc_ref}
use accounting_api.Sequence.{ensure_row, read_number, next_sequence_number}
use accounting_api.Company.{fiscal_year_for, is_segregation_violation}
use accounting_api.Periods.{close, closed, reopen, contains, find_open_period_for_date}
use accounting_api.Store.{CompanySettings, Db, JournalEntry, JournalLine, is_draft}
use accounting_api.Posting.Balanced.{OneSided, debits, credits, assert_balanced_iff}
use accounting_api.Posting.Write.{
  Env, line_check, lines_check, is_number_taken, is_reversal_taken, insert_entry,
  assert_postable_period_in_tx, next_number, stamp_posted_in_tx, stored_lines, posted_entry,
  create_posted_entry_in_tx, swapped_lines, reversed_by, mark_reversed, reverse_in_tx,
  reversal_entry,
}
use accounting_api.Posting.Rows.{row_by_id, line_debits, GoodRow}
use accounting_api.Posting.Ledger.{IsLedger, next_of}
use accounting_api.Posting.History.{Later, here, post, reverse}
use accounting_api.Posting.Invariant.{Later-IsLedger, Later-kept}
use accounting_api.Posting.Guard.{
  posting, reversing, commit, IsPeriodOpen, IsYearOpen, commit_into_open, net, net-swapped_lines,
}
use accounting_api.Posting.Closed.{commit-close, reopen-close}
use accounting_api.Balances.{
  counted_lines, sum_debit, sum_credit, group_rows, grouped_balances, trial_balance,
}
use accounting_api.Balances.Totals.{RowsFit, lines_as_of, rows_as_of, trial_balance-balanced}
use accounting_api.Balances.Live.{OnAccounts}
use accounting_api.Journal.{opening_lines}
use accounting_api.Journal.Opening.{opening_lines-balanced}
use accounting_api.Posting.{
  has_one_side, check_lines, assert_balanced, without, unique_ids, check_account, check_accounts,
  resolve_postable_accounts, assert_postable_accounts, is_year_closed, assert_postable_date,
  PreparedPosting, prepare_posting, prepare_reversal, PreparedReversal, PostLineInput,
}
use accounting_api.Tests.{january, exact, day, empty_book, sale, sale_lines}

abbrev env : Env
env = record { new_id = 11; now = 1000 }

abbrev prepared : PreparedPosting
prepared = record { input = sale; posted_by = 4; period_id = 7; fiscal_year = 2026 }

abbrev stored : List JournalLine
stored =
    record { line_no = 1; account_id = 1; debit = pos 50000000; credit = pos 0; description = none }
    ∷ record {
      line_no = 2;
      account_id = 2;
      debit = pos 0;
      credit = pos 50000000;
      description = none;
    }
    ∷ []

prepare-sale : prepare_posting exact sale 4 empty_book ≡ ok prepared
unfolding prepare_posting assert_balanced check_lines has_one_side add new_money half_up half_up_ℕ
    ◌+ℤ◌ is_segregation_violation assert_postable_date find_open_period_for_date contains
    truncate_to_utc_day fiscal_year_for fiscal_year_for_date is_year_closed assert_postable_accounts
    resolve_postable_accounts unique_ids without check_accounts check_account
prepare-sale = refl

abbrev pub sale_entry : JournalEntry
sale_entry = posted_entry env prepared 1 (build_doc_ref "JE" 2026 1)

abbrev pub book : Db
book = record empty_book { journal_sequences = (2026, 2) ∷ []; journal_entries = sale_entry ∷ [] }

create-sale : create_posted_entry_in_tx env prepared empty_book ≡ ok (sale_entry, book)
unfolding create_posted_entry_in_tx stamp_posted_in_tx assert_postable_period_in_tx next_number
    next_sequence_number ensure_row read_number insert_entry is_number_taken is_reversal_taken
    lines_check line_check posted_entry stored_lines
create-sale = refl

empty-IsLedger : IsLedger empty_book.journal_entries empty_book.journal_sequences
unfolding next_of read_number
empty-IsLedger = record {
  unique = λ id. omega arith;
  started = λ fy. omega arith;
  gapless = λ fy n. ground arith;
  once = λ id. omega arith;
  rows = tt;
}

sale-Later : Later exact empty_book book
sale-Later =
    post (here refl) (here refl) env sale 4 prepared sale_entry (omega arith) prepare-sale
      create-sale

Later-IsLedger_example : IsLedger book.journal_entries book.journal_sequences
Later-IsLedger_example = Later-IsLedger exact sale-Later empty-IsLedger

commit-sale : commit (posting env prepared) empty_book ≡ ok book
unfolding commit
commit-sale = rw (commit, create-sale) refl

commit_into_open_example : IsPeriodOpen 7 empty_book × ((false ≡ true) ⊎ IsYearOpen 2026 empty_book)
commit_into_open_example = commit_into_open (posting env prepared) empty_book book commit-sale

assert_balanced_iff_example :
    (assert_balanced exact sale_lines ≡ ok tt)
    ↔ ((2 ≤ length sale_lines) × All OneSided sale_lines × (debits sale_lines ≡ credits sale_lines))
assert_balanced_iff_example = assert_balanced_iff exact sale_lines (omega arith)

-- The sale is reversed on the same day.
abbrev reverse_env : Env
reverse_env = record { new_id = 12; now = 2000 }

abbrev reversing_sale : PreparedReversal
reversing_sale = record {
  original = sale_entry;
  reversed_by = 4;
  period_id = 7;
  fiscal_year = 2026;
  reversal_date = day 2026 1 15;
  allow_closed_year = false;
}

prepare-reversal : prepare_reversal 11 4 none false book ≡ ok reversing_sale
unfolding prepare_reversal posted_entry find_open_period_for_date contains truncate_to_utc_day
    fiscal_year_for fiscal_year_for_date is_year_closed
prepare-reversal = refl

abbrev back_entry : JournalEntry
back_entry = reversal_entry reverse_env reversing_sale 2 (build_doc_ref "JE" 2026 2)

abbrev undone_book : Db
undone_book = record book {
  journal_sequences = (2026, 3) ∷ [];
  journal_entries = reversed_by 12 sale_entry ∷ back_entry ∷ [];
}

reverse-sale : reverse_in_tx reverse_env reversing_sale book ≡ ok (back_entry, undone_book)
unfolding reverse_in_tx mark_reversed stamp_posted_in_tx assert_postable_period_in_tx next_number
    next_sequence_number ensure_row read_number insert_entry is_number_taken is_reversal_taken
    lines_check line_check posted_entry reversal_entry swapped_lines stored_lines
reverse-sale = refl

reverse-Later : Later exact book undone_book
reverse-Later =
    reverse (here refl) (here refl) reverse_env 11 4 none false reversing_sale back_entry
      prepare-reversal reverse-sale

found-sale : find (row_by_id 11) book.journal_entries ≡ some sale_entry
unfolding posted_entry
found-sale = refl

is_draft-sale : is_draft sale_entry.status ≡ false
unfolding posted_entry
is_draft-sale = refl

Later-kept_example :
    (e' : JournalEntry) × (find (row_by_id 11) undone_book.journal_entries ≡ some e')
    × (e'.lines ≡ sale_entry.lines)
    × (e'.date ≡ sale_entry.date)
    × (e'.entry_number ≡ sale_entry.entry_number)
    × (e'.fiscal_year ≡ sale_entry.fiscal_year)
    × (is_draft e'.status ≡ false)
Later-kept_example =
    Later-kept exact {db = book} {db' = undone_book} 11 sale_entry reverse-Later found-sale
      is_draft-sale

-- The period is closed before the reversal commits.
abbrev shut_book : Db
shut_book = record book { periods = closed 3 1500 january ∷ [] }

close-january : close 7 3 1500 book ≡ ok shut_book
unfolding close
close-january = refl

commit-close_example : ¬ (commit (reversing reverse_env reversing_sale) shut_book ≡ ok undone_book)
commit-close_example =
    commit-close 7 3 1500 (reversing reverse_env reversing_sale) book shut_book undone_book
      close-january refl

reopen-close_example : reopen 7 shut_book ≡ ok book
reopen-close_example = reopen-close 7 3 1500 january book shut_book refl refl refl close-january

pub sale-GoodRows : All GoodRow book.journal_entries
sale-GoodRows = (Later-IsLedger exact sale-Later empty-IsLedger).rows

pub sale-OnAccounts : OnAccounts book.accounts (lines_as_of (day 2026 1 31) book)
unfolding counted_lines posted_entry stored_lines truncate_to_utc_day
sale-OnAccounts = (refl, (refl, tt))

sale-RowsFit : RowsFit exact (rows_as_of (day 2026 1 31) book)
unfolding grouped_balances group_rows sum_debit sum_credit counted_lines posted_entry stored_lines
    truncate_to_utc_day ◌+ℤ◌
sale-RowsFit = omega arith

trial_balance-balanced_example :
    ((trial_balance exact (day 2026 1 31) book).total_debit
      ≡ (trial_balance exact (day 2026 1 31) book).total_credit)
    × ((trial_balance exact (day 2026 1 31) book).total_debit
        ≡ line_debits (lines_as_of (day 2026 1 31) book))
trial_balance-balanced_example =
    trial_balance-balanced exact (day 2026 1 31) book sale-GoodRows sale-OnAccounts sale-RowsFit

abbrev settings : CompanySettings
settings = record { fiscal_year_start_month = 1; segregation_of_duties_enabled = true }

net-swapped_lines_example : net 1 (swapped_lines stored) +ℤ net 1 stored ≡ pos 0
net-swapped_lines_example = net-swapped_lines 1 stored

-- A cash balance with nothing against it.
abbrev cash_only : List PostLineInput
cash_only =
    record { account_id = 1; debit = some (pos 25000000); credit = none; description = none } ∷ []

opening_lines-balanced_example :
    debits (opening_lines exact 3 cash_only) ≡ credits (opening_lines exact 3 cash_only)
opening_lines-balanced_example = opening_lines-balanced exact 3 cash_only (omega arith)
