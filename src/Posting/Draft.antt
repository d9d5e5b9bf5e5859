-- ===== src/Posting/Draft.antt =====
-- Manual journal drafts: `createDraft` and `deleteDraft` of src/ledger/journal/journal.service.ts
-- with `softDeleteDraft` of src/ledger/document-lifecycle.service.ts, and `postDraft` of
-- src/ledger/posting/posting.service.ts, its reads and its transaction apart.
use accounting_api.Common.{
  ℕ, Bool, false, ◌&&◌, not, none, some, List, map, find, update_first, if◌then◌else◌,
}
use accounting_api.Errors.{
  Result, ok, err, ◌>>=◌, ◌>>◌, throw_if, or_throw, validation_failed, not_found, closed_period,
  closed_year, segregation_of_duties, unique_violation,
}
use accounting_api.Money.{Decimals}
use accounting_api.Dates.{Date, stored_day}
use accounting_api.DocRef.{Text}
use accounting_api.Store.{Db, JournalEntry, JournalLine, manual, draft, posted, is_draft, is_some}
use accounting_api.Company
use accounting_api.Periods
use accounting_api.Posting.{
  PostLineInput, assert_balanced, assert_postable_accounts, is_year_closed, entry_by_id,
}
use accounting_api.Posting.Write.{
  Env, insert_entry, stamp_posted_in_tx, stored_lines, is_number_taken,
}

pub record DraftInput : Type 0 where
  pub date : Date
  pub description : Text
  pub lines : List PostLineInput
  pub created_by : ℕ

unfoldable pub draft_entry : Env → DraftInput → JournalEntry
unfolding stored_lines
draft_entry env input = record {
  id = env.new_id;
  entry_number = none;
  entry_ref = none;
  fiscal_year = none;
  date = stored_day input.date;
  period_id = none;
  description = input.description;
  source_type = manual;
  source_id = none;
  status = draft;
  reversal_of_id = none;
  reversed_by_id = none;
  created_by = input.created_by;
  posted_by = none;
  posted_at = none;
  deleted_at = none;
  lines = stored_lines 1 input.lines;
}

unfoldable pub create_draft : Env → DraftInput → Db → Result (JournalEntry × Db)
create_draft env input db = do
  db' ← insert_entry (draft_entry env input) db
  ok (draft_entry env input, db')

-- The rows that the guards on a draft select: not deleted, and still a draft.
abbrev pub draft_by_id : ℕ → JournalEntry → Bool
draft_by_id id e = entry_by_id id e && is_draft e.status

abbrev pub deleted_at_time : ℕ → JournalEntry → JournalEntry
deleted_at_time now e = record e { deleted_at = some now }

-- `deletedBy` is left out.
unfoldable pub soft_delete_draft : ℕ → ℕ → Db → Result Db
soft_delete_draft id now db =
    if is_some (find (draft_by_id id) db.journal_entries)
    then ok (record db {
      journal_entries = update_first (draft_by_id id) (deleted_at_time now) db.journal_entries;
    })
    else err (validation_failed "Only a DRAFT entry can be deleted")

-- What the reads of `postDraft` hand to its transaction.
pub record PreparedDraft : Type 0 where
  pub draft_id : ℕ
  pub posted_by : ℕ
  pub period_id : ℕ
  pub fiscal_year : ℕ

abbrev pub to_input : JournalLine → PostLineInput
to_input l = record {
  account_id = l.account_id;
  debit = some l.debit;
  credit = some l.credit;
  description = none;
}

unfoldable pub prepare_draft : Decimals → ℕ → ℕ → Db → Result PreparedDraft
prepare_draft D draft_id posted_by db = do
  e ←
      or_throw (find (entry_by_id draft_id) db.journal_entries)
        (not_found "Journal entry not found")
  throw_if (not (is_draft e.status)) (validation_failed "Entry is not a draft")
  assert_balanced D (map to_input e.lines)
  violation ← Company.is_segregation_violation e.source_type e.created_by posted_by db
  throw_if violation (segregation_of_duties "The poster must differ from the entry creator")
  period ←
      or_throw (Periods.find_open_period_for_date e.date db)
        (closed_period "No open accounting period contains this date")
  assert_postable_accounts (map to_input e.lines) db
  fiscal_year ← Company.fiscal_year_for e.date db
  throw_if (is_year_closed fiscal_year db)
      (closed_year "Fiscal year is closed; reopen it before posting")
  ok (record {
    draft_id = draft_id;
    posted_by = posted_by;
    period_id = period.id;
    fiscal_year = fiscal_year;
  })

-- The columns that a promotion sets.
unfoldable pub promoted : ℕ → PreparedDraft → ℕ → Text → JournalEntry → JournalEntry
promoted now prepared entry_number entry_ref e = record e {
  entry_number = some entry_number;
  entry_ref = some entry_ref;
  fiscal_year = some prepared.fiscal_year;
  period_id = some prepared.period_id;
  status = posted;
  posted_by = some prepared.posted_by;
  posted_at = some now;
}

-- The transaction: the draft is locked and tested again before a number is taken.
unfoldable pub post_draft_in_tx : ℕ → PreparedDraft → Db → Result Db
post_draft_in_tx now prepared db = do
  throw_if (not (is_some (find (draft_by_id prepared.draft_id) db.journal_entries)))
      (validation_failed "Entry is no longer a draft")
  stamp ← stamp_posted_in_tx prepared.period_id prepared.fiscal_year false db
  throw_if (is_number_taken (some prepared.fiscal_year) (some stamp.0) db.journal_entries)
      (unique_violation "fiscal_year,entry_number")
  ok (record stamp.2 {
    journal_entries =
        update_first (draft_by_id prepared.draft_id) (promoted now prepared stamp.0 stamp.1)
          db.journal_entries;
  })
