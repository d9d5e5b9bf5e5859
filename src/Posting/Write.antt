-- ===== src/Posting/Write.antt =====
-- The in-transaction writes of src/ledger/posting/posting.service.ts, and the constraints that
-- the migrations put on the two journal tables.
use accounting_api.Common.{
  ℕ, ◌+◌, Bool, true, false, ◌&&◌, ◌||◌, not, Option, none, some, List, [], ◌∷◌, ◌++◌, ◌==◌,
  if◌then◌else◌, find, update_first,
}
use accounting_api.Errors.{
  Result, ok, err, ◌>>=◌, ◌>>◌, throw_if, validation_failed, closed_year, unique_violation,
  record_not_found, check_violation,
}
use accounting_api.Money.{zero_money, is_zero, greater_than, is_negative}
use accounting_api.DocRef.{Text, codes, build_doc_ref}
use accounting_api.Sequence.{next_sequence_number}
use accounting_api.Dates.{stored_day}
use accounting_api.Store.{
  Db, JournalEntry, JournalLine, posted, reversed, reversal, Timestamp, Sequences, is_closed,
  is_open, is_some, holds,
}
use accounting_api.Periods
use accounting_api.Posting.{
  PostLineInput, PreparedPosting, PreparedReversal, debit_of, credit_of, entry_by_id,
}

-- What a write takes from outside: the new row's uuid and `new Date()`.
pub record Env : Type 0 where
  pub new_id : ℕ
  pub now : Timestamp

-- CHECK (debit >= 0 AND credit >= 0 AND (debit = 0 OR credit = 0) AND (debit > 0 OR credit > 0)).
unfoldable pub line_check : JournalLine → Bool
line_check l =
    (not (is_negative l.debit) && not (is_negative l.credit))
    && ((is_zero l.debit || is_zero l.credit)
        && (greater_than l.debit zero_money || greater_than l.credit zero_money))

unfoldable pub lines_check : List JournalLine → Bool
unfolding line_check
lines_check [] = true
lines_check (l ∷ ls) = line_check l && lines_check ls

-- UNIQUE (fiscal_year, entry_number); NULLs never clash.
abbrev pub numbered : ℕ → ℕ → JournalEntry → Bool
numbered fiscal_year number e = holds e.fiscal_year fiscal_year && holds e.entry_number number

-- UNIQUE (reversal_of_id).
abbrev pub reverses : ℕ → JournalEntry → Bool
reverses id e = holds e.reversal_of_id id

unfoldable pub is_number_taken : Option ℕ → Option ℕ → List JournalEntry → Bool
is_number_taken (some fiscal_year) (some number) es =
    is_some (find (numbered fiscal_year number) es)
is_number_taken _ _ es = false

unfoldable pub is_reversal_taken : Option ℕ → List JournalEntry → Bool
is_reversal_taken none es = false
is_reversal_taken (some id) es = is_some (find (reverses id) es)

-- `journalEntry.create`, under the constraints.
unfoldable pub insert_entry : JournalEntry → Db → Result Db
unfolding is_number_taken is_reversal_taken lines_check
insert_entry e db = do
  throw_if (is_some (find (λ o. o.id == e.id) db.journal_entries)) (unique_violation "id")
  throw_if (is_number_taken e.fiscal_year e.entry_number db.journal_entries)
      (unique_violation "fiscal_year,entry_number")
  throw_if (is_reversal_taken e.reversal_of_id db.journal_entries)
      (unique_violation "reversal_of_id")
  throw_if (not (lines_check e.lines)) (check_violation "journal_lines")
  ok (record db { journal_entries = db.journal_entries ++ (e ∷ []) })

-- `SELECT status FROM year_end_closings` finds CLOSED.
abbrev pub reads_closed : ℕ → Db → Bool
reads_closed fiscal_year db = elim (find (λ c. c.fiscal_year == fiscal_year) db.year_end_closings) [
  | none ↦ false
  | some yr ↦ is_closed yr.status
]

-- `SELECT status FROM accounting_periods` finds OPEN.
abbrev pub reads_open : ℕ → Db → Bool
reads_open period_id db = elim (find (Periods.has_id period_id) db.periods) [
  | none ↦ false
  | some p ↦ is_open p.status
]

-- The in-transaction guard: the year is not closed, unless that is allowed, and the period is open.
unfoldable pub assert_postable_period_in_tx : ℕ → ℕ → Bool → Db → Result (Unit {0})
assert_postable_period_in_tx period_id fiscal_year allow_closed_year db = do
  throw_if (not allow_closed_year && reads_closed fiscal_year db)
      (closed_year "Fiscal year is closed; reopen it before posting")
  throw_if (not (reads_open period_id db))
      (validation_failed "No open accounting period contains this date")

unfoldable pub next_number : ℕ → Sequences → ℕ × Sequences
unfolding next_sequence_number
next_number fiscal_year seqs = next_sequence_number (λ a b. a == b) fiscal_year seqs

-- The number and reference of a posted entry, and the database with the counter moved.
unfoldable pub stamp_posted_in_tx : ℕ → ℕ → Bool → Db → Result (ℕ × Text × Db)
stamp_posted_in_tx period_id fiscal_year allow_closed_year db = do
  assert_postable_period_in_tx period_id fiscal_year allow_closed_year db
  let stamped = next_number fiscal_year db.journal_sequences
  ok (
    stamped.0,
    build_doc_ref "JE" fiscal_year stamped.0,
    record db { journal_sequences = stamped.1 },
  )

-- `input.lines.map((l, i) => …)`, from line number `n`.
unfoldable pub stored_lines : ℕ → List PostLineInput → List JournalLine
stored_lines n [] = []
stored_lines n (l ∷ ls) =
    record {
      line_no = n;
      account_id = l.account_id;
      debit = debit_of l;
      credit = credit_of l;
      description = l.description;
    }
    ∷ stored_lines (n + 1) ls

unfoldable pub posted_entry : Env → PreparedPosting → ℕ → Text → JournalEntry
unfolding stored_lines
posted_entry env prepared entry_number entry_ref = record {
  id = env.new_id;
  entry_number = some entry_number;
  entry_ref = some entry_ref;
  fiscal_year = some prepared.fiscal_year;
  date = stored_day prepared.input.date;
  period_id = some prepared.period_id;
  description = prepared.input.description;
  source_type = prepared.input.source_type;
  source_id = prepared.input.source_id;
  status = posted;
  reversal_of_id = none;
  reversed_by_id = none;
  created_by = prepared.input.created_by;
  posted_by = some prepared.posted_by;
  posted_at = some env.now;
  deleted_at = none;
  lines = stored_lines 1 prepared.input.lines;
}

unfoldable pub create_posted_entry_in_tx : Env → PreparedPosting → Db → Result (JournalEntry × Db)
create_posted_entry_in_tx env prepared db = do
  stamp ← stamp_posted_in_tx prepared.period_id prepared.fiscal_year false db
  let entry = posted_entry env prepared stamp.0 stamp.1
  db' ← insert_entry entry stamp.2
  ok (entry, db')

unfoldable pub swapped_lines : List JournalLine → List JournalLine
swapped_lines [] = []
swapped_lines (l ∷ ls) = record l { debit = l.credit; credit = l.debit } ∷ swapped_lines ls

-- What a template literal makes of a nullable reference.
abbrev ref_text : Option Text → Text
ref_text none = codes "null"
ref_text (some ref) = ref

unfoldable pub reversal_entry : Env → PreparedReversal → ℕ → Text → JournalEntry
unfolding swapped_lines
reversal_entry env prepared entry_number entry_ref = record {
  id = env.new_id;
  entry_number = some entry_number;
  entry_ref = some entry_ref;
  fiscal_year = some prepared.fiscal_year;
  date = stored_day prepared.reversal_date;
  period_id = some prepared.period_id;
  description = codes "Reversal of " ++ ref_text prepared.original.entry_ref;
  source_type = reversal;
  source_id = none;
  status = posted;
  reversal_of_id = some prepared.original.id;
  reversed_by_id = none;
  created_by = prepared.reversed_by;
  posted_by = some prepared.reversed_by;
  posted_at = some env.now;
  deleted_at = none;
  lines = swapped_lines prepared.original.lines;
}

abbrev pub reversed_by : ℕ → JournalEntry → JournalEntry
reversed_by reversal_id e = record e { status = reversed; reversed_by_id = some reversal_id }

-- `journalEntry.update` to REVERSED, which misses a deleted row.
unfoldable pub mark_reversed : ℕ → ℕ → Db → Result Db
mark_reversed id reversal_id db =
    if is_some (find (entry_by_id id) db.journal_entries)
    then ok (record db {
      journal_entries = update_first (entry_by_id id) (reversed_by reversal_id) db.journal_entries;
    })
    else err (record_not_found "journal_entries")

unfoldable pub reverse_in_tx : Env → PreparedReversal → Db → Result (JournalEntry × Db)
reverse_in_tx env prepared db = do
  stamp ← stamp_posted_in_tx prepared.period_id prepared.fiscal_year prepared.allow_closed_year db
  let entry = reversal_entry env prepared stamp.0 stamp.1
  db' ← insert_entry entry stamp.2
  db'' ← mark_reversed prepared.original.id entry.id db'
  ok (entry, db'')
