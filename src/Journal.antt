-- ===== src/Journal.antt =====
-- The journal's requests (src/ledger/journal/journal.service.ts, `post` and `reverse` of
-- src/ledger/posting/posting.service.ts, and src/ledger/document-lifecycle.service.ts). A request
-- makes its checks on the database `seen` and commits on `db`, which may be a later one.
pub mod Opening
pub mod Guarded
use accounting_api.Common.{
  ℕ, Bool, true, false, not, Option, none, some, List, [], ◌∷◌, ◌++◌, find, if◌then◌else◌, String,
}
use accounting_api.Common.Int.{ℤ, pos, negsuc}
use accounting_api.Errors.{
  DomainError, Result, ok, err, ◌>>=◌, ◌>>◌, throw_if, or_throw, validation_failed, not_found,
  unique_violation,
}
use accounting_api.Money.{
  Decimals, Money, zero_money, add, subtract, multiply, is_zero, is_negative,
}
use accounting_api.Dates.{Date}
use accounting_api.DocRef.{codes}
use accounting_api.Store.{
  Db, Account, AccountRole, opening_balance_equity, JournalEntry, manual, opening, Timestamp,
  is_none,
}
use accounting_api.Posting.{
  PostLineInput, PostEntryInput, debit_of, credit_of, entry_by_id, prepare_posting,
  prepare_reversal,
}
use accounting_api.Posting.Write.{Env, create_posted_entry_in_tx, reverse_in_tx}
use accounting_api.Posting.Draft.{DraftInput, prepare_draft, post_draft_in_tx}
use accounting_api.Settlement.{DocumentStatus, is_posted_document}

pub post : Decimals → Env → PostEntryInput → ℕ → Db → Db → Result (JournalEntry × Db)
post D env input posted_by seen db = do
  prepared ← prepare_posting D input posted_by seen
  create_posted_entry_in_tx env prepared db

-- The `catch` of a lost race: P2002 becomes the given error.
unfoldable pub on_unique_violation {ℓ} : {A : Type ℓ} → DomainError → Result A → Result A
on_unique_violation e (ok a) = ok a
on_unique_violation e (err (unique_violation m)) = err e
on_unique_violation e (err other) = err other

pub reverse : Env → ℕ → ℕ → Option Date → Db → Db → Result (JournalEntry × Db)
reverse env entry_id reversed_by date seen db = do
  prepared ← prepare_reversal entry_id reversed_by date false seen
  on_unique_violation (validation_failed "Entry has already been reversed")
      (reverse_in_tx env prepared db)

pub get_by_id : ℕ → Db → Result JournalEntry
get_by_id id db =
    or_throw (find (entry_by_id id) db.journal_entries) (not_found "Journal entry not found")

pub post_draft : Decimals → Timestamp → ℕ → ℕ → Db → Db → Result Db
post_draft D now draft_id posted_by seen db = do
  prepared ← prepare_draft D draft_id posted_by seen
  post_draft_in_tx now prepared db

pub create_and_post : Decimals → Env → DraftInput → ℕ → Db → Db → Result (JournalEntry × Db)
create_and_post D env input posted_by seen db =
    post D env
      (record {
        date = input.date;
        description = input.description;
        source_type = manual;
        source_id = none;
        created_by = input.created_by;
        lines = input.lines;
      })
      posted_by seen db

abbrev pub is_opening_equity : Account → Bool
is_opening_equity a = elim a.role [
  | none ↦ false
  | some r ↦ elim r [ opening_balance_equity ↦ is_none a.deleted_at | _ ↦ false ]
]

-- The sums of the given balances.
pub opening_totals : Decimals → List PostLineInput → Money → Money → Money × Money
opening_totals D [] debit credit = (debit, credit)
opening_totals D (b ∷ bs) debit credit =
    opening_totals D bs (add D debit (debit_of b)) (add D credit (credit_of b))

-- The line on Opening Balance Equity, if the balances do not net to zero.
pub plug : Decimals → ℕ → Money → List PostLineInput
plug D equity_id diff =
    if is_zero diff
    then []
    else if is_negative diff
    then record {
      account_id = equity_id;
      debit = some (multiply D diff (negsuc 0) 0);
      credit = none;
      description = none;
    }
      ∷ []
    else record { account_id = equity_id; debit = none; credit = some diff; description = none }
      ∷ []

pub opening_lines : Decimals → ℕ → List PostLineInput → List PostLineInput
unfolding opening_totals plug
opening_lines D equity_id balances =
    let totals = opening_totals D balances zero_money zero_money in
    balances ++ plug D equity_id (subtract D totals.0 totals.1)

pub post_opening_balances :
    Decimals → Env → Date → List PostLineInput → ℕ → Db → Db → Result (JournalEntry × Db)
unfolding opening_lines
post_opening_balances D env date balances posted_by seen db = do
  equity ←
      or_throw (find is_opening_equity seen.accounts)
        (validation_failed "Opening Balance Equity account missing from chart")
  post D env
      (record {
        date = date;
        description = codes "Opening balances";
        source_type = opening;
        source_id = none;
        created_by = posted_by;
        lines = opening_lines D equity.id balances;
      })
      posted_by seen db

-- The voiding of a posted document, with its table `S`: the row's status under the lock, and the
-- changes before the reversal of its entry.
unfoldable pub reverse_with_guard {ℓ} :
    {S : Type ℓ}
    → Env
    → ℕ
    → ℕ
    → Option Date
    → (S → Option DocumentStatus)
    → (S → Result S)
    → Db
    → Db
    → S
    → Result (Db × S)
reverse_with_guard env journal_entry_id reversed_by date lock apply_in_tx seen db s = do
  prepared ← prepare_reversal journal_entry_id reversed_by date false seen
  on_unique_violation (validation_failed "The journal entry was already reversed") (do
    status ← or_throw (lock s) (validation_failed "The document is not posted")
    throw_if (not (is_posted_document status)) (validation_failed "The document is not posted")
    s' ← apply_in_tx s
    done ← reverse_in_tx env prepared db
    ok (done.1, s'))
