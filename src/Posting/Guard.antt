-- ===== src/Posting/Guard.antt =====
-- The in-transaction guard against closed periods and years, and reversal as the inverse.
use accounting_api.Common.{
  ℕ, ◌≡◌, ◌⊎◌, Bool, true, false, not, ◌&&◌, none, some, List, [], ◌∷◌, find, arith, ◌==◌,
  if◌then◌else◌, Option-cases, Bool-cases, inl, inr,
}
use accounting_api.Common.Int.{ℤ, pos, ◌+ℤ◌, ◌-ℤ◌, int_laws, parts_of_eq}
use accounting_api.Errors.{Result, ok, >>=-eq-ok, ◌>>=◌, throw_if-eq-ok}
use accounting_api.Store.{Db, JournalLine, AccountingPeriod, YearEndClosing, is_open, is_closed}
use accounting_api.Periods
use accounting_api.Posting.{PreparedPosting, PreparedReversal}
use accounting_api.Posting.Write.{
  Env, reads_open, reads_closed, assert_postable_period_in_tx, create_posted_entry_in_tx,
  reverse_in_tx, swapped_lines,
}
use accounting_api.Posting.Draft.{PreparedDraft, post_draft_in_tx}
use accounting_api.Posting.Effects.{create_posted_entry_in_tx-Booked, reverse_in_tx-Booked}
use accounting_api.Posting.DraftEffects.{post_draft_in_tx-Promoted}

-- The period is there and open.
pub record IsPeriodOpen (period_id : ℕ) (db : Db) : Type 0 where
  pub period : AccountingPeriod
  pub found : find (Periods.has_id period_id) db.periods ≡ some period
  pub open_now : is_open period.status ≡ true

-- The year has no closing, or one that was reopened.
abbrev pub IsYearOpen : ℕ → Db → Type 0
IsYearOpen fiscal_year db =
    (find (λ k. k.fiscal_year == fiscal_year) db.year_end_closings ≡ none)
    ⊎ ((c : YearEndClosing) × (find (λ k. k.fiscal_year == fiscal_year) db.year_end_closings
          ≡ some c)
        × (is_closed c.status ≡ false))

reads_open-IsPeriodOpen :
    (period_id : ℕ) (db : Db) → reads_open period_id db ≡ true → IsPeriodOpen period_id db
reads_open-IsPeriodOpen period_id db h =
    elim (Option-cases (find (Periods.has_id period_id) db.periods)) [
      | inl e ↦ absurd (cc (ground_none e))
      | inr (q, e) ↦ record { period = q; found = e; open_now = ground arith }
    ]
  where
    ground_none : find (Periods.has_id period_id) db.periods ≡ none → false ≡ true
    ground_none e = ground arith

reads_closed-IsYearOpen : (fy : ℕ) (db : Db) → reads_closed fy db ≡ false → IsYearOpen fy db
reads_closed-IsYearOpen fy db h =
    elim (Option-cases (find (λ k. k.fiscal_year == fy) db.year_end_closings)) [
      | inl e ↦ inl e
      | inr (c, e) ↦ inr (c, e, ground arith)
    ]

guard-postable :
    (period_id fy : ℕ) (allow : Bool) (db : Db)
    → assert_postable_period_in_tx period_id fy allow db ≡ ok tt
    → IsPeriodOpen period_id db × (allow ≡ false → IsYearOpen fy db)
unfolding assert_postable_period_in_tx
guard-postable period_id fy allow db h =
    let (year, h1) = throw_if-eq-ok (not allow && reads_closed fy db) _ _ h in
    (
      reads_open-IsPeriodOpen period_id db (ground arith),
      λ a. reads_closed-IsYearOpen fy db (ground arith),
    )

-- The three transactions that post an entry, with what their earlier checks handed them.
pub data Transaction : Type 0 where
  posting : Env → PreparedPosting → Transaction
  promotion : ℕ → PreparedDraft → Transaction
  reversing : Env → PreparedReversal → Transaction

unfoldable pub commit : Transaction → Db → Result Db
commit (posting env p) db = do done ← create_posted_entry_in_tx env p db; ok done.1
commit (promotion now d) db = post_draft_in_tx now d db
commit (reversing env r) db = do done ← reverse_in_tx env r db; ok done.1

abbrev pub period_of : Transaction → ℕ
period_of (posting env p) = p.period_id
period_of (promotion now d) = d.period_id
period_of (reversing env r) = r.period_id

abbrev pub fiscal_year_of : Transaction → ℕ
fiscal_year_of (posting env p) = p.fiscal_year
fiscal_year_of (promotion now d) = d.fiscal_year
fiscal_year_of (reversing env r) = r.fiscal_year

-- Only the reversal of a closing entry, when a year is reopened.
abbrev pub allows_closed_year : Transaction → Bool
allows_closed_year (posting env p) = false
allows_closed_year (promotion now d) = false
allows_closed_year (reversing env r) = r.allow_closed_year

commit_guarded :
    (t : Transaction) (db db' : Db)
    → commit t db ≡ ok db'
    → assert_postable_period_in_tx (period_of t) (fiscal_year_of t) (allows_closed_year t) db
      ≡ ok tt
unfolding commit
commit_guarded (posting env p) db db' h =
    let ((e, d), hd, same) = >>=-eq-ok (create_posted_entry_in_tx env p db) _ h in
    let (n, ref, is, b) = create_posted_entry_in_tx-Booked env p db d e hd in b.guarded
commit_guarded (promotion now d) db db' h = (post_draft_in_tx-Promoted now d db db' h).guarded
commit_guarded (reversing env r) db db' h =
    let ((e, d), hd, same) = >>=-eq-ok (reverse_in_tx env r db) _ h in
    let (n, ref, is, mid, b, there, es, seqs) = reverse_in_tx-Booked env r db d e hd in b.guarded

-- Whatever its earlier checks have seen, a posting, a promotion of a draft or a reversal commits only
-- on a database in which its period is open and its fiscal year is not closed; only a reversal that
-- was prepared for a closed year is spared the second test.
pub commit_into_open :
    (t : Transaction) (db db' : Db)
    → commit t db ≡ ok db'
    → IsPeriodOpen (period_of t) db
      × ((allows_closed_year t ≡ true) ⊎ IsYearOpen (fiscal_year_of t) db)
commit_into_open t db db' h =
    let g =
      guard-postable (period_of t) (fiscal_year_of t) (allows_closed_year t) db
        (commit_guarded t db db' h) in
    (g.0, elim (Bool-cases (allows_closed_year t)) [ inl a ↦ inl a | inr a ↦ inr (g.1 a) ])

-- What the lines post to one account: debits less credits.
pub net : ℕ → List JournalLine → ℤ
net account_id [] = pos 0
net account_id (l ∷ ls) =
    if l.account_id == account_id
    then (l.debit -ℤ l.credit) +ℤ net account_id ls
    else net account_id ls

-- On every account a reversal's lines undo those of the original.
pub net-swapped_lines :
    (account_id : ℕ) (ls : List JournalLine)
    → net account_id (swapped_lines ls) +ℤ net account_id ls ≡ pos 0
unfolding net swapped_lines
net-swapped_lines a [] = omega int_laws
net-swapped_lines a (l ∷ ls) =
    let ih = parts_of_eq (net-swapped_lines a ls) in
    elim (Bool-cases (l.account_id == a)) [
      | inl t ↦ rw t (omega (int_laws, ih))
      | inr t ↦ rw t (omega (int_laws, ih))
    ]
