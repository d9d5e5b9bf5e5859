-- ===== src/Posting/Closed.antt =====
-- What the closing of a period does to postings, and its reopening.
use accounting_api.Common.{
  ℕ, ◌≡◌, refl, sym, ◌∙◌, ap, true, not, none, some, find, update_first, find-holds,
  find-update_same, update_first-undo, Option-cases, inl, inr, not-false,
}
use accounting_api.Errors.{ok, throw_if-eq-ok}
use accounting_api.Store.{
  Db, AccountingPeriod, open_period, shut_period, PeriodStatus, is_open, Timestamp,
}
use accounting_api.Periods.{has_id, close, reopen, closed, reopened}
use accounting_api.Posting.Guard.{Transaction, commit, period_of, commit_into_open}

-- What a closing that went through has found and done.
record Closed (id closed_by : ℕ) (now : Timestamp) (db db' : Db) : Type 0 where
  period : AccountingPeriod
  found : find (has_id id) db.periods ≡ some period
  was_open : is_open period.status ≡ true
  after : db' ≡ record db { periods = update_first (has_id id) (closed closed_by now) db.periods }

close-Closed :
    (id closed_by : ℕ) (now : Timestamp) (db db' : Db)
    → close id closed_by now db ≡ ok db'
    → Closed id closed_by now db db'
unfolding close
close-Closed id closed_by now db db' h = elim (Option-cases (find (has_id id) db.periods)) [
  | inl e ↦ let h' = rw (close, e) at h in absurd (cc)
  | inr (p, e) ↦
      let h' = rw (close, e) at h in
      let (o, same) = throw_if-eq-ok (not (is_open p.status)) _ _ h' in
      record { period = p; found = e; was_open = not-false _ o; after = cc }
]

-- Once a period is closed, no posting, promotion of a draft or reversal that was prepared for it
-- commits, whatever its earlier checks have seen.
pub commit-close :
    (id closed_by : ℕ) (now : Timestamp) (t : Transaction) (db db' db'' : Db)
    → close id closed_by now db ≡ ok db'
    → period_of t ≡ id
    → ¬ (commit t db' ≡ ok db'')
commit-close id closed_by now t db db' db'' h same committed =
    let c = close-Closed id closed_by now db db' h in
    let o = (commit_into_open t db' db'' committed).0 in
    let shut : find (has_id id) db'.periods ≡ some (closed closed_by now c.period) = rw c.after (
      find-update_same (has_id id) (closed closed_by now) c.period db.periods c.found
        (find-holds (has_id id) c.period db.periods c.found)) in
    let found : find (has_id id) db'.periods ≡ some o.period = rw (← same) o.found in
    let is : closed closed_by now c.period ≡ o.period = cc in cc (o.open_now)

open_of : (s : PeriodStatus) → is_open s ≡ true → s ≡ open_period
open_of open_period h = refl
open_of shut_period h = absurd (cc)

closed_then_reopened :
    (closed_by : ℕ) (now : Timestamp) (p : AccountingPeriod)
    → is_open p.status ≡ true
    → p.closed_at ≡ none
    → p.closed_by ≡ none
    → reopened (closed closed_by now p) ≡ p
closed_then_reopened closed_by now p o at by =
    ap (λ s. record p { status = s; closed_at = none; closed_by = none }) (sym (open_of p.status o))
    ∙ ap (λ a. record p { closed_at = a; closed_by = none }) (sym at)
    ∙ ap (λ b. record p { closed_by = b }) (sym by)

-- The reopening of a period that was just closed gives the database back as it was, if the open
-- period bore no closing time and no closer.
pub reopen-close :
    (id closed_by : ℕ) (now : Timestamp) (p : AccountingPeriod) (db db' : Db)
    → find (has_id id) db.periods ≡ some p
    → p.closed_at ≡ none
    → p.closed_by ≡ none
    → close id closed_by now db ≡ ok db'
    → reopen id db' ≡ ok db
unfolding reopen
reopen-close id closed_by now p db db' found at by h =
    let c = close-Closed id closed_by now db db' h in
    let is : c.period ≡ p = cc (c.found) in
    let was_open : is_open p.status ≡ true = rw (← is) c.was_open in
    let shut : find (has_id id) db'.periods ≡ some (closed closed_by now p) = rw c.after (
      find-update_same (has_id id) (closed closed_by now) p db.periods found
        (find-holds (has_id id) p db.periods found)) in
    let back : update_first (has_id id) reopened db'.periods ≡ db.periods = rw c.after (
      update_first-undo (has_id id) (closed closed_by now) reopened p db.periods found
        (find-holds (has_id id) p db.periods found)
        (closed_then_reopened closed_by now p was_open at by)) in
    let same : record db' { periods = db.periods } ≡ db =
      ap {A = Db} (λ d. record d { periods = db.periods }) c.after in
    rw (reopen, shut, back, same) refl
