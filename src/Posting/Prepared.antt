-- ===== src/Posting/Prepared.antt =====
-- What the checks before a write have established.
use accounting_api.Common.{
  ℕ, ◌≡◌, sym, subst, ◌∙◌, ap, Bool, true, false, Option, some, map, find, not-false, or_else,
}
use accounting_api.Errors.{
  ok-injective, or_throw-eq-ok, ok, or_throw, >>=-eq-ok, throw_if-eq-ok, not_found, closed_period,
}
use accounting_api.Money.{Decimals}
use accounting_api.Dates.{Date}
use accounting_api.Store.{Db, JournalEntry, is_posted}
use accounting_api.Company
use accounting_api.Periods
use accounting_api.Posting.{
  PostEntryInput, PreparedPosting, PreparedReversal, assert_balanced, assert_postable_date,
  assert_postable_accounts, prepare_posting, prepare_reversal, entry_by_id,
}
use accounting_api.Posting.Draft.{PreparedDraft, prepare_draft, to_input}

-- The five checks of `preparePosting`, and what the token carries.
pub record IsPrepared (D : Decimals) (input : PostEntryInput) (posted_by : ℕ) (db : Db)
    (p : PreparedPosting) : Type 0 where
  pub balanced : assert_balanced D input.lines ≡ ok tt
  pub segregated :
      Company.is_segregation_violation input.source_type input.created_by posted_by db ≡ ok false
  pub dated : assert_postable_date input.date db ≡ ok (p.period_id, p.fiscal_year)
  pub accounts : assert_postable_accounts input.lines db ≡ ok tt
  pub input_is : p.input ≡ input
  pub posted_by_is : p.posted_by ≡ posted_by

-- A posting that is prepared has passed the balance check, the segregation of duties, the date and
-- the accounts, and carries the given entry with the period and the fiscal year that were found.
pub prepare_posting-IsPrepared :
    (D : Decimals) (input : PostEntryInput) (posted_by : ℕ) (db : Db) (p : PreparedPosting)
    → prepare_posting D input posted_by db ≡ ok p
    → IsPrepared D input posted_by db p
unfolding prepare_posting
prepare_posting-IsPrepared D input posted_by db p h =
    let (u, balanced, h1) = >>=-eq-ok (assert_balanced D input.lines) _ h in
    let (v, hv, h2) =
      >>=-eq-ok (Company.is_segregation_violation input.source_type input.created_by posted_by db) _
        h1 in
    let (w, h3) = throw_if-eq-ok v _ _ h2 in
    let (found, hf, h4) = >>=-eq-ok (assert_postable_date input.date db) _ h3 in
    let (x, hx, h5) = >>=-eq-ok (assert_postable_accounts input.lines db) _ h4 in
    let e = sym (ok-injective h5) in
    record {
      balanced = balanced;
      segregated = hv ∙ ap ok w;
      dated = hf ∙ ap (λ (q : PreparedPosting). ok (q.period_id, q.fiscal_year)) (sym e);
      accounts = hx;
      input_is = ap (λ (q : PreparedPosting). q.input) e;
      posted_by_is = ap (λ (q : PreparedPosting). q.posted_by) e;
    }

-- The original of a reversal was found, and was posted.
pub prepare_reversal-original :
    (id by : ℕ) (date : Option Date) (allow : Bool) (db : Db) (p : PreparedReversal)
    → prepare_reversal id by date allow db ≡ ok p
    → (find (entry_by_id id) db.journal_entries ≡ some p.original)
      × (is_posted p.original.status ≡ true)
unfolding prepare_reversal
prepare_reversal-original id by date allow db p h =
    let (o, found, h1) =
      >>=-eq-ok
        (or_throw (find (entry_by_id id) db.journal_entries) (not_found "Journal entry not found"))
        _ h in
    let (posted, h2) = throw_if-eq-ok _ _ _ h1 in
    let (period, hp, h3) =
      >>=-eq-ok
        (or_throw (Periods.find_open_period_for_date (or_else date o.date) db)
          (closed_period "No open period for the reversal date"))
        _ h2 in
    let (fy, hf, h4) = >>=-eq-ok (Company.fiscal_year_for (or_else date o.date) db) _ h3 in
    let (y, h5) = throw_if-eq-ok _ _ _ h4 in
    let same : o ≡ p.original = ap (λ (q : PreparedReversal). q.original) (ok-injective h5) in
    (
      or_throw-eq-ok _ _ found ∙ ap some same,
      subst (λ (q : JournalEntry). is_posted q.status ≡ true) same (not-false _ posted),
    )

-- A draft that may be posted was found, was a draft, and balanced.
pub prepare_draft-found :
    (D : Decimals) (id by : ℕ) (db : Db) (p : PreparedDraft)
    → prepare_draft D id by db ≡ ok p
    → (e : JournalEntry) × (find (entry_by_id id) db.journal_entries ≡ some e)
      × (assert_balanced D (map to_input e.lines) ≡ ok tt)
      × (p.draft_id ≡ id)
unfolding prepare_draft
prepare_draft-found D id by db p h =
    let (e, found, h1) =
      >>=-eq-ok
        (or_throw (find (entry_by_id id) db.journal_entries) (not_found "Journal entry not found"))
        _ h in
    let (is_d, h2) = throw_if-eq-ok _ _ _ h1 in
    let (u, balanced, h3) = >>=-eq-ok (assert_balanced D (map to_input e.lines)) _ h2 in
    let (v, hv, h4) =
      >>=-eq-ok (Company.is_segregation_violation e.source_type e.created_by by db) _ h3 in
    let (w, h5) = throw_if-eq-ok v _ _ h4 in
    let (period, hp, h6) =
      >>=-eq-ok
        (or_throw (Periods.find_open_period_for_date e.date db)
          (closed_period "No open accounting period contains this date"))
        _ h5 in
    let (x, hx, h7) = >>=-eq-ok (assert_postable_accounts (map to_input e.lines) db) _ h6 in
    let (fy, hf, h8) = >>=-eq-ok (Company.fiscal_year_for e.date db) _ h7 in
    let (y, h9) = throw_if-eq-ok _ _ _ h8 in
    (
      e,
      or_throw-eq-ok _ _ found,
      balanced,
      ap (λ (q : PreparedDraft). q.draft_id) (sym (ok-injective h9)),
    )
