-- ===== src/YearEnd/Twice.antt =====
-- A year that is closed stays shut until it is reopened.
use accounting_api.Common.{
  ℕ, ◌≡◌, refl, subst, true, false, Option, none, some, find-update_same, find-holds,
  find-append_none, Option-cases, inl, inr, ==_iff, ◌==◌,
}
use accounting_api.Errors.{ok, err, >>=-eq-ok, ok-injective, throw_if-eq-ok, conflict}
use accounting_api.Money.{Decimals, Money, zero_money}
use accounting_api.Store.{Db, YearEndClosing, closed_year}
use accounting_api.Posting.{PreparedPosting}
use accounting_api.Posting.Write.{Env, reads_closed, create_posted_entry_in_tx}
use accounting_api.Posting.Guard.{
  Transaction, commit, commit_into_open, fiscal_year_of, allows_closed_year, IsYearOpen,
}
use accounting_api.YearEnd.{
  for_year, get_status, marked_closed, upsert_closed, prepare_close, commit_close, close,
}

same_number : (n : ℕ) → (n == n) ≡ true
same_number n = (==_iff n n).1 refl

abbrev fresh_row : ℕ → Option ℕ → Money → ℕ → ℕ → YearEndClosing
fresh_row fy entry_id net by now = record {
  fiscal_year = fy;
  status = closed_year;
  closing_entry_id = entry_id;
  net_income = net;
  closed_at = some now;
  closed_by = some by;
  reopened_at = none;
  reopened_by = none;
}

-- The row reads CLOSED after the upsert.
upsert_closed-reads_closed :
    (fy : ℕ) (entry_id : Option ℕ) (net : Money) (by now : ℕ) (db : Db)
    → reads_closed fy (upsert_closed fy entry_id net by now db) ≡ true
unfolding upsert_closed
upsert_closed-reads_closed fy entry_id net by now db = elim (Option-cases (get_status fy db)) [
  | inl absent ↦
      rw
        (
          absent,
          reads_closed,
          find-append_none (for_year fy) (fresh_row fy entry_id net by now) db.year_end_closings
              absent (same_number fy),
        )
        refl
  | inr (c, found) ↦
      rw
        (
          found,
          reads_closed,
          find-update_same (for_year fy) (marked_closed entry_id net by now) c db.year_end_closings
              found (find-holds (for_year fy) c db.year_end_closings found),
        )
        refl
]

close-reads_closed :
    (D : Decimals) (env : Env) (fy by : ℕ) (seen db db' : Db)
    → close D env fy by seen db ≡ ok db'
    → reads_closed fy db' ≡ true
unfolding close commit_close
close-reads_closed D env fy by seen db db' h =
    let (prepared, hp, h1) = >>=-eq-ok (prepare_close D fy by seen) _ h in
    elim (Option-cases prepared) [
      | inl is ↦
          let e : ok (upsert_closed fy none zero_money by env.now db) ≡ ok db' = rw is at h1 in
          subst (λ (x : Db). reads_closed fy x ≡ true) (ok-injective e)
            (upsert_closed-reads_closed fy none zero_money by env.now db)
      | inr (q, is) ↦
          let h2 : commit_close env fy by q.0 q.1 db ≡ ok db' = rw is at h1 in
          let (still_open, h3) = throw_if-eq-ok (reads_closed fy db) _ _ h2 in
          let (done, hd, h4) = >>=-eq-ok (create_posted_entry_in_tx env q.0 db) _ h3 in
          subst (λ (x : Db). reads_closed fy x ≡ true) (ok-injective h4)
            (upsert_closed-reads_closed fy (some done.0.id) q.1 by env.now done.1)
    ]

-- After a close, another close of the year is refused with a conflict at its first check, whatever
-- it would commit on; and so is one whose entry was prepared before, under the lock.
pub close-close :
    (D : Decimals) (env : Env) (fy by : ℕ) (seen db db' : Db)
    → close D env fy by seen db ≡ ok db'
    → (env' : Env) (by' : ℕ)
    → ((db'' : Db) → close D env' fy by' db' db'' ≡ err (conflict "Fiscal year is already closed"))
      × ((p : PreparedPosting) (net : Money)
          → commit_close env' fy by' p net db' ≡ err (conflict "Fiscal year is already closed"))
unfolding close commit_close prepare_close
close-close D env fy by seen db db' h env' by' =
    let shut = close-reads_closed D env fy by seen db db' h in
    (λ db''. rw shut refl, λ p net. rw shut refl)

-- After a close, no posting, promotion of a draft or reversal into the year commits, whatever its
-- earlier checks have seen, unless it was prepared for a closed year.
pub commit-close_year :
    (D : Decimals) (env : Env) (fy by : ℕ) (seen db db' db'' : Db) (t : Transaction)
    → close D env fy by seen db ≡ ok db'
    → fiscal_year_of t ≡ fy
    → allows_closed_year t ≡ false
    → ¬ (commit t db' ≡ ok db'')
commit-close_year D env fy by seen db db' db'' t h same strict committed =
    let shut = close-reads_closed D env fy by seen db db' h in
    elim (commit_into_open t db' db'' committed).1 [
      | inl spared ↦ cc
      | inr free ↦ not_open (subst (λ y. IsYearOpen y db') same free) shut
    ]
  where
    not_open : IsYearOpen fy db' → reads_closed fy db' ≡ true → ⊥
    not_open free shut = elim free [
      | inl absent ↦ let h' = rw (reads_closed, absent) at shut in absurd (cc)
      | inr (c, found, o) ↦ let h' = rw (reads_closed, found) at shut in absurd (cc)
    ]
