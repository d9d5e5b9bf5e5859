-- ===== src/Journal/Guarded.antt =====
-- What the guarded reversal of a document has found and done when it succeeds.
use accounting_api.Common.{ℕ, ◌≡◌, ap, ◌∙◌, true, false, not, not-false, Option, some}
use accounting_api.Errors.{
  DomainError, Result, ok, err, validation_failed, not_found, conflict, unauthorized, forbidden,
  password_change_required, unbalanced_entry, closed_period, closed_year, invalid_account,
  segregation_of_duties, unique_violation, record_not_found, check_violation, plain_error, or_throw,
  >>=-eq-ok, throw_if-eq-ok, or_throw-eq-ok, ok-injective,
}
use accounting_api.Dates.{Date}
use accounting_api.Store.{Db}
use accounting_api.Posting.{PreparedReversal, prepare_reversal}
use accounting_api.Posting.Write.{Env, reverse_in_tx}
use accounting_api.Settlement.{DocumentStatus, is_posted_document}
use accounting_api.Journal.{on_unique_violation, reverse_with_guard}

pub on_unique_violation-eq-ok {ℓ} :
    {A : Type ℓ} (e : DomainError) (r : Result A) {a : A}
    → on_unique_violation e r ≡ ok a
    → r ≡ ok a
unfolding on_unique_violation
on_unique_violation-eq-ok e (ok x) h = h
on_unique_violation-eq-ok e (err (validation_failed m)) h = cc
on_unique_violation-eq-ok e (err (not_found m)) h = cc
on_unique_violation-eq-ok e (err (conflict m)) h = cc
on_unique_violation-eq-ok e (err (unauthorized m)) h = cc
on_unique_violation-eq-ok e (err (forbidden m)) h = cc
on_unique_violation-eq-ok e (err (password_change_required m)) h = cc
on_unique_violation-eq-ok e (err (unbalanced_entry m)) h = cc
on_unique_violation-eq-ok e (err (closed_period m)) h = cc
on_unique_violation-eq-ok e (err (closed_year m)) h = cc
on_unique_violation-eq-ok e (err (invalid_account m)) h = cc
on_unique_violation-eq-ok e (err (segregation_of_duties m)) h = cc
on_unique_violation-eq-ok e (err (unique_violation m)) h = cc
on_unique_violation-eq-ok e (err (record_not_found m)) h = cc
on_unique_violation-eq-ok e (err (check_violation m)) h = cc
on_unique_violation-eq-ok e (err (plain_error m)) h = cc

-- The status under the lock, the changes of the document's table, and the reversal.
pub record Guarded {S : Type 0} (env : Env) (journal_entry_id reversed_by : ℕ) (date : Option Date)
    (lock : S → Option DocumentStatus) (apply_in_tx : S → Result S) (seen db : Db) (s : S)
    (done : Db × S) : Type 0 where
  pub prepared : PreparedReversal
  pub checked : prepare_reversal journal_entry_id reversed_by date false seen ≡ ok prepared
  pub status : DocumentStatus
  pub locked : lock s ≡ some status
  pub is_posted : is_posted_document status ≡ true
  pub applied : apply_in_tx s ≡ ok done.1

pub reverse_with_guard-Guarded :
    {S : Type 0} (env : Env) (journal_entry_id reversed_by : ℕ) (date : Option Date)
    (lock : S → Option DocumentStatus) (apply_in_tx : S → Result S) (seen db : Db) (s : S)
    (done : Db × S)
    → reverse_with_guard env journal_entry_id reversed_by date lock apply_in_tx seen db s ≡ ok done
    → Guarded env journal_entry_id reversed_by date lock apply_in_tx seen db s done
unfolding reverse_with_guard
reverse_with_guard-Guarded env entry_id by date lock apply_in_tx seen db s done h =
    let (prepared, hp, g1) = >>=-eq-ok (prepare_reversal entry_id by date false seen) _ h in
    let g2 = on_unique_violation-eq-ok _ _ g1 in
    let (status, hs, g3) = >>=-eq-ok (or_throw (lock s) _) _ g2 in
    let (posted_now, g4) = throw_if-eq-ok (not (is_posted_document status)) _ _ g3 in
    let (s', hm, g5) = >>=-eq-ok (apply_in_tx s) _ g4 in
    let (reversal, hv, g6) = >>=-eq-ok (reverse_in_tx env prepared db) _ g5 in
    record {
      prepared = prepared;
      checked = hp;
      status = status;
      locked = or_throw-eq-ok _ _ hs;
      is_posted = not-false _ posted_now;
      applied = hm ∙ ap ok (ap (λ t. t.1) (ok-injective g6));
    }
