-- ===== src/Payments/Once.antt =====
-- A payment is posted once.
use accounting_api.Common.{
  ℕ, ◌≡◌, refl, subst, false, not, some, find, find-update_same, find-holds, update_first,
  Option-cases, inl, inr,
}
use accounting_api.Errors.{ok, err, >>=-eq-ok, throw_if-eq-ok, ok-injective, validation_failed}
use accounting_api.Money.{Decimals}
use accounting_api.Posting.{PreparedPosting}
use accounting_api.Posting.Write.{Env, create_posted_entry_in_tx}
use accounting_api.Settlement.{payment_targets, settle_all}
use accounting_api.Invoicing.{Payment, Books, next_document_number, build_ref}
use accounting_api.Payments.{
  payment_by_id, is_locked_draft, update_payment, posted_payment, number_prefix, commit_payment,
}
use accounting_api.Store.{Timestamp}
use accounting_api.DocRef.{Text}
use accounting_api.Common.{List}

posted-is_locked_draft :
    (id num fy entry_id by : ℕ) (ref : Text) (now : Timestamp) (payments payments' : List Payment)
    → update_payment id (posted_payment num ref fy entry_id by now) payments ≡ ok payments'
    → is_locked_draft id payments' ≡ false
unfolding update_payment
posted-is_locked_draft id num fy entry_id by ref now payments payments' h =
    elim (Option-cases (find (payment_by_id id) payments)) [
      | inl absent ↦ let e = rw (update_payment, absent) at h in absurd (cc)
      | inr (p, found) ↦
          let change = posted_payment num ref fy entry_id by now in
          let e : ok (update_first (payment_by_id id) change payments) ≡ ok payments' =
            rw (update_payment, found) at h in
          let there : find (payment_by_id id) payments' ≡ some (change p) =
            subst (λ x. find (payment_by_id id) x ≡ some (change p)) (ok-injective e)
              (find-update_same (payment_by_id id) change p payments found
                (find-holds (payment_by_id id) p payments found)) in
          rw (is_locked_draft, there) refl
    ]

-- After the transaction that posts a payment, another one for it is refused, whatever its checks have
-- read before.
pub commit_payment-twice :
    (D : Decimals) (env env' : Env) (by by' : ℕ) (c c' : Payment × PreparedPosting)
    (books books' : Books)
    → commit_payment D env by c books ≡ ok books'
    → c'.0.id ≡ c.0.id
    → commit_payment D env' by' c' books' ≡ err (validation_failed "Payment is no longer a draft")
unfolding commit_payment
commit_payment-twice D env env' by by' c c' books books' h same =
    let p = c.0 in
    let fy = c.1.fiscal_year in
    let (still_draft, h1) = throw_if-eq-ok (not (is_locked_draft p.id books.payments)) _ _ h in
    let (ds, hd, h2) =
      >>=-eq-ok
        (settle_all D (payment_targets p.direction) p.allocations p.partner_id books.documents) _
        h1 in
    let (done, he, h3) = >>=-eq-ok (create_posted_entry_in_tx env c.1 books.db) _ h2 in
    let num = (next_document_number (number_prefix p.direction) fy books.document_sequences).0 in
    let ref = build_ref (number_prefix p.direction) fy num in
    let (payments, hu, h4) =
      >>=-eq-ok
        (update_payment p.id (posted_payment num ref fy done.0.id by env.now) books.payments) _
        h3 in
    let after : is_locked_draft p.id books'.payments ≡ false =
      subst (λ (b : Books). is_locked_draft p.id b.payments ≡ false) (ok-injective h4)
        (posted-is_locked_draft p.id num fy done.0.id by ref env.now books.payments payments hu) in
    let after' : is_locked_draft c'.0.id books'.payments ≡ false = rw same after in
    rw (commit_payment, after') refl
