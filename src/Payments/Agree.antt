-- ===== src/Payments/Agree.antt =====
-- A payment, the documents that it settles and its journal entry agree on one amount.
use accounting_api.Common.{
  ℕ, ◌+◌, ◌<◌, ◌≡◌, sym, subst, ap, ◌∙◌, Bool, not, some, List, [], ◌∷◌, ◌++◌, map, find,
  update_first, arith, Bool-cases, inl, inr, ◌||◌, ◌==◌,
}
use accounting_api.Common.Int.{
  ℤ, abs, ◌+ℤ◌, int_laws, parts_of_eq, eq_of_parts, abs-+ℤ, plus_zero, zero_plus,
}
use accounting_api.Errors.{
  ok, or_throw, >>=-eq-ok, throw_if-eq-ok, or_throw-eq-ok, ok-injective, validation_failed,
}
use accounting_api.Money.{Decimals, Money, zero_money, add, subtract, is_negative}
use accounting_api.Money.Exact.{total, total_abs, add-eq}
use accounting_api.Store.{Account, JournalEntry}
use accounting_api.Posting.{account_by_id, PostEntryInput, PreparedPosting, prepare_posting}
use accounting_api.Posting.Write.{Env, stored_lines, posted_entry, create_posted_entry_in_tx}
use accounting_api.Posting.Prepared.{prepare_posting-IsPrepared}
use accounting_api.Posting.Effects.{create_posted_entry_in_tx-Booked}
use accounting_api.Settlement.{
  AllocationInput, Document, Documents, document_by_id, increment, paid_by, PaymentDirection,
  PaymentTarget, payment_targets, is_posted_document, load_target, settle_in_tx, settle_all,
}
use accounting_api.Settlement.Outstanding.{table_of, settle_in_tx-Settled}
use accounting_api.Settlement.Bounds.{table_of-apply_paid}
use accounting_api.Payments.Lines.{
  expected_lines, expected_role, expected_table, stored-build_payment_lines, role_is, table_is,
}
use accounting_api.Partners.{find_by_id}
use accounting_api.Invoicing.{is_draft_document, Payment, Books, find_control_account_id}
use accounting_api.Payments.{
  has_partner_flag, is_locked_draft, CreatePaymentInput, check_allocations, create_draft,
  payment_by_id, get_by_id, payment_input, prepare_payment, commit_payment, post, allocated,
  update_payment,
}

-- The paid amounts of a table of documents, and the amounts of allocations.
abbrev pub total_paid : List Document → ℤ
total_paid ds = total (map (λ d. d.amount_paid) ds)

abbrev pub amounts : List AllocationInput → List Money
amounts allocations = map (λ a. a.amount) allocations

total_paid-update :
    (p : Document → Bool) (amount : Money) (row : Document) (ds : List Document)
    → find p ds ≡ some row
    → total_paid (update_first p (paid_by amount increment) ds) ≡ total_paid ds +ℤ amount
unfolding paid_by
total_paid-update p amount row [] h = cc
total_paid-update p amount row (d ∷ ds) h = elim (Bool-cases (p d)) [
  | inl t ↦ rw t (omega int_laws)
  | inr t ↦
      let ih = total_paid-update p amount row ds (rw t at h) in
      rw t (eq_of_parts _ _ (omega (int_laws, parts_of_eq ih)))
]

module _ (D : Decimals) where
  settle_all-total_paid :
      (direction : PaymentDirection) (allocations : List AllocationInput) (partner_id : ℕ)
      (ds ds' : Documents)
      → settle_all D (payment_targets direction) allocations partner_id ds ≡ ok ds'
      → total_paid (table_of direction ds')
        ≡ total_paid (table_of direction ds) +ℤ total (amounts allocations)
  unfolding settle_all
  settle_all-total_paid direction [] partner_id ds ds' h =
      ap (λ x. total_paid (table_of direction x)) (sym (ok-injective h)) ∙ sym (plus_zero _)
  settle_all-total_paid direction (a ∷ allocations) partner_id ds ds' h =
      let (mid, hm, h1) =
        >>=-eq-ok (settle_in_tx D (payment_targets direction) a partner_id ds) _ h in
      let s = settle_in_tx-Settled D direction a partner_id ds mid hm in
      let step : total_paid (table_of direction mid)
          ≡ total_paid (table_of direction ds) +ℤ a.amount =
        rw (s.after, table_of-apply_paid direction s.id a.amount increment ds)
          (total_paid-update (document_by_id s.id) a.amount s.row (table_of direction ds)
            s.found) in
      let ih = settle_all-total_paid direction allocations partner_id mid ds' h1 in
      eq_of_parts _ _ (omega (int_laws, parts_of_eq step, parts_of_eq ih))

  check_allocations-total :
      (target : PaymentTarget) (partner_id : ℕ) (allocations : List AllocationInput)
      (by_document : List (ℕ × Money)) (start sum : Money) (ds : Documents)
      → abs start + total_abs (amounts allocations) < D.limit
      → check_allocations D target partner_id allocations by_document start ds ≡ ok sum
      → sum ≡ start +ℤ total (amounts allocations)
  unfolding check_allocations
  check_allocations-total target partner_id [] by start sum ds fits h =
      sym (ok-injective h) ∙ sym (plus_zero start)
  check_allocations-total target partner_id (a ∷ allocations) by start sum ds fits h =
      let (positive, h1) = throw_if-eq-ok _ _ _ h in
      let (row, hr, h2) = >>=-eq-ok (load_target target a ds) _ h1 in
      let (own, h3) = throw_if-eq-ok (not (row.partner_id == partner_id)) _ _ h2 in
      let (is_posted, h4) = throw_if-eq-ok (not (is_posted_document row.status)) _ _ h3 in
      let already = allocated row.id by in
      let (room, h5) =
        throw_if-eq-ok
          (is_negative
            (subtract D (subtract D (subtract D row.total row.amount_paid) already) a.amount))
          _ _ h4 in
      let ih =
        check_allocations-total target partner_id allocations
          ((row.id, add D already a.amount) ∷ by) (add D start a.amount) sum ds
          (rw (add-eq D start a.amount (omega arith)) (omega (arith, abs-+ℤ start a.amount))) h5 in
      ih ∙ rw (add-eq D start a.amount (omega arith)) (omega int_laws)

  -- What a draft says it pays is what its allocations add up to.
  create_draft-amount :
      (new_id : ℕ) (input : CreatePaymentInput) (seen : Books) (p : Payment)
      → total_abs (amounts input.allocations) < D.limit
      → create_draft D new_id input seen ≡ ok p
      → p.amount ≡ total (amounts p.allocations)
  unfolding create_draft
  create_draft-amount new_id input seen p fits h =
      let (some_allocation, h1) = throw_if-eq-ok _ _ _ h in
      let (partner, hp, h2) = >>=-eq-ok (find_by_id input.partner_id seen.partners) _ h1 in
      let (active, h3) = throw_if-eq-ok (not partner.is_active) _ _ h2 in
      let (flag, h4) = throw_if-eq-ok (not (has_partner_flag input.direction partner)) _ _ h3 in
      let (cash_account, hc, h5) =
        >>=-eq-ok {T = Account}
          (or_throw (find (account_by_id input.cash_account_id) seen.db.accounts)
            (validation_failed "Cash account is not postable"))
          _ h4 in
      let (postable, h6) =
        throw_if-eq-ok (not cash_account.is_postable || not cash_account.is_active) _ _ h5 in
      let (sum, hs, h7) =
        >>=-eq-ok
          (check_allocations D (payment_targets input.direction) input.partner_id input.allocations
            [] zero_money seen.documents)
          _ h6 in
      let e = sym (ok-injective h7) in
      ap (λ (x : Payment). x.amount) e
      ∙ check_allocations-total (payment_targets input.direction) input.partner_id input.allocations
          [] zero_money sum seen.documents (omega arith) hs
      ∙ zero_plus _
      ∙ ap (λ (x : Payment). total (amounts x.allocations)) (sym e)

  -- What the checks of `post` hand to its transaction.
  record Checked (id posted_by : ℕ) (seen : Books) (c : Payment × PreparedPosting) : Type 0 where
    found : find (payment_by_id id) seen.payments ≡ some c.0
    control_id : ℕ
    control :
        find_control_account_id (payment_targets c.0.direction).control_role seen.db ≡ ok control_id
    input_is : c.1.input ≡ payment_input c.0 control_id

  prepare_payment-Checked :
      (id posted_by : ℕ) (seen : Books) (c : Payment × PreparedPosting)
      → prepare_payment D id posted_by seen ≡ ok c
      → Checked id posted_by seen c
  unfolding prepare_payment get_by_id
  prepare_payment-Checked id posted_by seen c h =
      let (p, hp, h1) = >>=-eq-ok (or_throw (find (payment_by_id id) seen.payments) _) _ h in
      let (is_draft, h2) = throw_if-eq-ok (not (is_draft_document p.status)) _ _ h1 in
      let (control, hc, h3) =
        >>=-eq-ok (find_control_account_id (payment_targets p.direction).control_role seen.db) _
          h2 in
      let (q, hq, h4) =
        >>=-eq-ok (prepare_posting D (payment_input p control) posted_by seen.db) _ h3 in
      subst (Checked id posted_by seen) (ok-injective h4) (record {
        found = or_throw-eq-ok _ _ hp;
        control_id = control;
        control = hc;
        input_is =
            (prepare_posting-IsPrepared D (payment_input p control) posted_by seen.db q
              hq).input_is;
      })

  -- What its transaction has done.
  record Paid (c : Payment × PreparedPosting) (books books' : Books) : Type 0 where
    entry : JournalEntry
    paid :
        total_paid (table_of c.0.direction books'.documents)
        ≡ total_paid (table_of c.0.direction books.documents) +ℤ total (amounts c.0.allocations)
    entries_are : books'.db.journal_entries ≡ books.db.journal_entries ++ (entry ∷ [])
    lines_are : entry.lines ≡ stored_lines 1 c.1.input.lines

  commit_payment-Paid :
      (env : Env) (posted_by : ℕ) (c : Payment × PreparedPosting) (books books' : Books)
      → commit_payment D env posted_by c books ≡ ok books'
      → Paid c books books'
  unfolding commit_payment posted_entry
  commit_payment-Paid env posted_by c books books' h =
      let p = c.0 in
      let (still_draft, h1) = throw_if-eq-ok (not (is_locked_draft p.id books.payments)) _ _ h in
      let (ds, hd, h2) =
        >>=-eq-ok
          (settle_all D (payment_targets p.direction) p.allocations p.partner_id books.documents) _
          h1 in
      let ((e, db'), he, h3) = >>=-eq-ok (create_posted_entry_in_tx env c.1 books.db) _ h2 in
      let (n, ref, is, booked) = create_posted_entry_in_tx-Booked env c.1 books.db db' e he in
      let (payments, hu, h4) = >>=-eq-ok (update_payment p.id _ books.payments) _ h3 in
      subst (Paid c books) (ok-injective h4) (record {
        entry = e;
        paid = settle_all-total_paid p.direction p.allocations p.partner_id books.documents ds hd;
        entries_are = booked.entries_are;
        lines_are = ap (λ (x : JournalEntry). x.lines) is;
      })

  -- If a draft of a payment, whose amounts fit decimal.js's precision, is posted as it was created,
  -- then its amount is what the paid amounts grow by in total, of the sales invoices for a receipt and
  -- of the purchase bills for a disbursement. One entry is added, with two lines of that amount: a
  -- receipt debits the cash account and credits the control account of the receivables, a
  -- disbursement debits the control account of the payables and credits the cash account.
  pub post-create_draft :
      (env : Env) (new_id posted_by : ℕ) (input : CreatePaymentInput) (p : Payment)
      (first seen books books' : Books)
      → total_abs (amounts input.allocations) < D.limit
      → create_draft D new_id input first ≡ ok p
      → find (payment_by_id p.id) seen.payments ≡ some p
      → post D env p.id posted_by seen books ≡ ok books'
      → (total_paid (expected_table p.direction books'.documents)
          ≡ total_paid (expected_table p.direction books.documents) +ℤ p.amount)
        × ((control_id : ℕ) × (find_control_account_id (expected_role p.direction) seen.db
              ≡ ok control_id)
            × ((e : JournalEntry) × (books'.db.journal_entries
                  ≡ books.db.journal_entries ++ (e ∷ []))
                × (e.lines ≡ expected_lines p.direction p.cash_account_id control_id p.amount)))
  unfolding post
  post-create_draft env new_id posted_by input p first seen books books' fits created there h =
      let (c, hc, h1) = >>=-eq-ok (prepare_payment D p.id posted_by seen) _ h in
      let checked = prepare_payment-Checked p.id posted_by seen c hc in
      let same : p ≡ c.0 = some-injective (sym there ∙ checked.found) in
      let done = commit_payment-Paid env posted_by c books books' h1 in
      let amount = create_draft-amount new_id input first p fits created in
      let paid =
        done.paid
        ∙ ap (λ x. total_paid (table_of c.0.direction books.documents) +ℤ x)
            (rw same at (sym amount)) in
      rw same (
        rw (← table_is c.0.direction books'.documents, ← table_is c.0.direction books.documents)
            paid,
        (
          checked.control_id,
          rw (← role_is c.0.direction) checked.control,
          (
            done.entry,
            done.entries_are,
            done.lines_are
                ∙ ap (λ (i : PostEntryInput). stored_lines 1 i.lines) checked.input_is
                ∙ stored-build_payment_lines c.0.direction c.0.cash_account_id checked.control_id
                    c.0.amount,
          ),
        ),
      )
    where
      some-injective : {x y : Payment} → some x ≡ some y → x ≡ y
      some-injective e = cc
