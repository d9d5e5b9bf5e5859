-- ===== src/Settlement/Outstanding.antt =====
-- What one settlement takes, and what its unwinding gives back.
use accounting_api.Common.{
  ℕ, ◌<◌, ◌≡◌, ◌↔◌, true, false, not, some, List, ◌==◌, arith, find, not-false, ==_iff,
}
use accounting_api.Common.Int.{ℤ, pos, abs, ◌+ℤ◌, ◌-ℤ◌, ◌≤ℤ◌, int_laws, abs--ℤ_lt, abs_le_of_le}
use accounting_api.Errors.{or_throw-eq-ok, ok, >>=-eq-ok, throw_if-eq-ok, or_throw}
use accounting_api.Money.{Decimals, Money, is_negative, subtract}
use accounting_api.Money.Exact.{subtract-exact}
use accounting_api.Settlement.{
  Document, Documents, AllocationInput, PaymentDirection, increment, decrement, document_by_id,
  payment_targets, exceeds_outstanding, settle_in_tx, unwind_in_tx, is_posted_document,
}

-- A document's payment bounds, within what decimal.js and the columns hold exactly.
pub record IsWithinTotal (D : Decimals) (d : Document) : Type 0 where
  pub paid_least : pos 0 ≤ℤ d.amount_paid
  pub paid_most : d.amount_paid ≤ℤ d.total
  pub total_fits : abs d.total < D.limit

-- An amount as a payment's row holds it.
abbrev pub IsAmount : Decimals → AllocationInput → Type 0
IsAmount D a = (pos 0 ≤ℤ a.amount) × (abs a.amount < D.limit)

abbrev pub table_of : PaymentDirection → Documents → List Document
table_of direction ds = (payment_targets direction).table ds

is_negative_iff : (a : ℤ) → (is_negative a ≡ false) ↔ (pos 0 ≤ℤ a)
is_negative_iff a = ground arith

module _ (D : Decimals) where
  -- Of a document that is paid between nothing and its total, an amount exceeds the outstanding
  -- just when paying it would pass the total, if the amount is not negative and both it and the
  -- total fit decimal.js's precision: the exact boundary is allowed.
  pub exceeds_outstanding_iff :
      (d : Document) (amount : Money)
      → IsWithinTotal D d
      → pos 0 ≤ℤ amount
      → abs amount < D.limit
      → (exceeds_outstanding D d.total d.amount_paid amount ≡ false)
        ↔ (d.amount_paid +ℤ amount ≤ℤ d.total)
  unfolding exceeds_outstanding
  exceeds_outstanding_iff d amount within least fits =
      let most = within.paid_most in
      let paid = within.paid_least in
      let room = within.total_fits in
      let left = d.total -ℤ d.amount_paid in
      let test = is_negative_iff (left -ℤ amount) in
      let small : abs left < D.limit =
        abs--ℤ_lt d.total d.amount_paid D.limit (omega int_laws) paid room
          (omega (int_laws, abs_le_of_le d.amount_paid d.total paid most)) in
      rw
        (
          subtract-exact D d.total d.amount_paid small,
          subtract-exact D left amount
              (abs--ℤ_lt left amount D.limit (omega int_laws) least small fits),
        )
        (λ h. omega (int_laws, test.0 h), λ h. test.1 (omega int_laws))

  -- What a settlement that went through has found and done.
  pub record Settled (direction : PaymentDirection) (alloc : AllocationInput) (partner_id : ℕ)
      (ds ds' : Documents) : Type 0 where
    pub id : ℕ
    pub row : Document
    pub names : (payment_targets direction).alloc_id alloc ≡ some id
    pub found : find (document_by_id id) (table_of direction ds) ≡ some row
    pub is_posted : is_posted_document row.status ≡ true
    pub of_partner : row.partner_id ≡ partner_id
    pub outstanding : exceeds_outstanding D row.total row.amount_paid alloc.amount ≡ false
    pub after : ds' ≡ (payment_targets direction).apply_paid id alloc.amount increment ds

  pub settle_in_tx-Settled :
      (direction : PaymentDirection) (alloc : AllocationInput) (partner_id : ℕ) (ds ds' : Documents)
      → settle_in_tx D (payment_targets direction) alloc partner_id ds ≡ ok ds'
      → Settled direction alloc partner_id ds ds'
  unfolding settle_in_tx
  settle_in_tx-Settled direction alloc partner_id ds ds' h =
      let target = payment_targets direction in
      let (id, e0, h0) = >>=-eq-ok (or_throw (target.alloc_id alloc) _) _ h in
      let (row, e1, h1) =
        >>=-eq-ok (or_throw (find (document_by_id id) (target.table ds)) _) _ h0 in
      let (e2, h2) = throw_if-eq-ok (not (is_posted_document row.status)) _ _ h1 in
      let (e3, h3) = throw_if-eq-ok (not (row.partner_id == partner_id)) _ _ h2 in
      let (e4, h4) =
        throw_if-eq-ok (exceeds_outstanding D row.total row.amount_paid alloc.amount) _ _ h3 in
      record {
        id = id;
        row = row;
        names = or_throw-eq-ok _ _ e0;
        found = or_throw-eq-ok _ _ e1;
        is_posted = not-false _ e2;
        of_partner = (==_iff row.partner_id partner_id).0 (not-false _ e3);
        outstanding = e4;
        after = cc;
      }

  -- What an unwinding that went through has found and done.
  pub record Unwound (direction : PaymentDirection) (alloc : AllocationInput) (ds ds' : Documents)
      : Type 0 where
    pub id : ℕ
    pub row : Document
    pub found : find (document_by_id id) (table_of direction ds) ≡ some row
    pub floor : is_negative (subtract D row.amount_paid alloc.amount) ≡ false
    pub after : ds' ≡ (payment_targets direction).apply_paid id alloc.amount decrement ds

  pub unwind_in_tx-Unwound :
      (direction : PaymentDirection) (alloc : AllocationInput) (ds ds' : Documents)
      → unwind_in_tx D (payment_targets direction) alloc ds ≡ ok ds'
      → Unwound direction alloc ds ds'
  unfolding unwind_in_tx
  unwind_in_tx-Unwound direction alloc ds ds' h =
      let target = payment_targets direction in
      let (id, e0, h0) = >>=-eq-ok (or_throw (target.alloc_id alloc) _) _ h in
      let (row, e1, h1) =
        >>=-eq-ok (or_throw (find (document_by_id id) (target.table ds)) _) _ h0 in
      let (e2, h2) =
        throw_if-eq-ok (is_negative (subtract D row.amount_paid alloc.amount)) _ _ h1 in
      record { id = id; row = row; found = or_throw-eq-ok _ _ e1; floor = e2; after = cc }

  pub floor-le :
      (d : Document) (amount : Money)
      → IsWithinTotal D d
      → pos 0 ≤ℤ amount
      → abs amount < D.limit
      → (is_negative (subtract D d.amount_paid amount) ≡ false) ↔ (amount ≤ℤ d.amount_paid)
  floor-le d amount within least fits =
      let most = within.paid_most in
      let paid = within.paid_least in
      let room = within.total_fits in
      let test = is_negative_iff (d.amount_paid -ℤ amount) in
      rw
        (subtract-exact D d.amount_paid amount (
          abs--ℤ_lt d.amount_paid amount D.limit paid least
            (omega (int_laws, abs_le_of_le d.amount_paid d.total paid most)) fits))
        (λ h. omega (int_laws, test.0 h), λ h. test.1 (omega int_laws))
