-- ===== src/Invoices/Rows.antt =====
-- The rows of a kind of document under an update.
use accounting_api.Common.{
  ℕ, ◌≡◌, refl, subst, ◌∙◌, some, List, find, update_first, find-update_same, find-holds,
  Option-cases, inl, inr,
}
use accounting_api.Errors.{ok, ok-injective}
use accounting_api.Settlement.{Document, Documents, document_by_id}
use accounting_api.Invoices.{
  DocumentKind, sales_invoices, purchase_bills, rows_of, with_rows, update_document,
}

pub some-injective {ℓ} : {A : Type ℓ} {x y : A} → some x ≡ some y → x ≡ y
some-injective e = cc

rows_of-with_rows :
    (kind : DocumentKind) (rows : List Document) (ds : Documents)
    → rows_of kind (with_rows kind rows ds) ≡ rows
unfolding rows_of with_rows
rows_of-with_rows sales_invoices rows ds = refl
rows_of-with_rows purchase_bills rows ds = refl

-- A row that is updated is there afterwards, changed.
pub update_document-find :
    (kind : DocumentKind) (id : ℕ) (change : Document → Document) (ds ds' : Documents)
    → ((d : Document) → document_by_id id (change d) ≡ document_by_id id d)
    → update_document kind id change ds ≡ ok ds'
    → (d : Document) × (find (document_by_id id) (rows_of kind ds) ≡ some d)
      × (find (document_by_id id) (rows_of kind ds') ≡ some (change d))
unfolding update_document
update_document-find kind id change ds ds' keeps h =
    elim (Option-cases (find (document_by_id id) (rows_of kind ds))) [
      | inl absent ↦ let e = rw (update_document, absent) at h in absurd (cc)
      | inr (d, found) ↦
          let rows = update_first (document_by_id id) change (rows_of kind ds) in
          let e : ok (with_rows kind rows ds) ≡ ok ds' = rw (update_document, found) at h in
          let own = keeps d ∙ find-holds (document_by_id id) d (rows_of kind ds) found in
          (
            d,
            found,
            subst (λ x. find (document_by_id id) (rows_of kind x) ≡ some (change d))
                (ok-injective e)
                (rw (rows_of-with_rows kind rows ds)
                  (find-update_same (document_by_id id) change d (rows_of kind ds) found own)),
          )
    ]
