-- ===== src/TaxCodes/Kept.antt =====
-- The rates that a change of the tax codes leaves (src/tax/tax-codes.service.ts).
use accounting_api.Common.{
  ℕ, ◌≡◌, subst, Option, none, some, List, [], ◌∷◌, find, All, All-append, All-update_first,
  Bool-cases, inl, inr, update_first, or_else,
}
use accounting_api.Common.Int.{ℤ}
use accounting_api.Errors.{
  ok, err, >>=-eq-ok, throw_if-eq-ok, ok-injective, unique_violation, conflict, record_not_found,
}
use accounting_api.DocRef.{Text}
use accounting_api.Store.{Db, is_some}
use accounting_api.Journal.Guarded.{on_unique_violation-eq-ok}
use accounting_api.Tax.{TaxCode}
use accounting_api.TaxCodes.{
  DecimalNumber, CreateTaxCodeInput, UpdateTaxCodeInput, validate_rate, rate_column,
  validate_account_for_kind, tax_code_by_id, find_by_id, insert_tax_code, new_tax_code,
  update_tax_code, deactivate, soft_delete, create, validate_new_rate, new_rate_column, edited,
  update,
}
use accounting_api.TaxCodes.Rates.{IsRate, rate_column-IsRate}

-- Every stored rate, those of deleted codes included.
abbrev pub HasRates : List TaxCode → Type 0
HasRates = All (λ (c : TaxCode). IsRate c.rate)

pub insert_tax_code-HasRates :
    (c : TaxCode) (table table' : List TaxCode)
    → IsRate c.rate
    → HasRates table
    → insert_tax_code c table ≡ ok table'
    → HasRates table'
unfolding insert_tax_code
insert_tax_code-HasRates c table table' rate all h =
    let (free, written) = throw_if-eq-ok _ (unique_violation "tax_codes") _ h in
    subst HasRates (ok-injective written)
      (All-append (λ (d : TaxCode). IsRate d.rate) table (c ∷ []) all (rate, tt))

pub update_tax_code-HasRates :
    (id : ℕ) (change : TaxCode → TaxCode) (table table' : List TaxCode)
    → ((c : TaxCode) → IsRate c.rate → IsRate (change c).rate)
    → HasRates table
    → update_tax_code id change table ≡ ok table'
    → HasRates table'
unfolding update_tax_code
update_tax_code-HasRates id change table table' keeps all h =
    let p = tax_code_by_id id in
    elim (Bool-cases (is_some (find p table))) [
      | inl found ↦
          let written : ok (update_first p change table) ≡ ok table' = rw found at h in
          subst HasRates (ok-injective written) (
            All-update_first (λ (d : TaxCode). IsRate d.rate) p change table (λ c found. keeps c)
              all)
      | inr absent ↦
          let wrong : err (record_not_found "tax_codes") ≡ ok table' = rw absent at h in cc
    ]

pub deactivate-HasRates :
    (id : ℕ) (seen table table' : List TaxCode)
    → HasRates table
    → deactivate id seen table ≡ ok table'
    → HasRates table'
unfolding deactivate
deactivate-HasRates id seen table table' all h =
    let (current, hc, h1) = >>=-eq-ok (find_by_id id seen) _ h in
    update_tax_code-HasRates id _ table table' (λ c rate. rate) all h1

pub soft_delete-HasRates :
    (id now : ℕ) (seen table table' : List TaxCode)
    → HasRates table
    → soft_delete id now seen table ≡ ok table'
    → HasRates table'
unfolding soft_delete
soft_delete-HasRates id now seen table table' all h =
    let (current, hc, h1) = >>=-eq-ok (find_by_id id seen) _ h in
    update_tax_code-HasRates id _ table table' (λ c rate. rate) all h1

module _ (parse : Text → Option DecimalNumber) where
  pub create-HasRates :
      (new_id : ℕ) (input : CreateTaxCodeInput) (seen_db : Db) (seen table table' : List TaxCode)
      → HasRates table
      → create parse new_id input seen_db seen table ≡ ok table'
      → HasRates table'
  unfolding create
  create-HasRates new_id input seen_db seen table table' all h =
      let (done, valid, h1) = >>=-eq-ok (validate_rate parse input.rate) _ h in
      let (checked, hv, h2) =
        >>=-eq-ok (validate_account_for_kind input.tax_account_id input.kind seen_db) _ h1 in
      let (new_code, h3) = throw_if-eq-ok _ (conflict "Tax code already exists") _ h2 in
      let (rate, column, h4) = >>=-eq-ok (rate_column parse input.rate) _ h3 in
      let made = new_tax_code new_id input.code input.name input.kind rate input.tax_account_id in
      insert_tax_code-HasRates made table table'
        (rate_column-IsRate parse input.rate done rate valid column) all
        (on_unique_violation-eq-ok (conflict "Tax code already exists") _ h4)

  -- The column that an update sets.
  edited-IsRate :
      (input : UpdateTaxCodeInput) (rate : Option Text) (done : Unit {0}) (column : Option ℤ)
      (c : TaxCode)
      → validate_new_rate parse rate ≡ ok done
      → new_rate_column parse rate ≡ ok column
      → IsRate c.rate
      → IsRate (or_else column c.rate)
  unfolding validate_new_rate new_rate_column
  edited-IsRate input none done column c valid h kept =
      subst (λ (o : Option ℤ). IsRate (or_else o c.rate)) (ok-injective h) kept
  edited-IsRate input (some rate) done column c valid h kept =
      let (z, hz, h1) = >>=-eq-ok (rate_column parse rate) _ h in
      subst (λ (o : Option ℤ). IsRate (or_else o c.rate)) (ok-injective h1)
        (rate_column-IsRate parse rate done z valid hz)

  pub update-HasRates :
      (id : ℕ) (input : UpdateTaxCodeInput) (seen table table' : List TaxCode)
      → HasRates table
      → update parse id input seen table ≡ ok table'
      → HasRates table'
  unfolding update
  update-HasRates id input seen table table' all h =
      let (current, hc, h1) = >>=-eq-ok (find_by_id id seen) _ h in
      let (done, valid, h2) = >>=-eq-ok (validate_new_rate parse input.rate) _ h1 in
      let (rate, column, h3) = >>=-eq-ok (new_rate_column parse input.rate) _ h2 in
      update_tax_code-HasRates id (edited parse input rate) table table'
        (λ c kept. edited-IsRate input input.rate done rate c valid column kept) all h3
