-- ===== src/TaxCodes/Changes.antt =====
-- The tax codes through any course of changes (src/tax/tax-codes.service.ts).
use accounting_api.Common.{
  ℕ, suc, ◌≡◌, refl, subst, Option, some, List, [], ◌∷◌, find, All, Bool-cases, inl, inr,
}
use accounting_api.Common.Int.{ℤ, pos}
use accounting_api.Errors.{Result, ok, err, or_throw, >>=-eq-ok, ok-injective, plain_error}
use accounting_api.DocRef.{Text, codes}
use accounting_api.Store.{Db, Account, is_none, is_some}
use accounting_api.Tax.{TaxCode}
use accounting_api.Accounts.{account_by_code}
use accounting_api.Accounts.Seed.{is_unique_violation}
use accounting_api.TaxCodes.{
  DecimalNumber, finite, CreateTaxCodeInput, UpdateTaxCodeInput, rate_column, insert_tax_code,
  new_tax_code, deactivate, soft_delete, create, update, seed_tax_codes, lost_race, seed_if_empty,
}
use accounting_api.TaxCodes.Seed.{SeedTaxCode, tax_code_seed}
use accounting_api.TaxCodes.Rates.{IsRate, parsed-IsRate}
use accounting_api.TaxCodes.Kept.{
  HasRates, insert_tax_code-HasRates, deactivate-HasRates, soft_delete-HasRates, create-HasRates,
  update-HasRates,
}

module _ (parse : Text → Option DecimalNumber) where
  -- What `new Decimal` makes of the three rates of the seed: the number, without trailing zeros.
  pub record ParsesSeed : Type 0 where
    pub eleven_percent : parse (codes "0.11") ≡ some (finite (pos 11) 2)
    pub two_percent : parse (codes "0.02") ≡ some (finite (pos 2) 2)
    pub ten_percent : parse (codes "0.10") ≡ some (finite (pos 1) 1)

  abbrev HasSeedRate : SeedTaxCode → Type 0
  HasSeedRate s = (column : ℤ) → rate_column parse s.rate ≡ ok column → IsRate column

  tax_code_seed-rates : ParsesSeed → All HasSeedRate tax_code_seed
  tax_code_seed-rates p =
      let eleven = λ (column : ℤ).
        parsed-IsRate parse (codes "0.11") (finite (pos 11) 2) column p.eleven_percent refl refl in
      let two = λ (column : ℤ).
        parsed-IsRate parse (codes "0.02") (finite (pos 2) 2) column p.two_percent refl refl in
      let ten = λ (column : ℤ).
        parsed-IsRate parse (codes "0.10") (finite (pos 1) 1) column p.ten_percent refl refl in
      (eleven, (eleven, (two, (two, (ten, (ten, tt))))))

  seed_tax_codes-HasRates :
      (new_id : ℕ) (seeds : List SeedTaxCode) (accounts : List Account)
      (table table' : List TaxCode)
      → All HasSeedRate seeds
      → HasRates table
      → seed_tax_codes parse new_id seeds accounts table ≡ ok table'
      → HasRates table'
  unfolding seed_tax_codes
  seed_tax_codes-HasRates new_id [] accounts table table' rates all h =
      subst HasRates (ok-injective h) all
  seed_tax_codes-HasRates new_id (s ∷ rest) accounts table table' rates all h =
      let (account, ha, h1) =
        >>=-eq-ok
          (or_throw (find (account_by_code s.account_code) accounts)
            (plain_error "Seed: account not found for tax code"))
          _ h in
      let (rate, column, h2) = >>=-eq-ok (rate_column parse s.rate) _ h1 in
      let made = new_tax_code new_id s.code s.name s.kind rate account.id in
      let (next, hn, h3) = >>=-eq-ok (insert_tax_code made table) _ h2 in
      seed_tax_codes-HasRates (suc new_id) rest accounts next table' rates.1
        (insert_tax_code-HasRates made table next (rates.0 rate column) all hn) h3

  lost_race-HasRates :
      (table table' : List TaxCode) (seeded : Result (List TaxCode))
      → HasRates table
      → ((next : List TaxCode) → seeded ≡ ok next → HasRates next)
      → lost_race parse table seeded ≡ ok table'
      → HasRates table'
  unfolding lost_race
  lost_race-HasRates table table' (ok next) all keeps h = keeps table' h
  lost_race-HasRates table table' (err e) all keeps h = elim (Bool-cases (is_unique_violation e)) [
    | inl lost ↦
        let kept : ok table ≡ ok table' = rw lost at h in subst HasRates (ok-injective kept) all
    | inr other ↦ let wrong : err e ≡ ok table' = rw other at h in cc
  ]

  seed_if_empty-HasRates :
      (new_id : ℕ) (seen_db : Db) (seen table table' : List TaxCode)
      → ParsesSeed
      → HasRates table
      → seed_if_empty parse new_id seen_db seen table ≡ ok table'
      → HasRates table'
  unfolding seed_if_empty
  seed_if_empty-HasRates new_id seen_db seen table table' p all h =
      elim (Bool-cases (is_some (find (λ (c : TaxCode). is_none c.deleted_at) seen))) [
        | inl some_code ↦
            let kept : ok table ≡ ok table' = rw some_code at h in
            subst HasRates (ok-injective kept) all
        | inr no_code ↦
            lost_race-HasRates table table'
              (seed_tax_codes parse new_id tax_code_seed seen_db.accounts table) all
              (λ next.
                seed_tax_codes-HasRates new_id tax_code_seed seen_db.accounts table next
                  (tax_code_seed-rates p) all)
              (rw no_code at h)
      ]

  -- The tables that changes of the tax codes lead to from an empty one, with any reads before each.
  pub data Reached : List TaxCode → Type 0 where
    start : Reached []
    by_seed :
        {table table' : List TaxCode}
        → Reached table
        → (new_id : ℕ) (seen_db : Db) (seen : List TaxCode)
        → seed_if_empty parse new_id seen_db seen table ≡ ok table'
        → Reached table'
    by_create :
        {table table' : List TaxCode}
        → Reached table
        → (new_id : ℕ) (input : CreateTaxCodeInput) (seen_db : Db) (seen : List TaxCode)
        → create parse new_id input seen_db seen table ≡ ok table'
        → Reached table'
    by_update :
        {table table' : List TaxCode}
        → Reached table
        → (id : ℕ) (input : UpdateTaxCodeInput) (seen : List TaxCode)
        → update parse id input seen table ≡ ok table'
        → Reached table'
    by_deactivate :
        {table table' : List TaxCode}
        → Reached table
        → (id : ℕ) (seen : List TaxCode) → deactivate id seen table ≡ ok table'
        → Reached table'
    by_soft_delete :
        {table table' : List TaxCode}
        → Reached table
        → (id now : ℕ) (seen : List TaxCode) → soft_delete id now seen table ≡ ok table'
        → Reached table'

  -- If `parse` reads the three rates of the seed as decimal.js does, then in every table reached from an
  -- empty one, by any seeds, creations, updates, deactivations and deletions with any reads before
  -- them, every stored rate is strictly between 0 and 1.
  pub Reached-HasRates : ParsesSeed → {table : List TaxCode} → Reached table → HasRates table
  Reached-HasRates p start = tt
  Reached-HasRates p (by_seed {table} {table'} before new_id seen_db seen h) =
      seed_if_empty-HasRates new_id seen_db seen table table' p (Reached-HasRates p before) h
  Reached-HasRates p (by_create {table} {table'} before new_id input seen_db seen h) =
      create-HasRates parse new_id input seen_db seen table table' (Reached-HasRates p before) h
  Reached-HasRates p (by_update {table} {table'} before id input seen h) =
      update-HasRates parse id input seen table table' (Reached-HasRates p before) h
  Reached-HasRates p (by_deactivate {table} {table'} before id seen h) =
      deactivate-HasRates id seen table table' (Reached-HasRates p before) h
  Reached-HasRates p (by_soft_delete {table} {table'} before id now seen h) =
      soft_delete-HasRates id now seen table table' (Reached-HasRates p before) h
