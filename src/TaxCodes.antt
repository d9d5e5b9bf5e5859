-- ===== src/TaxCodes.antt =====
-- The administration of tax codes (src/tax/tax-codes.service.ts, tax-codes.seed.ts). `parse` stands for
-- `new Decimal(text)` of decimal.js. `seen` is what the checks read before the write.
pub mod Seed
pub mod Rates
pub mod Kept
pub mod Changes
use accounting_api.Common.{
  ℕ, suc, ◌*◌, ◌-◌, ◌^◌, Bool, true, false, ◌&&◌, not, Option, none, some, List, [], ◌∷◌, ◌++◌,
  find, or_else, ltb, ◌==◌, update_first, if◌then◌else◌,
}
use accounting_api.Common.Int.{ℤ, pos, negsuc, ◌*ℤ◌}
use accounting_api.Errors.{
  DomainError, Result, ok, err, ◌>>=◌, ◌>>◌, throw_if, or_throw, validation_failed, not_found,
  conflict, record_not_found, unique_violation, plain_error,
}
use accounting_api.DocRef.{Text, codes, same_text, tombstone_value}
use accounting_api.Money.{half_up}
use accounting_api.Store.{
  Db, Account, NormalBalance, debit_normal, credit_normal, Timestamp, is_none, is_some,
}
use accounting_api.Journal.{on_unique_violation}
use accounting_api.Tax.{TaxCode, TaxKind, ppn_output, ppn_input, pph_payable, pph_prepaid}
use accounting_api.Accounts
use accounting_api.Accounts.{account_by_code}
use accounting_api.TaxCodes.Seed.{SeedTaxCode, tax_code_seed}
use accounting_api.Accounts.Seed.{is_unique_violation}

-- A number of decimal.js: NaN and the infinities, or a coefficient over a power of ten, whose exponent
-- is `decimalPlaces()`.
pub data DecimalNumber : Type 0 where
  not_finite : DecimalNumber
  finite : (coefficient : ℤ) (places : ℕ) → DecimalNumber

-- `greaterThan(0)` and `lessThan(1)`. Minus infinity is also below 1, but not above 0, so the conjunction
-- of the two is the same.
abbrev pub is_positive : DecimalNumber → Bool
is_positive not_finite = false
is_positive (finite (pos n) places) = ltb 0 n
is_positive (finite (negsuc n) places) = false

abbrev pub is_below_one : DecimalNumber → Bool
is_below_one not_finite = false
is_below_one (finite (pos n) places) = ltb n (10 ^ places)
is_below_one (finite (negsuc n) places) = true

abbrev pub decimal_places : DecimalNumber → ℕ
decimal_places not_finite = 0
decimal_places (finite coefficient places) = places

pub record CreateTaxCodeInput : Type 0 where
  pub code : Text
  pub name : Text
  pub kind : TaxKind
  pub rate : Text
  pub tax_account_id : ℕ

pub record UpdateTaxCodeInput : Type 0 where
  pub name : Option Text
  pub rate : Option Text
  pub is_active : Option Bool

abbrev pub required_normal_balance : TaxKind → NormalBalance
required_normal_balance ppn_input = debit_normal
required_normal_balance pph_prepaid = debit_normal
required_normal_balance ppn_output = credit_normal
required_normal_balance pph_payable = credit_normal

abbrev pub same_balance : NormalBalance → NormalBalance → Bool
same_balance debit_normal debit_normal = true
same_balance debit_normal credit_normal = false
same_balance credit_normal debit_normal = false
same_balance credit_normal credit_normal = true

unfoldable pub validate_account_for_kind : ℕ → TaxKind → Db → Result (Unit {0})
unfolding Accounts.find_by_id
validate_account_for_kind tax_account_id kind seen = do
  account ← Accounts.find_by_id tax_account_id seen
  throw_if (not account.is_postable) (validation_failed "Tax account must be postable")
  throw_if (not (same_balance account.normal_balance (required_normal_balance kind)))
      (validation_failed "Tax kind requires an account of the other normal balance")
  ok tt

abbrev pub tax_code_by_id : ℕ → TaxCode → Bool
tax_code_by_id id c = c.id == id && is_none c.deleted_at

unfoldable pub find_by_id : ℕ → List TaxCode → Result TaxCode
find_by_id id table = or_throw (find (tax_code_by_id id) table) (not_found "Tax code not found")

-- `taxCode.create` under the unique index on the code.
unfoldable pub insert_tax_code : TaxCode → List TaxCode → Result (List TaxCode)
insert_tax_code c table = do
  throw_if (is_some (find (λ (d : TaxCode). same_text d.code c.code) table))
      (unique_violation "tax_codes")
  ok (table ++ (c ∷ []))

abbrev pub new_tax_code : ℕ → Text → Text → TaxKind → ℤ → ℕ → TaxCode
new_tax_code new_id code name kind rate tax_account_id = record {
  id = new_id;
  code = code;
  name = name;
  rate = rate;
  kind = kind;
  tax_account_id = tax_account_id;
  is_active = true;
  deleted_at = none;
}

-- `taxCode.update` of a row that is not deleted.
unfoldable pub update_tax_code : ℕ → (TaxCode → TaxCode) → List TaxCode → Result (List TaxCode)
update_tax_code id change table =
    if is_some (find (tax_code_by_id id) table)
    then ok (update_first (tax_code_by_id id) change table)
    else err (record_not_found "tax_codes")

unfoldable pub deactivate : ℕ → List TaxCode → List TaxCode → Result (List TaxCode)
unfolding find_by_id update_tax_code
deactivate id seen table = do
  current ← find_by_id id seen
  update_tax_code id (λ c. record c { is_active = false }) table

-- `deletedBy` is left out.
unfoldable pub soft_delete : ℕ → Timestamp → List TaxCode → List TaxCode → Result (List TaxCode)
unfolding find_by_id update_tax_code
soft_delete id now seen table = do
  current ← find_by_id id seen
  update_tax_code id
      (λ c. record c { code = tombstone_value current.code id; deleted_at = some now }) table

module _ (parse : Text → Option DecimalNumber) where
  unfoldable pub validate_rate : Text → Result (Unit {0})
  validate_rate rate = do
    r ← or_throw (parse rate) (validation_failed "Rate must be a valid decimal")
    throw_if (not (is_positive r && is_below_one r))
        (validation_failed "Rate must be greater than 0 and less than 1")
    throw_if (ltb 6 (decimal_places r))
        (validation_failed "Rate must have at most 6 decimal places")
    ok tt

  -- The column `rate numeric(9, 6)`, in millionths.
  unfoldable pub rate_column : Text → Result ℤ
  rate_column rate = elim (parse rate) [
    | none ↦ err (plain_error "rate")
    | some not_finite ↦ err (plain_error "rate")
    | some (finite coefficient places) ↦
        ok (half_up (places - 6) (coefficient *ℤ pos (10 ^ (6 - places))))
  ]

  unfoldable pub create :
      ℕ → CreateTaxCodeInput → Db → List TaxCode → List TaxCode → Result (List TaxCode)
  unfolding validate_rate validate_account_for_kind rate_column insert_tax_code on_unique_violation
  create new_id input seen_db seen table = do
    validate_rate input.rate
    validate_account_for_kind input.tax_account_id input.kind seen_db
    throw_if
        (is_some (find (λ (c : TaxCode). same_text c.code input.code && is_none c.deleted_at) seen))
        (conflict "Tax code already exists")
    rate ← rate_column input.rate
    on_unique_violation (conflict "Tax code already exists") (
        insert_tax_code
          (new_tax_code new_id input.code input.name input.kind rate input.tax_account_id) table)

  -- `if (input.rate !== undefined)`, and the column that an update sets.
  unfoldable pub validate_new_rate : Option Text → Result (Unit {0})
  unfolding validate_rate
  validate_new_rate none = ok tt
  validate_new_rate (some rate) = validate_rate rate

  unfoldable pub new_rate_column : Option Text → Result (Option ℤ)
  unfolding rate_column
  new_rate_column none = ok none
  new_rate_column (some rate) = do column ← rate_column rate; ok (some column)

  abbrev pub edited : UpdateTaxCodeInput → Option ℤ → TaxCode → TaxCode
  edited input rate c = record c {
    name = or_else input.name c.name;
    rate = or_else rate c.rate;
    is_active = or_else input.is_active c.is_active;
  }

  unfoldable pub update :
      ℕ → UpdateTaxCodeInput → List TaxCode → List TaxCode → Result (List TaxCode)
  unfolding find_by_id validate_new_rate new_rate_column update_tax_code
  update id input seen table = do
    current ← find_by_id id seen
    validate_new_rate input.rate
    rate ← new_rate_column input.rate
    update_tax_code id (edited input rate) table

  -- The loop of the seed's transaction. New ids count from `new_id`.
  unfoldable pub seed_tax_codes :
      ℕ → List SeedTaxCode → List Account → List TaxCode → Result (List TaxCode)
  unfolding rate_column insert_tax_code
  seed_tax_codes new_id [] accounts table = ok table
  seed_tax_codes new_id (s ∷ rest) accounts table = do
    account ←
        or_throw (find (account_by_code s.account_code) accounts)
          (plain_error "Seed: account not found for tax code")
    rate ← rate_column s.rate
    next ← insert_tax_code (new_tax_code new_id s.code s.name s.kind rate account.id) table
    seed_tax_codes (suc new_id) rest accounts next

  unfoldable pub lost_race : List TaxCode → Result (List TaxCode) → Result (List TaxCode)
  lost_race table (ok next) = ok next
  lost_race table (err e) = if is_unique_violation e then ok table else err e

  unfoldable pub seed_if_empty : ℕ → Db → List TaxCode → List TaxCode → Result (List TaxCode)
  unfolding seed_tax_codes lost_race
  seed_if_empty new_id seen_db seen table =
      if is_some (find (λ (c : TaxCode). is_none c.deleted_at) seen)
      then ok table
      else lost_race table (seed_tax_codes new_id tax_code_seed seen_db.accounts table)
