-- ===== src/Tax.antt =====
-- The calculation of a taxable transaction (src/tax/tax.service.ts). The rates are decimals with six
-- places; the order of the codes is that of `localeCompare`, a parameter. Amounts are given as money
-- strings with at most four decimals.

pub mod Entry
pub mod Assembly
pub mod Outcome
use accounting_api.Common.{
  ℕ, Bool, true, false, ◌&&◌, ◌||◌, not, Option, none, some, List, [], ◌∷◌, ◌++◌, ◌==◌, map, find,
  filter, length, if◌then◌else◌,
}
use accounting_api.Common.Int.{ℤ}
use accounting_api.Errors.{
  Result, ok, err, ◌>>=◌, ◌>>◌, throw_if, or_throw, validation_failed, plain_error,
}
use accounting_api.Money.{
  Decimals, Money, zero_money, add, subtract, multiply, round_to_rupiah, sum, equals, is_zero,
  is_negative,
}
use accounting_api.DocRef.{Text}
use accounting_api.Store.{Timestamp, is_none, is_some}
use accounting_api.Posting.{PostLineInput, unique_ids, debit_of, credit_of}

pub data TaxNature : Type 0 where
  sale_nature purchase_nature : TaxNature

pub data TaxKind : Type 0 where
  ppn_output ppn_input pph_payable pph_prepaid : TaxKind

-- A rate is its millionths.
pub record TaxCode : Type 0 where
  pub id : ℕ
  pub code : Text
  pub name : Text
  pub rate : ℤ
  pub kind : TaxKind
  pub tax_account_id : ℕ
  pub is_active : Bool
  pub deleted_at : Option Timestamp

pub record TaxableLineInput : Type 0 where
  pub account_id : ℕ
  pub amount : Money
  pub tax_code_ids : List ℕ

pub record TaxableTransaction : Type 0 where
  pub nature : TaxNature
  pub settlement_account_id : ℕ
  pub lines : List TaxableLineInput

pub record TaxBreakdownRow : Type 0 where
  pub tax_code_id : ℕ
  pub code : Text
  pub kind : TaxKind
  pub base : Money
  pub amount : Money
  pub account_id : ℕ

pub record TaxCalculation : Type 0 where
  pub subtotal : Money
  pub taxes : List TaxBreakdownRow
  pub settlement_amount : Money
  pub journal_lines : List PostLineInput
  pub tax_total : Money
  pub withholding_total : Money

-- `ALLOWED_KINDS`.
abbrev pub is_allowed : TaxNature → TaxKind → Bool
is_allowed sale_nature ppn_output = true
is_allowed sale_nature pph_prepaid = true
is_allowed sale_nature ppn_input = false
is_allowed sale_nature pph_payable = false
is_allowed purchase_nature ppn_input = true
is_allowed purchase_nature pph_payable = true
is_allowed purchase_nature ppn_output = false
is_allowed purchase_nature pph_prepaid = false

-- The kinds whose line is on the debit side, and those of the value-added tax.
abbrev pub is_debit_kind : TaxKind → Bool
is_debit_kind ppn_input = true
is_debit_kind pph_prepaid = true
is_debit_kind ppn_output = false
is_debit_kind pph_payable = false

abbrev pub is_ppn : TaxKind → Bool
is_ppn ppn_output = true
is_ppn ppn_input = true
is_ppn pph_payable = false
is_ppn pph_prepaid = false

unfoldable pub check_repeats : List TaxableLineInput → Result (Unit {0})
check_repeats [] = ok tt
check_repeats (l ∷ ls) =
    let rest = check_repeats ls in
    if length (unique_ids l.tax_code_ids) == length l.tax_code_ids
    then rest
    else err (validation_failed "A tax code may not be repeated within a single line")

unfoldable pub flat_ids : List TaxableLineInput → List ℕ
flat_ids [] = []
flat_ids (l ∷ ls) = l.tax_code_ids ++ flat_ids ls

abbrev pub has_code_id : ℕ → TaxCode → Bool
has_code_id id c = c.id == id

-- `findMany` with `id in ids`, under the soft-delete filter.
unfoldable pub codes_of : List ℕ → List TaxCode → List TaxCode
codes_of ids table =
    filter (λ c. is_some (find (λ id. id == c.id) ids) && is_none c.deleted_at) table

unfoldable pub check_active : List TaxCode → List ℕ → Result (Unit {0})
check_active codes [] = ok tt
check_active codes (id ∷ ids) = do
  c ← or_throw (find (has_code_id id) codes) (validation_failed "Unknown tax code")
  throw_if (not c.is_active) (validation_failed "Tax code is inactive")
  check_active codes ids

unfoldable pub check_kinds : TaxNature → List TaxCode → Result (Unit {0})
check_kinds nature [] = ok tt
check_kinds nature (c ∷ codes) = do
  throw_if (not (is_allowed nature c.kind)) (validation_failed "Tax kind is not allowed")
  check_kinds nature codes

-- The lines of the journal.
abbrev pub on_side : Bool → ℕ → Money → PostLineInput
on_side is_debit account_id amount =
    if is_debit
    then record { account_id = account_id; debit = some amount; credit = none; description = none }
    else record { account_id = account_id; debit = none; credit = some amount; description = none }

abbrev pub is_sale : TaxNature → Bool
is_sale sale_nature = true
is_sale purchase_nature = false

unfoldable pub base_line : TaxNature → TaxableLineInput → PostLineInput
base_line nature l = on_side (not (is_sale nature)) l.account_id l.amount

unfoldable pub tax_line : TaxBreakdownRow → PostLineInput
tax_line t = on_side (is_debit_kind t.kind) t.account_id t.amount

unfoldable pub settlement_line : TaxNature → ℕ → Money → PostLineInput
settlement_line nature account_id settlement = on_side (is_sale nature) account_id settlement

module _ (D : Decimals) where
  -- `baseByCode.set(id, …)`: a key keeps its first place.
  unfoldable pub add_base : ℕ → Money → List (ℕ × Money) → List (ℕ × Money)
  add_base id amount [] = (id, add D zero_money amount) ∷ []
  add_base id amount (b ∷ bases) =
      let rest = add_base id amount bases in
      if b.0 == id then (b.0, add D b.1 amount) ∷ bases else b ∷ rest

  unfoldable pub add_line : List ℕ → Money → List (ℕ × Money) → List (ℕ × Money)
  unfolding add_base
  add_line [] amount bases = bases
  add_line (id ∷ ids) amount bases = add_line ids amount (add_base id amount bases)

  unfoldable pub base_by_code : List TaxableLineInput → List (ℕ × Money) → List (ℕ × Money)
  unfolding add_line
  base_by_code [] bases = bases
  base_by_code (l ∷ ls) bases = base_by_code ls (add_line l.tax_code_ids l.amount bases)

  unfoldable pub tax_amount : Money → ℤ → Money
  tax_amount base rate = round_to_rupiah D (multiply D base rate 6)

  unfoldable pub tax_row : ℕ × Money → TaxCode → TaxBreakdownRow
  unfolding tax_amount
  tax_row b c = record {
    tax_code_id = b.0;
    code = c.code;
    kind = c.kind;
    base = b.1;
    amount = tax_amount b.1 c.rate;
    account_id = c.tax_account_id;
  }

  -- Reading `rate` of an unknown code would be a TypeError.
  unfoldable pub tax_rows : List TaxCode → List (ℕ × Money) → Result (List TaxBreakdownRow)
  unfolding tax_row
  tax_rows codes [] = ok []
  tax_rows codes (b ∷ bases) = do
    c ← or_throw (find (has_code_id b.0) codes) (plain_error "TypeError")
    rest ← tax_rows codes bases
    ok (tax_row b c ∷ rest)

  -- `ppnTotal` and `pphTotal`, after the loop over the taxes.
  unfoldable pub tax_totals : List TaxBreakdownRow → Money → Money → Money × Money
  tax_totals [] ppn_total pph_total = (ppn_total, pph_total)
  tax_totals (t ∷ ts) ppn_total pph_total =
      let as_ppn = tax_totals ts (add D ppn_total t.amount) pph_total in
      let as_pph = tax_totals ts ppn_total (add D pph_total t.amount) in
      if is_ppn t.kind then as_ppn else as_pph

  abbrev pub settlement_of : Money → List TaxBreakdownRow → Money
  settlement_of subtotal taxes =
      subtract D (add D subtotal (tax_totals taxes zero_money zero_money).0)
        (tax_totals taxes zero_money zero_money).1

  abbrev pub journal_lines_of :
      TaxableTransaction → List TaxBreakdownRow → Money → List PostLineInput
  journal_lines_of input taxes settlement =
      map (base_line input.nature) input.lines
      ++ (map tax_line taxes
          ++ (settlement_line input.nature input.settlement_account_id settlement ∷ []))

  -- The returned object.
  abbrev pub calculation_of : TaxableTransaction → Money → List TaxBreakdownRow → TaxCalculation
  calculation_of input subtotal taxes = record {
    subtotal = subtotal;
    taxes = taxes;
    settlement_amount = settlement_of subtotal taxes;
    journal_lines = journal_lines_of input taxes (settlement_of subtotal taxes);
    tax_total = (tax_totals taxes zero_money zero_money).0;
    withholding_total = (tax_totals taxes zero_money zero_money).1;
  }

  -- From the sorted taxes to the result.
  unfoldable pub assemble :
      TaxableTransaction → Money → List TaxBreakdownRow → Result TaxCalculation
  assemble input subtotal taxes = do
    let settlement = settlement_of subtotal taxes
    let journal = journal_lines_of input taxes settlement
    throw_if (is_zero settlement || is_negative settlement)
        (validation_failed "Total withholding leaves a non-positive settlement amount")
    throw_if (not (equals (sum D (map debit_of journal)) (sum D (map credit_of journal))))
        (plain_error "Tax calculation did not balance")
    ok (calculation_of input subtotal taxes)

  module _ (comes_before : Text → Text → Bool) where
    -- The stable `sort` by code: `comes_before a b` says that `a` is not after `b`.
    unfoldable pub insert_by_code : TaxBreakdownRow → List TaxBreakdownRow → List TaxBreakdownRow
    insert_by_code t [] = t ∷ []
    insert_by_code t (u ∷ us) =
        let rest = insert_by_code t us in
        if comes_before t.code u.code then t ∷ u ∷ us else u ∷ rest

    unfoldable pub sort_by_code : List TaxBreakdownRow → List TaxBreakdownRow
    unfolding insert_by_code
    sort_by_code [] = []
    sort_by_code (t ∷ ts) = insert_by_code t (sort_by_code ts)

    unfoldable pub calculate : TaxableTransaction → List TaxCode → Result TaxCalculation
    calculate input table = do
      throw_if (length input.lines == 0)
          (validation_failed "A taxable transaction needs at least one line")
      check_repeats input.lines
      let ids = unique_ids (flat_ids input.lines)
      let codes = codes_of ids table
      check_active codes ids
      check_kinds input.nature codes
      taxes ← tax_rows codes (base_by_code input.lines [])
      assemble input (sum D (map (λ l. l.amount) input.lines)) (sort_by_code taxes)
