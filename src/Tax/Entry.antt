-- ===== src/Tax/Entry.antt =====
-- The journal lines of a taxable transaction balance.
use accounting_api.Common.{
  ℕ, ◌+◌, ◌<◌, ◌≤◌, ◌≡◌, inl, inr, refl, sym, ◌∙◌, ap, ap₂, Bool, true, false, not, List, [], ◌∷◌,
  ◌++◌, map, if◌then◌else◌, All, Bool-cases, arith,
}
use accounting_api.Common.Int.{
  plus_zero, zero_plus, plus_assoc, ℤ, pos, abs, ◌+ℤ◌, ◌-ℤ◌, int_laws, parts_of_eq, eq_of_parts,
  abs-+ℤ,
}
use accounting_api.Money.{Decimals, Money}
use accounting_api.Money.Exact.{total, total_abs, add-eq}
use accounting_api.Posting.{PostLineInput, debit_of, credit_of}
use accounting_api.Posting.Balanced.{debits-append, credits-append, debits, credits}
use accounting_api.Tax.{
  TaxNature, sale_nature, purchase_nature, TaxKind, ppn_output, ppn_input, pph_payable, pph_prepaid,
  TaxableLineInput, TaxableTransaction, TaxBreakdownRow, is_allowed, is_debit_kind, is_ppn, on_side,
  is_sale, base_line, tax_line, settlement_line, tax_totals,
}

-- The exact sums of the two buckets.
abbrev pub ppn_part : TaxBreakdownRow → ℤ
ppn_part t = if is_ppn t.kind then t.amount else pos 0

abbrev pub pph_part : TaxBreakdownRow → ℤ
pph_part t = if is_ppn t.kind then pos 0 else t.amount

abbrev pub ppn_sum : List TaxBreakdownRow → ℤ
ppn_sum ts = total (map ppn_part ts)

abbrev pub pph_sum : List TaxBreakdownRow → ℤ
pph_sum ts = total (map pph_part ts)

abbrev pub bases : TaxableTransaction → List Money
bases input = map (λ (l : TaxableLineInput). l.amount) input.lines

abbrev pub amounts : List TaxBreakdownRow → List Money
amounts ts = map (λ (t : TaxBreakdownRow). t.amount) ts

-- Twice the amounts add up to less than decimal.js's precision holds.
abbrev pub TaxFits : Decimals → TaxableTransaction → List TaxBreakdownRow → Type 0
TaxFits D input ts =
    (total_abs (bases input) + total_abs (amounts ts))
      + (total_abs (bases input) + total_abs (amounts ts))
    < D.limit

abbrev pub IsAllowed : TaxNature → TaxBreakdownRow → Type 0
IsAllowed nature t = is_allowed nature t.kind ≡ true

-- What one tax line adds to each side.
sale_sides :
    (k : TaxKind) (account : ℕ) (x : ℤ)
    → is_allowed sale_nature k ≡ true
    → (debit_of (on_side (is_debit_kind k) account x) ≡ (if is_ppn k then pos 0 else x))
      × (credit_of (on_side (is_debit_kind k) account x) ≡ (if is_ppn k then x else pos 0))
sale_sides ppn_output account x h = (refl, refl)
sale_sides pph_prepaid account x h = (refl, refl)
sale_sides ppn_input account x h = absurd (cc)
sale_sides pph_payable account x h = absurd (cc)

purchase_sides :
    (k : TaxKind) (account : ℕ) (x : ℤ)
    → is_allowed purchase_nature k ≡ true
    → (debit_of (on_side (is_debit_kind k) account x) ≡ (if is_ppn k then x else pos 0))
      × (credit_of (on_side (is_debit_kind k) account x) ≡ (if is_ppn k then pos 0 else x))
purchase_sides ppn_input account x h = (refl, refl)
purchase_sides pph_payable account x h = (refl, refl)
purchase_sides ppn_output account x h = absurd (cc)
purchase_sides pph_prepaid account x h = absurd (cc)

sale_taxes :
    (ts : List TaxBreakdownRow)
    → All (IsAllowed sale_nature) ts
    → (debits (map tax_line ts) ≡ pph_sum ts) × (credits (map tax_line ts) ≡ ppn_sum ts)
unfolding tax_line
sale_taxes [] h = (refl, refl)
sale_taxes (t ∷ ts) h =
    let head = sale_sides t.kind t.account_id t.amount h.0 in
    let ih = sale_taxes ts h.1 in (ap₂ ◌+ℤ◌ head.0 ih.0, ap₂ ◌+ℤ◌ head.1 ih.1)

purchase_taxes :
    (ts : List TaxBreakdownRow)
    → All (IsAllowed purchase_nature) ts
    → (debits (map tax_line ts) ≡ ppn_sum ts) × (credits (map tax_line ts) ≡ pph_sum ts)
unfolding tax_line
purchase_taxes [] h = (refl, refl)
purchase_taxes (t ∷ ts) h =
    let head = purchase_sides t.kind t.account_id t.amount h.0 in
    let ih = purchase_taxes ts h.1 in (ap₂ ◌+ℤ◌ head.0 ih.0, ap₂ ◌+ℤ◌ head.1 ih.1)

sale_bases :
    (ls : List TaxableLineInput)
    → (debits (map (base_line sale_nature) ls) ≡ pos 0)
      × (credits (map (base_line sale_nature) ls) ≡ total (map (λ l. l.amount) ls))
unfolding base_line
sale_bases [] = (refl, refl)
sale_bases (l ∷ ls) = let ih = sale_bases ls in (zero_plus _ ∙ ih.0, ap (λ x. l.amount +ℤ x) ih.1)

purchase_bases :
    (ls : List TaxableLineInput)
    → (debits (map (base_line purchase_nature) ls) ≡ total (map (λ l. l.amount) ls))
      × (credits (map (base_line purchase_nature) ls) ≡ pos 0)
unfolding base_line
purchase_bases [] = (refl, refl)
purchase_bases (l ∷ ls) =
    let ih = purchase_bases ls in (ap (λ x. l.amount +ℤ x) ih.0, zero_plus _ ∙ ih.1)

-- The sums of the three groups of lines.
three_groups :
    (xs ys : List PostLineInput) (l : PostLineInput)
    → (debits (xs ++ (ys ++ (l ∷ []))) ≡ debits xs +ℤ (debits ys +ℤ debit_of l))
      × (credits (xs ++ (ys ++ (l ∷ []))) ≡ credits xs +ℤ (credits ys +ℤ credit_of l))
three_groups xs ys l = (
  eq_of_parts _ _ (
      omega (
        int_laws,
        parts_of_eq (debits-append xs (ys ++ (l ∷ []))),
        parts_of_eq (debits-append ys (l ∷ [])),
      )),
  eq_of_parts _ _ (
      omega (
        int_laws,
        parts_of_eq (credits-append xs (ys ++ (l ∷ []))),
        parts_of_eq (credits-append ys (l ∷ [])),
      )),
)

abbrev pub entry_lines :
    TaxNature → List TaxableLineInput → ℕ → List TaxBreakdownRow → Money → List PostLineInput
entry_lines nature ls account_id ts s =
    map (base_line nature) ls ++ (map tax_line ts ++ (settlement_line nature account_id s ∷ []))

-- With the exact settlement the lines balance.
pub entry_lines-balanced :
    (nature : TaxNature) (ls : List TaxableLineInput) (account_id : ℕ) (ts : List TaxBreakdownRow)
    (s : Money)
    → All (IsAllowed nature) ts
    → s ≡ total (map (λ (l : TaxableLineInput). l.amount) ls) +ℤ ppn_sum ts -ℤ pph_sum ts
    → debits (entry_lines nature ls account_id ts s)
      ≡ credits (entry_lines nature ls account_id ts s)
unfolding settlement_line
entry_lines-balanced sale_nature ls account_id ts s allowed is =
    let line = settlement_line sale_nature account_id s in
    let g = three_groups (map (base_line sale_nature) ls) (map tax_line ts) line in
    let b = sale_bases ls in
    let t = sale_taxes ts allowed in
    eq_of_parts _ _ (
      omega (
        int_laws,
        parts_of_eq g.0,
        parts_of_eq g.1,
        parts_of_eq b.0,
        parts_of_eq b.1,
        parts_of_eq t.0,
        parts_of_eq t.1,
        parts_of_eq is,
      ))
entry_lines-balanced purchase_nature ls account_id ts s allowed is =
    let line = settlement_line purchase_nature account_id s in
    let g = three_groups (map (base_line purchase_nature) ls) (map tax_line ts) line in
    let b = purchase_bases ls in
    let t = purchase_taxes ts allowed in
    eq_of_parts _ _ (
      omega (
        int_laws,
        parts_of_eq g.0,
        parts_of_eq g.1,
        parts_of_eq b.0,
        parts_of_eq b.1,
        parts_of_eq t.0,
        parts_of_eq t.1,
        parts_of_eq is,
      ))

-- The absolute amounts of lines, on both sides.
abbrev pub sides_abs : List PostLineInput → ℕ
sides_abs ls = total_abs (map debit_of ls) + total_abs (map credit_of ls)

sides_abs-append : (xs ys : List PostLineInput) → sides_abs (xs ++ ys) ≡ sides_abs xs + sides_abs ys
sides_abs-append [] ys = omega arith
sides_abs-append (x ∷ xs) ys = omega (arith, sides_abs-append xs ys)

on_side-abs :
    (b : Bool) (account : ℕ) (x : ℤ)
    → abs (debit_of (on_side b account x)) + abs (credit_of (on_side b account x)) ≡ abs x
on_side-abs true account x = omega arith
on_side-abs false account x = omega arith

sides_abs-base :
    (n : TaxNature) (ls : List TaxableLineInput)
    → sides_abs (map (base_line n) ls) ≡ total_abs (map (λ (l : TaxableLineInput). l.amount) ls)
unfolding base_line
sides_abs-base n [] = refl
sides_abs-base n (l ∷ ls) =
    omega (arith, sides_abs-base n ls, on_side-abs (not (is_sale n)) l.account_id l.amount)

sides_abs-tax : (ts : List TaxBreakdownRow) → sides_abs (map tax_line ts) ≡ total_abs (amounts ts)
unfolding tax_line
sides_abs-tax [] = refl
sides_abs-tax (t ∷ ts) =
    omega (arith, sides_abs-tax ts, on_side-abs (is_debit_kind t.kind) t.account_id t.amount)

pub sides_abs-entry :
    (n : TaxNature) (ls : List TaxableLineInput) (account_id : ℕ) (ts : List TaxBreakdownRow)
    (s : Money)
    → sides_abs (entry_lines n ls account_id ts s)
      ≡ total_abs (map (λ (l : TaxableLineInput). l.amount) ls) + (total_abs (amounts ts) + abs s)
unfolding settlement_line
sides_abs-entry n ls account_id ts s =
    let line = settlement_line n account_id s in
    omega (
      arith,
      sides_abs-append (map (base_line n) ls) (map tax_line ts ++ (line ∷ [])),
      sides_abs-append (map tax_line ts) (line ∷ []),
      sides_abs-base n ls,
      sides_abs-tax ts,
      on_side-abs (is_sale n) account_id s,
    )

-- The buckets hold no more than the amounts.
pub parts_abs :
    (ts : List TaxBreakdownRow) → abs (ppn_sum ts) + abs (pph_sum ts) ≤ total_abs (amounts ts)
parts_abs [] = omega arith
parts_abs (t ∷ ts) =
    let ih = parts_abs ts in
    omega
      (arith, ih, abs-+ℤ (ppn_part t) (ppn_sum ts), abs-+ℤ (pph_part t) (pph_sum ts), part_abs t)
  where
    part_abs : (t : TaxBreakdownRow) → abs (ppn_part t) + abs (pph_part t) ≡ abs t.amount
    part_abs t = ground arith

module _ (D : Decimals) where
  pub tax_totals-eq :
      (ts : List TaxBreakdownRow) (p q : Money)
      → abs p + abs q + total_abs (amounts ts) < D.limit
      → tax_totals D ts p q ≡ (p +ℤ ppn_sum ts, q +ℤ pph_sum ts)
  unfolding tax_totals
  tax_totals-eq [] p q h = ap₂ (λ x y. (x, y)) (sym (plus_zero p)) (sym (plus_zero q))
  tax_totals-eq (t ∷ ts) p q h = elim (Bool-cases (is_ppn t.kind)) [
    | inl ppn ↦
        rw (ppn, add-eq D p t.amount (omega arith))
          (tax_totals-eq ts (p +ℤ t.amount) q (omega (arith, abs-+ℤ p t.amount))
            ∙ ap₂ (λ x y. (x, y)) (plus_assoc p t.amount (ppn_sum ts))
                (ap (λ x. q +ℤ x) (sym (zero_plus (pph_sum ts)))))
    | inr pph ↦
        rw (pph, add-eq D q t.amount (omega arith))
          (tax_totals-eq ts p (q +ℤ t.amount) (omega (arith, abs-+ℤ q t.amount))
            ∙ ap₂ (λ x y. (x, y)) (ap (λ x. p +ℤ x) (sym (zero_plus (ppn_sum ts))))
                (plus_assoc q t.amount (pph_sum ts)))
  ]
