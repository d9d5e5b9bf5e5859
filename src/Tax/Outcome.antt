-- ===== src/Tax/Outcome.antt =====
-- Every outcome of the calculation of a taxable transaction.
use accounting_api.Common.{
  ℕ, ◌≡◌, ◌⊎◌, inl, inr, refl, sym, ap, Bool, true, not, List, [], ◌∷◌, ◌++◌, ◌==◌, length, find,
  All, All-find, Bool-cases, Option-cases, String, ==_iff, subst,
}
use accounting_api.Common.Int.{pos, ◌≤ℤ◌}
use accounting_api.DocRef.{Text}
use accounting_api.Errors.{Result, ok, err, validation_failed}
use accounting_api.Money.{Decimals, Money}
use accounting_api.Store.{is_some}
use accounting_api.Posting.{unique_ids, without}
use accounting_api.Posting.Balanced.{debits, credits}
use accounting_api.Tax.{
  TaxNature, TaxCode, TaxableLineInput, TaxableTransaction, TaxBreakdownRow, TaxCalculation,
  is_allowed, check_repeats, flat_ids, has_code_id, codes_of, check_active, check_kinds, add_base,
  add_line, base_by_code, tax_rows, tax_row, insert_by_code, sort_by_code, calculate,
}
use accounting_api.Tax.Entry.{TaxFits, IsAllowed}
use accounting_api.Tax.Assembly.{assemble_lem}

-- A check that passes or rejects the request.
abbrev pub Rejects {ℓ} : {A : Type ℓ} → Result A → Type ℓ
Rejects call = (m : String) × (call ≡ err (validation_failed m))

check_repeats-cases :
    (ls : List TaxableLineInput) → (check_repeats ls ≡ ok tt) ⊎ Rejects (check_repeats ls)
unfolding check_repeats
check_repeats-cases [] = inl refl
check_repeats-cases (l ∷ ls) =
    elim (Bool-cases (length (unique_ids l.tax_code_ids) == length l.tax_code_ids)) [
      | inl t ↦ rw t (check_repeats-cases ls)
      | inr t ↦ inr ("A tax code may not be repeated within a single line", rw t refl)
    ]

abbrev IsKnown : List TaxCode → ℕ → Type 0
IsKnown codes id = is_some (find (has_code_id id) codes) ≡ true

check_active-cases :
    (codes : List TaxCode) (ids : List ℕ)
    → ((check_active codes ids ≡ ok tt) × All (IsKnown codes) ids)
      ⊎ Rejects (check_active codes ids)
unfolding check_active
check_active-cases codes [] = inl (refl, tt)
check_active-cases codes (id ∷ ids) = elim (Option-cases (find (has_code_id id) codes)) [
  | inl e ↦ inr ("Unknown tax code", rw e refl)
  | inr (c, e) ↦ elim (Bool-cases (not c.is_active)) [
    | inl t ↦ inr ("Tax code is inactive", rw (e, t) refl)
    | inr t ↦ elim (check_active-cases codes ids) [
      | inl h ↦ inl (rw (e, t) h.0, (ap is_some e, h.1))
      | inr h ↦ inr (h.0, rw (e, t) h.1)
    ]
  ]
]

check_kinds-cases :
    (nature : TaxNature) (codes : List TaxCode)
    → ((check_kinds nature codes ≡ ok tt) × All (λ c. is_allowed nature c.kind ≡ true) codes)
      ⊎ Rejects (check_kinds nature codes)
unfolding check_kinds
check_kinds-cases nature [] = inl (refl, tt)
check_kinds-cases nature (c ∷ codes) = elim (Bool-cases (is_allowed nature c.kind)) [
  | inl t ↦ elim (check_kinds-cases nature codes) [
    | inl h ↦ inl (rw t h.0, (t, h.1))
    | inr h ↦ inr (h.0, rw t h.1)
  ]
  | inr t ↦ inr ("Tax kind is not allowed", rw t refl)
]

module _ (P : ℕ → Type 0) where
  All-without : (a : ℕ) (xs : List ℕ) → P a → All P (without a xs) → All P xs
  unfolding without
  All-without a [] p h = tt
  All-without a (x ∷ xs) p h = elim (Bool-cases (x == a)) [
    | inl t ↦ (subst P (sym ((==_iff x a).0 t)) p, All-without a xs p (rw t at h))
    | inr t ↦ let h' : P x × All P (without a xs) = rw t at h in (h'.0, All-without a xs p h'.1)
  ]

  All-unique_ids : (xs : List ℕ) → All P (unique_ids xs) → All P xs
  unfolding unique_ids
  All-unique_ids [] h = tt
  All-unique_ids (x ∷ xs) h = (h.0, All-unique_ids xs (All-without x (unique_ids xs) h.0 h.1))

  All-append-left : (xs ys : List ℕ) → All P (xs ++ ys) → All P xs × All P ys
  All-append-left [] ys h = (tt, h)
  All-append-left (x ∷ xs) ys h = let r = All-append-left xs ys h.1 in ((h.0, r.0), r.1)

  module _ (D : Decimals) where
    -- Each base stands under the id of a line.
    add_base-keys :
        (id : ℕ) (amount : Money) (bs : List (ℕ × Money))
        → P id
        → All (λ b. P b.0) bs
        → All (λ b. P b.0) (add_base D id amount bs)
    unfolding add_base
    add_base-keys id amount [] p h = (p, tt)
    add_base-keys id amount (b ∷ bs) p h = elim (Bool-cases (b.0 == id)) [
      | inl t ↦ rw t h
      | inr t ↦ rw t (h.0, add_base-keys id amount bs p h.1)
    ]

    add_line-keys :
        (ids : List ℕ) (amount : Money) (bs : List (ℕ × Money))
        → All P ids
        → All (λ b. P b.0) bs
        → All (λ b. P b.0) (add_line D ids amount bs)
    unfolding add_line
    add_line-keys [] amount bs p h = h
    add_line-keys (id ∷ ids) amount bs p h =
        add_line-keys ids amount (add_base D id amount bs) p.1 (add_base-keys id amount bs p.0 h)

    base_by_code-keys :
        (ls : List TaxableLineInput) (bs : List (ℕ × Money))
        → All P (flat_ids ls)
        → All (λ b. P b.0) bs
        → All (λ b. P b.0) (base_by_code D ls bs)
    unfolding base_by_code flat_ids
    base_by_code-keys [] bs p h = h
    base_by_code-keys (l ∷ ls) bs p h =
        let r = All-append-left l.tax_code_ids (flat_ids ls) p in
        base_by_code-keys ls (add_line D l.tax_code_ids l.amount bs) r.1
          (add_line-keys l.tax_code_ids l.amount bs r.0 h)

module _ (D : Decimals) where
  tax_rows-ok :
      (nature : TaxNature) (codes : List TaxCode) (bs : List (ℕ × Money))
      → All (λ b. IsKnown codes b.0) bs
      → All (λ c. is_allowed nature c.kind ≡ true) codes
      → (ts : List TaxBreakdownRow) × (tax_rows D codes bs ≡ ok ts) × All (IsAllowed nature) ts
  unfolding tax_rows tax_row
  tax_rows-ok nature codes [] known allowed = ([], refl, tt)
  tax_rows-ok nature codes (b ∷ bs) known allowed =
      let (ts, e, all) = tax_rows-ok nature codes bs known.1 allowed in
      elim (Option-cases (find (has_code_id b.0) codes)) [
        | inl none_found ↦ absurd (cc (ap is_some none_found, known.0))
        | inr (c, found) ↦ (
          tax_row D b c ∷ ts,
          rw (found, e) refl,
          (
            All-find (λ c. is_allowed nature c.kind ≡ true) (has_code_id b.0) c codes allowed found,
            all,
          ),
        )
      ]

  module _ (comes_before : Text → Text → Bool) (P : TaxBreakdownRow → Type 0) where
    insert_by_code-All :
        (t : TaxBreakdownRow) (us : List TaxBreakdownRow)
        → P t
        → All P us
        → All P (insert_by_code D comes_before t us)
    unfolding insert_by_code
    insert_by_code-All t [] p h = (p, tt)
    insert_by_code-All t (u ∷ us) p h = elim (Bool-cases (comes_before t.code u.code)) [
      | inl e ↦ rw e (p, h)
      | inr e ↦ rw e (h.0, insert_by_code-All t us p h.1)
    ]

    sort_by_code-All :
        (ts : List TaxBreakdownRow) → All P ts → All P (sort_by_code D comes_before ts)
    unfolding sort_by_code
    sort_by_code-All [] h = tt
    sort_by_code-All (t ∷ ts) h =
        insert_by_code-All t (sort_by_code D comes_before ts) h.0 (sort_by_code-All ts h.1)

  -- If the taxes that are computed fit decimal.js's precision twice with the bases, a calculation
  -- either rejects its request as invalid, or returns a positive settlement and journal lines whose
  -- debits and credits have the same exact sum; no other error occurs.
  pub calculate_lem :
      (comes_before : Text → Text → Bool) (input : TaxableTransaction) (table : List TaxCode)
      → ((ts : List TaxBreakdownRow)
          → tax_rows D
              (codes_of (unique_ids (flat_ids input.lines)) table)
              (base_by_code D input.lines [])
            ≡ ok ts
          → TaxFits D input (sort_by_code D comes_before ts))
      → ((m : String) × (calculate D comes_before input table ≡ err (validation_failed m)))
        ⊎ ((r : TaxCalculation) × (calculate D comes_before input table ≡ ok r)
            × (pos 1 ≤ℤ r.settlement_amount)
            × (debits r.journal_lines ≡ credits r.journal_lines))
  unfolding calculate
  calculate_lem comes_before input table fits =
      let ids = unique_ids (flat_ids input.lines) in
      let codes = codes_of ids table in
      let bs = base_by_code D input.lines [] in
      elim (Bool-cases (length input.lines == 0)) [
        | inl t ↦ inl ("A taxable transaction needs at least one line", rw (calculate, t) refl)
        | inr t ↦ elim (check_repeats-cases input.lines) [
          | inr h ↦ inl (h.0, rw (calculate, t, h.1) refl)
          | inl repeats ↦ elim (check_active-cases codes ids) [
            | inr h ↦ inl (h.0, rw (calculate, t, repeats, h.1) refl)
            | inl active ↦ elim (check_kinds-cases input.nature codes) [
              | inr h ↦ inl (h.0, rw (calculate, t, repeats, active.0, h.1) refl)
              | inl kinds ↦
                  let known =
                    base_by_code-keys (IsKnown codes) D input.lines []
                      (All-unique_ids (IsKnown codes) _ active.1) tt in
                  let (ts, rows, allowed) = tax_rows-ok input.nature codes bs known kinds.1 in
                  let sorted = sort_by_code D comes_before ts in
                  let all = sort_by_code-All comes_before (IsAllowed input.nature) ts allowed in
                  elim (assemble_lem D input sorted all (fits ts rows)) [
                    | inl h ↦ inl (
                      "Total withholding leaves a non-positive settlement amount",
                      rw (calculate, t, repeats, active.0, kinds.0, rows) h.0,
                    )
                    | inr (r, h, exact, positive, balanced) ↦ inr (
                      r,
                      rw (calculate, t, repeats, active.0, kinds.0, rows) h,
                      positive,
                      balanced,
                    )
                  ]
            ]
          ]
        ]
      ]
