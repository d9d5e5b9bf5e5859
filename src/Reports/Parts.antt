-- ===== src/Reports/Parts.antt =====
-- The exact amounts of the sections of the income statement
-- (src/reporting/income-statement.service.ts).
use accounting_api.Common.{
  ℕ, ◌+◌, ◌<◌, ◌≤◌, ◌≡◌, refl, ap, ◌∙◌, Bool, true, false, ◌&&◌, not, List, [], ◌∷◌, ◌==◌,
  Bool-cases, inl, inr, ◌*◌, filter, map, arith,
}
use accounting_api.Common.Int.{ℤ, pos, abs, ◌+ℤ◌, ◌-ℤ◌, abs-+ℤ, abs--ℤ, int_laws}
use accounting_api.Money.{Decimals, add, subtract, sum}
use accounting_api.Money.Exact.{total, total_abs, add-eq, subtract-eq, abs-total, sum-eq-total}
use accounting_api.Store.{
  AccountType, asset, liability, equity, revenue, expense, AccountSubtype, revenue_subtype, cogs,
  operating_expense, other_income, other_expense,
}
use accounting_api.Accounts.{is_coherent, subtype_code}
use accounting_api.Balances.{AccountBalanceRow, natural_side}
use accounting_api.Reports.{is_pl_type, is_income_row, amount_of}

abbrev pub when : Bool → ℤ → ℤ
when true z = z
when false z = pos 0

-- The absolute values of all the debits and credits.
unfoldable pub volume : List AccountBalanceRow → ℕ
volume [] = 0
volume (r ∷ rows) = (abs r.debit + abs r.credit) + volume rows

-- The net of the six sections.
abbrev pub net : ℤ → ℤ → ℤ → ℤ → ℤ → ℤ → ℤ
net a b c d e f = ((((a -ℤ b) -ℤ c) +ℤ d) -ℤ e) -ℤ f

pub net_add :
    (a b c d e f a' b' c' d' e' f' : ℤ)
    → net (a +ℤ a') (b +ℤ b') (c +ℤ c') (d +ℤ d') (e +ℤ e') (f +ℤ f')
      ≡ net a b c d e f +ℤ net a' b' c' d' e' f'
net_add a b c d e f a' b' c' d' e' f' = omega int_laws

-- The exact amount of a row on the natural side of its type.
abbrev pub value : AccountType → ℤ → ℤ → ℤ
value asset d c = d -ℤ c
value expense d c = d -ℤ c
value liability d c = c -ℤ d
value equity d c = c -ℤ d
value revenue d c = c -ℤ d

abbrev pub of_subtype : AccountType → AccountSubtype → Bool → AccountSubtype → ℤ → ℤ
of_subtype t s tax wanted v =
    when (is_pl_type t && (not tax && (subtype_code s == subtype_code wanted))) v

pub row_net :
    (t : AccountType) (s : AccountSubtype) (tax : Bool) (d c : ℤ)
    → is_coherent t s ≡ true
    → (tax ≡ true → t ≡ expense)
    → net
        (of_subtype t s tax revenue_subtype (value t d c))
        (of_subtype t s tax cogs (value t d c))
        (of_subtype t s tax operating_expense (value t d c))
        (of_subtype t s tax other_income (value t d c))
        (of_subtype t s tax other_expense (value t d c))
        (when (is_pl_type t && tax) (value t d c))
      ≡ when (is_pl_type t) (c -ℤ d)
unfolding is_coherent
row_net asset s tax d c h k = omega int_laws
row_net liability s tax d c h k = omega int_laws
row_net equity s tax d c h k = omega int_laws
row_net expense s true d c h k = omega int_laws
row_net expense cogs false d c h k = omega int_laws
row_net expense operating_expense false d c h k = omega int_laws
row_net expense other_expense false d c h k = omega int_laws
row_net expense s false d c h k = cc
row_net revenue revenue_subtype false d c h k = omega int_laws
row_net revenue other_income false d c h k = omega int_laws
row_net revenue s false d c h k = cc
row_net revenue s true d c h k = let wrong = k refl in cc

-- The exact sum of a quantity over the rows that a test accepts.
unfoldable pub weigh :
    (AccountBalanceRow → ℤ) → (AccountBalanceRow → Bool) → List AccountBalanceRow → ℤ
weigh g p [] = pos 0
weigh g p (r ∷ rows) = when (p r) (g r) +ℤ weigh g p rows

abbrev pub row_value : AccountBalanceRow → ℤ
row_value r = value r.account.account_type r.debit r.credit

abbrev pub part : (AccountBalanceRow → Bool) → List AccountBalanceRow → ℤ
part p rows = weigh row_value p rows

abbrev pub gain : AccountBalanceRow → ℤ
gain r = r.credit -ℤ r.debit

-- The exact sum of credit less debit over the revenue and expense rows.
abbrev pub earnings : List AccountBalanceRow → ℤ
earnings rows = weigh gain is_income_row rows

pub filter-filter :
    {A : Type 0} (p q : A → Bool) (xs : List A)
    → filter p (filter q xs) ≡ filter (λ x. q x && p x) xs
filter-filter p q [] = refl
filter-filter p q (x ∷ xs) = elim (Bool-cases (q x)) [
  | inl t ↦ elim (Bool-cases (p x)) [
    | inl u ↦ rw (t, u) (ap (λ ys. x ∷ ys) (filter-filter p q xs))
    | inr v ↦ rw (t, v) (filter-filter p q xs)
  ]
  | inr f ↦ rw f (filter-filter p q xs)
]

-- decimal.js's `f` gives the exact `g` where the row fits, and no more than the row's volume.
pub record IsExact (D : Decimals) (f g : AccountBalanceRow → ℤ) : Type 0 where
  pub agrees : (r : AccountBalanceRow) → abs r.debit + abs r.credit < D.limit → f r ≡ g r
  pub small : (r : AccountBalanceRow) → abs (g r) ≤ abs r.debit + abs r.credit

module _ (D : Decimals) where
  amount-value :
      (t : AccountType) (d c : ℤ) → abs d + abs c < D.limit → natural_side D t d c ≡ value t d c
  unfolding natural_side
  amount-value asset d c h = subtract-eq D d c h
  amount-value expense d c h = subtract-eq D d c h
  amount-value liability d c h = subtract-eq D c d (omega (arith, h))
  amount-value equity d c h = subtract-eq D c d (omega (arith, h))
  amount-value revenue d c h = subtract-eq D c d (omega (arith, h))

  abs-value : (t : AccountType) (d c : ℤ) → abs (value t d c) ≤ abs d + abs c
  abs-value asset d c = abs--ℤ d c
  abs-value expense d c = abs--ℤ d c
  abs-value liability d c = omega (arith, abs--ℤ c d)
  abs-value equity d c = omega (arith, abs--ℤ c d)
  abs-value revenue d c = omega (arith, abs--ℤ c d)

  pub amount_of-IsExact : IsExact D (amount_of D) row_value
  amount_of-IsExact = record {
    agrees = λ r h. amount-value r.account.account_type r.debit r.credit h;
    small = λ r. abs-value r.account.account_type r.debit r.credit;
  }

  pub gain-IsExact : IsExact D (λ r. subtract D r.credit r.debit) gain
  gain-IsExact = record {
    agrees = λ r h. subtract-eq D r.credit r.debit (omega (arith, h));
    small = λ r. omega (arith, abs--ℤ r.credit r.debit);
  }

  -- The accepted rows: their exact sum, and the bound on the absolute values.
  total-weigh :
      (f g : AccountBalanceRow → ℤ)
      → IsExact D f g
      → (p : AccountBalanceRow → Bool) (rows : List AccountBalanceRow) → volume rows < D.limit
      → (total (map f (filter p rows)) ≡ weigh g p rows)
        × (total_abs (map f (filter p rows)) ≤ volume rows)
  unfolding weigh volume
  total-weigh f g e p [] h = (refl, omega arith)
  total-weigh f g e p (r ∷ rows) h =
      let rest = total-weigh f g e p rows (omega (arith, h)) in
      let exact_amount = e.agrees r (omega (arith, h)) in
      let bound = e.small r in
      elim (Bool-cases (p r)) [
        | inl t1 ↦ rw (t1, exact_amount, rest.0) (refl, omega (arith, rest.1, bound))
        | inr f1 ↦ rw (f1, rest.0) (omega int_laws, omega (arith, rest.1))
      ]

  pub sum-weigh :
      (f g : AccountBalanceRow → ℤ)
      → IsExact D f g
      → (p : AccountBalanceRow → Bool) (rows : List AccountBalanceRow) → volume rows < D.limit
      → (sum D (map f (filter p rows)) ≡ weigh g p rows) × (abs (weigh g p rows) ≤ volume rows)
  sum-weigh f g e p rows h =
      let amounts = map f (filter p rows) in
      let exact_total = total-weigh f g e p rows h in
      let within = abs-total amounts in
      let below : abs (weigh g p rows) ≤ total_abs amounts = rw exact_total.0 at within in
      (
        sum-eq-total D amounts (omega (arith, exact_total.1, h)) ∙ exact_total.0,
        omega (arith, below, exact_total.1),
      )

  pub net_exact :
      (a b c d e f : ℤ) (v : ℕ)
      → abs a ≤ v
      → abs b ≤ v
      → abs c ≤ v
      → abs d ≤ v
      → abs e ≤ v
      → abs f ≤ v
      → 6 * v < D.limit
      → subtract D (subtract D (add D (subtract D (subtract D a b) c) d) e) f ≡ net a b c d e f
  net_exact a b c d e f v ha hb hc hd he hf h =
      let h1 = abs--ℤ a b in
      let h2 = abs--ℤ (a -ℤ b) c in
      let h3 = abs-+ℤ ((a -ℤ b) -ℤ c) d in
      let h4 = abs--ℤ (((a -ℤ b) -ℤ c) +ℤ d) e in
      let e1 = subtract-eq D a b (omega arith) in
      let e2 = subtract-eq D (a -ℤ b) c (omega arith) in
      let e3 = add-eq D ((a -ℤ b) -ℤ c) d (omega arith) in
      let e4 = subtract-eq D (((a -ℤ b) -ℤ c) +ℤ d) e (omega arith) in
      let e5 = subtract-eq D ((((a -ℤ b) -ℤ c) +ℤ d) -ℤ e) f (omega arith) in rw (e1, e2, e3, e4) e5
