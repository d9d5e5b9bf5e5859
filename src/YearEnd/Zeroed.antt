-- ===== src/YearEnd/Zeroed.antt =====
-- What a closing entry leaves on the accounts that it closes.
use accounting_api.Common.{
  ℕ, ◌+◌, ◌<◌, ◌≡◌, sym, subst, ap, ap₂, ◌∙◌, inl, inr, refl, List, [], ◌∷◌, map, arith,
  count_of_find, ==_iff, find, filter, count, Bool-cases, true, false, some, if◌then◌else◌, ◌==◌,
  ◌&&◌,
}
use accounting_api.Common.Int.{
  ℤ, pos, abs, ◌+ℤ◌, ◌-ℤ◌, int_laws, parts_of_eq, eq_of_parts, abs--ℤ, plus_zero, zero_plus,
}
use accounting_api.Money.{Decimals, Money, is_zero}
use accounting_api.Money.Exact.{subtract-eq, is_zero-eq}
use accounting_api.Store.{Account, JournalLine, is_none, is_some}
use accounting_api.Posting.{account_by_id}
use accounting_api.Posting.Write.{stored_lines}
use accounting_api.Balances.{
  AccountBalanceRow, to_row, group_rows, sum_debit, sum_credit, on_account,
}
use accounting_api.Balances.Live.{sum_debit-none, sum_credit-none}
use accounting_api.YearEnd.{signed_line, closing_loop, is_profit_or_loss_row, is_profit_or_loss}
use accounting_api.YearEnd.Lines.{rows_size, signed_line-Posts}

-- The rows' amounts on one account.
pub row_debit : ℕ → List AccountBalanceRow → ℤ
row_debit id [] = pos 0
row_debit id (r ∷ rs) = (if r.account.id == id then r.debit else pos 0) +ℤ row_debit id rs

pub row_credit : ℕ → List AccountBalanceRow → ℤ
row_credit id [] = pos 0
row_credit id (r ∷ rs) = (if r.account.id == id then r.credit else pos 0) +ℤ row_credit id rs

-- The row that an id finds, where no later row has the id.
live_here :
    (id : ℕ) (a x : Account) (accounts : List Account)
    → (x.id == id) ≡ true
    → count (λ (y : Account). y.id == id) accounts ≡ 0
    → find (account_by_id id) (x ∷ accounts) ≡ some a
    → (is_none x.deleted_at ≡ true) × (x ≡ a)
live_here id a x accounts this last found = elim (Bool-cases (is_none x.deleted_at)) [
  | inl live ↦ (live, some-injective (rw (this, live) at found))
  | inr gone ↦
      let later : find (account_by_id id) accounts ≡ some a = rw (this, gone) at found in
      let least =
        count_of_find (account_by_id id) (λ (y : Account). y.id == id) (λ y h. ground arith) a
          accounts later in
      absurd (omega (arith, least, last))
]
  where
    some-injective : {y z : Account} → some y ≡ some z → y ≡ z
    some-injective h = cc

module _ (D : Decimals) where
  pub signed_line-account_id :
      (account_id : ℕ) (amount : Money) → (signed_line D account_id amount).account_id ≡ account_id
  unfolding signed_line
  signed_line-account_id account_id amount = ground arith

  -- The loop's lines post to an account the opposite of its rows.
  pub closing_loop-opposite :
      (id n : ℕ) (rs : List AccountBalanceRow) (net : Money)
      → abs net + rows_size rs < D.limit
      → sum_debit id (stored_lines n (closing_loop D rs net).0) +ℤ row_debit id rs
        ≡ sum_credit id (stored_lines n (closing_loop D rs net).0) +ℤ row_credit id rs
  unfolding closing_loop row_debit row_credit sum_debit sum_credit stored_lines
  closing_loop-opposite id n [] net h = refl
  closing_loop-opposite id n (r ∷ rs) net h =
      let d = r.debit in
      let c = r.credit in
      let same = subtract-eq D d c (omega arith) in
      let small = abs--ℤ d c in
      elim (Bool-cases (is_zero (d -ℤ c))) [
        | inl zero ↦
            let ih = closing_loop-opposite id n rs net (omega arith) in
            let e = is_zero-eq (d -ℤ c) zero in
            elim (Bool-cases (r.account.id == id)) [
              | inl t ↦
                  rw (same, zero, t)
                    (eq_of_parts _ _ (omega (int_laws, parts_of_eq ih, parts_of_eq e)))
              | inr t ↦ rw (same, zero, t) (eq_of_parts _ _ (omega (int_laws, parts_of_eq ih)))
            ]
        | inr some_amount ↦
            let net' = net -ℤ (d -ℤ c) in
            let step = subtract-eq D net (d -ℤ c) (omega (arith, small)) in
            let ih =
              closing_loop-opposite id (n + 1) rs net'
                (omega (arith, small, abs--ℤ net (d -ℤ c))) in
            let line = signed_line-Posts D r.account.id (d -ℤ c) (omega (arith, small)) in
            let on = signed_line-account_id r.account.id (d -ℤ c) in
            elim (Bool-cases (r.account.id == id)) [
              | inl t ↦
                  rw (same, some_amount, step, on, t)
                    (eq_of_parts _ _ (omega (int_laws, parts_of_eq ih, parts_of_eq line.posts)))
              | inr t ↦
                  rw (same, some_amount, step, on, t)
                    (eq_of_parts _ _ (omega (int_laws, parts_of_eq ih)))
            ]
      ]

  -- The rows of an account that the table does not have, and of one that it has once.
  abbrev pub rows_of : List JournalLine → List Account → List AccountBalanceRow
  rows_of ls accounts = filter is_profit_or_loss_row (map (to_row D) (group_rows ls accounts))

  rows_of-absent :
      (id : ℕ) (ls : List JournalLine) (accounts : List Account)
      → count (λ (a : Account). a.id == id) accounts ≡ 0
      → (row_debit id (rows_of ls accounts) ≡ pos 0) × (row_credit id (rows_of ls accounts) ≡ pos 0)
  unfolding row_debit row_credit group_rows to_row
  rows_of-absent id ls [] h = (refl, refl)
  rows_of-absent id ls (a ∷ accounts) h =
      let ih = rows_of-absent id ls accounts (ground arith) in
      let other : (a.id == id) ≡ false = ground arith in
      elim (Bool-cases (is_none a.deleted_at && is_some (find (on_account a.id) ls))) [
        | inr t ↦ rw t ih
        | inl t ↦ elim (Bool-cases (is_profit_or_loss a.account_type)) [
          | inr u ↦ rw (t, u) ih
          | inl u ↦ rw (t, u, other) (zero_plus _ ∙ ih.0, zero_plus _ ∙ ih.1)
        ]
      ]

  pub rows_of-account :
      (id : ℕ) (ls : List JournalLine) (a : Account) (accounts : List Account)
      → count (λ (x : Account). x.id == id) accounts ≡ 1
      → find (account_by_id id) accounts ≡ some a
      → is_profit_or_loss a.account_type ≡ true
      → (row_debit id (rows_of ls accounts) ≡ sum_debit id ls)
        × (row_credit id (rows_of ls accounts) ≡ sum_credit id ls)
  unfolding row_debit row_credit group_rows to_row
  rows_of-account id ls a [] one found pl = cc
  rows_of-account id ls a (x ∷ accounts) one found pl = elim (Bool-cases (x.id == id)) [
    | inr other ↦
        let ih = rows_of-account id ls a accounts (ground arith) (ground arith) pl in
        elim (Bool-cases (is_none x.deleted_at && is_some (find (on_account x.id) ls))) [
          | inr t ↦ rw t ih
          | inl t ↦ elim (Bool-cases (is_profit_or_loss x.account_type)) [
            | inr u ↦ rw (t, u) ih
            | inl u ↦ rw (t, u, other) (zero_plus _ ∙ ih.0, zero_plus _ ∙ ih.1)
          ]
        ]
    | inl this ↦
        let none_left : count (λ (y : Account). y.id == id) accounts ≡ 0 = ground arith in
        let absent = rows_of-absent id ls accounts none_left in
        let (live, same) = live_here id a x accounts this none_left found in
        let this' : x.id ≡ id = (==_iff x.id id).0 this in
        let pl' : is_profit_or_loss x.account_type ≡ true = rw same pl in
        elim (Bool-cases (is_some (find (on_account x.id) ls))) [
          | inl t ↦
              rw (live, t, pl', this)
                (
                  (ap₂ ◌+ℤ◌ (ap (λ k. sum_debit k ls) this') absent.0 ∙ plus_zero _),
                  (ap₂ ◌+ℤ◌ (ap (λ k. sum_credit k ls) this') absent.1 ∙ plus_zero _),
                )
          | inr t ↦
              rw (live, t)
                (
                  absent.0
                      ∙ sym (
                          sum_debit-none id ls
                            (subst (λ k. is_some (find (on_account k) ls) ≡ false) this' t)),
                  absent.1
                      ∙ sym (
                          sum_credit-none id ls
                            (subst (λ k. is_some (find (on_account k) ls) ≡ false) this' t)),
                )
        ]
  ]
