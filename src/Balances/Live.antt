-- ===== src/Balances/Live.antt =====
-- The sums over the live accounts (src/ledger/balances/balances.service.ts).
use accounting_api.Common.{
  ℕ, ◌≡◌, refl, ap₂, ◌∙◌, false, ◌&&◌, List, [], ◌∷◌, map, arith, ◌==◌, find, count, All,
  if◌then◌else◌, Bool-cases, inl, inr,
}
use accounting_api.Common.Int.{
  plus_zero, zero_plus, ℤ, pos, ◌+ℤ◌, int_laws, parts_of_eq, eq_of_parts,
}
use accounting_api.Money.Exact.{total}
use accounting_api.Store.{Account, JournalLine, is_none, is_some}
use accounting_api.Posting.{account_by_id}
use accounting_api.Posting.Rows.{line_debits, line_credits}
use accounting_api.Balances.{on_account, sum_debit, sum_credit, RawBalanceRow, group_rows}

-- Each line's account is one account of the table that is not deleted.
abbrev pub OnAccounts : List Account → List JournalLine → Type 0
OnAccounts accounts = All (λ l. count (account_by_id l.account_id) accounts ≡ 1)

abbrev pub debits_of : List RawBalanceRow → ℤ
debits_of rs = total (map (λ r. r.debit) rs)

abbrev pub credits_of : List RawBalanceRow → ℤ
credits_of rs = total (map (λ r. r.credit) rs)

zero_plus_zero : pos 0 +ℤ pos 0 ≡ pos 0
zero_plus_zero = omega int_laws

-- The sum of a quantity over the accounts that are not deleted.
pub live_total : (ℕ → ℤ) → List Account → ℤ
live_total g [] = pos 0
live_total g (a ∷ accounts) =
    (if is_none a.deleted_at then g a.id else pos 0) +ℤ live_total g accounts

live_total-add :
    (f g : ℕ → ℤ) (accounts : List Account)
    → live_total (λ id. f id +ℤ g id) accounts ≡ live_total f accounts +ℤ live_total g accounts
unfolding live_total
live_total-add f g [] = omega int_laws
live_total-add f g (a ∷ accounts) =
    let ih = parts_of_eq (live_total-add f g accounts) in
    elim (Bool-cases (is_none a.deleted_at)) [
      | inl t ↦ rw t (eq_of_parts _ _ (omega (int_laws, ih)))
      | inr t ↦ rw t (eq_of_parts _ _ (omega (int_laws, ih)))
    ]

-- An amount on one account is counted once.
live_total-none :
    (k : ℕ) (x : ℤ) (accounts : List Account)
    → count (account_by_id k) accounts ≡ 0
    → live_total (λ id. if k == id then x else pos 0) accounts ≡ pos 0
unfolding live_total
live_total-none k x [] h = refl
live_total-none k x (a ∷ accounts) h =
    let rest = live_total (λ id. if k == id then x else pos 0) accounts in
    let ih : rest ≡ pos 0 = live_total-none k x accounts (ground arith) in
    rw ih (ground (arith, zero_plus_zero))

live_total-one :
    (k : ℕ) (x : ℤ) (accounts : List Account)
    → count (account_by_id k) accounts ≡ 1
    → live_total (λ id. if k == id then x else pos 0) accounts ≡ x
unfolding live_total
live_total-one k x [] h = absurd (omega arith)
live_total-one k x (a ∷ accounts) h = elim (Bool-cases (is_none a.deleted_at && (k == a.id))) [
  | inl t ↦ rw (live_total-none k x accounts (ground arith)) (ground (arith, plus_zero x))
  | inr t ↦ rw (live_total-one k x accounts (ground arith)) (ground (arith, zero_plus x))
]

live_total-zero : (accounts : List Account) → live_total (λ id. pos 0) accounts ≡ pos 0
unfolding live_total
live_total-zero [] = refl
live_total-zero (a ∷ accounts) = rw (live_total-zero accounts) (ground (arith, zero_plus_zero))

-- An account that no line is on has the sum zero.
pub sum_debit-none :
    (k : ℕ) (ls : List JournalLine)
    → is_some (find (on_account k) ls) ≡ false
    → sum_debit k ls ≡ pos 0
unfolding sum_debit
sum_debit-none k [] h = refl
sum_debit-none k (l ∷ ls) h = ground (arith, sum_debit-none k ls, zero_plus_zero)

pub sum_credit-none :
    (k : ℕ) (ls : List JournalLine)
    → is_some (find (on_account k) ls) ≡ false
    → sum_credit k ls ≡ pos 0
unfolding sum_credit
sum_credit-none k [] h = refl
sum_credit-none k (l ∷ ls) h = ground (arith, sum_credit-none k ls, zero_plus_zero)

pub debits_of-group_rows :
    (ls : List JournalLine) (accounts : List Account)
    → debits_of (group_rows ls accounts) ≡ live_total (λ id. sum_debit id ls) accounts
unfolding group_rows live_total
debits_of-group_rows ls [] = refl
debits_of-group_rows ls (a ∷ accounts) =
    let rest = live_total (λ id. sum_debit id ls) accounts in
    ground (arith, debits_of-group_rows ls accounts, sum_debit-none a.id ls, zero_plus rest)

pub credits_of-group_rows :
    (ls : List JournalLine) (accounts : List Account)
    → credits_of (group_rows ls accounts) ≡ live_total (λ id. sum_credit id ls) accounts
unfolding group_rows live_total
credits_of-group_rows ls [] = refl
credits_of-group_rows ls (a ∷ accounts) =
    let rest = live_total (λ id. sum_credit id ls) accounts in
    ground (arith, credits_of-group_rows ls accounts, sum_credit-none a.id ls, zero_plus rest)

pub live_total-sum_debit :
    (accounts : List Account) (ls : List JournalLine)
    → OnAccounts accounts ls
    → live_total (λ id. sum_debit id ls) accounts ≡ line_debits ls
unfolding sum_debit
live_total-sum_debit accounts [] h = live_total-zero accounts
live_total-sum_debit accounts (l ∷ ls) h =
    live_total-add (λ id. if l.account_id == id then l.debit else pos 0) (λ id. sum_debit id ls)
      accounts
    ∙ ap₂ ◌+ℤ◌ (live_total-one l.account_id l.debit accounts h.0)
        (live_total-sum_debit accounts ls h.1)

pub live_total-sum_credit :
    (accounts : List Account) (ls : List JournalLine)
    → OnAccounts accounts ls
    → live_total (λ id. sum_credit id ls) accounts ≡ line_credits ls
unfolding sum_credit
live_total-sum_credit accounts [] h = live_total-zero accounts
live_total-sum_credit accounts (l ∷ ls) h =
    live_total-add (λ id. if l.account_id == id then l.credit else pos 0) (λ id. sum_credit id ls)
      accounts
    ∙ ap₂ ◌+ℤ◌ (live_total-one l.account_id l.credit accounts h.0)
        (live_total-sum_credit accounts ls h.1)
