-- ===== src/Reports/OverTime.antt =====
-- The balances of some accounts add up over time (src/ledger/balances/balances.service.ts).
use accounting_api.Common.{
  ℕ, ◌≡◌, refl, Bool, true, false, ◌&&◌, ◌||◌, List, [], ◌∷◌, map, find, All, Bool-cases, inl, inr,
}
use accounting_api.Common.Int.{ℤ, pos, ◌+ℤ◌, ◌-ℤ◌, int_laws}
use accounting_api.Money.{Decimals}
use accounting_api.Dates.{Date}
use accounting_api.Store.{Account, JournalEntry, JournalLine, is_none, is_some}
use accounting_api.Balances.{
  AccountBalanceRow, is_posted_je, on_account, counted_lines, sum_debit, sum_credit, group_rows,
  to_row,
}
use accounting_api.Balances.Live.{sum_debit-none, sum_credit-none}
use accounting_api.Balances.Appended.{sum_debit-append, sum_credit-append}
use accounting_api.Reports.Parts.{when, weigh}

-- What a row's debit exceeds its credit by.
abbrev pub loss : AccountBalanceRow → ℤ
loss r = r.debit -ℤ r.credit

-- The same over the accounts of a test, from the lines.
unfoldable pub over : (Account → Bool) → List JournalLine → List Account → ℤ
over q ls [] = pos 0
over q ls (a ∷ accounts) =
    when (is_none a.deleted_at && q a) (sum_debit a.id ls -ℤ sum_credit a.id ls)
    +ℤ over q ls accounts

pub weigh-over :
    (D : Decimals) (q : Account → Bool) (ls : List JournalLine) (accounts : List Account)
    → weigh loss (λ r. q r.account) (map (to_row D) (group_rows ls accounts)) ≡ over q ls accounts
unfolding weigh over group_rows to_row
weigh-over D q ls [] = refl
weigh-over D q ls (a ∷ accounts) =
    let ih = weigh-over D q ls accounts in
    elim (Bool-cases (is_none a.deleted_at)) [
      | inl live ↦ elim (Bool-cases (is_some (find (on_account a.id) ls))) [
        | inl present ↦ rw (live, present, ih) refl
        | inr absent ↦
            rw (live, absent, ih, sum_debit-none a.id ls absent, sum_credit-none a.id ls absent)
              (elim (Bool-cases (q a)) [
                | inl t ↦ rw t (omega int_laws)
                | inr f ↦ rw f (omega int_laws)
              ])
      ]
      | inr dead ↦ rw (dead, ih) (omega int_laws)
    ]

-- One filter takes the days of two others, which share none.
abbrev pub Splits : (f g h : Date → Bool) → JournalEntry → Type 0
Splits f g h e = (h e.date ≡ (f e.date || g e.date)) × ((f e.date && g e.date) ≡ false)

pub counted-split :
    (f g h : Date → Bool) (k : ℕ) (es : List JournalEntry)
    → All (Splits f g h) es
    → (sum_debit k (counted_lines h es)
        ≡ sum_debit k (counted_lines f es) +ℤ sum_debit k (counted_lines g es))
      × (sum_credit k (counted_lines h es)
          ≡ sum_credit k (counted_lines f es) +ℤ sum_credit k (counted_lines g es))
unfolding counted_lines sum_debit sum_credit
counted-split f g h k [] s = (omega int_laws, omega int_laws)
counted-split f g h k (e ∷ es) s =
    let ih = counted-split f g h k es s.1 in
    let both = s.0.0 in
    let add_debit = λ (x : Date → Bool). sum_debit-append k e.lines (counted_lines x es) in
    let add_credit = λ (x : Date → Bool). sum_credit-append k e.lines (counted_lines x es) in
    elim (Bool-cases (is_posted_je e)) [
      | inr t ↦ rw t ih
      | inl t ↦ elim (Bool-cases (f e.date)) [
        | inl u ↦ elim (Bool-cases (g e.date)) [
          | inl v ↦ let wrong : true ≡ false = rw (u, v) at s.0.1 in cc
          | inr v ↦
              rw (both, t, u, v, add_debit h, add_debit f, add_credit h, add_credit f, ih.0, ih.1)
                (omega int_laws, omega int_laws)
        ]
        | inr u ↦ elim (Bool-cases (g e.date)) [
          | inl v ↦
              rw (both, t, u, v, add_debit h, add_debit g, add_credit h, add_credit g, ih.0, ih.1)
                (omega int_laws, omega int_laws)
          | inr v ↦ rw (both, t, u, v) ih
        ]
      ]
    ]

pub over-split :
    (q : Account → Bool) (ls ms ns : List JournalLine) (accounts : List Account)
    → ((k : ℕ)
        → (sum_debit k ns ≡ sum_debit k ls +ℤ sum_debit k ms)
          × (sum_credit k ns ≡ sum_credit k ls +ℤ sum_credit k ms))
    → over q ns accounts ≡ over q ls accounts +ℤ over q ms accounts
unfolding over
over-split q ls ms ns [] h = omega int_laws
over-split q ls ms ns (a ∷ accounts) h =
    let rest = over-split q ls ms ns accounts h in
    let sums = h a.id in
    elim (Bool-cases (is_none a.deleted_at && q a)) [
      | inl t ↦ rw (t, rest, sums.0, sums.1) (omega int_laws)
      | inr f ↦ rw (f, rest) (omega int_laws)
    ]
