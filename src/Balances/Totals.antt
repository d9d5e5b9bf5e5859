-- ===== src/Balances/Totals.antt =====
-- The trial balance balances.
use accounting_api.Common.{
  ◌+◌, ◌<◌, ◌≡◌, refl, sym, ap₂, ◌∙◌, Bool, true, ◌&&◌, List, [], ◌∷◌, ◌++◌, map, arith, All,
  Bool-cases, inl, inr,
}
use accounting_api.Common.Int.{zero_plus, abs, ◌+ℤ◌, int_laws, parts_of_eq, eq_of_parts, abs-+ℤ}
use accounting_api.Money.{Decimals, Money, zero_money, is_zero}
use accounting_api.Money.Exact.{is_zero-eq, total_abs}
use accounting_api.Dates.{Date, truncate_to_utc_day, leb_date}
use accounting_api.Store.{
  Db, JournalEntry, JournalLine, JournalStatus, draft, posted, reversed, is_none, is_some,
}
use accounting_api.Posting.Rows.{line_debits, line_credits, AsStatus, GoodRow}
use accounting_api.Balances.{
  counted_lines, RawBalanceRow, grouped_balances, trial_rows, trial_balance, AccountBalanceRow,
  to_row,
}
use accounting_api.Balances.Live.{
  OnAccounts, credits_of, credits_of-group_rows, debits_of, debits_of-group_rows,
  live_total-sum_credit, live_total-sum_debit,
}

line_debits-append :
    (xs ys : List JournalLine) → line_debits (xs ++ ys) ≡ line_debits xs +ℤ line_debits ys
line_debits-append [] ys = omega int_laws
line_debits-append (x ∷ xs) ys =
    eq_of_parts _ _ (omega (int_laws, parts_of_eq (line_debits-append xs ys)))

line_credits-append :
    (xs ys : List JournalLine) → line_credits (xs ++ ys) ≡ line_credits xs +ℤ line_credits ys
line_credits-append [] ys = omega int_laws
line_credits-append (x ∷ xs) ys =
    eq_of_parts _ _ (omega (int_laws, parts_of_eq (line_credits-append xs ys)))

entry_balanced :
    (s : JournalStatus) (e : JournalEntry)
    → AsStatus s e
    → is_some e.posted_at ≡ true
    → line_debits e.lines ≡ line_credits e.lines
entry_balanced draft e a h = absurd (ground arith)
entry_balanced posted e a h = a.double_entry.balanced
entry_balanced reversed e a h = a.double_entry.balanced

-- The lines that count have equal sums, entry by entry.
counted_lines-balanced :
    (date_filter : Date → Bool) (es : List JournalEntry)
    → All GoodRow es
    → line_debits (counted_lines date_filter es) ≡ line_credits (counted_lines date_filter es)
unfolding counted_lines
counted_lines-balanced f [] h = refl
counted_lines-balanced f (e ∷ es) h =
    let rest = counted_lines f es in
    let ih = counted_lines-balanced f es h.1 in
    elim (Bool-cases (is_some e.posted_at && is_none e.deleted_at && f e.date)) [
      | inl t ↦ rw t (
          line_debits-append e.lines rest
          ∙ ap₂ ◌+ℤ◌ (entry_balanced e.status e h.0.as_status (ground arith)) ih
          ∙ sym (line_credits-append e.lines rest))
      | inr t ↦ rw t ih
    ]

-- What `trialBalance` reads.
abbrev pub lines_as_of : Date → Db → List JournalLine
lines_as_of as_of db =
    counted_lines (λ d. leb_date d (truncate_to_utc_day as_of)) db.journal_entries

abbrev pub rows_as_of : Date → Db → List RawBalanceRow
rows_as_of as_of db = grouped_balances (λ d. leb_date d (truncate_to_utc_day as_of)) db

-- The two columns of what the query gives are equal, and sum up the lines that count.
pub grouped_balances-columns :
    (date_filter : Date → Bool) (db : Db)
    → All GoodRow db.journal_entries
    → OnAccounts db.accounts (counted_lines date_filter db.journal_entries)
    → (debits_of (grouped_balances date_filter db) ≡ credits_of (grouped_balances date_filter db))
      × (debits_of (grouped_balances date_filter db)
          ≡ line_debits (counted_lines date_filter db.journal_entries))
unfolding grouped_balances
grouped_balances-columns date_filter db good on =
    let ls = counted_lines date_filter db.journal_entries in
    let d = debits_of-group_rows ls db.accounts ∙ live_total-sum_debit db.accounts ls on in
    let c = credits_of-group_rows ls db.accounts ∙ live_total-sum_credit db.accounts ls on in
    (d ∙ counted_lines-balanced date_filter db.journal_entries good ∙ sym c, d)

module _ (D : Decimals) where
  -- The absolute totals of the rows fit decimal.js's precision.
  abbrev pub RowsFit : List RawBalanceRow → Type 0
  RowsFit rs = total_abs (map (λ r. r.debit) rs) + total_abs (map (λ r. r.credit) rs) < D.limit

  trial_rows-totals :
      (rs : List RawBalanceRow) (td tc : Money) (out : List AccountBalanceRow)
      → abs td + abs tc + (total_abs (map (λ r. r.debit) rs) + total_abs (map (λ r. r.credit) rs))
        < D.limit
      → ((trial_rows D rs td tc out).total_debit ≡ td +ℤ debits_of rs)
        × ((trial_rows D rs td tc out).total_credit ≡ tc +ℤ credits_of rs)
  unfolding trial_rows
  trial_rows-totals [] td tc out h = (omega int_laws, omega int_laws)
  trial_rows-totals (r ∷ rs) td tc out h = elim (Bool-cases (is_zero r.debit && is_zero r.credit)) [
    | inl zero ↦
        let ih = trial_rows-totals rs td tc out (omega arith) in
        let d = parts_of_eq (is_zero-eq r.debit (ground arith)) in
        let c = parts_of_eq (is_zero-eq r.credit (ground arith)) in
        rw zero (
          eq_of_parts _ _ (omega (int_laws, parts_of_eq ih.0, d)),
          eq_of_parts _ _ (omega (int_laws, parts_of_eq ih.1, c)),
        )
    | inr some_amount ↦
        let out' = out ++ (to_row D r ∷ []) in
        let ih =
          trial_rows-totals rs (td +ℤ r.debit) (tc +ℤ r.credit) out'
            (omega (arith, abs-+ℤ td r.debit, abs-+ℤ tc r.credit)) in
        rw
          (
            some_amount,
            D.plus_exact td r.debit (omega (arith, abs-+ℤ td r.debit)),
            D.plus_exact tc r.credit (omega (arith, abs-+ℤ tc r.credit)),
          )
          (
            eq_of_parts _ _ (omega (int_laws, parts_of_eq ih.0)),
            eq_of_parts _ _ (omega (int_laws, parts_of_eq ih.1)),
          )
  ]

  -- While the rows fit decimal.js's precision and every line that counts is on exactly one live
  -- account, the trial balance of a journal whose rows are good has equal totals, and its debit total
  -- is the sum of the debits of all the lines that count.
  pub trial_balance-balanced :
      (as_of : Date) (db : Db)
      → All GoodRow db.journal_entries
      → OnAccounts db.accounts (lines_as_of as_of db)
      → RowsFit (rows_as_of as_of db)
      → ((trial_balance D as_of db).total_debit ≡ (trial_balance D as_of db).total_credit)
        × ((trial_balance D as_of db).total_debit ≡ line_debits (lines_as_of as_of db))
  unfolding trial_balance
  trial_balance-balanced as_of db good on fits =
      let totals = trial_rows-totals (rows_as_of as_of db) zero_money zero_money [] (omega arith) in
      let columns =
        grouped_balances-columns (λ d. leb_date d (truncate_to_utc_day as_of)) db good on in
      let d = totals.0 ∙ zero_plus _ ∙ columns.1 in
      (totals.0 ∙ zero_plus _ ∙ columns.0 ∙ sym (zero_plus _) ∙ sym totals.1, d)
