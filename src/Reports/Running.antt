-- ===== src/Reports/Running.antt =====
-- The running balance of the general ledger (src/reporting/general-ledger.service.ts).
use accounting_api.Common.{
  ℕ, ◌+◌, ◌<◌, ◌≤◌, ◌≡◌, refl, ap, Bool, ◌&&◌, Bool-cases, inl, inr, List, [], ◌∷◌, map, filter,
  length, arith,
}
use accounting_api.Common.Sums.{
  sum_by, sum_by_ℕ, sum_by-append, sum_by-sort_by, sum_by_ℕ-sort_by, length-sort_by,
}
use accounting_api.Common.Int.{ℤ, abs, ◌+ℤ◌, ◌-ℤ◌, abs-+ℤ, abs--ℤ, int_laws}
use accounting_api.Money.{Decimals, Money, add}
use accounting_api.Money.Exact.{add-eq, subtract-eq}
use accounting_api.Dates.{Date}
use accounting_api.Store.{NormalBalance, debit_normal, credit_normal, JournalEntry, JournalLine}
use accounting_api.Balances.{
  is_posted_je, on_account, counted_lines, sum_debit, sum_credit, signed_net,
}
use accounting_api.Balances.Appended.{sum_debit-append, sum_credit-append}
use accounting_api.Reports.GeneralLedger.{
  LineRow, LedgerLine, line_row, line_rows, is_in_order, sort_rows, ledger_lines,
}

abbrev pub rows_debit : List LineRow → ℤ
rows_debit rows = sum_by (λ (r : LineRow). r.debit) rows

abbrev pub rows_credit : List LineRow → ℤ
rows_credit rows = sum_by (λ (r : LineRow). r.credit) rows

-- The absolute values of all the debits and credits.
abbrev pub rows_volume : List LineRow → ℕ
rows_volume rows = sum_by_ℕ (λ (r : LineRow). abs r.debit + abs r.credit) rows

-- Rows with the same sums, in another order.
pub record Like (rows rows' : List LineRow) : Type 0 where
  pub same_debit : rows_debit rows ≡ rows_debit rows'
  pub same_credit : rows_credit rows ≡ rows_credit rows'
  pub same_volume : rows_volume rows ≡ rows_volume rows'
  pub same_length : length rows ≡ length rows'

pub sort_rows-Like : (rows : List LineRow) → Like (sort_rows rows) rows
unfolding sort_rows
sort_rows-Like rows = record {
  same_debit = sum_by-sort_by is_in_order _ rows;
  same_credit = sum_by-sort_by is_in_order _ rows;
  same_volume = sum_by_ℕ-sort_by is_in_order _ rows;
  same_length = length-sort_by is_in_order rows;
}

entry_rows :
    (id : ℕ) (e : JournalEntry) (ls : List JournalLine)
    → (rows_debit (map (line_row e) (filter (on_account id) ls)) ≡ sum_debit id ls)
      × (rows_credit (map (line_row e) (filter (on_account id) ls)) ≡ sum_credit id ls)
unfolding sum_by sum_debit sum_credit
entry_rows id e [] = (refl, refl)
entry_rows id e (l ∷ ls) =
    let ih = entry_rows id e ls in
    elim (Bool-cases (on_account id l)) [
      | inl t ↦ rw (t, ih.0, ih.1) (refl, refl)
      | inr f ↦ rw (f, ih.0, ih.1) (omega int_laws, omega int_laws)
    ]

-- The rows have the sums of the balance query.
pub line_rows-sums :
    (id : ℕ) (f : Date → Bool) (es : List JournalEntry)
    → (rows_debit (line_rows id f es) ≡ sum_debit id (counted_lines f es))
      × (rows_credit (line_rows id f es) ≡ sum_credit id (counted_lines f es))
unfolding line_rows counted_lines sum_by sum_debit sum_credit
line_rows-sums id f [] = (refl, refl)
line_rows-sums id f (e ∷ es) =
    let ih = line_rows-sums id f es in
    let here = entry_rows id e e.lines in
    let new_rows = map (line_row e) (filter (on_account id) e.lines) in
    elim (Bool-cases (is_posted_je e && f e.date)) [
      | inl t ↦
          rw
            (
              t,
              sum_by-append (λ (r : LineRow). r.debit) new_rows (line_rows id f es),
              sum_by-append (λ (r : LineRow). r.credit) new_rows (line_rows id f es),
              sum_debit-append id e.lines (counted_lines f es),
              sum_credit-append id e.lines (counted_lines f es),
              here.0,
              here.1,
              ih.0,
              ih.1,
            )
            (refl, refl)
      | inr t ↦ rw t ih
    ]

pub rows-bound :
    (rows : List LineRow) → abs (rows_debit rows) + abs (rows_credit rows) ≤ rows_volume rows
unfolding sum_by sum_by_ℕ
rows-bound [] = omega arith
rows-bound (r ∷ rows) =
    omega
      (arith, rows-bound rows, abs-+ℤ r.debit (rows_debit rows), abs-+ℤ r.credit (rows_credit rows))

-- The exact net on the normal side.
abbrev pub side_net : NormalBalance → ℤ → ℤ → ℤ
side_net debit_normal d c = d -ℤ c
side_net credit_normal d c = c -ℤ d

pub side_net-add :
    (normal : NormalBalance) (d c d' c' : ℤ)
    → side_net normal d c +ℤ side_net normal d' c' ≡ side_net normal (d +ℤ d') (c +ℤ c')
side_net-add debit_normal d c d' c' = omega int_laws
side_net-add credit_normal d c d' c' = omega int_laws

pub abs-side_net : (normal : NormalBalance) (d c : ℤ) → abs (side_net normal d c) ≤ abs d + abs c
abs-side_net debit_normal d c = abs--ℤ d c
abs-side_net credit_normal d c = omega (arith, abs--ℤ c d)

pub last_balance : Money → List LedgerLine → Money
last_balance start [] = start
last_balance start (l ∷ ls) = last_balance l.running_balance ls

module _ (D : Decimals) where
  pub signed_net-eq :
      (normal : NormalBalance) (d c : ℤ)
      → abs d + abs c < D.limit
      → signed_net D normal d c ≡ side_net normal d c
  unfolding signed_net
  signed_net-eq debit_normal d c h = subtract-eq D d c h
  signed_net-eq credit_normal d c h = subtract-eq D c d (omega (arith, h))

  pub last_balance-ledger_lines :
      (normal : NormalBalance) (start : Money) (rows : List LineRow)
      → abs start + rows_volume rows < D.limit
      → last_balance start (ledger_lines D normal start rows)
        ≡ start +ℤ side_net normal (rows_debit rows) (rows_credit rows)
  unfolding ledger_lines last_balance sum_by sum_by_ℕ
  last_balance-ledger_lines debit_normal start [] h = omega int_laws
  last_balance-ledger_lines credit_normal start [] h = omega int_laws
  last_balance-ledger_lines normal start (r ∷ rows) h =
      let small = abs-side_net normal r.debit r.credit in
      let delta = signed_net-eq normal r.debit r.credit (omega (arith, h)) in
      let step = add-eq D start (side_net normal r.debit r.credit) (omega (arith, h, small)) in
      let grown = abs-+ℤ start (side_net normal r.debit r.credit) in
      let rest =
        last_balance-ledger_lines normal (start +ℤ side_net normal r.debit r.credit) rows
          (omega (arith, h, small, grown)) in
      let joined = side_net-add normal r.debit r.credit (rows_debit rows) (rows_credit rows) in
      rw (delta, step, rest, ← joined) (omega int_laws)

  pub ledger_lines-row :
      (normal : NormalBalance) (rows : List LineRow) (start : Money)
      → map (λ (l : LedgerLine). l.row) (ledger_lines D normal start rows) ≡ rows
  unfolding ledger_lines
  ledger_lines-row normal [] start = refl
  ledger_lines-row normal (r ∷ rows) start =
      ap (λ xs. r ∷ xs)
        (ledger_lines-row normal rows (add D start (signed_net D normal r.debit r.credit)))
