-- ===== src/YearEnd/Swept.antt =====
-- A close sweeps the revenue and expense accounts of its year.
use accounting_api.Common.{
  ℕ, ◌+◌, ◌-◌, ◌≤◌, ◌/◌, ◌%◌, Bool-cases, ◌<◌, ◌≡◌, ◌≢◌, ◌⊎◌, sym, subst, ap, ◌∙◌, inl, inr, refl,
  List, [], ◌∷◌, ◌++◌, Option, arith, find, count, Option-cases, Bool, true, false, some, none,
  ◌==◌, ◌&&◌,
}
use mathlib.Core.List.{append-nil}
use accounting_api.Common.Int.{◌+ℤ◌, int_laws, parts_of_eq, eq_of_parts}
use accounting_api.Errors.{ok, >>=-eq-ok, ok-injective, throw_if-eq-ok}
use accounting_api.Money.{Decimals, Money, zero_money}
use accounting_api.Dates.{
  Date, leb_date, utc_year, truncate_to_utc_day, stored_day, first_of_month, last_of_month,
  fiscal_year_start_date, fiscal_year_end_date,
}
use accounting_api.Dates.FiscalYear.{IsMonth, days_in_month_range, utc_year-late}
use accounting_api.Store.{Db, Account, revenue, expense, CompanySettings, JournalEntry, JournalLine}
use accounting_api.Company
use accounting_api.DocRef.{Text}
use accounting_api.Posting.{PostLineInput, PreparedPosting, account_by_id}
use accounting_api.Posting.Write.{
  Env, reads_closed, stored_lines, posted_entry, create_posted_entry_in_tx,
}
use accounting_api.Posting.Effects.{create_posted_entry_in_tx-Booked}
use accounting_api.Balances.{
  sum_debit, sum_credit, counted_lines, movements_between, grouped_balances,
}
use accounting_api.YearEnd.{
  closing_loop, is_retained_earnings, profit_or_loss_rows, prepare_swept, prepare_close,
  commit_close, close, is_profit_or_loss, upsert_closed,
}
use accounting_api.YearEnd.Lines.{rows_size}
use accounting_api.YearEnd.Zeroed.{closing_loop-opposite, rows_of-account}
use accounting_api.Balances.Appended.{counted_lines-one}
use accounting_api.YearEnd.Prepared.{SameSums, prepare_swept-SameSums, prepare_swept-none}

-- The days that the year's movements read.
abbrev pub in_year : Date → Date → Date → Bool
in_year start year_end d =
    leb_date (truncate_to_utc_day start) d && leb_date d (truncate_to_utc_day year_end)

abbrev pub year_lines : Date → Date → Db → List JournalLine
year_lines start year_end db = counted_lines (in_year start year_end) db.journal_entries

utc_year-next : (y : ℕ) → y ≢ 99 → utc_year (y + 1) ≡ utc_year y + 1
utc_year-next y other = ground (arith, other)

-- But for the fiscal year 99, the last day of a fiscal year is one of its days.
year_end-in_year :
    (fy month : ℕ)
    → IsMonth month
    → fy ≢ 99
    → in_year
        (fiscal_year_start_date fy month)
        (fiscal_year_end_date fy month)
        (stored_day (fiscal_year_end_date fy month))
      ≡ true
unfolding fiscal_year_start_date fiscal_year_end_date first_of_month last_of_month
    truncate_to_utc_day
year_end-in_year fy month h other =
    let late : 100 ≤ utc_year fy = ground arith in
    let next = utc_year-next fy other in
    let same : (y : ℕ) → utc_year fy ≤ y → utc_year y ≡ y =
      λ y k. utc_year-late y (omega (arith, late, k)) in
    let first = same (utc_year fy + (month - 1) / 12) (omega arith) in
    elim (Bool-cases (month == 1)) [
      | inl january ↦
          let last = same (utc_year fy + 11 / 12) (omega arith) in
          let days = days_in_month_range (utc_year fy + 11 / 12) (11 % 12 + 1) in
          rw (january, first, last) (ground (arith, days, h))
      | inr later ↦
          let last = same (utc_year (fy + 1) + (month - 2) / 12) (omega (arith, next)) in
          let days =
            days_in_month_range (utc_year (fy + 1) + (month - 2) / 12) ((month - 2) % 12 + 1) in
          rw (later, first, last) (ground (arith, days, h, next))
    ]

upsert_closed-entries :
    (fy : ℕ) (entry_id : Option ℕ) (net : Money) (by now : ℕ) (db : Db)
    → (upsert_closed fy entry_id net by now db).journal_entries ≡ db.journal_entries
unfolding upsert_closed
upsert_closed-entries fy entry_id net by now db = ground arith

-- The closing entry counts in its year.
posted_entry-counted :
    (env : Env) (p : PreparedPosting) (n : ℕ) (ref : Text) (f : Date → Bool)
    → f (stored_day p.input.date) ≡ true
    → counted_lines f (posted_entry env p n ref ∷ []) ≡ stored_lines 1 p.input.lines
unfolding counted_lines posted_entry
posted_entry-counted env p n ref f h = rw h (append-nil (stored_lines 1 p.input.lines))

module _ (D : Decimals) (fy by id : ℕ) (db : Db) (settings : CompanySettings) (a : Account)
    (company : db.company ≡ some settings) (month : IsMonth settings.fiscal_year_start_month)
    (kept : fy ≢ 99) (one : count (λ (x : Account). x.id == id) db.accounts ≡ 1)
    (found : find (account_by_id id) db.accounts ≡ some a)
    (temporary : (a.account_type ≡ revenue) ⊎ (a.account_type ≡ expense))
    (other : (r : Account)
      → find is_retained_earnings db.accounts ≡ some r
      → (r.id == id) ≡ false) where
  is_temporary : is_profit_or_loss a.account_type ≡ true
  is_temporary = elim temporary [ inl t ↦ rw t refl | inr t ↦ rw t refl ]

  abbrev start : Date
  start = fiscal_year_start_date fy settings.fiscal_year_start_month

  abbrev year_end : Date
  year_end = fiscal_year_end_date fy settings.fiscal_year_start_month

  abbrev swept : List PostLineInput × Money
  swept = closing_loop D (profit_or_loss_rows D start year_end db) zero_money

  bounds_are : Company.fiscal_year_bounds fy db ≡ ok (start, year_end)
  unfolding Company.fiscal_year_bounds
  bounds_are = rw company refl

  prepare_close-swept :
      (q : Option (PreparedPosting × Money))
      → prepare_close D fy by db ≡ ok q
      → prepare_swept D fy by year_end swept.0 swept.1 db ≡ ok q
  unfolding prepare_close
  prepare_close-swept q h =
      let (still_open, h1) = throw_if-eq-ok _ _ _ h in
      let (b, hb, h2) = >>=-eq-ok (Company.fiscal_year_bounds fy db) _ h1 in
      let e : b ≡ (start, year_end) = ok-injective (sym hb ∙ bounds_are) in
      subst
        (λ (t : Date × Date).
          prepare_swept D fy by t.1 (closing_loop D (profit_or_loss_rows D t.0 t.1 db) zero_money).0
            (closing_loop D (profit_or_loss_rows D t.0 t.1 db) zero_money).1 db
          ≡ ok q)
        e h2

  module _ (fits : rows_size (profit_or_loss_rows D start year_end db) < D.limit) where
    loop_opposite :
        sum_debit id (stored_lines 1 swept.0) +ℤ sum_debit id (year_lines start year_end db)
        ≡ sum_credit id (stored_lines 1 swept.0) +ℤ sum_credit id (year_lines start year_end db)
    unfolding movements_between grouped_balances
    loop_opposite =
        let rows =
          rows_of-account D id (year_lines start year_end db) a db.accounts one found
            is_temporary in
        let e =
          closing_loop-opposite D id 1 (profit_or_loss_rows D start year_end db) zero_money
            (omega (arith, fits)) in
        rw (rows.0, rows.1) at e

    -- Where an empty year or the closing entry is what is added.
    sums_after :
        (ls : List JournalLine)
        → SameSums id ls (stored_lines 1 swept.0)
        → sum_debit id (year_lines start year_end db) +ℤ sum_debit id ls
          ≡ sum_credit id (year_lines start year_end db) +ℤ sum_credit id ls
    sums_after ls same = eq_of_parts _ _ (
        omega (
          int_laws,
          parts_of_eq loop_opposite,
          parts_of_eq same.debit_same,
          parts_of_eq same.credit_same,
        ))

    sums_unchanged :
        swept.0 ≡ []
        → sum_debit id (year_lines start year_end db) ≡ sum_credit id (year_lines start year_end db)
    unfolding stored_lines sum_debit sum_credit
    sums_unchanged nothing =
        let e = sums_after [] (
          subst (λ x. SameSums id [] (stored_lines 1 x)) (sym nothing)
            (record { debit_same = refl; credit_same = refl })) in
        eq_of_parts _ _ (omega (int_laws, parts_of_eq e))

    commit_close-zeroed :
        (env : Env) (q : PreparedPosting × Money) (db' : Db)
        → prepare_close D fy by db ≡ ok (some q)
        → commit_close env fy by q.0 q.1 db ≡ ok db'
        → sum_debit id (year_lines start year_end db')
          ≡ sum_credit id (year_lines start year_end db')
    unfolding commit_close posted_entry
    commit_close-zeroed env q db' hp h =
        let (date_is, same) =
          prepare_swept-SameSums D id db other fy by year_end swept.0 swept.1 q
            (prepare_close-swept (some q) hp) in
        let (still_open, h1) = throw_if-eq-ok (reads_closed fy db) _ _ h in
        let ((e, d), hd, h2) = >>=-eq-ok (create_posted_entry_in_tx env q.0 db) _ h1 in
        let (n, ref, is, booked) = create_posted_entry_in_tx-Booked env q.0 db d e hd in
        let f = in_year start year_end in
        let inside : f (stored_day q.0.input.date) ≡ true =
          subst (λ x. f (stored_day x) ≡ true) (sym date_is)
            (year_end-in_year fy settings.fiscal_year_start_month month kept) in
        let counted : counted_lines f (e ∷ []) ≡ e.lines =
          subst (λ (x : JournalEntry). counted_lines f (x ∷ []) ≡ x.lines) (sym is)
            (posted_entry-counted env q.0 n ref f inside) in
        let entries : db'.journal_entries ≡ db.journal_entries ++ (e ∷ []) =
          ap (λ (x : Db). x.journal_entries) (sym (ok-injective h2))
          ∙ upsert_closed-entries fy (some e.id) q.1 by env.now d
          ∙ booked.entries_are in
        let lines_are : e.lines ≡ stored_lines 1 q.0.input.lines =
          ap (λ (x : JournalEntry). x.lines) is in
        let sums = counted_lines-one f e db.journal_entries counted id in
        let both =
          sums_after e.lines
            (subst (λ x. SameSums id x (stored_lines 1 swept.0)) (sym lines_are) same) in
        rw entries (sums.0 ∙ both ∙ sym sums.1)

    -- If the year is read and closed on one database, with amounts that fit decimal.js's precision,
    -- then after the close the debits and the credits of the year on a revenue or expense account
    -- have the same sum, whether there was an entry to post or not. The fiscal year is not 99, for
    -- which `Date.UTC` may give a first day after the last one; the company is set up, the id is
    -- that of one row, and the account is not the one that takes the retained earnings.
    pub close-zeroed :
        (env : Env) (db' : Db)
        → close D env fy by db db ≡ ok db'
        → sum_debit id (year_lines start year_end db')
          ≡ sum_credit id (year_lines start year_end db')
    unfolding close
    close-zeroed env db' h =
        let (prepared, hp, h1) = >>=-eq-ok (prepare_close D fy by db) _ h in
        elim (Option-cases prepared) [
          | inr (q, is) ↦ commit_close-zeroed env q db' (hp ∙ ap ok is) (rw is at h1)
          | inl is ↦
              let nothing : swept.0 ≡ [] =
                prepare_swept-none D id db other fy by year_end swept.0 swept.1
                  (prepare_close-swept none (hp ∙ ap ok is)) in
              let e : ok (upsert_closed fy none zero_money by env.now db) ≡ ok db' = rw is at h1 in
              let entries : db'.journal_entries ≡ db.journal_entries =
                ap (λ (x : Db). x.journal_entries) (sym (ok-injective e))
                ∙ upsert_closed-entries fy none zero_money by env.now db in
              rw entries (sums_unchanged nothing)
        ]
