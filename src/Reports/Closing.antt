-- ===== src/Reports/Closing.antt =====
-- The general ledger runs from its opening to its closing balance
-- (src/reporting/general-ledger.service.ts).
use accounting_api.Common.{
  ℕ, suc, ◌+◌, ◌<◌, ◌≤◌, ◌≡◌, ◌≢◌, sym, refl, ap, ◌∙◌, Bool, true, false, ◌&&◌, some, map, find,
  length, All, arith,
}
use accounting_api.Common.Int.{◌+ℤ◌, abs-+ℤ}
use accounting_api.Common.Sums.{take-all, not_longer}
use accounting_api.Errors.{ok}
use accounting_api.Money.{Decimals, Money}
use accounting_api.Dates.{Date, IsDate, leb_date, truncate_to_utc_day, day_before}
use accounting_api.Dates.DayBefore.{
  IsDay, day_before-midnight, midnight-IsDay, truncate_to_utc_day-same, truncate_to_utc_day-year,
  truncated_twice, day_before-late,
}
use accounting_api.Store.{Db, Account}
use accounting_api.Posting.{account_by_id}
use accounting_api.Accounts.{find_by_id}
use accounting_api.Balances.{
  counted_lines, sum_debit, sum_credit, signed_net, account_balance, to_row,
}
use accounting_api.Reports.OverTime.{counted-split}
use accounting_api.Reports.CashMoves.{All-day-Splits}
use accounting_api.Reports.GeneralLedger.{
  GeneralLedger, LedgerLine, line_rows, sort_rows, ledger_lines, generate,
}
use accounting_api.Reports.Running.{
  rows_debit, rows_credit, rows_volume, sort_rows-Like, line_rows-sums, rows-bound, side_net,
  side_net-add, abs-side_net, signed_net-eq, last_balance, last_balance-ledger_lines,
  ledger_lines-row,
}

-- The days up to the one before a date, and those from a date to another.
abbrev pub days_before : Date → Date → Bool
days_before from d = leb_date d (day_before (truncate_to_utc_day from))

abbrev pub days_within : Date → Date → Date → Bool
days_within from to d = leb_date (truncate_to_utc_day from) d && leb_date d (truncate_to_utc_day to)

abbrev pub days_until : Date → Date → Bool
days_until to d = leb_date d (truncate_to_utc_day to)

module _ (D : Decimals) (account_id : ℕ) (db : Db) where
  -- What `accountBalance` gives for an account, by the days that count.
  abbrev balance_on : Account → (Date → Bool) → Money
  balance_on a f =
      signed_net D a.normal_balance (sum_debit account_id (counted_lines f db.journal_entries))
        (sum_credit account_id (counted_lines f db.journal_entries))

  -- It is exact where the rows fit.
  balance_on-side_net :
      (a : Account) (f : Date → Bool)
      → rows_volume (line_rows account_id f db.journal_entries) < D.limit
      → balance_on a f
        ≡ side_net a.normal_balance
            (rows_debit (line_rows account_id f db.journal_entries))
            (rows_credit (line_rows account_id f db.journal_entries))
  balance_on-side_net a f h =
      let rows = line_rows account_id f db.journal_entries in
      let sums = line_rows-sums account_id f db.journal_entries in
      let bound = rows-bound rows in
      rw (← sums.0, ← sums.1)
        (signed_net-eq D a.normal_balance (rows_debit rows) (rows_credit rows)
          (omega (arith, h, bound)))

  -- The balance of the opening, run over the rows of the days in between, is the closing one.
  run-closing :
      (a : Account) (f g h' : Date → Bool)
      → ((k : ℕ)
          → (sum_debit k (counted_lines h' db.journal_entries)
              ≡ sum_debit k (counted_lines f db.journal_entries)
                +ℤ sum_debit k (counted_lines g db.journal_entries))
            × (sum_credit k (counted_lines h' db.journal_entries)
                ≡ sum_credit k (counted_lines f db.journal_entries)
                  +ℤ sum_credit k (counted_lines g db.journal_entries)))
      → rows_volume (line_rows account_id f db.journal_entries)
          + rows_volume (line_rows account_id g db.journal_entries)
        < D.limit
      → last_balance (balance_on a f) (
          ledger_lines D a.normal_balance
            (balance_on a f)
            (sort_rows (line_rows account_id g db.journal_entries)))
        ≡ balance_on a h'
  run-closing a f g h' split fits =
      let es = db.journal_entries in
      let before = line_rows account_id f es in
      let within = line_rows account_id g es in
      let n = a.normal_balance in
      let opening = balance_on-side_net a f (omega (arith, fits)) in
      let like = sort_rows-Like within in
      let fb = line_rows-sums account_id f es in
      let gb = line_rows-sums account_id g es in
      let bf = rows-bound before in
      let bg = rows-bound within in
      let d_bound = abs-+ℤ (rows_debit before) (rows_debit within) in
      let c_bound = abs-+ℤ (rows_credit before) (rows_credit within) in
      let small = abs-side_net n (rows_debit before) (rows_credit before) in
      let run =
        last_balance-ledger_lines D n (side_net n (rows_debit before) (rows_credit before))
          (sort_rows within) (omega (arith, fits, bf, small, like.same_volume)) in
      let whole =
        signed_net-eq D n (rows_debit before +ℤ rows_debit within)
          (rows_credit before +ℤ rows_credit within)
          (omega (arith, fits, bf, bg, d_bound, c_bound)) in
      let both = split account_id in
      rw
        (
          opening,
          run,
          like.same_debit,
          like.same_credit,
          both.0,
          both.1,
          ← fb.0,
          ← fb.1,
          ← gb.0,
          ← gb.1,
          whole,
        )
        (side_net-add n (rows_debit before) (rows_credit before) (rows_debit within)
          (rows_credit within))

  account_balance-on :
      (as_of : Date) (a : Account)
      → find (account_by_id account_id) db.accounts ≡ some a
      → account_balance D account_id as_of db
        ≡ ok (record {
          account = a;
          debit = sum_debit account_id (counted_lines (days_until as_of) db.journal_entries);
          credit = sum_credit account_id (counted_lines (days_until as_of) db.journal_entries);
          balance = balance_on a (days_until as_of);
        })
  unfolding account_balance to_row
  account_balance-on as_of a h = rw h refl

  -- What the request returns where the cap is not reached.
  generate-whole :
      (a : Account) (from to : Date) (max_lines : ℕ)
      → find (account_by_id account_id) db.accounts ≡ some a
      → length (line_rows account_id (days_within from to) db.journal_entries) ≤ max_lines
      → generate D account_id from to max_lines db
        ≡ ok (record {
          account = a;
          opening_balance = balance_on a (days_until (day_before (truncate_to_utc_day from)));
          lines =
              ledger_lines D a.normal_balance
                (balance_on a (days_until (day_before (truncate_to_utc_day from))))
                (sort_rows (line_rows account_id (days_within from to) db.journal_entries));
          truncated = false;
          closing_balance = balance_on a (days_until (truncate_to_utc_day to));
        })
  unfolding generate find_by_id
  generate-whole a from to max_lines found capped =
      let rows = line_rows account_id (days_within from to) db.journal_entries in
      let sorted = sort_rows-Like rows in
      let short : length (sort_rows rows) ≤ suc max_lines =
        omega (arith, sorted.same_length, capped) in
      let whole = take-all (suc max_lines) (sort_rows rows) short in
      let under =
        not_longer max_lines (length (sort_rows rows))
          (omega (arith, sorted.same_length, capped)) in
      rw
        (
          found,
          account_balance-on (day_before (truncate_to_utc_day from)) a found,
          account_balance-on (truncate_to_utc_day to) a found,
          whole,
          under,
        )
        refl

  -- For a first day from the year 1 on that is not of the year 100 and not after the last one, where the entries' dates are
  -- days and the account exists: if the account has no more lines in the range than the cap, and the
  -- debits and credits of its lines up to the last day fit decimal.js's precision, its general ledger is
  -- returned whole, with a line for each of them, and the last running balance (the opening balance, if
  -- there is no line) is the closing balance.
  pub generate-closing :
      (a : Account) (from to : Date) (max_lines : ℕ)
      → find (account_by_id account_id) db.accounts ≡ some a
      → IsDate from
      → 1 ≤ from.year
      → from.year ≢ 100
      → leb_date (truncate_to_utc_day from) (truncate_to_utc_day to) ≡ true
      → All (λ e. IsDay e.date) db.journal_entries
      → length (line_rows account_id (days_within from to) db.journal_entries) ≤ max_lines
      → rows_volume (line_rows account_id (days_before from) db.journal_entries)
          + rows_volume (line_rows account_id (days_within from to) db.journal_entries)
        < D.limit
      → (g : GeneralLedger) × (generate D account_id from to max_lines db ≡ ok g)
        × (g.truncated ≡ false)
        × (map (λ (l : LedgerLine). l.row) g.lines
            ≡ sort_rows (line_rows account_id (days_within from to) db.journal_entries))
        × (last_balance g.opening_balance g.lines ≡ g.closing_balance)
  generate-closing a from to max_lines found is_date h other order days capped fits =
      let F = truncate_to_utc_day from in
      let es = db.journal_entries in
      let n = a.normal_balance in
      let hF = midnight-IsDay from is_date h in
      let hY = truncate_to_utc_day-year from h in
      let rows = sort_rows (line_rows account_id (days_within from to) es) in
      let same_days : days_until (day_before F) ≡ days_before from =
        ap (λ b. λ (d : Date). leb_date d b)
          (truncate_to_utc_day-same (day_before F) (day_before-midnight F hF.midnight)
            (day_before-late from h other)) in
      let start = balance_on a (days_until (day_before F)) in
      let splits = All-day-Splits F (truncate_to_utc_day to) es hF hY order days in
      let run =
        run-closing a (days_before from) (days_within from to) (days_until to)
          (λ k. counted-split (days_before from) (days_within from to) (days_until to) k es splits)
          fits in
      (
        record {
          account = a;
          opening_balance = start;
          lines = ledger_lines D n start rows;
          truncated = false;
          closing_balance = balance_on a (days_until (truncate_to_utc_day to));
        },
        generate-whole a from to max_lines found capped,
        refl,
        ledger_lines-row D n rows start,
        ap (λ f. last_balance (balance_on a f) (ledger_lines D n (balance_on a f) rows)) same_days
            ∙ run
            ∙ ap (λ b. balance_on a (λ d. leb_date d b)) (sym (truncated_twice to)),
      )
