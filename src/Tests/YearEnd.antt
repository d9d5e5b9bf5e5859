-- ===== src/Tests/YearEnd.antt =====
-- The year-end theorems on the sale of the journal's tests, at the end of its year.
use accounting_api.Common.{
  ◌≡◌, ◌≢◌, refl, subst, true, false, none, some, List, [], ◌∷◌, arith, ◌<◌, find, ◌==◌, inl,
}
use accounting_api.Common.Int.{pos, ◌+ℤ◌, ◌-ℤ◌, ◌*ℤ◌}
use accounting_api.Errors.{ok, err, conflict}
use accounting_api.Money.{Money, half_up_ℕ, half_up, new_money, add, subtract, multiply, zero_money}
use accounting_api.Dates.{
  truncate_to_utc_day, fiscal_year_for_date, fiscal_year_start_date, fiscal_year_end_date,
  first_of_month, last_of_month, days_in_month,
}
use accounting_api.DocRef.{codes, build_doc_ref}
use accounting_api.Sequence.{ensure_row, read_number, next_sequence_number}
use accounting_api.Company.{fiscal_year_for, fiscal_year_bounds, is_segregation_violation}
use accounting_api.Periods.{contains, find_open_period_for_date}
use accounting_api.Store.{
  operating, Db, Account, AccountingPeriod, equity, credit_normal, equity_subtype,
  retained_earnings, open_period, closed_year,
}
use accounting_api.Posting.{
  has_one_side, check_lines, assert_balanced, without, unique_ids, check_account, check_accounts,
  resolve_postable_accounts, assert_postable_accounts, is_year_closed, assert_postable_date,
  PreparedPosting, prepare_posting, PostLineInput,
}
use accounting_api.Posting.Write.{
  Env, line_check, lines_check, is_number_taken, is_reversal_taken, insert_entry,
  assert_postable_period_in_tx, next_number, stamp_posted_in_tx, stored_lines, posted_entry,
  create_posted_entry_in_tx,
}
use accounting_api.Posting.Guard.{posting, commit}
use accounting_api.Balances.{
  counted_lines, sum_debit, sum_credit, group_rows, grouped_balances, to_row, movements_between,
  AccountBalanceRow,
}
use accounting_api.YearEnd.{
  signed_line, closing_loop, with_retained_earnings, closing_input, prepare_swept, prepare_close,
  upsert_closed, commit_close, close, profit_or_loss_rows, is_retained_earnings,
}
use accounting_api.YearEnd.Lines.{rows_size, closing_lines-balanced}
use accounting_api.YearEnd.Swept.{year_lines, close-zeroed}
use accounting_api.YearEnd.Twice.{close-close, commit-close_year}
use accounting_api.Tests.{january, cash, sales, exact, day, empty_book, sale}

abbrev env : Env
env = record { new_id = 11; now = 1000 }

abbrev prepared : PreparedPosting
prepared = record { input = sale; posted_by = 4; period_id = 7; fiscal_year = 2026 }

abbrev retained : Account
retained = record {
  id = 3;
  code = codes "3-2000";
  name = codes "Laba Ditahan";
  account_type = equity;
  subtype = equity_subtype;
  cash_flow_category = operating;
  parent_id = none;
  role = some retained_earnings;
  normal_balance = credit_normal;
  is_postable = true;
  is_active = true;
  deleted_at = none;
}

abbrev december : AccountingPeriod
december = record {
  id = 18;
  fiscal_year = 2026;
  sequence = 12;
  start_date = day 2026 12 1;
  end_date = day 2026 12 31;
  status = open_period;
  closed_at = none;
  closed_by = none;
}

abbrev year_book : Db
year_book = record empty_book {
  accounts = cash ∷ sales ∷ retained ∷ [];
  periods = january ∷ december ∷ [];
  journal_sequences = (2026, 2) ∷ [];
  journal_entries = posted_entry env prepared 1 (build_doc_ref "JE" 2026 1) ∷ [];
}

abbrev close_env : Env
close_env = record { new_id = 13; now = 9000 }

abbrev reverse_env : Env
reverse_env = record { new_id = 14; now = 9500 }

abbrev closing_lines : List PostLineInput
closing_lines =
    record { account_id = 2; debit = some (pos 50000000); credit = none; description = none }
    ∷ record { account_id = 3; debit = none; credit = some (pos 50000000); description = none }
    ∷ []

abbrev closing_prepared : PreparedPosting
closing_prepared = record {
  input = closing_input 2026 5 (day 2026 12 31) closing_lines;
  posted_by = 5;
  period_id = 18;
  fiscal_year = 2026;
}

abbrev closed_book : Db
closed_book = record year_book {
  journal_sequences = (2026, 3) ∷ [];
  journal_entries =
      posted_entry env prepared 1 (build_doc_ref "JE" 2026 1)
      ∷ posted_entry close_env closing_prepared 2 (build_doc_ref "JE" 2026 2)
      ∷ [];
  year_end_closings =
      record {
        fiscal_year = 2026;
        status = closed_year;
        closing_entry_id = some 13;
        net_income = pos 50000000;
        closed_at = some 9000;
        closed_by = some 5;
        reopened_at = none;
        reopened_by = none;
      }
      ∷ [];
}

close-year_book : close exact close_env 2026 5 year_book year_book ≡ ok closed_book
unfolding close prepare_close prepare_swept commit_close upsert_closed closing_loop
    with_retained_earnings signed_line movements_between grouped_balances group_rows to_row
    counted_lines sum_debit sum_credit prepare_posting assert_balanced check_lines has_one_side add
    subtract multiply new_money half_up half_up_ℕ ◌+ℤ◌ ◌-ℤ◌ ◌*ℤ◌ is_segregation_violation
    assert_postable_date find_open_period_for_date contains truncate_to_utc_day fiscal_year_for
    fiscal_year_for_date is_year_closed assert_postable_accounts resolve_postable_accounts
    unique_ids without check_accounts check_account fiscal_year_bounds fiscal_year_start_date
    fiscal_year_end_date first_of_month last_of_month days_in_month create_posted_entry_in_tx
    stamp_posted_in_tx assert_postable_period_in_tx next_number next_sequence_number ensure_row
    read_number insert_entry is_number_taken is_reversal_taken lines_check line_check posted_entry
    stored_lines
close-year_book = refl

abbrev sales_row : AccountBalanceRow
sales_row = record { account = sales; debit = pos 0; credit = pos 50000000; balance = pos 50000000 }

some-lines : (closing_loop exact (sales_row ∷ []) zero_money).0 ≢ []
unfolding closing_loop signed_line subtract multiply new_money half_up half_up_ℕ ◌-ℤ◌ ◌*ℤ◌
some-lines h = cc

retained-lines :
    with_retained_earnings exact
      (closing_loop exact (sales_row ∷ []) zero_money).0
      (closing_loop exact (sales_row ∷ []) zero_money).1
      year_book
    ≡ ok closing_lines
unfolding with_retained_earnings closing_loop signed_line subtract multiply new_money half_up
    half_up_ℕ ◌-ℤ◌ ◌*ℤ◌
retained-lines = refl

closing_lines-balanced_example : assert_balanced exact closing_lines ≡ ok tt
closing_lines-balanced_example =
    closing_lines-balanced exact (sales_row ∷ []) year_book closing_lines (omega arith) some-lines
      retained-lines

rows-fit :
    rows_size (
      profit_or_loss_rows exact
        (fiscal_year_start_date 2026 1)
        (fiscal_year_end_date 2026 1)
        year_book)
    < exact.limit
unfolding movements_between grouped_balances group_rows to_row counted_lines sum_debit sum_credit
    posted_entry stored_lines truncate_to_utc_day fiscal_year_start_date fiscal_year_end_date
    first_of_month last_of_month days_in_month ◌+ℤ◌
rows-fit = omega arith

other-retained :
    (r : Account) → find is_retained_earnings year_book.accounts ≡ some r → (r.id == 2) ≡ false
other-retained r h =
    let e : retained ≡ r = cc in subst (λ (x : Account). (x.id == 2) ≡ false) e refl

close-zeroed_example :
    sum_debit 2
      (year_lines (fiscal_year_start_date 2026 1) (fiscal_year_end_date 2026 1) closed_book)
    ≡ sum_credit 2
        (year_lines (fiscal_year_start_date 2026 1) (fiscal_year_end_date 2026 1) closed_book)
close-zeroed_example =
    close-zeroed exact 2026 5 2 year_book
      (record { fiscal_year_start_month = 1; segregation_of_duties_enabled = true }) sales refl
      (omega arith, omega arith) (omega arith) refl refl (inl refl) other-retained rows-fit
      close_env closed_book close-year_book

close-close_example :
    ((db'' : Db)
      → close exact close_env 2026 6 closed_book db''
        ≡ err (conflict "Fiscal year is already closed"))
    × ((p : PreparedPosting) (net : Money)
        → commit_close close_env 2026 6 p net closed_book
          ≡ err (conflict "Fiscal year is already closed"))
close-close_example =
    close-close exact close_env 2026 5 year_book year_book closed_book close-year_book close_env 6

commit-close_year_example : ¬ (commit (posting reverse_env prepared) closed_book ≡ ok year_book)
commit-close_year_example =
    commit-close_year exact close_env 2026 5 year_book year_book closed_book year_book
      (posting reverse_env prepared) close-year_book refl refl
