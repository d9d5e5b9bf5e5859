-- ===== src/Tests/Accounts.antt =====
-- The chart of accounts: the seed of an empty ledger, and a role held twice.
use accounting_api.Common.{ℕ, ◌≡◌, refl, none, some, [], length}
use accounting_api.Errors.{Result, ok, err, conflict}
use accounting_api.DocRef.{codes, same_text, tombstone_value, to_text, digits_onto}
use accounting_api.Store.{Db, asset, current_asset, ar_control, debit_normal}
use accounting_api.Journal.{on_unique_violation}
use accounting_api.Accounts.{
  CreateAccountInput, is_coherent, is_role_assigned, is_role_taken, parent_of, insert_account,
  create, find_by_id, update_account, posted_line_count, soft_delete,
}
use accounting_api.Accounts.Seed.{
  ordered, chart_of_accounts, seed_parent, seed_rows, lost_race, seed_if_empty,
}
use accounting_api.Accounts.Chart.{IsChart}
use accounting_api.Accounts.Changes.{start, step, by_seed, by_soft_delete, Reached-IsChart}
use accounting_api.Tests.{empty_book}

abbrev no_accounts : Db
no_accounts = record empty_book { accounts = [] }

database : Result Db → Db
database (ok db) = db
database (err e) = no_accounts

seeded : Db
unfolding database seed_if_empty seed_rows seed_parent lost_race insert_account is_role_taken
    same_text
seeded = database (seed_if_empty 100 no_accounts no_accounts)

-- The whole chart is seeded.
seeds : length seeded.accounts ≡ length (ordered chart_of_accounts)
unfolding seeded
seeds = refl

-- A second account for the receivables' control.
abbrev second_control : CreateAccountInput
second_control = record {
  code = codes "1-1250";
  name = codes "Receivables B";
  account_type = asset;
  subtype = current_asset;
  normal_balance = debit_normal;
  cash_flow_category = none;
  role = some ar_control;
  is_postable = none;
  parent_code = some (codes "1-0000");
}

second_holder :
    create 200 second_control seeded seeded ≡ err (conflict "That account role is already assigned")
unfolding seeded create is_coherent is_role_assigned same_text
second_holder = refl

-- A deleted account keeps its role in the unique index, and the new holder's code gets the blame.
abbrev control_id : ℕ
control_id = 107

without_control : Db
unfolding database seeded soft_delete find_by_id posted_line_count update_account
without_control = database (soft_delete control_id 5 seeded seeded)

role_of_deleted :
    create 200 second_control without_control without_control
    ≡ err (conflict "Account code already exists")
unfolding without_control seeded create is_coherent is_role_assigned is_role_taken same_text
    parent_of insert_account on_unique_violation tombstone_value to_text digits_onto
role_of_deleted = refl

seeded_first : seed_if_empty 100 no_accounts no_accounts ≡ ok seeded
unfolding seeded
seeded_first = refl

control_deleted : soft_delete control_id 5 seeded seeded ≡ ok without_control
unfolding without_control
control_deleted = refl

Reached-IsChart_example : IsChart without_control.accounts
Reached-IsChart_example = Reached-IsChart (
    step (step (start refl) (by_seed no_accounts 100 seeded_first))
      (by_soft_delete seeded control_id 5 control_deleted))
