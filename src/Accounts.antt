-- ===== src/Accounts.antt =====
-- The chart of accounts (src/ledger/accounts/accounts.service.ts, chart-of-accounts.seed.ts). `seen` is
-- what the checks read before the write. The columns that no operation reads are left out.
pub mod Seed
pub mod Chart
pub mod Changes
use accounting_api.Common.{
  ℕ, suc, ◌+◌, Bool, true, false, ◌&&◌, ◌||◌, not, Option, none, some, List, [], ◌∷◌, ◌++◌, ◌==◌,
  find, filter, or_else, update_first, length, if◌then◌else◌,
}
use accounting_api.Errors.{
  Result, ok, err, ◌>>=◌, ◌>>◌, throw_if, or_throw, validation_failed, not_found, conflict,
  record_not_found, unique_violation,
}
use accounting_api.DocRef.{Text, same_text, tombstone_value}
use accounting_api.Store.{
  Db, Account, AccountType, asset, liability, equity, revenue, expense, AccountSubtype,
  current_asset, non_current_asset, fixed_asset, accumulated_depreciation, current_liability,
  non_current_liability, equity_subtype, revenue_subtype, cogs, operating_expense, other_income,
  other_expense, tax_payable, tax_receivable, CashFlowCategory, no_cash_flow, AccountRole, cash,
  NormalBalance, JournalEntry, JournalLine, JournalStatus, draft, posted, reversed, Timestamp,
  is_none, is_some,
}
use accounting_api.Posting.{account_by_id}
use accounting_api.Journal.{on_unique_violation}
use accounting_api.Invoicing.{role_code, has_role}

pub record CreateAccountInput : Type 0 where
  pub code : Text
  pub name : Text
  pub account_type : AccountType
  pub subtype : AccountSubtype
  pub normal_balance : NormalBalance
  pub cash_flow_category : Option CashFlowCategory
  pub role : Option AccountRole
  pub is_postable : Option Bool
  pub parent_code : Option Text

abbrev pub SeedAccount : Type 0
SeedAccount = CreateAccountInput

-- `TYPE_SUBTYPES`.
abbrev pub type_subtypes : AccountType → List AccountSubtype
type_subtypes asset =
    current_asset ∷ non_current_asset ∷ fixed_asset ∷ accumulated_depreciation ∷ tax_receivable ∷ []
type_subtypes liability = current_liability ∷ non_current_liability ∷ tax_payable ∷ []
type_subtypes equity = equity_subtype ∷ []
type_subtypes revenue = revenue_subtype ∷ other_income ∷ []
type_subtypes expense = cogs ∷ operating_expense ∷ other_expense ∷ []

-- The enum's value, for `includes`.
abbrev pub subtype_code : AccountSubtype → ℕ
subtype_code current_asset = 0
subtype_code non_current_asset = 1
subtype_code fixed_asset = 2
subtype_code accumulated_depreciation = 3
subtype_code current_liability = 4
subtype_code non_current_liability = 5
subtype_code equity_subtype = 6
subtype_code revenue_subtype = 7
subtype_code cogs = 8
subtype_code operating_expense = 9
subtype_code other_income = 10
subtype_code other_expense = 11
subtype_code tax_payable = 12
subtype_code tax_receivable = 13

unfoldable pub is_coherent : AccountType → AccountSubtype → Bool
is_coherent account_type subtype = is_some (
    find (λ (s : AccountSubtype). subtype_code s == subtype_code subtype)
      (type_subtypes account_type))

abbrev pub account_by_code : Text → Account → Bool
account_by_code code a = same_text a.code code && is_none a.deleted_at

unfoldable pub find_by_id : ℕ → Db → Result Account
find_by_id id db = or_throw (find (account_by_id id) db.accounts) (not_found "Account not found")

-- The unique index on the roles other than CASH, deleted rows included.
abbrev pub is_singleton : AccountRole → Bool
is_singleton role = not (role_code role == role_code cash)

abbrev pub holds_role : AccountRole → Account → Bool
holds_role role a = elim a.role [ none ↦ false | some r ↦ role_code r == role_code role ]

unfoldable pub is_role_taken : Option AccountRole → List Account → Bool
is_role_taken none accounts = false
is_role_taken (some role) accounts = is_singleton role && is_some (find (holds_role role) accounts)

unfoldable pub is_role_assigned : Option AccountRole → Db → Bool
is_role_assigned none db = false
is_role_assigned (some role) db = is_singleton role && is_some (find (has_role role) db.accounts)

unfoldable pub parent_of : Option Text → Db → Result (Option ℕ)
parent_of none db = ok none
parent_of (some []) db = ok none
parent_of (some (c ∷ cs)) db = do
  let code = c ∷ cs
  parent ←
      or_throw (find (account_by_code code) db.accounts)
        (validation_failed "Parent account not found")
  throw_if parent.is_postable (validation_failed "Parent account must be a non-postable header")
  ok (some parent.id)

abbrev pub new_account : ℕ → CreateAccountInput → Option ℕ → Account
new_account new_id input parent_id = record {
  id = new_id;
  code = input.code;
  name = input.name;
  account_type = input.account_type;
  subtype = input.subtype;
  cash_flow_category = or_else input.cash_flow_category no_cash_flow;
  role = input.role;
  parent_id = parent_id;
  normal_balance = input.normal_balance;
  is_postable = or_else input.is_postable true;
  is_active = true;
  deleted_at = none;
}

-- `account.create` under the two unique indexes, on the code and on the singleton roles.
unfoldable pub insert_account : Account → Db → Result Db
unfolding is_role_taken
insert_account a db = do
  throw_if
      (is_some (find (λ (b : Account). same_text b.code a.code) db.accounts)
        || is_role_taken a.role db.accounts)
      (unique_violation "accounts")
  ok (record db { accounts = db.accounts ++ (a ∷ []) })

unfoldable pub create : ℕ → CreateAccountInput → Db → Db → Result Db
unfolding is_coherent is_role_assigned parent_of insert_account on_unique_violation
create new_id input seen db = do
  throw_if (not (is_coherent input.account_type input.subtype))
      (validation_failed "Subtype is not valid for account type")
  throw_if (is_some (find (account_by_code input.code) seen.accounts))
      (conflict "Account code already exists")
  throw_if (is_role_assigned input.role seen) (conflict "That account role is already assigned")
  parent_id ← parent_of input.parent_code seen
  on_unique_violation (conflict "Account code already exists")
      (insert_account (new_account new_id input parent_id) db)

-- `account.update` of a row that is not deleted.
unfoldable pub update_account : ℕ → (Account → Account) → Db → Result Db
update_account id change db =
    if is_some (find (account_by_id id) db.accounts)
    then ok (record db { accounts = update_first (account_by_id id) change db.accounts })
    else err (record_not_found "accounts")

abbrev pub renamed : Option Text → Option CashFlowCategory → Option Bool → Account → Account
renamed name category is_active a = record a {
  name = or_else name a.name;
  cash_flow_category = or_else category a.cash_flow_category;
  is_active = or_else is_active a.is_active;
}

unfoldable pub update :
    ℕ → Option Text → Option CashFlowCategory → Option Bool → Db → Db → Result Db
unfolding find_by_id update_account
update id name category is_active seen db = do
  current ← find_by_id id seen
  update_account id (renamed name category is_active) db

abbrev pub deactivated : Account → Account
deactivated a = record a { is_active = false }

unfoldable pub deactivate : ℕ → Db → Db → Result Db
unfolding find_by_id update_account
deactivate id seen db = do current ← find_by_id id seen; update_account id deactivated db

-- The lines of posted and reversed entries on an account.
abbrev pub is_effective : JournalStatus → Bool
is_effective draft = false
is_effective posted = true
is_effective reversed = true

unfoldable pub posted_line_count : ℕ → List JournalEntry → ℕ
posted_line_count id [] = 0
posted_line_count id (e ∷ es) =
    let rest = posted_line_count id es in
    if is_effective e.status
    then length (filter (λ (l : JournalLine). l.account_id == id) e.lines) + rest
    else rest

abbrev pub deleted : ℕ → Text → Timestamp → Account → Account
deleted id code now a = record a { code = tombstone_value code id; deleted_at = some now }

-- `deletedBy` is left out.
unfoldable pub soft_delete : ℕ → Timestamp → Db → Db → Result Db
unfolding find_by_id posted_line_count update_account
soft_delete id now seen db = do
  account ← find_by_id id seen
  throw_if (not (posted_line_count id seen.journal_entries == 0))
      (validation_failed "Cannot delete an account with posted lines; deactivate instead")
  update_account id (deleted id account.code now) db
