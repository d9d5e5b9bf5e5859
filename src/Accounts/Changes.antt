-- ===== src/Accounts/Changes.antt =====
-- The chart of accounts through any course of changes, the first seed included (accounts.service.ts).
use accounting_api.Common.{
  ℕ, suc, ◌≡◌, refl, subst, sym, Bool, true, false, not, ◌&&◌, Option, List, [], ◌∷◌, ◌==◌, find,
  All, Bool-cases, inl, inr, arith, not-false,
}
use accounting_api.Errors.{Result, ok, err, >>=-eq-ok, throw_if-eq-ok, ok-injective, conflict}
use accounting_api.DocRef.{Text}
use accounting_api.Store.{Db, Account, CashFlowCategory, Timestamp, is_none, is_some}
use accounting_api.Journal.Guarded.{on_unique_violation-eq-ok}
use accounting_api.Accounts.{
  SeedAccount, CreateAccountInput, is_coherent, is_role_assigned, parent_of, new_account,
  insert_account, create, find_by_id, renamed, update, deactivated, deactivate, deleted,
  posted_line_count, soft_delete, account_by_code,
}
use accounting_api.Accounts.Seed.{
  IdByCode, seed_parent, seed_rows, chart_of_accounts, ordered, is_unique_violation, lost_race,
  seed_if_empty,
}
use accounting_api.Accounts.Chart.{IsChart, insert_account-IsChart, update_account-IsChart}

create-IsChart :
    (new_id : ℕ) (input : CreateAccountInput) (seen db db' : Db)
    → IsChart db.accounts
    → create new_id input seen db ≡ ok db'
    → IsChart db'.accounts
unfolding create
create-IsChart new_id input seen db db' c h =
    let (coherent, h1) =
      throw_if-eq-ok (not (is_coherent input.account_type input.subtype)) _ _ h in
    let (new_code, h2) =
      throw_if-eq-ok (is_some (find (account_by_code input.code) seen.accounts)) _ _ h1 in
    let (new_role, h3) = throw_if-eq-ok (is_role_assigned input.role seen) _ _ h2 in
    let (parent_id, hp, h4) = >>=-eq-ok (parent_of input.parent_code seen) _ h3 in
    insert_account-IsChart (new_account new_id input parent_id) db db' (not-false _ coherent) c
      (on_unique_violation-eq-ok (conflict "Account code already exists") _ h4)

update-IsChart :
    (id : ℕ) (name : Option Text) (category : Option CashFlowCategory) (is_active : Option Bool)
    (seen db db' : Db)
    → IsChart db.accounts
    → update id name category is_active seen db ≡ ok db'
    → IsChart db'.accounts
unfolding update
update-IsChart id name category is_active seen db db' c h =
    let (current, hc, h1) = >>=-eq-ok (find_by_id id seen) _ h in
    update_account-IsChart id (renamed name category is_active) db db' (λ a. (λ k. k, refl)) c h1

deactivate-IsChart :
    (id : ℕ) (seen db db' : Db)
    → IsChart db.accounts
    → deactivate id seen db ≡ ok db'
    → IsChart db'.accounts
unfolding deactivate
deactivate-IsChart id seen db db' c h =
    let (current, hc, h1) = >>=-eq-ok (find_by_id id seen) _ h in
    update_account-IsChart id deactivated db db' (λ a. (λ k. k, refl)) c h1

soft_delete-IsChart :
    (id : ℕ) (now : Timestamp) (seen db db' : Db)
    → IsChart db.accounts
    → soft_delete id now seen db ≡ ok db'
    → IsChart db'.accounts
unfolding soft_delete
soft_delete-IsChart id now seen db db' c h =
    let (account, ha, h1) = >>=-eq-ok (find_by_id id seen) _ h in
    let (unused, h2) =
      throw_if-eq-ok (not (posted_line_count id seen.journal_entries == 0)) _ _ h1 in
    update_account-IsChart id (deleted id account.code now) db db' (λ a. (λ k. k, refl)) c h2

abbrev IsSeedCoherent : SeedAccount → Type 0
IsSeedCoherent a = is_coherent a.account_type a.subtype ≡ true

seed_rows-IsChart :
    (new_id : ℕ) (chart : List SeedAccount) (ids : IdByCode) (db db' : Db)
    → All IsSeedCoherent chart
    → IsChart db.accounts
    → seed_rows new_id chart ids db ≡ ok db'
    → IsChart db'.accounts
unfolding seed_rows
seed_rows-IsChart new_id [] ids db db' coherent c h =
    subst (λ (d : Db). IsChart d.accounts) (ok-injective h) c
seed_rows-IsChart new_id (a ∷ rest) ids db db' coherent c h =
    let (parent_id, hp, h1) = >>=-eq-ok (seed_parent a.parent_code ids) _ h in
    let (next, hn, h2) = >>=-eq-ok (insert_account (new_account new_id a parent_id) db) _ h1 in
    seed_rows-IsChart (suc new_id) rest ((a.code, new_id) ∷ ids) next db' coherent.1
      (insert_account-IsChart (new_account new_id a parent_id) db next coherent.0 c hn) h2

all_coherent : List SeedAccount → Bool
all_coherent [] = true
all_coherent (a ∷ rest) =
    let others = all_coherent rest in is_coherent a.account_type a.subtype && others

all_coherent-All : (chart : List SeedAccount) → all_coherent chart ≡ true → All IsSeedCoherent chart
unfolding all_coherent
all_coherent-All [] h = tt
all_coherent-All (a ∷ rest) h = elim (Bool-cases (is_coherent a.account_type a.subtype)) [
  | inl coherent ↦
      let others : all_coherent rest ≡ true = rw coherent at h in
      (coherent, all_coherent-All rest others)
  | inr incoherent ↦ let wrong : false ≡ true = rw incoherent at h in cc
]

chart_of_accounts-coherent : All IsSeedCoherent (ordered chart_of_accounts)
unfolding is_coherent all_coherent
chart_of_accounts-coherent = all_coherent-All (ordered chart_of_accounts) refl

lost_race-IsChart :
    (db db' : Db) (seeded : Result Db)
    → IsChart db.accounts
    → ((next : Db) → seeded ≡ ok next → IsChart next.accounts)
    → lost_race db seeded ≡ ok db'
    → IsChart db'.accounts
unfolding lost_race
lost_race-IsChart db db' (ok next) c keeps h = keeps db' h
lost_race-IsChart db db' (err e) c keeps h = elim (Bool-cases (is_unique_violation e)) [
  | inl lost ↦
      let kept : ok db ≡ ok db' = rw lost at h in
      subst (λ (d : Db). IsChart d.accounts) (ok-injective kept) c
  | inr other ↦ let wrong : err e ≡ ok db' = rw other at h in cc
]

seed_if_empty-IsChart :
    (new_id : ℕ) (seen db db' : Db)
    → IsChart db.accounts
    → seed_if_empty new_id seen db ≡ ok db'
    → IsChart db'.accounts
unfolding seed_if_empty
seed_if_empty-IsChart new_id seen db db' c h =
    elim (Bool-cases (is_some (find (λ (a : Account). is_none a.deleted_at) seen.accounts))) [
      | inl some_account ↦
          let kept : ok db ≡ ok db' = rw some_account at h in
          subst (λ (d : Db). IsChart d.accounts) (ok-injective kept) c
      | inr no_account ↦
          lost_race-IsChart db db' (seed_rows new_id (ordered chart_of_accounts) [] db) c
            (λ next.
              seed_rows-IsChart new_id (ordered chart_of_accounts) [] db next
                chart_of_accounts-coherent c)
            (rw no_account at h)
    ]

-- One change of the chart, whatever was read before it.
pub data Change : Db → Db → Type 0 where
  by_seed :
      {db db' : Db} (seen : Db) (new_id : ℕ) → seed_if_empty new_id seen db ≡ ok db' → Change db db'
  by_create :
      {db db' : Db} (seen : Db) (new_id : ℕ) (input : CreateAccountInput)
      → create new_id input seen db ≡ ok db'
      → Change db db'
  by_update :
      {db db' : Db} (seen : Db) (id : ℕ) (name : Option Text) (category : Option CashFlowCategory)
      (is_active : Option Bool)
      → update id name category is_active seen db ≡ ok db'
      → Change db db'
  by_deactivate :
      {db db' : Db} (seen : Db) (id : ℕ) → deactivate id seen db ≡ ok db' → Change db db'
  by_soft_delete :
      {db db' : Db} (seen : Db) (id now : ℕ) → soft_delete id now seen db ≡ ok db' → Change db db'

-- The databases that changes of the chart lead to from one without accounts. `elsewhere` is any other
-- request, which leaves the table alone.
pub data Reached : Db → Type 0 where
  start : {db : Db} → db.accounts ≡ [] → Reached db
  step : {db db' : Db} → Reached db → Change db db' → Reached db'
  elsewhere : {db db' : Db} → Reached db → db'.accounts ≡ db.accounts → Reached db'

Change-IsChart : {db db' : Db} → Change db db' → IsChart db.accounts → IsChart db'.accounts
Change-IsChart (by_seed {db} {db'} seen new_id h) c = seed_if_empty-IsChart new_id seen db db' c h
Change-IsChart (by_create {db} {db'} seen new_id input h) c =
    create-IsChart new_id input seen db db' c h
Change-IsChart (by_update {db} {db'} seen id name category is_active h) c =
    update-IsChart id name category is_active seen db db' c h
Change-IsChart (by_deactivate {db} {db'} seen id h) c = deactivate-IsChart id seen db db' c h
Change-IsChart (by_soft_delete {db} {db'} seen id now h) c =
    soft_delete-IsChart id now seen db db' c h

-- In every database reached from one without accounts, by any seeds, creations, updates, deactivations
-- and deletions with any reads before them, every account's subtype belongs to its type and no two
-- rows hold the same role other than CASH.
pub Reached-IsChart : {db : Db} → Reached db → IsChart db.accounts
Reached-IsChart (start none_yet) =
    subst IsChart (sym none_yet) (record { coherent = tt; role_once = λ r single. omega arith })
Reached-IsChart (step before change) = Change-IsChart change (Reached-IsChart before)
Reached-IsChart (elsewhere before same) = subst IsChart (sym same) (Reached-IsChart before)
