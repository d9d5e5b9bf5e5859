-- ===== src/Users/Course.antt =====
-- The administrators through any course of requests (src/users/, src/auth/auth.service.ts).
use accounting_api.Common.{
  ℕ, ◌≤◌, ◌≡◌, sym, subst, ap, Bool, true, false, ◌&&◌, not, List, [], ◌∷◌, ◌++◌, ◌==◌, find, count,
  count-append, count-update_first, update_first, Bool-cases, Option-cases, inl, inr, arith,
}
use accounting_api.Errors.{
  ok, err, or_throw, >>=-eq-ok, throw_if-eq-ok, ok-injective, not_found, unique_violation, conflict,
  record_not_found,
}
use accounting_api.DocRef.{Text}
use accounting_api.Store.{is_some}
use accounting_api.Journal.Guarded.{on_unique_violation-eq-ok}
use accounting_api.Users.{
  User, CreateUserInput, UpdateUser, Directory, user_by_id, user_by_email, is_active_admin,
  insert_user, create, update_user, update_in_tx, update, deactivates, with_password,
  reset_password, remove_in_tx, remove, change_password,
}
use accounting_api.Users.Admins.{update_first-none, update_in_tx-admins, remove_in_tx-admins}

abbrev pub HasAdmin : List User → Type 0
HasAdmin users = 1 ≤ count is_active_admin users

insert_user-HasAdmin :
    (u : User) (users users' : List User)
    → HasAdmin users
    → insert_user u users ≡ ok users'
    → HasAdmin users'
unfolding insert_user
insert_user-HasAdmin u users users' some_admin h =
    let (free, written) = throw_if-eq-ok _ (unique_violation "users") _ h in
    let total = count-append is_active_admin users (u ∷ []) in
    let kept : HasAdmin (users ++ (u ∷ [])) = omega (arith, some_admin, total) in
    subst HasAdmin (ok-injective written) kept

create-HasAdmin :
    (new_id : ℕ) (password_hash : Text) (input : CreateUserInput) (seen users users' : List User)
    → HasAdmin users
    → create new_id password_hash input seen users ≡ ok users'
    → HasAdmin users'
unfolding create
create-HasAdmin new_id password_hash input seen users users' some_admin h =
    let (free, h1) = throw_if-eq-ok (is_some (find (user_by_email input.email) seen)) _ _ h in
    insert_user-HasAdmin _ users users' some_admin
      (on_unique_violation-eq-ok (conflict "A user with this email already exists") _ h1)

-- A new password changes no administrator.
with_password-HasAdmin :
    (p : User → Bool) (password_hash : Text) (must_change : Bool) (users : List User)
    → HasAdmin users
    → HasAdmin (update_first p (with_password password_hash must_change) users)
with_password-HasAdmin p password_hash must_change users some_admin =
    let change = with_password password_hash must_change in
    elim (Option-cases (find p users)) [
      | inl absent ↦ subst HasAdmin (sym (update_first-none p change users absent)) some_admin
      | inr (a, found) ↦
          let moved = count-update_first is_active_admin p change a users found in
          omega (arith, some_admin, moved)
    ]

update_user-HasAdmin :
    (id : ℕ) (password_hash : Text) (must_change : Bool) (users users' : List User)
    → HasAdmin users
    → update_user id (with_password password_hash must_change) users ≡ ok users'
    → HasAdmin users'
unfolding update_user
update_user-HasAdmin id password_hash must_change users users' some_admin h =
    let change = with_password password_hash must_change in
    elim (Bool-cases (is_some (find (user_by_id id) users))) [
      | inl present ↦
          let written : ok (update_first (user_by_id id) change users) ≡ ok users' =
            rw present at h in
          subst HasAdmin (ok-injective written)
            (with_password-HasAdmin (user_by_id id) password_hash must_change users some_admin)
      | inr absent ↦ let wrong : err (record_not_found "users") ≡ ok users' = rw absent at h in cc
    ]

users_of : {dir dir' : Directory} → ok dir ≡ ok dir' → dir.users ≡ dir'.users
users_of h = ap (λ (d : Directory). d.users) (ok-injective h)

update-HasAdmin :
    (actor_id id : ℕ) (dto : UpdateUser) (dir dir' : Directory)
    → HasAdmin dir.users
    → update actor_id id dto dir ≡ ok dir'
    → HasAdmin dir'.users
unfolding update
update-HasAdmin actor_id id dto dir dir' some_admin h =
    let (own_role, h1) = throw_if-eq-ok (id == actor_id && is_some dto.role) _ _ h in
    let (own_state, h2) = throw_if-eq-ok (id == actor_id && deactivates dto) _ _ h1 in
    let (users, written, h3) = >>=-eq-ok (update_in_tx id dto dir.users) _ h2 in
    subst HasAdmin (users_of h3) (update_in_tx-admins id dto dir.users users some_admin written)

remove-HasAdmin :
    (actor_id id now : ℕ) (dir dir' : Directory)
    → HasAdmin dir.users
    → remove actor_id id now dir ≡ ok dir'
    → HasAdmin dir'.users
unfolding remove
remove-HasAdmin actor_id id now dir dir' some_admin h =
    let (other, h1) = throw_if-eq-ok (id == actor_id) _ _ h in
    let (users, written, h2) = >>=-eq-ok (remove_in_tx id now dir.users) _ h1 in
    subst HasAdmin (users_of h2) (remove_in_tx-admins id now dir.users users some_admin written)

reset_password-HasAdmin :
    (id : ℕ) (password_hash : Text) (dir dir' : Directory)
    → HasAdmin dir.users
    → reset_password id password_hash dir ≡ ok dir'
    → HasAdmin dir'.users
unfolding reset_password
reset_password-HasAdmin id password_hash dir dir' some_admin h =
    elim (Bool-cases (is_some (find (user_by_id id) dir.users))) [
      | inl present ↦
          subst HasAdmin (users_of (rw present at h))
            (with_password-HasAdmin (user_by_id id) password_hash true dir.users some_admin)
      | inr absent ↦ let wrong : err (not_found "User not found") ≡ ok dir' = rw absent at h in cc
    ]

module _ (verify : Text → Text → Bool) where
  change_password-HasAdmin :
      (user_id : ℕ) (current_password new_hash : Text) (seen : List User) (dir dir' : Directory)
      → HasAdmin dir.users
      → change_password verify user_id current_password new_hash seen dir ≡ ok dir'
      → HasAdmin dir'.users
  unfolding change_password
  change_password-HasAdmin user_id current_password new_hash seen dir dir' some_admin h =
      let (user, hu, h1) = >>=-eq-ok (or_throw (find (user_by_id user_id) seen) _) _ h in
      let (verified, h2) =
        throw_if-eq-ok (not (verify user.password_hash current_password)) _ _ h1 in
      let (users, written, h3) =
        >>=-eq-ok (update_user user_id (with_password new_hash false) dir.users) _ h2 in
      subst HasAdmin (users_of h3)
        (update_user-HasAdmin user_id new_hash false dir.users users some_admin written)

  -- The requests that lead from one directory to another, whatever was read before each;
  -- `softDelete` of UsersService has no caller. `elsewhere` is any request that leaves the table of
  -- users alone, such as a login.
  pub data Course : Directory → Directory → Type 0 where
    here : {dir : Directory} → Course dir dir
    by_create :
        {dir before : Directory}
        → Course dir before
        → (new_id : ℕ) (password_hash : Text) (input : CreateUserInput) (seen users : List User)
        → create new_id password_hash input seen before.users ≡ ok users
        → Course dir (record before { users = users })
    by_update :
        {dir before after : Directory}
        → Course dir before
        → (actor_id id : ℕ) (dto : UpdateUser) → update actor_id id dto before ≡ ok after
        → Course dir after
    by_remove :
        {dir before after : Directory}
        → Course dir before
        → (actor_id id now : ℕ) → remove actor_id id now before ≡ ok after
        → Course dir after
    by_reset :
        {dir before after : Directory}
        → Course dir before
        → (id : ℕ) (password_hash : Text) → reset_password id password_hash before ≡ ok after
        → Course dir after
    by_change :
        {dir before after : Directory}
        → Course dir before
        → (user_id : ℕ) (current_password new_hash : Text) (seen : List User)
        → change_password verify user_id current_password new_hash seen before ≡ ok after
        → Course dir after
    elsewhere :
        {dir before after : Directory}
        → Course dir before
        → after.users ≡ before.users
        → Course dir after

  -- If a directory has an active ADMIN that is not deleted, then so has every directory that any
  -- creations, updates and removals of users, and any resets and changes of passwords, lead to from it.
  pub Course-HasAdmin :
      {dir dir' : Directory} → Course dir dir' → HasAdmin dir.users → HasAdmin dir'.users
  Course-HasAdmin here a = a
  Course-HasAdmin (by_create {dir} {before} c new_id password_hash input seen users h) a =
      create-HasAdmin new_id password_hash input seen before.users users (Course-HasAdmin c a) h
  Course-HasAdmin (by_update {dir} {before} {after} c actor_id id dto h) a =
      update-HasAdmin actor_id id dto before after (Course-HasAdmin c a) h
  Course-HasAdmin (by_remove {dir} {before} {after} c actor_id id now h) a =
      remove-HasAdmin actor_id id now before after (Course-HasAdmin c a) h
  Course-HasAdmin (by_reset {dir} {before} {after} c id password_hash h) a =
      reset_password-HasAdmin id password_hash before after (Course-HasAdmin c a) h
  Course-HasAdmin (by_change {dir} {before} {after} c user_id current_password new_hash seen h) a =
      change_password-HasAdmin user_id current_password new_hash seen before after
        (Course-HasAdmin c a) h
  Course-HasAdmin (elsewhere c same) a = subst HasAdmin (sym same) (Course-HasAdmin c a)
