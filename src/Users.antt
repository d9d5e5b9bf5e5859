-- ===== src/Users.antt =====
-- Users, their administration and the sign-in (src/users/users.service.ts, user-admin.service.ts and
-- src/auth/auth.service.ts). A hash of argon2 is an argument, since it is salted, and `verify` is its
-- check. `seen` is what the checks read before the write.
pub mod Admins
pub mod Course
use accounting_api.Common.{
  ℕ, Bool, true, false, ◌&&◌, ◌||◌, not, Option, none, some, List, [], ◌∷◌, ◌++◌, ◌==◌, find, count,
  or_else, update_first, if◌then◌else◌,
}
use accounting_api.Errors.{
  Result, ok, err, ◌>>=◌, ◌>>◌, throw_if, or_throw, validation_failed, not_found, conflict,
  unauthorized, record_not_found, unique_violation,
}
use accounting_api.DocRef.{Text, same_text, tombstone_value}
use accounting_api.Store.{Timestamp, is_none, is_some}
use accounting_api.Journal.{on_unique_violation}
use accounting_api.Sessions.{
  RefreshToken, Issued, issue, rotate, revoke_family_by_jti, revoke_all_for_user,
}

pub data Role : Type 0 where
  admin accountant approver viewer : Role

pub record User : Type 0 where
  pub id : ℕ
  pub email : Text
  pub password_hash : Text
  pub name : Text
  pub role : Role
  pub is_active : Bool
  pub must_change_password : Bool
  pub deleted_at : Option Timestamp

pub record CreateUserInput : Type 0 where
  pub email : Text
  pub name : Text
  pub role : Role
  pub must_change_password : Option Bool

pub record UpdateUser : Type 0 where
  pub name : Option Text
  pub role : Option Role
  pub is_active : Option Bool

-- The tables `users` and `refresh_tokens`.
pub record Directory : Type 0 where
  pub users : List User
  pub tokens : List RefreshToken

abbrev pub is_admin_role : Role → Bool
is_admin_role admin = true
is_admin_role accountant = false
is_admin_role approver = false
is_admin_role viewer = false

abbrev pub has_user_id : ℕ → User → Bool
has_user_id id u = u.id == id

abbrev pub user_by_id : ℕ → User → Bool
user_by_id id u = u.id == id && is_none u.deleted_at

abbrev pub user_by_email : Text → User → Bool
user_by_email email u = same_text u.email email && is_none u.deleted_at

unfoldable pub find_by_email_with_hash : Text → List User → Option User
find_by_email_with_hash email users = find (user_by_email email) users

-- `user.create` under the unique index on the email.
unfoldable pub insert_user : User → List User → Result (List User)
insert_user u users = do
  throw_if (is_some (find (λ (v : User). same_text v.email u.email) users))
      (unique_violation "users")
  ok (users ++ (u ∷ []))

unfoldable pub create : ℕ → Text → CreateUserInput → List User → List User → Result (List User)
unfolding insert_user on_unique_violation
create new_id password_hash input seen users = do
  throw_if (is_some (find (user_by_email input.email) seen))
      (conflict "A user with this email already exists")
  on_unique_violation (conflict "A user with this email already exists") (
      insert_user
        (record {
          id = new_id;
          email = input.email;
          password_hash = password_hash;
          name = input.name;
          role = input.role;
          is_active = true;
          must_change_password = or_else input.must_change_password false;
          deleted_at = none;
        })
        users)

-- `user.update` of a row that is not deleted, outside a transaction.
unfoldable pub update_user : ℕ → (User → User) → List User → Result (List User)
update_user id change users =
    if is_some (find (user_by_id id) users)
    then ok (update_first (user_by_id id) change users)
    else err (record_not_found "users")

abbrev pub removed : Text → ℕ → Timestamp → User → User
removed email id now u = record u { email = tombstone_value email id; deleted_at = some now }

-- `softDelete` of UsersService, which nothing calls. `deletedBy` is left out.
unfoldable pub soft_delete : ℕ → Timestamp → List User → List User → Result (List User)
unfolding update_user
soft_delete id now seen users = do
  user ← or_throw (find (user_by_id id) seen) (not_found "User not found")
  update_user id (removed user.email id now) users

-- An active administrator that is not deleted, and one with another id.
abbrev pub is_active_admin : User → Bool
is_active_admin u = is_admin_role u.role && (u.is_active && is_none u.deleted_at)

abbrev pub is_other_admin : ℕ → User → Bool
is_other_admin id u = is_active_admin u && not (u.id == id)

-- `dto.role !== undefined && dto.role !== 'ADMIN'`, and `dto.isActive === false`.
abbrev pub demotes : UpdateUser → Bool
demotes dto = elim dto.role [ none ↦ false | some role ↦ not (is_admin_role role) ]

abbrev pub deactivates : UpdateUser → Bool
deactivates dto = not (or_else dto.is_active true)

unfoldable pub leaves_admin_pool : UpdateUser → User → Bool
leaves_admin_pool dto u = is_admin_role u.role && (u.is_active && (demotes dto || deactivates dto))

abbrev pub edited : UpdateUser → User → User
edited dto u = record u {
  name = or_else dto.name u.name;
  role = or_else dto.role u.role;
  is_active = or_else dto.is_active u.is_active;
}

-- The guard of both transactions.
unfoldable pub check_other_admins : Bool → ℕ → List User → Result (Unit {0})
check_other_admins leaves id users =
    throw_if (leaves && (count (is_other_admin id) users == 0))
      (validation_failed "Cannot remove the last active ADMIN")

-- The transaction of `update`, under the lock of the administrators.
unfoldable pub update_in_tx : ℕ → UpdateUser → List User → Result (List User)
unfolding leaves_admin_pool check_other_admins
update_in_tx id dto users = do
  target ← or_throw (find (user_by_id id) users) (not_found "User not found")
  check_other_admins (leaves_admin_pool dto target) id users
  ok (update_first (has_user_id id) (edited dto) users)

unfoldable pub update : ℕ → ℕ → UpdateUser → Directory → Result Directory
unfolding update_in_tx
update actor_id id dto dir = do
  throw_if (id == actor_id && is_some dto.role)
      (validation_failed "You cannot change your own role")
  throw_if (id == actor_id && deactivates dto) (validation_failed "You cannot deactivate yourself")
  users ← update_in_tx id dto dir.users
  ok (record {
    users = users;
    tokens =
        if is_some dto.role || is_some dto.is_active
        then revoke_all_for_user id dir.tokens
        else dir.tokens;
  })

abbrev pub with_password : Text → Bool → User → User
with_password password_hash must_change u = record u {
  password_hash = password_hash;
  must_change_password = must_change;
}

unfoldable pub reset_password : ℕ → Text → Directory → Result Directory
reset_password id password_hash dir =
    if is_some (find (user_by_id id) dir.users)
    then ok (record {
      users = update_first (user_by_id id) (with_password password_hash true) dir.users;
      tokens = revoke_all_for_user id dir.tokens;
    })
    else err (not_found "User not found")

-- The transaction of `remove`, under the same lock. `deletedBy` is left out.
unfoldable pub remove_in_tx : ℕ → Timestamp → List User → Result (List User)
unfolding check_other_admins
remove_in_tx id now users = do
  target ← or_throw (find (user_by_id id) users) (not_found "User not found")
  check_other_admins (is_admin_role target.role && target.is_active) id users
  ok (update_first (has_user_id id) (removed target.email id now) users)

unfoldable pub remove : ℕ → ℕ → Timestamp → Directory → Result Directory
unfolding remove_in_tx
remove actor_id id now dir = do
  throw_if (id == actor_id) (validation_failed "You cannot delete yourself")
  users ← remove_in_tx id now dir.users
  ok (record { users = users; tokens = revoke_all_for_user id dir.tokens })

module _ (verify : Text → Text → Bool) where
  -- The decoy hash of an absent user never matches.
  unfoldable pub verify_password_or_decoy : Option User → Text → Bool
  verify_password_or_decoy none password = false
  verify_password_or_decoy (some user) password = verify user.password_hash password

  -- `changePassword` of both services.
  unfoldable pub change_password : ℕ → Text → Text → List User → Directory → Result Directory
  unfolding update_user
  change_password user_id current_password new_hash seen dir = do
    user ← or_throw (find (user_by_id user_id) seen) (unauthorized "Current password is incorrect")
    throw_if (not (verify user.password_hash current_password))
        (unauthorized "Current password is incorrect")
    users ← update_user user_id (with_password new_hash false) dir.users
    ok (record { users = users; tokens = revoke_all_for_user user_id dir.tokens })

  -- `login` without the signing of the two tokens.
  unfoldable pub login :
      Text → Text → ℕ → ℕ → Timestamp → ℕ → Directory → Result (Issued × Directory)
  unfolding find_by_email_with_hash verify_password_or_decoy
  login email password jti family_id now ttl dir = do
    let found = find_by_email_with_hash email dir.users
    user ← or_throw found (unauthorized "Invalid credentials")
    throw_if (not user.is_active || not (verify_password_or_decoy found password))
        (unauthorized "Invalid credentials")
    done ← issue user.id jti family_id now ttl dir.tokens
    ok (done.0, record dir { tokens = done.1 })

-- What a refresh token that `jwt.verifyAsync` accepts holds.
pub record RefreshJwtPayload : Type 0 where
  pub sub : ℕ
  pub jti : ℕ

abbrev refresh_for : Option User → ℕ → ℕ → Timestamp → ℕ → Directory → Result Issued × Directory
refresh_for none jti new_jti now ttl dir = (err (unauthorized "Invalid refresh token"), dir)
refresh_for (some user) jti new_jti now ttl dir =
    let done = rotate jti user.id new_jti now ttl dir.tokens in
    if user.is_active
    then (done.0, record dir { tokens = done.1 })
    else (err (unauthorized "Invalid refresh token"), dir)

-- `refresh` without the signing. The first part is what the caller sees; a rotation that ends in an
-- error may have changed the tokens all the same.
unfoldable pub refresh :
    Option RefreshJwtPayload → ℕ → Timestamp → ℕ → Directory → Result Issued × Directory
refresh none new_jti now ttl dir = (err (unauthorized "Invalid refresh token"), dir)
refresh (some payload) new_jti now ttl dir =
    refresh_for (find (user_by_id payload.sub) dir.users) payload.jti new_jti now ttl dir

unfoldable pub logout : Option RefreshJwtPayload → Directory → Directory
logout none dir = dir
logout (some payload) dir = record dir { tokens = revoke_family_by_jti payload.jti dir.tokens }

unfoldable pub logout_all : ℕ → Directory → Directory
logout_all user_id dir = record dir { tokens = revoke_all_for_user user_id dir.tokens }
