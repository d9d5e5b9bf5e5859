-- ===== src/Tests/Users.antt =====
-- Two administrators: one demotes the other, and nobody removes the last.
use accounting_api.Common.{ℕ, ◌≡◌, refl, true, false, none, some, [], ◌∷◌, arith}
use accounting_api.Errors.{ok, err, validation_failed, unauthorized}
use accounting_api.DocRef.{Text, codes, same_text}
use accounting_api.Sessions.{revoke_all_for_user, revoke_where}
use accounting_api.Users.{
  Role, admin, viewer, User, UpdateUser, Directory, leaves_admin_pool, check_other_admins,
  update_in_tx, update, remove_in_tx, remove, login, find_by_email_with_hash,
}
use accounting_api.Users.Course.{HasAdmin, here, by_update, Course-HasAdmin}

abbrev user : ℕ → Text → Role → User
user id email role = record {
  id = id;
  email = email;
  password_hash = codes "hash";
  name = email;
  role = role;
  is_active = true;
  must_change_password = false;
  deleted_at = none;
}

abbrev two_admins : Directory
two_admins = record {
  users = user 1 (codes "a@x") admin ∷ user 2 (codes "b@x") admin ∷ [];
  tokens = [];
}

abbrev one_admin : Directory
one_admin = record {
  users = user 1 (codes "a@x") admin ∷ user 2 (codes "b@x") viewer ∷ [];
  tokens = [];
}

abbrev demotion : UpdateUser
demotion = record { name = none; role = some viewer; is_active = none }

demoted : update 1 2 demotion two_admins ≡ ok one_admin
unfolding update update_in_tx leaves_admin_pool check_other_admins revoke_all_for_user revoke_where
demoted = refl

last_stays :
    update 2 1 demotion one_admin ≡ err (validation_failed "Cannot remove the last active ADMIN")
unfolding update update_in_tx leaves_admin_pool check_other_admins
last_stays = refl

last_not_removed :
    remove 2 1 9 one_admin ≡ err (validation_failed "Cannot remove the last active ADMIN")
unfolding remove remove_in_tx check_other_admins
last_not_removed = refl

absent_login :
    login same_text (codes "c@x") (codes "hash") 7 8 0 10 one_admin
    ≡ err (unauthorized "Invalid credentials")
unfolding login find_by_email_with_hash same_text
absent_login = refl

Course-HasAdmin_example : HasAdmin one_admin.users
Course-HasAdmin_example =
    Course-HasAdmin same_text (by_update here 1 2 demotion demoted) (omega arith)
