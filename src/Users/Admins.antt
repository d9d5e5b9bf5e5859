-- ===== src/Users/Admins.antt =====
-- The last administrator stays (src/users/user-admin.service.ts).
use accounting_api.Common.{
  ℕ, ◌≤◌, ◌≡◌, refl, sym, subst, ap, ◌∙◌, Bool, true, false, ◌&&◌, ◌||◌, not, Option, none, some,
  List, [], ◌∷◌, ◌==◌, find, count, count-update_first, update_first, or_else, Bool-cases,
  Option-cases, inl, inr, arith, find-holds,
}
use accounting_api.Errors.{ok, or_throw, >>=-eq-ok, throw_if-eq-ok, or_throw-eq-ok, ok-injective}
use accounting_api.Store.{is_none}
use accounting_api.Users.{
  Role, admin, User, UpdateUser, is_admin_role, has_user_id, user_by_id, is_active_admin,
  is_other_admin, leaves_admin_pool, edited, check_other_admins, update_in_tx, removed,
  remove_in_tx,
}

-- A row that a narrower search also accepts is what that search finds.
find-narrow :
    {A : Type 0} (p q : A → Bool) (a : A) (xs : List A)
    → find p xs ≡ some a
    → q a ≡ true
    → find (λ x. p x && q x) xs ≡ some a
find-narrow p q a [] h k = cc
find-narrow p q a (x ∷ xs) h k = elim (Bool-cases (p x)) [
  | inl t ↦
      let same : some x ≡ some a = rw t at h in
      let accepted : q x ≡ true = subst (λ y. q y ≡ true) (sym (cc)) k in rw (t, accepted) same
  | inr f ↦ let later : find p xs ≡ some a = rw f at h in rw f (find-narrow p q a xs later k)
]

pub update_first-none :
    {A : Type 0} (p : A → Bool) (f : A → A) (xs : List A)
    → find p xs ≡ none
    → update_first p f xs ≡ xs
update_first-none p f [] h = refl
update_first-none p f (x ∷ xs) h = ground (arith, update_first-none p f xs)

same_user : (id : ℕ) (u : User) → (u.id == id) ≡ true → is_other_admin id u ≡ false
same_user id u h = elim (Bool-cases (is_active_admin u)) [
  | inl t ↦ rw (t, h) refl
  | inr f ↦ rw f refl
]

-- An update of the row with an id leaves the count of the administrators with other ids.
others-update :
    (id : ℕ) (change : User → User) (users : List User)
    → ((u : User) → (change u).id ≡ u.id)
    → count (is_other_admin id) (update_first (has_user_id id) change users)
      ≡ count (is_other_admin id) users
others-update id change users same_id = elim (Option-cases (find (has_user_id id) users)) [
  | inl absent ↦
      ap (count (is_other_admin id)) (update_first-none (has_user_id id) change users absent)
  | inr (a, found) ↦
      let h = find-holds (has_user_id id) a users found in
      let before = same_user id a h in
      let after =
        same_user id (change a) (subst (λ (n : ℕ). (n == id) ≡ true) (sym (same_id a)) h) in
      let moved = count-update_first (is_other_admin id) (has_user_id id) change a users found in
      let moved' = rw (before, after) at moved in omega (arith, moved')
]

others-below :
    (id : ℕ) (users : List User) → count (is_other_admin id) users ≤ count is_active_admin users
others-below id [] = omega arith
others-below id (u ∷ users) =
    let rest = others-below id users in
    elim (Bool-cases (is_active_admin u)) [
      | inl t ↦ elim (Bool-cases (u.id == id)) [
        | inl same ↦ rw (t, same) (omega (arith, rest))
        | inr other ↦ rw (t, other) (omega (arith, rest))
      ]
      | inr f ↦ rw f (omega (arith, rest))
    ]

nonzero : (n : ℕ) → (n == 0) ≡ false → 1 ≤ n
nonzero n h = ground arith

and_last : (a b c : Bool) → (a && (b && c)) ≡ true → c ≡ true
and_last true true c h = h
and_last true false c h = cc
and_last false b c h = cc

some-injective : {A : Type 0} {a b : A} → some a ≡ some b → a ≡ b
some-injective h = cc

not_both : {P : Type 0} (a b c : Bool) → (a && b) ≡ false → (a && (b && c)) ≡ true → P
not_both true true c h k = cc
not_both true false c h k = cc
not_both false b c h k = cc

-- A write that leaves the pool as it is.
stays_kept :
    (id : ℕ) (change : User → User) (target : User) (users : List User)
    → find (user_by_id id) users ≡ some target
    → (is_active_admin target ≡ true → is_active_admin (change target) ≡ true)
    → count is_active_admin users
      ≤ count is_active_admin (update_first (has_user_id id) change users)
stays_kept id change target users found stays = elim (Option-cases (find (has_user_id id) users)) [
  | inl absent ↦ rw (update_first-none (has_user_id id) change users absent) (omega arith)
  | inr (a, present) ↦
      let moved = count-update_first is_active_admin (has_user_id id) change a users present in
      elim (Bool-cases (is_active_admin a)) [
        | inl t ↦
            let live = and_last (is_admin_role a.role) a.is_active (is_none a.deleted_at) t in
            let narrow =
              find-narrow (has_user_id id) (λ (u : User). is_none u.deleted_at) a users present
                live in
            let same : target ≡ a = some-injective (sym found ∙ narrow) in
            let still : is_active_admin (change a) ≡ true =
              subst (λ u. is_active_admin u ≡ true → is_active_admin (change u) ≡ true) same stays
                t in
            let moved' = rw (t, still) at moved in omega (arith, moved')
        | inr f ↦ let moved' = rw f at moved in omega (arith, moved')
      ]
]

-- A write to the row with an id, under the guard of the pool, leaves an administrator.
pool_kept :
    (id : ℕ) (change : User → User) (leaves : Bool) (target : User) (users : List User)
    → ((u : User) → (change u).id ≡ u.id)
    → find (user_by_id id) users ≡ some target
    → (leaves ≡ false → is_active_admin target ≡ true → is_active_admin (change target) ≡ true)
    → (leaves && (count (is_other_admin id) users == 0)) ≡ false
    → 1 ≤ count is_active_admin users
    → 1 ≤ count is_active_admin (update_first (has_user_id id) change users)
pool_kept id change false target users same_id found stays guard some_admin =
    let kept = stays_kept id change target users found (stays refl) in
    omega (arith, kept, some_admin)
pool_kept id change true target users same_id found stays guard some_admin =
    let others = nonzero (count (is_other_admin id) users) guard in
    let same = others-update id change users same_id in
    let below = others-below id (update_first (has_user_id id) change users) in
    omega (arith, others, same, below)

fields_stay :
    (role : Option Role) (active : Option Bool) (r : Role) (a d : Bool)
    → (is_admin_role r
        && (a
            && (elim role [ none ↦ false | some q ↦ not (is_admin_role q) ]
                || not (or_else active true))))
      ≡ false
    → (is_admin_role r && (a && d)) ≡ true
    → (is_admin_role (or_else role r) && (or_else active a && d)) ≡ true
fields_stay none none r a d h k = k
fields_stay none (some true) admin true d h k = k
fields_stay none (some false) admin true d h k = cc
fields_stay (some admin) none admin true d h k = k
fields_stay (some admin) (some true) admin true d h k = k
fields_stay (some admin) (some false) admin true d h k = cc
fields_stay (some q) active admin true d h k = cc
fields_stay role active r a d h k = cc

-- The fields that an update leaves to an administrator outside the guard.
edited-stays :
    (dto : UpdateUser) (u : User)
    → leaves_admin_pool dto u ≡ false
    → is_active_admin u ≡ true
    → is_active_admin (edited dto u) ≡ true
unfolding leaves_admin_pool
edited-stays dto u kept is_admin =
    fields_stay dto.role dto.is_active u.role u.is_active (is_none u.deleted_at) kept is_admin

pub update_in_tx-admins :
    (id : ℕ) (dto : UpdateUser) (users users' : List User)
    → 1 ≤ count is_active_admin users
    → update_in_tx id dto users ≡ ok users'
    → 1 ≤ count is_active_admin users'
unfolding update_in_tx check_other_admins
update_in_tx-admins id dto users users' some_admin h =
    let (target, ht, h1) = >>=-eq-ok (or_throw (find (user_by_id id) users) _) _ h in
    let (guard, h2) =
      throw_if-eq-ok (leaves_admin_pool dto target && (count (is_other_admin id) users == 0)) _ _
        h1 in
    subst (λ us. 1 ≤ count is_active_admin us) (ok-injective h2)
      (pool_kept id (edited dto) (leaves_admin_pool dto target) target users (λ u. refl)
        (or_throw-eq-ok _ _ ht) (edited-stays dto target) guard some_admin)

pub remove_in_tx-admins :
    (id now : ℕ) (users users' : List User)
    → 1 ≤ count is_active_admin users
    → remove_in_tx id now users ≡ ok users'
    → 1 ≤ count is_active_admin users'
unfolding remove_in_tx check_other_admins
remove_in_tx-admins id now users users' some_admin h =
    let (target, ht, h1) = >>=-eq-ok (or_throw (find (user_by_id id) users) _) _ h in
    let leaves = is_admin_role target.role && target.is_active in
    let (guard, h2) = throw_if-eq-ok (leaves && (count (is_other_admin id) users == 0)) _ _ h1 in
    subst (λ us. 1 ≤ count is_active_admin us) (ok-injective h2)
      (pool_kept id (removed target.email id now) leaves target users (λ u. refl)
        (or_throw-eq-ok _ _ ht)
        (λ no_admin is_admin.
          not_both (is_admin_role target.role) target.is_active (is_none target.deleted_at) no_admin
            is_admin)
        guard some_admin)
