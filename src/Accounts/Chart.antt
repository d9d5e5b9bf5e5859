-- ===== src/Accounts/Chart.antt =====
-- What every change of the chart of accounts keeps (accounts.service.ts).
use accounting_api.Common.{
  ℕ, ◌≤◌, ◌≡◌, subst, ap, Bool, true, false, not, ◌&&◌, ◌||◌, Option, none, some, List, [], ◌∷◌,
  ◌++◌, ◌==◌, ==_iff, find, count, count-append, count-update_first, count_of_find-none, All,
  All-append, All-update_first, update_first, Option-cases, Bool-cases, inl, inr, arith,
}
use accounting_api.Errors.{
  ok, err, throw_if-eq-ok, ok-injective, unique_violation, record_not_found,
}
use accounting_api.Store.{Db, Account, AccountRole, cash, is_some}
use accounting_api.Invoicing.{role_code}
use accounting_api.Posting.{account_by_id}
use accounting_api.Accounts.{
  is_coherent, is_singleton, holds_role, is_role_taken, insert_account, update_account,
}

abbrev pub IsCoherent : Account → Type 0
IsCoherent a = is_coherent a.account_type a.subtype ≡ true

-- Every account's subtype is one of its type, and no two rows hold one singleton role.
pub record IsChart (accounts : List Account) : Type 0 where
  pub coherent : All IsCoherent accounts
  pub role_once : (r : AccountRole) → is_singleton r ≡ true → count (holds_role r) accounts ≤ 1

holds_code : ℕ → Account → Bool
holds_code n a = elim a.role [ none ↦ false | some q ↦ role_code q == n ]

-- A free role is held by no row.
free_role :
    (r : AccountRole) (role : Option AccountRole) (accounts : List Account)
    → is_singleton r ≡ true
    → elim role [ none ↦ false | some q ↦ role_code q == role_code r ] ≡ true
    → is_role_taken role accounts ≡ false
    → count (holds_role r) accounts ≡ 0
unfolding is_role_taken holds_code
free_role r none accounts single holds free = cc
free_role r (some q) accounts single holds free =
    let e : role_code q ≡ role_code r = (==_iff (role_code q) (role_code r)).0 holds in
    let f : (is_singleton r && is_some (find (holds_role r) accounts)) ≡ false =
      subst
        (λ (n : ℕ). (not (n == role_code cash) && is_some (find (holds_code n) accounts)) ≡ false) e
        free in
    let g : is_some (find (holds_role r) accounts) ≡ false = rw single at f in
    elim (Option-cases (find (holds_role r) accounts)) [
      | inl absent ↦ count_of_find-none (holds_role r) accounts absent
      | inr (b, present) ↦ let wrong : true ≡ false = rw present at g in cc
    ]

or_false : (a b : Bool) → (a || b) ≡ false → b ≡ false
or_false true b h = cc
or_false false b h = h

role_once-append :
    (r : AccountRole) (a : Account) (accounts : List Account)
    → count (holds_role r) accounts ≤ 1
    → (holds_role r a ≡ true → count (holds_role r) accounts ≡ 0)
    → count (holds_role r) (accounts ++ (a ∷ [])) ≤ 1
role_once-append r a accounts before free =
    let total = count-append (holds_role r) accounts (a ∷ []) in
    elim (Bool-cases (holds_role r a)) [
      | inl holds ↦ rw (total, free holds, holds) (omega arith)
      | inr other ↦ rw (total, other) (omega (arith, before))
    ]

pub insert_account-IsChart :
    (a : Account) (db db' : Db)
    → IsCoherent a
    → IsChart db.accounts
    → insert_account a db ≡ ok db'
    → IsChart db'.accounts
unfolding insert_account
insert_account-IsChart a db db' coherent c h =
    let (free, written) = throw_if-eq-ok _ (unique_violation "accounts") _ h in
    let role_free : is_role_taken a.role db.accounts ≡ false = or_false _ _ free in
    let after : db.accounts ++ (a ∷ []) ≡ db'.accounts =
      ap (λ (d : Db). d.accounts) (ok-injective written) in
    subst IsChart after (record {
      coherent = All-append IsCoherent db.accounts (a ∷ []) c.coherent (coherent, tt);
      role_once = λ r single.
          role_once-append r a db.accounts (c.role_once r single)
            (λ holds. free_role r a.role db.accounts single holds role_free);
    })

-- An update that leaves types and roles alone.
pub update_account-IsChart :
    (id : ℕ) (change : Account → Account) (db db' : Db)
    → ((a : Account) → (IsCoherent a → IsCoherent (change a)) × ((change a).role ≡ a.role))
    → IsChart db.accounts
    → update_account id change db ≡ ok db'
    → IsChart db'.accounts
unfolding update_account
update_account-IsChart id change db db' keeps c h =
    let p = account_by_id id in
    elim (Option-cases (find p db.accounts)) [
      | inl absent ↦ let wrong : err (record_not_found "accounts") ≡ ok db' = rw absent at h in cc
      | inr (a, found) ↦
          let written : ok (record db { accounts = update_first p change db.accounts }) ≡ ok db' =
            rw found at h in
          subst (λ (d : Db). IsChart d.accounts) (ok-injective written)
            (record {
              coherent =
                  All-update_first IsCoherent p change db.accounts (λ x found. (keeps x).0)
                    c.coherent;
              role_once = λ r single.
                  let moved = count-update_first (holds_role r) p change a db.accounts found in
                  let same : holds_role r (change a) ≡ holds_role r a =
                    ap (λ role. elim role [ none ↦ false | some q ↦ role_code q == role_code r ])
                      (keeps a).1 in
                  let before = c.role_once r single in
                  let moved' = rw same at moved in omega (arith, before, moved');
            })
    ]
