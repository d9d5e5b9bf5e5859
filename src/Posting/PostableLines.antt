-- ===== src/Posting/PostableLines.antt =====
-- Which accounts `assertPostableAccounts` accepts (src/ledger/posting/posting.service.ts).
use accounting_api.Common.{
  ℕ, ◌≡◌, ◌↔◌, inl, inr, refl, ◌==◌, ==_iff, List, [], ◌∷◌, find, map, All, Bool-cases,
  Option-cases,
}
use accounting_api.Errors.{ok, err, >>=-eq-ok, invalid_account}
use accounting_api.Store.{Db, Account}
use accounting_api.Posting.{
  PostLineInput, account_by_id, without, unique_ids, check_account, check_accounts,
  resolve_postable_accounts, assert_postable_accounts,
}
use accounting_api.Posting.Rules.{IsPostable}

without-All :
    (P : ℕ → Type 0) (a : ℕ) (bs : List ℕ)
    → P a
    → (All P (without a bs) → All P bs) × (All P bs → All P (without a bs))
unfolding without
without-All P a [] h = (λ x. tt, λ x. tt)
without-All P a (b ∷ bs) h =
    let rest = without-All P a bs h in
    elim (Bool-cases (b == a)) [
      | inl t ↦
          let same : b ≡ a = (==_iff b a).0 t in rw t (λ x. (rw same h, rest.0 x), λ x. rest.1 x.1)
      | inr f ↦ rw f (λ x. (x.0, rest.0 x.1), λ x. (x.0, rest.1 x.1))
    ]

unique_ids-All :
    (P : ℕ → Type 0) (ids : List ℕ)
    → (All P (unique_ids ids) → All P ids) × (All P ids → All P (unique_ids ids))
unfolding unique_ids
unique_ids-All P [] = (λ h. tt, λ h. tt)
unique_ids-All P (a ∷ ids) =
    let rest = unique_ids-All P ids in
    (
      λ h. (h.0, rest.0 ((without-All P a (unique_ids ids) h.0).0 h.1)),
      λ h. (h.0, (without-All P a (unique_ids ids) h.0).1 (rest.1 h.1)),
    )

check_account-IsPostable :
    (db : Db) (id : ℕ)
    → ((a : Account) → check_account db id ≡ ok a → IsPostable db id)
      × (IsPostable db id → (a : Account) × (check_account db id ≡ ok a))
unfolding check_account
check_account-IsPostable db id = (
  λ a h. elim (Option-cases (find (account_by_id id) db.accounts)) [
    | inl missing ↦
        let e : err (invalid_account "Account not found") ≡ ok a =
          rw (missing, check_account) at h in
        cc
    | inr (b, found) ↦ elim (Bool-cases b.is_postable) [
      | inr header ↦
          let e : err (invalid_account "Account is not postable (header account)") ≡ ok a =
            rw (check_account, found, header) at h in
          cc
      | inl postable ↦ elim (Bool-cases b.is_active) [
        | inr inactive ↦
            let e : err (invalid_account "Account is inactive") ≡ ok a =
              rw (check_account, found, postable, inactive) at h in
            cc
        | inl active ↦ (b, found, postable, active)
      ]
    ]
  ],
  λ h. (h.0, rw (check_account, h.1, h.2, h.3) refl),
)

check_accounts-All :
    (db : Db) (ids : List ℕ)
    → ((found_accounts : List Account)
        → check_accounts db ids ≡ ok found_accounts
        → All (IsPostable db) ids)
      × (All (IsPostable db) ids
          → (found_accounts : List Account) × (check_accounts db ids ≡ ok found_accounts))
unfolding check_accounts
check_accounts-All db [] = (λ found_accounts h. tt, λ h. ([], refl))
check_accounts-All db (id ∷ ids) =
    let rest = check_accounts-All db ids in
    let here = check_account-IsPostable db id in
    (
      λ found_accounts h.
          let (a, ha, h1) = >>=-eq-ok (check_account db id) _ h in
          let (bs, hb, h2) = >>=-eq-ok (check_accounts db ids) _ h1 in (here.0 a ha, rest.0 bs hb),
      λ h. let (a, ha) = here.1 h.0 in let (bs, hb) = rest.1 h.1 in (a ∷ bs, rw (ha, hb) refl),
    )

All-ids :
    (db : Db) (lines : List PostLineInput)
    → (All (IsPostable db) (map (λ l. l.account_id) lines)
        → All (λ l. IsPostable db l.account_id) lines)
      × (All (λ l. IsPostable db l.account_id) lines
          → All (IsPostable db) (map (λ l. l.account_id) lines))
All-ids db [] = (λ h. tt, λ h. tt)
All-ids db (l ∷ lines) =
    let rest = All-ids db lines in (λ h. (h.0, rest.0 h.1), λ h. (h.0, rest.1 h.1))

pub accounts_iff :
    (db : Db) (lines : List PostLineInput)
    → (assert_postable_accounts lines db ≡ ok tt) ↔ All (λ l. IsPostable db l.account_id) lines
unfolding assert_postable_accounts resolve_postable_accounts
accounts_iff db lines =
    let ids = map (λ (l : PostLineInput). l.account_id) lines in
    let checked = check_accounts-All db (unique_ids ids) in
    let unique = unique_ids-All (IsPostable db) ids in
    let on_lines = All-ids db lines in
    (
      λ h.
          let (found_accounts, ha, h1) = >>=-eq-ok (check_accounts db (unique_ids ids)) _ h in
          on_lines.0 (unique.0 (checked.0 found_accounts ha)),
      λ h. let (found_accounts, ha) = checked.1 (unique.1 (on_lines.1 h)) in rw ha refl,
    )
