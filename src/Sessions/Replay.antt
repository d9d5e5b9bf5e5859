-- ===== src/Sessions/Replay.antt =====
-- A token that was used cannot be used again, and trying to ends its session.
use accounting_api.Common.{
  ℕ, ◌≡◌, ◌∙◌, sym, refl, ap, true, some, List, [], ◌∷◌, ◌++◌, ◌==◌, find, count, update_first,
  Bool-cases, Option-cases, inl, inr, find-holds, find-update_same, find-append_some,
}
use accounting_api.Errors.{Result, ok, err, >>=-eq-ok, Result-cases, unauthorized}
use accounting_api.Store.{Timestamp}
use accounting_api.Sessions.{
  RefreshToken, RefreshTokenStatus, active, consumed, revoked, Issued, has_jti, in_family, create,
  fresh_token, revoke_where, RotateResult, rotated, invalid, reuse, consume, rotate_row,
  rotate_in_tx, rotate_result, rotate, revoke_all_for_user, expires_at,
}
use accounting_api.Sessions.Families.{is_live, live_after_revoke, create-eq-ok}

abbrev pub refused : Result Issued
refused = err (unauthorized "Invalid refresh token")

-- The replay of a used token.
replay :
    (row : RefreshToken) (jti user_id new_jti ttl : ℕ) (now : Timestamp) (ts : List RefreshToken)
    → find (has_jti jti) ts ≡ some row
    → (row.user_id == user_id) ≡ true
    → row.status ≡ consumed
    → rotate jti user_id new_jti now ttl ts ≡ (refused, revoke_where (in_family row.family_id) ts)
unfolding rotate rotate_in_tx rotate_row rotate_result
replay row jti user_id new_jti ttl now ts found own used =
    rw (rotate, rotate_in_tx, found, own, used) refl

-- What a rotation that went through has found and done.
record Rotated (jti user_id new_jti ttl : ℕ) (now : Timestamp) (i : Issued)
    (ts ts' : List RefreshToken) : Type 0 where
  row : RefreshToken
  found : find (has_jti jti) ts ≡ some row
  own : (row.user_id == user_id) ≡ true
  same_family : i.family_id ≡ row.family_id
  after :
      ts'
      ≡ update_first (has_jti jti) (consume now new_jti) ts
        ++ (fresh_token new_jti user_id row.family_id (expires_at now ttl) ∷ [])

rotate_row-Rotated :
    (row : RefreshToken) (st : RefreshTokenStatus) (jti user_id new_jti ttl : ℕ) (now : Timestamp)
    (i : Issued) (ts ts' : List RefreshToken)
    → find (has_jti jti) ts ≡ some row
    → (row.user_id == user_id) ≡ true
    → rotate_row row st jti user_id new_jti now ttl ts ≡ ok (rotated i, ts')
    → Rotated jti user_id new_jti ttl now i ts ts'
unfolding rotate_row
rotate_row-Rotated row revoked jti user_id new_jti ttl now i ts ts' found own h = absurd (cc)
rotate_row-Rotated row consumed jti user_id new_jti ttl now i ts ts' found own h = absurd (cc)
rotate_row-Rotated row active jti user_id new_jti ttl now i ts ts' found own h =
    let us = update_first (has_jti jti) (consume now new_jti) ts in
    let t = fresh_token new_jti user_id row.family_id (expires_at now ttl) in
    let (ts1, h1, h2) = >>=-eq-ok (create t us) _ h in
    let same : ts1 ≡ ts' = cc in
    record {
      row = row;
      found = found;
      own = own;
      same_family = cc;
      after = sym same ∙ create-eq-ok t us ts1 h1;
    }

rotate_in_tx-Rotated :
    (jti user_id new_jti ttl : ℕ) (now : Timestamp) (i : Issued) (ts ts' : List RefreshToken)
    → rotate_in_tx jti user_id new_jti now ttl ts ≡ ok (rotated i, ts')
    → Rotated jti user_id new_jti ttl now i ts ts'
unfolding rotate_in_tx
rotate_in_tx-Rotated jti user_id new_jti ttl now i ts ts' h =
    elim (Option-cases (find (has_jti jti) ts)) [
      | inl e ↦ let h' = rw (e, rotate_in_tx) at h in absurd (cc)
      | inr (row, e) ↦ elim (Bool-cases (row.user_id == user_id)) [
        | inl own ↦
            rotate_row-Rotated row row.status jti user_id new_jti ttl now i ts ts' e own
              (rw (e, own, rotate_in_tx) at h)
        | inr other ↦ let h' = rw (e, other, rotate_in_tx) at h in absurd (cc)
      ]
    ]

rotate_result-eq-ok : (r : RotateResult) (i : Issued) → rotate_result r ≡ ok i → r ≡ rotated i
unfolding rotate_result
rotate_result-eq-ok (rotated j) i h = cc
rotate_result-eq-ok invalid i h = absurd (cc)
rotate_result-eq-ok reuse i h = absurd (cc)

rotate-Rotated :
    (jti user_id new_jti ttl : ℕ) (now : Timestamp) (i : Issued) (ts : List RefreshToken)
    → (rotate jti user_id new_jti now ttl ts).0 ≡ ok i
    → Rotated jti user_id new_jti ttl now i ts (rotate jti user_id new_jti now ttl ts).1
unfolding rotate
rotate-Rotated jti user_id new_jti ttl now i ts h =
    elim (Result-cases (rotate_in_tx jti user_id new_jti now ttl ts)) [
      | inl (p, e) ↦
          let same = rotate_result-eq-ok p.0 i (rw (e, rotate) at h) in
          rw (e, rotate)
            (rotate_in_tx-Rotated jti user_id new_jti ttl now i ts p.1
              (e ∙ ap (λ r. ok (r, p.1)) same))
      | inr (x, e) ↦ let h' = rw (e, rotate) at h in absurd (cc)
    ]

-- A token that was rotated with success is refused when it is used again, and this leaves no active
-- token in its session.
pub rotate-rotate :
    (jti user_id new_jti ttl : ℕ) (now : Timestamp) (i : Issued) (ts : List RefreshToken)
    (new_jti' ttl' : ℕ) (now' : Timestamp)
    → (rotate jti user_id new_jti now ttl ts).0 ≡ ok i
    → let ts' = (rotate jti user_id new_jti now ttl ts).1 in
      ((rotate jti user_id new_jti' now' ttl' ts').0 ≡ refused)
      × (count (is_live i.family_id) (rotate jti user_id new_jti' now' ttl' ts').1 ≡ 0)
rotate-rotate jti user_id new_jti ttl now i ts new_jti' ttl' now' h =
    let ts' = (rotate jti user_id new_jti now ttl ts).1 in
    let d = rotate-Rotated jti user_id new_jti ttl now i ts h in
    let row' = consume now new_jti d.row in
    let found : find (has_jti jti) ts' ≡ some row' = rw d.after (
      find-append_some (has_jti jti) row' _ _ (
        find-update_same (has_jti jti) (consume now new_jti) d.row ts d.found
          (find-holds (has_jti jti) d.row ts d.found))) in
    let again = replay row' jti user_id new_jti' ttl' now' ts' found d.own refl in
    rw (again, d.same_family) (refl, live_after_revoke d.row.family_id ts')

found_revoked :
    (user_id jti : ℕ) (t : RefreshToken) (ts : List RefreshToken)
    → find (has_jti jti) (revoke_where (λ t. t.user_id == user_id) ts) ≡ some t
    → (t.user_id == user_id) ≡ true
    → t.status ≡ revoked
unfolding revoke_where
found_revoked user_id jti t [] h own = cc
found_revoked user_id jti t (u ∷ ts) h own = elim (Bool-cases (u.id == jti)) [
  | inl here ↦ elim (Bool-cases (u.user_id == user_id)) [
    | inl mine ↦
        let e : some (record u { status = revoked }) ≡ some t = rw (mine, here) at h in
        let same : record u { status = revoked } ≡ t = cc in rw (← same) refl
    | inr other ↦
        let e : some u ≡ some t = rw (other, here) at h in
        let same : u ≡ t = cc in absurd (cc (ap (λ x. x.user_id == user_id) same))
  ]
  | inr there ↦ elim (Bool-cases (u.user_id == user_id)) [
    | inl mine ↦ found_revoked user_id jti t ts (rw (mine, there) at h) own
    | inr other ↦ found_revoked user_id jti t ts (rw (other, there) at h) own
  ]
]

-- After a user has logged out of all devices, none of the tokens there were works for the user, and
-- trying one changes nothing.
pub rotate-revoke_all_for_user :
    (jti user_id new_jti ttl : ℕ) (now : Timestamp) (ts : List RefreshToken)
    → let ts' = revoke_all_for_user user_id ts in
      rotate jti user_id new_jti now ttl ts' ≡ (refused, ts')
unfolding rotate rotate_in_tx rotate_row rotate_result revoke_all_for_user
rotate-revoke_all_for_user jti user_id new_jti ttl now ts =
    let ts' = revoke_all_for_user user_id ts in
    elim (Option-cases (find (has_jti jti) ts')) [
      | inl e ↦ rw (rotate, rotate_in_tx, e) refl
      | inr (row, e) ↦ elim (Bool-cases (row.user_id == user_id)) [
        | inl own ↦ rw (rotate, rotate_in_tx, e, own, found_revoked user_id jti row ts e own) refl
        | inr other ↦ rw (rotate, rotate_in_tx, e, other) refl
      ]
    ]
