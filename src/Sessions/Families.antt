-- ===== src/Sessions/Families.antt =====
-- One live token for each session.
use accounting_api.Common.{
  ℕ, ◌≤◌, ◌≡◌, refl, Bool, ◌&&◌, not, none, some, List, [], ◌∷◌, ◌++◌, ◌==◌, ltb, find, filter,
  count, count-append, count-update_first, update_first, Bool-cases, Option-cases, inl, inr, arith,
  ==_iff,
}
use accounting_api.Errors.{ok, >>=-eq-ok, Result-cases}
use accounting_api.Store.{Timestamp}
use accounting_api.Sessions.{
  RefreshToken, RefreshTokenStatus, active, consumed, revoked, Issued, is_active, has_jti,
  in_family, create, fresh_token, issue, revoke_where, RotateResult, consume, rotate_row,
  rotate_in_tx, rotate, revoke_family_by_jti, revoke_all_for_user, purge_expired, expires_at,
}

abbrev pub is_live : ℕ → RefreshToken → Bool
is_live family_id t = in_family family_id t && is_active t.status

-- A course of requests. The family id of a new session is in no row: `randomUUID` does not repeat.
pub data Reachable : List RefreshToken → Type 0 where
  start : Reachable []
  issued :
      {tokens tokens' : List RefreshToken}
      → Reachable tokens
      → (user_id jti family_id ttl : ℕ) (now : Timestamp) (i : Issued)
      → find (in_family family_id) tokens ≡ none
      → issue user_id jti family_id now ttl tokens ≡ ok (i, tokens')
      → Reachable tokens'
  rotation :
      {tokens : List RefreshToken}
      → Reachable tokens
      → (jti user_id new_jti ttl : ℕ) (now : Timestamp)
      → Reachable (rotate jti user_id new_jti now ttl tokens).1
  family_revoked :
      {tokens : List RefreshToken}
      → Reachable tokens
      → (jti : ℕ) → Reachable (revoke_family_by_jti jti tokens)
  user_revoked :
      {tokens : List RefreshToken}
      → Reachable tokens
      → (user_id : ℕ) → Reachable (revoke_all_for_user user_id tokens)
  purged :
      {tokens : List RefreshToken}
      → Reachable tokens
      → (now : Timestamp) → Reachable (purge_expired now tokens).1

count-filter :
    (q p : RefreshToken → Bool) (ts : List RefreshToken) → count q (filter p ts) ≤ count q ts
count-filter q p [] = omega arith
count-filter q p (t ∷ ts) = ground (arith, count-filter q p ts)

count-revoke_where :
    (f : ℕ) (p : RefreshToken → Bool) (ts : List RefreshToken)
    → count (is_live f) (revoke_where p ts) ≤ count (is_live f) ts
unfolding revoke_where
count-revoke_where f p [] = omega arith
count-revoke_where f p (t ∷ ts) = ground (arith, count-revoke_where f p ts)

-- A family that is revoked has no live token.
pub live_after_revoke :
    (f : ℕ) (ts : List RefreshToken) → count (is_live f) (revoke_where (in_family f) ts) ≡ 0
unfolding revoke_where
live_after_revoke f [] = refl
live_after_revoke f (t ∷ ts) = ground (arith, live_after_revoke f ts)

no_family-count :
    (f : ℕ) (ts : List RefreshToken) → find (in_family f) ts ≡ none → count (is_live f) ts ≡ 0
no_family-count f [] h = refl
no_family-count f (t ∷ ts) h = ground (arith, no_family-count f ts)

pub create-eq-ok :
    (t : RefreshToken) (ts ts' : List RefreshToken) → create t ts ≡ ok ts' → ts' ≡ ts ++ (t ∷ [])
unfolding create
create-eq-ok t ts ts' h = elim (Option-cases (find (has_jti t.id) ts)) [
  | inl e ↦ let h' = rw (e, create) at h in cc
  | inr (o, e) ↦ let h' = rw (e, create) at h in cc
]

-- The branches of a rotation keep the number of live tokens from growing.
rotate_row-live :
    (f : ℕ) (row : RefreshToken) (st : RefreshTokenStatus) (jti user_id new_jti ttl : ℕ)
    (now : Timestamp) (ts ts' : List RefreshToken) (r : RotateResult)
    → row.status ≡ st
    → find (has_jti jti) ts ≡ some row
    → rotate_row row st jti user_id new_jti now ttl ts ≡ ok (r, ts')
    → count (is_live f) ts' ≤ count (is_live f) ts
unfolding rotate_row
rotate_row-live f row revoked jti user_id new_jti ttl now ts ts' r e found h =
    let same : ts ≡ ts' = cc in rw (← same) (omega arith)
rotate_row-live f row consumed jti user_id new_jti ttl now ts ts' r e found h =
    let same : revoke_where (in_family row.family_id) ts ≡ ts' = cc in
    rw (← same) (count-revoke_where f (in_family row.family_id) ts)
rotate_row-live f row active jti user_id new_jti ttl now ts ts' r e found h =
    let us = update_first (has_jti jti) (consume now new_jti) ts in
    let t = fresh_token new_jti user_id row.family_id (expires_at now ttl) in
    let (ts1, h1, h2) = >>=-eq-ok (create t us) _ h in
    let same : ts1 ≡ ts' = cc in
    let c = count-update_first (is_live f) (has_jti jti) (consume now new_jti) row ts found in
    rw (← same, create-eq-ok t us ts1 h1) (ground (arith, count-append (is_live f) us (t ∷ []), c))

rotate_in_tx-live :
    (f jti user_id new_jti ttl : ℕ) (now : Timestamp) (ts ts' : List RefreshToken)
    (r : RotateResult)
    → rotate_in_tx jti user_id new_jti now ttl ts ≡ ok (r, ts')
    → count (is_live f) ts' ≤ count (is_live f) ts
unfolding rotate_in_tx
rotate_in_tx-live f jti user_id new_jti ttl now ts ts' r h =
    elim (Option-cases (find (has_jti jti) ts)) [
      | inl e ↦
          let h' = rw (e, rotate_in_tx) at h in
          let same : ts ≡ ts' = cc in rw (← same) (omega arith)
      | inr (row, e) ↦ elim (Bool-cases (row.user_id == user_id)) [
        | inl own ↦
            rotate_row-live f row row.status jti user_id new_jti ttl now ts ts' r refl e
              (rw (e, own, rotate_in_tx) at h)
        | inr other ↦
            let h' = rw (e, other, rotate_in_tx) at h in
            let same : ts ≡ ts' = cc in rw (← same) (omega arith)
      ]
    ]

rotate-live :
    (f jti user_id new_jti ttl : ℕ) (now : Timestamp) (ts : List RefreshToken)
    → count (is_live f) (rotate jti user_id new_jti now ttl ts).1 ≤ count (is_live f) ts
unfolding rotate
rotate-live f jti user_id new_jti ttl now ts =
    elim (Result-cases (rotate_in_tx jti user_id new_jti now ttl ts)) [
      | inl (p, e) ↦ rw (e, rotate) (rotate_in_tx-live f jti user_id new_jti ttl now ts p.1 p.0 e)
      | inr (x, e) ↦ rw (e, rotate) (omega arith)
    ]

issue-live :
    (f user_id jti family_id ttl : ℕ) (now : Timestamp) (i : Issued) (ts ts' : List RefreshToken)
    → find (in_family family_id) ts ≡ none
    → count (is_live f) ts ≤ 1
    → issue user_id jti family_id now ttl ts ≡ ok (i, ts')
    → count (is_live f) ts' ≤ 1
unfolding issue
issue-live f user_id jti family_id ttl now i ts ts' new le h =
    let t = fresh_token jti user_id family_id (expires_at now ttl) in
    let (ts1, h1, h2) = >>=-eq-ok (create t ts) _ h in
    let same : ts1 ≡ ts' = cc in
    rw (← same, create-eq-ok t ts ts1 h1)
      (elim (Bool-cases (family_id == f)) [
        | inl e ↦ ground (
          arith,
          count-append (is_live f) ts (t ∷ []),
          (==_iff family_id f).0 e,
          no_family-count f ts,
          new,
        )
        | inr e ↦ ground (arith, count-append (is_live f) ts (t ∷ []))
      ])

-- From an empty table, after any course of requests in which the family id of each new session is
-- in no row, a session has at most one active token.
pub Reachable-one_live :
    (tokens : List RefreshToken) → Reachable tokens → (f : ℕ) → count (is_live f) tokens ≤ 1
unfolding revoke_family_by_jti revoke_all_for_user purge_expired
Reachable-one_live _ start f = omega arith
Reachable-one_live _ (issued {tokens} {tokens'} before user_id jti family_id ttl now i new h) f =
    issue-live f user_id jti family_id ttl now i tokens tokens' new
      (Reachable-one_live tokens before f) h
Reachable-one_live _ (rotation {tokens} before jti user_id new_jti ttl now) f =
    omega
      (arith, rotate-live f jti user_id new_jti ttl now tokens, Reachable-one_live tokens before f)
Reachable-one_live _ (family_revoked {tokens} before jti) f =
    elim (Option-cases (find (has_jti jti) tokens)) [
      | inl e ↦ rw (e, revoke_family_by_jti) (Reachable-one_live tokens before f)
      | inr (row, e) ↦
          rw (e, revoke_family_by_jti)
            (omega (
              arith,
              count-revoke_where f (in_family row.family_id) tokens,
              Reachable-one_live tokens before f,
            ))
    ]
Reachable-one_live _ (user_revoked {tokens} before user_id) f = omega (
  arith,
  count-revoke_where f (λ t. t.user_id == user_id) tokens,
  Reachable-one_live tokens before f,
)
Reachable-one_live _ (purged {tokens} before now) f = omega (
  arith,
  count-filter (is_live f) (λ t. not (ltb t.expires_at now)) tokens,
  Reachable-one_live tokens before f,
)
