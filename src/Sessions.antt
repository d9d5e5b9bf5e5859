-- ===== src/Sessions.antt =====
-- Refresh tokens (src/auth/refresh-token.service.ts): a session is a family of tokens, each of which
-- is used once for its successor. `randomUUID` and the clock are arguments. A transaction that
-- reports a failure as a value is still committed, so `rotate` returns the table beside its result.
pub mod Families
pub mod Replay
use accounting_api.Common.{
  ℕ, ◌+◌, Bool, true, false, ◌&&◌, ◌||◌, not, Option, none, some, List, [], ◌∷◌, ◌++◌, ◌==◌, ltb,
  map, find, filter, length, update_first, if◌then◌else◌,
}
use accounting_api.Errors.{Result, ok, err, ◌>>=◌, unauthorized, unique_violation}
use accounting_api.Store.{Timestamp}

pub data RefreshTokenStatus : Type 0 where
  active consumed revoked : RefreshTokenStatus

pub record RefreshToken : Type 0 where
  pub id : ℕ
  pub user_id : ℕ
  pub family_id : ℕ
  pub status : RefreshTokenStatus
  pub expires_at : Timestamp
  pub consumed_at : Option Timestamp
  pub replaced_by_id : Option ℕ

-- `{ jti, familyId }`.
pub record Issued : Type 0 where
  pub jti : ℕ
  pub family_id : ℕ

abbrev pub is_active : RefreshTokenStatus → Bool
is_active active = true
is_active _ = false

abbrev pub has_jti : ℕ → RefreshToken → Bool
has_jti jti t = t.id == jti

abbrev pub in_family : ℕ → RefreshToken → Bool
in_family family_id t = t.family_id == family_id

-- `refreshToken.create`; the primary key is unique.
unfoldable pub create : RefreshToken → List RefreshToken → Result (List RefreshToken)
create t tokens = elim (find (has_jti t.id) tokens) [
  | none ↦ ok (tokens ++ (t ∷ []))
  | some other ↦ err (unique_violation "refresh_tokens.id")
]

abbrev pub fresh_token : ℕ → ℕ → ℕ → Timestamp → RefreshToken
fresh_token jti user_id family_id expires_at = record {
  id = jti;
  user_id = user_id;
  family_id = family_id;
  status = active;
  expires_at = expires_at;
  consumed_at = none;
  replaced_by_id = none;
}

-- `now + ms(ttl)`.
abbrev pub expires_at : Timestamp → ℕ → Timestamp
expires_at now ttl = now + ttl

unfoldable pub issue :
    ℕ → ℕ → ℕ → Timestamp → ℕ → List RefreshToken → Result (Issued × List RefreshToken)
unfolding create
issue user_id jti family_id now ttl tokens = do
  tokens' ← create (fresh_token jti user_id family_id (expires_at now ttl)) tokens
  ok (record { jti = jti; family_id = family_id }, tokens')

-- `updateMany` with `status: 'REVOKED'`.
unfoldable pub revoke_where : (RefreshToken → Bool) → List RefreshToken → List RefreshToken
revoke_where p [] = []
revoke_where p (t ∷ tokens) =
    (if p t then record t { status = revoked } else t) ∷ revoke_where p tokens

pub data RotateResult : Type 0 where
  rotated : Issued → RotateResult
  invalid reuse : RotateResult

abbrev pub consume : Timestamp → ℕ → RefreshToken → RefreshToken
consume now new_jti t = record t {
  status = consumed;
  consumed_at = some now;
  replaced_by_id = some new_jti;
}

-- The branches on the status of a row of the user's own.
unfoldable pub rotate_row :
    RefreshToken
    → RefreshTokenStatus
    → ℕ
    → ℕ
    → ℕ
    → Timestamp
    → ℕ
    → List RefreshToken
    → Result (RotateResult × List RefreshToken)
unfolding revoke_where create
rotate_row row revoked jti user_id new_jti now ttl tokens = ok (invalid, tokens)
rotate_row row consumed jti user_id new_jti now ttl tokens =
    ok (reuse, revoke_where (in_family row.family_id) tokens)
rotate_row row active jti user_id new_jti now ttl tokens = do
  tokens' ←
      create (fresh_token new_jti user_id row.family_id (expires_at now ttl))
        (update_first (has_jti jti) (consume now new_jti) tokens)
  ok (rotated (record { jti = new_jti; family_id = row.family_id }), tokens')

-- The transaction of `rotate`.
unfoldable pub rotate_in_tx :
    ℕ → ℕ → ℕ → Timestamp → ℕ → List RefreshToken → Result (RotateResult × List RefreshToken)
unfolding rotate_row
rotate_in_tx jti user_id new_jti now ttl tokens = elim (find (has_jti jti) tokens) [
  | none ↦ ok (invalid, tokens)
  | some row ↦
      if row.user_id == user_id
      then rotate_row row row.status jti user_id new_jti now ttl tokens
      else ok (invalid, tokens)
]

-- What the caller sees of a committed rotation.
unfoldable pub rotate_result : RotateResult → Result Issued
rotate_result (rotated issued) = ok issued
rotate_result invalid = err (unauthorized "Invalid refresh token")
rotate_result reuse = err (unauthorized "Invalid refresh token")

unfoldable pub rotate :
    ℕ → ℕ → ℕ → Timestamp → ℕ → List RefreshToken → Result Issued × List RefreshToken
unfolding rotate_in_tx rotate_result
rotate jti user_id new_jti now ttl tokens = elim (rotate_in_tx jti user_id new_jti now ttl tokens) [
  | ok (r, tokens') ↦ (rotate_result r, tokens')
  | err e ↦ (err e, tokens)
]

pub revoke_family_by_jti : ℕ → List RefreshToken → List RefreshToken
unfolding revoke_where
revoke_family_by_jti jti tokens = elim (find (has_jti jti) tokens) [
  | none ↦ tokens
  | some row ↦ revoke_where (in_family row.family_id) tokens
]

unfoldable pub revoke_all_for_user : ℕ → List RefreshToken → List RefreshToken
unfolding revoke_where
revoke_all_for_user user_id tokens = revoke_where (λ t. t.user_id == user_id) tokens

-- The count of the deleted rows, and the rows that stay.
pub purge_expired : Timestamp → List RefreshToken → ℕ × List RefreshToken
purge_expired now tokens = (
  length (filter (λ t. ltb t.expires_at now) tokens),
  filter (λ t. not (ltb t.expires_at now)) tokens,
)
