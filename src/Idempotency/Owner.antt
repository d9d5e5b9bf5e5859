-- ===== src/Idempotency/Owner.antt =====
-- Which requests may use the key of another one (src/common/idempotency/idempotency.service.ts).
use accounting_api.Common.{
  ℕ, ◌≡◌, ◌⊎◌, ◌==◌, ◌&&◌, refl, Option, none, some, Bool-cases, inl, inr, if◌then◌else◌, arith,
}
use accounting_api.Errors.{DomainError, validation_failed, ok, err}
use accounting_api.Idempotency.{Request, check_same}

-- Why a request may not use the key of another one, if it may not: its endpoint is checked before its
-- body.
abbrev pub mismatch : Request → Request → Option DomainError
mismatch request owner =
    if (request.method == owner.method) && (request.path == owner.path)
    then if request.request_hash == owner.request_hash
      then none
      else some (validation_failed "Idempotency-Key already used with a different request body")
    else some (validation_failed "Idempotency-Key already used for a different endpoint")

flip : (a b : ℕ) → (a == b) ≡ (b == a)
flip a b = ground arith

-- What `check_same` answers for it.
pub verdict :
    (request owner : Request)
    → ((mismatch request owner ≡ none)
        × (check_same request owner.method owner.path owner.request_hash ≡ ok tt))
      ⊎ ((e : DomainError) × (mismatch request owner ≡ some e)
          × (check_same request owner.method owner.path owner.request_hash ≡ err e))
unfolding check_same
verdict request owner =
    rw
      (
        flip owner.method request.method,
        flip owner.path request.path,
        flip owner.request_hash request.request_hash,
      )
      (elim (Bool-cases (request.method == owner.method)) [
        | inr m ↦ rw m (inr (_, refl, refl))
        | inl m ↦ elim (Bool-cases (request.path == owner.path)) [
          | inr p ↦ rw (m, p) (inr (_, refl, refl))
          | inl p ↦ elim (Bool-cases (request.request_hash == owner.request_hash)) [
            | inr h ↦ rw (m, p, h) (inr (_, refl, refl))
            | inl h ↦ rw (m, p, h) (inl (refl, refl))
          ]
        ]
      ])

pub mismatch-itself : (request : Request) → mismatch request request ≡ none
mismatch-itself request = ground arith
