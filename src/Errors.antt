-- ===== src/Errors.antt =====
-- The domain errors (src/common/errors/domain-errors.ts), and results.
use accounting_api.Common.{
  ℕ, String, Bool, true, false, ◌≡◌, refl, ◌⊎◌, inl, inr, Option, none, some,
}

-- One constructor for each class, with its message; `details` is left out. The last four are no
-- domain errors: Prisma's P2002 and P2025, a violated CHECK, and a plain `Error`.
pub data DomainError : Type 0 where
  validation_failed not_found conflict unauthorized forbidden password_change_required
        unbalanced_entry closed_period closed_year invalid_account segregation_of_duties
        unique_violation record_not_found check_violation plain_error :
      String → DomainError

-- What an `async` method returns, or throws.
pub data Result {ℓ} (T : Type ℓ) : Type ℓ where
  err : DomainError → Result T
  ok : T → Result T

infixl 5 ◌>>=◌
infixl 5 ◌>>◌
abbrev pub ◌>>=◌ {ℓ κ} :
    {T : Type ℓ} {U : Type κ} (call : Result T) (next : T → Result U) → Result U
err e >>= next = err e
ok t >>= next = next t

abbrev pub ◌>>◌ {κ} : {U : Type κ} (check : Result (Unit {0})) (next : Result U) → Result U
check >> next = check >>= λ done. next

-- `if (c) throw e`.
abbrev pub throw_if : Bool → DomainError → Result (Unit {0})
throw_if true e = err e
throw_if false e = ok tt

-- `if (!x) throw e`, with the value afterwards.
abbrev pub or_throw {ℓ} : {A : Type ℓ} → Option A → DomainError → Result A
or_throw none e = err e
or_throw (some a) e = ok a

pub Result-cases {ℓ} :
    {A : Type ℓ} (m : Result A) → ((a : A) × (m ≡ ok a)) ⊎ ((e : DomainError) × (m ≡ err e))
Result-cases (ok a) = inl (a, refl)
Result-cases (err e) = inr (e, refl)

pub ok-injective {ℓ} : {T : Type ℓ} {t u : T} → ok t ≡ ok u → t ≡ u
ok-injective h = cc

pub or_throw-eq-ok {ℓ} :
    {T : Type ℓ} (found : Option T) (e : DomainError) {t : T}
    → or_throw found e ≡ ok t
    → found ≡ some t
or_throw-eq-ok none e h = cc
or_throw-eq-ok (some t) e h = cc

-- The parts of a call that returned.
pub >>=-eq-ok {ℓ κ} :
    {T : Type ℓ} {U : Type κ} (call : Result T) (next : T → Result U) {u : U}
    → (call >>= next) ≡ ok u
    → (t : T) × (call ≡ ok t) × (next t ≡ ok u)
>>=-eq-ok (err e) next h = cc
>>=-eq-ok (ok t) next h = (t, refl, h)

pub throw_if-eq-ok {ℓ} :
    {B : Type ℓ} (c : Bool) (e : DomainError) (k : Result B) {b : B}
    → (throw_if c e >> k) ≡ ok b
    → (c ≡ false) × (k ≡ ok b)
throw_if-eq-ok true e k h = cc
throw_if-eq-ok false e k h = (refl, h)

-- `statusFromException` (src/common/errors/exception-status.ts).
pub status_from_exception : DomainError → ℕ
status_from_exception (not_found m) = 404
status_from_exception (conflict m) = 409
status_from_exception (unauthorized m) = 401
status_from_exception (forbidden m) = 403
status_from_exception (password_change_required m) = 403
status_from_exception (closed_period m) = 409
status_from_exception (closed_year m) = 409
status_from_exception (segregation_of_duties m) = 403
status_from_exception (validation_failed m) = 422
status_from_exception (unbalanced_entry m) = 422
status_from_exception (invalid_account m) = 422
status_from_exception (unique_violation m) = 409
status_from_exception (record_not_found m) = 404
status_from_exception (check_violation m) = 500
status_from_exception (plain_error m) = 500
