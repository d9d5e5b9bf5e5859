-- ===== src/Common/Lists.antt =====
-- Lists measured by native numbers, `All`, and the search loops of the source.
use Prim.Native.Nat.{ℕ, suc, ◌+◌}
use mathlib.Core.Path.{◌≡◌, subst}
use mathlib.Core.Logic.{inl, inr}
use mathlib.Core.Bool.{Bool, true}
use mathlib.Core.List.{List, [], ◌∷◌, ◌++◌}
use mathlib.Core.Option.{Option, none, some}
use native.Mathlib.Omega.{arith}
use accounting_api.Common.Tests.{if◌then◌else◌, Bool-cases}

abbrev pub All {ℓ κ} : {A : Type ℓ} → (A → Type κ) → List A → Type κ
All P [] = Unit
All P (x ∷ xs) = P x × All P xs

module _ {ℓ} {A : Type ℓ} where
  abbrev pub length : List A → ℕ
  length [] = 0
  length (x ∷ xs) = suc (length xs)

  -- `Array.prototype.find`, and Prisma's `findFirst` and `findUnique`.
  abbrev pub find : (A → Bool) → List A → Option A
  find p [] = none
  find p (x ∷ xs) = if p x then some x else find p xs

  -- `Array.prototype.filter`, and a WHERE clause.
  abbrev pub filter : (A → Bool) → List A → List A
  filter p [] = []
  filter p (x ∷ xs) = let rest = filter p xs in if p x then x ∷ rest else rest

  -- An UPDATE of the row that a unique predicate selects.
  abbrev pub update_first : (A → Bool) → (A → A) → List A → List A
  update_first p f [] = []
  update_first p f (x ∷ xs) = if p x then f x ∷ xs else x ∷ update_first p f xs

  -- How many rows meet a predicate.
  abbrev pub count : (A → Bool) → List A → ℕ
  count p [] = 0
  count p (x ∷ xs) = (if p x then 1 else 0) + count p xs

module _ {ℓ} {A : Type ℓ} where
  pub count-append : (p : A → Bool) (xs ys : List A) → count p (xs ++ ys) ≡ count p xs + count p ys
  count-append p [] ys = omega arith
  count-append p (x ∷ xs) ys = omega (arith, count-append p xs ys)

  -- One row of a count is replaced by an update.
  pub count-update_first :
      (q p : A → Bool) (f : A → A) (a : A) (xs : List A)
      → find p xs ≡ some a
      → count q (update_first p f xs) + (if q a then 1 else 0)
        ≡ count q xs + (if q (f a) then 1 else 0)
  count-update_first q p f a [] h = cc
  count-update_first q p f a (x ∷ xs) h = ground (arith, count-update_first q p f a xs)

module _ {ℓ κ} {A : Type ℓ} (P : A → Type κ) where
  pub All-append : (xs ys : List A) → All P xs → All P ys → All P (xs ++ ys)
  All-append [] ys hx hy = hy
  All-append (x ∷ xs) ys hx hy = (hx.0, All-append xs ys hx.1 hy)

  -- A predicate that an update keeps at the row it changes holds of every row after it.
  pub All-update_first :
      (p : A → Bool) (f : A → A) (xs : List A)
      → ((x : A) → p x ≡ true → P x → P (f x))
      → All P xs
      → All P (update_first p f xs)
  All-update_first p f [] keep h = h
  All-update_first p f (x ∷ xs) keep h = elim (Bool-cases (p x)) [
    | inl e ↦ rw e (keep x e h.0, h.1)
    | inr e ↦ rw e (h.0, All-update_first p f xs keep h.1)
  ]

  pub All-find : (p : A → Bool) (a : A) (xs : List A) → All P xs → find p xs ≡ some a → P a
  All-find p a [] h e = cc
  All-find p a (x ∷ xs) h e = elim (Bool-cases (p x)) [
    | inl t ↦ let e' : some x ≡ some a = rw t at e in subst P (cc) h.0
    | inr t ↦ All-find p a xs h.1 (rw t at e)
  ]

pub All-map {ℓ κ μ} :
    {A : Type ℓ} (P : A → Type κ) (Q : A → Type μ) (xs : List A)
    → ((x : A) → P x → Q x)
    → All P xs
    → All Q xs
All-map P Q [] f h = tt
All-map P Q (x ∷ xs) f h = (f x h.0, All-map P Q xs f h.1)
