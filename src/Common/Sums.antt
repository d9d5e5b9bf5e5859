-- ===== src/Common/Sums.antt =====
-- Sums over lists, and sorting by insertion, which leaves them as they are.
use Prim.Native.Nat.{ℕ, zero, suc, ◌+◌, ◌≤◌}
use mathlib.Core.Path.{◌≡◌, refl, ap, ◌∙◌}
use mathlib.Core.Logic.{inl, inr}
use mathlib.Core.Bool.{Bool, false}
use mathlib.Core.List.{List, [], ◌∷◌, ◌++◌}
use native.Mathlib.Omega.{arith}
use accounting_api.Common.Tests.{ltb, if◌then◌else◌, Bool-cases}
use accounting_api.Common.Lists.{All, length}
use accounting_api.Common.Int.{ℤ, pos, abs, ◌+ℤ◌, abs-+ℤ, int_laws}

pub not_longer : (n m : ℕ) → m ≤ n → ltb n m ≡ false
not_longer n m h = ground arith

module _ {ℓ} {A : Type ℓ} where
  -- The sum of an amount of each element.
  unfoldable pub sum_by : (A → ℤ) → List A → ℤ
  sum_by f [] = pos 0
  sum_by f (x ∷ xs) = f x +ℤ sum_by f xs

  unfoldable pub sum_by_ℕ : (A → ℕ) → List A → ℕ
  sum_by_ℕ f [] = 0
  sum_by_ℕ f (x ∷ xs) = f x + sum_by_ℕ f xs

  -- The first place that the order allows.
  unfoldable pub insert_by : (A → A → Bool) → A → List A → List A
  insert_by leb x [] = x ∷ []
  insert_by leb x (y ∷ ys) =
      let later = insert_by leb x ys in if leb x y then x ∷ y ∷ ys else y ∷ later

  unfoldable pub sort_by : (A → A → Bool) → List A → List A
  unfolding insert_by
  sort_by leb [] = []
  sort_by leb (x ∷ xs) = insert_by leb x (sort_by leb xs)

  -- A LIMIT, and `slice(0, n)`.
  unfoldable pub take : ℕ → List A → List A
  take zero xs = []
  take (suc n) [] = []
  take (suc n) (x ∷ xs) = x ∷ take n xs

  pub take-all : (n : ℕ) (xs : List A) → length xs ≤ n → take n xs ≡ xs
  unfolding take
  take-all zero [] h = refl
  take-all zero (x ∷ xs) h = ground arith
  take-all (suc n) [] h = refl
  take-all (suc n) (x ∷ xs) h = ap (λ ys. x ∷ ys) (take-all n xs (omega (arith, h)))

  pub sum_by-append :
      (f : A → ℤ) (xs ys : List A) → sum_by f (xs ++ ys) ≡ sum_by f xs +ℤ sum_by f ys
  unfolding sum_by
  sum_by-append f [] ys = omega int_laws
  sum_by-append f (x ∷ xs) ys = rw (sum_by-append f xs ys) (omega int_laws)

  sum_by-insert_by :
      (leb : A → A → Bool) (f : A → ℤ) (x : A) (xs : List A)
      → sum_by f (insert_by leb x xs) ≡ f x +ℤ sum_by f xs
  unfolding insert_by sum_by
  sum_by-insert_by leb f x [] = refl
  sum_by-insert_by leb f x (y ∷ ys) = elim (Bool-cases (leb x y)) [
    | inl t ↦ rw t refl
    | inr n ↦ rw (n, sum_by-insert_by leb f x ys) (omega int_laws)
  ]

  pub sum_by-sort_by :
      (leb : A → A → Bool) (f : A → ℤ) (xs : List A) → sum_by f (sort_by leb xs) ≡ sum_by f xs
  unfolding sort_by sum_by
  sum_by-sort_by leb f [] = refl
  sum_by-sort_by leb f (x ∷ xs) =
      sum_by-insert_by leb f x (sort_by leb xs) ∙ ap (λ z. f x +ℤ z) (sum_by-sort_by leb f xs)

  sum_by_ℕ-insert_by :
      (leb : A → A → Bool) (f : A → ℕ) (x : A) (xs : List A)
      → sum_by_ℕ f (insert_by leb x xs) ≡ f x + sum_by_ℕ f xs
  unfolding insert_by sum_by_ℕ
  sum_by_ℕ-insert_by leb f x [] = refl
  sum_by_ℕ-insert_by leb f x (y ∷ ys) = elim (Bool-cases (leb x y)) [
    | inl t ↦ rw t refl
    | inr n ↦ rw n (omega (arith, sum_by_ℕ-insert_by leb f x ys))
  ]

  pub sum_by_ℕ-sort_by :
      (leb : A → A → Bool) (f : A → ℕ) (xs : List A) → sum_by_ℕ f (sort_by leb xs) ≡ sum_by_ℕ f xs
  unfolding sort_by sum_by_ℕ
  sum_by_ℕ-sort_by leb f [] = refl
  sum_by_ℕ-sort_by leb f (x ∷ xs) =
      sum_by_ℕ-insert_by leb f x (sort_by leb xs) ∙ ap (λ n. f x + n) (sum_by_ℕ-sort_by leb f xs)

  length-ones : (xs : List A) → length xs ≡ sum_by_ℕ (λ x. 1) xs
  unfolding sum_by_ℕ
  length-ones [] = refl
  length-ones (x ∷ xs) = omega (arith, length-ones xs)

  pub length-sort_by : (leb : A → A → Bool) (xs : List A) → length (sort_by leb xs) ≡ length xs
  length-sort_by leb xs =
      omega (arith, length-ones (sort_by leb xs), length-ones xs, sum_by_ℕ-sort_by leb (λ x. 1) xs)

  -- The absolute value of a sum.
  pub abs-sum_by : (f : A → ℤ) (xs : List A) → abs (sum_by f xs) ≤ sum_by_ℕ (λ x. abs (f x)) xs
  unfolding sum_by sum_by_ℕ
  abs-sum_by f [] = omega arith
  abs-sum_by f (x ∷ xs) = omega (arith, abs-sum_by f xs, abs-+ℤ (f x) (sum_by f xs))

  pub sum_by_ℕ-le :
      (f g : A → ℕ) → ((x : A) → f x ≤ g x) → (xs : List A) → sum_by_ℕ f xs ≤ sum_by_ℕ g xs
  unfolding sum_by_ℕ
  sum_by_ℕ-le f g h [] = omega arith
  sum_by_ℕ-le f g h (x ∷ xs) = omega (arith, h x, sum_by_ℕ-le f g h xs)

  pub sum_by-eq : (f g : A → ℤ) (xs : List A) → All (λ x. f x ≡ g x) xs → sum_by f xs ≡ sum_by g xs
  unfolding sum_by
  sum_by-eq f g [] h = refl
  sum_by-eq f g (x ∷ xs) h = rw (h.0, sum_by-eq f g xs h.1) refl
