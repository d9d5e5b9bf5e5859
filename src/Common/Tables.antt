-- ===== src/Common/Tables.antt =====
-- Tables as lists of rows: what an insert and an update of one row do to lookups and counts.
use Prim.Native.Nat.{◌≤◌}
use mathlib.Core.Path.{◌≡◌, refl, sym, subst}
use mathlib.Core.Logic.{◌⊎◌, inl, inr}
use mathlib.Core.Bool.{Bool, true, false}
use mathlib.Core.List.{List, [], ◌∷◌, ◌++◌}
use mathlib.Core.Option.{none, some}
use native.Mathlib.Omega.{arith}
use accounting_api.Common.Tests.{Bool-cases}
use accounting_api.Common.Lists.{All, find, filter, update_first, count}

module _ {ℓ} {A : Type ℓ} where
  pub find-append_some :
      (p : A → Bool) (a : A) (xs ys : List A) → find p xs ≡ some a → find p (xs ++ ys) ≡ some a
  find-append_some p a [] ys h = cc
  find-append_some p a (x ∷ xs) ys h = ground (arith, find-append_some p a xs ys)

  pub find-append_none :
      (p : A → Bool) (a : A) (xs : List A)
      → find p xs ≡ none
      → p a ≡ true
      → find p (xs ++ (a ∷ [])) ≡ some a
  find-append_none p a [] h t = rw t refl
  find-append_none p a (x ∷ xs) h t = ground (arith, find-append_none p a xs)

  pub find-append_other :
      (p : A → Bool) (a : A) (xs : List A) → p a ≡ false → find p (xs ++ (a ∷ [])) ≡ find p xs
  find-append_other p a [] t = rw t refl
  find-append_other p a (x ∷ xs) t = rw (find-append_other p a xs t) refl

  -- A filter keeps the row that is found, or drops it; no other takes its place in a unique column.
  pub find-filter_keep :
      (p q : A → Bool) (a : A) (xs : List A)
      → find p xs ≡ some a
      → q a ≡ true
      → find p (filter q xs) ≡ some a
  find-filter_keep p q a [] h t = cc
  find-filter_keep p q a (x ∷ xs) h t = ground (arith, find-filter_keep p q a xs)

  pub count-filter : (p q : A → Bool) (xs : List A) → count p (filter q xs) ≤ count p xs
  count-filter p q [] = omega arith
  count-filter p q (x ∷ xs) = ground (arith, count-filter p q xs)

  pub find-holds : (p : A → Bool) (a : A) (xs : List A) → find p xs ≡ some a → p a ≡ true
  find-holds p a [] h = cc
  find-holds p a (x ∷ xs) h = elim (Bool-cases (p x)) [
    | inl t ↦ let e : some x ≡ some a = rw t at h in rw (← t) (cc)
    | inr t ↦ find-holds p a xs (rw t at h)
  ]

  pub count_of_find-none : (p : A → Bool) (xs : List A) → find p xs ≡ none → count p xs ≡ 0
  count_of_find-none p [] h = refl
  count_of_find-none p (x ∷ xs) h = ground (arith, count_of_find-none p xs)

  pub find_of_count-zero : (p : A → Bool) (xs : List A) → count p xs ≡ 0 → find p xs ≡ none
  find_of_count-zero p [] h = refl
  find_of_count-zero p (x ∷ xs) h = ground (arith, find_of_count-zero p xs)

  pub find-filter_drop :
      (p q : A → Bool) (a : A) (xs : List A)
      → count p xs ≤ 1
      → find p xs ≡ some a
      → q a ≡ false
      → find p (filter q xs) ≡ none
  find-filter_drop p q a [] one h t = cc
  find-filter_drop p q a (x ∷ xs) one h t =
      ground
        (arith, find-filter_drop p q a xs, find_of_count-zero p (filter q xs), count-filter p q xs)

  module _ (p q : A → Bool) (narrower : (x : A) → p x ≡ true → q x ≡ true) where
    pub count_of_find : (a : A) (xs : List A) → find p xs ≡ some a → 1 ≤ count q xs
    count_of_find a [] h = cc
    count_of_find a (x ∷ xs) h = ground (arith, narrower x, count_of_find a xs)

    -- Where at most one row meets `q`, a row that meets the narrower `p` is that one.
    pub find_wider :
        (a : A) (xs : List A) → count q xs ≤ 1 → find p xs ≡ some a → find q xs ≡ some a
    find_wider a [] c h = cc
    find_wider a (x ∷ xs) c h = ground (arith, narrower x, count_of_find a xs, find_wider a xs)

  module _ (p q : A → Bool) (narrower : (x : A) → p x ≡ true → q x ≡ true) where
    -- The first row that meets `q` is the one that meets `p`, if it does.
    pub find_narrower : (a : A) (xs : List A) → find q xs ≡ some a → p a ≡ true → find p xs ≡ some a
    find_narrower a [] h t = cc
    find_narrower a (x ∷ xs) h t = ground (arith, narrower x, find_narrower a xs)

    none_narrower : (xs : List A) → find q xs ≡ none → find p xs ≡ none
    none_narrower [] h = refl
    none_narrower (x ∷ xs) h = ground (arith, narrower x, none_narrower xs)

    -- If the only row that meets `q` does not meet `p`, none does.
    pub find_narrower_none :
        (a : A) (xs : List A) → count q xs ≤ 1 → find q xs ≡ some a → p a ≡ false → find p xs ≡ none
    find_narrower_none a [] one h t = cc
    find_narrower_none a (x ∷ xs) one h t =
        ground
          (arith, narrower x, find_narrower_none a xs, find_of_count-zero q xs, none_narrower xs)

  -- A lookup by what the update keeps finds the same row, as it was or as it has become.
  pub find-update_first :
      (q p : A → Bool) (f : A → A) (a : A) (xs : List A)
      → ((x : A) → q (f x) ≡ q x)
      → find q xs ≡ some a
      → (find q (update_first p f xs) ≡ some a)
        ⊎ ((p a ≡ true) × (find q (update_first p f xs) ≡ some (f a)))
  find-update_first q p f a [] keep h = cc
  find-update_first q p f a (x ∷ xs) keep h =
      ground (arith, keep x, find-update_first q p f a xs keep)

  -- An update of another row changes no lookup.
  pub find-update_other :
      (q p : A → Bool) (f : A → A) (xs : List A)
      → ((x : A) → q (f x) ≡ q x)
      → ((x : A) → p x ≡ true → q x ≡ false)
      → find q (update_first p f xs) ≡ find q xs
  find-update_other q p f [] keep apart = refl
  find-update_other q p f (x ∷ xs) keep apart =
      ground (arith, keep x, apart x, find-update_other q p f xs keep apart)

  -- The row that is updated is found again.
  pub find-update_same :
      (p : A → Bool) (f : A → A) (a : A) (xs : List A)
      → find p xs ≡ some a
      → p (f a) ≡ true
      → find p (update_first p f xs) ≡ some (f a)
  find-update_same p f a [] h keep = cc
  find-update_same p f a (x ∷ xs) h keep = ground (arith, find-update_same p f a xs)

  -- An update is undone by another that finds the row again.
  pub update_first-undo :
      (p : A → Bool) (f g : A → A) (a : A) (xs : List A)
      → find p xs ≡ some a
      → p (f a) ≡ true
      → g (f a) ≡ a
      → update_first p g (update_first p f xs) ≡ xs
  update_first-undo p f g a [] h keep undo = refl
  update_first-undo p f g a (x ∷ xs) h keep undo = ground (arith, update_first-undo p f g a xs)

module _ {ℓ κ} {A : Type ℓ} (P : A → Type κ) where
  -- The row that an update changes is the only one to look at.
  pub All-update_found :
      (p : A → Bool) (f : A → A) (a : A) (xs : List A)
      → find p xs ≡ some a
      → P (f a)
      → All P xs
      → All P (update_first p f xs)
  All-update_found p f a [] h new all = cc
  All-update_found p f a (x ∷ xs) h new all = elim (Bool-cases (p x)) [
    | inl t ↦
        let e : some a ≡ some x = rw t at (sym h) in rw t (subst (λ y. P (f y)) (cc) new, all.1)
    | inr t ↦ rw t (all.0, All-update_found p f a xs (rw t at h) new all.1)
  ]
