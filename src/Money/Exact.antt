-- ===== src/Money/Exact.antt =====
-- Money arithmetic is exact while the amounts fit decimal.js's precision.
use accounting_api.Common.{ℕ, ◌+◌, ◌<◌, ◌≤◌, ◌≡◌, true, List, [], ◌∷◌, arith, ◌∙◌}
use accounting_api.Common.Int.{ℤ, pos, abs, ◌+ℤ◌, ◌-ℤ◌, abs-+ℤ, abs--ℤ, int_laws}
use accounting_api.Money.{
  Decimals, Money, half_up, new_money, add, subtract, sum_from, sum, zero_money, is_zero,
}

pub half_up_zero : (x : ℤ) → half_up 0 x ≡ x
unfolding half_up
half_up_zero x = ground arith

-- The exact sum of a list of amounts, and of their absolute values.
abbrev pub total : List Money → ℤ
total [] = pos 0
total (m ∷ ms) = m +ℤ total ms

abbrev pub total_abs : List Money → ℕ
total_abs [] = 0
total_abs (m ∷ ms) = abs m + total_abs ms

pub abs-total : (ms : List Money) → abs (total ms) ≤ total_abs ms
abs-total [] = omega arith
abs-total (m ∷ ms) = omega (arith, abs-+ℤ m (total ms), abs-total ms)

pub is_zero-eq : (a : Money) → is_zero a ≡ true → a ≡ pos 0
is_zero-eq a h = ground arith

module _ (D : Decimals) where
  pub new_money-zero : (x : ℤ) → new_money D 0 x ≡ x
  unfolding new_money
  new_money-zero x = D.drop_digits_exact 0 x ∙ half_up_zero x

  pub add-exact : (a b : Money) → abs (a +ℤ b) < D.limit → add D a b ≡ a +ℤ b
  unfolding add
  add-exact a b h = new_money-zero (D.plus a b) ∙ D.plus_exact a b h

  pub subtract-exact : (a b : Money) → abs (a -ℤ b) < D.limit → subtract D a b ≡ a -ℤ b
  unfolding subtract
  subtract-exact a b h = new_money-zero (D.minus a b) ∙ D.minus_exact a b h

  -- The same from bounds on the two amounts.
  pub add-eq : (a b : Money) → abs a + abs b < D.limit → add D a b ≡ a +ℤ b
  add-eq a b h = add-exact a b (omega (arith, abs-+ℤ a b))

  pub subtract-eq : (a b : Money) → abs a + abs b < D.limit → subtract D a b ≡ a -ℤ b
  subtract-eq a b h = subtract-exact a b (omega (arith, abs--ℤ a b))

  sum_from-eq :
      (acc : Money) (ms : List Money)
      → abs acc + total_abs ms < D.limit
      → sum_from D acc ms ≡ acc +ℤ total ms
  unfolding sum_from
  sum_from-eq acc [] h = omega int_laws
  sum_from-eq acc (m ∷ ms) h =
      rw (add-eq acc m (omega arith))
        (sum_from-eq (acc +ℤ m) ms (omega (arith, abs-+ℤ acc m)) ∙ omega int_laws)

  -- `Money.sum` is the exact sum, if the absolute values add up to less than the limit of
  -- decimal.js's precision.
  pub sum-eq-total : (ms : List Money) → total_abs ms < D.limit → sum D ms ≡ total ms
  unfolding sum
  sum-eq-total ms h = sum_from-eq zero_money ms (omega arith) ∙ omega int_laws
