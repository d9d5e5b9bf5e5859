-- ===== src/Money.antt =====
-- The value object of src/common/money/money.ts. A value is the integer of its ten-thousandths
-- (`SCALE = 4`). decimal.js is a parameter: it rounds each result to `precision` significant
-- digits, so it is exact while a result's coefficient stays below `limit`, 10 ^ 20 by default.
pub mod Exact
use accounting_api.Common.{ℕ, ◌+◌, ◌*◌, ◌/◌, ◌^◌, ◌<◌, ◌≡◌, Bool, List, [], ◌∷◌, if◌then◌else◌, ltb}
use accounting_api.Common.Int.{
  ℤ, pos, negsuc, abs, pos_part, neg_part, sub_ℕ, ◌+ℤ◌, ◌-ℤ◌, ◌*ℤ◌, is_zero_ℤ, is_neg_ℤ, eqb_ℤ,
  ltb_ℤ,
}

-- ROUND_HALF_UP: drop `k` digits, to the nearest and away from zero at a tie.
unfoldable pub half_up_ℕ : ℕ → ℕ → ℕ
half_up_ℕ k n = (n + 10 ^ k / 2) / 10 ^ k

unfoldable pub half_up : ℕ → ℤ → ℤ
unfolding half_up_ℕ
half_up k x = sub_ℕ (half_up_ℕ k (pos_part x)) (half_up_ℕ k (neg_part x))

-- decimal.js on coefficients: `plus` and `minus` of two coefficients at one scale, `times` at the
-- sum of the scales, and `toDecimalPlaces(…, ROUND_HALF_UP)` that drops digits.
pub record Decimals : Type 0 where
  pub limit : ℕ
  pub plus : ℤ → ℤ → ℤ
  pub minus : ℤ → ℤ → ℤ
  pub times : ℤ → ℤ → ℤ
  pub drop_digits : ℕ → ℤ → ℤ
  pub plus_exact : (a b : ℤ) → abs (a +ℤ b) < limit → plus a b ≡ a +ℤ b
  pub minus_exact : (a b : ℤ) → abs (a -ℤ b) < limit → minus a b ≡ a -ℤ b
  pub times_exact : (a b : ℤ) → abs (a *ℤ b) < limit → times a b ≡ a *ℤ b
  pub drop_digits_exact : (k : ℕ) (a : ℤ) → drop_digits k a ≡ half_up k a

abbrev pub Money : Type 0
Money = ℤ

abbrev pub zero_money : Money
zero_money = pos 0

module _ (D : Decimals) where
  -- The constructor, on a coefficient at scale 4 + `extra`.
  unfoldable pub new_money : ℕ → ℤ → Money
  new_money extra c = D.drop_digits extra c

  unfoldable pub add : Money → Money → Money
  unfolding new_money
  add a b = new_money 0 (D.plus a b)

  unfoldable pub subtract : Money → Money → Money
  unfolding new_money
  subtract a b = new_money 0 (D.minus a b)

  -- By a factor of coefficient `f` with `places` decimal places.
  unfoldable pub multiply : Money → ℤ → ℕ → Money
  unfolding new_money
  multiply a f places = new_money places (D.times a f)

  unfoldable pub round_to_rupiah : Money → Money
  unfolding new_money
  round_to_rupiah a = new_money 0 (D.drop_digits 4 a *ℤ pos 10000)

  unfoldable pub sum_from : Money → List Money → Money
  unfolding add
  sum_from acc [] = acc
  sum_from acc (m ∷ ms) = sum_from (add acc m) ms

  unfoldable pub sum : List Money → Money
  unfolding sum_from
  sum amounts = sum_from zero_money amounts

abbrev pub equals : Money → Money → Bool
equals a b = eqb_ℤ a b

abbrev pub greater_than : Money → Money → Bool
greater_than a b = ltb_ℤ b a

abbrev pub is_zero : Money → Bool
is_zero a = is_zero_ℤ a

abbrev pub is_negative : Money → Bool
is_negative a = is_neg_ℤ a
