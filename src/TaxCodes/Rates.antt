-- ===== src/TaxCodes/Rates.antt =====
-- The rates of the tax codes through any course of changes (src/tax/tax-codes.service.ts).
use accounting_api.Common.{
  ℕ, zero, suc, ◌*◌, ◌-◌, ◌^◌, ◌≤◌, ◌<◌, ◌≡◌, refl, subst, Bool, true, false, ◌&&◌, not, not-false,
  Option, some, ltb, ltb→lt, arith,
}
use accounting_api.Common.Int.{ℤ, pos, negsuc, ◌*ℤ◌}
use accounting_api.Errors.{ok, or_throw, >>=-eq-ok, throw_if-eq-ok, or_throw-eq-ok, ok-injective}
use accounting_api.DocRef.{Text}
use accounting_api.Money.{half_up}
use accounting_api.Money.Exact.{half_up_zero}
use accounting_api.TaxCodes.{
  DecimalNumber, not_finite, finite, is_positive, is_below_one, decimal_places, validate_rate,
  rate_column,
}

-- A rate in millionths, strictly between 0 and 1.
abbrev pub IsRate : ℤ → Type 0
IsRate (pos n) = (0 < n) × (n < 1000000)
IsRate (negsuc n) = ⊥

product : (n m : ℕ) → pos n *ℤ pos m ≡ pos (n * m)
unfolding ◌*ℤ◌
product n m = ground arith

scaled :
    (n places : ℕ) → 0 < n → n < 10 ^ places → places ≤ 6 → IsRate (pos (n * 10 ^ (6 - places)))
scaled n zero positive below few = (omega arith, omega arith)
scaled n (suc zero) positive below few = (omega arith, omega arith)
scaled n (suc (suc zero)) positive below few = (omega arith, omega arith)
scaled n (suc (suc (suc zero))) positive below few = (omega arith, omega arith)
scaled n (suc (suc (suc (suc zero)))) positive below few = (omega arith, omega arith)
scaled n (suc (suc (suc (suc (suc zero))))) positive below few = (omega arith, omega arith)
scaled n (suc (suc (suc (suc (suc (suc zero)))))) positive below few = (omega arith, omega arith)
scaled n (suc (suc (suc (suc (suc (suc (suc places))))))) positive below few =
    (omega arith, omega arith)

column-IsRate :
    (n places : ℕ)
    → 0 < n
    → n < 10 ^ places
    → places ≤ 6
    → IsRate (half_up (places - 6) (pos n *ℤ pos (10 ^ (6 - places))))
column-IsRate n places positive below few =
    let no_excess : places - 6 ≡ 0 = omega (arith, few) in
    rw (no_excess, half_up_zero, product) (scaled n places positive below few)

and_parts : (a b : Bool) → (a && b) ≡ true → (a ≡ true) × (b ≡ true)
and_parts true b h = (refl, h)
and_parts false b h = cc

at_most : (a b : ℕ) → ltb a b ≡ false → b ≤ a
at_most a b h = ground arith

-- A rate that passes the checks is stored strictly between 0 and 1.
module _ (parse : Text → Option DecimalNumber) where
  pub parsed-IsRate :
      (rate : Text) (r : DecimalNumber) (column : ℤ)
      → parse rate ≡ some r
      → (is_positive r && is_below_one r) ≡ true
      → ltb 6 (decimal_places r) ≡ false
      → rate_column parse rate ≡ ok column
      → IsRate column
  unfolding rate_column
  parsed-IsRate rate not_finite column parsed inside few h = cc
  parsed-IsRate rate (finite (negsuc n) places) column parsed inside few h = cc
  parsed-IsRate rate (finite (pos n) places) column parsed inside few h =
      let column_is : ok (half_up (places - 6) (pos n *ℤ pos (10 ^ (6 - places)))) ≡ ok column =
        rw (rate_column, parsed) at h in
      let both = and_parts (ltb 0 n) (ltb n (10 ^ places)) inside in
      subst IsRate (ok-injective column_is) (
        column-IsRate n places (ltb→lt 0 n both.0) (ltb→lt n (10 ^ places) both.1)
          (at_most 6 places few))

  pub rate_column-IsRate :
      (rate : Text) (done : Unit {0}) (column : ℤ)
      → validate_rate parse rate ≡ ok done
      → rate_column parse rate ≡ ok column
      → IsRate column
  unfolding validate_rate
  rate_column-IsRate rate done column valid h =
      let (r, parsed, v1) = >>=-eq-ok (or_throw (parse rate) _) _ valid in
      let (inside, v2) = throw_if-eq-ok (not (is_positive r && is_below_one r)) _ _ v1 in
      let (few, v3) = throw_if-eq-ok (ltb 6 (decimal_places r)) _ _ v2 in
      parsed-IsRate rate r column (or_throw-eq-ok _ _ parsed) (not-false _ inside) few h
