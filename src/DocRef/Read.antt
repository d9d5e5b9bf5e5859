-- ===== src/DocRef/Read.antt =====
-- Reading a document reference back (src/common/db/doc-ref.ts).
use Prim.Native.String.{String}
use accounting_api.Common.{
  ◌≡◌, ◌<◌, refl, ap, ◌∙◌, Bool, true, false, ◌&&◌, not, ◌==◌, ℕ, zero, suc, ◌+◌, ◌*◌, ◌-◌, ◌/◌,
  ◌%◌, [], ◌∷◌, ◌++◌, length, ltb, if◌then◌else◌, Bool-cases, inl, inr, arith,
}
use accounting_api.DocRef.{Text, codes, digits_onto, to_text, zeros, pad_start, build_doc_ref}

-- The number whose first digits are `high`, as `Number` reads it.
value_onto : ℕ → Text → ℕ
value_onto high [] = high
value_onto high (c ∷ t) = value_onto (high * 10 + (c - 48)) t

-- The text before the first slash, and the text after it.
split_at_slash : Text → Text × Text
split_at_slash [] = ([], [])
split_at_slash (c ∷ t) =
    let rest = split_at_slash t in if c == 47 then ([], t) else (c ∷ rest.0, rest.1)

-- The prefix, the fiscal year and the number of a reference.
pub read_doc_ref : Text → Text × (ℕ × ℕ)
unfolding value_onto split_at_slash
read_doc_ref t =
    let (prefix, numbers) = split_at_slash t in
    let (year, num) = split_at_slash numbers in (prefix, (value_onto 0 year, value_onto 0 num))

unfoldable pub has_no_slash : Text → Bool
has_no_slash [] = true
has_no_slash (c ∷ t) = let rest = has_no_slash t in not (c == 47) && rest

split_at_slash-append :
    (s t : Text) → has_no_slash s ≡ true → split_at_slash (s ++ (47 ∷ t)) ≡ (s, t)
unfolding split_at_slash has_no_slash
split_at_slash-append [] t h = refl
split_at_slash-append (c ∷ s) t h = elim (Bool-cases (c == 47)) [
  | inl e ↦ let off : false ≡ true = rw e at h in cc
  | inr e ↦ let h' : has_no_slash s ≡ true = rw e at h in rw (e, split_at_slash-append s t h') refl
]

-- One more than a number's value is enough fuel for its digits.
value_onto-digits_onto :
    (fuel n : ℕ) (rest : Text)
    → n < fuel
    → value_onto 0 (digits_onto fuel n rest) ≡ value_onto n rest
unfolding value_onto digits_onto
value_onto-digits_onto zero n rest h = omega (arith, h)
value_onto-digits_onto (suc fuel) n rest h = elim (Bool-cases (ltb n 10)) [
  | inl e ↦
      let same : 0 + (n + 48 - 48) ≡ n = omega arith in rw e (ap (λ k. value_onto k rest) same)
  | inr e ↦
      let less : n / 10 < fuel = ground arith in
      let same : n / 10 * 10 + (n % 10 + 48 - 48) ≡ n = omega arith in
      rw e (
        value_onto-digits_onto fuel (n / 10) ((n % 10 + 48) ∷ rest) less
        ∙ ap (λ k. value_onto k rest) same)
]

has_no_slash-digits_onto :
    (fuel n : ℕ) (rest : Text)
    → has_no_slash rest ≡ true
    → has_no_slash (digits_onto fuel n rest) ≡ true
unfolding has_no_slash digits_onto
has_no_slash-digits_onto zero n rest h = h
has_no_slash-digits_onto (suc fuel) n rest h = elim (Bool-cases (ltb n 10)) [
  | inl e ↦ let other : (n + 48 == 47) ≡ false = ground arith in rw (e, other) h
  | inr e ↦
      let other : (n % 10 + 48 == 47) ≡ false = ground arith in
      let h' : has_no_slash ((n % 10 + 48) ∷ rest) ≡ true = rw other h in
      rw e (has_no_slash-digits_onto fuel (n / 10) ((n % 10 + 48) ∷ rest) h')
]

value_onto-zeros : (k : ℕ) (t : Text) → value_onto 0 (zeros k ++ t) ≡ value_onto 0 t
unfolding value_onto zeros
value_onto-zeros zero t = refl
value_onto-zeros (suc k) t = value_onto-zeros k t

value_onto-to_text : (n : ℕ) → value_onto 0 (to_text n) ≡ n
unfolding to_text value_onto
value_onto-to_text n = value_onto-digits_onto (suc n) n [] (omega arith)

has_no_slash-to_text : (n : ℕ) → has_no_slash (to_text n) ≡ true
unfolding to_text has_no_slash
has_no_slash-to_text n = has_no_slash-digits_onto (suc n) n [] refl

-- A reference whose prefix has no slash is read back as that prefix, its fiscal year and its number,
-- whatever the number of digits that the year and the number have.
pub read_doc_ref-build_doc_ref :
    (prefix : String) (fiscal_year num : ℕ)
    → has_no_slash (codes prefix) ≡ true
    → read_doc_ref (build_doc_ref prefix fiscal_year num) ≡ (codes prefix, (fiscal_year, num))
unfolding read_doc_ref build_doc_ref pad_start
read_doc_ref-build_doc_ref prefix fiscal_year num h =
    let padded = zeros (6 - length (to_text num)) ++ to_text num in
    let first = split_at_slash-append (codes prefix) (to_text fiscal_year ++ (47 ∷ padded)) h in
    let second =
      split_at_slash-append (to_text fiscal_year) padded (has_no_slash-to_text fiscal_year) in
    rw
      (
        first,
        second,
        value_onto-to_text fiscal_year,
        value_onto-zeros (6 - length (to_text num)) (to_text num),
        value_onto-to_text num,
      )
      refl
