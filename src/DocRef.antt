-- ===== src/DocRef.antt =====
-- Document references such as JE/2026/000123 (src/common/db/doc-ref.ts). Text is its character
-- codes; `String(n)` and `padStart` are the language's.
pub mod Read
use Prim.Native.Char.{code}
use Prim.Native.String.{String}
use accounting_api.Common.{
  Bool, true, false, ◌&&◌, ◌==◌, ℕ, zero, suc, ◌+◌, ◌-◌, ◌/◌, ◌%◌, List, [], ◌∷◌, ◌++◌, ltb,
  if◌then◌else◌, length,
}

abbrev pub Text : Type 0
Text = List ℕ

abbrev pub codes : String → Text
codes String.[] = []
codes (String.◌∷◌ c s) = code c ∷ codes s

-- The decimal digits of a number, in front of `rest`; a number has no more digits than its value
-- plus one, so that is enough fuel.
unfoldable pub digits_onto : ℕ → ℕ → Text → Text
digits_onto zero n rest = rest
digits_onto (suc fuel) n rest =
    let more = digits_onto fuel (n / 10) ((n % 10 + 48) ∷ rest) in
    if ltb n 10 then (n + 48) ∷ rest else more

-- `String(n)`.
unfoldable pub to_text : ℕ → Text
unfolding digits_onto
to_text n = digits_onto (suc n) n []

pub zeros : ℕ → Text
zeros zero = []
zeros (suc n) = 48 ∷ zeros n

-- `padStart(width, '0')`.
pub pad_start : ℕ → Text → Text
unfolding zeros
pad_start width s = zeros (width - length s) ++ s

pub build_doc_ref : String → ℕ → ℕ → Text
unfolding to_text pad_start
build_doc_ref prefix fiscal_year num =
    codes prefix ++ (47 ∷ (to_text fiscal_year ++ (47 ∷ pad_start 6 (to_text num))))

-- `===` of strings.
unfoldable pub same_text : Text → Text → Bool
same_text [] [] = true
same_text [] (d ∷ t) = false
same_text (c ∷ s) [] = false
same_text (c ∷ s) (d ∷ t) = let rest = same_text s t in (c == d) && rest

-- `${value}#deleted-${id}` of src/common/prisma/tombstone.ts.
unfoldable pub tombstone_value : Text → ℕ → Text
unfolding to_text
tombstone_value value id = value ++ (codes "#deleted-" ++ to_text id)
