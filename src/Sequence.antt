-- ===== src/Sequence.antt =====
-- Gapless counters (src/common/db/sequence.ts). A counter table is a list of keys with their next
-- number, and `same` compares keys. The row locks make each call atomic within its transaction.
pub mod Counter
use accounting_api.Common.{
  ℕ, ◌+◌, Bool, List, [], ◌∷◌, ◌++◌, Option, none, some, find, update_first,
}

module _ {K : Type 0} (same : K → K → Bool) where
  -- INSERT … ON CONFLICT DO NOTHING of a counter that starts at 1.
  unfoldable pub ensure_row : K → List (K × ℕ) → List (K × ℕ)
  ensure_row key rows = elim (find (λ r. same r.0 key) rows) [
    | none ↦ rows ++ ((key, 1) ∷ [])
    | some r ↦ rows
  ]

  -- `rows[0].next_number`; after `ensure_row` there is a row.
  unfoldable pub read_number : K → List (K × ℕ) → ℕ
  read_number key rows = elim (find (λ r. same r.0 key) rows) [ none ↦ 1 | some r ↦ r.1 ]

  -- The number that is handed out, and the table after it.
  unfoldable pub next_sequence_number : K → List (K × ℕ) → ℕ × List (K × ℕ)
  unfolding ensure_row read_number
  next_sequence_number key rows =
      let rows' = ensure_row key rows in
      let current = read_number key rows' in
      (current, update_first (λ r. same r.0 key) (λ r. (r.0, current + 1)) rows')
