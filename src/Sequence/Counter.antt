-- ===== src/Sequence/Counter.antt =====
-- A counter table maps each key to its next number, 1 if it has none, and one call moves one key.
use accounting_api.Common.{
  ℕ, ◌+◌, ◌≡◌, ◌↔◌, Bool, true, List, [], ◌∷◌, ◌++◌, some, find, update_first, if◌then◌else◌, arith,
  refl, ◌∙◌, Bool-cases, Option-cases, inl, inr,
}
use accounting_api.Sequence.{ensure_row, read_number, next_sequence_number}

module _ {K : Type 0} (same : K → K → Bool)
    (same_iff : (a b : K) → (same a b ≡ true) ↔ (a ≡ b)) where
  read_number-append :
      (key k : K) (rows : List (K × ℕ))
      → read_number same k (rows ++ ((key, 1) ∷ [])) ≡ read_number same k rows
  unfolding read_number
  read_number-append key k [] = ground arith
  read_number-append key k (r ∷ rows) = ground (arith, read_number-append key k rows)

  read_number-ensure_row :
      (key k : K) (rows : List (K × ℕ))
      → read_number same k (ensure_row same key rows) ≡ read_number same k rows
  unfolding ensure_row
  read_number-ensure_row key k rows = ground (arith, read_number-append key k rows)

  find-append_self :
      (key : K) (rows : List (K × ℕ))
      → (r : K × ℕ) × (find (λ q. same q.0 key) (rows ++ ((key, 1) ∷ [])) ≡ some r)
  find-append_self key [] = ((key, 1), ground (arith, (same_iff key key).1 refl))
  find-append_self key (q ∷ rows) = elim (Bool-cases (same q.0 key)) [
    | inl e ↦ (q, rw e)
    | inr e ↦ let (r, h) = find-append_self key rows in (r, rw e h)
  ]

  find-ensure_row :
      (key : K) (rows : List (K × ℕ))
      → (r : K × ℕ) × (find (λ q. same q.0 key) (ensure_row same key rows) ≡ some r)
  unfolding ensure_row
  find-ensure_row key rows = elim (Option-cases (find (λ q. same q.0 key) rows)) [
    | inl e ↦ let (r, h) = find-append_self key rows in (r, rw (e, ensure_row) h)
    | inr (r, e) ↦ (r, rw (e, ensure_row) e)
  ]

  read_number-update_first :
      (key k : K) (v : ℕ) (r : K × ℕ) (rows : List (K × ℕ))
      → find (λ q. same q.0 key) rows ≡ some r
      → read_number same k (update_first (λ q. same q.0 key) (λ q. (q.0, v)) rows)
        ≡ (if same key k then v else read_number same k rows)
  unfolding read_number
  read_number-update_first key k v r [] h = cc
  read_number-update_first key k v r (q ∷ rows) h = ground (
    arith,
    read_number-update_first key k v r rows,
    same_iff q.0 key,
    same_iff q.0 k,
    same_iff key k,
  )

  -- Where `same` decides the equality of keys, the number handed out is the key's next number, and
  -- then that key alone moves on by one.
  pub next_sequence_number_lem :
      (key : K) (rows : List (K × ℕ))
      → ((next_sequence_number same key rows).0 ≡ read_number same key rows)
        × ((k : K)
            → read_number same k (next_sequence_number same key rows).1
              ≡ (if same key k then read_number same key rows + 1 else read_number same k rows))
  unfolding next_sequence_number
  next_sequence_number_lem key rows =
      let (r, h) = find-ensure_row key rows in
      (
        read_number-ensure_row key key rows,
        λ k.
            read_number-update_first key k (read_number same key (ensure_row same key rows) + 1) r
              (ensure_row same key rows) h
            ∙ ground
                (arith, read_number-ensure_row key key rows, read_number-ensure_row key k rows),
      )
