-- ===== src/Idempotency/Statements.antt =====
-- The statements of the service as steps, in any order: those of several requests may interleave.
use accounting_api.Common.{
  ℕ, ◌≡◌, refl, ◌∙◌, false, ◌&&◌, not, Option, none, some, List, [], ◌∷◌, ◌++◌, ◌==◌, find, count,
  count-append, count-filter, count-update_first, count_of_find-none, find-append_some,
  find-filter_keep, find-holds, find-update_other, arith, Option-cases, Bool-cases, inl, inr, All,
}
use accounting_api.Errors.{ok, err}
use accounting_api.Store.{Timestamp, is_some}
use accounting_api.Idempotency.{
  IdempotencyKey, Request, Table, of_owner, reservation, create, is_abandoned, clear_abandoned,
  complete, completed, release, is_expired, purge_completed,
}
use accounting_api.Idempotency.Cells.{IsKeyed}

-- A statement that changes the table.
pub data Statement (Response : Type 0) : Type 0 where
  creates : Request → Timestamp → Statement Response
  clears : ℕ → ℕ → Timestamp → Statement Response
  completes : ℕ → ℕ → Option Response → ℕ → Timestamp → Statement Response
  releases : ℕ → ℕ → Statement Response
  purges : ℕ → Timestamp → Statement Response

module _ {Response : Type 0} (ttl : ℕ) where
  -- The table after it; a statement that fails changes nothing.
  unfoldable pub apply : Statement Response → Table Response → Table Response
  apply (creates request now) rows = elim (create request now rows) [
    | ok rows' ↦ rows'
    | err e ↦ rows
  ]
  apply (clears user_id key now) rows = clear_abandoned ttl user_id key now rows
  apply (completes user_id key response status now) rows =
      elim (complete user_id key response status now rows) [ ok rows' ↦ rows' | err e ↦ rows ]
  apply (releases user_id key) rows = release user_id key rows
  apply (purges older_than now) rows = (purge_completed older_than now rows).1

  unfoldable pub apply_all : List (Statement Response) → Table Response → Table Response
  unfolding apply
  apply_all [] rows = rows
  apply_all (s ∷ ss) rows = apply_all ss (apply s rows)

  -- The statement leaves the row of a key as it is.
  unfoldable pub Untouched : ℕ → ℕ → IdempotencyKey Response → Statement Response → Type 0
  Untouched user_id key row (creates request now) = Unit
  Untouched user_id key row (clears user_id' key' now) =
      is_abandoned ttl user_id' key' now row ≡ false
  Untouched user_id key row (completes user_id' key' response status now) =
      ((user_id == user_id') && (key == key')) ≡ false
  Untouched user_id key row (releases user_id' key') =
      ((user_id == user_id') && (key == key')) ≡ false
  Untouched user_id key row (purges older_than now) = is_expired older_than now row ≡ false

  module _ (user_id key : ℕ) (row : IdempotencyKey Response) (rows : Table Response)
      (there : find (of_owner user_id key) rows ≡ some row) where
    owned_elsewhere :
        (user_id' key' : ℕ)
        → ((user_id == user_id') && (key == key')) ≡ false
        → of_owner user_id' key' row ≡ false
    owned_elsewhere user_id' key' h =
        let own = find-holds (of_owner user_id key) row rows there in ground arith

    pub apply-find :
        (s : Statement Response)
        → Untouched user_id key row s
        → find (of_owner user_id key) (apply s rows) ≡ some row
    unfolding apply Untouched create clear_abandoned complete release purge_completed
    apply-find (creates request now) h =
        elim (Option-cases (find (of_owner request.user_id request.key) rows)) [
          | inl absent ↦
              rw (apply, create, absent)
                (find-append_some (of_owner user_id key) row rows (reservation request now ∷ [])
                  there)
          | inr (other, found) ↦ rw (apply, create, found) there
        ]
    apply-find (clears user_id' key' now) h =
        find-filter_keep (of_owner user_id key) (λ x. not (is_abandoned ttl user_id' key' now x))
          row rows there (rw h refl)
    apply-find (completes user_id' key' response status now) h =
        elim (Bool-cases (is_some (find (of_owner user_id' key') rows))) [
          | inr absent ↦ rw (apply, complete, absent) there
          | inl found ↦
              rw (apply, complete, found)
                (find-update_other (of_owner user_id key) (of_owner user_id' key')
                    (completed response status now) rows (λ x. refl) (λ x own. ground arith)
                  ∙ there)
        ]
    apply-find (releases user_id' key') h =
        find-filter_keep (of_owner user_id key) (λ x. not (of_owner user_id' key' x)) row rows there
          (rw (owned_elsewhere user_id' key' h) refl)
    apply-find (purges older_than now) h =
        find-filter_keep (of_owner user_id key) (λ x. not (is_expired older_than now x)) row rows
          there (rw h refl)

  pub apply_all-find :
      (user_id key : ℕ) (row : IdempotencyKey Response) (ss : List (Statement Response))
      (rows : Table Response)
      → All (Untouched user_id key row) ss
      → find (of_owner user_id key) rows ≡ some row
      → find (of_owner user_id key) (apply_all ss rows) ≡ some row
  unfolding apply_all
  apply_all-find user_id key row [] rows h there = there
  apply_all-find user_id key row (s ∷ ss) rows h there =
      apply_all-find user_id key row ss (apply s rows) h.1
        (apply-find user_id key row rows there s h.0)

  -- No statement makes a second row of a key.
  pub create-IsKeyed :
      (request : Request) (now : Timestamp) (rows : Table Response)
      → find (of_owner request.user_id request.key) rows ≡ none
      → IsKeyed rows
      → IsKeyed (rows ++ (reservation request now ∷ []))
  create-IsKeyed request now rows absent keyed user_id key =
      let added = count-append (of_owner user_id key) rows (reservation request now ∷ []) in
      elim (Bool-cases (of_owner user_id key (reservation {Response = Response} request now))) [
        | inr other ↦ ground (arith, keyed user_id key, added)
        | inl own ↦
            let same_user : request.user_id ≡ user_id = ground arith in
            let same_key : request.key ≡ key = ground arith in
            let here : count (of_owner user_id key) rows ≡ 0 =
              rw (← same_user, ← same_key)
                (count_of_find-none (of_owner request.user_id request.key) rows absent) in
            ground (arith, here, added)
      ]

  pub apply-IsKeyed :
      (s : Statement Response) (rows : Table Response) → IsKeyed rows → IsKeyed (apply s rows)
  unfolding apply create clear_abandoned complete release purge_completed
  apply-IsKeyed (creates request now) rows keyed =
      elim (Option-cases (find (of_owner request.user_id request.key) rows)) [
        | inl absent ↦ rw (apply, create, absent) (create-IsKeyed request now rows absent keyed)
        | inr (other, found) ↦ rw (apply, create, found) keyed
      ]
  apply-IsKeyed (clears user_id key now) rows keyed = λ u k. omega (
    arith,
    keyed u k,
    count-filter (of_owner u k) (λ x. not (is_abandoned ttl user_id key now x)) rows,
  )
  apply-IsKeyed (completes user_id key response status now) rows keyed =
      elim (Option-cases (find (of_owner user_id key) rows)) [
        | inl absent ↦ rw (apply, complete, absent) keyed
        | inr (row, found) ↦
            rw (apply, complete, found)
              (λ u k. omega (
                arith,
                keyed u k,
                count-update_first (of_owner u k) (of_owner user_id key)
                    (completed response status now) row rows found,
              ))
      ]
  apply-IsKeyed (releases user_id key) rows keyed = λ u k.
      omega (arith, keyed u k, count-filter (of_owner u k) (λ x. not (of_owner user_id key x)) rows)
  apply-IsKeyed (purges older_than now) rows keyed = λ u k.
      omega (
        arith,
        keyed u k,
        count-filter (of_owner u k) (λ x. not (is_expired older_than now x)) rows,
      )

  pub apply_all-IsKeyed :
      (ss : List (Statement Response)) (rows : Table Response)
      → IsKeyed rows
      → IsKeyed (apply_all ss rows)
  unfolding apply_all
  apply_all-IsKeyed [] rows keyed = keyed
  apply_all-IsKeyed (s ∷ ss) rows keyed =
      apply_all-IsKeyed ss (apply s rows) (apply-IsKeyed s rows keyed)
