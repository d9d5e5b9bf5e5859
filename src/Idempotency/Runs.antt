-- ===== src/Idempotency/Runs.antt =====
-- A key lets one request run at a time, and replays what it answered.
use accounting_api.Common.{
  ℕ, ◌+◌, ◌<◌, ◌≤◌, ◌≡◌, refl, subst, ap, ◌∙◌, true, false, ◌&&◌, some, List, [], ◌∷◌, ◌++◌, ◌==◌,
  find, update_first, find-append_none, find-holds, find-update_same, arith, Option-cases, inl, inr,
  All, All-map,
}
use accounting_api.Errors.{conflict, DomainError, ok, err, ok-injective, unique_violation}
use accounting_api.Store.{Timestamp}
use accounting_api.Idempotency.{
  IdempotencyKey, Request, runs, replays, Table, of_owner, reservation, create, is_stale, reserve,
  complete, completed,
}
use accounting_api.Idempotency.Owner.{verdict, mismatch-itself}
use accounting_api.Idempotency.Cells.{
  running, finished, view, cell_with, owner_of, IsKeyed, reserve_cell,
}
use accounting_api.Idempotency.Reserve.{reserve-reserve_cell}
use accounting_api.Idempotency.Statements.{
  Statement, creates, clears, completes, releases, purges, apply, apply_all, Untouched,
  apply_all-find, create-IsKeyed, apply-IsKeyed, apply_all-IsKeyed,
}

-- A statement that ends no run of the key: no completion and no release of it, and no clearing of it
-- after the time `until`.
unfoldable pub Spares : {Response : Type 0} → ℕ → ℕ → Timestamp → Statement Response → Type 0
Spares user_id key until (creates request now) = Unit
Spares user_id key until (clears user_id' key' now) =
    ((user_id == user_id') && (key == key')) ≡ true → now ≤ until
Spares user_id key until (completes user_id' key' response status now) =
    ((user_id == user_id') && (key == key')) ≡ false
Spares user_id key until (releases user_id' key') = ((user_id == user_id') && (key == key')) ≡ false
Spares user_id key until (purges older_than now) = Unit

-- A statement that keeps a response of the time `at`: no other completion and no release of the key,
-- and no purge that reaches it.
unfoldable pub Keeps : {Response : Type 0} → ℕ → ℕ → Timestamp → Statement Response → Type 0
Keeps user_id key at (creates request now) = Unit
Keeps user_id key at (clears user_id' key' now) = Unit
Keeps user_id key at (completes user_id' key' response status now) =
    ((user_id == user_id') && (key == key')) ≡ false
Keeps user_id key at (releases user_id' key') = ((user_id == user_id') && (key == key')) ≡ false
Keeps user_id key at (purges older_than now) = now ≤ at + older_than

module _ {Response : Type 0} (ttl : ℕ) where
  Spares-Untouched :
      (request : Request) (since : Timestamp) (s : Statement Response)
      → Spares request.user_id request.key (since + ttl) s
      → Untouched ttl request.user_id request.key (reservation request since) s
  unfolding Spares Untouched
  Spares-Untouched request since (creates other now) h = tt
  Spares-Untouched request since (clears user_id' key' now) h = ground (arith, h)
  Spares-Untouched request since (completes user_id' key' response status now) h = h
  Spares-Untouched request since (releases user_id' key') h = h
  Spares-Untouched request since (purges older_than now) h = refl

  Keeps-Untouched :
      (user_id key : ℕ) (at : Timestamp) (response : Response) (status : ℕ)
      (row : IdempotencyKey Response) (s : Statement Response)
      → Keeps user_id key at s
      → Untouched ttl user_id key (completed (some response) status at row) s
  unfolding Keeps Untouched
  Keeps-Untouched user_id key at response status row (creates other now) h = tt
  Keeps-Untouched user_id key at response status row (clears user_id' key' now) h = ground arith
  Keeps-Untouched user_id key at response status row (completes user_id' key' response' status' now)
        h =
      h
  Keeps-Untouched user_id key at response status row (releases user_id' key') h = h
  Keeps-Untouched user_id key at response status row (purges older_than now) h = ground arith

  module _ (request : Request) (since : Timestamp) (rows rows' : Table Response)
      (keyed : IsKeyed rows) (made : create request since rows ≡ ok rows')
      (ss : List (Statement Response))
      (spared : All (Spares request.user_id request.key (since + ttl)) ss) where
    created :
        (find (of_owner request.user_id request.key) rows' ≡ some (reservation request since))
        × IsKeyed rows'
    unfolding create
    created = elim (Option-cases (find (of_owner request.user_id request.key) rows)) [
      | inr (row, found) ↦ let e = rw (create, found) at made in absurd (cc)
      | inl absent ↦
          let e : ok (rows ++ (reservation request since ∷ [])) ≡ ok rows' =
            rw (create, absent) at made in
          (
            subst
                (λ x.
                  find (of_owner request.user_id request.key) x ≡ some (reservation request since))
                (ok-injective e)
                (find-append_none (of_owner request.user_id request.key) (reservation request since)
                  rows absent (ground arith)),
            subst IsKeyed (ok-injective e) (create-IsKeyed ttl request since rows absent keyed),
          )
    ]

    held :
        find (of_owner request.user_id request.key) (apply_all ttl ss rows')
        ≡ some (reservation request since)
    held =
        apply_all-find ttl request.user_id request.key (reservation request since) ss rows'
          (All-map (Spares request.user_id request.key (since + ttl))
            (Untouched ttl request.user_id request.key (reservation request since)) ss
            (Spares-Untouched request since) spared)
          created.0

    held-IsKeyed : IsKeyed (apply_all ttl ss rows')
    held-IsKeyed = apply_all-IsKeyed ttl ss rows' created.1

    held_view : view request.user_id request.key (apply_all ttl ss rows') ≡ running request since
    unfolding view cell_with
    held_view = rw held refl

    -- After a request has created its reservation, and while the statements of other requests, in any
    -- order, neither complete nor release the key nor clear it after the limit, no request of that key
    -- can create a reservation, and until the limit each one that tries to reserve the key is refused.
    pub one_runner :
        (again : Request) (now : Timestamp)
        → again.user_id ≡ request.user_id
        → again.key ≡ request.key
        → now ≤ since + ttl
        → (create again now (apply_all ttl ss rows') ≡ err (unique_violation "idempotency_keys"))
          × ((e : DomainError) × ((reserve ttl again now (apply_all ttl ss rows')).0 ≡ err e))
    unfolding create reserve_cell
    one_runner again now same_user same_key early =
        let there : find (of_owner again.user_id again.key) (apply_all ttl ss rows')
            ≡ some (reservation request since) =
          rw (same_user, same_key) held in
        let seen : view again.user_id again.key (apply_all ttl ss rows') ≡ running request since =
          rw (same_user, same_key) held_view in
        let answer = (reserve-reserve_cell ttl again now (apply_all ttl ss rows') held-IsKeyed).0 in
        let fresh : is_stale ttl now since ≡ false = ground arith in
        (
          rw (create, there) refl,
          elim (verdict again request) [
            | inr (e, told, refused) ↦ (e, answer ∙ rw (seen, reserve_cell, told) refl)
            | inl (same, passed) ↦ (
              conflict "A request with this idempotency key is in progress",
              answer ∙ rw (seen, reserve_cell, same, fresh) refl,
            )
          ],
        )

    -- Where the run was abandoned instead, the same request runs again as soon as the limit has passed,
    -- and holds the key.
    pub retry_runs :
        (now : Timestamp)
        → since + ttl < now
        → ((reserve ttl request now (apply_all ttl ss rows')).0 ≡ ok runs)
          × (view request.user_id request.key (reserve ttl request now (apply_all ttl ss rows')).1
              ≡ running request now)
    unfolding reserve_cell
    retry_runs now late =
        let answer = reserve-reserve_cell ttl request now (apply_all ttl ss rows') held-IsKeyed in
        let stale : is_stale ttl now since ≡ true = ground arith in
        let next : reserve_cell ttl request now (running request since)
            ≡ (ok runs, running request now) =
          rw (reserve_cell, mismatch-itself request, stale) refl in
        (answer.0 ∙ rw held_view (ap (λ t. t.0) next), answer.1 ∙ rw held_view (ap (λ t. t.1) next))

  -- Once the run of a key has completed with a response, and while the statements of other requests
  -- keep it, the same request is answered with that response and status, and nothing runs.
  pub reserve-complete :
      (request : Request) (response : Response) (status : ℕ) (at now : Timestamp)
      (row : IdempotencyKey Response) (rows rows' : Table Response) (ss : List (Statement Response))
      → IsKeyed rows
      → find (of_owner request.user_id request.key) rows ≡ some row
      → owner_of row ≡ request
      → complete request.user_id request.key (some response) status at rows ≡ ok rows'
      → All (Keeps request.user_id request.key at) ss
      → (reserve ttl request now (apply_all ttl ss rows')).0 ≡ ok (replays response status)
  unfolding complete view cell_with reserve_cell apply
  reserve-complete request response status at now row rows rows' ss keyed there same done kept =
      let row' = completed (some response) status at row in
      let u = request.user_id in
      let k = request.key in
      let e : ok (update_first (of_owner u k) (completed (some response) status at) rows)
          ≡ ok rows' =
        rw (complete, there) at done in
      let found : find (of_owner u k) rows' ≡ some row' =
        subst (λ x. find (of_owner u k) x ≡ some row') (ok-injective e)
          (find-update_same (of_owner u k) (completed (some response) status at) row rows there
            (find-holds (of_owner u k) row rows there)) in
      let applied : apply ttl (completes u k (some response) status at) rows ≡ rows' =
        rw (apply, done) refl in
      let keyed' : IsKeyed rows' =
        subst IsKeyed applied
          (apply-IsKeyed ttl (completes u k (some response) status at) rows keyed) in
      let last : find (of_owner u k) (apply_all ttl ss rows') ≡ some row' =
        apply_all-find ttl u k row' ss rows'
          (All-map (Keeps u k at) (Untouched ttl u k row') ss
            (Keeps-Untouched u k at response status row) kept)
          found in
      let seen : view u k (apply_all ttl ss rows') ≡ finished request response status (some at) =
        rw (view, last, cell_with) (ap (λ o. finished o response status (some at)) same) in
      (reserve-reserve_cell ttl request now (apply_all ttl ss rows')
        (apply_all-IsKeyed ttl ss rows' keyed')).0
      ∙ rw (seen, reserve_cell, mismatch-itself request) refl
