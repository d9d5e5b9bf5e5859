-- ===== src/Idempotency/Reserve.antt =====
-- `reserve` on the table does what the state machine of its key does.
use accounting_api.Common.{
  ℕ, ◌≤◌, ◌≡◌, refl, ◌∙◌, true, false, not, Option, none, some, [], ◌∷◌, ◌++◌, find, count,
  find-append_none, find-filter_drop, find_narrower, find_narrower_none, find-holds, arith,
  Option-cases, Bool-cases, inl, inr,
}
use accounting_api.Errors.{DomainError, unique_violation, Result, ok, err}
use accounting_api.Store.{Timestamp}
use accounting_api.Idempotency.{
  IdempotencyKey, Request, ReserveResult, runs, replays, replay, reclaim, Table, of_owner,
  reservation, create, is_stale, in_progress, stored_response, resolve_existing, is_abandoned,
  clear_abandoned, reserve_again, reserve,
}
use accounting_api.Idempotency.Owner.{verdict}
use accounting_api.Idempotency.Cells.{running, reserve_cell, cell_with, cell_of, view, IsKeyed}

owned :
    (Response : Type 0) (request : Request) (now : Timestamp)
    → of_owner {Response = Response} request.user_id request.key (reservation request now) ≡ true
owned Response request now = ground arith

module _ {Response : Type 0} where
  -- Where no row has the key.
  create-view :
      (request : Request) (now : Timestamp) (rows : Table Response)
      → find (of_owner request.user_id request.key) rows ≡ none
      → (create request now rows ≡ ok (rows ++ (reservation request now ∷ [])))
        × (view request.user_id request.key (rows ++ (reservation request now ∷ []))
            ≡ running request now)
  unfolding create view cell_with
  create-view request now rows h = (
    rw (create, h) refl,
    rw
        (find-append_none (of_owner request.user_id request.key) (reservation request now) rows h
          (owned Response request now))
        refl,
  )

  -- What `reserve` does to the key of its request.
  abbrev Refines : ℕ → Request → Timestamp → Table Response → Type 0
  Refines ttl request now rows =
      ((reserve ttl request now rows).0
        ≡ (reserve_cell ttl request now (view request.user_id request.key rows)).0)
      × (view request.user_id request.key (reserve ttl request now rows).1
          ≡ (reserve_cell ttl request now (view request.user_id request.key rows)).1)

  reserve-free :
      (ttl : ℕ) (request : Request) (now : Timestamp) (rows : Table Response)
      → find (of_owner request.user_id request.key) rows ≡ none
      → Refines ttl request now rows
  unfolding reserve view reserve_cell
  reserve-free ttl request now rows h =
      let made = create-view request now rows h in
      rw (reserve, made.0) (rw h refl, made.1 ∙ rw h refl)

  -- Where a row has it.
  module _ (ttl : ℕ) (request : Request) (now : Timestamp) (rows : Table Response) where
    create-taken :
        (row : IdempotencyKey Response)
        → find (of_owner request.user_id request.key) rows ≡ some row
        → create request now rows ≡ err (unique_violation "idempotency_keys")
    unfolding create
    create-taken row h = rw (create, h) refl

    reserve-refused :
        (row : IdempotencyKey Response) (e : DomainError)
        → find (of_owner request.user_id request.key) rows ≡ some row
        → resolve_existing ttl request now true (some row) ≡ err e
        → reserve ttl request now rows ≡ (err e, rows)
    unfolding reserve
    reserve-refused row e h refused = rw (reserve, create-taken row h, h, refused) refl

    reserve-replayed :
        (row : IdempotencyKey Response) (response : Response) (status : ℕ)
        → find (of_owner request.user_id request.key) rows ≡ some row
        → resolve_existing ttl request now true (some row) ≡ ok (replay response status)
        → reserve ttl request now rows ≡ (ok (replays response status), rows)
    unfolding reserve
    reserve-replayed row response status h found = rw (reserve, create-taken row h, h, found) refl

    reserve-unclaimed :
        (row : IdempotencyKey Response)
        → find (of_owner request.user_id request.key) rows ≡ some row
        → resolve_existing ttl request now true (some row) ≡ ok reclaim
        → find (is_abandoned ttl request.user_id request.key now) rows ≡ none
        → reserve ttl request now rows ≡ (in_progress, rows)
    unfolding reserve
    reserve-unclaimed row h found nothing = rw (reserve, create-taken row h, h, found, nothing) refl

    reserve-reclaimed :
        (row abandoned : IdempotencyKey Response)
        → find (of_owner request.user_id request.key) rows ≡ some row
        → resolve_existing ttl request now true (some row) ≡ ok reclaim
        → find (is_abandoned ttl request.user_id request.key now) rows ≡ some abandoned
        → find
            (of_owner request.user_id request.key)
            (clear_abandoned ttl request.user_id request.key now rows)
          ≡ none
        → reserve ttl request now rows ≡ (
          ok runs,
          clear_abandoned ttl request.user_id request.key now rows
              ++ (reservation request now ∷ []),
        )
    unfolding reserve reserve_again
    reserve-reclaimed row abandoned h found there gone =
        rw
          (
            reserve,
            create-taken row h,
            h,
            found,
            there,
            reserve_again,
            (create-view request now (clear_abandoned ttl request.user_id request.key now rows)
                gone).0,
          )
          refl

    -- A result that leaves the table as it was.
    unchanged :
        (row : IdempotencyKey Response) (out : Result (ReserveResult Response))
        → find (of_owner request.user_id request.key) rows ≡ some row
        → reserve ttl request now rows ≡ (out, rows)
        → reserve_cell ttl request now (cell_of row) ≡ (out, cell_of row)
        → Refines ttl request now rows
    unfolding view
    unchanged row out h concrete abstract = rw (concrete, h, abstract) (refl, refl)

    module _ (row : IdempotencyKey Response)
        (found : find (of_owner request.user_id request.key) rows ≡ some row)
        (one : count (of_owner request.user_id request.key) rows ≤ 1) where
      none_abandoned :
          is_abandoned ttl request.user_id request.key now row ≡ false
          → find (is_abandoned ttl request.user_id request.key now) rows ≡ none
      none_abandoned kept =
          find_narrower_none (is_abandoned ttl request.user_id request.key now)
            (of_owner request.user_id request.key) (λ x h. ground arith) row rows one found kept

      reclaimed :
          is_abandoned ttl request.user_id request.key now row ≡ true
          → resolve_existing ttl request now true (some row) ≡ ok reclaim
          → reserve_cell ttl request now (cell_of row) ≡ (ok runs, running request now)
          → Refines ttl request now rows
      unfolding view clear_abandoned
      reclaimed gone resolved abstract =
          let there =
            find_narrower (is_abandoned ttl request.user_id request.key now)
              (of_owner request.user_id request.key) (λ x h. ground arith) row rows found gone in
          let cleared : find (of_owner request.user_id request.key)
                (clear_abandoned ttl request.user_id request.key now rows)
              ≡ none =
            find-filter_drop (of_owner request.user_id request.key)
              (λ x. not (is_abandoned ttl request.user_id request.key now x)) row rows one found
              (rw gone refl) in
          let made =
            create-view request now (clear_abandoned ttl request.user_id request.key now rows)
              cleared in
          rw (reserve-reclaimed row row found resolved there cleared, found, abstract)
            (refl, made.1)

    row-Refines :
        (id key method path hash : ℕ) (response : Option Response) (status : Option ℕ)
        (since : Timestamp) (at : Option Timestamp)
        → count (of_owner request.user_id request.key) rows ≤ 1
        → find (of_owner request.user_id request.key) rows
          ≡ some (record {
            user_id = id;
            key = key;
            method = method;
            path = path;
            request_hash = hash;
            response = response;
            http_status = status;
            created_at = since;
            completed_at = at;
          })
        → Refines ttl request now rows
    unfolding cell_with reserve_cell resolve_existing stored_response
    row-Refines id key method path hash (some response) (some status) since at one h =
        elim (verdict request
          (record { user_id = id; key = key; method = method; path = path; request_hash = hash })) [
            | inr (e, told, refused) ↦
                unchanged _ (err e) h (reserve-refused _ e h (rw refused refl))
                  (rw (reserve_cell, told) refl)
            | inl (same, passed) ↦
                unchanged _ (ok (replays response status)) h
                  (reserve-replayed _ response status h (rw passed refl))
                  (rw (reserve_cell, same) refl)
          ]
    row-Refines id key method path hash (some response) none since at one h =
        elim (verdict request
          (record { user_id = id; key = key; method = method; path = path; request_hash = hash })) [
            | inr (e, told, refused) ↦
                unchanged _ (err e) h (reserve-refused _ e h (rw refused refl))
                  (rw (reserve_cell, told) refl)
            | inl (same, passed) ↦
                unchanged _ in_progress h
                  (elim (Bool-cases (is_stale ttl now since)) [
                    | inl stale ↦
                        reserve-unclaimed _ h (rw (passed, stale) refl)
                          (none_abandoned _ h one (ground arith))
                    | inr fresh ↦ reserve-refused _ _ h (rw (passed, fresh) refl)
                  ])
                  (rw (reserve_cell, same) refl)
          ]
    row-Refines id key method path hash none status since none one h =
        elim (verdict request
          (record { user_id = id; key = key; method = method; path = path; request_hash = hash })) [
            | inr (e, told, refused) ↦
                unchanged _ (err e) h (reserve-refused _ e h (rw refused refl))
                  (rw (reserve_cell, told) refl)
            | inl (same, passed) ↦ elim (Bool-cases (is_stale ttl now since)) [
              | inl stale ↦
                  let own = find-holds (of_owner request.user_id request.key) _ rows h in
                  reclaimed _ h one (ground arith) (rw (passed, stale) refl)
                    (rw (reserve_cell, same, stale) refl)
              | inr fresh ↦
                  unchanged _ in_progress h (reserve-refused _ _ h (rw (passed, fresh) refl))
                    (rw (reserve_cell, same, fresh) refl)
            ]
          ]
    row-Refines id key method path hash none status since (some at) one h =
        elim (verdict request
          (record { user_id = id; key = key; method = method; path = path; request_hash = hash })) [
            | inr (e, told, refused) ↦
                unchanged _ (err e) h (reserve-refused _ e h (rw refused refl))
                  (rw (reserve_cell, told) refl)
            | inl (same, passed) ↦
                unchanged _ in_progress h
                  (elim (Bool-cases (is_stale ttl now since)) [
                    | inl stale ↦
                        reserve-unclaimed _ h (rw (passed, stale) refl)
                          (none_abandoned _ h one (ground arith))
                    | inr fresh ↦ reserve-refused _ _ h (rw (passed, fresh) refl)
                  ])
                  (rw (reserve_cell, same) refl)
          ]

  -- Where no key has two rows, `reserve` answers as the cell of its key does and leaves that cell in
  -- its next state: a free key runs; a key of another endpoint or body is refused; a key of the same
  -- ones runs if its reservation is older than the limit, is replayed if it is finished, and is refused
  -- otherwise.
  pub reserve-reserve_cell :
      (ttl : ℕ) (request : Request) (now : Timestamp) (rows : Table Response)
      → IsKeyed rows
      → ((reserve ttl request now rows).0
          ≡ (reserve_cell ttl request now (view request.user_id request.key rows)).0)
        × (view request.user_id request.key (reserve ttl request now rows).1
            ≡ (reserve_cell ttl request now (view request.user_id request.key rows)).1)
  reserve-reserve_cell ttl request now rows keyed =
      elim (Option-cases (find (of_owner request.user_id request.key) rows)) [
        | inl absent ↦ reserve-free ttl request now rows absent
        | inr (row, found) ↦
            row-Refines ttl request now rows row.user_id row.key row.method row.path
              row.request_hash row.response row.http_status row.created_at row.completed_at
              (keyed request.user_id request.key) found
      ]
