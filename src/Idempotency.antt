-- ===== src/Idempotency.antt =====
-- Idempotency keys (src/common/idempotency/idempotency.service.ts): a key of a user lets one request
-- run, and then replays its response. Keys, methods, paths and hashes are numbers, since they are
-- only compared, and times are those of one clock. Each access to the table is one SQL statement. A
-- null response is `none`: SQL NULL and the JSON null both read as null.

pub mod Owner
pub mod Cells
pub mod Reserve
pub mod Statements
pub mod Runs
use accounting_api.Common.{
  ℕ, ◌+◌, Bool, true, false, ◌&&◌, ◌||◌, not, Option, none, some, List, [], ◌∷◌, ◌++◌, ◌==◌, ltb,
  find, filter, length, update_first, if◌then◌else◌,
}
use accounting_api.Errors.{
  Result, ok, err, ◌>>◌, throw_if, conflict, validation_failed, unique_violation, record_not_found,
}
use accounting_api.Store.{Timestamp, is_none, is_some}

pub record IdempotencyKey (Response : Type 0) : Type 0 where
  pub user_id : ℕ
  pub key : ℕ
  pub method : ℕ
  pub path : ℕ
  pub request_hash : ℕ
  pub response : Option Response
  pub http_status : Option ℕ
  pub created_at : Timestamp
  pub completed_at : Option Timestamp

-- The arguments of `reserve`.
pub record Request : Type 0 where
  pub user_id : ℕ
  pub key : ℕ
  pub method : ℕ
  pub path : ℕ
  pub request_hash : ℕ

pub data ReserveResult (Response : Type 0) : Type 0 where
  runs : ReserveResult Response
  replays : Response → ℕ → ReserveResult Response

-- What `resolveExisting` makes of the row: a replay, or an attempt to reclaim the reservation.
pub data Resolution (Response : Type 0) : Type 0 where
  replay : Response → ℕ → Resolution Response
  reclaim : Resolution Response

-- What the interceptor (src/common/idempotency/idempotency.interceptor.ts) answers.
pub data Answer (Response : Type 0) : Type 0 where
  stored : Response → ℕ → Answer Response
  handled : Option Response → Answer Response

abbrev pub Table : Type 0 → Type 0
Table Response = List (IdempotencyKey Response)

-- `Date.now() - createdAt > ttl`.
abbrev pub is_stale : ℕ → Timestamp → Timestamp → Bool
is_stale ttl now created_at = ltb (created_at + ttl) now

abbrev pub in_progress {ℓ} : {A : Type ℓ} → Result A
in_progress = err (conflict "A request with this idempotency key is in progress")

-- The tests on the endpoint and on the body.
unfoldable pub check_same : Request → ℕ → ℕ → ℕ → Result (Unit {0})
check_same request method path request_hash = do
  throw_if (not (method == request.method) || not (path == request.path))
      (validation_failed "Idempotency-Key already used for a different endpoint")
  throw_if (not (request_hash == request.request_hash))
      (validation_failed "Idempotency-Key already used with a different request body")

module _ {Response : Type 0} where
  -- The primary key.
  abbrev pub of_owner : ℕ → ℕ → IdempotencyKey Response → Bool
  of_owner user_id key row = (row.user_id == user_id) && (row.key == key)

  abbrev pub reservation : Request → Timestamp → IdempotencyKey Response
  reservation request now = record {
    user_id = request.user_id;
    key = request.key;
    method = request.method;
    path = request.path;
    request_hash = request.request_hash;
    response = none;
    http_status = none;
    created_at = now;
    completed_at = none;
  }

  -- `idempotencyKey.create`.
  unfoldable pub create : Request → Timestamp → Table Response → Result (Table Response)
  create request now rows = elim (find (of_owner request.user_id request.key) rows) [
    | none ↦ ok (rows ++ (reservation request now ∷ []))
    | some row ↦ err (unique_violation "idempotency_keys")
  ]

  -- The stored response, or what to do without one.
  unfoldable pub stored_response :
      ℕ → Timestamp → Bool → Timestamp → Option Response → Option ℕ → Result (Resolution Response)
  stored_response ttl now allow_reclaim created_at (some response) (some http_status) =
      ok (replay response http_status)
  stored_response ttl now allow_reclaim created_at none http_status =
      if allow_reclaim && is_stale ttl now created_at then ok reclaim else in_progress
  stored_response ttl now allow_reclaim created_at (some response) none =
      if allow_reclaim && is_stale ttl now created_at then ok reclaim else in_progress

  unfoldable pub resolve_existing :
      ℕ
      → Request
      → Timestamp
      → Bool
      → Option (IdempotencyKey Response)
      → Result (Resolution Response)
  unfolding check_same stored_response
  resolve_existing ttl request now allow_reclaim none = in_progress
  resolve_existing ttl request now allow_reclaim (some row) = do
    check_same request row.method row.path row.request_hash
    stored_response ttl now allow_reclaim row.created_at row.response row.http_status

  -- The WHERE clause of the reclaim.
  abbrev pub is_abandoned : ℕ → ℕ → ℕ → Timestamp → IdempotencyKey Response → Bool
  is_abandoned ttl user_id key now row =
      of_owner user_id key row
      && (is_none row.response && (is_none row.completed_at && ltb (row.created_at + ttl) now))

  -- `deleteMany` of an abandoned reservation.
  unfoldable pub clear_abandoned : ℕ → ℕ → ℕ → Timestamp → Table Response → Table Response
  clear_abandoned ttl user_id key now rows =
      filter (λ row. not (is_abandoned ttl user_id key now row)) rows

  -- `reserveOnce` after a reclaim, which it does not try again.
  unfoldable pub reserve_again :
      ℕ → Request → Timestamp → Table Response → Result (ReserveResult Response) × Table Response
  unfolding create resolve_existing
  reserve_again ttl request now rows = elim (create request now rows) [
    | ok rows' ↦ (ok runs, rows')
    | err e ↦
        elim (resolve_existing ttl request now false
          (find (of_owner request.user_id request.key) rows)) [
            | ok r ↦ elim r [
              | replay response http_status ↦ (ok (replays response http_status), rows)
              | reclaim ↦ (in_progress, rows)
            ]
            | err e' ↦ (err e', rows)
          ]
  ]

  -- `reserve`, with no other request between its statements.
  unfoldable pub reserve :
      ℕ → Request → Timestamp → Table Response → Result (ReserveResult Response) × Table Response
  unfolding create resolve_existing clear_abandoned reserve_again
  reserve ttl request now rows = elim (create request now rows) [
    | ok rows' ↦ (ok runs, rows')
    | err e ↦
        elim (resolve_existing ttl request now true
          (find (of_owner request.user_id request.key) rows)) [
            | ok r ↦ elim r [
              | replay response http_status ↦ (ok (replays response http_status), rows)
              | reclaim ↦
                  if is_some (find (is_abandoned ttl request.user_id request.key now) rows)
                  then reserve_again ttl request now
                      (clear_abandoned ttl request.user_id request.key now rows)
                  else (in_progress, rows)
            ]
            | err e' ↦ (err e', rows)
          ]
  ]

  abbrev pub completed :
      Option Response → ℕ → Timestamp → IdempotencyKey Response → IdempotencyKey Response
  completed response http_status now row = record row {
    response = response;
    http_status = some http_status;
    completed_at = some now;
  }

  unfoldable pub complete :
      ℕ → ℕ → Option Response → ℕ → Timestamp → Table Response → Result (Table Response)
  complete user_id key response http_status now rows =
      if is_some (find (of_owner user_id key) rows)
      then ok (update_first (of_owner user_id key) (completed response http_status now) rows)
      else err (record_not_found "idempotency_keys")

  -- `delete`, whose error is dropped.
  unfoldable pub release : ℕ → ℕ → Table Response → Table Response
  release user_id key rows = filter (λ row. not (of_owner user_id key row)) rows

  abbrev pub is_expired : ℕ → Timestamp → IdempotencyKey Response → Bool
  is_expired older_than now row = elim row.completed_at [
    | none ↦ false
    | some at ↦ ltb (at + older_than) now
  ]

  -- The rows left, and how many were deleted.
  unfoldable pub purge_completed : ℕ → Timestamp → Table Response → ℕ × Table Response
  purge_completed older_than now rows = (
    length (filter (is_expired older_than now) rows),
    filter (λ row. not (is_expired older_than now row)) rows,
  )

  -- After the handler: its result is stored, and any error, of the handler or of `complete`, releases
  -- the key and is thrown again.
  unfoldable pub after_handler :
      ℕ
      → ℕ
      → ℕ
      → Timestamp
      → Result (Option Response)
      → Table Response
      → Result (Answer Response) × Table Response
  unfolding complete release
  after_handler user_id key http_status now (err e) rows = (err e, release user_id key rows)
  after_handler user_id key http_status now (ok value) rows =
      elim (complete user_id key value http_status now rows) [
        | ok rows' ↦ (ok (handled value), rows')
        | err e ↦ (err e, release user_id key rows)
      ]

  -- `intercept` on a valid key, with what the handler returns; other requests may change the table
  -- while it runs.
  unfoldable pub intercept :
      ℕ
      → Request
      → ℕ
      → Timestamp
      → (Table Response → Result (Option Response) × Table Response)
      → Table Response
      → Result (Answer Response) × Table Response
  unfolding reserve after_handler
  intercept ttl request http_status now handler rows =
      let reserved = reserve ttl request now rows in
      elim reserved.0 [
        | err e ↦ (err e, reserved.1)
        | ok r ↦ elim r [
          | replays response status ↦ (ok (stored response status), reserved.1)
          | runs ↦
              let run = handler reserved.1 in
              after_handler request.user_id request.key http_status now run.0 run.1
        ]
      ]
