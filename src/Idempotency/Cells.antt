-- ===== src/Idempotency/Cells.antt =====
-- The table of keys as a map: each key of a user is a cell, on which a reservation is a state machine.
use accounting_api.Common.{
  ℕ, ◌+◌, ◌≤◌, Bool, ◌&&◌, ◌==◌, ltb, Option, none, some, find, count, if◌then◌else◌,
}
use accounting_api.Errors.{Result, ok, err, conflict}
use accounting_api.Store.{Timestamp}
use accounting_api.Idempotency.Owner.{mismatch}
use accounting_api.Idempotency.{IdempotencyKey, Request, ReserveResult, runs, replays, Table}

-- What a key answers that is neither free, nor replayed, nor run again.
abbrev busy {ℓ} : {A : Type ℓ} → Result A
busy = err (conflict "A request with this idempotency key is in progress")

-- A stuck cell is completed without a response: it is neither replayed nor reclaimed.
pub data Cell (Response : Type 0) : Type 0 where
  free : Cell Response
  running : Request → Timestamp → Cell Response
  finished : Request → Response → ℕ → Option Timestamp → Cell Response
  stuck : Request → Option Timestamp → Cell Response

module _ {Response : Type 0} where
  -- `reserve` on one cell.
  unfoldable pub reserve_cell :
      ℕ → Request → Timestamp → Cell Response → Result (ReserveResult Response) × Cell Response
  reserve_cell ttl request now free = (ok runs, running request now)
  reserve_cell ttl request now (running owner since) = elim (mismatch request owner) [
    | some e ↦ (err e, running owner since)
    | none ↦
        if ltb (since + ttl) now
        then (ok runs, running request now)
        else (busy, running owner since)
  ]
  reserve_cell ttl request now (finished owner response http_status at) =
      elim (mismatch request owner) [
        | some e ↦ (err e, finished owner response http_status at)
        | none ↦ (ok (replays response http_status), finished owner response http_status at)
      ]
  reserve_cell ttl request now (stuck owner at) = elim (mismatch request owner) [
    | some e ↦ (err e, stuck owner at)
    | none ↦ (busy, stuck owner at)
  ]

  abbrev pub owner_of : IdempotencyKey Response → Request
  owner_of row = record {
    user_id = row.user_id;
    key = row.key;
    method = row.method;
    path = row.path;
    request_hash = row.request_hash;
  }

  unfoldable pub cell_with :
      Request → Timestamp → Option Response → Option ℕ → Option Timestamp → Cell Response
  cell_with owner since (some response) (some http_status) at =
      finished owner response http_status at
  cell_with owner since (some response) none at = stuck owner at
  cell_with owner since none http_status none = running owner since
  cell_with owner since none http_status (some at) = stuck owner (some at)

  abbrev pub cell_of : IdempotencyKey Response → Cell Response
  cell_of row =
      cell_with (owner_of row) row.created_at row.response row.http_status row.completed_at

  abbrev pub cell_at : Option (IdempotencyKey Response) → Cell Response
  cell_at none = free
  cell_at (some row) = cell_of row

  abbrev is_row_of : ℕ → ℕ → IdempotencyKey Response → Bool
  is_row_of user_id key row = (row.user_id == user_id) && (row.key == key)

  -- The abstraction function.
  unfoldable pub view : ℕ → ℕ → Table Response → Cell Response
  view user_id key rows = cell_at (find (is_row_of user_id key) rows)

  -- No two rows of one key.
  abbrev pub IsKeyed : Table Response → Type 0
  IsKeyed rows = (user_id key : ℕ) → count (is_row_of user_id key) rows ≤ 1
