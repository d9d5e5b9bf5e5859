-- ===== src/Tests/Idempotency.antt =====
-- The idempotency theorems on one key: a request runs, another tries the key, a response is stored.
use accounting_api.Common.{ℕ, ◌≡◌, refl, some, List, [], ◌∷◌, arith, All}
use accounting_api.Errors.{DomainError, ok, err, unique_violation}
use accounting_api.Idempotency.{
  Request, runs, replays, Table, reservation, create, reserve, complete, completed,
}
use accounting_api.Idempotency.Cells.{running, view, IsKeyed, reserve_cell}
use accounting_api.Idempotency.Reserve.{reserve-reserve_cell}
use accounting_api.Idempotency.Statements.{Statement, creates, releases, purges, clears, apply_all}
use accounting_api.Idempotency.Runs.{Spares, Keeps, one_runner, retry_runs, reserve-complete}

-- A response is a number here.
abbrev request : Request
request = record { user_id = 1; key = 5; method = 2; path = 3; request_hash = 99 }

abbrev other_body : Request
other_body = record { user_id = 1; key = 5; method = 2; path = 3; request_hash = 98 }

abbrev other_key : Request
other_key = record { user_id = 1; key = 6; method = 2; path = 3; request_hash = 99 }

abbrev reserved : Table ℕ
reserved = reservation request 1000 ∷ []

create-first : create {Response = ℕ} request 1000 [] ≡ ok reserved
unfolding create
create-first = refl

empty-IsKeyed : IsKeyed {Response = ℕ} []
empty-IsKeyed user_id key = omega arith

abbrev others : List (Statement ℕ)
others = creates other_key 1010 ∷ releases 1 6 ∷ clears 1 5 1050 ∷ purges 10 1060 ∷ []

abbrev ttl : ℕ
ttl = 120

others-Spares : All (Spares {Response = ℕ} 1 5 1120) others
unfolding Spares
others-Spares = (tt, (refl, (λ h. omega arith, (tt, tt))))

one_runner_example :
    (create other_body 1100 (apply_all ttl others reserved)
      ≡ err (unique_violation "idempotency_keys"))
    × ((e : DomainError) × ((reserve ttl other_body 1100 (apply_all ttl others reserved)).0
          ≡ err e))
one_runner_example =
    one_runner ttl request 1000 [] reserved empty-IsKeyed create-first others others-Spares
      other_body 1100 refl refl (omega arith)

retry_runs_example :
    ((reserve ttl request 1200 (apply_all ttl others reserved)).0 ≡ ok runs)
    × (view 1 5 (reserve ttl request 1200 (apply_all ttl others reserved)).1 ≡ running request 1200)
retry_runs_example =
    retry_runs ttl request 1000 [] reserved empty-IsKeyed create-first others others-Spares 1200
      (omega arith)

reserved-IsKeyed : IsKeyed reserved
reserved-IsKeyed user_id key = ground arith

reserve-reserve_cell_example :
    ((reserve ttl request 1010 reserved).0 ≡ (reserve_cell ttl request 1010 (view 1 5 reserved)).0)
    × (view 1 5 (reserve ttl request 1010 reserved).1
        ≡ (reserve_cell ttl request 1010 (view 1 5 reserved)).1)
reserve-reserve_cell_example = reserve-reserve_cell ttl request 1010 reserved reserved-IsKeyed

abbrev answered : Table ℕ
answered = completed (some 42) 201 1050 (reservation request 1000) ∷ []

complete-first : complete 1 5 (some 42) 201 1050 reserved ≡ ok answered
unfolding complete
complete-first = refl

abbrev later : List (Statement ℕ)
later = creates other_key 1010 ∷ clears 1 5 5000 ∷ purges 86400 6000 ∷ []

later-Keeps : All (Keeps {Response = ℕ} 1 5 1050) later
unfolding Keeps
later-Keeps = (tt, (tt, (omega arith, tt)))

reserve-complete_example :
    (reserve ttl request 7000 (apply_all ttl later answered)).0 ≡ ok (replays 42 201)
reserve-complete_example =
    reserve-complete ttl request 42 201 1050 7000 (reservation request 1000) reserved answered later
      reserved-IsKeyed refl refl complete-first later-Keeps
