-- ===== src/Tests/Runs.antt =====
-- The worker's theorems on a workbook of two chunks.
use fastapi_shipment_import.Session.{Result, ok, raised}
use fastapi_shipment_import.Models.{Db}
use fastapi_shipment_import.Worker.Rely.{Respects}
use fastapi_shipment_import.Base.{Option, ◌≡◌, refl, ℕ, arith}
use fastapi_shipment_import.Repositories.Claims.{ClaimedImport, claim_pending_import}
use fastapi_shipment_import.Worker.Others.{Steps, claims, done, then, Steps-Respects}
use fastapi_shipment_import.Base.{ℕ}
use fastapi_shipment_import.Base.{refl, arith, false}
use fastapi_shipment_import.Service.{World, Env}
use fastapi_shipment_import.Validation.Generator.{row_validation_service, iter_validated_chunks}
use fastapi_shipment_import.Services.Process.{process_claimed, run}
use fastapi_shipment_import.Worker.Run.{ClaimedOutcome, process_claimed-outcome}
use fastapi_shipment_import.Worker.Whole.{run-outcome}
use fastapi_shipment_import.Services.Tasks.{process_import_task}
use fastapi_shipment_import.Worker.Task.{TaskOutcome, process_import_task-outcome}
use fastapi_shipment_import.Tests.Data.{settings}
use fastapi_shipment_import.Base.{none}
use fastapi_shipment_import.Worker.Failures.{RunOutcome}
use fastapi_shipment_import.Worker.Race.{race-outcome, RaceOutcome}
use fastapi_shipment_import.Worker.Loop.{ChunkOutcome, process_next_chunk-outcome}
use fastapi_shipment_import.Worker.Outcome.{LoopOutcome, process_chunks-outcome}
use fastapi_shipment_import.Services.Process.{
  no_counts, persist_chunk_after_duplicate_race, process_next_chunk, process_chunks,
}
use fastapi_shipment_import.Tests.Data.{
  waiting_job, owned_job, db_of, claim_of_7, waiting-IsSound, owned-IsSound, quiet, service,
  starting_at, one_row, one_row-IsSound, owned-Inv,
}

abbrev owned_world : World
owned_world = starting_at (db_of owned_job)

-- Another worker claims import 2, where it is there, between the transactions.
abbrev committed : {A : Type 0} → Result (A × Db) → Db → Db
committed (ok r) db = r.1
committed (raised e) db = db

abbrev other_claim : Db → Result (Option ClaimedImport × Db)
other_claim = claim_pending_import (λ i. false) 15 2 8 "other"

abbrev busy : Env
busy = record quiet { interfere = λ k db. committed (other_claim db) db }

busy-Steps : (k : ℕ) (db : Db) → Steps 7 db (busy.interfere k db)
busy-Steps k db = by_result (other_claim db) refl
  where
    by_result :
        (r : Result (Option ClaimedImport × Db)) → other_claim db ≡ r → Steps 7 db (committed r db)
    by_result (ok (a, db')) e =
        then db db' db'
          (claims (λ i. false) 15 2 8 "other" a db db' (λ q. absurd (omega (arith, q))) e)
          (done db')
    by_result (raised x) e = done db

busy-Respects : Respects busy 1 7
busy-Respects = Steps-Respects busy 1 7 busy-Steps

Steps-Respects_example : Respects busy 1 7
Steps-Respects_example = Steps-Respects busy 1 7 busy-Steps

process_claimed-outcome_example :
    ClaimedOutcome claim_of_7
      (service 1)
      busy
      busy-Respects
      (process_claimed busy (service 1) claim_of_7 owned_world).0
      (process_claimed busy (service 1) claim_of_7 owned_world).1
process_claimed-outcome_example =
    process_claimed-outcome claim_of_7 (service 1) busy busy-Respects owned_world owned-IsSound

run-outcome_example :
    RunOutcome
      (run busy (service 1) (λ i. false) 7 "worker" (starting_at (db_of waiting_job))).0
      (run busy (service 1) (λ i. false) 7 "worker" (starting_at (db_of waiting_job))).1
run-outcome_example =
    run-outcome busy 1 7 busy-Respects (service 1) (λ i. false) "worker"
      (starting_at (db_of waiting_job)) waiting-IsSound

abbrev pending_workbook : (service 1).Pending
pending_workbook = (service 1).start "imports/1.xlsx"

race-outcome_example :
    RaceOutcome claim_of_7 no_counts 1
      (persist_chunk_after_duplicate_race busy
        (service 1)
        claim_of_7
        2
        pending_workbook
        one_row
        owned_world).0
      (persist_chunk_after_duplicate_race busy
        (service 1)
        claim_of_7
        2
        pending_workbook
        one_row
        owned_world).1
unfolding service row_validation_service iter_validated_chunks
race-outcome_example =
    race-outcome claim_of_7 busy (service 1) busy-Respects 2 pending_workbook one_row no_counts
      owned_world 1 refl one_row-IsSound (omega arith) owned-Inv

process_next_chunk-outcome_example :
    ChunkOutcome claim_of_7
      (service 1)
      no_counts
      pending_workbook
      (process_next_chunk busy (service 1) claim_of_7 pending_workbook owned_world).0
      (process_next_chunk busy (service 1) claim_of_7 pending_workbook owned_world).1
unfolding service row_validation_service iter_validated_chunks
process_next_chunk-outcome_example =
    process_next_chunk-outcome claim_of_7 (service 1) busy busy-Respects no_counts pending_workbook
      owned_world owned-Inv

process_chunks-outcome_example :
    LoopOutcome claim_of_7
      (service 1)
      no_counts
      pending_workbook
      (process_chunks busy (service 1) claim_of_7 3 pending_workbook no_counts owned_world).0
      (process_chunks busy (service 1) claim_of_7 3 pending_workbook no_counts owned_world).1
unfolding service row_validation_service iter_validated_chunks
process_chunks-outcome_example =
    process_chunks-outcome claim_of_7 (service 1) busy busy-Respects 3 pending_workbook no_counts
      owned_world (omega arith) (omega arith) owned-Inv

process_import_task-outcome_example :
    TaskOutcome 3 1
      (process_import_task busy
        (service 1)
        settings
        (λ i. false)
        7
        none
        1
        (starting_at (db_of waiting_job))).0
      (process_import_task busy
        (service 1)
        settings
        (λ i. false)
        7
        none
        1
        (starting_at (db_of waiting_job))).1
process_import_task-outcome_example =
    process_import_task-outcome busy 1 7 (service 1) settings (λ i. false) none 1
      (starting_at (db_of waiting_job)) busy-Respects (omega arith) waiting-IsSound
