-- ===== src/Services/Process.antt =====
-- app/imports/services/process_import.py: one worker processes one import, chunk by chunk.
mod Transactions
mod Loops
unfoldable pub use Transactions.{
  require_current_ownership, reset_counts, prepare, record_counts, beat, persist_chunk,
  complete_import,
}
pub use Loops.{Counts}
unfoldable pub use Loops.{
  no_counts, add_counts, after_race_round, after_chunk_round, after_race, after_chunk, race_round,
  persist_next, chunk_round, drawn_chunk, persist_chunk_after_duplicate_race, retry_drawn,
  process_next_chunk, process_chunks, complete_counts, process_file, process_claimed,
}
use fastapi_shipment_import.Base.{
  ℕ, zero, suc, ◌+◌, String, Bool, Option, none, some, ◌==◌, leb, if◌then◌else◌, is_empty,
}
use fastapi_shipment_import.Models.{Db}
use fastapi_shipment_import.Session
use fastapi_shipment_import.Session.{
  Failure, integrity_error, operational_error, stale_import_worker_error, workbook_structure_error,
  retryable_import_processing_error, fuel_exhausted, Result, ok, raised, Tx,
}
use fastapi_shipment_import.Service.{
  Env, World, Service, seen, transaction, catching, ◌>>=◌, ◌>>◌, pure, raise,
}
use fastapi_shipment_import.Repositories.Claims.{ClaimedImport, claim_pending_import}
use fastapi_shipment_import.Repositories.Progress.{
  has_current_ownership, reset_for_reprocessing, record_chunk_counts, heartbeat, complete, fail,
  requeue_for_retry,
}
use fastapi_shipment_import.Repositories.Shipments
use fastapi_shipment_import.Repositories.ImportErrors
use fastapi_shipment_import.Validation.Results.{ValidationChunkResult, Validator}

abbrev pub max_attempts_reason : String
max_attempts_reason = "Import processing failed after the maximum number of attempts."

abbrev pub temporary_reason : String
temporary_reason = "Import processing encountered a temporary database error."

abbrev pub retry_message : String
retry_message = "Import processing will be retried."

abbrev pub before_claim_message : String
before_claim_message = "Database operation failed before claim."

abbrev pub processing_failed_reason : String
processing_failed_reason = "Import processing failed."

abbrev pub or_default : String → String → String
or_default message default = if is_empty message then default else message

module _ (env : Env) where
  -- A lost ownership is logged, and changes nothing.
  unfoldable pub mark_failed : ClaimedImport → String → Service (Unit {0})
  mark_failed claimed reason =
      transaction env (λ now. fail now claimed.import_id claimed.processing_token reason) >> pure tt

  unfoldable pub handle_operational_failure : ClaimedImport → Service (Unit {0})
  handle_operational_failure claimed =
      if leb claimed.max_attempts claimed.attempt_count
      then mark_failed claimed max_attempts_reason
      else (transaction env (λ now.
            requeue_for_retry now claimed.import_id claimed.processing_token temporary_reason)
          >>= λ requeued.
              if requeued then raise (retryable_import_processing_error retry_message) else pure tt)

  -- The `except` clauses of `run`, once the import is claimed.
  unfoldable pub handle_failure : ClaimedImport → Failure → Service (Unit {0})
  handle_failure claimed stale_import_worker_error = pure tt
  handle_failure claimed (workbook_structure_error message) =
      mark_failed claimed (or_default message "Workbook structure could not be processed.")
  handle_failure claimed operational_error = handle_operational_failure claimed
  handle_failure claimed fuel_exhausted = raise fuel_exhausted
  handle_failure claimed _ = mark_failed claimed processing_failed_reason

-- The `except` clauses of `run` while no import is claimed: a StaleImportWorkerError is logged, a
-- WorkbookStructureError does nothing, an OperationalError asks for a retry, others pass.
unfoldable pub before_claim : Failure → Service (Unit {0})
before_claim stale_import_worker_error = pure tt
before_claim (workbook_structure_error message) = pure tt
before_claim operational_error = raise (retryable_import_processing_error before_claim_message)
before_claim e = raise e

-- The transaction of the claim; `processing_token` is the UUID that the run draws.
abbrev pub claim_body : (ℕ → Bool) → ℕ → ℕ → String → ℕ → Tx (Option ClaimedImport)
claim_body skipped import_id processing_token worker_id now =
    claim_pending_import skipped now import_id processing_token worker_id

abbrev pub claimed_by : Result (Option ClaimedImport × Db) → Option ClaimedImport
claimed_by (ok r) = r.0
claimed_by (raised e) = none

module _ (env : Env) where
  -- The variable `claimed_import` once the transaction of the claim has raised: its body may have set
  -- it before the COMMIT failed.
  unfoldable pub claimed_variable : (ℕ → Tx (Option ClaimedImport)) → World → Option ClaimedImport
  claimed_variable body w =
      if env.fault w.ticks then none else claimed_by (body (env.clock w.ticks) (seen env w))

  -- The `except` clauses, by what the variable holds.
  unfoldable pub after_failed_claim : Option ClaimedImport → Failure → Service (Unit {0})
  after_failed_claim none e = before_claim e
  after_failed_claim (some claimed) e = handle_failure env claimed e

module _ (env : Env) {import_id : ℕ} (v : Validator import_id) where
  unfoldable pub run_claimed : Option ClaimedImport → Service (Unit {0})
  run_claimed none = pure tt
  run_claimed (some claimed) = catching (process_claimed env v claimed) (handle_failure env claimed)

  abbrev pub after_claim : Option ClaimedImport → Result (Option ClaimedImport) → Service (Unit {0})
  after_claim variable (ok claimed) w = run_claimed claimed w
  after_claim variable (raised e) w = after_failed_claim env variable e w

  unfoldable pub run : (ℕ → Bool) → ℕ → String → Service (Unit {0})
  run skipped processing_token worker_id w =
      let body = claim_body skipped import_id processing_token worker_id in
      after_claim (claimed_variable env body w) (transaction env body w).0
        (transaction env body w).1
