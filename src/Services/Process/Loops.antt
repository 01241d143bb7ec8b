-- ===== src/Services/Process/Loops.antt =====
-- The loops of ProcessImportService: over the chunks of the workbook, and over the rounds of a race
-- for shipment codes.
use fastapi_shipment_import.Base.{ℕ, zero, suc, ◌+◌, Option, none, some, ◌==◌, if◌then◌else◌}
use fastapi_shipment_import.Models.{Db}
use fastapi_shipment_import.Session
use fastapi_shipment_import.Session.{
  Failure, integrity_error, operational_error, stale_import_worker_error, workbook_structure_error,
  retryable_import_processing_error, fuel_exhausted, Result, ok, raised, Tx,
}
use fastapi_shipment_import.Service.{Env, Service, seen, transaction, ◌>>=◌, ◌>>◌}
use fastapi_shipment_import.Repositories.Claims.{ClaimedImport}
use fastapi_shipment_import.Validation.Results.{ValidationChunkResult, Validator}
use fastapi_shipment_import.Services.Process.Transactions.{
  require_current_ownership, prepare, persist_chunk, complete_import,
}

-- The worker's local variables across the loop.
pub record Counts : Type 0 where
  pub total_rows : ℕ
  pub success_count : ℕ
  pub failed_count : ℕ

abbrev pub no_counts : Counts
no_counts = record { total_rows = 0; success_count = 0; failed_count = 0 }

abbrev pub add_counts : Counts → ValidationChunkResult → Counts
add_counts n c = record {
  total_rows = n.total_rows + c.total_rows;
  success_count = n.success_count + c.success_count;
  failed_count = n.failed_count + c.failed_count;
}

-- How the `try` statements of the three loops go on after a transaction or a chunk.
abbrev pub after_race_round :
    Service ValidationChunkResult
    → Result (Option ValidationChunkResult)
    → Service ValidationChunkResult
after_race_round again (ok none) w = (raised integrity_error, w)
after_race_round again (ok (some corrected)) w = (ok corrected, w)
after_race_round again (raised integrity_error) w = again w
after_race_round again (raised e) w = (raised e, w)

abbrev pub after_chunk_round : {A : Type 0} → Service A → Result A → Service A
after_chunk_round retry (ok next) w = (ok next, w)
after_chunk_round retry (raised integrity_error) w = retry w
after_chunk_round retry (raised e) w = (raised e, w)

-- The race's chunk is the round's result, with the generator as it stands.
abbrev pub after_race :
    {P : Type 0} → P → Result ValidationChunkResult → Service (Option (ValidationChunkResult × P))
after_race p' (ok corrected) w = (ok (some (corrected, p')), w)
after_race p' (raised e) w = (raised e, w)

abbrev pub after_chunk :
    {P : Type 0}
    → (ValidationChunkResult → P → Service Counts)
    → Counts
    → Result (Option (ValidationChunkResult × P))
    → Service Counts
after_chunk go_on n (ok none) w = (ok n, w)
after_chunk go_on n (ok (some (c, p'))) w = go_on c p' w
after_chunk go_on n (raised e) w = (raised e, w)

module _ {import_id : ℕ} (v : Validator import_id) (claimed : ClaimedImport) where
  open v use {Pending, next_chunk, reclassify}

  -- One round of the loop in `_persist_chunk_after_duplicate_race`: none is its `break`.
  unfoldable pub race_round :
      Pending → ValidationChunkResult → ℕ → Tx (Option ValidationChunkResult)
  race_round p current now = Session.◌>>◌ (require_current_ownership claimed) (λ db.
      let corrected = reclassify p current db in
      if corrected.success_count == current.success_count
      then ok (none, db)
      else Session.◌>>◌ (persist_chunk claimed corrected now) (Session.pure (some corrected)) db)

  -- What the transaction does with the generator's answer.
  unfoldable pub persist_next :
      ℕ
      → Result (Option (ValidationChunkResult × Pending))
      → Tx (Option (ValidationChunkResult × Pending))
  persist_next now (raised e) = Session.raise e
  persist_next now (ok none) = Session.pure none
  persist_next now (ok (some (c, p'))) =
      Session.◌>>◌ (persist_chunk claimed c now) (Session.pure (some (c, p')))

  unfoldable pub chunk_round : Pending → ℕ → Tx (Option (ValidationChunkResult × Pending))
  chunk_round p now =
      Session.◌>>◌ (require_current_ownership claimed) (λ db. persist_next now (next_chunk p db) db)

  -- The variable `chunk_result` of `_process_next_chunk` after its transaction raised: set once the
  -- generator has yielded.
  unfoldable pub drawn_chunk : Pending → Db → Option (ValidationChunkResult × Pending)
  drawn_chunk p db = elim (next_chunk p db) [ ok r ↦ r | raised e ↦ none ]

module _ (env : Env) {import_id : ℕ} (v : Validator import_id) (claimed : ClaimedImport) where
  open v use {Pending, next_chunk, reclassify}

  -- A round that ends in an IntegrityError has corrected the chunk by what it saw.
  unfoldable pub persist_chunk_after_duplicate_race :
      ℕ → Pending → ValidationChunkResult → Service ValidationChunkResult
  persist_chunk_after_duplicate_race zero p current w = (raised fuel_exhausted, w)
  persist_chunk_after_duplicate_race (suc fuel) p current w =
      after_race_round
        (persist_chunk_after_duplicate_race fuel p (reclassify p current (seen env w)))
        (transaction env (race_round v claimed p current) w).0
        (transaction env (race_round v claimed p current) w).1

  -- The fuel of the race is one more than the rows that can still drop out of the chunk.
  unfoldable pub retry_drawn :
      Option (ValidationChunkResult × Pending) → Service (Option (ValidationChunkResult × Pending))
  retry_drawn none w = (raised integrity_error, w)
  retry_drawn (some (c, p')) w =
      after_race p' (persist_chunk_after_duplicate_race (suc c.success_count) p' c w).0
        (persist_chunk_after_duplicate_race (suc c.success_count) p' c w).1

  unfoldable pub process_next_chunk : Pending → Service (Option (ValidationChunkResult × Pending))
  process_next_chunk p w =
      after_chunk_round (retry_drawn (drawn_chunk v claimed p (seen env w)))
        (transaction env (chunk_round v claimed p) w).0
        (transaction env (chunk_round v claimed p) w).1

  -- The `while True` of `run`.
  unfoldable pub process_chunks : ℕ → Pending → Counts → Service Counts
  process_chunks zero p n w = (raised fuel_exhausted, w)
  process_chunks (suc fuel) p n w =
      after_chunk (λ c p'. process_chunks fuel p' (add_counts n c)) n (process_next_chunk p w).0
        (process_next_chunk p w).1

  abbrev pub complete_counts : Counts → Service (Unit {0})
  complete_counts n =
      transaction env (complete_import claimed n.total_rows n.success_count n.failed_count)

  abbrev pub process_file : Service (Unit {0})
  process_file =
      process_chunks (suc (v.remaining (v.start claimed.stored_file_path)))
        (v.start claimed.stored_file_path) no_counts
      >>= complete_counts

  -- The `try` block of `run` below the claim.
  unfoldable pub process_claimed : Service (Unit {0})
  process_claimed = transaction env (prepare claimed) >> process_file
