-- ===== src/Worker/Outcome.antt =====
-- `run` below the claim: what a run that returns has achieved.
use fastapi_shipment_import.Base.{
  ℕ, zero, suc, ◌+◌, ◌<◌, ◌≡◌, ◌≢◌, refl, sym, true, ◌&&◌, arith, Option, none, some, All, All-both,
  All-mono, All-counted, All-update_where, count_mono, count_where, ◌==◌, column_is,
}
use fastapi_shipment_import.Models.{Db, ImportJob, ImportStatus, is_processing}
use fastapi_shipment_import.Session.{fuel_exhausted, Result, ok, raised}
use fastapi_shipment_import.Service.{Env, World, Service}
use fastapi_shipment_import.Repositories.Claims.{ClaimedImport}
use fastapi_shipment_import.Repositories.Progress.{owned, complete_values, complete}
use fastapi_shipment_import.Repositories.Shipments.{in_import}
use fastapi_shipment_import.Services.Process.{
  Counts, add_counts, after_chunk, process_next_chunk, process_chunks, complete_import,
}
use fastapi_shipment_import.Validation.Results.{ValidationChunkResult, Validator}
use fastapi_shipment_import.Invariants.Sound.{IsSound, has_id, Counted}
use fastapi_shipment_import.Invariants.Updates.{keyed-with_jobs}
use fastapi_shipment_import.Invariants.Counters.{
  complete_import-IsSound, guarded_write, written, owned_rows,
}
use fastapi_shipment_import.Worker.Rely.{HasCounts, Respects}
use fastapi_shipment_import.Worker.Race.{Inv}
use fastapi_shipment_import.Worker.Loop.{ChunkOutcome, process_next_chunk-outcome}

-- The row of a completed import: every data row of the workbook is counted once, as a shipment of
-- the import that is stored or as a row that failed.
pub record CompletedJob (i rows : ℕ) (db : Db) (job : ImportJob) : Type 0 where
  pub status : job.status ≡ ImportStatus.completed
  pub all_rows : job.total_rows ≡ rows
  pub split : job.total_rows ≡ job.success_count + job.failed_count
  pub stored : job.success_count ≡ count_where (in_import i) db.shipments

pub record Completed (i rows : ℕ) (db : Db) : Type 0 where
  pub sound : IsSound db
  pub present : count_where (has_id i) db.import_jobs ≡ 1
  pub finished : All (λ job. has_id i job ≡ true → CompletedJob i rows db job) db.import_jobs

module _ (claimed : ClaimedImport) where
  -- The shipments of an import that is still owned are as many as the worker has counted.
  stored_count :
      (n : Counts) (db : Db)
      → Inv claimed n db
      → (count_where (owned claimed.import_id claimed.processing_token) db.import_jobs == 1) ≡ true
      → count_where (in_import claimed.import_id) db.shipments ≡ n.success_count
  stored_count n db h one =
      All-counted (owned claimed.import_id claimed.processing_token) db.import_jobs
        (ground (arith, one))
        (All-mono
          (λ job.
            (owned claimed.import_id claimed.processing_token job ≡ true → HasCounts n job)
            × Counted db.shipments 0 0 job)
          (λ job.
            owned claimed.import_id claimed.processing_token job ≡ true
            → count_where (in_import claimed.import_id) db.shipments ≡ n.success_count)
          (λ job both o. ground (arith, both.0 o, both.1, o)) db.import_jobs
          (All-both _ _ db.import_jobs h.mine h.sound.counted))

  written-present :
      (now : ℕ) (values : ImportJob → ImportJob)
      (same_id : (job : ImportJob) → (values job).id ≡ job.id) (db : Db)
      → IsSound db
      → (count_where (owned claimed.import_id claimed.processing_token) db.import_jobs == 1) ≡ true
      → count_where
          (has_id claimed.import_id)
          (written now claimed.import_id claimed.processing_token values db).import_jobs
        ≡ 1
  written-present now values same_id db h one =
      let same =
        keyed-with_jobs (owned claimed.import_id claimed.processing_token)
          (λ job. record (values job) { updated_at = now }) same_id db claimed.import_id in
      let some_row =
        count_mono (owned claimed.import_id claimed.processing_token) (has_id claimed.import_id)
          db.import_jobs (λ job o. ground (arith, o)) in
      rw same (ground (arith, some_row, h.jobs_keyed claimed.import_id, one))

  -- When the completion commits on a sound database where the worker's counters hold, with counts
  -- that add up to the workbook's rows, the import is present and COMPLETED, all rows counted, and
  -- success_count is the number of its stored shipments.
  pub complete_import-Completed :
      (n : Counts) (rows now : ℕ) (db : Db) (u : Unit {0}) (db' : Db)
      → n.total_rows ≡ rows
      → n.total_rows ≡ n.success_count + n.failed_count
      → Inv claimed n db
      → complete_import claimed n.total_rows n.success_count n.failed_count now db ≡ ok (u, db')
      → Completed claimed.import_id rows db'
  complete_import-Completed n rows now db u db' all split h e =
      let i = claimed.import_id in
      let token = claimed.processing_token in
      let values = complete_values now n.total_rows n.success_count n.failed_count in
      let (after, one) =
        guarded_write now i token values db u db' (unfold complete_import complete in e) in
      let stored = stored_count n db h one in
      record {
        sound =
            complete_import-IsSound claimed n.total_rows n.success_count n.failed_count now db u db'
              split stored h.sound e;
        present = rw after (written-present now values (λ job. refl) db h.sound one);
        finished = rw after (
            All-update_where
              (λ job.
                has_id i job ≡ true
                → (is_processing job.status && column_is job.processing_token token) ≡ true)
              (λ job. has_id i job ≡ true → CompletedJob i rows (written now i token values db) job)
              (owned i token) (λ job. record (values job) { updated_at = now }) db.import_jobs
              (λ job o v k. record {
                status = refl;
                all_rows = all;
                split = split;
                stored = sym stored;
              })
              (λ job o v k. absurd (ground (arith, o, v k, k))) (owned_rows i token h.sound one));
      }

  module _ (v : Validator claimed.import_id) where
    abbrev pub LoopOutcome : Counts → v.Pending → Result Counts → World → Type 0
    LoopOutcome n p (ok n') w =
        Inv claimed n' w.db
        × (n'.total_rows ≡ n.total_rows + v.rows p)
        × (n'.total_rows ≡ n'.success_count + n'.failed_count)
    LoopOutcome n p (raised e) w = IsSound w.db × (e ≢ fuel_exhausted)

    after_chunk-outcome :
        (n : Counts) (p : v.Pending) (go_on : ValidationChunkResult → v.Pending → Service Counts)
        (r : Result (Option (ValidationChunkResult × v.Pending))) (w : World)
        → n.total_rows ≡ n.success_count + n.failed_count
        → ChunkOutcome claimed v n p r w
        → ((c : ValidationChunkResult) (p' : v.Pending)
            → v.remaining p' < v.remaining p
            → (add_counts n c).total_rows
              ≡ (add_counts n c).success_count + (add_counts n c).failed_count
            → Inv claimed (add_counts n c) w.db
            → LoopOutcome (add_counts n c) p' (go_on c p' w).0 (go_on c p' w).1)
        → LoopOutcome n p (after_chunk go_on n r w).0 (after_chunk go_on n r w).1
    after_chunk-outcome n p go_on (ok none) w split h next = (h.0, omega (arith, h.1), split)
    after_chunk-outcome n p go_on (raised e) w split h next = h
    after_chunk-outcome n p go_on (ok (some (c, p'))) w split h next =
        let (good, less, rows, here) = h in
        shift (go_on c p' w).0 (go_on c p' w).1 rows
          (next c p' less (omega (arith, split, good.split)) here)
      where
        shift :
            (r : Result Counts) (w' : World)
            → v.rows p ≡ c.total_rows + v.rows p'
            → LoopOutcome (add_counts n c) p' r w'
            → LoopOutcome n p r w'
        shift (ok n') w' rows o = (o.0, omega (arith, rows, o.1), o.2)
        shift (raised e) w' rows o = o

    module _ (env : Env) (rely : Respects env claimed.import_id claimed.processing_token) where
      -- With a row validator that keeps the laws of Validator and other processes that keep the
      -- database sound and write nothing under the worker's token between its transactions, the
      -- chunk loop of run, given more rounds than chunks remain and counts that add up and hold,
      -- ends without using them up: it returns counts that hold, whose total has grown by every row
      -- that remained and is the sum of successes and failures; or it raises in a sound database.
      pub process_chunks-outcome :
          (fuel : ℕ) (p : v.Pending) (n : Counts) (w : World)
          → v.remaining p < fuel
          → n.total_rows ≡ n.success_count + n.failed_count
          → Inv claimed n w.db
          → LoopOutcome n p
              (process_chunks env v claimed fuel p n w).0
              (process_chunks env v claimed fuel p n w).1
      unfolding process_chunks
      process_chunks-outcome zero p n w enough split h = absurd (omega arith)
      process_chunks-outcome (suc fuel) p n w enough split h =
          after_chunk-outcome n p (λ c p'. process_chunks env v claimed fuel p' (add_counts n c))
            (process_next_chunk env v claimed p w).0 (process_next_chunk env v claimed p w).1 split
            (process_next_chunk-outcome claimed v env rely n p w h)
            (λ c p' less split' h'.
              process_chunks-outcome fuel p' (add_counts n c)
                (process_next_chunk env v claimed p w).1 (omega (arith, less)) split' h')
