-- ===== src/Worker/Run.antt =====
-- `ProcessImportService.run`, whole.
use fastapi_shipment_import.Base.{ℕ, suc, ◌+◌, ◌≡◌, ◌≢◌, refl, subst, arith}
use fastapi_shipment_import.Session.{fuel_exhausted, Tx, Result, ok, raised}
use fastapi_shipment_import.Service.{Env, World, Service, seen, transaction, continue-outcome}
use fastapi_shipment_import.Repositories.Claims.{ClaimedImport}
use fastapi_shipment_import.Services.Process.{
  Counts, no_counts, prepare, process_chunks, complete_import, process_claimed, process_file,
  complete_counts,
}
use fastapi_shipment_import.Validation.Results.{Validator}
use fastapi_shipment_import.Invariants.Sound.{IsSound}
use fastapi_shipment_import.Invariants.Counters.{prepare-IsSound}
use fastapi_shipment_import.Worker.Rely.{
  Respects, transaction-ok, transaction-raised, prepare-Holds,
}
use fastapi_shipment_import.Worker.Fuel.{transaction-NoFuel, prepare-NoFuel, complete_import-NoFuel}
use fastapi_shipment_import.Worker.Race.{Inv, seen-Inv}
use fastapi_shipment_import.Worker.Outcome.{
  Completed, complete_import-Completed, LoopOutcome, process_chunks-outcome,
}

module _ (claimed : ClaimedImport) (v : Validator claimed.import_id) (env : Env)
    (rely : Respects env claimed.import_id claimed.processing_token) where
  -- How many data rows the workbook of the import has.
  abbrev pub file_rows : ℕ
  file_rows = v.rows (v.start claimed.stored_file_path)

  abbrev pub ClaimedOutcome : Result (Unit {0}) → World → Type 0
  ClaimedOutcome (ok u) w = Completed claimed.import_id file_rows w.db
  ClaimedOutcome (raised e) w = IsSound w.db × (e ≢ fuel_exhausted)

  finish-outcome :
      (n : Counts) (w : World)
      → n.total_rows ≡ file_rows
      → n.total_rows ≡ n.success_count + n.failed_count
      → Inv claimed n w.db
      → ClaimedOutcome
          (transaction env
            (complete_import claimed n.total_rows n.success_count n.failed_count)
            w).0
          (transaction env
            (complete_import claimed n.total_rows n.success_count n.failed_count)
            w).1
  finish-outcome n w all split h = by_result (transaction env body w).0 refl
    where
      body : ℕ → Tx (Unit {0})
      body = complete_import claimed n.total_rows n.success_count n.failed_count

      here : Inv claimed n (seen env w)
      here = seen-Inv claimed env n w rely h

      by_result :
          (r : Result (Unit {0}))
          → (transaction env body w).0 ≡ r
          → ClaimedOutcome r (transaction env body w).1
      by_result (ok u) e =
          complete_import-Completed claimed n file_rows (env.clock w.ticks) (seen env w) u _ all
            split here (transaction-ok env body w u e)
      by_result (raised x) e = (
        rw (transaction-raised env body w x e) here.sound,
        λ f.
            transaction-NoFuel env body w
              (complete_import-NoFuel claimed n.total_rows n.success_count n.failed_count)
              (ground (arith, e, f)),
      )

  file-outcome :
      (w : World)
      → Inv claimed no_counts w.db
      → ClaimedOutcome (process_file env v claimed w).0 (process_file env v claimed w).1
  file-outcome w h =
      continue-outcome ClaimedOutcome (loop w).0 (complete_counts env v claimed) (loop w).1
        (λ n e.
          let done = subst (λ r. LoopOutcome claimed v no_counts start r (loop w).1) e looped in
          finish-outcome n (loop w).1 (omega (arith, done.1)) done.2 done.0)
        (λ x e. subst (λ r. LoopOutcome claimed v no_counts start r (loop w).1) e looped)
    where
      start : v.Pending
      start = v.start claimed.stored_file_path

      loop : Service Counts
      loop = process_chunks env v claimed (suc (v.remaining start)) start no_counts

      looped : LoopOutcome claimed v no_counts start (loop w).0 (loop w).1
      looped =
          process_chunks-outcome claimed v env rely (suc (v.remaining start)) start no_counts w
            (omega arith) (omega arith) h

  -- In a sound database, with a row validator that keeps the laws of Validator and other processes
  -- that keep the database sound and write nothing under the worker's token between its
  -- transactions, the block of run below the claim (the reset, the loop over the chunks, the
  -- completion) either returns, and then the database is sound, the import is there and its row is
  -- COMPLETED with every data row of the workbook in total_rows, total_rows the sum of
  -- success_count and failed_count, and success_count the number of its stored shipments; or it
  -- raises an exception of the program, and the database is sound.
  pub process_claimed-outcome :
      (w : World)
      → IsSound w.db
      → ClaimedOutcome (process_claimed env v claimed w).0 (process_claimed env v claimed w).1
  unfolding process_claimed
  process_claimed-outcome w h =
      continue-outcome ClaimedOutcome (transaction env (prepare claimed) w).0
        (λ _. process_file env v claimed) (transaction env (prepare claimed) w).1
        (λ u e.
          let done = transaction-ok env (prepare claimed) w u e in
          file-outcome (transaction env (prepare claimed) w).1 (record {
            sound = prepare-IsSound claimed (env.clock w.ticks) (seen env w) u _ found done;
            mine = prepare-Holds claimed (env.clock w.ticks) (seen env w) u _ done;
          }))
        (λ x e. (
          rw (transaction-raised env (prepare claimed) w x e) found,
          λ f.
              transaction-NoFuel env (prepare claimed) w (prepare-NoFuel claimed)
                (ground (arith, e, f)),
        ))
    where
      found : IsSound (seen env w)
      found = rely.sound w.ticks w.db h
