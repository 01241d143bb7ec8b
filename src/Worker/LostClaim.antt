-- ===== src/Worker/LostClaim.antt =====
-- A claim whose COMMIT fails.
use fastapi_shipment_import.Base.{
  ℕ, suc, String, ◌≡◌, ◌<◌, arith, Bool, true, false, some, count_where, update_where-none,
}
use fastapi_shipment_import.Models.{Db}
use fastapi_shipment_import.Session.{ok}
use fastapi_shipment_import.Service.{Env, World, seen, transaction}
use fastapi_shipment_import.Repositories.Claims.{ClaimedImport, claim_pending_import}
use fastapi_shipment_import.Repositories.Progress.{
  owned, requeue_values, requeue_for_retry, update_current_processing_import,
}
use fastapi_shipment_import.Services.Process.{
  run, claimed_variable, after_failed_claim, handle_failure, handle_operational_failure,
  temporary_reason,
}
use fastapi_shipment_import.Validation.Results.{Validator}

module _ (env : Env) {i : ℕ} (v : Validator i) where
  -- If the COMMIT of the claim fails, where the claim's body had found the import with attempts
  -- left, the next transaction is undisturbed and no row is owned by the drawn token, then run
  -- returns without an exception and the database is as the other processes left it: the import is
  -- not claimed and no retry is asked for.
  pub run-lost_claim :
      (skipped : ℕ → Bool) (token : ℕ) (worker : String) (w : World) (c : ClaimedImport) (db' : Db)
      → env.fault w.ticks ≡ false
      → env.lost w.ticks ≡ true
      → env.fault (suc w.ticks) ≡ false
      → env.lost (suc w.ticks) ≡ false
      → claim_pending_import skipped (env.clock w.ticks) i token worker (seen env w)
        ≡ ok (some c, db')
      → c.attempt_count < c.max_attempts
      → count_where
          (owned c.import_id c.processing_token)
          (env.interfere (suc w.ticks) (seen env w)).import_jobs
        ≡ 0
      → ((run env v skipped token worker w).0 ≡ ok tt)
        × ((run env v skipped token worker w).1.db ≡ env.interfere (suc w.ticks) (seen env w))
  unfolding run claimed_variable after_failed_claim handle_failure handle_operational_failure
      requeue_for_retry update_current_processing_import transaction
  run-lost_claim skipped token worker w c db' f0 l0 f1 l1 claimed more lost =
      let other = env.interfere (suc w.ticks) (seen env w) in
      let same =
        update_where-none (owned c.import_id c.processing_token)
          (λ job. record (requeue_values temporary_reason job) {
            updated_at = env.clock (suc w.ticks);
          })
          other.import_jobs lost in
      rw (f0, claimed, l0) (ground (arith, f1, l1, more, lost, same))
