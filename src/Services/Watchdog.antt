-- ===== src/Services/Watchdog.antt =====
-- app/imports/services/recover_stale_imports.py
use fastapi_shipment_import.Base.{
  ℕ, suc, ◌-◌, String, Bool, not, ◌&&◌, none, some, List, [], ◌∷◌, ◌==◌, leb, column_before,
  earlier_then, if◌then◌else◌, select_where, update_where, length, take, order_by,
}
use fastapi_shipment_import.Models.{Db, ImportJob, ImportStatus, is_processing}
use fastapi_shipment_import.Session.{Tx, ◌>>◌, ◌>>=◌, pure, modify}
use fastapi_shipment_import.Settings.{Settings}
use fastapi_shipment_import.Service
use fastapi_shipment_import.Service.{Env, Service}
use fastapi_shipment_import.Repositories.Outbox.{create_pending_dispatch_intent}

abbrev pub stale_heartbeat_reason : String
stale_heartbeat_reason = "Worker heartbeat expired."

abbrev pub max_attempts_reason : String
max_attempts_reason = "Import processing failed after the maximum number of attempts."

abbrev pub failed_job : ℕ → ℕ → ImportJob → ImportJob
failed_job now_db now job = record job {
  status = ImportStatus.failed;
  processing_token = none;
  locked_by_worker = none;
  last_failure_reason = some stale_heartbeat_reason;
  failure_reason = some max_attempts_reason;
  finished_at = some now;
  updated_at = now_db;
}

abbrev pub requeued_job : ℕ → ℕ → ImportJob → ImportJob
requeued_job now_db now job = record job {
  status = ImportStatus.pending;
  processing_token = none;
  locked_by_worker = none;
  failure_reason = none;
  last_failure_reason = some stale_heartbeat_reason;
  last_requeued_at = some now;
  finished_at = none;
  last_heartbeat_at = none;
  updated_at = now_db;
}

-- Assigning to a loaded job updates its row, by its id.
abbrev pub update_job : ℕ → (ImportJob → ImportJob) → Tx (Unit {0})
update_job id values = modify (λ db. record db {
  import_jobs = update_where (λ (j : ImportJob). j.id == id) values db.import_jobs;
})

unfoldable pub mark_failed : ℕ → ℕ → ImportJob → Tx (Unit {0})
mark_failed now_db now import_job = update_job import_job.id (failed_job now_db now)

-- `outbox_id` is the id that the new intent draws.
unfoldable pub requeue_with_dispatch_intent : ℕ → ℕ → ℕ → ImportJob → Tx (Unit {0})
unfolding create_pending_dispatch_intent
requeue_with_dispatch_intent now_db outbox_id now import_job =
    update_job import_job.id (requeued_job now_db now)
    >> create_pending_dispatch_intent now_db outbox_id import_job.id now

unfoldable pub recover_one : ℕ → ℕ → ℕ → ImportJob → Tx (Unit {0})
unfolding mark_failed requeue_with_dispatch_intent
recover_one now_db outbox_id now import_job =
    if leb import_job.max_attempts import_job.attempt_count
    then mark_failed now_db now import_job
    else requeue_with_dispatch_intent now_db outbox_id now import_job

-- The loop over the stale imports; `uuid4 k` is the id drawn in round k.
unfoldable pub recover_each : (ℕ → ℕ) → ℕ → ℕ → ℕ → List ImportJob → Tx (Unit {0})
unfolding recover_one
recover_each uuid4 now_db now k [] = pure tt
recover_each uuid4 now_db now k (job ∷ jobs) =
    recover_one now_db (uuid4 k) now job >> recover_each uuid4 now_db now (suc k) jobs

abbrev pub is_stale : ℕ → ImportJob → Bool
is_stale stale_before job =
    is_processing job.status && column_before job.last_heartbeat_at stale_before

-- ORDER BY last_heartbeat_at, id
abbrev pub beat_earlier : ImportJob → ImportJob → Bool
beat_earlier a b = earlier_then a.last_heartbeat_at b.last_heartbeat_at (leb a.id b.id)

unfoldable pub stale_imports : (ℕ → Bool) → ℕ → ℕ → Db → List ImportJob
stale_imports skipped batch_size stale_before db = take batch_size (
    order_by beat_earlier
      (select_where (λ job. is_stale stale_before job && not (skipped job.id)) db.import_jobs))

-- The body of the transaction: `now` is the watchdog's clock, `now_db` the database's. The
-- subtraction stops at 0, where no heartbeat is earlier either.
unfoldable pub recover_in_transaction : (ℕ → Bool) → (ℕ → ℕ) → Settings → ℕ → ℕ → ℕ → Tx ℕ
unfolding stale_imports recover_each
recover_in_transaction skipped uuid4 settings batch_size now now_db db =
    let stale =
      stale_imports skipped batch_size (now - settings.processing_stale_timeout_seconds) db in
    (recover_each uuid4 now_db now 0 stale >>= λ _. pure (length stale)) db

unfoldable pub recover_stale_imports : Env → (ℕ → Bool) → (ℕ → ℕ) → Settings → ℕ → ℕ → Service ℕ
unfolding recover_in_transaction Service.transaction
recover_stale_imports env skipped uuid4 settings now batch_size =
    Service.transaction env (recover_in_transaction skipped uuid4 settings batch_size now)
