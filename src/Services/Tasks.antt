-- ===== src/Services/Tasks.antt =====
-- app/workers/tasks.py, startup_recovery.py and beat_schedule.py: the Celery task of an import, and the
-- two ways in which the watchdog is run.
use fastapi_shipment_import.Base.{
  ℕ, ◌-◌, ◌^◌, String, Bool, Option, none, some, is_empty, if◌then◌else◌,
}
use fastapi_shipment_import.Session.{Failure, retryable_import_processing_error, Result, ok, raised}
use fastapi_shipment_import.Settings.{Settings}
use fastapi_shipment_import.Service.{Env, World}
use fastapi_shipment_import.Service
use fastapi_shipment_import.Services.Process.{run}
use fastapi_shipment_import.Services.Watchdog.{recover_stale_imports}
use fastapi_shipment_import.Validation.Results.{Validator}

-- What the task asks of Celery: nothing more, a retry with its countdown in seconds and the number of
-- retries allowed, or to record an exception.
pub data TaskAnswer : Type 0 where
  finished : TaskAnswer
  retry : (exc : Failure) (countdown max_retries : ℕ) → TaskAnswer
  failing : Failure → TaskAnswer

-- `self.request.hostname or "celery-worker"`
abbrev pub worker_id : Option String → String
worker_id none = "celery-worker"
worker_id (some hostname) = if is_empty hostname then "celery-worker" else hostname

abbrev pub after_run : Settings → ℕ → Result (Unit {0}) → TaskAnswer
after_run settings retries (ok u) = finished
after_run settings retries (raised (retryable_import_processing_error m)) =
    retry (retryable_import_processing_error m) (2 ^ retries) (settings.import_max_attempts - 1)
after_run settings retries (raised e) = failing e

module _ (env : Env) {import_id : ℕ} (validator : Validator import_id) (settings : Settings) where
  -- `retries` is how often Celery has retried the task; `import_max_attempts` is at least 1.
  unfoldable pub process_import_task :
      (ℕ → Bool) → ℕ → Option String → ℕ → World → TaskAnswer × World
  unfolding run
  process_import_task skipped token hostname retries w = (
    after_run settings retries (run env validator skipped token (worker_id hostname) w).0,
    (run env validator skipped token (worker_id hostname) w).1,
  )

-- The watchdog when a worker starts, and when Celery Beat runs it.
module _ (env : Env) (skipped : ℕ → Bool) (uuid4 : ℕ → ℕ) (settings : Settings) (now : ℕ) where
  unfoldable pub recover_stale_imports_on_startup : Service.Service ℕ
  unfolding recover_stale_imports
  recover_stale_imports_on_startup =
      recover_stale_imports env skipped uuid4 settings now settings.startup_recovery_batch_size

  unfoldable pub recover_stale_imports_task : Service.Service ℕ
  unfolding recover_stale_imports
  recover_stale_imports_task =
      recover_stale_imports env skipped uuid4 settings now settings.watchdog_batch_size
