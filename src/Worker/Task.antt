-- ===== src/Worker/Task.antt =====
-- The Celery task of an import, and what it asks of Celery.
use fastapi_shipment_import.Base.{ℕ, ◌+◌, ◌^◌, ◌≤◌, String, ◌≡◌, refl, arith, Bool, Option}
use fastapi_shipment_import.Session.{
  integrity_error, operational_error, sqlalchemy_error, os_error, value_error, other_error,
  stale_import_worker_error, fuel_exhausted, workbook_structure_error,
  retryable_import_processing_error, Result, ok, raised,
}
use fastapi_shipment_import.Settings.{Settings}
use fastapi_shipment_import.Service.{Env, World}
use fastapi_shipment_import.Services.Process.{run}
use fastapi_shipment_import.Services.Tasks.{
  TaskAnswer, finished, retry, failing, after_run, process_import_task, worker_id,
}
use fastapi_shipment_import.Validation.Results.{Validator}
use fastapi_shipment_import.Invariants.Sound.{IsSound}
use fastapi_shipment_import.Worker.Rely.{Respects}
use fastapi_shipment_import.Worker.Failures.{RunOutcome}
use fastapi_shipment_import.Worker.Whole.{run-outcome}

-- A retry is for the exception of the service alone, after 2 ^ retries seconds, and with the run at
-- hand at most `import_max_attempts` runs are allowed; the only other exception is an OperationalError.
abbrev pub TaskOutcome : ℕ → ℕ → TaskAnswer → World → Type 0
TaskOutcome attempts retries finished w = IsSound w.db
TaskOutcome attempts retries (retry e countdown max_retries) w =
    IsSound w.db × (countdown ≡ 2 ^ retries) × (max_retries + 1 ≡ attempts)
TaskOutcome attempts retries (failing e) w = IsSound w.db × (e ≡ operational_error)

after_run-outcome :
    (settings : Settings) (retries : ℕ) (r : Result (Unit {0})) (w : World)
    → 1 ≤ settings.import_max_attempts
    → RunOutcome r w
    → TaskOutcome settings.import_max_attempts retries (after_run settings retries r) w
after_run-outcome settings retries (ok u) w some_attempt h = h
after_run-outcome settings retries (raised (retryable_import_processing_error m)) w some_attempt h =
    (h.0, refl, omega (arith, some_attempt))
after_run-outcome settings retries (raised operational_error) w some_attempt h = (h.0, refl)
after_run-outcome settings retries (raised integrity_error) w some_attempt h =
    absurd (ground (arith, h.1))
after_run-outcome settings retries (raised sqlalchemy_error) w some_attempt h =
    absurd (ground (arith, h.1))
after_run-outcome settings retries (raised os_error) w some_attempt h = absurd (ground (arith, h.1))
after_run-outcome settings retries (raised value_error) w some_attempt h =
    absurd (ground (arith, h.1))
after_run-outcome settings retries (raised other_error) w some_attempt h =
    absurd (ground (arith, h.1))
after_run-outcome settings retries (raised stale_import_worker_error) w some_attempt h =
    absurd (ground (arith, h.1))
after_run-outcome settings retries (raised fuel_exhausted) w some_attempt h =
    absurd (ground (arith, h.1))
after_run-outcome settings retries (raised (workbook_structure_error m)) w some_attempt h =
    absurd (ground (arith, h.1))

-- In a sound database, with a row validator that keeps the laws of Validator, among other processes
-- that keep the database sound and write nothing under the worker's token between its transactions,
-- and with import_max_attempts at least 1, process_import_task leaves a sound database and returns,
-- or asks for a retry 2^retries seconds later with one retry less allowed than import_max_attempts,
-- or raises an OperationalError.
pub process_import_task-outcome :
    (env : Env) (i token : ℕ) (v : Validator i) (settings : Settings) (skipped : ℕ → Bool)
    (hostname : Option String) (retries : ℕ) (w : World)
    → Respects env i token
    → 1 ≤ settings.import_max_attempts
    → IsSound w.db
    → TaskOutcome settings.import_max_attempts retries
        (process_import_task env v settings skipped token hostname retries w).0
        (process_import_task env v settings skipped token hostname retries w).1
unfolding process_import_task
process_import_task-outcome env i token v settings skipped hostname retries w rely some_attempt h =
    after_run-outcome settings retries (run env v skipped token (worker_id hostname) w).0
      (run env v skipped token (worker_id hostname) w).1 some_attempt
      (run-outcome env i token rely v skipped (worker_id hostname) w h)
