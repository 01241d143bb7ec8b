-- ===== src/Invariants/Jobs.antt =====
-- Each row of `import_jobs`: the columns that go with its status, and its counters.
use fastapi_shipment_import.Base.{ℕ, ◌+◌, ◌≤◌, String, ◌≡◌, Bool, true, false, arith, is_some}
use fastapi_shipment_import.Models.{ImportJob, ImportStatus, is_processing, is_failed}
use fastapi_shipment_import.Repositories.Claims.{claimable, claimed_job}
use fastapi_shipment_import.Repositories.Imports.{waiting, dispatch_exhausted_job}
use fastapi_shipment_import.Repositories.Progress.{
  owned, reset_values, chunk_values, heartbeat_values, complete_values, fail_values, requeue_values,
}
use fastapi_shipment_import.Services.Watchdog.{failed_job, requeued_job}

abbrev pub is_terminal : ImportStatus → Bool
is_terminal ImportStatus.completed = true
is_terminal ImportStatus.failed = true
is_terminal _ = false

pub record JobIsValid (job : ImportJob) : Type 0 where
  -- a job is owned exactly while it is being processed
  pub token_held : is_some job.processing_token ≡ is_processing job.status
  pub worker_held : is_some job.locked_by_worker ≡ is_processing job.status
  -- a processing job has a heartbeat, so the watchdog can see it
  pub beating : is_processing job.status ≡ true → is_some job.last_heartbeat_at ≡ true
  -- ck_import_jobs_failure_reason_terminal
  pub reason_terminal : is_some job.failure_reason ≡ is_failed job.status
  pub finished_terminal : is_some job.finished_at ≡ is_terminal job.status
  pub attempts_bounded : job.attempt_count ≤ job.max_attempts
  pub total_split : job.total_rows ≡ job.success_count + job.failed_count
  pub processed_all : job.processed_rows ≡ job.total_rows

module _ (job : ImportJob) (v : JobIsValid job) where
  pub claimed_job-IsValid :
      (import_id now token : ℕ) (worker : String)
      → claimable import_id job ≡ true
      → JobIsValid (claimed_job now token worker job)
  claimed_job-IsValid import_id now token worker h = ground arith

  module _ (import_id token now : ℕ) (own : owned import_id token job ≡ true) where
    pub reset_values-IsValid : JobIsValid (record (reset_values job) { updated_at = now })
    reset_values-IsValid = ground arith

    pub chunk_values-IsValid :
        (total success failed : ℕ)
        → total ≡ success + failed
        → JobIsValid (record (chunk_values total success failed job) { updated_at = now })
    chunk_values-IsValid total success failed e = ground arith

    pub heartbeat_values-IsValid :
        JobIsValid (record (heartbeat_values now job) { updated_at = now })
    heartbeat_values-IsValid = ground arith

    pub complete_values-IsValid :
        (total success failed : ℕ)
        → total ≡ success + failed
        → JobIsValid (record (complete_values now total success failed job) { updated_at = now })
    complete_values-IsValid total success failed e = ground arith

    pub fail_values-IsValid :
        (reason : String) → JobIsValid (record (fail_values now reason job) { updated_at = now })
    fail_values-IsValid reason = ground arith

    pub requeue_values-IsValid :
        (reason : String) → JobIsValid (record (requeue_values reason job) { updated_at = now })
    requeue_values-IsValid reason = ground arith

  pub dispatch_exhausted_job-IsValid :
      (import_id now : ℕ) (reason : String)
      → waiting import_id job ≡ true
      → JobIsValid (dispatch_exhausted_job now reason job)
  dispatch_exhausted_job-IsValid import_id now reason h = ground arith

  pub failed_job-IsValid : (now_db now : ℕ) → JobIsValid (failed_job now_db now job)
  failed_job-IsValid now_db now = ground arith

  pub requeued_job-IsValid : (now_db now : ℕ) → JobIsValid (requeued_job now_db now job)
  requeued_job-IsValid now_db now = ground arith
