-- ===== src/Repositories/Progress.antt =====
-- app/imports/repositories/import_progress_repository.py: every write is guarded by the token.
use fastapi_shipment_import.Base.{
  ℕ, ◌+◌, String, Bool, ◌&&◌, none, some, ◌==◌, column_is, is_some, find_where, count_where,
  update_where,
}
use fastapi_shipment_import.Models.{ImportJob, ImportStatus, is_processing}
use fastapi_shipment_import.Session.{Tx, ok}

-- The WHERE clause that every statement of the repository has.
abbrev pub owned : ℕ → ℕ → ImportJob → Bool
owned import_id processing_token job =
    (job.id == import_id)
    && (is_processing job.status && column_is job.processing_token processing_token)

unfoldable pub has_current_ownership : ℕ → ℕ → Tx Bool
has_current_ownership import_id processing_token db =
    ok (is_some (find_where (owned import_id processing_token) db.import_jobs), db)

-- `onupdate` stamps each row that the statement changes.
unfoldable pub update_current_processing_import : ℕ → ℕ → ℕ → (ImportJob → ImportJob) → Tx Bool
update_current_processing_import now import_id processing_token values db = ok (
  count_where (owned import_id processing_token) db.import_jobs == 1,
  record db {
    import_jobs =
        update_where (owned import_id processing_token)
          (λ job. record (values job) { updated_at = now }) db.import_jobs;
  },
)

abbrev pub reset_values : ImportJob → ImportJob
reset_values job = record job {
  total_rows = 0;
  processed_rows = 0;
  success_count = 0;
  failed_count = 0;
  finished_at = none;
}

unfoldable pub reset_for_reprocessing : ℕ → ℕ → ℕ → Tx Bool
reset_for_reprocessing now import_id processing_token =
    update_current_processing_import now import_id processing_token reset_values

abbrev pub chunk_values : ℕ → ℕ → ℕ → ImportJob → ImportJob
chunk_values total_rows success_count failed_count job = record job {
  total_rows = job.total_rows + total_rows;
  processed_rows = job.processed_rows + total_rows;
  success_count = job.success_count + success_count;
  failed_count = job.failed_count + failed_count;
}

unfoldable pub record_chunk_counts : ℕ → ℕ → ℕ → ℕ → ℕ → ℕ → Tx Bool
record_chunk_counts now import_id processing_token total_rows success_count failed_count =
    update_current_processing_import now import_id processing_token
      (chunk_values total_rows success_count failed_count)

abbrev pub heartbeat_values : ℕ → ImportJob → ImportJob
heartbeat_values now job = record job { last_heartbeat_at = some now }

unfoldable pub heartbeat : ℕ → ℕ → ℕ → Tx Bool
heartbeat now import_id processing_token =
    update_current_processing_import now import_id processing_token (heartbeat_values now)

abbrev pub complete_values : ℕ → ℕ → ℕ → ℕ → ImportJob → ImportJob
complete_values now total_rows success_count failed_count job = record job {
  status = ImportStatus.completed;
  total_rows = total_rows;
  processed_rows = total_rows;
  success_count = success_count;
  failed_count = failed_count;
  finished_at = some now;
  last_heartbeat_at = some now;
  processing_token = none;
  locked_by_worker = none;
}

unfoldable pub complete : ℕ → ℕ → ℕ → ℕ → ℕ → ℕ → Tx Bool
complete now import_id processing_token total_rows success_count failed_count =
    update_current_processing_import now import_id processing_token
      (complete_values now total_rows success_count failed_count)

abbrev pub fail_values : ℕ → String → ImportJob → ImportJob
fail_values now reason job = record job {
  status = ImportStatus.failed;
  failure_reason = some reason;
  last_failure_reason = some reason;
  finished_at = some now;
  processing_token = none;
  locked_by_worker = none;
}

unfoldable pub fail : ℕ → ℕ → ℕ → String → Tx Bool
fail now import_id processing_token reason =
    update_current_processing_import now import_id processing_token (fail_values now reason)

abbrev pub requeue_values : String → ImportJob → ImportJob
requeue_values reason job = record job {
  status = ImportStatus.pending;
  failure_reason = none;
  last_failure_reason = some reason;
  processing_token = none;
  locked_by_worker = none;
}

unfoldable pub requeue_for_retry : ℕ → ℕ → ℕ → String → Tx Bool
requeue_for_retry now import_id processing_token reason =
    update_current_processing_import now import_id processing_token (requeue_values reason)
