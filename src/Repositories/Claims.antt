-- ===== src/Repositories/Claims.antt =====
-- app/imports/repositories/import_claim_repository.py
use fastapi_shipment_import.Base.{
  ℕ, ◌+◌, String, Bool, not, ◌&&◌, Option, none, some, ltb, ◌==◌, find_where, update_where,
}
use fastapi_shipment_import.Models.{ImportJob, ImportStatus, is_pending}
use fastapi_shipment_import.Session.{Tx, ok}

pub record ClaimedImport : Type 0 where
  pub import_id : ℕ
  pub stored_file_path : String
  pub processing_token : ℕ
  pub attempt_count : ℕ
  pub max_attempts : ℕ

abbrev pub claimable : ℕ → ImportJob → Bool
claimable import_id job =
    (job.id == import_id) && (is_pending job.status && ltb job.attempt_count job.max_attempts)

abbrev pub claimed_job : ℕ → ℕ → String → ImportJob → ImportJob
claimed_job now processing_token worker_id job = record job {
  status = ImportStatus.processing;
  processing_token = some processing_token;
  locked_by_worker = some worker_id;
  attempt_count = job.attempt_count + 1;
  started_at = some now;
  last_heartbeat_at = some now;
  updated_at = now;
}

-- `skipped` holds of the rows that other transactions have locked: SKIP LOCKED passes them over.
unfoldable pub claim_pending_import : (ℕ → Bool) → ℕ → ℕ → ℕ → String → Tx (Option ClaimedImport)
claim_pending_import skipped now import_id processing_token worker_id db =
    elim (find_where (λ job. claimable import_id job && not (skipped job.id)) db.import_jobs) [
      | none ↦ ok (none, db)
      | some locked ↦ elim (find_where (claimable import_id) db.import_jobs) [
        | none ↦ ok (none, db)
        | some job ↦ ok (
          some (record {
            import_id = job.id;
            stored_file_path = job.stored_file_path;
            processing_token = processing_token;
            attempt_count = job.attempt_count + 1;
            max_attempts = job.max_attempts;
          }),
          record db {
            import_jobs =
                update_where (claimable import_id) (claimed_job now processing_token worker_id)
                  db.import_jobs;
          },
        )
      ]
    ]
