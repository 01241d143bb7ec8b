-- ===== src/Repositories/Imports.antt =====
-- app/imports/repositories/import_repository.py, with the constraints of app/db/models/import_job.py
-- and import_dispatch_outbox.py that an INSERT is held to.
use fastapi_shipment_import.Base.{
  ℕ, String, Bool, true, false, not, ◌&&◌, ◌||◌, Option, none, some, List, [], ◌∷◌, ◌++◌, ◌==◌, ◌^◌,
  leb, ltb, str_eq, if◌then◌else◌, text_length, any, is_some, select_where, find_where, count_where,
  update_where, order_by,
}
use fastapi_shipment_import.Models.{
  Db, ImportJob, ImportStatus, is_pending, is_failed, ImportDispatchOutbox,
}
use fastapi_shipment_import.Session.{Tx, ok, raised, integrity_error, sqlalchemy_error}

pub record ImportSnapshot : Type 0 where
  pub import_id : ℕ
  pub status : ImportStatus
  pub created_at : ℕ
  pub idempotency_fingerprint : String

abbrev text_fits : Option String → ℕ → Bool
text_fits none n = true
text_fits (some t) n = leb (text_length t) n

-- The lengths of the text columns, and the range of an INTEGER column.
unfoldable pub job_columns_fit : ImportJob → Bool
unfolding text_length
job_columns_fit job =
    leb (text_length job.original_file_name) 255
    && leb (text_length job.stored_file_path) 1024
    && text_fits job.content_type 255
    && text_fits job.idempotency_key 255
    && leb (text_length job.idempotency_fingerprint) 64
    && ltb job.file_size_bytes (2 ^ 31)
    && ltb job.max_attempts (2 ^ 31)

abbrev pub same_key : Option String → Option String → Bool
same_key none other = false
same_key (some key) none = false
same_key (some key) (some other) = str_eq key other

-- ck_import_jobs_failure_reason_terminal
abbrev pub failure_reason_is_terminal : ImportJob → Bool
failure_reason_is_terminal job =
    if is_failed job.status then is_some job.failure_reason else not (is_some job.failure_reason)

-- The primary key, and uq_import_jobs_idempotency_key: null keys never collide.
unfoldable pub create_import_job : ℕ → ImportJob → Tx ℕ
unfolding job_columns_fit
create_import_job now job db =
    if not (job_columns_fit job)
    then raised sqlalchemy_error
    else if failure_reason_is_terminal job
        && not (any (λ (other : ImportJob). other.id == job.id) db.import_jobs)
        && not (any (λ other. same_key other.idempotency_key job.idempotency_key) db.import_jobs)
    then ok (
      job.id,
      record db {
        import_jobs = db.import_jobs ++ record job { created_at = now; updated_at = now } ∷ [];
      },
    )
    else raised integrity_error

unfoldable pub create_dispatch_intent : ℕ → ImportDispatchOutbox → Tx ℕ
create_dispatch_intent now event db =
    if any (λ (job : ImportJob). job.id == event.import_id) db.import_jobs
      && not
          (any (λ (other : ImportDispatchOutbox). other.id == event.id) db.import_dispatch_outbox)
    then ok (
      event.id,
      record db {
        import_dispatch_outbox =
            db.import_dispatch_outbox ++ record event { created_at = now; updated_at = now } ∷ [];
      },
    )
    else raised integrity_error

abbrev pub snapshot : ImportJob → ImportSnapshot
snapshot job = record {
  import_id = job.id;
  status = job.status;
  created_at = job.created_at;
  idempotency_fingerprint = job.idempotency_fingerprint;
}

abbrev pub snapshot_of : Option ImportJob → Option ImportSnapshot
snapshot_of none = none
snapshot_of (some job) = some (snapshot job)

abbrev pub has_key : String → ImportJob → Bool
has_key key job = same_key job.idempotency_key (some key)

abbrev pub has_fingerprint : String → ImportJob → Bool
has_fingerprint fingerprint job = str_eq job.idempotency_fingerprint fingerprint

unfoldable pub get_snapshot_by_idempotency_key : String → Db → Option ImportSnapshot
get_snapshot_by_idempotency_key key db = snapshot_of (find_where (has_key key) db.import_jobs)

-- ORDER BY created_at DESC, id DESC
abbrev pub newer : ImportJob → ImportJob → Bool
newer a b = ltb b.created_at a.created_at || ((a.created_at == b.created_at) && leb b.id a.id)

abbrev pub first {ℓ} : {A : Type ℓ} → List A → Option A
first [] = none
first (x ∷ xs) = some x

unfoldable pub get_snapshot_by_fingerprint : String → Db → Option ImportSnapshot
get_snapshot_by_fingerprint fingerprint db =
    snapshot_of (first (order_by newer (select_where (has_fingerprint fingerprint) db.import_jobs)))

abbrev pub status_column : Option ImportJob → Option ImportStatus
status_column none = none
status_column (some job) = some job.status

unfoldable pub get_status_by_id : ℕ → Db → Option ImportStatus
get_status_by_id import_id db =
    status_column (find_where (λ job. job.id == import_id) db.import_jobs)

abbrev pub id_column : Option ImportJob → Option ℕ
id_column none = none
id_column (some job) = some job.id

unfoldable pub get_id_by_idempotency_key : String → Db → Option ℕ
get_id_by_idempotency_key key db = id_column (find_where (has_key key) db.import_jobs)

unfoldable pub exists : ℕ → Db → Bool
exists import_id db = any (λ job. job.id == import_id) db.import_jobs

abbrev pub waiting : ℕ → ImportJob → Bool
waiting import_id job = (job.id == import_id) && is_pending job.status

abbrev pub dispatch_exhausted_job : ℕ → String → ImportJob → ImportJob
dispatch_exhausted_job now reason job = record job {
  status = ImportStatus.failed;
  failure_reason = some reason;
  last_failure_reason = some reason;
  finished_at = some now;
  processing_token = none;
  locked_by_worker = none;
  updated_at = now;
}

unfoldable pub fail_pending_import_after_dispatch_exhausted : ℕ → ℕ → String → Tx Bool
fail_pending_import_after_dispatch_exhausted now import_id reason db = ok (
  count_where (waiting import_id) db.import_jobs == 1,
  record db {
    import_jobs =
        update_where (waiting import_id) (dispatch_exhausted_job now reason) db.import_jobs;
  },
)

-- app/imports/dto.py
pub record ImportStatusReadModel : Type 0 where
  pub import_id : ℕ
  pub status : ImportStatus
  pub total_rows : ℕ
  pub processed_rows : ℕ
  pub success_count : ℕ
  pub failed_count : ℕ
  pub created_at : ℕ
  pub started_at : Option ℕ
  pub finished_at : Option ℕ
  pub last_failure_reason : Option String
  pub failure_reason : Option String

abbrev pub read_status : ImportJob → ImportStatusReadModel
read_status job = record {
  import_id = job.id;
  status = job.status;
  total_rows = job.total_rows;
  processed_rows = job.processed_rows;
  success_count = job.success_count;
  failed_count = job.failed_count;
  created_at = job.created_at;
  started_at = job.started_at;
  finished_at = job.finished_at;
  last_failure_reason = job.last_failure_reason;
  failure_reason = job.failure_reason;
}

abbrev pub status_of : Option ImportJob → Option ImportStatusReadModel
status_of none = none
status_of (some job) = some (read_status job)

unfoldable pub get_status_read_model : ℕ → Db → Option ImportStatusReadModel
get_status_read_model import_id db =
    status_of (find_where (λ job. job.id == import_id) db.import_jobs)
