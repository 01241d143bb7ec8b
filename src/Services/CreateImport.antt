-- ===== src/Services/CreateImport.antt =====
-- app/imports/services/create_import.py: an upload becomes an import job with a dispatch intent.
use fastapi_shipment_import.Base.{
  ℕ, suc, String, Bool, true, false, Option, none, some, str_eq, if◌then◌else◌, ◌==◌, find_where,
}
use fastapi_shipment_import.Models.{Db, ImportJob, ImportStatus, ImportDispatchOutbox, OutboxStatus}
use fastapi_shipment_import.Session
use fastapi_shipment_import.Session.{
  Failure, operational_error, integrity_error, sqlalchemy_error, Tx, Result, ok, raised,
}
use fastapi_shipment_import.Service.{Env, World, seen, transaction}
use fastapi_shipment_import.Settings.{Settings}
use fastapi_shipment_import.Repositories.Imports.{
  ImportSnapshot, create_import_job, create_dispatch_intent, get_snapshot_by_idempotency_key,
  get_snapshot_by_fingerprint,
}

-- The arguments of `create_import`.
pub record Upload : Type 0 where
  pub original_file_name : String
  pub stored_file_path : String
  pub file_size_bytes : ℕ
  pub content_type : Option String
  pub idempotency_key : Option String
  pub idempotency_fingerprint : String

-- app/imports/dto.py
pub record ImportCreatedResult : Type 0 where
  pub import_id : ℕ
  pub status : ImportStatus
  pub created_at : ℕ

pub record ImportCreateOutcome : Type 0 where
  pub result : ImportCreatedResult
  pub created : Bool

-- What leaves `create_import`; `failed` is an exception of SQLAlchemy that it does not wrap.
pub data CreateAnswer : Type 0 where
  returned : ImportCreateOutcome → CreateAnswer
  idempotency_conflict_error : CreateAnswer
  duplicate_import_error : ImportSnapshot → CreateAnswer
  database_write_error : CreateAnswer
  failed : Failure → CreateAnswer

abbrev pub existing_outcome : ImportSnapshot → CreateAnswer
existing_outcome s = returned (record {
  result = record { import_id = s.import_id; status = s.status; created_at = s.created_at };
  created = false;
})

-- An import under the same key is the answer, if it is of the same file.
abbrev pub same_upload : String → ImportSnapshot → CreateAnswer
same_upload fingerprint s =
    if str_eq s.idempotency_fingerprint fingerprint
    then existing_outcome s
    else idempotency_conflict_error

abbrev pub duplicate_of : Option ImportSnapshot → Option CreateAnswer
duplicate_of none = none
duplicate_of (some s) = some (duplicate_import_error s)

abbrev pub by_key : String → Option ImportSnapshot → Option CreateAnswer → Option CreateAnswer
by_key fingerprint none otherwise = otherwise
by_key fingerprint (some s) otherwise = some (same_upload fingerprint s)

abbrev pub by_optional_key : Upload → Db → Option String → Option CreateAnswer → Option CreateAnswer
by_optional_key u db none otherwise = otherwise
by_optional_key u db (some key) otherwise =
    by_key u.idempotency_fingerprint (get_snapshot_by_idempotency_key key db) otherwise

-- The answer that the imports already there give, by key and then by file.
unfoldable pub existing_answer : Upload → Db → Option CreateAnswer
existing_answer u db =
    by_optional_key u db u.idempotency_key
      (duplicate_of (get_snapshot_by_fingerprint u.idempotency_fingerprint db))

abbrev pub new_job : Settings → ℕ → Upload → ImportJob
new_job settings id u = record {
  id = id;
  status = ImportStatus.pending;
  original_file_name = u.original_file_name;
  stored_file_path = u.stored_file_path;
  file_size_bytes = u.file_size_bytes;
  content_type = u.content_type;
  idempotency_key = u.idempotency_key;
  idempotency_fingerprint = u.idempotency_fingerprint;
  total_rows = 0;
  processed_rows = 0;
  success_count = 0;
  failed_count = 0;
  attempt_count = 0;
  max_attempts = settings.import_max_attempts;
  processing_token = none;
  locked_by_worker = none;
  started_at = none;
  last_heartbeat_at = none;
  finished_at = none;
  last_failure_reason = none;
  failure_reason = none;
  last_requeued_at = none;
  created_at = 0;
  updated_at = 0;
}

-- The server's defaults: pending, without attempts, and available from the time of the INSERT.
abbrev pub new_intent : ℕ → ℕ → ℕ → ImportDispatchOutbox
new_intent now id import_id = record {
  id = id;
  import_id = import_id;
  status = OutboxStatus.pending;
  attempt_count = 0;
  available_at = now;
  claimed_at = none;
  claim_token = none;
  published_at = none;
  last_error = none;
  created_at = now;
  updated_at = now;
}

-- What the `try` block writes and commits; `job_id` and `event_id` are the UUIDs that it draws.
unfoldable pub insert_records : Settings → ℕ → ℕ → Upload → ℕ → Tx ℕ
insert_records settings job_id event_id u now =
    Session.◌>>=◌ (create_import_job now (new_job settings job_id u))
      λ id. Session.◌>>◌ (create_dispatch_intent now (new_intent now event_id id)) (Session.pure id)

abbrev pub created_outcome : ImportJob → CreateAnswer
created_outcome job = returned (record {
  result = record { import_id = job.id; status = job.status; created_at = job.created_at };
  created = true;
})

abbrev pub refreshed : Option ImportJob → CreateAnswer
refreshed none = failed sqlalchemy_error
refreshed (some job) = created_outcome job

abbrev pub raced : String → Option ImportSnapshot → CreateAnswer
raced fingerprint none = database_write_error
raced fingerprint (some s) = same_upload fingerprint s

module _ (env : Env) where
  -- A statement that only reads, in a transaction of its own.
  abbrev pub reading : (Db → CreateAnswer) → World → CreateAnswer × World
  reading read w = (
    if env.fault w.ticks then failed operational_error else read (seen env w),
    record { db = seen env w; ticks = suc w.ticks },
  )

  -- `session.refresh(import_job)`
  abbrev pub refresh : ℕ → World → CreateAnswer × World
  refresh id = reading (λ db. refreshed (find_where (λ (j : ImportJob). j.id == id) db.import_jobs))

  -- After an IntegrityError: another upload may have taken the key in between.
  abbrev pub after_collision : Upload → Option String → World → CreateAnswer × World
  after_collision u none w = (database_write_error, w)
  after_collision u (some key) w =
      reading (λ db. raced u.idempotency_fingerprint (get_snapshot_by_idempotency_key key db)) w

  abbrev pub after_insert : Upload → Result ℕ → World → CreateAnswer × World
  after_insert u (ok id) w = refresh id w
  after_insert u (raised integrity_error) w = after_collision u u.idempotency_key w
  after_insert u (raised e) w = (database_write_error, w)

  module _ (settings : Settings) (job_id event_id : ℕ) where
    abbrev pub after_lookup : Upload → Option CreateAnswer → World → CreateAnswer × World
    after_lookup u (some answer) w = (answer, w)
    after_lookup u none w =
        after_insert u (transaction env (insert_records settings job_id event_id u) w).0
          (transaction env (insert_records settings job_id event_id u) w).1

    -- Between the lookup and the INSERT other processes may commit, but no upload of the same file:
    -- the advisory lock on the fingerprint is held from before the lookup to the end.
    unfoldable pub create_import : Upload → World → CreateAnswer × World
    create_import u w =
        if env.fault w.ticks
        then (failed operational_error, record { db = seen env w; ticks = suc w.ticks })
        else after_lookup u (existing_answer u (seen env w))
            (record { db = seen env w; ticks = suc w.ticks })
