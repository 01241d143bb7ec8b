-- ===== src/Invariants/Uploads.antt =====
-- What the upload of a new import does to the database.
use fastapi_shipment_import.Base.{
  ℕ, ◌≡◌, refl, false, List, [], ◌∷◌, ◌++◌, arith, any, any-eq-false, All, All-append, All-mono,
  count_where, count-append,
}
use fastapi_shipment_import.Models.{Db, ImportJob, Shipment}
use fastapi_shipment_import.Session.{ok}
use fastapi_shipment_import.Settings.{Settings}
use fastapi_shipment_import.Repositories.Shipments.{in_import}
use fastapi_shipment_import.Repositories.Imports.{
  same_key, create_import_job, create_dispatch_intent,
}
use fastapi_shipment_import.Services.CreateImport.{Upload, new_job, new_intent, insert_records}
use fastapi_shipment_import.Invariants.Jobs.{JobIsValid}
use fastapi_shipment_import.Invariants.Sound.{has_id, Counted, Referenced, IsSound}

module _ (settings : Settings) (job_id event_id : ℕ) (u : Upload) (now : ℕ) where
  -- The row of the new import.
  abbrev pub stored_job : ImportJob
  stored_job = record (new_job settings job_id u) { created_at = now; updated_at = now }

  abbrev pub with_upload : Db → Db
  with_upload db = record db {
    import_jobs = db.import_jobs ++ stored_job ∷ [];
    import_dispatch_outbox = db.import_dispatch_outbox ++ new_intent now event_id job_id ∷ [];
  }

  pub record Stored (id : ℕ) (db db' : Db) : Type 0 where
    pub of_id : id ≡ job_id
    pub after : db' ≡ with_upload db
    pub fresh_id : any (has_id job_id) db.import_jobs ≡ false
    pub fresh_key :
        any (λ other. same_key other.idempotency_key u.idempotency_key) db.import_jobs ≡ false

  pub insert_records-Stored :
      (db : Db) (id : ℕ) (db' : Db)
      → insert_records settings job_id event_id u now db ≡ ok (id, db')
      → Stored id db db'
  unfolding insert_records create_import_job create_dispatch_intent
  insert_records-Stored db id db' e = record {
    of_id = ground (arith, e);
    after = ground (arith, e);
    fresh_id = ground (arith, e);
    fresh_key = ground (arith, e);
  }

  stored_job-IsValid : JobIsValid stored_job
  stored_job-IsValid = record {
    token_held = refl;
    worker_held = refl;
    beating = λ e. cc;
    reason_terminal = refl;
    finished_terminal = refl;
    attempts_bounded = omega arith;
    total_split = refl;
    processed_all = refl;
  }

  -- No shipment refers to an import that is not there.
  unreferenced :
      (i : ℕ) (jobs : List ImportJob) (ss : List Shipment)
      → All (Referenced jobs) ss
      → count_where (has_id i) jobs ≡ 0
      → count_where (in_import i) ss ≡ 0
  unfolding count_where
  unreferenced i jobs [] h none_there = refl
  unreferenced i jobs (s ∷ ss) h none_there =
      ground (arith, h.0, none_there, unreferenced i jobs ss h.1 none_there)

  with_upload-IsSound :
      (db : Db) → any (has_id job_id) db.import_jobs ≡ false → IsSound db → IsSound (with_upload db)
  unfolding count_where
  with_upload-IsSound db fresh h =
      let absent = any-eq-false (has_id job_id) db.import_jobs fresh in
      let more = λ (j : ℕ). count-append (has_id j) db.import_jobs (stored_job ∷ []) in
      record {
        jobs_keyed = λ j. ground (arith, h.jobs_keyed j, absent, more j);
        jobs_valid =
            All-append JobIsValid db.import_jobs (stored_job ∷ []) h.jobs_valid
              (stored_job-IsValid, tt);
        codes_unique = h.codes_unique;
        shipments_checked = h.shipments_checked;
        counted = All-append (Counted db.shipments 0 0) db.import_jobs (stored_job ∷ []) h.counted (
          ground (arith, unreferenced job_id db.import_jobs db.shipments h.referenced absent),
          tt,
        );
        referenced =
            All-mono (Referenced db.import_jobs) (Referenced (with_upload db).import_jobs)
              (λ s r. ground (arith, r, more s.import_id)) db.shipments h.referenced;
      }

  -- The INSERT of an upload keeps a sound database sound.
  pub insert_records-IsSound :
      (db : Db) (id : ℕ) (db' : Db)
      → IsSound db
      → insert_records settings job_id event_id u now db ≡ ok (id, db')
      → IsSound db'
  insert_records-IsSound db id db' h e =
      let done = insert_records-Stored db id db' e in
      rw done.after (with_upload-IsSound db done.fresh_id h)
