-- ===== src/Worker/Guarantee.antt =====
-- What the other processes commit: every transaction of another worker, of the watchdog and of the
-- publisher gives what a worker asks of it.
use fastapi_shipment_import.Base.{
  ℕ, String, ◌≡◌, ◌≢◌, arith, Bool, true, All-update_where, ◌==◌, List, [], ◌∷◌, suc, length, ◌-◌,
  ◌==◌, List, [], ◌∷◌, suc, length, ◌-◌, All-append,
}
use fastapi_shipment_import.Models.{Db, ImportJob}
use fastapi_shipment_import.Session.{pure}
use fastapi_shipment_import.Settings.{Settings}
use fastapi_shipment_import.Repositories.Claims.{
  ClaimedImport, claimable, claimed_job, claim_pending_import,
}
use fastapi_shipment_import.Repositories.Progress.{
  owned, chunk_values, heartbeat_values, fail_values, requeue_values, complete_values, reset_values,
  fail, requeue_for_retry, update_current_processing_import, record_chunk_counts, heartbeat,
  complete,
}
use fastapi_shipment_import.Repositories.Imports.{
  waiting, dispatch_exhausted_job, fail_pending_import_after_dispatch_exhausted,
}
use fastapi_shipment_import.Repositories.Shipments
use fastapi_shipment_import.Repositories.Shipments.{in_import}
use fastapi_shipment_import.Repositories.ImportErrors
use fastapi_shipment_import.Services.Process.{
  Counts, prepare, persist_chunk, record_counts, beat, complete_import,
}
use fastapi_shipment_import.Services.Watchdog.{
  recover_in_transaction, recover_one, recover_each, stale_imports, failed_job, requeued_job,
}
use fastapi_shipment_import.Validation.Results.{ValidationChunkResult}
use fastapi_shipment_import.Invariants.Keeps.{Keeps, Keeps-bind, Keeps-pure}
use fastapi_shipment_import.Invariants.Updates.{with_jobs}
use fastapi_shipment_import.Invariants.Counters.{guarded_write, prepare-after}
use fastapi_shipment_import.Services.CreateImport.{Upload, insert_records}
use fastapi_shipment_import.Invariants.Uploads.{insert_records-Stored, stored_job}
use fastapi_shipment_import.Worker.Rely.{
  HasCounts, Holds, insert_shipments-jobs, insert_errors-jobs,
}

module _ (i token : ℕ) (n : Counts) where
  abbrev Kept : Db → Type 0
  Kept db = Holds i token n db.import_jobs

  with_jobs-Holds :
      (p : ImportJob → Bool) (f : ImportJob → ImportJob) (db : Db)
      → ((job : ImportJob) → p job ≡ true → owned i token (f job) ≢ true)
      → Kept db
      → Kept (with_jobs p f db)
  with_jobs-Holds p f db lost =
      All-update_where (λ job. owned i token job ≡ true → HasCounts n job)
        (λ job. owned i token job ≡ true → HasCounts n job) p f db.import_jobs
        (λ job q v o. absurd (lost job q o)) (λ job q v. v)

  pub claim-Holds :
      (skipped : ℕ → Bool) (now j t : ℕ) (worker : String)
      → t ≢ token
      → Keeps Kept Kept (claim_pending_import skipped now j t worker)
  unfolding claim_pending_import
  claim-Holds skipped now j t worker other db a db' h e =
      let after : Kept (with_jobs (claimable j) (claimed_job now t worker) db) =
        with_jobs-Holds (claimable j) (claimed_job now t worker) db
          (λ job q o. other (ground (arith, o))) h in
      ground (arith, after)

  -- A new import is in nobody's hands.
  pub uploaded-Holds :
      (settings : Settings) (job_id event_id : ℕ) (u : Upload) (now : ℕ)
      → Keeps Kept Kept (insert_records settings job_id event_id u now)
  uploaded-Holds settings job_id event_id u now db id db' h e =
      let done = insert_records-Stored settings job_id event_id u now db id db' e in
      let job = stored_job settings job_id event_id u now in
      rw done.after (
        All-append (λ job. owned i token job ≡ true → HasCounts n job) db.import_jobs (job ∷ []) h
          ((λ o. absurd (ground (arith, o))), tt))

  pub exhausted-Holds :
      (now j : ℕ) (reason : String)
      → Keeps Kept Kept (fail_pending_import_after_dispatch_exhausted now j reason)
  unfolding fail_pending_import_after_dispatch_exhausted
  exhausted-Holds now j reason db a db' h e =
      let after : Kept (with_jobs (waiting j) (dispatch_exhausted_job now reason) db) =
        with_jobs-Holds (waiting j) (dispatch_exhausted_job now reason) db
          (λ job q o. ground (arith, o)) h in
      ground (arith, after)

  recover_one-Holds :
      (now_db outbox_id now : ℕ) (job : ImportJob)
      → Keeps Kept Kept (recover_one now_db outbox_id now job)
  unfolding recover_one
  recover_one-Holds now_db outbox_id now job db a db' h e =
      let failed : Kept (with_jobs (λ (j : ImportJob). j.id == job.id) (failed_job now_db now) db) =
        with_jobs-Holds _ (failed_job now_db now) db (λ j q o. ground (arith, o)) h in
      let requeued : Kept
          (with_jobs (λ (j : ImportJob). j.id == job.id) (requeued_job now_db now) db) =
        with_jobs-Holds _ (requeued_job now_db now) db (λ j q o. ground (arith, o)) h in
      ground (arith, failed, requeued)

  recover_each-Holds :
      (uuid4 : ℕ → ℕ) (now_db now k : ℕ) (jobs : List ImportJob)
      → Keeps Kept Kept (recover_each uuid4 now_db now k jobs)
  unfolding recover_each
  recover_each-Holds uuid4 now_db now k [] db a db' h e = ground (arith, h)
  recover_each-Holds uuid4 now_db now k (job ∷ jobs) db a db' h e =
      Keeps-bind Kept Kept Kept (recover_one now_db (uuid4 k) now job)
        (λ _. recover_each uuid4 now_db now (suc k) jobs)
        (recover_one-Holds now_db (uuid4 k) now job)
        (λ _. recover_each-Holds uuid4 now_db now (suc k) jobs) db a db' h e

  pub recovered-Holds :
      (skipped : ℕ → Bool) (uuid4 : ℕ → ℕ) (settings : Settings) (batch_size now now_db : ℕ)
      → Keeps Kept Kept (recover_in_transaction skipped uuid4 settings batch_size now now_db)
  unfolding recover_in_transaction
  recovered-Holds skipped uuid4 settings batch_size now now_db db =
      let stale =
        stale_imports skipped batch_size (now - settings.processing_stale_timeout_seconds) db in
      Keeps-bind Kept Kept Kept (recover_each uuid4 now_db now 0 stale) (λ _. pure (length stale))
        (recover_each-Holds uuid4 now_db now 0 stale) (λ _. Keeps-pure Kept (length stale)) db

  module _ (claimed : ClaimedImport) (other : claimed.processing_token ≢ token) where
    counted-Holds :
        (c : ValidationChunkResult) (now : ℕ) → Keeps Kept Kept (record_counts claimed c now)
    unfolding record_counts record_chunk_counts
    counted-Holds c now db u db' h e =
        let values = chunk_values c.total_rows c.success_count c.failed_count in
        let done = guarded_write now claimed.import_id claimed.processing_token values db u db' e in
        rw (done.0) (with_jobs-Holds _ _ db (λ job q o. other (ground (arith, q, o))) h)

    beaten-Holds : (now : ℕ) → Keeps Kept Kept (beat claimed now)
    unfolding beat heartbeat
    beaten-Holds now db u db' h e =
        let done =
          guarded_write now claimed.import_id claimed.processing_token (heartbeat_values now) db u
            db' e in
        rw (done.0) (with_jobs-Holds _ _ db (λ job q o. other (ground (arith, q, o))) h)

    pub persist-Holds :
        (c : ValidationChunkResult) (now : ℕ) → Keeps Kept Kept (persist_chunk claimed c now)
    unfolding persist_chunk
    persist-Holds c now =
        Keeps-bind Kept Kept Kept (Shipments.bulk_insert now c.shipments) _
          (insert_shipments-jobs (Holds i token n) now c.shipments)
          λ _.
            Keeps-bind Kept Kept Kept (ImportErrors.bulk_insert now c.import_errors) _
              (insert_errors-jobs (Holds i token n) now c.import_errors)
              λ _.
                Keeps-bind Kept Kept Kept (record_counts claimed c now) _ (counted-Holds c now)
                  (λ _. beaten-Holds now)

    pub prepared-Holds : (now : ℕ) → Keeps Kept Kept (prepare claimed now)
    prepared-Holds now db u db' h e =
        let done = prepare-after claimed now db u db' e in
        rw (done.0) (
          with_jobs-Holds (owned claimed.import_id claimed.processing_token)
            (λ job. record (reset_values job) { updated_at = now }) db
            (λ job q o. other (ground (arith, q, o))) h)

    pub completed-Holds :
        (total success failed now : ℕ)
        → Keeps Kept Kept (complete_import claimed total success failed now)
    unfolding complete_import complete
    completed-Holds total success failed now db u db' h e =
        let done =
          guarded_write now claimed.import_id claimed.processing_token
            (complete_values now total success failed) db u db' e in
        rw (done.0) (with_jobs-Holds _ _ db (λ job q o. ground (arith, q, o)) h)

    pub failed-Holds :
        (now : ℕ) (reason : String)
        → Keeps Kept Kept (fail now claimed.import_id claimed.processing_token reason)
    unfolding fail update_current_processing_import
    failed-Holds now reason db u db' h e =
        let after =
          with_jobs-Holds (owned claimed.import_id claimed.processing_token)
            (λ job. record (fail_values now reason job) { updated_at = now }) db
            (λ job q o. ground (arith, q, o)) h in
        ground (arith, after)

    pub requeued-Holds :
        (now : ℕ) (reason : String)
        → Keeps Kept Kept (requeue_for_retry now claimed.import_id claimed.processing_token reason)
    unfolding requeue_for_retry update_current_processing_import
    requeued-Holds now reason db u db' h e =
        let after =
          with_jobs-Holds (owned claimed.import_id claimed.processing_token)
            (λ job. record (requeue_values reason job) { updated_at = now }) db
            (λ job q o. ground (arith, q, o)) h in
        ground (arith, after)
