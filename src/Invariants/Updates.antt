-- ===== src/Invariants/Updates.antt =====
-- Transactions that change rows of `import_jobs` and leave ids, success counts and shipments alone
-- keep the invariant.
use fastapi_shipment_import.Base.{
  ℕ, suc, ◌-◌, length, ◌≡◌, refl, Bool, true, List, [], ◌∷◌, arith, All-update_where, update_where,
  count_where, count-update_where, String, ◌==◌, Option, All-mono,
}
use fastapi_shipment_import.Models.{Db, ImportJob, ImportDispatchOutbox}
use fastapi_shipment_import.Session.{>>=-ok, pure, ok}
use fastapi_shipment_import.Settings.{Settings}
use fastapi_shipment_import.Repositories.Claims.{
  claimable, claimed_job, claim_pending_import, ClaimedImport,
}
use fastapi_shipment_import.Repositories.Imports.{
  waiting, dispatch_exhausted_job, fail_pending_import_after_dispatch_exhausted,
}
use fastapi_shipment_import.Repositories.Progress.{
  owned, heartbeat_values, fail_values, requeue_values, heartbeat, fail, requeue_for_retry,
  update_current_processing_import,
}
use fastapi_shipment_import.Services.Watchdog.{
  failed_job, requeued_job, recover_one, recover_each, recover_in_transaction, stale_imports,
}
use fastapi_shipment_import.Invariants.Jobs.{
  JobIsValid, claimed_job-IsValid, heartbeat_values-IsValid, fail_values-IsValid,
  requeue_values-IsValid, dispatch_exhausted_job-IsValid, failed_job-IsValid, requeued_job-IsValid,
}
use fastapi_shipment_import.Invariants.Keeps.{Keeps, Keeps-bind, Keeps-pure}
use fastapi_shipment_import.Invariants.Sound.{has_id, Counted, IsSoundBut, IsSound, Referenced}

-- The database after an UPDATE of `import_jobs`.
abbrev pub with_jobs : (ImportJob → Bool) → (ImportJob → ImportJob) → Db → Db
with_jobs p f db = record db { import_jobs = update_where p f db.import_jobs }

module _ (p : ImportJob → Bool) (f : ImportJob → ImportJob)
    (same_id : (job : ImportJob) → (f job).id ≡ job.id) where
  pub keyed-with_jobs :
      (db : Db) (j : ℕ)
      → count_where (has_id j) (with_jobs p f db).import_jobs
        ≡ count_where (has_id j) db.import_jobs
  keyed-with_jobs db j = count-update_where p (has_id j) f db.import_jobs (λ job e. rw same_id)

  pub with_jobs-IsSound :
      ((job : ImportJob) → (f job).success_count ≡ job.success_count)
      → ((job : ImportJob) → p job ≡ true → JobIsValid job → JobIsValid (f job))
      → {i extra : ℕ} {db : Db} → IsSoundBut i extra db
      → IsSoundBut i extra (with_jobs p f db)
  with_jobs-IsSound same_success valid {i} {extra} {db} h = record {
    jobs_keyed = λ j. rw (keyed-with_jobs db j) (h.jobs_keyed j);
    jobs_valid =
        All-update_where JobIsValid JobIsValid p f db.import_jobs valid (λ job e v. v) h.jobs_valid;
    codes_unique = h.codes_unique;
    shipments_checked = h.shipments_checked;
    counted =
        All-update_where (Counted db.shipments i extra) (Counted db.shipments i extra) p f
          db.import_jobs (λ job e c. rw (same_id job, same_success job) c) (λ job e c. c) h.counted;
    referenced =
        All-mono (Referenced db.import_jobs) (Referenced (with_jobs p f db).import_jobs)
          (λ s r. ground (arith, r, keyed-with_jobs db s.import_id)) db.shipments h.referenced;
  }

-- A change of the outbox alone.
pub outbox-IsSound :
    {i extra : ℕ} {db : Db} (events : List ImportDispatchOutbox)
    → IsSoundBut i extra db
    → IsSoundBut i extra (record db { import_dispatch_outbox = events })
outbox-IsSound events h = record {
  jobs_keyed = h.jobs_keyed;
  jobs_valid = h.jobs_valid;
  codes_unique = h.codes_unique;
  shipments_checked = h.shipments_checked;
  counted = h.counted;
  referenced = h.referenced;
}

-- A claim, whether or not it finds the import, keeps a sound database sound; in particular
-- attempt_count stays within max_attempts, and the token and the worker's name are set exactly
-- while the import is PROCESSING.
pub claim_pending_import-IsSound :
    (skipped : ℕ → Bool) (now import_id token : ℕ) (worker : String)
    → (db : Db) (a : Option ClaimedImport) (db' : Db) → IsSound db
    → claim_pending_import skipped now import_id token worker db ≡ ok (a, db')
    → IsSound db'
unfolding claim_pending_import
claim_pending_import-IsSound skipped now import_id token worker db a db' h e =
    let after : IsSound (with_jobs (claimable import_id) (claimed_job now token worker) db) =
      with_jobs-IsSound _ _ (λ job. refl) (λ job. refl)
        (λ job q v. claimed_job-IsValid job v import_id now token worker q) h in
    ground (arith, after)

-- A heartbeat.
pub heartbeat-IsSound :
    (now import_id token i extra : ℕ)
    → Keeps (IsSoundBut i extra) (IsSoundBut i extra) (heartbeat now import_id token)
unfolding heartbeat update_current_processing_import
heartbeat-IsSound now import_id token i extra db a db' h e =
    let after : IsSoundBut i extra (
        with_jobs (owned import_id token)
          (λ job. record (heartbeat_values now job) { updated_at = now }) db) =
      with_jobs-IsSound _ _ (λ job. refl) (λ job. refl)
        (λ job q v. heartbeat_values-IsValid job v import_id token now q) h in
    ground (arith, after)

-- A worker that fails its import keeps a sound database sound, whether or not it still owns it.
pub fail-IsSound :
    (now import_id token : ℕ) (reason : String)
    → (db : Db) (a : Bool) (db' : Db) → IsSound db
    → fail now import_id token reason db ≡ ok (a, db')
    → IsSound db'
unfolding fail update_current_processing_import
fail-IsSound now import_id token reason db a db' h e =
    let after : IsSound (
        with_jobs (owned import_id token)
          (λ job. record (fail_values now reason job) { updated_at = now }) db) =
      with_jobs-IsSound _ _ (λ job. refl) (λ job. refl)
        (λ job q v. fail_values-IsValid job v import_id token now q reason) h in
    ground (arith, after)

-- A worker that gives its import back keeps a sound database sound, whether or not it still owns
-- it.
pub requeue_for_retry-IsSound :
    (now import_id token : ℕ) (reason : String)
    → (db : Db) (a : Bool) (db' : Db) → IsSound db
    → requeue_for_retry now import_id token reason db ≡ ok (a, db')
    → IsSound db'
unfolding requeue_for_retry update_current_processing_import
requeue_for_retry-IsSound now import_id token reason db a db' h e =
    let after : IsSound (
        with_jobs (owned import_id token)
          (λ job. record (requeue_values reason job) { updated_at = now }) db) =
      with_jobs-IsSound _ _ (λ job. refl) (λ job. refl)
        (λ job q v. requeue_values-IsValid job v import_id token now q reason) h in
    ground (arith, after)

-- Failing a pending import after its dispatch is exhausted keeps a sound database sound, whether or
-- not the import is still pending.
pub fail_pending_import_after_dispatch_exhausted-IsSound :
    (now import_id : ℕ) (reason : String)
    → (db : Db) (a : Bool) (db' : Db) → IsSound db
    → fail_pending_import_after_dispatch_exhausted now import_id reason db ≡ ok (a, db')
    → IsSound db'
unfolding fail_pending_import_after_dispatch_exhausted
fail_pending_import_after_dispatch_exhausted-IsSound now import_id reason db a db' h e =
    let after : IsSound (with_jobs (waiting import_id) (dispatch_exhausted_job now reason) db) =
      with_jobs-IsSound _ _ (λ job. refl) (λ job. refl)
        (λ job q v. dispatch_exhausted_job-IsValid job v import_id now reason q) h in
    ground (arith, after)

-- The watchdog on one stale import.
pub recover_one-IsSound :
    (now_db outbox_id now : ℕ) (job : ImportJob)
    → Keeps IsSound IsSound (recover_one now_db outbox_id now job)
unfolding recover_one
recover_one-IsSound now_db outbox_id now job db a db' h e =
    let failed : IsSound
        (with_jobs (λ (j : ImportJob). j.id == job.id) (failed_job now_db now) db) =
      with_jobs-IsSound _ _ (λ j. refl) (λ j. refl) (λ j q v. failed_job-IsValid j v now_db now)
        h in
    let requeued : IsSound
        (with_jobs (λ (j : ImportJob). j.id == job.id) (requeued_job now_db now) db) =
      with_jobs-IsSound _ _ (λ j. refl) (λ j. refl) (λ j q v. requeued_job-IsValid j v now_db now)
        h in
    ground (arith, failed, requeued)

recover_each-IsSound :
    (uuid4 : ℕ → ℕ) (now_db now k : ℕ) (jobs : List ImportJob)
    → Keeps IsSound IsSound (recover_each uuid4 now_db now k jobs)
unfolding recover_each
recover_each-IsSound uuid4 now_db now k [] db a db' h e = ground (arith, h)
recover_each-IsSound uuid4 now_db now k (job ∷ jobs) db a db' h e =
    let (u, mid, first, rest) =
      >>=-ok (recover_one now_db (uuid4 k) now job)
        (λ _. recover_each uuid4 now_db now (suc k) jobs) db e in
    recover_each-IsSound uuid4 now_db now (suc k) jobs mid a db'
      (recover_one-IsSound now_db (uuid4 k) now job db u mid h first) rest

-- The watchdog's transaction, which fails or requeues every stale import of a batch, keeps a sound
-- database sound when it commits.
pub recover_in_transaction-IsSound :
    (skipped : ℕ → Bool) (uuid4 : ℕ → ℕ) (settings : Settings) (batch_size now now_db : ℕ)
    → (db : Db) (a : ℕ) (db' : Db) → IsSound db
    → recover_in_transaction skipped uuid4 settings batch_size now now_db db ≡ ok (a, db')
    → IsSound db'
unfolding recover_in_transaction
recover_in_transaction-IsSound skipped uuid4 settings batch_size now now_db db a db' h e =
    let stale =
      stale_imports skipped batch_size (now - settings.processing_stale_timeout_seconds) db in
    Keeps-bind IsSound IsSound IsSound (recover_each uuid4 now_db now 0 stale)
      (λ _. pure (length stale)) (recover_each-IsSound uuid4 now_db now 0 stale)
      (λ _. Keeps-pure IsSound (length stale)) db a db' h e
