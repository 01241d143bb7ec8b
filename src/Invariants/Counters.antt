-- ===== src/Invariants/Counters.antt =====
-- The token-checked writes that change the counters of an import.
use fastapi_shipment_import.Base.{
  ℕ, ◌+◌, ◌≤◌, ◌≡◌, refl, Bool, true, false, ◌&&◌, arith, All, All-mono, All-both, All-update_where,
  count_where, count-All, ◌==◌, count-delete_where_self, count-delete_where_ne, delete_where,
  count-delete_where-le, All-delete_where, String, column_is, Bool-cases, List, inr, inl,
}
use fastapi_shipment_import.Models.{Db, ImportJob, ImportError, Shipment, is_processing}
use fastapi_shipment_import.Session
use fastapi_shipment_import.Session.{Tx, ok, >>=-ok, stale_import_worker_error}
use fastapi_shipment_import.Repositories.Claims.{ClaimedImport}
use fastapi_shipment_import.Repositories.Progress.{
  owned, reset_values, chunk_values, complete_values, update_current_processing_import,
  reset_for_reprocessing, record_chunk_counts, complete,
}
use fastapi_shipment_import.Repositories.Shipments
use fastapi_shipment_import.Repositories.Shipments.{in_import, has_code, checks_hold}
use fastapi_shipment_import.Repositories.ImportErrors
use fastapi_shipment_import.Services.Process.{reset_counts, prepare, record_counts, complete_import}
use fastapi_shipment_import.Validation.Results.{ValidationChunkResult}
use fastapi_shipment_import.Invariants.Jobs.{
  JobIsValid, reset_values-IsValid, chunk_values-IsValid, complete_values-IsValid,
}
use fastapi_shipment_import.Invariants.Keeps.{Keeps}
use fastapi_shipment_import.Invariants.Sound.{has_id, Counted, IsSoundBut, IsSound, Referenced}
use fastapi_shipment_import.Invariants.Updates.{with_jobs, keyed-with_jobs}

pub IsSoundBut-zero : {i j : ℕ} {db : Db} → IsSoundBut i 0 db → IsSoundBut j 0 db
IsSoundBut-zero {i} {j} {db} h = record {
  jobs_keyed = h.jobs_keyed;
  jobs_valid = h.jobs_valid;
  codes_unique = h.codes_unique;
  shipments_checked = h.shipments_checked;
  counted =
      All-mono (Counted db.shipments i 0) (Counted db.shipments j 0) (λ job c. ground (arith, c))
        db.import_jobs h.counted;
  referenced = h.referenced;
}

-- A write that reports one row has found every row of its import in its hands.
pub owned_rows :
    (i token : ℕ) {j extra : ℕ} {db : Db}
    → IsSoundBut j extra db
    → (count_where (owned i token) db.import_jobs == 1) ≡ true
    → All
        (λ job.
          has_id i job ≡ true
          → (is_processing job.status && column_is job.processing_token token) ≡ true)
        db.import_jobs
owned_rows i token {db = db} h one =
    count-All (has_id i) (λ job. is_processing job.status && column_is job.processing_token token)
      db.import_jobs (ground (arith, h.jobs_keyed i))

abbrev pub written : ℕ → ℕ → ℕ → (ImportJob → ImportJob) → Db → Db
written now i token values =
    with_jobs (owned i token) (λ job. record (values job) { updated_at = now })

-- A required write that commits has found its row.
pub guarded_write :
    (now i token : ℕ) (values : ImportJob → ImportJob) (db : Db) (u : Unit {0}) (db' : Db)
    → Session.◌>>=◌
        (update_current_processing_import now i token values)
        (λ done. Session.require done stale_import_worker_error)
        db
      ≡ ok (u, db')
    → (db' ≡ written now i token values db)
      × ((count_where (owned i token) db.import_jobs == 1) ≡ true)
unfolding update_current_processing_import
guarded_write now i token values db u db' e =
    elim (Bool-cases (count_where (owned i token) db.import_jobs == 1)) [
      | inl t ↦ (ground (arith, t), t)
      | inr f ↦ absurd (ground (arith, f))
    ]

-- After such a write, and whatever it goes with does to the shipments, the counters of the import
-- have to be right, and those of the other imports have to stay so.
module _ (now i token : ℕ) (values : ImportJob → ImportJob)
    (same_id : (job : ImportJob) → (values job).id ≡ job.id)
    (valid : (job : ImportJob)
      → owned i token job ≡ true
      → JobIsValid job
      → JobIsValid (record (values job) { updated_at = now })) where
  pub written-IsSound :
      {j extra : ℕ} {db : Db} (h : IsSoundBut j extra db)
      → (count_where (owned i token) db.import_jobs == 1) ≡ true
      → (shipments : List Shipment) (errors : List ImportError)
      → ((c : String) → count_where (has_code c) shipments ≤ 1)
      → All (λ s. checks_hold s ≡ true) shipments
      → All (Referenced db.import_jobs) shipments
      → ((job : ImportJob)
          → owned i token job ≡ true
          → Counted db.shipments j extra job
          → Counted shipments 0 0 (record (values job) { updated_at = now }))
      → ((job : ImportJob)
          → has_id i job ≡ false
          → Counted db.shipments j extra job
          → Counted shipments 0 0 job)
      → IsSound
          (record (written now i token values db) { shipments = shipments; import_errors = errors })
  written-IsSound {j} {extra} {db} h one shipments errors codes checked refs hit miss = record {
    jobs_keyed = λ k.
        let same =
          keyed-with_jobs (owned i token) (λ job. record (values job) { updated_at = now }) same_id
            db k in
        rw same (h.jobs_keyed k);
    jobs_valid =
        All-update_where JobIsValid JobIsValid (owned i token)
          (λ job. record (values job) { updated_at = now }) db.import_jobs valid (λ job q v. v)
          h.jobs_valid;
    codes_unique = codes;
    shipments_checked = checked;
    counted =
        All-update_where
          (λ job. Counted db.shipments j extra job × (has_id i job ≡ true → in_hand job ≡ true))
          (Counted shipments 0 0) (owned i token) (λ job. record (values job) { updated_at = now })
          db.import_jobs (λ job q v. hit job q v.0) (λ job q v. miss job (other job q v.1) v.0)
          (All-both (Counted db.shipments j extra) (λ job. has_id i job ≡ true → in_hand job ≡ true)
            db.import_jobs h.counted (owned_rows i token h one));
    referenced =
        All-mono (Referenced db.import_jobs)
          (Referenced (written now i token values db).import_jobs)
          (λ s r.
            let same =
              keyed-with_jobs (owned i token) (λ job. record (values job) { updated_at = now })
                same_id db s.import_id in
            ground (arith, r, same))
          shipments refs;
  }
    where
      in_hand : ImportJob → Bool
      in_hand job = is_processing job.status && column_is job.processing_token token

      other :
          (job : ImportJob)
          → owned i token job ≡ false
          → (has_id i job ≡ true → in_hand job ≡ true)
          → has_id i job ≡ false
      other job q all = elim (Bool-cases (has_id i job)) [
        | inl t ↦ absurd (ground (arith, t, q, all t))
        | inr f ↦ f
      ]

-- The counts of a chunk whose shipments are stored.
pub record_counts-IsSound :
    (claimed : ClaimedImport) (c : ValidationChunkResult) (now : ℕ)
    → c.total_rows ≡ c.success_count + c.failed_count
    → Keeps (IsSoundBut claimed.import_id c.success_count) IsSound (record_counts claimed c now)
unfolding record_counts record_chunk_counts
record_counts-IsSound claimed c now split db u db' h e =
    let i = claimed.import_id in
    let token = claimed.processing_token in
    let values = chunk_values c.total_rows c.success_count c.failed_count in
    let (after, one) = guarded_write now i token values db u db' e in
    rw after (
      written-IsSound now i token values (λ job. refl)
        (λ job q v.
          chunk_values-IsValid job v i token now q c.total_rows c.success_count c.failed_count
            split)
        h one db.shipments db.import_errors h.codes_unique h.shipments_checked h.referenced
        (λ job q v. ground (arith, v, q)) (λ job q v. ground (arith, v, q)))

-- When the completion commits on a sound database, with a total that is the sum of successes and
-- failures and as many successes as the import has shipments, the database is sound.
pub complete_import-IsSound :
    (claimed : ClaimedImport) (total success failed now : ℕ) (db : Db) (u : Unit {0}) (db' : Db)
    → total ≡ success + failed
    → count_where (in_import claimed.import_id) db.shipments ≡ success
    → IsSound db
    → complete_import claimed total success failed now db ≡ ok (u, db')
    → IsSound db'
unfolding complete_import complete
complete_import-IsSound claimed total success failed now db u db' split counted h e =
    let i = claimed.import_id in
    let token = claimed.processing_token in
    let values = complete_values now total success failed in
    let (after, one) = guarded_write now i token values db u db' e in
    rw after (
      written-IsSound now i token values (λ job. refl)
        (λ job q v. complete_values-IsValid job v i token now q total success failed split) h one
        db.shipments db.import_errors h.codes_unique h.shipments_checked h.referenced
        (λ job q v. ground (arith, v, q, counted)) (λ job q v. v))

-- The reset: counters at zero, and no shipment or error of the import left.
pub prepare-after :
    (claimed : ClaimedImport) (now : ℕ) (db : Db) (u : Unit {0}) (db' : Db)
    → prepare claimed now db ≡ ok (u, db')
    → (db' ≡ record (written now claimed.import_id claimed.processing_token reset_values db) {
      shipments = delete_where (in_import claimed.import_id) db.shipments;
      import_errors =
          delete_where (ImportErrors.error_in_import claimed.import_id) db.import_errors;
    })
      × ((count_where (owned claimed.import_id claimed.processing_token) db.import_jobs == 1)
          ≡ true)
unfolding prepare Shipments.delete_by_import_id ImportErrors.delete_by_import_id
prepare-after claimed now db u db' e =
    let (v, mid, first, rest) = >>=-ok (reset_counts claimed now) _ db e in
    let (after, one) =
      guarded_write now claimed.import_id claimed.processing_token reset_values db v mid
        (unfold reset_counts reset_for_reprocessing in first) in
    (ground (arith, after, rest), one)

-- When _prepare_for_reprocessing commits on a sound database, the database is sound: the counters
-- are reset together with the import's shipments.
pub prepare-IsSound :
    (claimed : ClaimedImport) (now : ℕ)
    → (db : Db) (a : Unit {0}) (db' : Db) → IsSound db
    → prepare claimed now db ≡ ok (a, db')
    → IsSound db'
prepare-IsSound claimed now db u db' h e =
    let i = claimed.import_id in
    let token = claimed.processing_token in
    let (after, one) = prepare-after claimed now db u db' e in
    rw after (
      written-IsSound now i token reset_values (λ job. refl)
        (λ job q v. reset_values-IsValid job v i token now q) h one
        (delete_where (in_import i) db.shipments)
        (delete_where (ImportErrors.error_in_import i) db.import_errors)
        (λ c.
          omega (
            arith,
            count-delete_where-le (in_import i) (has_code c) db.shipments,
            h.codes_unique c,
          ))
        (All-delete_where (λ s. checks_hold s ≡ true) (in_import i) db.shipments
          h.shipments_checked)
        (All-delete_where (Referenced db.import_jobs) (in_import i) db.shipments h.referenced)
        (λ job q v. ground (arith, v, q, count-delete_where_self (in_import i) db.shipments))
        (λ job q v.
          let same =
            count-delete_where_ne (in_import i) (in_import job.id) db.shipments
              (λ s t. ground (arith, t, q)) in
          ground (arith, v, same)))
