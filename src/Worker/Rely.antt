-- ===== src/Worker/Rely.antt =====
-- What a worker knows of its import between its transactions, and what it needs of the others.
use fastapi_shipment_import.Base.{
  ℕ, ◌≡◌, refl, true, arith, All, All-update_where, inl, inr, List, [], ◌∷◌, All-unit,
}
use fastapi_shipment_import.Models.{Db, ImportJob, Shipment, ImportError}
use fastapi_shipment_import.Session.{Failure, Tx, ok, raised, Result-cases, integrity_error}
use fastapi_shipment_import.Service.{Env, World, seen, transaction}
use fastapi_shipment_import.Repositories.Claims.{ClaimedImport}
use fastapi_shipment_import.Repositories.Progress.{
  owned, chunk_values, heartbeat_values, record_chunk_counts, heartbeat,
}
use fastapi_shipment_import.Repositories.Shipments
use fastapi_shipment_import.Repositories.ImportErrors
use fastapi_shipment_import.Services.Process.{
  Counts, add_counts, persist_chunk, record_counts, beat, prepare, no_counts,
}
use fastapi_shipment_import.Validation.Results.{ValidationChunkResult}
use fastapi_shipment_import.Invariants.Keeps.{Keeps, Keeps-bind}
use fastapi_shipment_import.Invariants.Sound.{IsSound}
use fastapi_shipment_import.Invariants.Counters.{guarded_write, written, prepare-after}

abbrev pub HasCounts : Counts → ImportJob → Type 0
HasCounts n job =
    (job.total_rows ≡ n.total_rows)
    × (job.success_count ≡ n.success_count)
    × (job.failed_count ≡ n.failed_count)

-- Where the import is still in the hands of the token, its counters are the worker's own.
abbrev pub Holds : ℕ → ℕ → Counts → List ImportJob → Type 0
Holds i token n = All (λ job. owned i token job ≡ true → HasCounts n job)

-- The other processes keep the invariant, and write nothing under the worker's token.
pub record Respects (env : Env) (i token : ℕ) : Type 0 where
  pub sound : (k : ℕ) (db : Db) → IsSound db → IsSound (env.interfere k db)
  pub mine :
      (k : ℕ) (db : Db) (n : Counts)
      → Holds i token n db.import_jobs
      → Holds i token n (env.interfere k db).import_jobs

module _ (env : Env) {A : Type 0} (body : ℕ → Tx A) (w : World) where
  pub transaction-ok :
      (a : A)
      → (transaction env body w).0 ≡ ok a
      → body (env.clock w.ticks) (seen env w) ≡ ok (a, (transaction env body w).1.db)
  unfolding transaction
  transaction-ok a e = elim (Result-cases (body (env.clock w.ticks) (seen env w))) [
    | inl (r, q) ↦ ground (arith, q)
    | inr (x, q) ↦ absurd (ground (arith, q))
  ]

  -- A transaction that raised has changed nothing.
  pub transaction-raised :
      (x : Failure)
      → (transaction env body w).0 ≡ raised x
      → (transaction env body w).1.db ≡ seen env w
  unfolding transaction
  transaction-raised x e = elim (Result-cases (body (env.clock w.ticks) (seen env w))) [
    | inl (r, q) ↦ ground (arith, q)
    | inr (y, q) ↦ ground (arith, q)
  ]

module _ (env : Env) {A : Type 0} (body : ℕ → Tx A) (w : World) where
  -- An IntegrityError comes from the body, never from the connection.
  pub transaction-integrity :
      (transaction env body w).0 ≡ raised integrity_error
      → body (env.clock w.ticks) (seen env w) ≡ raised integrity_error
  unfolding transaction
  transaction-integrity e = elim (Result-cases (body (env.clock w.ticks) (seen env w))) [
    | inl (r, q) ↦ absurd (ground (arith, q))
    | inr (y, q) ↦ ground (arith, q)
  ]

-- Inserts leave `import_jobs` alone, so they keep whatever holds of it.
module _ (R : List ImportJob → Type 0) (now : ℕ) where
  abbrev OfJobs : Db → Type 0
  OfJobs db = R db.import_jobs

  insert_shipment-jobs : (s : Shipment) → Keeps OfJobs OfJobs (Shipments.insert_shipment now s)
  unfolding Shipments.insert_shipment
  insert_shipment-jobs s db u db' h e = ground arith

  pub insert_shipments-jobs :
      (ss : List Shipment) → Keeps OfJobs OfJobs (Shipments.bulk_insert now ss)
  unfolding Shipments.bulk_insert
  insert_shipments-jobs [] db u db' h e = ground (arith, h)
  insert_shipments-jobs (s ∷ ss) db u db' h e =
      Keeps-bind OfJobs OfJobs OfJobs (Shipments.insert_shipment now s)
        (λ _. Shipments.bulk_insert now ss) (insert_shipment-jobs s) (λ _. insert_shipments-jobs ss)
        db u db' h e

  insert_error-jobs :
      (x : ImportError) → Keeps OfJobs OfJobs (ImportErrors.insert_import_error now x)
  unfolding ImportErrors.insert_import_error
  insert_error-jobs x db u db' h e = ground arith

  pub insert_errors-jobs :
      (xs : List ImportError) → Keeps OfJobs OfJobs (ImportErrors.bulk_insert now xs)
  unfolding ImportErrors.bulk_insert
  insert_errors-jobs [] db u db' h e = ground (arith, h)
  insert_errors-jobs (x ∷ xs) db u db' h e =
      Keeps-bind OfJobs OfJobs OfJobs (ImportErrors.insert_import_error now x)
        (λ _. ImportErrors.bulk_insert now xs) (insert_error-jobs x) (λ _. insert_errors-jobs xs) db
        u db' h e

module _ (i token now : ℕ) (values : ImportJob → ImportJob) (n n' : Counts)
    (counts : (job : ImportJob) → HasCounts n job → HasCounts n' (values job)) where
  pub written-Holds :
      (db : Db)
      → Holds i token n db.import_jobs
      → Holds i token n' (written now i token values db).import_jobs
  written-Holds db =
      All-update_where (λ job. owned i token job ≡ true → HasCounts n job)
        (λ job. owned i token job ≡ true → HasCounts n' job) (owned i token)
        (λ job. record (values job) { updated_at = now }) db.import_jobs
        (λ job q v _. let had = counts job (v q) in (had.0, had.1, had.2))
        (λ job q v o. absurd (ground (arith, q, o)))

module _ (claimed : ClaimedImport) where
  abbrev Mine : Counts → Db → Type 0
  Mine n db = Holds claimed.import_id claimed.processing_token n db.import_jobs

  record_counts-Holds :
      (n : Counts) (c : ValidationChunkResult) (now : ℕ)
      → Keeps (Mine n) (Mine (add_counts n c)) (record_counts claimed c now)
  unfolding record_counts record_chunk_counts
  record_counts-Holds n c now db u db' h e =
      let values = chunk_values c.total_rows c.success_count c.failed_count in
      let done = guarded_write now claimed.import_id claimed.processing_token values db u db' e in
      rw (done.0) (
        written-Holds claimed.import_id claimed.processing_token now values n (add_counts n c)
          (λ job v. ground (arith, v)) db h)

  beat-Holds : (n : Counts) (now : ℕ) → Keeps (Mine n) (Mine n) (beat claimed now)
  unfolding beat heartbeat
  beat-Holds n now db u db' h e =
      let done =
        guarded_write now claimed.import_id claimed.processing_token (heartbeat_values now) db u db'
          e in
      rw (done.0) (
        written-Holds claimed.import_id claimed.processing_token now (heartbeat_values now) n n
          (λ job v. v) db h)

  -- A stored chunk has moved the counters of the import as the worker moves its own.
  pub persist_chunk-Holds :
      (n : Counts) (c : ValidationChunkResult) (now : ℕ)
      → Keeps (Mine n) (Mine (add_counts n c)) (persist_chunk claimed c now)
  unfolding persist_chunk
  persist_chunk-Holds n c now =
      let before = Holds claimed.import_id claimed.processing_token n in
      let after = Mine (add_counts n c) in
      Keeps-bind (Mine n) (Mine n) after (Shipments.bulk_insert now c.shipments) _
        (insert_shipments-jobs before now c.shipments)
        λ _.
          Keeps-bind (Mine n) (Mine n) after (ImportErrors.bulk_insert now c.import_errors) _
            (insert_errors-jobs before now c.import_errors)
            λ _.
              Keeps-bind (Mine n) after after (record_counts claimed c now) _
                (record_counts-Holds n c now) (λ _. beat-Holds (add_counts n c) now)

  -- After the reset the counters are at zero.
  pub prepare-Holds :
      (now : ℕ) (db : Db) (u : Unit {0}) (db' : Db)
      → prepare claimed now db ≡ ok (u, db')
      → Mine no_counts db'
  prepare-Holds now db u db' e = rw ((prepare-after claimed now db u db' e).0) (
      All-update_where (λ job. Unit {0}) _ (owned claimed.import_id claimed.processing_token) _
        db.import_jobs (λ job q v o. (refl, refl, refl))
        (λ job q v o. absurd (ground (arith, q, o))) (All-unit db.import_jobs))
