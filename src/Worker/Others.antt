-- ===== src/Worker/Others.antt =====
-- The other processes of the system as a step relation: whatever they commit in whatever order, a
-- worker may rely on it.
use fastapi_shipment_import.Base.{ℕ, ◌+◌, String, ◌≡◌, ◌≢◌, Bool, count_where, Option, List}
use fastapi_shipment_import.Models.{Db, ImportDispatchOutbox}
use fastapi_shipment_import.Session.{ok}
use fastapi_shipment_import.Settings.{Settings}
use fastapi_shipment_import.Service.{Env}
use fastapi_shipment_import.Repositories.Claims.{ClaimedImport, claim_pending_import}
use fastapi_shipment_import.Repositories.Progress.{fail, requeue_for_retry}
use fastapi_shipment_import.Repositories.Imports.{fail_pending_import_after_dispatch_exhausted}
use fastapi_shipment_import.Repositories.Shipments.{in_import}
use fastapi_shipment_import.Services.Process.{Counts, prepare, persist_chunk, complete_import}
use fastapi_shipment_import.Services.Watchdog.{recover_in_transaction}
use fastapi_shipment_import.Validation.Results.{ValidationChunkResult, ChunkIsSound}
use fastapi_shipment_import.Invariants.Sound.{IsSound}
use fastapi_shipment_import.Invariants.Updates.{
  claim_pending_import-IsSound, fail-IsSound, requeue_for_retry-IsSound,
  fail_pending_import_after_dispatch_exhausted-IsSound, recover_in_transaction-IsSound,
  outbox-IsSound,
}
use fastapi_shipment_import.Invariants.Counters.{prepare-IsSound, complete_import-IsSound}
use fastapi_shipment_import.Invariants.Chunks.{persist_chunk-IsSound}
use fastapi_shipment_import.Worker.Rely.{Holds, Respects}
use fastapi_shipment_import.Worker.Guarantee.{
  claim-Holds, persist-Holds, prepared-Holds, completed-Holds, failed-Holds, requeued-Holds,
  exhausted-Holds, recovered-Holds, uploaded-Holds,
}
use fastapi_shipment_import.Services.CreateImport.{Upload, insert_records}
use fastapi_shipment_import.Invariants.Uploads.{insert_records-IsSound}

-- One committed transaction of a process that works under another token than `token`: of another
-- worker, of the watchdog, of an upload, or of the publisher, of whose writes only that to `import_jobs` matters.
pub data Step (token : ℕ) : Db → Db → Type 0 where
  claims :
      (skipped : ℕ → Bool) (now i t : ℕ) (worker : String) (a : Option ClaimedImport) (db db' : Db)
      → t ≢ token
      → claim_pending_import skipped now i t worker db ≡ ok (a, db')
      → Step token db db'
  prepares :
      (claimed : ClaimedImport) (now : ℕ) (db db' : Db)
      → claimed.processing_token ≢ token
      → prepare claimed now db ≡ ok (tt, db')
      → Step token db db'
  persists :
      (claimed : ClaimedImport) (c : ValidationChunkResult) (now : ℕ) (db db' : Db)
      → claimed.processing_token ≢ token
      → ChunkIsSound claimed.import_id c
      → persist_chunk claimed c now db ≡ ok (tt, db')
      → Step token db db'
  completes :
      (claimed : ClaimedImport) (total success failed now : ℕ) (db db' : Db)
      → claimed.processing_token ≢ token
      → total ≡ success + failed
      → count_where (in_import claimed.import_id) db.shipments ≡ success
      → complete_import claimed total success failed now db ≡ ok (tt, db')
      → Step token db db'
  fails :
      (claimed : ClaimedImport) (now : ℕ) (reason : String) (done : Bool) (db db' : Db)
      → claimed.processing_token ≢ token
      → fail now claimed.import_id claimed.processing_token reason db ≡ ok (done, db')
      → Step token db db'
  requeues :
      (claimed : ClaimedImport) (now : ℕ) (reason : String) (done : Bool) (db db' : Db)
      → claimed.processing_token ≢ token
      → requeue_for_retry now claimed.import_id claimed.processing_token reason db ≡ ok (done, db')
      → Step token db db'
  recovers :
      (skipped : ℕ → Bool) (uuid4 : ℕ → ℕ) (settings : Settings) (batch_size now now_db k : ℕ)
      (db db' : Db)
      → recover_in_transaction skipped uuid4 settings batch_size now now_db db ≡ ok (k, db')
      → Step token db db'
  exhausts :
      (now i : ℕ) (reason : String) (done : Bool) (db db' : Db)
      → fail_pending_import_after_dispatch_exhausted now i reason db ≡ ok (done, db')
      → Step token db db'
  uploads :
      (settings : Settings) (job_id event_id now id : ℕ) (u : Upload) (db db' : Db)
      → insert_records settings job_id event_id u now db ≡ ok (id, db')
      → Step token db db'
  dispatches :
      (events : List ImportDispatchOutbox) (db : Db)
      → Step token db (record db { import_dispatch_outbox = events })

-- Any number of such transactions.
pub data Steps (token : ℕ) : Db → Db → Type 0 where
  done : (db : Db) → Steps token db db
  then : (db mid db' : Db) → Step token db mid → Steps token mid db' → Steps token db db'

Step-IsSound : (token : ℕ) (db db' : Db) → Step token db db' → IsSound db → IsSound db'
Step-IsSound token db db' (claims skipped now i t worker a _ _ other e) h =
    claim_pending_import-IsSound skipped now i t worker db a db' h e
Step-IsSound token db db' (prepares c now _ _ other e) h = prepare-IsSound c now db tt db' h e
Step-IsSound token db db' (persists c r now _ _ other good e) h =
    persist_chunk-IsSound c r now good db tt db' h e
Step-IsSound token db db' (completes c total success failed now _ _ other split counted e) h =
    complete_import-IsSound c total success failed now db tt db' split counted h e
Step-IsSound token db db' (fails c now reason b _ _ other e) h =
    fail-IsSound now c.import_id c.processing_token reason db b db' h e
Step-IsSound token db db' (requeues c now reason b _ _ other e) h =
    requeue_for_retry-IsSound now c.import_id c.processing_token reason db b db' h e
Step-IsSound token db db' (recovers skipped uuid4 settings batch now now_db k _ _ e) h =
    recover_in_transaction-IsSound skipped uuid4 settings batch now now_db db k db' h e
Step-IsSound token db db' (exhausts now i reason b _ _ e) h =
    fail_pending_import_after_dispatch_exhausted-IsSound now i reason db b db' h e
Step-IsSound token db db' (uploads settings job_id event_id now id u _ _ e) h =
    insert_records-IsSound settings job_id event_id u now db id db' h e
Step-IsSound token db db' (dispatches events _) h = outbox-IsSound events h

Step-Holds :
    (i token : ℕ) (n : Counts) (db db' : Db)
    → Step token db db'
    → Holds i token n db.import_jobs
    → Holds i token n db'.import_jobs
Step-Holds i token n db db' (claims skipped now j t worker a _ _ other e) h =
    claim-Holds i token n skipped now j t worker other db a db' h e
Step-Holds i token n db db' (prepares c now _ _ other e) h =
    prepared-Holds i token n c other now db tt db' h e
Step-Holds i token n db db' (persists c r now _ _ other good e) h =
    persist-Holds i token n c other r now db tt db' h e
Step-Holds i token n db db' (completes c total success failed now _ _ other split counted e) h =
    completed-Holds i token n c other total success failed now db tt db' h e
Step-Holds i token n db db' (fails c now reason b _ _ other e) h =
    failed-Holds i token n c other now reason db b db' h e
Step-Holds i token n db db' (requeues c now reason b _ _ other e) h =
    requeued-Holds i token n c other now reason db b db' h e
Step-Holds i token n db db' (recovers skipped uuid4 settings batch now now_db k _ _ e) h =
    recovered-Holds i token n skipped uuid4 settings batch now now_db db k db' h e
Step-Holds i token n db db' (exhausts now j reason b _ _ e) h =
    exhausted-Holds i token n now j reason db b db' h e
Step-Holds i token n db db' (uploads settings job_id event_id now id u _ _ e) h =
    uploaded-Holds i token n settings job_id event_id u now db id db' h e
Step-Holds i token n db db' (dispatches events _) h = h

pub Steps-IsSound : (token : ℕ) (db db' : Db) → Steps token db db' → IsSound db → IsSound db'
Steps-IsSound token db db' (done _) h = h
Steps-IsSound token db db' (then _ mid _ s ss) h =
    Steps-IsSound token mid db' ss (Step-IsSound token db mid s h)

Steps-Holds :
    (i token : ℕ) (n : Counts) (db db' : Db)
    → Steps token db db'
    → Holds i token n db.import_jobs
    → Holds i token n db'.import_jobs
Steps-Holds i token n db db' (done _) h = h
Steps-Holds i token n db db' (then _ mid _ s ss) h =
    Steps-Holds i token n mid db' ss (Step-Holds i token n db mid s h)

-- If between the worker's transactions only committed transactions of other workers (claims,
-- resets, chunks, completions with the right counts, failures, requeues, all under other tokens),
-- of uploads of new imports, of the watchdog and of the publisher happen, in any number and order,
-- then they keep a sound database sound and leave the counters of the worker's import alone while
-- it owns it.
pub Steps-Respects :
    (env : Env) (i token : ℕ)
    → ((k : ℕ) (db : Db) → Steps token db (env.interfere k db))
    → Respects env i token
Steps-Respects env i token steps = record {
  sound = λ k db h. Steps-IsSound token db (env.interfere k db) (steps k db) h;
  mine = λ k db n h. Steps-Holds i token n db (env.interfere k db) (steps k db) h;
}
