-- ===== src/Invariants/Chunks.antt =====
-- The transactions that move shipments and counters together: a chunk, the reset before it, and the
-- completion.
use fastapi_shipment_import.Invariants.Counters.{IsSoundBut-zero, record_counts-IsSound}
use fastapi_shipment_import.Invariants.Updates.{heartbeat-IsSound}
use fastapi_shipment_import.Services.Process.{persist_chunk, record_counts, beat}
use fastapi_shipment_import.Validation.Results.{ValidationChunkResult, ChunkIsSound}
use fastapi_shipment_import.Repositories.Claims.{ClaimedImport}
use fastapi_shipment_import.Repositories.ImportErrors
use fastapi_shipment_import.Repositories.Progress.{heartbeat}
use fastapi_shipment_import.Session
use fastapi_shipment_import.Base.{
  ℕ, suc, ◌+◌, ◌≡◌, refl, true, false, List, [], ◌∷◌, ◌++◌, arith, All, All-mono, All-append,
  count_where, count-append, any, any-eq-false, length, eq_iff, any-count,
}
use fastapi_shipment_import.Models.{Db, Shipment, ImportError}
use fastapi_shipment_import.Session.{Tx, ok, ◌>>=◌, >>=-ok, stale_import_worker_error}
use fastapi_shipment_import.Repositories.Shipments
use fastapi_shipment_import.Repositories.Shipments.{
  has_code, in_import, checks_hold, columns_fit, stored_shipment, insert_shipment, import_exists,
}
use fastapi_shipment_import.Invariants.Keeps.{Keeps, Keeps-bind, Keeps-require}
use fastapi_shipment_import.Invariants.Sound.{Counted, IsSoundBut, IsSound, Referenced, has_id}

-- The database after an INSERT of one shipment.
abbrev pub with_shipment : ℕ → Shipment → Db → Db
with_shipment now s db = record db { shipments = db.shipments ++ stored_shipment now s ∷ [] }

pub record Inserted (now : ℕ) (s : Shipment) (db db' : Db) : Type 0 where
  pub after : db' ≡ with_shipment now s db
  pub fits : columns_fit s ≡ true
  pub checked : checks_hold (stored_shipment now s) ≡ true
  pub fresh : any (has_code s.shipment_code) db.shipments ≡ false
  pub known : import_exists s.import_id db ≡ true

insert_shipment-Inserted :
    (now : ℕ) (s : Shipment) (db : Db) (u : Unit {0}) (db' : Db)
    → insert_shipment now s db ≡ ok (u, db')
    → Inserted now s db db'
unfolding insert_shipment
insert_shipment-Inserted now s db u db' e = ground arith

-- Storing a row changes neither its code nor its import.
stored_shipment_keys :
    (now : ℕ) (s : Shipment)
    → ((stored_shipment now s).shipment_code ≡ s.shipment_code)
      × ((stored_shipment now s).import_id ≡ s.import_id)
unfolding stored_shipment
stored_shipment_keys now s = (refl, refl)

with_shipment-IsSound :
    (now : ℕ) (s : Shipment) (i n : ℕ) {db : Db}
    → s.import_id ≡ i
    → any (has_code s.shipment_code) db.shipments ≡ false
    → checks_hold (stored_shipment now s) ≡ true
    → import_exists s.import_id db ≡ true
    → IsSoundBut i n db
    → IsSoundBut i (n + 1) (with_shipment now s db)
unfolding count_where
with_shipment-IsSound now s i n {db} of fresh checked known h = record {
  jobs_keyed = h.jobs_keyed;
  jobs_valid = h.jobs_valid;
  codes_unique = λ c. ground (
    arith,
    h.codes_unique c,
    count-append (has_code c) db.shipments (stored_shipment now s ∷ []),
    any-eq-false (has_code s.shipment_code) db.shipments,
    stored_shipment_keys now s,
    eq_iff s.shipment_code c,
  );
  shipments_checked = All-append _ db.shipments _ h.shipments_checked (checked, tt);
  counted =
      All-mono (Counted db.shipments i n) _
        (λ job c. ground (
          arith,
          c,
          count-append (in_import job.id) db.shipments (stored_shipment now s ∷ []),
          stored_shipment_keys now s,
        ))
        db.import_jobs h.counted;
  referenced = All-append (Referenced db.import_jobs) db.shipments _ h.referenced (
    ground (arith, any-count (has_id s.import_id) db.import_jobs known, stored_shipment_keys now s),
    tt,
  );
}

insert_shipment-IsSound :
    (now : ℕ) (s : Shipment) (i n : ℕ)
    → s.import_id ≡ i
    → Keeps (IsSoundBut i n) (IsSoundBut i (n + 1)) (insert_shipment now s)
insert_shipment-IsSound now s i n of db u db' h e =
    let done = insert_shipment-Inserted now s db u db' e in
    rw done.after (with_shipment-IsSound now s i n of done.fresh done.checked done.known h)

-- The shipments of a chunk: they are stored, and not counted yet.
bulk_insert-IsSound :
    (now i n : ℕ) (ss : List Shipment)
    → All (λ (s : Shipment). s.import_id ≡ i) ss
    → Keeps (IsSoundBut i n) (IsSoundBut i (n + length ss)) (Shipments.bulk_insert now ss)
unfolding Shipments.bulk_insert
bulk_insert-IsSound now i n [] of db u db' h e =
    let same : n + 0 ≡ n = omega arith in rw same (ground (arith, h))
bulk_insert-IsSound now i n (s ∷ ss) of db u db' h e =
    let (v, mid, first, rest) =
      >>=-ok (insert_shipment now s) (λ _. Shipments.bulk_insert now ss) db e in
    let same : n + suc (length ss) ≡ n + 1 + length ss = omega arith in
    rw same (
      bulk_insert-IsSound now i (n + 1) ss of.1 mid u db'
        (insert_shipment-IsSound now s i n of.0 db v mid h first) rest)

-- Storing row errors touches nothing that the invariant speaks of.
insert_import_error-IsSound :
    (now i n : ℕ) (x : ImportError)
    → Keeps (IsSoundBut i n) (IsSoundBut i n) (ImportErrors.insert_import_error now x)
unfolding ImportErrors.insert_import_error
insert_import_error-IsSound now i n x db u db' h e = ground arith

bulk_insert_errors-IsSound :
    (now i n : ℕ) (xs : List ImportError)
    → Keeps (IsSoundBut i n) (IsSoundBut i n) (ImportErrors.bulk_insert now xs)
unfolding ImportErrors.bulk_insert
bulk_insert_errors-IsSound now i n [] db u db' h e = ground (arith, h)
bulk_insert_errors-IsSound now i n (x ∷ xs) db u db' h e =
    Keeps-bind (IsSoundBut i n) (IsSoundBut i n) (IsSoundBut i n)
      (ImportErrors.insert_import_error now x) (λ _. ImportErrors.bulk_insert now xs)
      (insert_import_error-IsSound now i n x) (λ _. bulk_insert_errors-IsSound now i n xs) db u db'
      h e

beat-IsSound : (claimed : ClaimedImport) (now : ℕ) → Keeps IsSound IsSound (beat claimed now)
unfolding beat
beat-IsSound claimed now =
    Keeps-bind IsSound IsSound IsSound (heartbeat now claimed.import_id claimed.processing_token)
      (λ done. Session.require done stale_import_worker_error)
      (heartbeat-IsSound now claimed.import_id claimed.processing_token 0 0)
      (λ done. Keeps-require IsSound done stale_import_worker_error)

-- When _persist_chunk commits a sound chunk of the claimed import on a sound database, the database
-- is sound: the shipments stored are the ones that success_count grew by, codes stay unique and
-- every stored row passes the table's checks.
pub persist_chunk-IsSound :
    (claimed : ClaimedImport) (c : ValidationChunkResult) (now : ℕ)
    → ChunkIsSound claimed.import_id c
    → (db : Db) (a : Unit {0}) (db' : Db) → IsSound db
    → persist_chunk claimed c now db ≡ ok (a, db')
    → IsSound db'
unfolding persist_chunk
persist_chunk-IsSound claimed c now good =
    let i = claimed.import_id in
    let stored = IsSoundBut i c.success_count in
    Keeps-bind IsSound stored IsSound (Shipments.bulk_insert now c.shipments) _ shipments λ _.
      Keeps-bind stored stored IsSound (ImportErrors.bulk_insert now c.import_errors) _
        (bulk_insert_errors-IsSound now i c.success_count c.import_errors)
        λ _.
          Keeps-bind stored IsSound IsSound (record_counts claimed c now) _
            (record_counts-IsSound claimed c now good.split) (λ _. beat-IsSound claimed now)
  where
    shipments :
        Keeps IsSound
          (IsSoundBut claimed.import_id c.success_count)
          (Shipments.bulk_insert now c.shipments)
    shipments db u db' h e =
        let none_before : 0 + length c.shipments ≡ length c.shipments = omega arith in
        rw (good.counted, ← none_before)
          (bulk_insert-IsSound now claimed.import_id 0 c.shipments good.of_import db u db'
            (IsSoundBut-zero h) e)
