-- ===== src/Upload/Concurrent.antt =====
-- `create_import` among other processes.
use fastapi_shipment_import.Base.{
  ℕ, suc, String, ◌≡◌, ◌≤◌, refl, true, false, Option, none, some, arith, any, any-eq-false,
  Bool-cases, inl, inr, is_some, count_where, count-append, List, [], ◌∷◌, eq_iff,
}
use fastapi_shipment_import.Models.{Db, ImportJob}
use fastapi_shipment_import.Session.{
  integrity_error, operational_error, sqlalchemy_error, os_error, value_error, other_error,
  stale_import_worker_error, fuel_exhausted, workbook_structure_error,
  retryable_import_processing_error, Result, ok, raised,
}
use fastapi_shipment_import.Settings.{Settings}
use fastapi_shipment_import.Service.{Env, World, seen, transaction}
use fastapi_shipment_import.Repositories.Imports.{
  has_key, has_fingerprint, same_key, ImportSnapshot, get_snapshot_by_idempotency_key,
  get_snapshot_by_fingerprint,
}
use fastapi_shipment_import.Services.CreateImport.{
  Upload, CreateAnswer, existing_answer, insert_records, by_key, by_optional_key, duplicate_of,
  after_collision, after_insert, after_lookup, create_import,
}
use fastapi_shipment_import.Invariants.Sound.{IsSound}
use fastapi_shipment_import.Invariants.Uploads.{
  insert_records-IsSound, insert_records-Stored, stored_job,
}
use fastapi_shipment_import.Upload.Registry.{is_some-get_snapshot_by_fingerprint}
use fastapi_shipment_import.Worker.Rely.{transaction-ok, transaction-raised}

-- A property `P` of the database that the other processes keep, and that an INSERT keeps where `Q`
-- holds; the lookup and the lock on the fingerprint provide `Q`.
module _ (P Q : Db → Type 0) (env : Env) (settings : Settings) (job_id event_id : ℕ) (u : Upload)
    (others : (k : ℕ) (db : Db) → P db → P (env.interfere k db))
    (looked : (db : Db) → existing_answer u db ≡ none → Q db)
    (inserts : (now : ℕ) (db : Db) (id : ℕ) (db' : Db)
      → P db
      → Q db
      → insert_records settings job_id event_id u now db ≡ ok (id, db')
      → P db') where
  after_collision-keeps :
      (key : Option String) (w : World) → P w.db → P (after_collision env u key w).1.db
  after_collision-keeps none w h = h
  after_collision-keeps (some key) w h = others w.ticks w.db h

  after_insert-keeps : (r : Result ℕ) (w : World) → P w.db → P (after_insert env u r w).1.db
  after_insert-keeps (ok id) w h = others w.ticks w.db h
  after_insert-keeps (raised integrity_error) w h = after_collision-keeps u.idempotency_key w h
  after_insert-keeps (raised operational_error) w h = h
  after_insert-keeps (raised sqlalchemy_error) w h = h
  after_insert-keeps (raised os_error) w h = h
  after_insert-keeps (raised value_error) w h = h
  after_insert-keeps (raised other_error) w h = h
  after_insert-keeps (raised stale_import_worker_error) w h = h
  after_insert-keeps (raised fuel_exhausted) w h = h
  after_insert-keeps (raised (workbook_structure_error m)) w h = h
  after_insert-keeps (raised (retryable_import_processing_error m)) w h = h

  inserted-keeps :
      (w : World) (r : Result ℕ)
      → (transaction env (insert_records settings job_id event_id u) w).0 ≡ r
      → ((db : Db) → Q db → Q (env.interfere w.ticks db))
      → P w.db
      → Q w.db
      → P (transaction env (insert_records settings job_id event_id u) w).1.db
  inserted-keeps w (ok id) e locked h q =
      inserts (env.clock w.ticks) (seen env w) id _ (others w.ticks w.db h) (locked w.db q)
        (transaction-ok env (insert_records settings job_id event_id u) w id e)
  inserted-keeps w (raised x) e locked h q =
      rw (transaction-raised env (insert_records settings job_id event_id u) w x e)
        (others w.ticks w.db h)

  after_lookup-keeps :
      (o : Option CreateAnswer) (w : World)
      → existing_answer u w.db ≡ o
      → ((db : Db) → Q db → Q (env.interfere w.ticks db))
      → P w.db
      → P (after_lookup env settings job_id event_id u o w).1.db
  after_lookup-keeps (some a) w e locked h = h
  after_lookup-keeps none w e locked h =
      after_insert-keeps (transaction env (insert_records settings job_id event_id u) w).0
        (transaction env (insert_records settings job_id event_id u) w).1
        (inserted-keeps w (transaction env (insert_records settings job_id event_id u) w).0 refl
          locked h (looked w.db e))

  pub create_import-keeps :
      (w : World)
      → ((db : Db) → Q db → Q (env.interfere (suc w.ticks) db))
      → P w.db
      → P (create_import env settings job_id event_id u w).1.db
  unfolding create_import
  create_import-keeps w locked h = elim (Bool-cases (env.fault w.ticks)) [
    | inl t ↦ rw t (others w.ticks w.db h)
    | inr f ↦ rw f (
        after_lookup-keeps (existing_answer u (seen env w))
          (record { db = seen env w; ticks = suc w.ticks }) refl locked (others w.ticks w.db h))
  ]

-- Among other processes that keep the database sound, create_import, however it ends, leaves a
-- sound database.
pub create_import-IsSound :
    (env : Env) (settings : Settings) (job_id event_id : ℕ) (u : Upload) (w : World)
    → ((k : ℕ) (db : Db) → IsSound db → IsSound (env.interfere k db))
    → IsSound w.db
    → IsSound (create_import env settings job_id event_id u w).1.db
create_import-IsSound env settings job_id event_id u w others =
    create_import-keeps IsSound (λ db. Unit {0}) env settings job_id event_id u others (λ db e. tt)
      (λ now db id db' h q e. insert_records-IsSound settings job_id event_id u now db id db' h e) w
      (λ db q. tt)

-- At most one import for each key, and for each file.
pub record IsUnique (db : Db) : Type 0 where
  pub keys : (key : String) → count_where (has_key key) db.import_jobs ≤ 1
  pub files : (fingerprint : String) → count_where (has_fingerprint fingerprint) db.import_jobs ≤ 1

abbrev pub NewFile : String → Db → Type 0
NewFile fingerprint db = any (has_fingerprint fingerprint) db.import_jobs ≡ false

duplicate_of-none : (o : Option ImportSnapshot) → duplicate_of o ≡ none → is_some o ≡ false
duplicate_of-none none e = refl
duplicate_of-none (some s) e = cc

by_optional_key-none :
    (u : Upload) (db : Db) (key : Option String) (otherwise : Option CreateAnswer)
    → by_optional_key u db key otherwise ≡ none
    → otherwise ≡ none
by_optional_key-none u db none otherwise e = e
by_optional_key-none u db (some key) otherwise e = found (get_snapshot_by_idempotency_key key db) e
  where
    found :
        (o : Option ImportSnapshot)
        → by_key u.idempotency_fingerprint o otherwise ≡ none
        → otherwise ≡ none
    found none e = e
    found (some s) e = cc

existing_answer-none :
    (u : Upload) (db : Db) → existing_answer u db ≡ none → NewFile u.idempotency_fingerprint db
unfolding existing_answer
existing_answer-none u db e =
    let missing =
      duplicate_of-none (get_snapshot_by_fingerprint u.idempotency_fingerprint db)
        (by_optional_key-none u db u.idempotency_key _ e) in
    ground (arith, missing, is_some-get_snapshot_by_fingerprint u.idempotency_fingerprint db)

key_is_fresh :
    (mine : Option String) (key : String) (jobs : List ImportJob)
    → any (λ other. same_key other.idempotency_key mine) jobs ≡ false
    → same_key mine (some key) ≡ true
    → count_where (has_key key) jobs ≡ 0
key_is_fresh none key jobs fresh same = cc
key_is_fresh (some k) key jobs fresh same =
    let is : k ≡ key = (eq_iff k key).0 same in any-eq-false (has_key key) jobs (rw (← is) fresh)

insert_records-IsUnique :
    (settings : Settings) (job_id event_id : ℕ) (u : Upload) (now : ℕ) (db : Db) (id : ℕ) (db' : Db)
    → IsUnique db
    → NewFile u.idempotency_fingerprint db
    → insert_records settings job_id event_id u now db ≡ ok (id, db')
    → IsUnique db'
unfolding count_where
insert_records-IsUnique settings job_id event_id u now db id db' h new e =
    let done = insert_records-Stored settings job_id event_id u now db id db' e in
    let job = stored_job settings job_id event_id u now in
    rw done.after (record {
      keys = λ key. ground (
        arith,
        h.keys key,
        count-append (has_key key) db.import_jobs (job ∷ []),
        key_is_fresh u.idempotency_key key db.import_jobs done.fresh_key,
      );
      files = λ f. ground (
        arith,
        h.files f,
        count-append (has_fingerprint f) db.import_jobs (job ∷ []),
        any-eq-false (has_fingerprint u.idempotency_fingerprint) db.import_jobs new,
        eq_iff u.idempotency_fingerprint f,
      );
    })

-- Among other processes that keep at most one import for each key and for each file, and that store
-- no import of the upload's file between its lookup and its INSERT (the advisory lock),
-- create_import, however it ends, leaves at most one import for each key and for each file.
pub create_import-IsUnique :
    (env : Env) (settings : Settings) (job_id event_id : ℕ) (u : Upload) (w : World)
    → ((k : ℕ) (db : Db) → IsUnique db → IsUnique (env.interfere k db))
    → ((db : Db)
        → NewFile u.idempotency_fingerprint db
        → NewFile u.idempotency_fingerprint (env.interfere (suc w.ticks) db))
    → IsUnique w.db
    → IsUnique (create_import env settings job_id event_id u w).1.db
create_import-IsUnique env settings job_id event_id u w others =
    create_import-keeps IsUnique (NewFile u.idempotency_fingerprint) env settings job_id event_id u
      others (existing_answer-none u) (insert_records-IsUnique settings job_id event_id u) w
