-- ===== src/Upload/Created.antt =====
-- When `create_import` says that it created an import, the import is there, with the upload's path.
use fastapi_shipment_import.Base.{
  ℕ, suc, String, ◌≡◌, refl, ap, ◌∙◌, Bool, true, false, Option, none, some, arith, find_where,
  if◌then◌else◌, Bool-cases, inl, inr,
}
use fastapi_shipment_import.Models.{Db, ImportJob}
use fastapi_shipment_import.Session.{
  Tx, Failure, integrity_error, operational_error, sqlalchemy_error, os_error, value_error,
  other_error, stale_import_worker_error, fuel_exhausted, workbook_structure_error,
  retryable_import_processing_error, Result, ok, raised,
}
use fastapi_shipment_import.Settings.{Settings}
use fastapi_shipment_import.Service.{Env, World, seen, transaction}
use fastapi_shipment_import.Repositories.Imports.{
  ImportSnapshot, get_snapshot_by_idempotency_key, get_snapshot_by_fingerprint,
}
use fastapi_shipment_import.Services.CreateImport
use fastapi_shipment_import.Services.CreateImport.{
  Upload, CreateAnswer, returned, idempotency_conflict_error, duplicate_import_error,
  database_write_error, failed,
}
use fastapi_shipment_import.Invariants.Sound.{has_id}
use fastapi_shipment_import.Invariants.Uploads.{insert_records-Stored, stored_job}
use fastapi_shipment_import.Upload.Registry.{option_map, find_where-append_fresh}
use fastapi_shipment_import.Worker.Rely.{transaction-ok, transaction-raised}

abbrev pub is_created : CreateAnswer → Bool
is_created (returned o) = o.created
is_created idempotency_conflict_error = false
is_created (duplicate_import_error s) = false
is_created database_write_error = false
is_created (failed e) = false

-- Where the file of an import is stored, by the database.
abbrev pub path_of : ℕ → Db → Option String
path_of id db =
    option_map (λ (j : ImportJob). j.stored_file_path) (find_where (has_id id) db.import_jobs)

abbrev pub path_if : Bool → String → Option String
path_if created path = if created then some path else none

same_upload-is_created :
    (fingerprint : String) (s : ImportSnapshot)
    → is_created (CreateImport.same_upload fingerprint s) ≡ false
same_upload-is_created fingerprint s = ground arith

raced-is_created :
    (fingerprint : String) (o : Option ImportSnapshot)
    → is_created (CreateImport.raced fingerprint o) ≡ false
raced-is_created fingerprint none = refl
raced-is_created fingerprint (some s) = same_upload-is_created fingerprint s

abbrev AnswersNothingNew : Option CreateAnswer → Type 0
AnswersNothingNew none = Unit
AnswersNothingNew (some a) = is_created a ≡ false

duplicate_of-is_created :
    (o : Option ImportSnapshot) → AnswersNothingNew (CreateImport.duplicate_of o)
duplicate_of-is_created none = tt
duplicate_of-is_created (some s) = refl

by_key-is_created :
    (fingerprint : String) (o : Option ImportSnapshot) (otherwise : Option CreateAnswer)
    → AnswersNothingNew otherwise
    → AnswersNothingNew (CreateImport.by_key fingerprint o otherwise)
by_key-is_created fingerprint none otherwise h = h
by_key-is_created fingerprint (some s) otherwise h = same_upload-is_created fingerprint s

by_optional_key-is_created :
    (u : Upload) (db : Db) (key : Option String) (otherwise : Option CreateAnswer)
    → AnswersNothingNew otherwise
    → AnswersNothingNew (CreateImport.by_optional_key u db key otherwise)
by_optional_key-is_created u db none otherwise h = h
by_optional_key-is_created u db (some key) otherwise h =
    by_key-is_created u.idempotency_fingerprint (get_snapshot_by_idempotency_key key db) otherwise h

existing_answer-is_created :
    (u : Upload) (db : Db) → AnswersNothingNew (CreateImport.existing_answer u db)
unfolding CreateImport.existing_answer
existing_answer-is_created u db =
    by_optional_key-is_created u db u.idempotency_key _
      (duplicate_of-is_created (get_snapshot_by_fingerprint u.idempotency_fingerprint db))

pub transaction-ticks :
    (env : Env) {A : Type 0} (body : ℕ → Tx A) (w : World)
    → (transaction env body w).1.ticks ≡ suc w.ticks
unfolding transaction
transaction-ticks env body w = ground arith

module _ (env : Env) (settings : Settings) (job_id event_id : ℕ) (u : Upload)
    (others : (k : ℕ) (db : Db) → path_of job_id (env.interfere k db) ≡ path_of job_id db) where
  abbrev pub Settled : CreateAnswer × World → Type 0
  Settled (a, w) = path_of job_id w.db ≡ path_if (is_created a) u.stored_file_path

  after_collision-Settled :
      (key : Option String) (w : World)
      → path_of job_id w.db ≡ none
      → Settled (CreateImport.after_collision env u key w)
  after_collision-Settled none w h = h
  after_collision-Settled (some key) w h = elim (Bool-cases (env.fault w.ticks)) [
    | inl t ↦ rw t (others w.ticks w.db ∙ h)
    | inr f ↦
        rw
          (
            f,
            raced-is_created u.idempotency_fingerprint
                (get_snapshot_by_idempotency_key key (seen env w)),
          )
          (others w.ticks w.db ∙ h)
  ]

  refreshed-is_created :
      (found : Option ImportJob) (path : String)
      → option_map (λ (j : ImportJob). j.stored_file_path) found ≡ some path
      → is_created (CreateImport.refreshed found) ≡ true
  refreshed-is_created none path e = absurd (ground (arith, e))
  refreshed-is_created (some job) path e = refl

  refresh-Settled :
      (id : ℕ) (w : World)
      → env.fault w.ticks ≡ false
      → id ≡ job_id
      → path_of job_id w.db ≡ some u.stored_file_path
      → Settled (CreateImport.refresh env id w)
  refresh-Settled id w steady is h =
      let there = others w.ticks w.db ∙ h in
      rw
        (
          is,
          steady,
          refreshed-is_created (find_where (has_id job_id) (seen env w).import_jobs)
              u.stored_file_path there,
        )
        there

  after_insert-Settled :
      (r : Result ℕ) (w : World)
      → env.fault w.ticks ≡ false
      → ((id : ℕ) → r ≡ ok id → (id ≡ job_id) × (path_of job_id w.db ≡ some u.stored_file_path))
      → ((e : Failure) → r ≡ raised e → path_of job_id w.db ≡ none)
      → Settled (CreateImport.after_insert env u r w)
  after_insert-Settled (ok id) w steady done lost =
      let here = done id refl in refresh-Settled id w steady here.0 (here.1)
  after_insert-Settled (raised integrity_error) w steady done lost =
      after_collision-Settled u.idempotency_key w (lost integrity_error refl)
  after_insert-Settled (raised operational_error) w steady done lost = lost operational_error refl
  after_insert-Settled (raised sqlalchemy_error) w steady done lost = lost sqlalchemy_error refl
  after_insert-Settled (raised os_error) w steady done lost = lost os_error refl
  after_insert-Settled (raised value_error) w steady done lost = lost value_error refl
  after_insert-Settled (raised other_error) w steady done lost = lost other_error refl
  after_insert-Settled (raised stale_import_worker_error) w steady done lost =
      lost stale_import_worker_error refl
  after_insert-Settled (raised fuel_exhausted) w steady done lost = lost fuel_exhausted refl
  after_insert-Settled (raised (workbook_structure_error m)) w steady done lost =
      lost (workbook_structure_error m) refl
  after_insert-Settled (raised (retryable_import_processing_error m)) w steady done lost =
      lost (retryable_import_processing_error m) refl

  -- What the INSERT stored, once it is committed.
  inserted :
      (w : World) (id : ℕ)
      → (transaction env (CreateImport.insert_records settings job_id event_id u) w).0 ≡ ok id
      → (id ≡ job_id)
        × (path_of job_id
              (transaction env (CreateImport.insert_records settings job_id event_id u) w).1.db
            ≡ some u.stored_file_path)
  inserted w id e =
      let body = CreateImport.insert_records settings job_id event_id u in
      let done =
        insert_records-Stored settings job_id event_id u (env.clock w.ticks) (seen env w) id _
          (transaction-ok env body w id e) in
      (
        done.of_id,
        ap (path_of job_id) done.after
            ∙ ap (option_map (λ (j : ImportJob). j.stored_file_path)) (
                find_where-append_fresh (has_id job_id) (seen env w).import_jobs
                  (stored_job settings job_id event_id u (env.clock w.ticks)) done.fresh_id
                  (ground arith)),
      )

  pub inserted-path_of :
      (w : World) (id : ℕ)
      → (transaction env (CreateImport.insert_records settings job_id event_id u) w).0 ≡ ok id
      → path_of job_id
          (transaction env (CreateImport.insert_records settings job_id event_id u) w).1.db
        ≡ some u.stored_file_path
  inserted-path_of w id e = (inserted w id e).1

  inserted-Settled :
      (w : World) (r : Result ℕ)
      → (transaction env (CreateImport.insert_records settings job_id event_id u) w).0 ≡ r
      → path_of job_id w.db ≡ none
      → env.fault (suc w.ticks) ≡ false
      → Settled (
          CreateImport.after_insert env u r
            (transaction env (CreateImport.insert_records settings job_id event_id u) w).1)
  inserted-Settled w r e absent steady =
      let body = CreateImport.insert_records settings job_id event_id u in
      after_insert-Settled r (transaction env body w).1 (rw (transaction-ticks env body w) steady)
        (λ id is. inserted w id (e ∙ is))
        (λ x is.
          ap (path_of job_id) (transaction-raised env body w x (e ∙ is))
          ∙ others w.ticks w.db
          ∙ absent)

  after_lookup-Settled :
      (o : Option CreateAnswer) (w : World)
      → AnswersNothingNew o
      → env.fault (suc w.ticks) ≡ false
      → path_of job_id w.db ≡ none
      → Settled (CreateImport.after_lookup env settings job_id event_id u o w)
  after_lookup-Settled none w new steady absent = inserted-Settled w _ refl absent steady
  after_lookup-Settled (some a) w new steady absent = rw new absent

  pub create_import-Settled :
      (w : World)
      → env.fault (suc (suc w.ticks)) ≡ false
      → path_of job_id w.db ≡ none
      → Settled (CreateImport.create_import env settings job_id event_id u w)
  unfolding CreateImport.create_import
  create_import-Settled w steady absent = elim (Bool-cases (env.fault w.ticks)) [
    | inl t ↦ rw t (others w.ticks w.db ∙ absent)
    | inr f ↦ rw f (
        after_lookup-Settled (CreateImport.existing_answer u (seen env w))
          (record { db = seen env w; ticks = suc w.ticks })
          (existing_answer-is_created u (seen env w)) steady (others w.ticks w.db ∙ absent))
  ]
