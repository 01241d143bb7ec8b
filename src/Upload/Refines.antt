-- ===== src/Upload/Refines.antt =====
-- `create_import` implements the registry, where it has the database to itself.
use fastapi_shipment_import.Base.{
  ℕ, suc, ◌==◌, String, ◌≡◌, refl, sym, ap, is_some-find_where, ◌∙◌, Bool, true, false, Option,
  none, some, List, [], ◌∷◌, ◌++◌, str_eq, any, find_where, is_some, arith, inl, inr, if◌then◌else◌,
  Bool-cases,
}
use fastapi_shipment_import.Models.{Db, ImportJob, ImportDispatchOutbox}
use fastapi_shipment_import.Session.{ok, pure, >>=-continues}
use fastapi_shipment_import.Settings.{Settings}
use fastapi_shipment_import.Service.{Env, World, transaction}
use fastapi_shipment_import.Repositories.Imports.{
  same_key, has_key, has_fingerprint, job_columns_fit, snapshot_of, get_snapshot_by_fingerprint,
  get_snapshot_by_idempotency_key, create_import_job, create_dispatch_intent, ImportSnapshot,
}
use fastapi_shipment_import.Services.CreateImport.{
  Upload, CreateAnswer, returned, idempotency_conflict_error, duplicate_import_error,
  database_write_error, failed, existing_answer, new_job, new_intent, insert_records, create_import,
  after_lookup, by_key, duplicate_of, by_optional_key,
}
use fastapi_shipment_import.Invariants.Sound.{has_id}
use fastapi_shipment_import.Invariants.Uploads.{with_upload, stored_job}
use fastapi_shipment_import.Validation.Sound.{map-append}
use fastapi_shipment_import.Upload.Registry
use fastapi_shipment_import.Upload.Registry.{
  Entry, Verdict, accepted, replayed, conflicting, duplicated, registry, entry_of, register,
  entry_has_key, entry_has_fingerprint, find_where-map, any-map,
  is_some-get_snapshot_by_fingerprint, find_where-append_fresh, option_map,
}

abbrev pub verdict_of : CreateAnswer → Option Verdict
verdict_of (returned o) =
    some (if o.created then accepted o.result.import_id else replayed o.result.import_id)
verdict_of idempotency_conflict_error = some conflicting
verdict_of (duplicate_import_error s) = some duplicated
verdict_of database_write_error = none
verdict_of (failed e) = none

abbrev pub entry_for : ℕ → Upload → Entry
entry_for job_id u = record {
  id = job_id;
  key = u.idempotency_key;
  fingerprint = u.idempotency_fingerprint;
}

any-append_self {ℓ} :
    {A : Type ℓ} (p : A → Bool) (xs : List A) (x : A) → p x ≡ true → any p (xs ++ x ∷ []) ≡ true
unfolding any
any-append_self p [] x e = ground (arith, e)
any-append_self p (y ∷ ys) x e = ground (arith, any-append_self p ys x e)

same_key-none :
    (jobs : List ImportJob) → any (λ other. same_key other.idempotency_key none) jobs ≡ false
unfolding any
same_key-none [] = refl
same_key-none (j ∷ js) = ground (arith, same_key-none js)

module _ (job_id : ℕ) (u : Upload) (db : Db) where
  -- What the answer of the lookups says of the registry.
  abbrev Agrees : Option CreateAnswer → Type 0
  Agrees (some a) =
      (verdict_of a ≡ some (register (entry_for job_id u) (registry db)).0)
      × (registry db ≡ (register (entry_for job_id u) (registry db)).1)
  Agrees none =
      (register (entry_for job_id u) (registry db)
        ≡ (accepted job_id, registry db ++ entry_for job_id u ∷ []))
      × (any (λ other. same_key other.idempotency_key u.idempotency_key) db.import_jobs ≡ false)

  by_file-Agrees :
      (o : Option ImportSnapshot)
      → get_snapshot_by_fingerprint u.idempotency_fingerprint db ≡ o
      → register (entry_for job_id u) (registry db)
        ≡ Registry.by_file (entry_for job_id u) (registry db)
      → any (λ other. same_key other.idempotency_key u.idempotency_key) db.import_jobs ≡ false
      → Agrees (duplicate_of o)
  by_file-Agrees none q r fresh = (ground (arith, q, r, known, seen_file), fresh)
    where
      known :
          is_some (get_snapshot_by_fingerprint u.idempotency_fingerprint db)
          ≡ any (has_fingerprint u.idempotency_fingerprint) db.import_jobs
      known = is_some-get_snapshot_by_fingerprint u.idempotency_fingerprint db

      seen_file :
          any (entry_has_fingerprint u.idempotency_fingerprint) (registry db)
          ≡ any (has_fingerprint u.idempotency_fingerprint) db.import_jobs
      seen_file =
          any-map entry_of (entry_has_fingerprint u.idempotency_fingerprint)
            (has_fingerprint u.idempotency_fingerprint) (λ job. refl) db.import_jobs
  by_file-Agrees (some x) q r fresh =
      let known = is_some-get_snapshot_by_fingerprint u.idempotency_fingerprint db in
      let seen_file =
        any-map entry_of (entry_has_fingerprint u.idempotency_fingerprint)
          (has_fingerprint u.idempotency_fingerprint) (λ job. refl) db.import_jobs in
      (ground (arith, q, r, known, seen_file), ground (arith, q, r, known, seen_file))

  by_found-Agrees :
      (key : String) (found : Option ImportJob)
      → u.idempotency_key ≡ some key
      → find_where (has_key key) db.import_jobs ≡ found
      → Agrees (
          by_key u.idempotency_fingerprint
            (snapshot_of found)
            (duplicate_of (get_snapshot_by_fingerprint u.idempotency_fingerprint db)))
  unfolding register
  by_found-Agrees key none k q =
      let on_registry =
        find_where-map entry_of (entry_has_key key) (has_key key) (λ job. refl) db.import_jobs in
      by_file-Agrees _ refl (ground (arith, k, q, on_registry))
        (rw k (sym (is_some-find_where (has_key key) db.import_jobs) ∙ ap is_some q))
  by_found-Agrees key (some job) k q =
      let on_registry =
        find_where-map entry_of (entry_has_key key) (has_key key) (λ job. refl) db.import_jobs in
      elim (Bool-cases (str_eq job.idempotency_fingerprint u.idempotency_fingerprint)) [
        | inl t ↦ rw t (ground (arith, k, q, on_registry, t), ground (arith, k, q, on_registry, t))
        | inr f ↦ rw f (ground (arith, k, q, on_registry, f), ground (arith, k, q, on_registry, f))
      ]

  by_optional_key-Agrees :
      (key : Option String)
      → u.idempotency_key ≡ key
      → Agrees (
          by_optional_key u db key
            (duplicate_of (get_snapshot_by_fingerprint u.idempotency_fingerprint db)))
  unfolding register get_snapshot_by_idempotency_key
  by_optional_key-Agrees none k =
      by_file-Agrees _ refl (ground (arith, k)) (rw k (same_key-none db.import_jobs))
  by_optional_key-Agrees (some key) k =
      by_found-Agrees key (find_where (has_key key) db.import_jobs) k refl

  pub existing_answer-Agrees : Agrees (existing_answer u db)
  unfolding existing_answer
  existing_answer-Agrees = by_optional_key-Agrees u.idempotency_key refl

-- Nobody else commits, and the connection holds.
pub record IsQuiet (env : Env) : Type 0 where
  pub alone : (k : ℕ) (db : Db) → env.interfere k db ≡ db
  pub connected : (k : ℕ) → env.fault k ≡ false
  pub kept : (k : ℕ) → env.lost k ≡ false

module _ (env : Env) (quiet : IsQuiet env) (settings : Settings) (job_id event_id : ℕ)
    (u : Upload) where
  job_stores :
      (now : ℕ) (db : Db)
      → job_columns_fit (new_job settings job_id u) ≡ true
      → any (has_id job_id) db.import_jobs ≡ false
      → any (λ other. same_key other.idempotency_key u.idempotency_key) db.import_jobs ≡ false
      → create_import_job now (new_job settings job_id u) db
        ≡ ok (
          job_id,
          record db {
            import_jobs = db.import_jobs ++ stored_job settings job_id event_id u now ∷ [];
          },
        )
  unfolding create_import_job
  job_stores now db fits fresh_id fresh_key = ground (arith, fits, fresh_id, fresh_key)

  intent_stores :
      (now : ℕ) (db : Db)
      → any (has_id job_id) db.import_jobs ≡ true
      → any (λ (e : ImportDispatchOutbox). e.id == event_id) db.import_dispatch_outbox ≡ false
      → create_dispatch_intent now (new_intent now event_id job_id) db
        ≡ ok (
          event_id,
          record db {
            import_dispatch_outbox =
                db.import_dispatch_outbox ++ new_intent now event_id job_id ∷ [];
          },
        )
  unfolding create_dispatch_intent
  intent_stores now db there fresh_event = ground (arith, there, fresh_event)

  -- The INSERT of an upload that fits, under fresh ids and a fresh key.
  insert_records-stores :
      (now : ℕ) (db : Db)
      → job_columns_fit (new_job settings job_id u) ≡ true
      → any (has_id job_id) db.import_jobs ≡ false
      → any (λ (e : ImportDispatchOutbox). e.id == event_id) db.import_dispatch_outbox ≡ false
      → any (λ other. same_key other.idempotency_key u.idempotency_key) db.import_jobs ≡ false
      → insert_records settings job_id event_id u now db
        ≡ ok (job_id, with_upload settings job_id event_id u now db)
  unfolding insert_records
  insert_records-stores now db fits fresh_id fresh_event fresh_key =
      let job = stored_job settings job_id event_id u now in
      let there = any-append_self (has_id job_id) db.import_jobs job (ground arith) in
      let mid : Db = record db { import_jobs = db.import_jobs ++ job ∷ [] } in
      let intent = create_dispatch_intent now (new_intent now event_id job_id) in
      >>=-continues (create_import_job now (new_job settings job_id u)) _ db job_id mid
        (job_stores now db fits fresh_id fresh_key)
      ∙ >>=-continues intent (λ _. pure job_id) mid event_id _
          (intent_stores now mid there fresh_event)

  after_lookup-refines :
      (o : Option CreateAnswer) (w : World)
      → Agrees job_id u w.db o
      → job_columns_fit (new_job settings job_id u) ≡ true
      → any (has_id job_id) w.db.import_jobs ≡ false
      → any (λ (e : ImportDispatchOutbox). e.id == event_id) w.db.import_dispatch_outbox ≡ false
      → (verdict_of (after_lookup env settings job_id event_id u o w).0
          ≡ some (register (entry_for job_id u) (registry w.db)).0)
        × (registry (after_lookup env settings job_id event_id u o w).1.db
            ≡ (register (entry_for job_id u) (registry w.db)).1)
  unfolding transaction
  after_lookup-refines (some a) w h fits fresh_id fresh_event = h
  after_lookup-refines none w h fits fresh_id fresh_event =
      let now = env.clock w.ticks in
      let job = stored_job settings job_id event_id u now in
      let after = with_upload settings job_id event_id u now w.db in
      let stored = insert_records-stores now w.db fits fresh_id fresh_event h.1 in
      let found =
        find_where-append_fresh (has_id job_id) w.db.import_jobs job fresh_id (ground arith) in
      let entries = map-append entry_of w.db.import_jobs (job ∷ []) in
      let alone = quiet.alone (suc w.ticks) after in
      rw
        (
          quiet.connected w.ticks,
          quiet.kept w.ticks,
          quiet.alone w.ticks w.db,
          stored,
          quiet.connected (suc w.ticks),
          alone,
          found,
          h.0,
        )
        (refl, entries)

  -- With the database to itself and a connection that holds, for column values that fit and fresh
  -- ids, create_import answers what the registry of imports by key and by file answers (accepted,
  -- replayed under the same key, conflicting with another file under the key, or a duplicate of the
  -- file), and the table afterwards shows the registry afterwards.
  pub create_import-refines :
      (w : World)
      → job_columns_fit (new_job settings job_id u) ≡ true
      → any (has_id job_id) w.db.import_jobs ≡ false
      → any (λ (e : ImportDispatchOutbox). e.id == event_id) w.db.import_dispatch_outbox ≡ false
      → (verdict_of (create_import env settings job_id event_id u w).0
          ≡ some (register (entry_for job_id u) (registry w.db)).0)
        × (registry (create_import env settings job_id event_id u w).1.db
            ≡ (register (entry_for job_id u) (registry w.db)).1)
  unfolding create_import
  create_import-refines w fits fresh_id fresh_event =
      let alone = quiet.alone w.ticks w.db in
      let after : World = record { db = w.db; ticks = suc w.ticks } in
      rw (quiet.connected w.ticks, alone)
        (after_lookup-refines (existing_answer u w.db) after (existing_answer-Agrees job_id u w.db)
          fits fresh_id fresh_event)
