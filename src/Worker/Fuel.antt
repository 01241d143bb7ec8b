-- ===== src/Worker/Fuel.antt =====
-- No transaction of the worker runs out of fuel: only the model's loops can.
use fastapi_shipment_import.Base.{
  ℕ, ◌≢◌, Bool, true, false, arith, List, [], ◌∷◌, inl, inr, Option, none, some,
}
use fastapi_shipment_import.Models.{Db, Shipment, ImportError, ImportJob}
use fastapi_shipment_import.Session
use fastapi_shipment_import.Session.{
  Failure, fuel_exhausted, stale_import_worker_error, Tx, Result, ok, raised, Result-cases,
}
use fastapi_shipment_import.Service.{Env, World, seen, transaction}
use fastapi_shipment_import.Repositories.Claims.{ClaimedImport}
use fastapi_shipment_import.Repositories.Progress.{
  has_current_ownership, update_current_processing_import, reset_for_reprocessing,
  record_chunk_counts, heartbeat, complete,
}
use fastapi_shipment_import.Repositories.Shipments
use fastapi_shipment_import.Repositories.ImportErrors
use fastapi_shipment_import.Services.Process.{
  require_current_ownership, reset_counts, prepare, record_counts, beat, persist_chunk,
  complete_import, race_round, chunk_round, persist_next,
}
use fastapi_shipment_import.Validation.Results.{ValidationChunkResult, Validator}

abbrev pub NoFuel : {A : Type 0} → Tx A → Type 0
NoFuel m = (db : Db) → m db ≢ raised fuel_exhausted

pub NoFuel-bind :
    {A B : Type 0} (m : Tx A) (f : A → Tx B)
    → NoFuel m
    → ((a : A) → NoFuel (f a))
    → NoFuel (Session.◌>>=◌ m f)
NoFuel-bind m f hm hf db e = elim (Result-cases (m db)) [
  | inl (r, q) ↦ hf r.0 r.1 (ground (arith, q))
  | inr (x, q) ↦ hm db (ground (arith, q))
]

NoFuel-require : (b : Bool) → NoFuel (Session.require b stale_import_worker_error)
NoFuel-require true db e = cc
NoFuel-require false db e = cc

NoFuel-guarded :
    (now i token : ℕ) (values : ImportJob → ImportJob)
    → NoFuel (
        Session.◌>>=◌
          (update_current_processing_import now i token values)
          (λ done. Session.require done stale_import_worker_error))
unfolding update_current_processing_import
NoFuel-guarded now i token values =
    NoFuel-bind (update_current_processing_import now i token values) _ (λ db e. cc) NoFuel-require

insert_shipment-NoFuel : (now : ℕ) (s : Shipment) → NoFuel (Shipments.insert_shipment now s)
unfolding Shipments.insert_shipment
insert_shipment-NoFuel now s db = ground arith

insert_shipments-NoFuel : (now : ℕ) (ss : List Shipment) → NoFuel (Shipments.bulk_insert now ss)
unfolding Shipments.bulk_insert
insert_shipments-NoFuel now [] db e = cc
insert_shipments-NoFuel now (s ∷ ss) db e =
    NoFuel-bind (Shipments.insert_shipment now s) (λ _. Shipments.bulk_insert now ss)
      (insert_shipment-NoFuel now s) (λ _. insert_shipments-NoFuel now ss) db e

insert_error-NoFuel : (now : ℕ) (x : ImportError) → NoFuel (ImportErrors.insert_import_error now x)
unfolding ImportErrors.insert_import_error
insert_error-NoFuel now x db = ground arith

insert_errors-NoFuel : (now : ℕ) (xs : List ImportError) → NoFuel (ImportErrors.bulk_insert now xs)
unfolding ImportErrors.bulk_insert
insert_errors-NoFuel now [] db e = cc
insert_errors-NoFuel now (x ∷ xs) db e =
    NoFuel-bind (ImportErrors.insert_import_error now x) (λ _. ImportErrors.bulk_insert now xs)
      (insert_error-NoFuel now x) (λ _. insert_errors-NoFuel now xs) db e

persist_chunk-NoFuel :
    (claimed : ClaimedImport) (c : ValidationChunkResult) (now : ℕ)
    → NoFuel (persist_chunk claimed c now)
unfolding persist_chunk record_counts record_chunk_counts beat heartbeat
persist_chunk-NoFuel claimed c now =
    NoFuel-bind (Shipments.bulk_insert now c.shipments) _ (insert_shipments-NoFuel now c.shipments)
      λ _.
        NoFuel-bind (ImportErrors.bulk_insert now c.import_errors) _
          (insert_errors-NoFuel now c.import_errors)
          λ _.
            NoFuel-bind (record_counts claimed c now) _
              (NoFuel-guarded now claimed.import_id claimed.processing_token _)
              (λ _. NoFuel-guarded now claimed.import_id claimed.processing_token _)

ownership-NoFuel : (claimed : ClaimedImport) → NoFuel (require_current_ownership claimed)
unfolding require_current_ownership has_current_ownership
ownership-NoFuel claimed =
    NoFuel-bind (has_current_ownership claimed.import_id claimed.processing_token) _ (λ db e. cc)
      NoFuel-require

pub prepare-NoFuel : (claimed : ClaimedImport) (now : ℕ) → NoFuel (prepare claimed now)
unfolding prepare reset_counts reset_for_reprocessing Shipments.delete_by_import_id
    ImportErrors.delete_by_import_id
prepare-NoFuel claimed now =
    NoFuel-bind (reset_counts claimed now) _
      (NoFuel-guarded now claimed.import_id claimed.processing_token _) (λ _ db e. cc)

pub complete_import-NoFuel :
    (claimed : ClaimedImport) (total success failed now : ℕ)
    → NoFuel (complete_import claimed total success failed now)
unfolding complete_import complete
complete_import-NoFuel claimed total success failed now =
    NoFuel-guarded now claimed.import_id claimed.processing_token _

module _ {i : ℕ} (v : Validator i) (claimed : ClaimedImport) where
  pub race_round-NoFuel :
      (p : v.Pending) (c : ValidationChunkResult) (now : ℕ) → NoFuel (race_round v claimed p c now)
  unfolding race_round
  race_round-NoFuel p c now =
      NoFuel-bind (require_current_ownership claimed) _ (ownership-NoFuel claimed) λ _ db.
        let corrected = v.reclassify p c db in
        let stored =
          NoFuel-bind (persist_chunk claimed corrected now) (λ _. Session.pure (some corrected))
            (persist_chunk-NoFuel claimed corrected now) (λ _ db e. cc) db in
        ground (arith, stored)

  persist_next-NoFuel :
      (now : ℕ) (r : Result (Option (ValidationChunkResult × v.Pending)))
      → r ≢ raised fuel_exhausted
      → NoFuel (persist_next v claimed now r)
  unfolding persist_next
  persist_next-NoFuel now (raised x) h db e = h (ground (arith, e))
  persist_next-NoFuel now (ok none) h db e = cc
  persist_next-NoFuel now (ok (some (c, p'))) h db e =
      NoFuel-bind (persist_chunk claimed c now) (λ _. Session.pure (some (c, p')))
        (persist_chunk-NoFuel claimed c now) (λ _ db e. cc) db e

  pub chunk_round-NoFuel : (p : v.Pending) (now : ℕ) → NoFuel (chunk_round v claimed p now)
  unfolding chunk_round
  chunk_round-NoFuel p now =
      NoFuel-bind (require_current_ownership claimed) _ (ownership-NoFuel claimed)
        (λ _ db. persist_next-NoFuel now (v.next_chunk p db) (v.next_chunk-fuel p db) db)

pub transaction-NoFuel :
    (env : Env) {A : Type 0} (body : ℕ → Tx A) (w : World)
    → ((now : ℕ) → NoFuel (body now))
    → (transaction env body w).0 ≢ raised fuel_exhausted
unfolding transaction
transaction-NoFuel env body w h e =
    let never = h (env.clock w.ticks) (seen env w) in ground (arith, never)
