-- ===== src/Worker/Whole.antt =====
-- `ProcessImportService.run`, from the claim to the `except` clauses.
use fastapi_shipment_import.Base.{
  ℕ, String, ◌≡◌, ◌≢◌, refl, subst, Bool, arith, Option, none, some, inl, inr, sym, Option-cases,
  find_where, find_where_sound,
}
use fastapi_shipment_import.Models.{Db}
use fastapi_shipment_import.Session.{
  Failure, integrity_error, operational_error, sqlalchemy_error, os_error, value_error, other_error,
  stale_import_worker_error, fuel_exhausted, workbook_structure_error,
  retryable_import_processing_error, Tx, Result, ok, raised,
}
use fastapi_shipment_import.Service.{Env, World, seen, transaction, handled-outcome}
use fastapi_shipment_import.Repositories.Claims.{ClaimedImport, claim_pending_import, claimable}
use fastapi_shipment_import.Services.Process.{
  handle_failure, before_claim, process_claimed, run_claimed, run, claim_body, claimed_variable,
  after_claim, after_failed_claim,
}
use fastapi_shipment_import.Validation.Results.{Validator}
use fastapi_shipment_import.Invariants.Sound.{IsSound}
use fastapi_shipment_import.Invariants.Updates.{claim_pending_import-IsSound}
use fastapi_shipment_import.Worker.Rely.{Respects, transaction-ok}
use fastapi_shipment_import.Worker.Run.{ClaimedOutcome, process_claimed-outcome}
use fastapi_shipment_import.Worker.Failures.{
  RunOutcome, transaction-RunOutcome, handle_failure-outcome,
}

-- The claimed import is the one that was asked for, under the run's token.
claim-names :
    (skipped : ℕ → Bool) (now i token : ℕ) (worker : String) (db : Db) (c : ClaimedImport)
    (db' : Db)
    → claim_pending_import skipped now i token worker db ≡ ok (some c, db')
    → (c.import_id ≡ i) × (c.processing_token ≡ token)
unfolding claim_pending_import
claim-names skipped now i token worker db c db' e =
    elim (Option-cases (find_where (claimable i) db.import_jobs)) [
      | inl q ↦ absurd (ground (arith, e, q))
      | inr (job, q) ↦
          let is = find_where_sound (claimable i) db.import_jobs job q in
          (ground (arith, e, q, is), ground (arith, e, q, is))
    ]

-- The claim itself raises nothing.
claim-returns :
    (skipped : ℕ → Bool) (now i token : ℕ) (worker : String) (db : Db) (e : Failure)
    → claim_pending_import skipped now i token worker db ≢ raised e
unfolding claim_pending_import
claim-returns skipped now i token worker db e q = ground (arith, q)

module _ (env : Env) where
  run_claimed-here :
      (claimed : ClaimedImport) (w : World)
      → IsSound w.db
      → (v : Validator claimed.import_id) → Respects env claimed.import_id claimed.processing_token
      → RunOutcome (run_claimed env v (some claimed) w).0 (run_claimed env v (some claimed) w).1
  unfolding run_claimed
  run_claimed-here claimed w h v rely =
      let done = process_claimed-outcome claimed v env rely w h in
      handled-outcome RunOutcome (process_claimed env v claimed w).0 (handle_failure env claimed)
        (process_claimed env v claimed w).1
        (λ u e.
          (subst (λ r. ClaimedOutcome claimed v env rely r (process_claimed env v claimed w).1) e
            done).sound)
        (λ x e.
          let (sound, fuel) =
            subst (λ r. ClaimedOutcome claimed v env rely r (process_claimed env v claimed w).1) e
              done in
          handle_failure-outcome env claimed.import_id claimed.processing_token rely claimed x
            (process_claimed env v claimed w).1 sound fuel)

  before_claim-outcome :
      (e : Failure) (w : World)
      → RunOutcome {A = Unit {0}} (raised e) w
      → RunOutcome {A = Unit {0}} (before_claim e w).0 (before_claim e w).1
  unfolding before_claim
  before_claim-outcome operational_error w h = h
  before_claim-outcome (retryable_import_processing_error m) w h = h
  before_claim-outcome integrity_error w h = h
  before_claim-outcome sqlalchemy_error w h = h
  before_claim-outcome os_error w h = h
  before_claim-outcome value_error w h = h
  before_claim-outcome other_error w h = h
  before_claim-outcome stale_import_worker_error w h = h.0
  before_claim-outcome fuel_exhausted w h = h
  before_claim-outcome (workbook_structure_error m) w h = h.0

  after_failed_claim-outcome :
      (i token : ℕ) (rely : Respects env i token) (variable : Option ClaimedImport) (e : Failure)
      (w : World)
      → RunOutcome {A = Unit {0}} (raised e) w
      → RunOutcome (after_failed_claim env variable e w).0 (after_failed_claim env variable e w).1
  unfolding after_failed_claim
  after_failed_claim-outcome i token rely none e w h = before_claim-outcome e w h
  after_failed_claim-outcome i token rely (some c) e w h =
      handle_failure-outcome env i token rely c e w h.0 (λ f. ground (arith, h.1, f))

  module _ (i token : ℕ) (rely : Respects env i token) (v : Validator i) where
    run_claimed-outcome :
        (claimed : ClaimedImport) (w : World)
        → claimed.import_id ≡ i
        → claimed.processing_token ≡ token
        → IsSound w.db
        → RunOutcome (run_claimed env v (some claimed) w).0 (run_claimed env v (some claimed) w).1
    run_claimed-outcome claimed w same_id same_token h =
        subst
          (λ j.
            (v : Validator j)
            → Respects env j claimed.processing_token
            → RunOutcome (run_claimed env v (some claimed) w).0
                (run_claimed env v (some claimed) w).1)
          same_id (run_claimed-here claimed w h) v
          (subst (λ t. Respects env i t) (sym same_token) rely)

    after_claim-outcome :
        (variable : Option ClaimedImport) (r : Result (Option ClaimedImport)) (w : World)
        → RunOutcome r w
        → ((c : ClaimedImport) → r ≡ ok (some c) → (c.import_id ≡ i) × (c.processing_token ≡ token))
        → RunOutcome (after_claim env v variable r w).0 (after_claim env v variable r w).1
    unfolding run_claimed
    after_claim-outcome variable (ok none) w h names = h
    after_claim-outcome variable (ok (some c)) w h names =
        let (same_id, same_token) = names c refl in run_claimed-outcome c w same_id same_token h
    after_claim-outcome variable (raised e) w h names =
        after_failed_claim-outcome i token rely variable e w h

    -- In a sound database, with a row validator that keeps the laws of Validator and other
    -- processes that keep the database sound and write nothing under the worker's token between its
    -- transactions, a whole run, claim and except clauses included, leaves a sound database; if it
    -- raises, it is a RetryableImportProcessingError or an OperationalError that leaves it.
    pub run-outcome :
        (skipped : ℕ → Bool) (worker : String) (w : World)
        → IsSound w.db
        → RunOutcome (run env v skipped token worker w).0 (run env v skipped token worker w).1
    unfolding run
    run-outcome skipped worker w h =
        let claim : ℕ → Tx (Option ClaimedImport) = claim_body skipped i token worker in
        after_claim-outcome (claimed_variable env claim w) (transaction env claim w).0
          (transaction env claim w).1
          (transaction-RunOutcome env i token rely claim w
            (λ now. claim_pending_import-IsSound skipped now i token worker)
            (λ now. claim-returns skipped now i token worker) h)
          (λ c e.
            claim-names skipped (env.clock w.ticks) i token worker (seen env w) c
              (transaction env claim w).1.db (transaction-ok env claim w (some c) e))
