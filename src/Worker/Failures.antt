-- ===== src/Worker/Failures.antt =====
-- The `except` clauses of `ProcessImportService.run`, and the claim's.
use fastapi_shipment_import.Base.{
  ℕ, String, ◌≡◌, ◌≢◌, refl, subst, Bool, true, false, arith, inl, inr, if◌then◌else◌, leb,
}
use fastapi_shipment_import.Models.{Db}
use fastapi_shipment_import.Session.{
  Failure, integrity_error, operational_error, sqlalchemy_error, os_error, value_error, other_error,
  stale_import_worker_error, fuel_exhausted, workbook_structure_error,
  retryable_import_processing_error, Tx, Result, ok, raised, Result-cases,
}
use fastapi_shipment_import.Service.{
  Env, World, Service, seen, transaction, continue, continue-outcome, pure, raise,
}
use fastapi_shipment_import.Repositories.Claims.{ClaimedImport}
use fastapi_shipment_import.Repositories.Progress.{
  fail, requeue_for_retry, update_current_processing_import,
}
use fastapi_shipment_import.Services.Process.{
  mark_failed, handle_operational_failure, handle_failure, temporary_reason, max_attempts_reason,
  retry_message,
}
use fastapi_shipment_import.Invariants.Keeps.{Keeps}
use fastapi_shipment_import.Invariants.Sound.{IsSound}
use fastapi_shipment_import.Invariants.Updates.{fail-IsSound, requeue_for_retry-IsSound}
use fastapi_shipment_import.Worker.Rely.{Respects, transaction-ok, transaction-raised}

-- The exceptions that leave `run`: the one that asks Celery for a retry, and a dropped connection.
abbrev pub asks_retry : Failure → Bool
asks_retry operational_error = true
asks_retry (retryable_import_processing_error message) = true
asks_retry _ = false

abbrev pub RunOutcome : {A : Type 0} → Result A → World → Type 0
RunOutcome (ok u) w = IsSound w.db
RunOutcome (raised e) w = IsSound w.db × (asks_retry e ≡ true)

abbrev requeueing : ClaimedImport → ℕ → Tx Bool
requeueing claimed now =
    requeue_for_retry now claimed.import_id claimed.processing_token temporary_reason

abbrev ask_retry : Bool → Service (Unit {0})
ask_retry requeued =
    if requeued then raise (retryable_import_processing_error retry_message) else pure tt

-- Transactions of the worker that raise nothing themselves.
transaction-faults :
    (env : Env) {A : Type 0} (body : ℕ → Tx A) (w : World) (x : Failure)
    → ((now : ℕ) (db : Db) (e : Failure) → body now db ≢ raised e)
    → (transaction env body w).0 ≡ raised x
    → asks_retry x ≡ true
unfolding transaction
transaction-faults env body w x never e =
    elim (Result-cases (body (env.clock w.ticks) (seen env w))) [
      | inl (r, q) ↦ ground (arith, e, q)
      | inr (y, q) ↦ absurd (never _ _ y q)
    ]

module _ (env : Env) (i token : ℕ) (rely : Respects env i token) where
  pub transaction-RunOutcome :
      {A : Type 0} (body : ℕ → Tx A) (w : World)
      → ((now : ℕ) → Keeps IsSound IsSound (body now))
      → ((now : ℕ) (db : Db) (e : Failure) → body now db ≢ raised e)
      → IsSound w.db
      → RunOutcome (transaction env body w).0 (transaction env body w).1
  transaction-RunOutcome {A} body w keeps never h = by_result (transaction env body w).0 refl
    where
      here : IsSound (seen env w)
      here = rely.sound w.ticks w.db h

      by_result :
          (r : Result A) → (transaction env body w).0 ≡ r → RunOutcome r (transaction env body w).1
      by_result (ok a) e =
          keeps (env.clock w.ticks) (seen env w) a _ here (transaction-ok env body w a e)
      by_result (raised x) e =
          (rw (transaction-raised env body w x e) here, transaction-faults env body w x never e)

  mark_failed-outcome :
      (claimed : ClaimedImport) (reason : String) (w : World)
      → IsSound w.db
      → RunOutcome (mark_failed env claimed reason w).0 (mark_failed env claimed reason w).1
  unfolding mark_failed
  mark_failed-outcome claimed reason w h =
      let body : ℕ → Tx Bool = λ now. fail now claimed.import_id claimed.processing_token reason in
      let done =
        transaction-RunOutcome body w
          (λ now. fail-IsSound now claimed.import_id claimed.processing_token reason)
          (λ now db e q.
            absurd (unfold fail update_current_processing_import in (ground (arith, q))))
          h in
      continue-outcome RunOutcome (transaction env body w).0 (λ _. pure tt)
        (transaction env body w).1
        (λ a e. subst (λ r. RunOutcome r (transaction env body w).1) e done)
        (λ x e. subst (λ r. RunOutcome r (transaction env body w).1) e done)

  requeue-outcome :
      (claimed : ClaimedImport) (w : World)
      → IsSound w.db
      → RunOutcome
          (continue
            (transaction env (requeueing claimed) w).0
            ask_retry
            (transaction env (requeueing claimed) w).1).0
          (continue
            (transaction env (requeueing claimed) w).0
            ask_retry
            (transaction env (requeueing claimed) w).1).1
  requeue-outcome claimed w h =
      let done =
        transaction-RunOutcome (requeueing claimed) w
          (λ now.
            requeue_for_retry-IsSound now claimed.import_id claimed.processing_token
              temporary_reason)
          (λ now db e q.
            absurd
              (unfold requeue_for_retry update_current_processing_import in (ground (arith, q))))
          h in
      continue-outcome RunOutcome (transaction env (requeueing claimed) w).0 ask_retry
        (transaction env (requeueing claimed) w).1
        (λ a e.
          asked a (subst (λ r. RunOutcome r (transaction env (requeueing claimed) w).1) e done))
        (λ x e. subst (λ r. RunOutcome r (transaction env (requeueing claimed) w).1) e done)
    where
      asked :
          (a : Bool)
          → IsSound (transaction env (requeueing claimed) w).1.db
          → RunOutcome
              (ask_retry a (transaction env (requeueing claimed) w).1).0
              (ask_retry a (transaction env (requeueing claimed) w).1).1
      asked true sound = (sound, refl)
      asked false sound = sound

  handle_operational_failure-outcome :
      (claimed : ClaimedImport) (w : World)
      → IsSound w.db
      → RunOutcome
          (handle_operational_failure env claimed w).0
          (handle_operational_failure env claimed w).1
  unfolding handle_operational_failure
  handle_operational_failure-outcome claimed w h =
      by_attempts (leb claimed.max_attempts claimed.attempt_count)
    where
      by_attempts :
          (b : Bool)
          → RunOutcome
              ((if b then mark_failed env claimed max_attempts_reason else (λ w.
                  continue
                    (transaction env (requeueing claimed) w).0
                    ask_retry
                    (transaction env (requeueing claimed) w).1))
                w).0
              ((if b then mark_failed env claimed max_attempts_reason else (λ w.
                  continue
                    (transaction env (requeueing claimed) w).0
                    ask_retry
                    (transaction env (requeueing claimed) w).1))
                w).1
      by_attempts true = mark_failed-outcome claimed max_attempts_reason w h
      by_attempts false = requeue-outcome claimed w h

  -- Every exception of the block ends in a sound database.
  pub handle_failure-outcome :
      (claimed : ClaimedImport) (e : Failure) (w : World)
      → IsSound w.db
      → e ≢ fuel_exhausted
      → RunOutcome (handle_failure env claimed e w).0 (handle_failure env claimed e w).1
  unfolding handle_failure
  handle_failure-outcome claimed integrity_error w h f = mark_failed-outcome claimed _ w h
  handle_failure-outcome claimed operational_error w h f =
      handle_operational_failure-outcome claimed w h
  handle_failure-outcome claimed sqlalchemy_error w h f = mark_failed-outcome claimed _ w h
  handle_failure-outcome claimed os_error w h f = mark_failed-outcome claimed _ w h
  handle_failure-outcome claimed value_error w h f = mark_failed-outcome claimed _ w h
  handle_failure-outcome claimed other_error w h f = mark_failed-outcome claimed _ w h
  handle_failure-outcome claimed stale_import_worker_error w h f = h
  handle_failure-outcome claimed fuel_exhausted w h f = absurd (f refl)
  handle_failure-outcome claimed (workbook_structure_error m) w h f =
      mark_failed-outcome claimed _ w h
  handle_failure-outcome claimed (retryable_import_processing_error m) w h f =
      mark_failed-outcome claimed _ w h
