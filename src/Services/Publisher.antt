-- ===== src/Services/Publisher.antt =====
-- app/outbox/services/publish_outbox.py
use fastapi_shipment_import.Base.{
  ℕ, zero, suc, ◌+◌, ◌-◌, String, Bool, true, false, ◌&&◌, Option, none, some, List, [], ◌∷◌, leb,
  if◌then◌else◌, length, get_elem?, is_empty, strip, append_text,
}
use fastapi_shipment_import.Models.{OutboxStatus}
use fastapi_shipment_import.Session
use fastapi_shipment_import.Session.{Tx, Result, ok, raised, other_error}
use fastapi_shipment_import.Settings.{Settings}
use fastapi_shipment_import.Service.{Env, Service, transaction, ◌>>=◌, ◌>>◌, pure, raise}
use fastapi_shipment_import.Repositories.Imports.{fail_pending_import_after_dispatch_exhausted}
use fastapi_shipment_import.Repositories.Outbox.{
  ClaimedOutboxEvent, StaleOutboxClaim, claim_due_events, mark_published, mark_publish_failure,
  lock_stale_claims, requeue_stale_claim, mark_stale_claim_failed,
}

abbrev pub dispatch_exhausted_reason : String
dispatch_exhausted_reason = "Import processing never started because dispatch was exhausted."

abbrev pub stale_claim_reason : String
stale_claim_reason = "Outbox publisher claim expired."

-- An exception that the dispatcher raised: its type's name and its text.
pub record DispatchError : Type 0 where
  pub type_name : String
  pub message : String

-- `text[:n]`
prefix : ℕ → String → String
prefix zero s = String.[]
prefix (suc n) String.[] = String.[]
prefix (suc n) (String.◌∷◌ c s) = String.◌∷◌ c (prefix n s)

or_else : String → String → String
or_else s t = if is_empty s then t else s

unfoldable pub safe_error_message : DispatchError → String
unfolding append_text prefix strip or_else
safe_error_message e =
    or_else (prefix 1000 (strip (append_text e.type_name (append_text ": " e.message)))) e.type_name

-- How a failed dispatch is recorded: the retry policy, apart from the transaction that writes it.
pub record FailureOutcome : Type 0 where
  pub attempt_count : ℕ
  pub exhausted : Bool
  pub available_at : Option ℕ

unfoldable pub retry_outcome : ℕ → ℕ → Option ℕ → Option FailureOutcome
retry_outcome failed_at attempts none = none
retry_outcome failed_at attempts (some delay) = some (record {
  attempt_count = attempts;
  exhausted = false;
  available_at = some (failed_at + delay);
})

-- `none` is the IndexError of a delay that the settings do not have.
unfoldable pub failure_outcome : Settings → ℕ → ClaimedOutboxEvent → Option FailureOutcome
unfolding retry_outcome
failure_outcome settings failed_at claimed =
    if leb settings.outbox_max_attempts (claimed.attempt_count + 1)
    then some (record {
      attempt_count = claimed.attempt_count + 1;
      exhausted = true;
      available_at = none;
    })
    else retry_outcome failed_at (claimed.attempt_count + 1)
        (get_elem? settings.outbox_retry_delays_seconds claimed.attempt_count)

-- The transaction of `_record_publish_failure`.
unfoldable pub write_failure : ℕ → String → ClaimedOutboxEvent → FailureOutcome → ℕ → Tx (Unit {0})
unfolding mark_publish_failure fail_pending_import_after_dispatch_exhausted
write_failure failed_at error_message claimed outcome now =
    Session.◌>>=◌
      (mark_publish_failure now claimed outcome.attempt_count error_message
        (if outcome.exhausted then OutboxStatus.failed else OutboxStatus.pending)
        outcome.available_at (if outcome.exhausted then some failed_at else none))
      λ recorded.
        if recorded && outcome.exhausted
        then Session.◌>>=◌
            (fail_pending_import_after_dispatch_exhausted now claimed.import_id
              dispatch_exhausted_reason)
            (λ _. Session.pure tt)
        else Session.pure tt

module _ (env : Env) (settings : Settings) where
  unfoldable pub claim_due : (ℕ → Bool) → (ℕ → ℕ) → ℕ → Service (List ClaimedOutboxEvent)
  unfolding claim_due_events transaction
  claim_due skipped uuid4 claimed_at =
      transaction env
        λ now. claim_due_events skipped uuid4 now settings.outbox_batch_size claimed_at

  unfoldable pub record_publish_success : ClaimedOutboxEvent → Service (Unit {0})
  unfolding mark_published transaction
  record_publish_success claimed =
      transaction env (λ now. Session.◌>>=◌ (mark_published now claimed) (λ _. Session.pure tt))

  unfoldable pub record_publish_failure :
      ℕ → ClaimedOutboxEvent → DispatchError → Service (Unit {0})
  unfolding failure_outcome write_failure safe_error_message transaction
  record_publish_failure failed_at claimed e = elim (failure_outcome settings failed_at claimed) [
    | none ↦ raise other_error
    | some outcome ↦
        transaction env (write_failure failed_at (safe_error_message e) claimed outcome)
  ]

  -- What the dispatcher does with event number k is an argument: none if the broker took it.
  unfoldable pub publish_one :
      (ℕ → Option DispatchError) → (ℕ → ℕ) → ℕ → ClaimedOutboxEvent → Service (Unit {0})
  unfolding record_publish_success record_publish_failure
  publish_one dispatch failed_at k claimed = elim (dispatch k) [
    | none ↦ record_publish_success claimed
    | some e ↦ record_publish_failure (failed_at k) claimed e
  ]

  unfoldable pub publish_each :
      (ℕ → Option DispatchError) → (ℕ → ℕ) → ℕ → List ClaimedOutboxEvent → Service (Unit {0})
  unfolding publish_one
  publish_each dispatch failed_at k [] = pure tt
  publish_each dispatch failed_at k (c ∷ cs) =
      publish_one dispatch failed_at k c >> publish_each dispatch failed_at (suc k) cs

  unfoldable pub publish_due_events :
      (ℕ → Option DispatchError) → (ℕ → ℕ) → (ℕ → Bool) → (ℕ → ℕ) → ℕ → Service ℕ
  unfolding claim_due publish_each
  publish_due_events dispatch failed_at skipped uuid4 claimed_at = do
    claimed ← claim_due skipped uuid4 claimed_at
    publish_each dispatch failed_at 0 claimed
    pure (length claimed)

-- One stale claim: fail it where its attempts are used up, else put it back.
unfoldable pub recover_claim : Settings → ℕ → ℕ → StaleOutboxClaim → Tx (Option ℕ)
unfolding mark_stale_claim_failed requeue_stale_claim fail_pending_import_after_dispatch_exhausted
recover_claim settings now recovered_at claim =
    if leb settings.outbox_max_attempts claim.attempt_count
    then Session.◌>>=◌ (mark_stale_claim_failed now claim stale_claim_reason) (λ failed.
      if failed
      then Session.◌>>=◌
          (fail_pending_import_after_dispatch_exhausted now claim.import_id
            dispatch_exhausted_reason)
          (λ _. Session.pure (some claim.import_id))
      else Session.pure none)
    else Session.◌>>=◌ (requeue_stale_claim now claim recovered_at stale_claim_reason)
        (λ _. Session.pure none)

abbrev pub collect : Option ℕ → List ℕ → List ℕ
collect none ids = ids
collect (some id) ids = id ∷ ids

-- The loop over the stale claims, with the imports whose dispatch is exhausted.
unfoldable pub recover_claims : Settings → ℕ → ℕ → List StaleOutboxClaim → Tx (List ℕ)
unfolding recover_claim
recover_claims settings now recovered_at [] = Session.pure []
recover_claims settings now recovered_at (c ∷ cs) =
    Session.◌>>=◌ (recover_claim settings now recovered_at c) λ exhausted.
      Session.◌>>=◌ (recover_claims settings now recovered_at cs)
        λ rest. Session.pure (collect exhausted rest)

unfoldable pub recover_claims_in_transaction : (ℕ → Bool) → Settings → ℕ → ℕ → Tx (List ℕ)
unfolding lock_stale_claims recover_claims
recover_claims_in_transaction skipped settings recovered_at now db =
    recover_claims settings now recovered_at
      (lock_stale_claims skipped settings.outbox_batch_size
        (recovered_at - settings.outbox_stale_timeout_seconds) db)
      db

unfoldable pub recover_stale_claims : Env → Settings → (ℕ → Bool) → ℕ → Service ℕ
unfolding recover_claims_in_transaction transaction
recover_stale_claims env settings skipped recovered_at = do
  exhausted ← transaction env (recover_claims_in_transaction skipped settings recovered_at)
  pure (length exhausted)
