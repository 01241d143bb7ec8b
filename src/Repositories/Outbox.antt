-- ===== src/Repositories/Outbox.antt =====
-- app/outbox/repositories/outbox_repository.py
use fastapi_shipment_import.Base.{
  ℕ, suc, String, Bool, not, ◌&&◌, ◌||◌, Option, none, some, List, [], ◌∷◌, ◌++◌, map, ◌==◌, ltb,
  leb, column_is, is_some, column_before, earlier_then, select_where, update_where, count_where,
  take, order_by,
}
use fastapi_shipment_import.Models.{
  Db, ImportDispatchOutbox, OutboxStatus, event_is_pending, event_is_processing,
}
use fastapi_shipment_import.Session.{Tx, ok, ◌>>=◌, pure, modify}

pub record ClaimedOutboxEvent : Type 0 where
  pub outbox_id : ℕ
  pub import_id : ℕ
  pub claim_token : ℕ
  pub attempt_count : ℕ

pub record StaleOutboxClaim : Type 0 where
  pub outbox_id : ℕ
  pub import_id : ℕ
  pub claim_token : Option ℕ
  pub attempt_count : ℕ

abbrev pub due : ℕ → ImportDispatchOutbox → Bool
due claimed_at e = event_is_pending e.status && leb e.available_at claimed_at

-- ORDER BY available_at, id
abbrev pub earlier : ImportDispatchOutbox → ImportDispatchOutbox → Bool
earlier a b =
    ltb a.available_at b.available_at || ((a.available_at == b.available_at) && leb a.id b.id)

abbrev pub claimed_event : ℕ → ℕ → ℕ → ImportDispatchOutbox → ImportDispatchOutbox
claimed_event now claimed_at claim_token e = record e {
  status = OutboxStatus.processing;
  claim_token = some claim_token;
  claimed_at = some claimed_at;
  updated_at = now;
}

-- Assigning to a loaded object updates its row, by its id.
unfoldable pub claim_event : ℕ → ℕ → ℕ → ImportDispatchOutbox → Tx ClaimedOutboxEvent
claim_event now claimed_at claim_token e db = ok (
  record {
    outbox_id = e.id;
    import_id = e.import_id;
    claim_token = claim_token;
    attempt_count = e.attempt_count;
  },
  record db {
    import_dispatch_outbox =
        update_where (λ (x : ImportDispatchOutbox). x.id == e.id)
          (claimed_event now claimed_at claim_token) db.import_dispatch_outbox;
  },
)

-- The loop over the selected events; `uuid4 k` is the token drawn for event number k.
unfoldable pub claim_events :
    (ℕ → ℕ) → ℕ → ℕ → ℕ → List ImportDispatchOutbox → Tx (List ClaimedOutboxEvent)
unfolding claim_event
claim_events uuid4 now claimed_at k [] = pure []
claim_events uuid4 now claimed_at k (e ∷ es) = claim_event now claimed_at (uuid4 k) e >>= λ claimed.
    claim_events uuid4 now claimed_at (suc k) es >>= λ rest. pure (claimed ∷ rest)

-- `skipped` holds of the events that other transactions have locked.
unfoldable pub due_events : (ℕ → Bool) → ℕ → ℕ → Db → List ImportDispatchOutbox
due_events skipped batch_size claimed_at db = take batch_size (
    order_by earlier
      (select_where (λ e. due claimed_at e && not (skipped e.id)) db.import_dispatch_outbox))

unfoldable pub claim_due_events : (ℕ → Bool) → (ℕ → ℕ) → ℕ → ℕ → ℕ → Tx (List ClaimedOutboxEvent)
unfolding due_events claim_events
claim_due_events skipped uuid4 now batch_size claimed_at db =
    claim_events uuid4 now claimed_at 0 (due_events skipped batch_size claimed_at db) db

-- SQLAlchemy renders a comparison with None as IS NULL.
abbrev pub same_token : Option ℕ → Option ℕ → Bool
same_token column none = not (is_some column)
same_token column (some token) = column_is column token

-- The WHERE clause under which the outcome of a claim is written.
abbrev pub still_claimed : ℕ → Option ℕ → ImportDispatchOutbox → Bool
still_claimed outbox_id claim_token e =
    (e.id == outbox_id) && (event_is_processing e.status && same_token e.claim_token claim_token)

abbrev pub update_claimed :
    ℕ → ℕ → Option ℕ → (ImportDispatchOutbox → ImportDispatchOutbox) → Tx Bool
update_claimed now outbox_id claim_token values db = ok (
  count_where (still_claimed outbox_id claim_token) db.import_dispatch_outbox == 1,
  record db {
    import_dispatch_outbox =
        update_where (still_claimed outbox_id claim_token)
          (λ e. record (values e) { updated_at = now }) db.import_dispatch_outbox;
  },
)

abbrev pub published_values : ℕ → ImportDispatchOutbox → ImportDispatchOutbox
published_values now e = record e {
  status = OutboxStatus.published;
  published_at = some now;
  claim_token = none;
  last_error = none;
}

unfoldable pub mark_published : ℕ → ClaimedOutboxEvent → Tx Bool
mark_published now c = update_claimed now c.outbox_id (some c.claim_token) (published_values now)

-- `available_at` is written only where it is given.
abbrev pub or_keep : Option ℕ → ℕ → ℕ
or_keep none old = old
or_keep (some new) old = new

unfoldable pub publish_failure_values :
    ℕ → String → OutboxStatus → Option ℕ → Option ℕ → ImportDispatchOutbox → ImportDispatchOutbox
publish_failure_values attempt_count error_message status available_at claimed_at e = record e {
  status = status;
  attempt_count = attempt_count;
  last_error = some error_message;
  claimed_at = claimed_at;
  claim_token = none;
  available_at = or_keep available_at e.available_at;
}

unfoldable pub mark_publish_failure :
    ℕ → ClaimedOutboxEvent → ℕ → String → OutboxStatus → Option ℕ → Option ℕ → Tx Bool
unfolding publish_failure_values
mark_publish_failure now c attempt_count error_message status available_at claimed_at =
    update_claimed now c.outbox_id (some c.claim_token)
      (publish_failure_values attempt_count error_message status available_at claimed_at)

-- ORDER BY claimed_at, id
abbrev pub claimed_earlier : ImportDispatchOutbox → ImportDispatchOutbox → Bool
claimed_earlier a b = earlier_then a.claimed_at b.claimed_at (leb a.id b.id)

abbrev pub stale_claim : ImportDispatchOutbox → StaleOutboxClaim
stale_claim e = record {
  outbox_id = e.id;
  import_id = e.import_id;
  claim_token = e.claim_token;
  attempt_count = e.attempt_count;
}

abbrev pub expired : ℕ → ImportDispatchOutbox → Bool
expired stale_before e = event_is_processing e.status && column_before e.claimed_at stale_before

unfoldable pub lock_stale_claims : (ℕ → Bool) → ℕ → ℕ → Db → List StaleOutboxClaim
lock_stale_claims skipped batch_size stale_before db = map stale_claim (
    take batch_size (
      order_by claimed_earlier (
        select_where (λ e. expired stale_before e && not (skipped e.id))
          db.import_dispatch_outbox)))

abbrev pub requeued_values : ℕ → String → ImportDispatchOutbox → ImportDispatchOutbox
requeued_values recovered_at error_message e = record e {
  status = OutboxStatus.pending;
  available_at = recovered_at;
  claimed_at = none;
  claim_token = none;
  last_error = some error_message;
}

unfoldable pub requeue_stale_claim : ℕ → StaleOutboxClaim → ℕ → String → Tx Bool
requeue_stale_claim now c recovered_at error_message =
    update_claimed now c.outbox_id c.claim_token (requeued_values recovered_at error_message)

abbrev pub stale_failed_values : String → ImportDispatchOutbox → ImportDispatchOutbox
stale_failed_values error_message e = record e {
  status = OutboxStatus.failed;
  claim_token = none;
  last_error = some error_message;
}

unfoldable pub mark_stale_claim_failed : ℕ → StaleOutboxClaim → String → Tx Bool
mark_stale_claim_failed now c error_message =
    update_claimed now c.outbox_id c.claim_token (stale_failed_values error_message)

-- A new row: the columns that are not given have their defaults.
abbrev pub new_event : ℕ → ℕ → ℕ → ℕ → ImportDispatchOutbox
new_event now id import_id available_at = record {
  id = id;
  import_id = import_id;
  status = OutboxStatus.pending;
  attempt_count = 0;
  available_at = available_at;
  claimed_at = none;
  claim_token = none;
  published_at = none;
  last_error = none;
  created_at = now;
  updated_at = now;
}

unfoldable pub create_pending_dispatch_intent : ℕ → ℕ → ℕ → ℕ → Tx (Unit {0})
create_pending_dispatch_intent now id import_id available_at = modify (λ db. record db {
  import_dispatch_outbox =
      db.import_dispatch_outbox ++ new_event now id import_id available_at ∷ [];
})
