-- ===== src/Tests/Writes.antt =====
-- The theorems on single transactions, on a database of one import.

use fastapi_shipment_import.Base.{any}
use fastapi_shipment_import.Base.{delete_where}
use fastapi_shipment_import.Base.{find_where}
use fastapi_shipment_import.Base.{order_by}
use fastapi_shipment_import.Base.{select_where}
use fastapi_shipment_import.Base.{update_where}
use fastapi_shipment_import.Repositories.ImportErrors
use fastapi_shipment_import.Repositories.Progress.{complete}
use fastapi_shipment_import.Repositories.Progress.{heartbeat}
use fastapi_shipment_import.Repositories.Progress.{record_chunk_counts}
use fastapi_shipment_import.Repositories.Progress.{reset_for_reprocessing}
use fastapi_shipment_import.Repositories.Progress.{update_current_processing_import}
use fastapi_shipment_import.Repositories.Shipments.{checks_hold}
use fastapi_shipment_import.Repositories.Shipments.{columns_fit}
use fastapi_shipment_import.Repositories.Shipments.{insert_shipment}
use fastapi_shipment_import.Repositories.Shipments
use fastapi_shipment_import.Services.Process.{reset_counts}
use fastapi_shipment_import.Base.{ℕ, ◌≡◌, refl, Bool, false, none, some, [], ◌∷◌, count_where}
use fastapi_shipment_import.Models.{Db}
use fastapi_shipment_import.Session.{ok}
use fastapi_shipment_import.Repositories.Claims.{claim_pending_import}
use fastapi_shipment_import.Services.Process.{prepare, persist_chunk, record_counts, beat}
use fastapi_shipment_import.Invariants.Sound.{IsSound}
use fastapi_shipment_import.Worker.Race.{Inv}
use fastapi_shipment_import.Worker.Outcome.{complete_import-Completed, Completed}
use fastapi_shipment_import.Repositories.Shipments.{stored_shipment}
use fastapi_shipment_import.Services.Process.{complete_import}
use fastapi_shipment_import.Tests.Data.{
  waiting_job, owned_job, db_of, claim_of_7, waiting-IsSound, owned-IsSound, settings, one_row,
  one_row-IsSound, after_chunk_db,
}
use fastapi_shipment_import.Repositories.Claims.{claimed_job}
use fastapi_shipment_import.Repositories.Progress.{complete_values}
use fastapi_shipment_import.Repositories.Outbox.{new_event}
use fastapi_shipment_import.Base.{◌-◌, false}
use fastapi_shipment_import.Invariants.Recovery.{Recovered, recover_in_transaction-recovers}
use fastapi_shipment_import.Services.Watchdog.{requeued_job, recover_in_transaction}
use fastapi_shipment_import.Services.Process.{Counts}
use fastapi_shipment_import.Invariants.Updates.{claim_pending_import-IsSound}
use fastapi_shipment_import.Invariants.Claiming.{claim_pending_import-excludes}
use fastapi_shipment_import.Invariants.Counters.{prepare-IsSound, complete_import-IsSound}
use fastapi_shipment_import.Invariants.Chunks.{persist_chunk-IsSound}

abbrev one_count : Counts
one_count = record { total_rows = 1; success_count = 1; failed_count = 0 }

abbrev not_skipped : ℕ → Bool
not_skipped i = false

-- Each write on the database of one import, at time 20.
unfoldable claimed_db : Db
claimed_db = db_of (claimed_job 10 7 "worker" waiting_job)

claim_runs :
    claim_pending_import not_skipped 10 1 7 "worker" (db_of waiting_job)
    ≡ ok (some claim_of_7, claimed_db)
unfolding claim_pending_import find_where claimed_db update_where
claim_runs = refl

claim_pending_import-IsSound_example : IsSound claimed_db
claim_pending_import-IsSound_example =
    claim_pending_import-IsSound not_skipped 10 1 7 "worker" (db_of waiting_job) (some claim_of_7)
      claimed_db waiting-IsSound claim_runs

claim_pending_import-excludes_example :
    claim_pending_import not_skipped 11 1 8 "other" claimed_db ≡ ok (none, claimed_db)
claim_pending_import-excludes_example =
    claim_pending_import-excludes not_skipped not_skipped 10 11 1 7 8 "worker" "other"
      (db_of waiting_job) claim_of_7 claimed_db claim_runs

persist_chunk_runs : persist_chunk claim_of_7 one_row 20 (db_of owned_job) ≡ ok (tt, after_chunk_db)
unfolding persist_chunk Shipments.bulk_insert insert_shipment columns_fit checks_hold
    stored_shipment any ImportErrors.bulk_insert record_counts record_chunk_counts
    update_current_processing_import count_where beat heartbeat update_where after_chunk_db
persist_chunk_runs = refl

persist_chunk-stored : IsSound after_chunk_db
persist_chunk-stored =
    persist_chunk-IsSound claim_of_7 one_row 20 one_row-IsSound (db_of owned_job) tt after_chunk_db
      owned-IsSound persist_chunk_runs

persist_chunk-IsSound_example : IsSound after_chunk_db
persist_chunk-IsSound_example =
    persist_chunk-IsSound claim_of_7 one_row 20 one_row-IsSound (db_of owned_job) tt after_chunk_db
      owned-IsSound persist_chunk_runs

-- A second attempt starts over from what the first one stored.
abbrev reset_db : Db
reset_db = db_of (record owned_job { last_heartbeat_at = some 20; updated_at = 30 })

prepare_runs : prepare claim_of_7 30 after_chunk_db ≡ ok (tt, reset_db)
unfolding prepare reset_counts reset_for_reprocessing update_current_processing_import count_where
    after_chunk_db Shipments.delete_by_import_id ImportErrors.delete_by_import_id update_where
    delete_where
prepare_runs = refl

prepare-IsSound_example : IsSound reset_db
prepare-IsSound_example =
    prepare-IsSound claim_of_7 30 after_chunk_db tt reset_db persist_chunk-stored prepare_runs

unfoldable completed_db : Db
completed_db = record after_chunk_db {
  import_jobs =
      record (complete_values 40 1 1 0 (record owned_job { last_heartbeat_at = some 20 })) {
        updated_at = 40;
      }
      ∷ [];
}

complete_import_runs : complete_import claim_of_7 1 1 0 40 after_chunk_db ≡ ok (tt, completed_db)
unfolding complete_import complete update_current_processing_import count_where after_chunk_db
    completed_db update_where
complete_import_runs = refl

complete_import-IsSound_example : IsSound completed_db
unfolding count_where after_chunk_db
complete_import-IsSound_example =
    complete_import-IsSound claim_of_7 1 1 0 40 after_chunk_db tt completed_db refl refl
      persist_chunk-stored complete_import_runs

after_chunk-Inv : Inv claim_of_7 one_count after_chunk_db
unfolding after_chunk_db
after_chunk-Inv = record { sound = persist_chunk-stored; mine = ((λ o. (refl, refl, refl)), tt) }

complete_import-Completed_example : Completed 1 1 completed_db
complete_import-Completed_example =
    complete_import-Completed claim_of_7 one_count 1 40 after_chunk_db tt completed_db refl refl
      after_chunk-Inv complete_import_runs

-- The watchdog at time 1000 finds the heartbeat of time 10 stale, and puts the import back.
unfoldable recovered_db : Db
recovered_db = record (db_of (requeued_job 1001 1000 owned_job)) {
  import_dispatch_outbox = new_event 1001 0 1 1000 ∷ [];
}

recover_runs :
    recover_in_transaction not_skipped (λ k. k) settings 10 1000 1001 (db_of owned_job)
    ≡ ok (1, recovered_db)
unfolding recover_in_transaction order_by select_where recovered_db update_where
recover_runs = refl

recover_in_transaction-recovers_example :
    (a : ℕ) × (db' : Db) × (recover_in_transaction not_skipped
        (λ k. k)
        settings
        10
        1000
        1001
        (db_of owned_job)
      ≡ ok (a, db'))
    × Recovered not_skipped 10
        (1000 - settings.processing_stale_timeout_seconds)
        1000
        1001
        (db_of owned_job)
        a
        db'
recover_in_transaction-recovers_example =
    recover_in_transaction-recovers not_skipped (λ k. k) settings 10 1000 1001 (db_of owned_job)
      owned-IsSound
