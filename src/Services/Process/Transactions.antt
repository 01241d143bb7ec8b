-- ===== src/Services/Process/Transactions.antt =====
-- The transactions of ProcessImportService.
use fastapi_shipment_import.Base.{ℕ}
use fastapi_shipment_import.Session
use fastapi_shipment_import.Session.{
  Failure, integrity_error, operational_error, stale_import_worker_error, workbook_structure_error,
  retryable_import_processing_error, fuel_exhausted, Result, ok, raised, Tx,
}
use fastapi_shipment_import.Repositories.Claims.{ClaimedImport}
use fastapi_shipment_import.Repositories.Progress.{
  has_current_ownership, reset_for_reprocessing, record_chunk_counts, heartbeat, complete,
}
use fastapi_shipment_import.Repositories.Shipments
use fastapi_shipment_import.Repositories.ImportErrors
use fastapi_shipment_import.Validation.Results.{ValidationChunkResult}

unfoldable pub require_current_ownership : ClaimedImport → Tx (Unit {0})
require_current_ownership claimed =
    Session.◌>>=◌ (has_current_ownership claimed.import_id claimed.processing_token)
      λ owns. Session.require owns stale_import_worker_error

unfoldable pub reset_counts : ClaimedImport → ℕ → Tx (Unit {0})
reset_counts claimed now =
    Session.◌>>=◌ (reset_for_reprocessing now claimed.import_id claimed.processing_token)
      λ done. Session.require done stale_import_worker_error

unfoldable pub prepare : ClaimedImport → ℕ → Tx (Unit {0})
prepare claimed now = Session.◌>>◌ (reset_counts claimed now) (
    Session.◌>>◌ (Shipments.delete_by_import_id claimed.import_id)
      (Session.◌>>◌ (ImportErrors.delete_by_import_id claimed.import_id) (Session.pure tt)))

unfoldable pub record_counts : ClaimedImport → ValidationChunkResult → ℕ → Tx (Unit {0})
record_counts claimed c now =
    Session.◌>>=◌
      (record_chunk_counts now claimed.import_id claimed.processing_token c.total_rows
        c.success_count c.failed_count)
      λ done. Session.require done stale_import_worker_error

unfoldable pub beat : ClaimedImport → ℕ → Tx (Unit {0})
beat claimed now =
    Session.◌>>=◌ (heartbeat now claimed.import_id claimed.processing_token)
      λ done. Session.require done stale_import_worker_error

unfoldable pub persist_chunk : ClaimedImport → ValidationChunkResult → ℕ → Tx (Unit {0})
persist_chunk claimed c now = Session.◌>>◌ (Shipments.bulk_insert now c.shipments) (
    Session.◌>>◌ (ImportErrors.bulk_insert now c.import_errors)
      (Session.◌>>◌ (record_counts claimed c now) (beat claimed now)))

unfoldable pub complete_import : ClaimedImport → ℕ → ℕ → ℕ → ℕ → Tx (Unit {0})
complete_import claimed total_rows success_count failed_count now =
    Session.◌>>=◌
      (complete now claimed.import_id claimed.processing_token total_rows success_count
        failed_count)
      λ done. Session.require done stale_import_worker_error
