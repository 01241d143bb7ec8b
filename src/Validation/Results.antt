-- ===== src/Validation/Results.antt =====
-- The values that row validation hands to the import service, and the validator as that service
-- sees it.
use fastapi_shipment_import.Base.{
  ℕ, ◌+◌, ◌≤◌, ◌<◌, String, ◌≡◌, ◌≢◌, Option, none, some, List, map, length, All, Dict,
}
use fastapi_shipment_import.Models.{Db, Shipment, ImportError}
use fastapi_shipment_import.Validation.Cells.{Cell}
use fastapi_shipment_import.Session.{Result, ok, raised, fuel_exhausted}

pub record ValidatedShipmentRow : Type 0 where
  pub shipment : Shipment
  pub row_number : ℕ
  pub raw_data : Dict (Option Cell)

pub record ValidationChunkResult : Type 0 where
  pub total_rows : ℕ
  pub processed_rows : ℕ
  pub success_count : ℕ
  pub failed_count : ℕ
  pub shipments : List Shipment
  pub import_errors : List ImportError
  pub valid_rows : List ValidatedShipmentRow

-- A chunk of import `import_id` whose counts are those of its rows.
pub record ChunkIsSound (import_id : ℕ) (c : ValidationChunkResult) : Type 0 where
  pub counted : c.success_count ≡ length c.shipments
  pub split : c.total_rows ≡ c.success_count + c.failed_count
  pub processed : c.processed_rows ≡ c.total_rows
  -- each failed row has an error at least
  pub explained : c.failed_count ≤ length c.import_errors
  pub of_rows : c.shipments ≡ map (λ r. r.shipment) c.valid_rows
  pub of_import : All (λ (s : Shipment). s.import_id ≡ import_id) c.shipments

-- RowValidationService as ProcessImportService uses it. `Pending` is the state of the generator that
-- `iter_validated_chunks` returns: the rows still to be read and the codes that it has seen.
pub record Validator (import_id : ℕ) : Type 1 where
  pub Pending : Type 0
  pub start : String → Pending
  pub next_chunk : Pending → Db → Result (Option (ValidationChunkResult × Pending))
  pub reclassify : Pending → ValidationChunkResult → Db → ValidationChunkResult
  -- how many chunks the generator can still yield, at most
  pub remaining : Pending → ℕ
  -- how many data rows it has still to yield
  pub rows : Pending → ℕ
  pub next_chunk-IsSound :
      (p : Pending) (db : Db) (c : ValidationChunkResult) (p' : Pending)
      → next_chunk p db ≡ ok (some (c, p'))
      → ChunkIsSound import_id c × (remaining p' < remaining p) × (rows p ≡ c.total_rows + rows p')
  pub next_chunk-none : (p : Pending) (db : Db) → next_chunk p db ≡ ok none → rows p ≡ 0
  pub next_chunk-fuel : (p : Pending) (db : Db) → next_chunk p db ≢ raised fuel_exhausted
  pub reclassify-IsSound :
      (p : Pending) (c : ValidationChunkResult) (db : Db)
      → ChunkIsSound import_id c
      → ChunkIsSound import_id (reclassify p c db)
        × ((reclassify p c db).total_rows ≡ c.total_rows)
        × ((reclassify p c db).success_count ≤ c.success_count)
