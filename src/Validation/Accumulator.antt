-- ===== src/Validation/Accumulator.antt =====
-- `RowValidationService.validate`: all chunks of a workbook in one result.
use fastapi_shipment_import.Base.{ℕ, suc, ◌+◌, String, Option, none, some, List, [], ◌∷◌, ◌++◌}
use fastapi_shipment_import.Models.{Db, Shipment, ImportError}
use fastapi_shipment_import.Session.{Result, ok, raised, other_error, workbook_structure_error}
use fastapi_shipment_import.Validation.Cells.{Outside, ParsedWorkbookRow}
use fastapi_shipment_import.Validation.Results.{ValidationChunkResult}
use fastapi_shipment_import.Validation.Chunks.{
  ChunkAnswer, Ending, PendingChunks, structure, escaped, validate_chunk,
}

pub record ValidationResult : Type 0 where
  pub total_rows : ℕ
  pub processed_rows : ℕ
  pub success_count : ℕ
  pub failed_count : ℕ
  pub shipments : List Shipment
  pub import_errors : List ImportError

pub record ValidationAccumulator : Type 0 where
  pub total_rows : ℕ
  pub success_count : ℕ
  pub failed_count : ℕ
  pub shipments : List Shipment
  pub import_errors : List ImportError

abbrev pub empty_accumulator : ValidationAccumulator
empty_accumulator = record {
  total_rows = 0;
  success_count = 0;
  failed_count = 0;
  shipments = [];
  import_errors = [];
}

unfoldable pub add_chunk : ValidationAccumulator → ValidationChunkResult → ValidationAccumulator
add_chunk acc c = record {
  total_rows = acc.total_rows + c.total_rows;
  success_count = acc.success_count + c.success_count;
  failed_count = acc.failed_count + c.failed_count;
  shipments = acc.shipments ++ c.shipments;
  import_errors = acc.import_errors ++ c.import_errors;
}

unfoldable pub to_result : ValidationAccumulator → ValidationResult
to_result acc = record {
  total_rows = acc.total_rows;
  processed_rows = acc.success_count + acc.failed_count;
  success_count = acc.success_count;
  failed_count = acc.failed_count;
  shipments = acc.shipments;
  import_errors = acc.import_errors;
}

abbrev pub after_last : Option Ending → ValidationAccumulator → Result ValidationResult
after_last none acc = ok (to_result acc)
after_last (some (structure message)) acc = raised (workbook_structure_error message)
after_last (some escaped) acc = raised other_error

abbrev pub with_answer :
    Result ChunkAnswer → (ChunkAnswer → Result ValidationResult) → Result ValidationResult
with_answer (ok a) next = next a
with_answer (raised e) next = raised e

module _ (o : Outside) (import_id : ℕ) (ending : Option Ending) (snapshots : ℕ → Db) where
  -- The loop: `k` chunks have been validated, the next one sees `snapshots k`.
  unfoldable pub validate_chunks :
      List (List ParsedWorkbookRow)
      → List String
      → ℕ
      → ℕ
      → ValidationAccumulator
      → Result ValidationResult
  unfolding add_chunk to_result
  validate_chunks [] seen drawn k acc = after_last ending acc
  validate_chunks (rows ∷ rest) seen drawn k acc =
      let next = validate_chunks rest in
      with_answer (validate_chunk o import_id rows seen drawn (snapshots k))
        (λ a. next a.seen a.drawn (suc k) (add_chunk acc a.chunk))

-- The parser, the generator and the loop.
unfoldable pub validate : Outside → ℕ → (ℕ → Db) → PendingChunks → Result ValidationResult
unfolding validate_chunks
validate o import_id snapshots p =
    validate_chunks o import_id p.ending snapshots p.chunks p.seen p.drawn 0 empty_accumulator
