-- ===== src/Validation/Whole.antt =====
-- `validate` on a whole workbook.
use fastapi_shipment_import.Base.{
  ℕ, suc, ◌+◌, ◌≤◌, String, ◌≡◌, refl, sym, subst, arith, none, List, [], ◌∷◌, length,
  length-append,
}
use fastapi_shipment_import.Models.{Db}
use fastapi_shipment_import.Session.{Result, ok, raised}
use fastapi_shipment_import.Validation.Cells.{Outside, ParsedWorkbookRow}
use fastapi_shipment_import.Validation.Chunks.{PendingChunks}
use fastapi_shipment_import.Validation.Accumulator.{
  ValidationResult, ValidationAccumulator, empty_accumulator, add_chunk, to_result, validate_chunks,
  validate,
}
use fastapi_shipment_import.Validation.Generator.{rows_of}
use fastapi_shipment_import.Validation.Total.{validate_chunk-returns}

-- The counts of an accumulator are those of its rows.
abbrev Counted : ValidationAccumulator → Type 0
Counted acc =
    (acc.total_rows ≡ acc.success_count + acc.failed_count)
    × (acc.success_count ≡ length acc.shipments)
    × (acc.failed_count ≤ length acc.import_errors)

abbrev pub Collects : ℕ → Result ValidationResult → Type 0
Collects rows (ok r) =
    (r.total_rows ≡ rows)
    × (r.processed_rows ≡ r.total_rows)
    × (r.total_rows ≡ r.success_count + r.failed_count)
    × (r.success_count ≡ length r.shipments)
    × (r.failed_count ≤ length r.import_errors)
Collects rows (raised e) = ⊥

module _ (o : Outside) (import_id : ℕ) (snapshots : ℕ → Db) where
  validate_chunks-Collects :
      (chunks : List (List ParsedWorkbookRow)) (seen : List String) (drawn k : ℕ)
      (acc : ValidationAccumulator)
      → Counted acc
      → Collects
          (acc.total_rows + rows_of chunks)
          (validate_chunks o import_id none snapshots chunks seen drawn k acc)
  unfolding validate_chunks add_chunk to_result
  validate_chunks-Collects [] seen drawn k acc h = (omega arith, sym h.0, h.0, h.1, h.2)
  validate_chunks-Collects (rows ∷ rest) seen drawn k acc h =
      let (a, is, good, all) = validate_chunk-returns o import_id rows seen drawn (snapshots k) in
      let more = length-append acc.shipments a.chunk.shipments in
      let errors = length-append acc.import_errors a.chunk.import_errors in
      let next = validate_chunks-Collects rest a.seen a.drawn (suc k) (add_chunk acc a.chunk) (
        omega (arith, h.0, good.split),
        omega (arith, h.1, good.counted, more),
        omega (arith, h.2, good.explained, errors),
      ) in
      let rows_left : (add_chunk acc a.chunk).total_rows + rows_of rest
          ≡ acc.total_rows + (length rows + rows_of rest) =
        omega (arith, all) in
      rw is (
        subst
          (λ n. Collects n (
            validate_chunks o import_id none snapshots rest a.seen a.drawn (suc k)
              (add_chunk acc a.chunk)))
          rows_left next)

  -- For a workbook that no exception ends, validate returns a result whose total_rows is the number
  -- of data rows of the chunks, with processed_rows equal to it, total_rows the sum of
  -- success_count and failed_count, success_count the number of shipments, and failed_count at most
  -- the number of errors.
  pub validate-Collects :
      (p : PendingChunks)
      → p.ending ≡ none
      → Collects (rows_of p.chunks) (validate o import_id snapshots p)
  unfolding validate
  validate-Collects p whole =
      let all : 0 + rows_of p.chunks ≡ rows_of p.chunks = omega arith in
      rw whole (
        subst
          (λ n. Collects n (
            validate_chunks o import_id none snapshots p.chunks p.seen p.drawn 0 empty_accumulator))
          all
          (validate_chunks-Collects p.chunks p.seen p.drawn 0 empty_accumulator
            (refl, refl, omega arith)))
