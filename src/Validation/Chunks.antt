-- ===== src/Validation/Chunks.antt =====
-- `RowValidationService`: a chunk of rows against the codes of the file and of the database, and
-- app/imports/services/duplicate_tracker.py.
use fastapi_shipment_import.Base.{
  ℕ, suc, ◌+◌, ◌-◌, String, not, ◌||◌, Option, none, some, List, [], ◌∷◌, ◌++◌, map, length,
  if◌then◌else◌, select_where, Dict,
}
use fastapi_shipment_import.Models.{Db, Shipment, ImportError}
use fastapi_shipment_import.Domain.{ValidationIssue}
use fastapi_shipment_import.Session.{Result, ok, raised, other_error, workbook_structure_error}
use fastapi_shipment_import.Repositories.Shipments.{contains, find_existing_shipment_codes}
use fastapi_shipment_import.Validation.Results.{ValidatedShipmentRow, ValidationChunkResult}
use fastapi_shipment_import.Validation.Cells.{Cell, Outside, ParsedWorkbookRow, raw_json}
use fastapi_shipment_import.Validation.Rows.{PreparedRow, ShipmentRow, prepare_row}

-- DuplicateTracker: a set of codes is a list; only membership in it is asked.
unfoldable pub unseen_codes : List String → List String → List String
unseen_codes codes seen = select_where (λ code. not (contains seen code)) codes

unfoldable pub remember_codes : List String → List String → List String
remember_codes codes seen = codes ++ seen

abbrev pub file_duplicate : ValidationIssue
file_duplicate = record {
  field = "shipment_code";
  error = "Shipment code must be unique within the import file.";
}

abbrev pub database_duplicate : ValidationIssue
database_duplicate = record {
  field = "shipment_code";
  error = "Shipment code already exists in the database.";
}

-- The issue that a row's code has: with the codes of earlier chunks, of this chunk so far, and of the
-- database.
unfoldable pub duplicate_issues :
    List String → List String → List String → Option String → List ValidationIssue
duplicate_issues seen chunk_seen existing none = []
duplicate_issues seen chunk_seen existing (some code) =
    if contains seen code || contains chunk_seen code
    then file_duplicate ∷ []
    else if contains existing code
    then database_duplicate ∷ []
    else []

abbrev pub add_code : Option String → List String → List String
add_code none codes = codes
add_code (some code) codes = code ∷ codes

-- The local variables of `validate_chunk`; `drawn` counts the UUIDs drawn so far.
pub record ChunkState : Type 0 where
  pub shipments : List Shipment
  pub import_errors : List ImportError
  pub valid_rows : List ValidatedShipmentRow
  pub chunk_seen : List String
  pub failed_count : ℕ
  pub drawn : ℕ

abbrev pub start_state : ℕ → ChunkState
start_state drawn = record {
  shipments = [];
  import_errors = [];
  valid_rows = [];
  chunk_seen = [];
  failed_count = 0;
  drawn = drawn;
}

abbrev pub chunk_result : ℕ → ChunkState → ValidationChunkResult
chunk_result total s = record {
  total_rows = total;
  processed_rows = length s.shipments + s.failed_count;
  success_count = length s.shipments;
  failed_count = s.failed_count;
  shipments = s.shipments;
  import_errors = s.import_errors;
  valid_rows = s.valid_rows;
}

abbrev pub row_codes : List PreparedRow → List String
row_codes [] = []
row_codes (p ∷ ps) = add_code p.shipment_code (row_codes ps)

-- The chunk's result, the tracker after it and the UUIDs drawn.
pub record ChunkAnswer : Type 0 where
  pub chunk : ValidationChunkResult
  pub seen : List String
  pub drawn : ℕ

abbrev pub chunk_answer : ℕ → List String → Result ChunkState → Result ChunkAnswer
chunk_answer total seen (raised e) = raised e
chunk_answer total seen (ok s) = ok (record {
  chunk = chunk_result total s;
  seen = remember_codes s.chunk_seen seen;
  drawn = s.drawn;
})

-- The rows whose codes the database has by now become errors.
unfoldable pub retained : List String → List ValidatedShipmentRow → List ValidatedShipmentRow
retained existing rows = select_where (λ r. not (contains existing r.shipment.shipment_code)) rows

module _ (o : Outside) (import_id : ℕ) where
  -- The server sets `created_at` when the row is stored.
  unfoldable pub build_import_errors :
      ℕ → ℕ → Dict (Option Cell) → List ValidationIssue → List ImportError
  unfolding raw_json
  build_import_errors drawn row_number raw_data [] = []
  build_import_errors drawn row_number raw_data (issue ∷ issues) =
      record {
        id = o.uuid4 drawn;
        import_id = import_id;
        row_number = row_number;
        field = issue.field;
        error = issue.error;
        raw_data = raw_json o raw_data;
        created_at = 0;
      }
      ∷ build_import_errors (suc drawn) row_number raw_data issues

  abbrev pub build_shipment : ℕ → ShipmentRow → Shipment
  build_shipment drawn r = record {
    id = o.uuid4 drawn;
    import_id = import_id;
    shipment_code = r.shipment_code;
    customer_name = r.customer_name;
    origin_city = r.origin_city;
    destination_city = r.destination_city;
    weight_kg = r.weight_kg;
    price = r.price;
    status = r.status;
    delivery_date = r.delivery_date;
    created_at = 0;
    updated_at = 0;
  }

  -- A row with issues fails; `assert prepared_row.parsed_row is not None` guards the others.
  abbrev pub settle_row :
      PreparedRow → List ValidationIssue → Option ShipmentRow → ChunkState → Result ChunkState
  settle_row prepared (issue ∷ issues) parsed s = ok (record s {
    import_errors =
        s.import_errors
        ++ build_import_errors s.drawn prepared.row.row_number prepared.row.values (issue ∷ issues);
    failed_count = s.failed_count + 1;
    drawn = s.drawn + length (issue ∷ issues);
  })
  settle_row prepared [] none s = raised other_error
  settle_row prepared [] (some r) s = ok (record s {
    shipments = s.shipments ++ build_shipment s.drawn r ∷ [];
    valid_rows =
        s.valid_rows
        ++ record {
          shipment = build_shipment s.drawn r;
          row_number = prepared.row.row_number;
          raw_data = prepared.row.values;
        }
          ∷ [];
    drawn = s.drawn + 1;
  })

  unfoldable pub validate_row :
      List String → List String → PreparedRow → ChunkState → Result ChunkState
  validate_row seen existing prepared s =
      settle_row prepared
        (prepared.issues ++ duplicate_issues seen s.chunk_seen existing prepared.shipment_code)
        prepared.parsed_row (record s { chunk_seen = add_code prepared.shipment_code s.chunk_seen })

  unfoldable pub validate_rows :
      List String → List String → List PreparedRow → ChunkState → Result ChunkState
  validate_rows seen existing [] s = ok s
  validate_rows seen existing (p ∷ ps) s = elim (validate_row seen existing p s) [
    | ok s' ↦ validate_rows seen existing ps s'
    | raised e ↦ raised e
  ]

  unfoldable pub validate_chunk : List ParsedWorkbookRow → List String → ℕ → Db → Result ChunkAnswer
  validate_chunk rows seen drawn db =
      let prepared = map (prepare_row o) rows in
      chunk_answer (length rows) seen (
        validate_rows seen
          (find_existing_shipment_codes (unseen_codes (row_codes prepared) seen) db) prepared
          (start_state drawn))

  unfoldable pub conflict_errors : List String → ℕ → List ValidatedShipmentRow → List ImportError
  unfolding build_import_errors
  conflict_errors existing drawn [] = []
  conflict_errors existing drawn (r ∷ rs) =
      let rest = conflict_errors existing (suc drawn) rs in
      if contains existing r.shipment.shipment_code
      then build_import_errors drawn r.row_number r.raw_data (database_duplicate ∷ []) ++ rest
      else conflict_errors existing drawn rs

  abbrev pub with_conflicts : List String → ℕ → ValidationChunkResult → ValidationChunkResult
  with_conflicts [] drawn c = c
  with_conflicts (e ∷ es) drawn c =
      let kept = retained (e ∷ es) c.valid_rows in
      record {
        total_rows = c.total_rows;
        processed_rows = c.processed_rows;
        success_count = length kept;
        failed_count = c.failed_count + (length c.valid_rows - length kept);
        shipments = map (λ r. r.shipment) kept;
        import_errors = c.import_errors ++ conflict_errors (e ∷ es) drawn c.valid_rows;
        valid_rows = kept;
      }

  unfoldable pub reclassify_database_duplicates :
      ℕ → ValidationChunkResult → Db → ValidationChunkResult
  reclassify_database_duplicates drawn c db =
      with_conflicts
        (find_existing_shipment_codes (map (λ r. r.shipment.shipment_code) c.valid_rows) db) drawn c

-- How the parser may end: in a WorkbookStructureError, or in an exception that it does not catch.
pub data Ending : Type 0 where
  structure : String → Ending
  escaped : Ending

-- The generator of `iter_validated_chunks`: the chunks that the parser has still to yield, the
-- exception that it then raises, if any, the codes seen and the UUIDs drawn.
pub record PendingChunks : Type 0 where
  pub chunks : List (List ParsedWorkbookRow)
  pub ending : Option Ending
  pub seen : List String
  pub drawn : ℕ

abbrev pub ended : {A : Type 0} → Option Ending → Result (Option A)
ended none = ok none
ended (some (structure message)) = raised (workbook_structure_error message)
ended (some escaped) = raised other_error

abbrev pub yielded :
    List (List ParsedWorkbookRow)
    → Option Ending
    → Result ChunkAnswer
    → Result (Option (ValidationChunkResult × PendingChunks))
yielded rest ending (raised e) = raised e
yielded rest ending (ok a) =
    ok (some (a.chunk, record { chunks = rest; ending = ending; seen = a.seen; drawn = a.drawn }))

abbrev pub next_of :
    Outside
    → ℕ
    → Option Ending
    → List String
    → ℕ
    → Db
    → List (List ParsedWorkbookRow)
    → Result (Option (ValidationChunkResult × PendingChunks))
next_of o import_id ending seen drawn db [] = ended ending
next_of o import_id ending seen drawn db (rows ∷ rest) =
    yielded rest ending (validate_chunk o import_id rows seen drawn db)

unfoldable pub next_validated_chunk :
    Outside → ℕ → PendingChunks → Db → Result (Option (ValidationChunkResult × PendingChunks))
next_validated_chunk o import_id p db = next_of o import_id p.ending p.seen p.drawn db p.chunks
