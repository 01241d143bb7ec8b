-- ===== src/Tests/Rules.antt =====
-- The theorems on row validation and on the retry policy, at small inputs.
use fastapi_shipment_import.Validation.Accumulator.{validate}
use fastapi_shipment_import.Validation.Generator.{iter_validated_chunks}
use fastapi_shipment_import.Validation.Whole.{Collects, validate-Collects}
use fastapi_shipment_import.Domain.{ShipmentDraft, validate_shipment_draft}
use fastapi_shipment_import.Validation.Checks.{Storable, validate_shipment_draft-Storable}
use fastapi_shipment_import.Validation.Parsed.{prepare_row-parsed}
use fastapi_shipment_import.Validation.Total.{validate_chunk-returns}
use fastapi_shipment_import.Validation.Chunks.{ChunkAnswer}
use fastapi_shipment_import.Validation.Chunks.{duplicate_issues}
use fastapi_shipment_import.Validation.Chunks.{remember_codes}
use fastapi_shipment_import.Validation.Chunks.{unseen_codes}
use fastapi_shipment_import.Validation.Chunks.{validate_chunk}
use fastapi_shipment_import.Validation.Chunks.{validate_row}
use fastapi_shipment_import.Validation.Chunks.{validate_rows}
use fastapi_shipment_import.Validation.Rows.{prepare_row}
use fastapi_shipment_import.Base.{any}
use fastapi_shipment_import.Base.{select_where}
use fastapi_shipment_import.Repositories.Shipments.{checks_hold}
use fastapi_shipment_import.Repositories.Shipments.{columns_fit}
use fastapi_shipment_import.Repositories.Shipments.{insert_shipment}
use fastapi_shipment_import.Repositories.Shipments
use fastapi_shipment_import.Base.{◌≡◌, refl, arith, true, false, none, some, [], ◌∷◌, ◌≤◌}
use fastapi_shipment_import.Models.{Shipment, pos}
use fastapi_shipment_import.Session.{ok}
use fastapi_shipment_import.Settings.{validated}
use fastapi_shipment_import.Validation.Results.{ChunkIsSound, ValidationChunkResult}
use fastapi_shipment_import.Repositories.Shipments.{stored_shipment}
use fastapi_shipment_import.Tests.Data.{
  owned_job, db_of, adapters, row, settings, event_claim, one_shipment, one_row, one_row-IsSound,
  after_chunk_db, three_kilos, workbook,
}
use fastapi_shipment_import.Services.Publisher.{FailureOutcome, failure_outcome}
use fastapi_shipment_import.Validation.Chunks.{reclassify_database_duplicates}
use fastapi_shipment_import.Validation.Chunks.{PendingChunks, next_validated_chunk}
use fastapi_shipment_import.Base.{◌+◌, ◌<◌}
use fastapi_shipment_import.Validation.Generator.{
  next_validated_chunk-IsSound, reclassify_database_duplicates-IsSound,
}
use fastapi_shipment_import.Invariants.Events.{failure_outcome-decides, failure_outcome-lacks_delay}
use fastapi_shipment_import.Base.{leb, is_some, not, ◌↔◌}

reclassify_database_duplicates-IsSound_example :
    ChunkIsSound 1 (reclassify_database_duplicates adapters 1 0 one_row after_chunk_db)
    × ((reclassify_database_duplicates adapters 1 0 one_row after_chunk_db).total_rows ≡ 1)
    × ((reclassify_database_duplicates adapters 1 0 one_row after_chunk_db).success_count ≤ 1)
reclassify_database_duplicates-IsSound_example =
    reclassify_database_duplicates-IsSound adapters 1 0 one_row after_chunk_db one_row-IsSound

settings-validated : validated settings ≡ true
unfolding validated any
settings-validated = refl

more_settings-validated : validated (record settings { outbox_max_attempts = 6 }) ≡ true
unfolding validated any
more_settings-validated = refl

failure_outcome-decides_example :
    (outcome : FailureOutcome) × (failure_outcome settings 50 (event_claim 4) ≡ some outcome)
    × (outcome.attempt_count ≡ 5)
    × (outcome.exhausted ≡ leb 5 outcome.attempt_count)
    × (is_some outcome.available_at ≡ not outcome.exhausted)
failure_outcome-decides_example =
    failure_outcome-decides settings 50 (event_claim 4) settings-validated (omega arith)

failure_outcome-lacks_delay_example :
    (failure_outcome (record settings { outbox_max_attempts = 6 }) 50 (event_claim 4) ≡ none)
    ↔ (4 ≤ 4)
failure_outcome-lacks_delay_example =
    failure_outcome-lacks_delay (record settings { outbox_max_attempts = 6 }) 50 (event_claim 4)
      more_settings-validated (omega arith)

-- One row of a workbook, read to the end.
abbrev first_shipment : Shipment
first_shipment = record one_shipment {
  price = record { negative = false; coefficient = 12; exponent = pos 0 };
}

abbrev first_chunk : ValidationChunkResult
first_chunk = record one_row {
  shipments = first_shipment ∷ [];
  valid_rows =
      record { shipment = first_shipment; row_number = 2; raw_data = (row 2 "A-1").values } ∷ [];
}

abbrev one_chunk : PendingChunks
one_chunk = record { chunks = (row 2 "A-1" ∷ []) ∷ []; ending = none; seen = []; drawn = 0 }

abbrev no_chunk : PendingChunks
no_chunk = record { chunks = []; ending = none; seen = "A-1" ∷ []; drawn = 1 }

first_chunk_runs :
    next_validated_chunk adapters 1 one_chunk (db_of owned_job) ≡ ok (some (first_chunk, no_chunk))
unfolding next_validated_chunk validate_chunk validate_rows validate_row prepare_row
    duplicate_issues any Shipments.find_existing_shipment_codes unseen_codes select_where
    remember_codes
first_chunk_runs = refl

next_validated_chunk-IsSound_example : ChunkIsSound 1 first_chunk × (0 < 1) × (1 ≡ 1 + 0)
next_validated_chunk-IsSound_example =
    next_validated_chunk-IsSound adapters 1 one_chunk (db_of owned_job) first_chunk no_chunk
      first_chunk_runs

-- A row that the rules accept.
abbrev draft : ShipmentDraft
draft = record {
  shipment_code = "A-1";
  customer_name = "Ada";
  origin_city = "Bern";
  destination_city = "Oslo";
  weight_kg = three_kilos;
  price = three_kilos;
  status = "PENDING";
  delivery_date = none;
}

validate_shipment_draft-Storable_example : (validate_shipment_draft draft ≡ []) ↔ Storable draft
validate_shipment_draft-Storable_example = validate_shipment_draft-Storable draft

validate_chunk-returns_example :
    (a : ChunkAnswer) × (validate_chunk adapters 1
        (row 2 "A-1" ∷ row 3 "A-1" ∷ [])
        []
        0
        (db_of owned_job)
      ≡ ok a)
    × ChunkIsSound 1 a.chunk
    × (a.chunk.total_rows ≡ 2)
validate_chunk-returns_example =
    validate_chunk-returns adapters 1 (row 2 "A-1" ∷ row 3 "A-1" ∷ []) [] 0 (db_of owned_job)

prepare_row-parsed_example : is_some (prepare_row adapters (row 2 "A-1")).parsed_row ≡ true
unfolding prepare_row
prepare_row-parsed_example = prepare_row-parsed adapters (row 2 "A-1") refl

abbrev two_chunks : PendingChunks
two_chunks = iter_validated_chunks 0 (workbook "imports/1.xlsx")

validate-Collects_example : Collects 3 (validate adapters 1 (λ k. db_of owned_job) two_chunks)
unfolding iter_validated_chunks
validate-Collects_example = validate-Collects adapters 1 (λ k. db_of owned_job) two_chunks refl
