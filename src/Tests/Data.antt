-- ===== src/Tests/Data.antt =====
-- Small databases, a workbook and a quiet environment for the tests.
use fastapi_shipment_import.Base.{ℕ, String, refl, arith, false, none, some, [], ◌∷◌, count_where}
use fastapi_shipment_import.Models.{Db, ImportJob, ImportStatus, Shipment, Decimal, pos}
use fastapi_shipment_import.Settings.{Settings}
use fastapi_shipment_import.Service.{Env, World}
use fastapi_shipment_import.Repositories.Claims.{ClaimedImport}
use fastapi_shipment_import.Repositories.Outbox.{ClaimedOutboxEvent}
use fastapi_shipment_import.Validation.Cells.{
  Cell, text_cell, integer_cell, Parsed, parsed, invalid, Outside, ParsedWorkbookRow,
}
use fastapi_shipment_import.Validation.Results.{Validator, ChunkIsSound, ValidationChunkResult}
use fastapi_shipment_import.Validation.Generator.{row_validation_service, Workbook}
use fastapi_shipment_import.Invariants.Sound.{IsSound}
use fastapi_shipment_import.Worker.Race.{Inv}
use fastapi_shipment_import.Repositories.Shipments.{stored_shipment}
use fastapi_shipment_import.Services.Process.{no_counts}

-- An import that waits, and the same import in the hands of token 7.
abbrev pub waiting_job : ImportJob
waiting_job = record {
  id = 1;
  status = ImportStatus.pending;
  original_file_name = "shipments.xlsx";
  stored_file_path = "imports/1.xlsx";
  file_size_bytes = 2048;
  content_type = none;
  idempotency_key = none;
  idempotency_fingerprint = "fingerprint";
  total_rows = 0;
  processed_rows = 0;
  success_count = 0;
  failed_count = 0;
  attempt_count = 0;
  max_attempts = 3;
  processing_token = none;
  locked_by_worker = none;
  started_at = none;
  last_heartbeat_at = none;
  finished_at = none;
  last_failure_reason = none;
  failure_reason = none;
  last_requeued_at = none;
  created_at = 5;
  updated_at = 5;
}

abbrev pub owned_job : ImportJob
owned_job = record waiting_job {
  status = ImportStatus.processing;
  processing_token = some 7;
  locked_by_worker = some "worker";
  attempt_count = 1;
  started_at = some 10;
  last_heartbeat_at = some 10;
}

abbrev pub db_of : ImportJob → Db
db_of job = record {
  import_jobs = job ∷ [];
  import_dispatch_outbox = [];
  shipments = [];
  import_errors = [];
}

abbrev pub claim_of_7 : ClaimedImport
claim_of_7 = record {
  import_id = 1;
  stored_file_path = "imports/1.xlsx";
  processing_token = 7;
  attempt_count = 1;
  max_attempts = 3;
}

pub waiting-IsSound : IsSound (db_of waiting_job)
unfolding count_where
waiting-IsSound = record {
  jobs_keyed = λ j. ground arith;
  jobs_valid = (
    record {
      token_held = refl;
      worker_held = refl;
      beating = λ e. cc;
      reason_terminal = refl;
      finished_terminal = refl;
      attempts_bounded = omega arith;
      total_split = refl;
      processed_all = refl;
    },
    tt,
  );
  codes_unique = λ c. omega arith;
  shipments_checked = tt;
  referenced = tt;
  counted = (ground arith, tt);
}

pub owned-IsSound : IsSound (db_of owned_job)
unfolding count_where
owned-IsSound = record {
  jobs_keyed = λ j. ground arith;
  jobs_valid = (
    record {
      token_held = refl;
      worker_held = refl;
      beating = λ e. refl;
      reason_terminal = refl;
      finished_terminal = refl;
      attempts_bounded = omega arith;
      total_split = refl;
      processed_all = refl;
    },
    tt,
  );
  codes_unique = λ c. omega arith;
  shipments_checked = tt;
  referenced = tt;
  counted = (ground arith, tt);
}

-- A quiet environment: nobody else commits, no connection drops.
abbrev pub quiet : Env
quiet = record { interfere = λ k db. db; fault = λ k. false; lost = λ k. false; clock = λ k. k }

-- Adapters that read texts and integers.
abbrev pub read_text : Cell → Parsed String
read_text (text_cell s) = parsed s
read_text _ = invalid "Input should be a valid string"

abbrev pub read_decimal : Cell → Parsed Decimal
read_decimal (integer_cell (pos n)) =
    parsed (record { negative = false; coefficient = n; exponent = pos 0 })
read_decimal _ = invalid "Input should be a valid decimal"

abbrev pub adapters : Outside
adapters = record {
  parse_str = read_text;
  parse_decimal = read_decimal;
  parse_date = λ c. invalid "Input should be a valid date";
  decimal_text = λ d. "decimal";
  datetime_isoformat = λ t. "datetime";
  date_isoformat = λ d. "date";
  uuid4 = λ k. k;
}

abbrev pub row : ℕ → String → ParsedWorkbookRow
row n code = record {
  row_number = n;
  values =
      ("shipment_code", some (text_cell code))
      ∷ ("customer_name", some (text_cell "Ada"))
      ∷ ("origin_city", some (text_cell "Bern"))
      ∷ ("destination_city", some (text_cell "Oslo"))
      ∷ ("weight_kg", some (integer_cell (pos 3)))
      ∷ ("price", some (integer_cell (pos 12)))
      ∷ ("status", some (text_cell "PENDING"))
      ∷ ("delivery_date", none)
      ∷ [];
}

-- Two chunks: a shipment and its duplicate, then another shipment.
abbrev pub workbook : String → Workbook
workbook path = ((row 2 "A-1" ∷ row 3 "A-1" ∷ []) ∷ (row 4 "B-1" ∷ []) ∷ [], none)

unfoldable pub service : (i : ℕ) → Validator i
unfolding row_validation_service
service i = row_validation_service adapters i workbook

abbrev pub starting_at : Db → World
starting_at db = record { db = db; ticks = 0 }

-- Settings that the validators accept.
abbrev pub settings : Settings
settings = record {
  upload_read_chunk_size_bytes = 1024;
  max_upload_size_bytes = 4096;
  processing_row_chunk_size = 500;
  outbox_batch_size = 10;
  outbox_max_attempts = 5;
  outbox_stale_timeout_seconds = 60;
  outbox_poll_interval_seconds = 5;
  outbox_retry_delays_seconds = 5 ∷ 30 ∷ 120 ∷ 600 ∷ [];
  import_max_attempts = 3;
  processing_stale_timeout_seconds = 300;
  watchdog_interval_seconds = 60;
  startup_recovery_batch_size = 10;
  watchdog_batch_size = 10;
  default_page_size = 20;
  max_page_size = 100;
}

abbrev pub event_claim : ℕ → ClaimedOutboxEvent
event_claim attempts = record {
  outbox_id = 3;
  import_id = 1;
  claim_token = 9;
  attempt_count = attempts;
}

-- A chunk with one shipment of import 1.
abbrev pub three_kilos : Decimal
three_kilos = record { negative = false; coefficient = 3; exponent = pos 0 }

abbrev pub one_shipment : Shipment
one_shipment = record {
  id = 0;
  import_id = 1;
  shipment_code = "A-1";
  customer_name = "Ada";
  origin_city = "Bern";
  destination_city = "Oslo";
  weight_kg = three_kilos;
  price = three_kilos;
  status = "PENDING";
  delivery_date = none;
  created_at = 0;
  updated_at = 0;
}

abbrev pub one_row : ValidationChunkResult
one_row = record {
  total_rows = 1;
  processed_rows = 1;
  success_count = 1;
  failed_count = 0;
  shipments = one_shipment ∷ [];
  import_errors = [];
  valid_rows = record { shipment = one_shipment; row_number = 2; raw_data = [] } ∷ [];
}

pub one_row-IsSound : ChunkIsSound 1 one_row
one_row-IsSound = record {
  counted = refl;
  split = refl;
  processed = refl;
  explained = omega arith;
  of_rows = refl;
  of_import = (refl, tt);
}

pub owned-Inv : Inv claim_of_7 no_counts (db_of owned_job)
owned-Inv = record { sound = owned-IsSound; mine = ((λ o. (refl, refl, refl)), tt) }

-- What stands in the database after one transaction at time 20.
unfoldable pub after_chunk_db : Db
unfolding stored_shipment
after_chunk_db =
    record (db_of (record owned_job {
      total_rows = 1;
      processed_rows = 1;
      success_count = 1;
      last_heartbeat_at = some 20;
      updated_at = 20;
    })) { shipments = stored_shipment 20 one_shipment ∷ [] }
