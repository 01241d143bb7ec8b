-- ===== src/Models.antt =====
-- The tables of app/db/models and the domain values that their columns hold.
--
-- A UUID, a date-time and a date are numbers: UUIDs by their 128 bits, date-times by their distance
-- from the epoch, dates by their ordinal. A nullable column is an option.
mod Decimals
pub use Decimals.{ℤ, pos, negsuc, Decimal}
unfoldable pub use Decimals.{decimal_le_zero, decimal_lt_zero, scaled, numeric_fits}
use fastapi_shipment_import.Base.{ℕ, String, Option, Bool, true, false, List}

-- app/domain/import_states.py
pub data ImportStatus : Type 0 where
  pending processing completed failed : ImportStatus

pub data OutboxStatus : Type 0 where
  pending processing published failed : OutboxStatus

abbrev pub is_pending : ImportStatus → Bool
is_pending ImportStatus.pending = true
is_pending _ = false

abbrev pub is_processing : ImportStatus → Bool
is_processing ImportStatus.processing = true
is_processing _ = false

abbrev pub is_failed : ImportStatus → Bool
is_failed ImportStatus.failed = true
is_failed _ = false

abbrev pub event_is_pending : OutboxStatus → Bool
event_is_pending OutboxStatus.pending = true
event_is_pending _ = false

abbrev pub event_is_processing : OutboxStatus → Bool
event_is_processing OutboxStatus.processing = true
event_is_processing _ = false

pub record ImportJob : Type 0 where
  pub id : ℕ
  pub status : ImportStatus
  pub original_file_name : String
  pub stored_file_path : String
  pub file_size_bytes : ℕ
  pub content_type : Option String
  pub idempotency_key : Option String
  pub idempotency_fingerprint : String
  pub total_rows : ℕ
  pub processed_rows : ℕ
  pub success_count : ℕ
  pub failed_count : ℕ
  pub attempt_count : ℕ
  pub max_attempts : ℕ
  pub processing_token : Option ℕ
  pub locked_by_worker : Option String
  pub started_at : Option ℕ
  pub last_heartbeat_at : Option ℕ
  pub finished_at : Option ℕ
  pub last_failure_reason : Option String
  pub failure_reason : Option String
  pub last_requeued_at : Option ℕ
  pub created_at : ℕ
  pub updated_at : ℕ

pub record ImportDispatchOutbox : Type 0 where
  pub id : ℕ
  pub import_id : ℕ
  pub status : OutboxStatus
  pub attempt_count : ℕ
  pub available_at : ℕ
  pub claimed_at : Option ℕ
  pub claim_token : Option ℕ
  pub published_at : Option ℕ
  pub last_error : Option String
  pub created_at : ℕ
  pub updated_at : ℕ

pub record Shipment : Type 0 where
  pub id : ℕ
  pub import_id : ℕ
  pub shipment_code : String
  pub customer_name : String
  pub origin_city : String
  pub destination_city : String
  pub weight_kg : Decimal
  pub price : Decimal
  pub status : String
  pub delivery_date : Option ℕ
  pub created_at : ℕ
  pub updated_at : ℕ

-- A JSON value as `jsonb_safe` leaves it; numbers that are not integers are kept as text.
pub data Json : Type 0 where
  null : Json
  text : String → Json
  integer : ℤ → Json
  boolean : Bool → Json
  real : String → Json

pub record ImportError : Type 0 where
  pub id : ℕ
  pub import_id : ℕ
  pub row_number : ℕ
  pub field : String
  pub error : String
  pub raw_data : List (String × Json)
  pub created_at : ℕ

-- The database: one list of rows for each table.
pub record Db : Type 0 where
  pub import_jobs : List ImportJob
  pub import_dispatch_outbox : List ImportDispatchOutbox
  pub shipments : List Shipment
  pub import_errors : List ImportError
