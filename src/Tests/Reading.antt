-- ===== src/Tests/Reading.antt =====
-- The theorems on the reading routes, at concrete inputs.
use fastapi_shipment_import.Base.{
  ℕ, String, ◌≡◌, refl, inl, ◌-◌, arith, Option, none, some, [], ◌∷◌,
}
use fastapi_shipment_import.Models.{Db, ImportError, Decimal}
use fastapi_shipment_import.Session.{other_error}
use fastapi_shipment_import.Pagination.{PageRequest, parse_page_request}
use fastapi_shipment_import.Pagination.Pages.{InBounds, parse_page_request-InBounds}
use fastapi_shipment_import.Repositories.ShipmentQuery
use fastapi_shipment_import.Repositories.ShipmentQuery.{ShipmentQueryFilters}
use fastapi_shipment_import.Services.Reads
use fastapi_shipment_import.Services.Reads.{ShipmentParameters}
use fastapi_shipment_import.Api.Errors.{error_response, handle_unexpected_error}
use fastapi_shipment_import.Api.Reads.{list_shipments}
use fastapi_shipment_import.Api.Listing.{list_shipments-overflows}
use fastapi_shipment_import.Api.Status.{StatusOutcome, get_status-outcome}
use fastapi_shipment_import.Tests.Data.{waiting_job, db_of, waiting-IsSound, settings, one_shipment}
use fastapi_shipment_import.Tests.Like.{plain_like}

abbrev no_decimal : ℕ → Option ℕ
no_decimal c = none

parse_page_request-InBounds_example :
    InBounds 100 (parse_page_request no_decimal (some " 3 ") (some "+1_0") 20 100)
parse_page_request-InBounds_example =
    parse_page_request-InBounds no_decimal (some " 3 ") (some "+1_0") 20 100 (omega arith)

abbrev by_two : PageRequest
by_two = record { page = 1; page_size = 2 }

abbrev row_error : ℕ → ImportError
row_error n = record {
  id = n;
  import_id = 1;
  row_number = 9 - n;
  field = "price";
  error = "Price must not be negative.";
  raw_data = [];
  created_at = 6;
}

abbrev reported : Db
reported = record (db_of waiting_job) {
  import_errors = row_error 1 ∷ row_error 2 ∷ row_error 3 ∷ [];
  shipments = one_shipment ∷ [];
}

abbrev from_bern : ShipmentParameters
from_bern = record {
  status = some " PENDING ";
  origin_city = some "er";
  destination_city = none;
  customer_name = none;
  created_from = none;
  created_to = none;
}

abbrev filters_from_bern : ShipmentQueryFilters
filters_from_bern = record {
  status = some "PENDING";
  origin_city = some "er";
  destination_city = none;
  customer_name = none;
  created_from = none;
  created_to = none;
}

-- Every text is read as the last date that there is.
abbrev last_date : String → Option ℕ
last_date s = some ShipmentQuery.last_day

abbrev no_text : Decimal → String
no_text d = "decimal"

abbrev to_the_end : ShipmentParameters
to_the_end = record {
  status = none;
  origin_city = none;
  destination_city = none;
  customer_name = none;
  created_from = none;
  created_to = some "9999-12-31";
}

abbrev filters_to_the_end : ShipmentQueryFilters
filters_to_the_end = record {
  status = none;
  origin_city = none;
  destination_city = none;
  customer_name = none;
  created_from = none;
  created_to = some ShipmentQuery.last_day;
}

list_shipments-overflows_example :
    error_response (
      list_shipments no_decimal settings last_date plain_like no_text none none to_the_end
        (λ s. reported))
    ≡ some (handle_unexpected_error other_error)
unfolding parse_page_request Reads.build_filters
list_shipments-overflows_example =
    list_shipments-overflows no_decimal settings last_date plain_like no_text none none
      (record { page = 1; page_size = 20 }) to_the_end filters_to_the_end (λ s. reported) refl refl
      (inl refl)

get_status-outcome_example :
    StatusOutcome 1 (db_of waiting_job) (Reads.get_status 1 (db_of waiting_job))
get_status-outcome_example = get_status-outcome 1 (db_of waiting_job) waiting-IsSound
