-- ===== src/Services/Reads.antt =====
-- app/imports/services/get_import_status.py and list_import_errors.py, and
-- app/shipments/services/list_shipments.py
use fastapi_shipment_import.Base.{
  ℕ, String, Bool, true, false, not, ◌&&◌, ◌||◌, Option, none, some, List, [], ◌∷◌, ltb, str_eq,
  strip, is_empty, is_some, any, if◌then◌else◌,
}
use fastapi_shipment_import.Models.{Db, Decimal, ImportStatus, is_failed}
use fastapi_shipment_import.Session.{Failure, Result, ok, raised}
use fastapi_shipment_import.Pagination.{
  PageRequest, PaginationMetadata, offset, build_pagination_metadata,
}
use fastapi_shipment_import.Repositories.Imports.{
  ImportStatusReadModel, get_status_read_model, exists,
}
use fastapi_shipment_import.Repositories.ImportErrors.{ImportErrorReadModel, ImportErrorPage}
use fastapi_shipment_import.Repositories.ImportErrors
use fastapi_shipment_import.Repositories.ShipmentQuery.{
  ShipmentListItem, ShipmentPage, ShipmentQueryFilters,
}
use fastapi_shipment_import.Repositories.ShipmentQuery

-- What a read service answers, or the exception that leaves it.
pub data ReadAnswer (A : Type 0) : Type 0 where
  found : A → ReadAnswer A
  import_not_found_error : ReadAnswer A
  invalid_shipment_filter_error : String → ReadAnswer A
  read_failed : Failure → ReadAnswer A

-- The payload: each of the two reasons is a key with its value, or no key.
pub record StatusPayload : Type 0 where
  pub record_read : ImportStatusReadModel
  pub last_failure_reason : Option (Option String)
  pub failure_reason : Option (Option String)

abbrev pub is_completed : ImportStatus → Bool
is_completed ImportStatus.completed = true
is_completed _ = false

abbrev pub hides_last_reason : ImportStatusReadModel → Bool
hides_last_reason r =
    is_completed r.status || (not (is_failed r.status) && not (is_some r.last_failure_reason))

abbrev pub shown_last_reason : ImportStatusReadModel → Option (Option String)
shown_last_reason r = if hides_last_reason r then none else some r.last_failure_reason

abbrev pub shown_failure_reason : ImportStatusReadModel → Option (Option String)
shown_failure_reason r = if not (is_failed r.status) then none else some r.failure_reason

abbrev pub payload_of : Option ImportStatusReadModel → ReadAnswer StatusPayload
payload_of none = import_not_found_error
payload_of (some r) = found (record {
  record_read = r;
  last_failure_reason = shown_last_reason r;
  failure_reason = shown_failure_reason r;
})

unfoldable pub get_status : ℕ → Db → ReadAnswer StatusPayload
unfolding get_status_read_model
get_status import_id db = payload_of (get_status_read_model import_id db)

pub record Page (A : Type 0) : Type 0 where
  pub items : List A
  pub pagination : PaginationMetadata

abbrev pub error_page :
    PageRequest → Result ImportErrorPage → ReadAnswer (Page ImportErrorReadModel)
error_page request (ok page) =
    found (record {
      items = page.items;
      pagination = build_pagination_metadata request page.total_items;
    })
error_page request (raised e) = read_failed e

-- `snapshots k` is what statement number k of the session sees.
unfoldable pub list_errors : ℕ → PageRequest → (ℕ → Db) → ReadAnswer (Page ImportErrorReadModel)
unfolding exists ImportErrors.list_page offset build_pagination_metadata
list_errors import_id request snapshots =
    if exists import_id (snapshots 0)
    then error_page request (
        ImportErrors.list_page import_id request.page_size (offset request) (snapshots 1)
          (snapshots 2))
    else import_not_found_error

-- The query parameters of a list of shipments.
pub record ShipmentParameters : Type 0 where
  pub status : Option String
  pub origin_city : Option String
  pub destination_city : Option String
  pub customer_name : Option String
  pub created_from : Option String
  pub created_to : Option String

-- A value, or the message of an InvalidShipmentFilterError.
pub data Checked (A : Type 0) : Type 0 where
  checked : A → Checked A
  invalid_filter : String → Checked A

abbrev pub and_then : {A B : Type 0} → Checked A → (A → Checked B) → Checked B
and_then (checked a) f = f a
and_then (invalid_filter message) f = invalid_filter message

abbrev pub shipment_statuses : List String
shipment_statuses = "CANCELED" ∷ "DELIVERED" ∷ "IN_TRANSIT" ∷ "PENDING" ∷ []

unfoldable pub normalize_status : Option String → Checked (Option String)
unfolding strip
normalize_status none = checked none
normalize_status (some value) =
    if any (str_eq (strip value)) shipment_statuses
    then checked (some (strip value))
    else invalid_filter "status must be one of: CANCELED, DELIVERED, IN_TRANSIT, PENDING."

unfoldable pub normalize_text_filter : Option String → Checked (Option String)
unfolding strip
normalize_text_filter none = checked none
normalize_text_filter (some value) =
    if is_empty (strip value)
    then invalid_filter "text filters must not be blank."
    else checked (some (strip value))

abbrev pub after_parse : String → Option ℕ → Checked (Option ℕ)
after_parse message none = invalid_filter message
after_parse message (some day) = checked (some day)

abbrev pub out_of_order : Option ℕ → Option ℕ → Bool
out_of_order (some from) (some to) = ltb to from
out_of_order _ _ = false

-- `fromisoformat` is `date.fromisoformat`: an ordinal, or a ValueError.
module _ (fromisoformat : String → Option ℕ) where
  unfoldable pub parse_date_filter : String → Option String → Checked (Option ℕ)
  parse_date_filter message none = checked none
  parse_date_filter message (some value) = after_parse message (fromisoformat value)

  unfoldable pub build_filters : ShipmentParameters → Checked ShipmentQueryFilters
  unfolding normalize_status normalize_text_filter parse_date_filter
  build_filters p = and_then (normalize_status p.status) λ status.
      and_then (parse_date_filter "created_from must use YYYY-MM-DD." p.created_from) λ from.
        and_then (parse_date_filter "created_to must use YYYY-MM-DD." p.created_to) λ to.
          if out_of_order from to
          then invalid_filter "created_from must be on or before created_to."
          else and_then (normalize_text_filter p.origin_city) λ origin.
            and_then (normalize_text_filter p.destination_city) λ destination.
              and_then (normalize_text_filter p.customer_name) λ customer. checked (record {
                status = status;
                origin_city = origin;
                destination_city = destination;
                customer_name = customer;
                created_from = from;
                created_to = to;
              })

  abbrev pub shipment_page : PageRequest → Result ShipmentPage → ReadAnswer (Page ShipmentListItem)
  shipment_page request (ok page) = found (record {
    items = page.items;
    pagination = build_pagination_metadata request page.total_items;
  })
  shipment_page request (raised e) = read_failed e

  module _ (ilike : String → String → Bool) (decimal_text : Decimal → String) where
    abbrev pub with_filters :
        PageRequest → (ℕ → Db) → Checked ShipmentQueryFilters → ReadAnswer (Page ShipmentListItem)
    with_filters request snapshots (invalid_filter message) = invalid_shipment_filter_error message
    with_filters request snapshots (checked filters) = shipment_page request (
        ShipmentQuery.list_page ilike decimal_text filters request.page_size (offset request)
          (snapshots 0) (snapshots 1))

    unfoldable pub list_shipments :
        PageRequest → ShipmentParameters → (ℕ → Db) → ReadAnswer (Page ShipmentListItem)
    unfolding build_filters ShipmentQuery.list_page offset build_pagination_metadata
    list_shipments request parameters snapshots =
        with_filters request snapshots (build_filters parameters)
