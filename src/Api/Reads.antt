-- ===== src/Api/Reads.antt =====
-- The reading routes of app/api/v1/imports.py, and app/api/v1/shipments.py.
use fastapi_shipment_import.Base.{
  ℕ, zero, suc, ◌/◌, ◌%◌, String, Bool, [], ◌∷◌, get_elem?, Option, none, some, ltb, append_text,
  if◌then◌else◌,
}
use fastapi_shipment_import.Models.{Db, Decimal}
use fastapi_shipment_import.Settings.{Settings}
use fastapi_shipment_import.Pagination.{
  InvalidPagination, not_a_positive_integer, exceeds_maximum, Parsed, parsed, invalid_pagination,
  PageRequest, parse_page_request,
}
use fastapi_shipment_import.Repositories.ImportErrors.{ImportErrorReadModel}
use fastapi_shipment_import.Repositories.ShipmentQuery.{ShipmentListItem}
use fastapi_shipment_import.Services.Reads
use fastapi_shipment_import.Services.Reads.{
  ReadAnswer, found, import_not_found_error, invalid_shipment_filter_error, read_failed,
  StatusPayload, Page, ShipmentParameters,
}
use fastapi_shipment_import.Api.Errors.{
  ApiError, bad_request, error_with_status, Answer, responded, api_error, escaped,
}

-- A number in decimal, as an f-string writes it.
abbrev pub text_or_empty : Option String → String
text_or_empty none = ""
text_or_empty (some s) = s

abbrev pub digit_text : ℕ → String
digit_text n =
    text_or_empty (get_elem? ("0" ∷ "1" ∷ "2" ∷ "3" ∷ "4" ∷ "5" ∷ "6" ∷ "7" ∷ "8" ∷ "9" ∷ []) n)

unfoldable pub int_text_within : ℕ → ℕ → String
int_text_within zero n = ""
int_text_within (suc fuel) n =
    let rest = int_text_within fuel (n / 10) in
    if ltb n 10 then digit_text n else append_text rest (digit_text (n % 10))

-- The fuel is one more than the number, which has no more digits than that.
unfoldable pub int_text : ℕ → String
unfolding int_text_within
int_text n = int_text_within (suc n) n

abbrev pub pagination_message : InvalidPagination → String
pagination_message (not_a_positive_integer name) = append_text name " must be a positive integer."
pagination_message (exceeds_maximum n) =
    append_text "page_size must not exceed " (append_text (int_text n) ".")

-- `_import_not_found_error`
abbrev pub import_not_found : ApiError
import_not_found = error_with_status "IMPORT_NOT_FOUND" "Import job was not found." 404

-- How the handlers map the services' exceptions.
abbrev pub answer_of : {A : Type 0} → ReadAnswer A → Answer A
answer_of (found a) = responded a
answer_of import_not_found_error = api_error import_not_found
answer_of (invalid_shipment_filter_error message) = api_error (bad_request "INVALID_FILTER" message)
answer_of (read_failed e) = escaped e

abbrev pub paged : {A : Type 0} → Parsed PageRequest → (PageRequest → ReadAnswer A) → Answer A
paged (parsed request) read = answer_of (read request)
paged (invalid_pagination e) read =
    api_error (bad_request "INVALID_PAGINATION" (pagination_message e))

-- `GET /imports/{import_id}`
unfoldable pub get_import_status : ℕ → Db → Answer StatusPayload
unfolding Reads.get_status
get_import_status import_id db = answer_of (Reads.get_status import_id db)

module _ (unicode_decimal : ℕ → Option ℕ) (settings : Settings) where
  -- `_parse_page_request`, without the error
  abbrev pub page_request_of : Option String → Option String → Parsed PageRequest
  page_request_of page page_size =
      parse_page_request unicode_decimal page page_size settings.default_page_size
        settings.max_page_size

  -- `GET /imports/{import_id}/errors`
  unfoldable pub list_import_errors :
      ℕ → Option String → Option String → (ℕ → Db) → Answer (Page ImportErrorReadModel)
  unfolding parse_page_request Reads.list_errors int_text
  list_import_errors import_id page page_size snapshots =
      paged (page_request_of page page_size)
        (λ request. Reads.list_errors import_id request snapshots)

  -- `GET /shipments`
  unfoldable pub list_shipments :
      (String → Option ℕ)
      → (String → String → Bool)
      → (Decimal → String)
      → Option String
      → Option String
      → ShipmentParameters
      → (ℕ → Db)
      → Answer (Page ShipmentListItem)
  unfolding parse_page_request Reads.list_shipments int_text
  list_shipments fromisoformat ilike decimal_text page page_size parameters snapshots =
      paged (page_request_of page page_size) (λ request.
        Reads.list_shipments fromisoformat ilike decimal_text request parameters snapshots)
