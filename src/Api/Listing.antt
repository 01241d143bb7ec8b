-- ===== src/Api/Listing.antt =====
-- What the reading routes list.
use fastapi_shipment_import.Base.{
  ℕ, ◌^◌, ◌≤◌, ◌≡◌, refl, String, Bool, false, Option, some, arith, List, [], map, select_where,
  order_by, Bool-cases, inl, inr, ltb,
}
use fastapi_shipment_import.Models.{Db}
use fastapi_shipment_import.Pagination.{PageRequest, offset}
use fastapi_shipment_import.Repositories.ImportErrors.{
  ImportErrorReadModel, read_error, listed_before, error_in_import,
}
use fastapi_shipment_import.Repositories.ImportErrors
use fastapi_shipment_import.Services.Reads
use fastapi_shipment_import.Services.Reads.{
  ReadAnswer, shown_failure_reason, shown_last_reason, is_completed, hides_last_reason, payload_of,
  found, import_not_found_error, invalid_shipment_filter_error, read_failed, StatusPayload, Page,
}
use mathlib.Core.Logic.{◌⊎◌}
use fastapi_shipment_import.Pagination.{parsed}
use fastapi_shipment_import.Models.{Decimal}
use fastapi_shipment_import.Settings.{Settings}
use fastapi_shipment_import.Session.{other_error}
use fastapi_shipment_import.Repositories.ShipmentQuery
use fastapi_shipment_import.Repositories.ShipmentQuery.{ShipmentQueryFilters, ShipmentListItem}
use fastapi_shipment_import.Services.Reads.{ShipmentParameters, checked}
use fastapi_shipment_import.Api.Errors.{error_response, handle_unexpected_error}
use fastapi_shipment_import.Api.Reads.{page_request_of, list_shipments}

abbrev pub items_of : {A : Type 0} → ReadAnswer (Page A) → List A
items_of (found page) = page.items
items_of import_not_found_error = []
items_of (invalid_shipment_filter_error message) = []
items_of (read_failed e) = []

-- Every error of the import, in the order of rows.
abbrev pub all_errors : ℕ → Db → List ImportErrorReadModel
all_errors import_id db =
    map read_error
      (order_by listed_before (select_where (error_in_import import_id) db.import_errors))

module _ (fromisoformat : String → Option ℕ) (ilike : String → String → Bool)
    (decimal_text : Decimal → String) where
  -- Every shipment that passes the filters, the newest first.
  abbrev pub all_shipments : ShipmentQueryFilters → Db → List ShipmentListItem
  all_shipments filters db = map (ShipmentQuery.to_list_item ilike decimal_text) (
      order_by (ShipmentQuery.newest_first ilike decimal_text)
        (select_where (ShipmentQuery.matches ilike filters) db.shipments))

-- With page parameters and filters that are accepted, GET /shipments answers 500 INTERNAL_ERROR if
-- created_to is the last date of Python or if the offset of the page is 2^63 or more.
pub list_shipments-overflows :
    (unicode_decimal : ℕ → Option ℕ) (settings : Settings) (fromisoformat : String → Option ℕ)
    (ilike : String → String → Bool) (decimal_text : Decimal → String)
    (page page_size : Option String) (request : PageRequest) (parameters : ShipmentParameters)
    (filters : ShipmentQueryFilters) (snapshots : ℕ → Db)
    → page_request_of unicode_decimal settings page page_size ≡ parsed request
    → Reads.build_filters fromisoformat parameters ≡ checked filters
    → (filters.created_to ≡ some ShipmentQuery.last_day) ⊎ (2 ^ 63 ≤ offset request)
    → error_response (
        list_shipments unicode_decimal settings fromisoformat ilike decimal_text page page_size
          parameters snapshots)
      ≡ some (handle_unexpected_error other_error)
unfolding list_shipments Reads.list_shipments ShipmentQuery.list_page error_response
list_shipments-overflows unicode_decimal settings fromisoformat ilike decimal_text page page_size
      request parameters filters snapshots is built far =
    elim far [
      | inl last ↦ rw (is, built, last) refl
      | inr beyond ↦
          let o : ltb (offset request) (2 ^ 63) ≡ false = ground (arith, beyond) in
          elim (Bool-cases (ShipmentQuery.has_next_day ilike filters.created_to)) [
            | inl e ↦ elim (Bool-cases (ltb request.page_size (2 ^ 63))) [
              | inl t ↦ rw (is, built, e, t, o) refl
              | inr f ↦ rw (is, built, e, f) refl
            ]
            | inr e ↦ rw (is, built, e) refl
          ]
    ]
