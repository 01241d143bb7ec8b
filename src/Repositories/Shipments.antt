-- ===== src/Repositories/Shipments.antt =====
-- app/imports/repositories/shipment_repository.py, with the constraints of app/db/models/shipment.py
-- that an INSERT is held to.
use fastapi_shipment_import.Base.{
  ℕ, String, Bool, not, ◌&&◌, ◌||◌, List, [], ◌∷◌, ◌++◌, map, ◌==◌, leb, str_eq, if◌then◌else◌,
  text_length, any, select_where, delete_where, count_where,
}
use fastapi_shipment_import.Models.{
  Db, Shipment, Decimal, negsuc, scaled, numeric_fits, decimal_le_zero, decimal_lt_zero,
}
use fastapi_shipment_import.Session.{Tx, ok, raised, integrity_error, sqlalchemy_error, ◌>>◌, pure}

-- What a column NUMERIC(_, scale + 1) stores of a value.
abbrev rounded : ℕ → Decimal → Decimal
rounded places d = record {
  negative = d.negative && not (scaled (ℕ.suc places) d == 0);
  coefficient = scaled (ℕ.suc places) d;
  exponent = negsuc places;
}

-- The lengths of the text columns and the precision of the numeric ones.
unfoldable pub columns_fit : Shipment → Bool
unfolding text_length numeric_fits
columns_fit s =
    leb (text_length s.shipment_code) 128
    && leb (text_length s.customer_name) 150
    && leb (text_length s.origin_city) 255
    && leb (text_length s.destination_city) 255
    && leb (text_length s.status) 32
    && numeric_fits 12 3 s.weight_kg
    && numeric_fits 18 2 s.price

unfoldable pub status_is_allowed : String → Bool
status_is_allowed status =
    str_eq status "PENDING"
    || str_eq status "IN_TRANSIT"
    || str_eq status "DELIVERED"
    || str_eq status "CANCELED"

-- The row that an INSERT stores: rounded numbers, and the server's defaults.
unfoldable pub stored_shipment : ℕ → Shipment → Shipment
unfolding scaled
stored_shipment now s = record s {
  weight_kg = rounded 2 s.weight_kg;
  price = rounded 1 s.price;
  created_at = now;
  updated_at = now;
}

-- ck_shipments_status, ck_shipments_weight_kg_positive, ck_shipments_price_non_negative
unfoldable pub checks_hold : Shipment → Bool
unfolding status_is_allowed decimal_le_zero decimal_lt_zero
checks_hold s =
    status_is_allowed s.status && not (decimal_le_zero s.weight_kg) && not (decimal_lt_zero s.price)

abbrev pub has_code : String → Shipment → Bool
has_code code s = str_eq s.shipment_code code

abbrev pub in_import : ℕ → Shipment → Bool
in_import import_id s = s.import_id == import_id

abbrev pub import_exists : ℕ → Db → Bool
import_exists import_id db = any (λ job. job.id == import_id) db.import_jobs

unfoldable pub insert_shipment : ℕ → Shipment → Tx (Unit {0})
insert_shipment now s db =
    if not (columns_fit s)
    then raised sqlalchemy_error
    else if checks_hold (stored_shipment now s)
        && not (any (has_code s.shipment_code) db.shipments)
        && import_exists s.import_id db
    then ok (tt, record db { shipments = db.shipments ++ stored_shipment now s ∷ [] })
    else raised integrity_error

-- `add_all` and `flush`; the count that the method returns is not used.
unfoldable pub bulk_insert : ℕ → List Shipment → Tx (Unit {0})
bulk_insert now [] = pure tt
bulk_insert now (s ∷ ss) = insert_shipment now s >> bulk_insert now ss

abbrev pub contains : List String → String → Bool
contains codes code = any (λ c. str_eq c code) codes

-- A set of codes is a list; nothing reads its order.
unfoldable pub find_existing_shipment_codes : List String → Db → List String
find_existing_shipment_codes [] db = []
find_existing_shipment_codes (c ∷ cs) db =
    map (λ s. s.shipment_code) (select_where (λ s. contains (c ∷ cs) s.shipment_code) db.shipments)

unfoldable pub delete_by_import_id : ℕ → Tx ℕ
delete_by_import_id import_id db = ok (
  count_where (in_import import_id) db.shipments,
  record db { shipments = delete_where (in_import import_id) db.shipments },
)
