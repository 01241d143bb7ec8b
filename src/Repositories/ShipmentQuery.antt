-- ===== src/Repositories/ShipmentQuery.antt =====
-- app/shipments/repositories/shipment_query_repository.py
use Prim.Native.Char.{code}
use fastapi_shipment_import.Base.{
  ℕ, ◌+◌, ◌*◌, String, Bool, true, not, ◌&&◌, ◌||◌, Option, none, some, List, map, ◌==◌, leb, ltb,
  str_eq, append_text, in_bigint, if◌then◌else◌, select_where, count_where, order_by, take, drop,
}
use fastapi_shipment_import.Models.{Db, Shipment, Decimal}
use fastapi_shipment_import.Session.{sqlalchemy_error, other_error, Result, ok, raised}

pub record ShipmentQueryFilters : Type 0 where
  pub status : Option String
  pub origin_city : Option String
  pub destination_city : Option String
  pub customer_name : Option String
  pub created_from : Option ℕ
  pub created_to : Option ℕ

pub record ShipmentListItem : Type 0 where
  pub shipment_id : ℕ
  pub import_id : ℕ
  pub shipment_code : String
  pub customer_name : String
  pub origin_city : String
  pub destination_city : String
  pub weight_kg : String
  pub price : String
  pub status : String
  pub delivery_date : Option ℕ
  pub created_at : ℕ

pub record ShipmentPage : Type 0 where
  pub items : List ShipmentListItem
  pub total_items : ℕ

-- `value.replace(x, "\\" + x)`, for a character `x`
unfoldable pub escape_each : ℕ → String → String
escape_each x String.[] = String.[]
escape_each x (String.◌∷◌ c s) =
    let rest = escape_each x s in
    if code c == x then append_text "\\" (String.◌∷◌ c rest) else String.◌∷◌ c rest

-- The backslash, the percent sign, the underscore.
unfoldable pub escaped : String → String
unfolding escape_each
escaped value = escape_each 95 (escape_each 37 (escape_each 92 value))

unfoldable pub contains_pattern : String → String
unfolding escaped append_text
contains_pattern value = append_text "%" (append_text (escaped value) "%")

-- The first second of a date, and that of 1970-01-01; `created_at` counts from the latter.
abbrev pub day_start : ℕ → ℕ
day_start day = day * 86400

abbrev pub epoch : ℕ
epoch = day_start 719163

abbrev pub last_day : ℕ
last_day = 3652059

-- One test for each filter that is given; `ilike column pattern` is PostgreSQL's ILIKE, with the
-- backslash as its escape character, and `decimal_text` is `format(value, "f")`.
module _ (ilike : String → String → Bool) where
  abbrev pub status_is : Option String → Shipment → Bool
  status_is none s = true
  status_is (some value) s = str_eq s.status value

  abbrev pub column_contains : Option String → String → Bool
  column_contains none column = true
  column_contains (some value) column = ilike column (contains_pattern value)

  abbrev pub created_since : Option ℕ → ℕ → Bool
  created_since none created_at = true
  created_since (some day) created_at = leb (day_start day) (epoch + created_at)

  -- Up to the end of the last day.
  abbrev pub created_until : Option ℕ → ℕ → Bool
  created_until none created_at = true
  created_until (some day) created_at = ltb (epoch + created_at) (day_start (day + 1))

  unfoldable pub matches : ShipmentQueryFilters → Shipment → Bool
  unfolding contains_pattern
  matches filters s =
      status_is filters.status s
      && column_contains filters.origin_city s.origin_city
      && column_contains filters.destination_city s.destination_city
      && column_contains filters.customer_name s.customer_name
      && created_since filters.created_from s.created_at
      && created_until filters.created_to s.created_at

  -- `created_to + timedelta(days=1)` raises an OverflowError on the last day that Python has.
  abbrev pub has_next_day : Option ℕ → Bool
  has_next_day none = true
  has_next_day (some day) = ltb day last_day

  module _ (decimal_text : Decimal → String) where
    abbrev pub to_list_item : Shipment → ShipmentListItem
    to_list_item s = record {
      shipment_id = s.id;
      import_id = s.import_id;
      shipment_code = s.shipment_code;
      customer_name = s.customer_name;
      origin_city = s.origin_city;
      destination_city = s.destination_city;
      weight_kg = decimal_text s.weight_kg;
      price = decimal_text s.price;
      status = s.status;
      delivery_date = s.delivery_date;
      created_at = s.created_at;
    }

    -- ORDER BY created_at DESC, id DESC
    abbrev pub newest_first : Shipment → Shipment → Bool
    newest_first a b =
        ltb b.created_at a.created_at || ((a.created_at == b.created_at) && leb b.id a.id)

    -- The count and the rows are two statements.
    unfoldable pub list_page : ShipmentQueryFilters → ℕ → ℕ → Db → Db → Result ShipmentPage
    unfolding matches
    list_page filters limit offset counted listed =
        if not (has_next_day filters.created_to)
        then raised other_error
        else if in_bigint limit && in_bigint offset
        then ok (record {
          items = map to_list_item (
              take limit (
                drop offset
                  (order_by newest_first (select_where (matches filters) listed.shipments))));
          total_items = count_where (matches filters) counted.shipments;
        })
        else raised sqlalchemy_error
