-- ===== src/Validation/Rows.antt =====
-- One row: its cells parsed field by field, and the shipment rules on what could be parsed.
use fastapi_shipment_import.Base.{
  ℕ, String, Bool, true, ◌&&◌, ◌||◌, Option, none, some, List, [], ◌∷◌, ◌++◌, str_eq, if◌then◌else◌,
  Dict, get, has,
}
use fastapi_shipment_import.Models.{Decimal}
use fastapi_shipment_import.Validation.Cells.{
  Cell, Parsed, parsed, invalid, Outside, required_workbook_headers, ParsedWorkbookRow,
}
use fastapi_shipment_import.Domain.{
  ValidationIssue, validate_partial_shipment_draft, validate_shipment_draft,
}

pub data Value : Type 0 where
  str_value : String → Value
  decimal_value : Decimal → Value
  date_value : ℕ → Value
  no_value : Value

-- app/imports/schemas/shipment_row.py
pub record ShipmentRow : Type 0 where
  pub shipment_code : String
  pub customer_name : String
  pub origin_city : String
  pub destination_city : String
  pub weight_kg : Decimal
  pub price : Decimal
  pub status : String
  pub delivery_date : Option ℕ

pub record PreparedRow : Type 0 where
  pub row : ParsedWorkbookRow
  pub issues : List ValidationIssue
  pub parsed_row : Option ShipmentRow
  pub shipment_code : Option String

-- `row.values.get(field)`: a missing key and a null cell are both None.
unfoldable pub cell_at : String → ParsedWorkbookRow → Option Cell
unfolding get
cell_at field row = elim (get field row.values) [ none ↦ none | some c ↦ c ]

abbrev pub optional_str : Option Value → Option String
optional_str (some (str_value s)) = some s
optional_str _ = none

abbrev pub optional_decimal : Option Value → Option Decimal
optional_decimal (some (decimal_value d)) = some d
optional_decimal _ = none

abbrev pub optional_date : Option Value → Option ℕ
optional_date (some (date_value d)) = some d
optional_date _ = none

abbrev pub answer : {A : Type 0} → (A → Value) → Parsed A → Parsed Value
answer f (parsed a) = parsed (f a)
answer f (invalid message) = invalid message

module _ (o : Outside) where
  -- The adapter of a required field.
  unfoldable pub parse_field : String → Cell → Parsed Value
  parse_field field c =
      if str_eq field "weight_kg" || str_eq field "price"
      then answer decimal_value (o.parse_decimal c)
      else answer str_value (o.parse_str c)

  -- One round of the loop over the required headers.
  abbrev pub required_step :
      String
      → Option (Parsed Value)
      → List ValidationIssue × Dict Value
      → List ValidationIssue × Dict Value
  required_step field none rest =
      (record { field = field; error = "Field required" } ∷ rest.0, rest.1)
  required_step field (some (invalid message)) rest =
      (record { field = field; error = message } ∷ rest.0, rest.1)
  required_step field (some (parsed value)) rest = (rest.0, (field, value) ∷ rest.1)

  abbrev pub parse_at : String → Option Cell → Option (Parsed Value)
  parse_at field none = none
  parse_at field (some c) = some (parse_field field c)

  unfoldable pub parse_required :
      List String → ParsedWorkbookRow → List ValidationIssue × Dict Value
  unfolding cell_at parse_field
  parse_required [] row = ([], [])
  parse_required (field ∷ fields) row =
      required_step field (parse_at field (cell_at field row)) (parse_required fields row)

  abbrev pub date_answer : Option (Parsed ℕ) → List ValidationIssue × Value
  date_answer none = ([], no_value)
  date_answer (some (parsed d)) = ([], date_value d)
  date_answer (some (invalid message)) =
      (record { field = "delivery_date"; error = message } ∷ [], no_value)

  abbrev pub parse_date_at : Option Cell → Option (Parsed ℕ)
  parse_date_at none = none
  parse_date_at (some c) = some (o.parse_date c)

unfoldable pub all_parsed : List String → Dict Value → Bool
unfolding get
all_parsed [] d = true
all_parsed (field ∷ fields) d = has field d && all_parsed fields d

abbrev pub construct :
    Option String
    → Option String
    → Option String
    → Option String
    → Option Decimal
    → Option Decimal
    → Option String
    → Option ℕ
    → Option ShipmentRow
construct (some code) (some customer) (some origin) (some destination) (some weight) (some price)
      (some status) date =
    some (record {
      shipment_code = code;
      customer_name = customer;
      origin_city = origin;
      destination_city = destination;
      weight_kg = weight;
      price = price;
      status = status;
      delivery_date = date;
    })
construct _ _ _ _ _ _ _ _ = none

-- `ShipmentRow.model_construct(**parsed_values)`, typed: none where a field is missing.
unfoldable pub model_construct : Dict Value → Option ShipmentRow
unfolding get
model_construct d =
    construct (optional_str (get "shipment_code" d)) (optional_str (get "customer_name" d))
      (optional_str (get "origin_city" d)) (optional_str (get "destination_city" d))
      (optional_decimal (get "weight_kg" d)) (optional_decimal (get "price" d))
      (optional_str (get "status" d)) (optional_date (get "delivery_date" d))

unfoldable pub validate_row_rules : ShipmentRow → List ValidationIssue
unfolding validate_shipment_draft
validate_row_rules r = validate_shipment_draft (record {
  shipment_code = r.shipment_code;
  customer_name = r.customer_name;
  origin_city = r.origin_city;
  destination_city = r.destination_city;
  weight_kg = r.weight_kg;
  price = r.price;
  status = r.status;
  delivery_date = r.delivery_date;
})

unfoldable pub validate_partial_row_rules : Dict Value → List ValidationIssue
unfolding get validate_partial_shipment_draft
validate_partial_row_rules d = validate_partial_shipment_draft (record {
  shipment_code = optional_str (get "shipment_code" d);
  customer_name = optional_str (get "customer_name" d);
  origin_city = optional_str (get "origin_city" d);
  destination_city = optional_str (get "destination_city" d);
  weight_kg = optional_decimal (get "weight_kg" d);
  price = optional_decimal (get "price" d);
  status = optional_str (get "status" d);
  delivery_date = optional_date (get "delivery_date" d);
})

pub record RowParse : Type 0 where
  pub issues : List ValidationIssue
  pub parsed_values : Dict Value
  pub parsed_row : Option ShipmentRow

-- The row once every required field is parsed.
abbrev pub whole_row : List ValidationIssue → Dict Value → Option ShipmentRow → RowParse
whole_row issues d none = record { issues = issues; parsed_values = d; parsed_row = none }
whole_row issues d (some r) = record {
  issues = issues ++ validate_row_rules r;
  parsed_values = d;
  parsed_row = some r;
}

abbrev pub row_of : List ValidationIssue → Dict Value → RowParse
row_of issues d =
    if all_parsed required_workbook_headers d
    then whole_row issues d (model_construct d)
    else record {
      issues = issues ++ validate_partial_row_rules d;
      parsed_values = d;
      parsed_row = none;
    }

unfoldable pub parse_row : Outside → ParsedWorkbookRow → RowParse
unfolding parse_required all_parsed model_construct validate_row_rules validate_partial_row_rules
parse_row o row =
    let required = parse_required o required_workbook_headers row in
    let date = date_answer o (parse_date_at o (cell_at "delivery_date" row)) in
    row_of (required.0 ++ date.0) (required.1 ++ ("delivery_date", date.1) ∷ [])

abbrev pub code_of : RowParse → Option String
code_of p = code p.parsed_row
  where
    code : Option ShipmentRow → Option String
    code none = optional_str (get "shipment_code" p.parsed_values)
    code (some r) = some r.shipment_code

unfoldable pub prepare_row : Outside → ParsedWorkbookRow → PreparedRow
unfolding parse_row
prepare_row o row = record {
  row = row;
  issues = (parse_row o row).issues;
  parsed_row = (parse_row o row).parsed_row;
  shipment_code = code_of (parse_row o row);
}
