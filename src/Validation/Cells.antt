-- ===== src/Validation/Cells.antt =====
-- The cells of a workbook row, and what row validation takes from outside the repository.
use fastapi_shipment_import.Base.{
  ℕ, String, Bool, Option, none, some, List, [], ◌∷◌, ◌++◌, Dict, map,
}
use fastapi_shipment_import.Models.{Decimal, ℤ, Json, null, text, integer, boolean, real}

-- A cell's value as openpyxl gives it: `other` keeps `str(value)`.
pub data Cell : Type 0 where
  text_cell : String → Cell
  integer_cell : ℤ → Cell
  boolean_cell : Bool → Cell
  real_cell : String → Cell
  decimal_cell : Decimal → Cell
  datetime_cell : ℕ → Cell
  date_cell : ℕ → Cell
  other_cell : String → Cell

-- What a pydantic adapter answers: a value, or the message of its first error.
pub data Parsed (A : Type 0) : Type 0 where
  parsed : A → Parsed A
  invalid : String → Parsed A

-- The libraries that row validation calls: pydantic's adapters, the texts of decimals and dates, and
-- the UUIDs that `uuid4` draws, by their number.
pub record Outside : Type 0 where
  pub parse_str : Cell → Parsed String
  pub parse_decimal : Cell → Parsed Decimal
  pub parse_date : Cell → Parsed ℕ
  pub decimal_text : Decimal → String
  pub datetime_isoformat : ℕ → String
  pub date_isoformat : ℕ → String
  pub uuid4 : ℕ → ℕ

-- app/imports/parsers/workbook_contract.py
abbrev pub required_workbook_headers : List String
required_workbook_headers =
    "shipment_code" ∷ "customer_name" ∷ "origin_city" ∷ "destination_city" ∷ "weight_kg" ∷ "price"
    ∷ "status" ∷ []

abbrev pub workbook_row_fields : List String
workbook_row_fields = required_workbook_headers ++ "delivery_date" ∷ []

pub record ParsedWorkbookRow : Type 0 where
  pub row_number : ℕ
  pub values : Dict (Option Cell)

-- app/imports/jsonb.py, on a cell
unfoldable pub jsonb_safe : Outside → Option Cell → Json
jsonb_safe o none = null
jsonb_safe o (some (text_cell s)) = text s
jsonb_safe o (some (integer_cell n)) = integer n
jsonb_safe o (some (boolean_cell b)) = boolean b
jsonb_safe o (some (real_cell r)) = real r
jsonb_safe o (some (decimal_cell d)) = text (o.decimal_text d)
jsonb_safe o (some (datetime_cell t)) = text (o.datetime_isoformat t)
jsonb_safe o (some (date_cell d)) = text (o.date_isoformat d)
jsonb_safe o (some (other_cell s)) = text s

unfoldable pub raw_json : Outside → Dict (Option Cell) → List (String × Json)
unfolding jsonb_safe
raw_json o d = map (λ item. (item.0, jsonb_safe o item.1)) d
