-- ===== src/Validation/Parsed.antt =====
-- The assertion of `validate_chunk`.
use fastapi_shipment_import.Base.{
  ◌≡◌, refl, arith, String, Bool, true, false, ◌||◌, is_some, List, [], ◌∷◌, ◌++◌, get, Option,
  none, some, Dict, str_eq, if◌then◌else◌,
}
use fastapi_shipment_import.Models.{Decimal}
use fastapi_shipment_import.Domain.{ValidationIssue}
use fastapi_shipment_import.Validation.Cells.{
  Cell, Outside, required_workbook_headers, ParsedWorkbookRow, Parsed, parsed, invalid,
}
use fastapi_shipment_import.Validation.Rows.{
  Value, str_value, decimal_value, answer, required_step, parse_at, cell_at, parse_row,
  parse_required, all_parsed, model_construct, parse_field, prepare_row, row_of, whole_row,
  ShipmentRow, date_answer, parse_date_at, validate_row_rules, validate_partial_row_rules,
}

module _ (o : Outside) where
  step_of :
      {A : Type 0} (f : A → Value) (field : String) (c : Option Cell) (p : Cell → Parsed A)
      (answers : (c : Cell) → parse_field o field c ≡ answer f (p c))
      (rest : List ValidationIssue × Dict Value)
      → (required_step o field (parse_at o field c) rest).0 ≡ []
      → (rest.0 ≡ [])
        × (a : A) × ((required_step o field (parse_at o field c) rest).1 ≡ (field, f a) ∷ rest.1)
  step_of f field none p answers rest e = cc
  step_of {A} f field (some c) p answers rest e = by_answer (p c) refl e
    where
      by_answer :
          (r : Parsed A)
          → p c ≡ r
          → (required_step o field (some (parse_field o field c)) rest).0 ≡ []
          → (rest.0 ≡ [])
            × (a : A) × ((required_step o field (some (parse_field o field c)) rest).1
                ≡ (field, f a) ∷ rest.1)
      by_answer (parsed a) q = rw (answers c, q) (λ e. (e, a, refl))
      by_answer (invalid m) q = rw (answers c, q) (λ e. cc)

  module _ (row : ParsedWorkbookRow) where
    text_at :
        (field : String) (fields : List String)
        → ((str_eq field "weight_kg" || str_eq field "price") ≡ false)
        → (parse_required o (field ∷ fields) row).0 ≡ []
        → ((parse_required o fields row).0 ≡ [])
          × (s : String) × ((parse_required o (field ∷ fields) row).1
              ≡ (field, str_value s) ∷ (parse_required o fields row).1)
    unfolding parse_required parse_field
    text_at field fields is_text =
        step_of str_value field (cell_at field row) o.parse_str (λ c. ground (arith, is_text)) _

    number_at :
        (field : String) (fields : List String)
        → ((str_eq field "weight_kg" || str_eq field "price") ≡ true)
        → (parse_required o (field ∷ fields) row).0 ≡ []
        → ((parse_required o fields row).0 ≡ [])
          × (d : Decimal) × ((parse_required o (field ∷ fields) row).1
              ≡ (field, decimal_value d) ∷ (parse_required o fields row).1)
    unfolding parse_required parse_field
    number_at field fields is_number =
        step_of decimal_value field (cell_at field row) o.parse_decimal
          (λ c. ground (arith, is_number)) _

    no_fields : (parse_required o [] row).1 ≡ []
    unfolding parse_required
    no_fields = refl

    required_values :
        (parse_required o required_workbook_headers row).0 ≡ []
        → (s1 s2 s3 s4 s5 : String) × (d1 d2 : Decimal) × ((parse_required o
              required_workbook_headers row).1
            ≡ ("shipment_code", str_value s1)
              ∷ ("customer_name", str_value s2)
              ∷ ("origin_city", str_value s3)
              ∷ ("destination_city", str_value s4)
              ∷ ("weight_kg", decimal_value d1)
              ∷ ("price", decimal_value d2)
              ∷ ("status", str_value s5)
              ∷ [])
    required_values e0 =
        let (e1, s1, q1) =
          text_at "shipment_code"
            ("customer_name" ∷ "origin_city" ∷ "destination_city" ∷ "weight_kg" ∷ "price" ∷ "status"
              ∷ [])
            refl e0 in
        let (e2, s2, q2) =
          text_at "customer_name"
            ("origin_city" ∷ "destination_city" ∷ "weight_kg" ∷ "price" ∷ "status" ∷ []) refl e1 in
        let (e3, s3, q3) =
          text_at "origin_city" ("destination_city" ∷ "weight_kg" ∷ "price" ∷ "status" ∷ []) refl
            e2 in
        let (e4, s4, q4) =
          text_at "destination_city" ("weight_kg" ∷ "price" ∷ "status" ∷ []) refl e3 in
        let (e5, d1, q5) = number_at "weight_kg" ("price" ∷ "status" ∷ []) refl e4 in
        let (e6, d2, q6) = number_at "price" ("status" ∷ []) refl e5 in
        let (e7, s5, q7) = text_at "status" [] refl e6 in
        let q8 = no_fields in (s1, s2, s3, s4, s5, d1, d2, cc)

    parsed_with :
        (issues : List ValidationIssue) (d : Dict Value) (date : Value)
        → (s1 s2 s3 s4 s5 : String) × (d1 d2 : Decimal) × (d
            ≡ ("shipment_code", str_value s1)
              ∷ ("customer_name", str_value s2)
              ∷ ("origin_city", str_value s3)
              ∷ ("destination_city", str_value s4)
              ∷ ("weight_kg", decimal_value d1)
              ∷ ("price", decimal_value d2)
              ∷ ("status", str_value s5)
              ∷ [])
        → is_some (row_of issues (d ++ ("delivery_date", date) ∷ [])).parsed_row ≡ true
    unfolding all_parsed model_construct get
    parsed_with issues d date (s1, s2, s3, s4, s5, d1, d2, q) = rw q refl

-- No issue before, where there is none in the end.
pub append-left : (xs ys : List ValidationIssue) → xs ++ ys ≡ [] → xs ≡ []
append-left [] ys e = refl
append-left (x ∷ xs) ys e = cc

whole_row-issues :
    (issues : List ValidationIssue) (d : Dict Value) (r : Option ShipmentRow)
    → (whole_row issues d r).issues ≡ []
    → issues ≡ []
whole_row-issues issues d none e = e
whole_row-issues issues d (some r) e = append-left issues (validate_row_rules r) e

row_of-issues :
    (issues : List ValidationIssue) (d : Dict Value) → (row_of issues d).issues ≡ [] → issues ≡ []
row_of-issues issues d = by_test (all_parsed required_workbook_headers d)
  where
    by_test :
        (b : Bool)
        → (if b then whole_row issues d (model_construct d) else record {
          issues = issues ++ validate_partial_row_rules d;
          parsed_values = d;
          parsed_row = none;
        }).issues
          ≡ []
        → issues ≡ []
    by_test true e = whole_row-issues issues d (model_construct d) e
    by_test false e = append-left issues (validate_partial_row_rules d) e

-- A row that _prepare_row leaves without issues has been parsed.
pub prepare_row-parsed :
    (o : Outside) (row : ParsedWorkbookRow)
    → (prepare_row o row).issues ≡ []
    → is_some (prepare_row o row).parsed_row ≡ true
unfolding prepare_row parse_row
prepare_row-parsed o row e =
    let required = parse_required o required_workbook_headers row in
    let date = date_answer o (parse_date_at o (cell_at "delivery_date" row)) in
    let before =
      row_of-issues (required.0 ++ date.0) (required.1 ++ ("delivery_date", date.1) ∷ []) e in
    parsed_with o row (required.0 ++ date.0) required.1 date.1
      (required_values o row (append-left required.0 date.0 before))
