-- ===== src/Domain.antt =====
-- app/domain/errors.py and app/domain/shipment_rules.py
use fastapi_shipment_import.Base.{
  ℕ, String, Bool, true, false, not, ◌||◌, Option, none, some, List, [], ◌∷◌, ◌++◌, ltb, str_eq,
  text_length,
}
use fastapi_shipment_import.Models.{Decimal, decimal_le_zero, decimal_lt_zero}

pub record ValidationIssue : Type 0 where
  pub field : String
  pub error : String

-- ALLOWED_SHIPMENT_STATUSES
unfoldable pub status_allowed : String → Bool
status_allowed status =
    str_eq status "PENDING"
    || str_eq status "IN_TRANSIT"
    || str_eq status "DELIVERED"
    || str_eq status "CANCELED"

abbrev pub customer_name_max_length : ℕ
customer_name_max_length = 150

pub record ShipmentDraft : Type 0 where
  pub shipment_code : String
  pub customer_name : String
  pub origin_city : String
  pub destination_city : String
  pub weight_kg : Decimal
  pub price : Decimal
  pub status : String
  pub delivery_date : Option ℕ

pub record PartialShipmentDraft : Type 0 where
  pub shipment_code : Option String
  pub customer_name : Option String
  pub origin_city : Option String
  pub destination_city : Option String
  pub weight_kg : Option Decimal
  pub price : Option Decimal
  pub status : Option String
  pub delivery_date : Option ℕ

abbrev pub issue_if : Bool → String → String → List ValidationIssue
issue_if true field error = record { field = field; error = error } ∷ []
issue_if false field error = []

abbrev pub absent_or {ℓ} : {A : Type ℓ} → Option A → (A → Bool) → Bool
absent_or none test = false
absent_or (some a) test = test a

-- The last test of the source cannot hold: a delivery date that is present is a date by its type.
unfoldable pub validate_partial_shipment_draft : PartialShipmentDraft → List ValidationIssue
unfolding status_allowed text_length decimal_le_zero decimal_lt_zero
validate_partial_shipment_draft s =
    issue_if (absent_or s.status (λ status. not (status_allowed status))) "status"
      "Status must be one of PENDING, IN_TRANSIT, DELIVERED, or CANCELED."
    ++ (issue_if
          (absent_or s.customer_name (λ name. ltb customer_name_max_length (text_length name)))
          "customer_name" "Customer name must be 150 characters or fewer."
        ++ (issue_if (absent_or s.weight_kg decimal_le_zero) "weight_kg"
              "Weight must be greater than 0."
            ++ issue_if (absent_or s.price decimal_lt_zero) "price"
                "Price must be greater than or equal to 0."))

unfoldable pub validate_shipment_draft : ShipmentDraft → List ValidationIssue
unfolding validate_partial_shipment_draft
validate_shipment_draft s = validate_partial_shipment_draft (record {
  shipment_code = some s.shipment_code;
  customer_name = some s.customer_name;
  origin_city = some s.origin_city;
  destination_city = some s.destination_city;
  weight_kg = some s.weight_kg;
  price = some s.price;
  status = some s.status;
  delivery_date = s.delivery_date;
})
