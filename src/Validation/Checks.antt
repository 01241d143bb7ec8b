-- ===== src/Validation/Checks.antt =====
-- The shipment rules against the constraints of the shipments table.
use fastapi_shipment_import.Base.{◌≤◌, ◌≡◌, arith, true, false, [], text_length, ◌↔◌}
use fastapi_shipment_import.Models.{decimal_le_zero, decimal_lt_zero}
use fastapi_shipment_import.Domain.{
  ShipmentDraft, status_allowed, validate_shipment_draft, validate_partial_shipment_draft,
}
use fastapi_shipment_import.Repositories.Shipments.{status_is_allowed}

-- What the table's constraints ask of a row, before its numbers are rounded: the checks, and the
-- length of the one text that the rules bound.
pub record Storable (s : ShipmentDraft) : Type 0 where
  pub status : status_is_allowed s.status ≡ true
  pub name : text_length s.customer_name ≤ 150
  pub weight : decimal_le_zero s.weight_kg ≡ false
  pub price : decimal_lt_zero s.price ≡ false

accepted-Storable : (s : ShipmentDraft) → validate_shipment_draft s ≡ [] → Storable s
unfolding validate_shipment_draft validate_partial_shipment_draft status_allowed status_is_allowed
accepted-Storable s e = record {
  status = ground (arith, e);
  name = ground (arith, e);
  weight = ground (arith, e);
  price = ground (arith, e);
}

Storable-accepted : (s : ShipmentDraft) → Storable s → validate_shipment_draft s ≡ []
unfolding validate_shipment_draft validate_partial_shipment_draft status_allowed status_is_allowed
Storable-accepted s h = ground (arith, h.status, h.name, h.weight, h.price)

-- validate_shipment_draft finds no issue exactly in the drafts whose status, weight and price pass
-- the checks of the shipments table before rounding, and whose customer name fits its column.
pub validate_shipment_draft-Storable :
    (s : ShipmentDraft) → (validate_shipment_draft s ≡ []) ↔ Storable s
validate_shipment_draft-Storable s = (accepted-Storable s, Storable-accepted s)
