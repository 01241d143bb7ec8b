-- ===== src/Models/Decimals.antt =====
-- Signed integers, and `decimal.Decimal` without its special values: ± coefficient × 10 ^ exponent.
use fastapi_shipment_import.Base.{
  ℕ, suc, ◌+◌, ◌-◌, ◌*◌, ◌/◌, ◌^◌, Bool, not, ◌&&◌, ◌||◌, ltb, leb, ◌==◌, if◌then◌else◌,
}

-- `negsuc n` is -(n + 1).
pub data ℤ : Type 0 where
  pos : ℕ → ℤ
  negsuc : ℕ → ℤ

pub record Decimal : Type 0 where
  pub negative : Bool
  pub coefficient : ℕ
  pub exponent : ℤ

-- `value <= 0` and `value < 0`
unfoldable pub decimal_le_zero : Decimal → Bool
decimal_le_zero d = d.negative || (d.coefficient == 0)

unfoldable pub decimal_lt_zero : Decimal → Bool
decimal_lt_zero d = d.negative && not (d.coefficient == 0)

-- The magnitude in units of 10 ^ -scale, rounded half away from zero: the value that a column
-- NUMERIC(precision, scale) stores.
unfoldable pub scaled : ℕ → Decimal → ℕ
scaled scale d = elim d.exponent [
  | pos e ↦ d.coefficient * 10 ^ (e + scale)
  | negsuc e ↦
      if leb (suc e) scale
      then d.coefficient * 10 ^ (scale - suc e)
      else (2 * d.coefficient + 10 ^ (suc e - scale)) / (2 * 10 ^ (suc e - scale))
]

-- Whether NUMERIC(precision, scale) holds the rounded value.
unfoldable pub numeric_fits : ℕ → ℕ → Decimal → Bool
unfolding scaled
numeric_fits precision scale d = ltb (scaled scale d) (10 ^ precision)
