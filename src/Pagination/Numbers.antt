-- ===== src/Pagination/Numbers.antt =====
-- Python's `int(text)`.
use Prim.Native.Nat.{ℕ, suc, zero, ◌+◌, ◌-◌, ◌*◌}
use Prim.Native.Char.{code}
use fastapi_shipment_import.Base.{
  String, Bool, true, false, not, ◌&&◌, Option, none, some, leb, ltb, ◌==◌, is_space, is_empty,
  if◌then◌else◌,
}
use fastapi_shipment_import.Models.{ℤ, pos, negsuc}

-- The separators of ASCII are no whitespace to `int`.
unfoldable pub is_int_space : ℕ → Bool
unfolding is_space
is_int_space c = is_space c && not (leb 28 c && leb c 31)

unfoldable pub trim_left : String → String
unfolding is_int_space
trim_left String.[] = String.[]
trim_left (String.◌∷◌ c s) =
    let rest = trim_left s in if is_int_space (code c) then rest else String.◌∷◌ c s

unfoldable pub trim_right : String → String
unfolding is_int_space
trim_right String.[] = String.[]
trim_right (String.◌∷◌ c s) =
    let rest = trim_right s in
    if is_empty rest && is_int_space (code c) then String.[] else String.◌∷◌ c rest

module _ (unicode_decimal : ℕ → Option ℕ) where
  unfoldable pub decimal : ℕ → Option ℕ
  decimal c =
      if leb 48 c && leb c 57 then some (c - 48) else if ltb c 128 then none else unicode_decimal c

  -- A digit to `digits`, or the underscore after one.
  abbrev pub digit_step : Bool → Bool → Option ℕ → (Bool → ℕ → ℕ → Option ℕ) → ℕ → ℕ → Option ℕ
  digit_step after_digit true d rest value count =
      if after_digit then rest false value count else none
  digit_step after_digit false none rest value count = none
  digit_step after_digit false (some d) rest value count = rest true (value * 10 + d) (suc count)

  -- The digits that are left: `after_digit` says that a digit came last, `count` how many came.
  unfoldable pub digits : String → Bool → ℕ → ℕ → Option ℕ
  unfolding decimal
  digits String.[] after_digit value count =
      if after_digit && leb count 4300 then some value else none
  digits (String.◌∷◌ c s) after_digit value count =
      digit_step after_digit (code c == 95) (decimal (code c)) (digits s) value count

  abbrev pub signed : Bool → Option ℕ → Option ℤ
  signed negative none = none
  signed false (some n) = some (pos n)
  signed true (some zero) = some (pos 0)
  signed true (some (suc n)) = some (negsuc n)

  unfoldable pub parse_trimmed : String → Option ℤ
  unfolding digits
  parse_trimmed String.[] = none
  parse_trimmed (String.◌∷◌ c s) =
      if code c == 45
      then signed true (digits s false 0 0)
      else if code c == 43
      then signed false (digits s false 0 0)
      else signed false (digits (String.◌∷◌ c s) false 0 0)

  -- `int(text)`, or its ValueError.
  unfoldable pub parse_int : String → Option ℤ
  unfolding parse_trimmed trim_left trim_right
  parse_int s = parse_trimmed (trim_right (trim_left s))
