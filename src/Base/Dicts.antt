-- ===== src/Base/Dicts.antt =====
-- A Python dict with text keys, as the list of its items in order.
use Prim.Native.String.{String}
use mathlib.Core.Bool.{Bool}
use mathlib.Core.Option.{Option, none, some}
use mathlib.Core.List.{List, [], ◌∷◌}
use fastapi_shipment_import.Base.Tests.{str_eq, if◌then◌else◌, is_some}

abbrev pub Dict {ℓ} : Type ℓ → Type ℓ
Dict V = List (String × V)

module _ {ℓ} {V : Type ℓ} where
  -- `d.get(key)`
  unfoldable pub get : String → Dict V → Option V
  get key [] = none
  get key ((k, v) ∷ items) = let rest = get key items in if str_eq k key then some v else rest

  -- `key in d`
  abbrev pub has : String → Dict V → Bool
  has key d = is_some (get key d)
