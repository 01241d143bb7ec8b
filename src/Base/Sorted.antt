-- ===== src/Base/Sorted.antt =====
-- ORDER BY: insertion into order, for a test `before` on the sort columns.
use Prim.Native.Nat.{◌+◌}
use mathlib.Core.Path.{◌≡◌, refl}
use mathlib.Core.Bool.{Bool, true, false}
use mathlib.Core.List.{List, [], ◌∷◌}
use native.Mathlib.Omega.{arith}
use fastapi_shipment_import.Base.Tests.{if◌then◌else◌, Bool-cases}
use mathlib.Core.Logic.{inl, inr}
use fastapi_shipment_import.Base.Rows.{count_where, All}

module _ {ℓ} {A : Type ℓ} (before : A → A → Bool) where
  unfoldable pub insert_in_order : A → List A → List A
  insert_in_order a [] = a ∷ []
  insert_in_order a (x ∷ xs) = if before a x then a ∷ x ∷ xs else x ∷ insert_in_order a xs

  unfoldable pub order_by : List A → List A
  unfolding insert_in_order
  order_by [] = []
  order_by (x ∷ xs) = insert_in_order x (order_by xs)

  abbrev pub Heads : A → List A → Type 0
  Heads a [] = Unit
  Heads a (x ∷ xs) = before a x ≡ true

  -- Each row comes before the next one.
  abbrev pub IsOrdered : List A → Type 0
  IsOrdered [] = Unit
  IsOrdered (x ∷ xs) = Heads x xs × IsOrdered xs

  count-insert_in_order :
      (p : A → Bool) (a : A) (xs : List A)
      → count_where p (insert_in_order a xs) ≡ (if p a then 1 else 0) + count_where p xs
  unfolding insert_in_order count_where
  count-insert_in_order p a [] = refl
  count-insert_in_order p a (x ∷ xs) = ground (arith, count-insert_in_order p a xs)

  -- Ordering keeps every row as often as it was there.
  pub count-order_by : (p : A → Bool) (xs : List A) → count_where p (order_by xs) ≡ count_where p xs
  unfolding order_by count_where
  count-order_by p [] = refl
  count-order_by p (x ∷ xs) =
      ground (arith, count-insert_in_order p x (order_by xs), count-order_by p xs)

  pub All-insert_in_order {κ} :
      (P : A → Type κ) (a : A) (xs : List A) → P a → All P xs → All P (insert_in_order a xs)
  unfolding insert_in_order
  All-insert_in_order P a [] pa h = (pa, tt)
  All-insert_in_order P a (x ∷ xs) pa h = elim (Bool-cases (before a x)) [
    | inl e ↦ rw e (pa, h)
    | inr e ↦ rw e (h.0, All-insert_in_order P a xs pa h.1)
  ]

  pub All-order_by {κ} : (P : A → Type κ) (xs : List A) → All P xs → All P (order_by xs)
  unfolding order_by
  All-order_by P [] h = tt
  All-order_by P (x ∷ xs) h = All-insert_in_order P x (order_by xs) h.0 (All-order_by P xs h.1)

  module _ (total : (a b : A) → before a b ≡ false → before b a ≡ true) where
    Heads-insert_in_order :
        (x a : A) (xs : List A) → before x a ≡ true → Heads x xs → Heads x (insert_in_order a xs)
    unfolding insert_in_order
    Heads-insert_in_order x a [] e h = e
    Heads-insert_in_order x a (y ∷ ys) e h = ground arith

    IsOrdered-insert_in_order :
        (a : A) (xs : List A) → IsOrdered xs → IsOrdered (insert_in_order a xs)
    unfolding insert_in_order
    IsOrdered-insert_in_order a [] h = (tt, tt)
    IsOrdered-insert_in_order a (x ∷ xs) h = elim (Bool-cases (before a x)) [
      | inl e ↦ rw e (e, h)
      | inr e ↦
          rw e (Heads-insert_in_order x a xs (total a x e) h.0, IsOrdered-insert_in_order a xs h.1)
    ]

    -- For a total test the result is in order.
    pub IsOrdered-order_by : (xs : List A) → IsOrdered (order_by xs)
    unfolding order_by
    IsOrdered-order_by [] = tt
    IsOrdered-order_by (x ∷ xs) = IsOrdered-insert_in_order x (order_by xs) (IsOrdered-order_by xs)
