-- ===== src/Pagination/Mapped.antt =====
-- The pages of a list whose rows are read through a function.
use fastapi_shipment_import.Base.{
  ℕ, zero, suc, ◌+◌, ◌-◌, ◌*◌, ◌/◌, ◌≤◌, ◌<◌, ◌≡◌, refl, sym, ap, ◌∙◌, Bool, arith, List, [], ◌∷◌,
  map, length, take, drop, count_where, select_where, order_by, insert_in_order,
}
use native.Mathlib.Nat.{div-mul-le_self, mul-le-mul_right}
use fastapi_shipment_import.Pagination.{PageRequest, build_pagination_metadata}
use fastapi_shipment_import.Pagination.Pages.{page_of, concat_pages, first_pages, first_pages-all}

module _ {ℓ κ} {A : Type ℓ} {B : Type κ} (f : A → B) where
  map-take : (n : ℕ) (xs : List A) → map f (take n xs) ≡ take n (map f xs)
  map-take zero xs = refl
  map-take (suc n) [] = refl
  map-take (suc n) (x ∷ xs) = ap (λ ys. f x ∷ ys) (map-take n xs)

  map-drop : (n : ℕ) (xs : List A) → map f (drop n xs) ≡ drop n (map f xs)
  map-drop zero xs = refl
  map-drop (suc n) [] = refl
  map-drop (suc n) (x ∷ xs) = map-drop n xs

  length-map : (xs : List A) → length (map f xs) ≡ length xs
  length-map [] = refl
  length-map (x ∷ xs) = ap suc (length-map xs)

module _ {ℓ} {A : Type ℓ} where
  length-select_where : (p : A → Bool) (xs : List A) → length (select_where p xs) ≡ count_where p xs
  unfolding select_where count_where
  length-select_where p [] = refl
  length-select_where p (x ∷ xs) = ground (arith, length-select_where p xs)

  length-insert_in_order :
      (before : A → A → Bool) (a : A) (xs : List A)
      → length (insert_in_order before a xs) ≡ suc (length xs)
  unfolding insert_in_order
  length-insert_in_order before a [] = refl
  length-insert_in_order before a (x ∷ xs) = ground (arith, length-insert_in_order before a xs)

  length-order_by : (before : A → A → Bool) (xs : List A) → length (order_by before xs) ≡ length xs
  unfolding order_by
  length-order_by before [] = refl
  length-order_by before (x ∷ xs) =
      length-insert_in_order before x (order_by before xs) ∙ ap suc (length-order_by before xs)

  concat_pages-same :
      (f g : ℕ → List A) (n : ℕ)
      → ((k : ℕ) → 1 ≤ k → k ≤ n → f k ≡ g k)
      → concat_pages f n ≡ concat_pages g n
  concat_pages-same f g zero h = refl
  concat_pages-same f g (suc n) h =
      rw
        (
          concat_pages-same f g n (λ k low high. h k low (omega (arith, high))),
          h (suc n) (omega arith) (omega arith),
        )
        refl

-- The pages of a list that is read through `f`, if each offset is one that `page` can serve.
pub mapped_pages-all {ℓ κ} :
    {A : Type ℓ} {B : Type κ} (f : A → B) (page : ℕ → List B) (request : PageRequest) (limit : ℕ)
    (xs : List A)
    → 1 ≤ request.page_size
    → length xs + request.page_size < limit
    → ((k : ℕ)
        → (k - 1) * request.page_size < limit
        → page k ≡ map f (take request.page_size (drop ((k - 1) * request.page_size) xs)))
    → concat_pages page (build_pagination_metadata request (length xs)).total_pages ≡ map f xs
unfolding build_pagination_metadata
mapped_pages-all f page request limit xs some_size fits serves =
    let size = request.page_size in
    let pages = (length xs + size - 1) / size in
    let covered = div-mul-le_self (length xs + size - 1) size in
    concat_pages-same page (λ k. page_of size k (map f xs)) pages
      (λ k low high.
        let most : (k - 1) * size ≤ pages * size =
          mul-le-mul_right {m = k - 1} {n = pages} size (omega (arith, high)) in
        serves k (omega (arith, most, covered, fits))
        ∙ map-take f size (drop ((k - 1) * size) xs)
        ∙ ap (take size) (map-drop f ((k - 1) * size) xs))
    ∙ ap (λ n. first_pages size ((n + size - 1) / size) (map f xs)) (sym (length-map f xs))
    ∙ first_pages-all request (map f xs) some_size

pub length-selected {ℓ} :
    {A : Type ℓ} (before : A → A → Bool) (p : A → Bool) (xs : List A)
    → length (order_by before (select_where p xs)) ≡ count_where p xs
length-selected before p xs = length-order_by before (select_where p xs) ∙ length-select_where p xs
