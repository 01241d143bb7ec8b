-- ===== src/Pagination/Pages.antt =====
-- The bounds of a page request, and the pages of a list.
use fastapi_shipment_import.Base.{
  ℕ, zero, suc, ◌+◌, ◌-◌, ◌*◌, ◌≤◌, ◌≡◌, refl, Bool-cases, inl, inr, false, ltb, ◌==◌, sym, ap, ◌∙◌,
  String, Option, none, some, arith, List, [], ◌∷◌, ◌++◌, length, take, drop,
}
use native.Mathlib.Nat.{lt-div-mul-add, suc-mul, zero-mul}
use fastapi_shipment_import.Pagination.Numbers.{parse_int}
use fastapi_shipment_import.Models.{ℤ, pos, negsuc}
use fastapi_shipment_import.Pagination

-- What a parsed request is bound to.
abbrev pub InBounds : ℕ → Pagination.Parsed Pagination.PageRequest → Type 0
InBounds max_page_size (Pagination.parsed request) =
    (1 ≤ request.page) × (1 ≤ request.page_size) × (request.page_size ≤ max_page_size)
InBounds max_page_size (Pagination.invalid_pagination e) = Unit

abbrev Positive : Pagination.Parsed ℕ → Type 0
Positive (Pagination.parsed n) = 1 ≤ n
Positive (Pagination.invalid_pagination e) = Unit

positive_of-Positive : (name : String) (n : Option ℤ) → Positive (Pagination.positive_of name n)
positive_of-Positive name none = tt
positive_of-Positive name (some (negsuc n)) = tt
positive_of-Positive name (some (pos zero)) = tt
positive_of-Positive name (some (pos (suc n))) =
    let f : (suc n == 0) ≡ false = ground arith in rw f (omega arith)

parse_positive_integer-Positive :
    (unicode_decimal : ℕ → Option ℕ) (value : Option String) (name : String) (default : ℕ)
    → 1 ≤ default
    → Positive (Pagination.parse_positive_integer unicode_decimal value name default)
unfolding Pagination.parse_positive_integer
parse_positive_integer-Positive unicode_decimal none name default h = h
parse_positive_integer-Positive unicode_decimal (some value) name default h =
    positive_of-Positive name (parse_int unicode_decimal value)

with_page-InBounds :
    (max_page_size : ℕ) (page page_size : Pagination.Parsed ℕ)
    → Positive page
    → Positive page_size
    → InBounds max_page_size (Pagination.with_page max_page_size page page_size)
with_page-InBounds max_page_size (Pagination.invalid_pagination e) page_size hp hs = tt
with_page-InBounds max_page_size (Pagination.parsed page) (Pagination.invalid_pagination e) hp hs =
    tt
with_page-InBounds max_page_size (Pagination.parsed page) (Pagination.parsed size) hp hs =
    elim (Bool-cases (ltb max_page_size size)) [
      | inl t ↦ rw t tt
      | inr f ↦ rw f (hp, hs, ground (arith, f))
    ]

-- With a default page size of at least one, parse_page_request refuses the parameters or returns a
-- page of at least 1 and a page size from 1 to max_page_size.
pub parse_page_request-InBounds :
    (unicode_decimal : ℕ → Option ℕ) (page page_size : Option String)
    (default_page_size max_page_size : ℕ)
    → 1 ≤ default_page_size
    → InBounds max_page_size (
        Pagination.parse_page_request unicode_decimal page page_size default_page_size
          max_page_size)
unfolding Pagination.parse_page_request
parse_page_request-InBounds unicode_decimal page page_size default_page_size max_page_size h =
    with_page-InBounds max_page_size _ _
      (parse_positive_integer-Positive unicode_decimal page "page" 1 (omega arith))
      (parse_positive_integer-Positive unicode_decimal page_size "page_size" default_page_size h)

zero_add : (n : ℕ) → 0 + n ≡ n
zero_add n = omega arith

suc_add : (m n : ℕ) → suc m + n ≡ suc (m + n)
suc_add m n = omega arith

module _ {ℓ} {A : Type ℓ} where
  -- LIMIT and OFFSET, of a page number from 1 on.
  abbrev pub page_of : ℕ → ℕ → List A → List A
  page_of size page xs = take size (drop ((page - 1) * size) xs)

  -- The pages 1 to n, one after the other.
  abbrev pub concat_pages : (ℕ → List A) → ℕ → List A
  concat_pages page zero = []
  concat_pages page (suc n) = concat_pages page n ++ page (suc n)

  abbrev pub first_pages : ℕ → ℕ → List A → List A
  first_pages size n xs = concat_pages (λ k. page_of size k xs) n

  take-nil : (n : ℕ) → take {A = A} n [] ≡ []
  take-nil zero = refl
  take-nil (suc n) = refl

  take-more : (m n : ℕ) (xs : List A) → take (m + n) xs ≡ take m xs ++ take n (drop m xs)
  take-more zero n xs = ap (λ k. take k xs) (zero_add n)
  take-more (suc m) n [] = ap (λ k. take {A = A} k []) (suc_add m n) ∙ sym (take-nil n)
  take-more (suc m) n (x ∷ xs) =
      ap (λ k. take k (x ∷ xs)) (suc_add m n) ∙ ap (λ ys. x ∷ ys) (take-more m n xs)

  take-all : (n : ℕ) (xs : List A) → length xs ≤ n → take n xs ≡ xs
  take-all zero [] h = refl
  take-all zero (x ∷ xs) h = absurd (omega (arith, h))
  take-all (suc n) [] h = refl
  take-all (suc n) (x ∷ xs) h = ap (λ ys. x ∷ ys) (take-all n xs (omega (arith, h)))

  first_pages-take : (size n : ℕ) (xs : List A) → first_pages size n xs ≡ take (n * size) xs
  first_pages-take size zero xs = ap (λ k. take k xs) (sym (zero-mul size))
  first_pages-take size (suc n) xs =
      let more : suc n * size ≡ n * size + size = suc-mul n size in
      let before : suc n - 1 ≡ n = omega arith in
      rw (before, more)
        (ap (λ ys. ys ++ take size (drop (n * size) xs)) (first_pages-take size n xs)
          ∙ sym (take-more (n * size) size xs))

all_pages :
    (request : Pagination.PageRequest) (total : ℕ)
    → 1 ≤ request.page_size
    → total ≤ (Pagination.build_pagination_metadata request total).total_pages * request.page_size
unfolding Pagination.build_pagination_metadata
all_pages request total h =
    let last = lt-div-mul-add {a = total + request.page_size - 1} {b = request.page_size} h in
    omega (arith, last, h)

-- The pages make up the list.
pub first_pages-all {ℓ} :
    {A : Type ℓ} (request : Pagination.PageRequest) (xs : List A)
    → 1 ≤ request.page_size
    → first_pages request.page_size
        (Pagination.build_pagination_metadata request (length xs)).total_pages
        xs
      ≡ xs
first_pages-all request xs h =
    let pages = (Pagination.build_pagination_metadata request (length xs)).total_pages in
    first_pages-take request.page_size pages xs
    ∙ take-all (pages * request.page_size) xs (all_pages request (length xs) h)
