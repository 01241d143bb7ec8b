-- ===== src/Pagination.antt =====
-- app/common/pagination.py
--
-- `int(text)` is Python's: whitespace around, a sign, digits with single underscores between them, at
-- most 4300 digits. `unicode_decimal` gives the value of a decimal digit beyond ASCII, by code point.
pub mod Numbers
pub mod Pages
pub mod Mapped
use fastapi_shipment_import.Base.{
  ℕ, suc, ◌+◌, ◌-◌, ◌*◌, ◌/◌, String, Bool, Option, none, some, ltb, ◌==◌, if◌then◌else◌,
}
use fastapi_shipment_import.Models.{ℤ, pos, negsuc}
use fastapi_shipment_import.Pagination.Numbers.{parse_int}

-- The messages of an InvalidPaginationError: of which parameter, or of which maximum.
pub data InvalidPagination : Type 0 where
  not_a_positive_integer : String → InvalidPagination
  exceeds_maximum : ℕ → InvalidPagination

pub data Parsed (A : Type 0) : Type 0 where
  parsed : A → Parsed A
  invalid_pagination : InvalidPagination → Parsed A

pub record PageRequest : Type 0 where
  pub page : ℕ
  pub page_size : ℕ

-- Pages are numbered from 1.
unfoldable pub offset : PageRequest → ℕ
offset request = (request.page - 1) * request.page_size

pub record PaginationMetadata : Type 0 where
  pub page : ℕ
  pub page_size : ℕ
  pub total_items : ℕ
  pub total_pages : ℕ

abbrev pub positive_of : String → Option ℤ → Parsed ℕ
positive_of name none = invalid_pagination (not_a_positive_integer name)
positive_of name (some (negsuc n)) = invalid_pagination (not_a_positive_integer name)
positive_of name (some (pos n)) =
    if n == 0 then invalid_pagination (not_a_positive_integer name) else parsed n

-- `_parse_positive_integer`
unfoldable pub parse_positive_integer : (ℕ → Option ℕ) → Option String → String → ℕ → Parsed ℕ
unfolding parse_int
parse_positive_integer unicode_decimal none name default = parsed default
parse_positive_integer unicode_decimal (some value) name default =
    positive_of name (parse_int unicode_decimal value)

abbrev pub with_page_size : ℕ → ℕ → Parsed ℕ → Parsed PageRequest
with_page_size max_page_size page (invalid_pagination e) = invalid_pagination e
with_page_size max_page_size page (parsed page_size) =
    if ltb max_page_size page_size
    then invalid_pagination (exceeds_maximum max_page_size)
    else parsed (record { page = page; page_size = page_size })

abbrev pub with_page : ℕ → Parsed ℕ → Parsed ℕ → Parsed PageRequest
with_page max_page_size (invalid_pagination e) page_size = invalid_pagination e
with_page max_page_size (parsed page) page_size = with_page_size max_page_size page page_size

unfoldable pub parse_page_request :
    (ℕ → Option ℕ) → Option String → Option String → ℕ → ℕ → Parsed PageRequest
unfolding parse_positive_integer
parse_page_request unicode_decimal page page_size default_page_size max_page_size =
    with_page max_page_size (parse_positive_integer unicode_decimal page "page" 1)
      (parse_positive_integer unicode_decimal page_size "page_size" default_page_size)

unfoldable pub build_pagination_metadata : PageRequest → ℕ → PaginationMetadata
build_pagination_metadata request total_items = record {
  page = request.page;
  page_size = request.page_size;
  total_items = total_items;
  total_pages = (total_items + request.page_size - 1) / request.page_size;
}
