-- ===== src/Parser.antt =====
-- app/imports/parsers/xlsx_parser.py: from the cells of a worksheet to chunks of rows.
pub mod Chunking
pub mod HeaderRow
pub mod Sheets
use fastapi_shipment_import.Base.{
  ℕ, zero, suc, String, Bool, true, false, not, ◌||◌, Option, none, some, List, [], ◌∷◌, ◌++◌, map,
  length, leb, get_elem?, any, select_where, str_eq, strip, append_text, is_empty, is_nil, is_some,
  if◌then◌else◌, Dict,
}
use fastapi_shipment_import.Validation.Cells.{
  Cell, text_cell, ParsedWorkbookRow, required_workbook_headers, workbook_row_fields,
}
use fastapi_shipment_import.Validation.Chunks.{Ending, structure, escaped}

-- An exception of openpyxl: one of the four kinds that `iter_chunks` catches, or another.
pub data Trouble : Type 0 where
  caught uncaught : Trouble

-- The first worksheet as openpyxl iterates it: its first row, the others, and how the iteration ends.
pub record Worksheet : Type 0 where
  pub header : Option (List (Option Cell))
  pub rows : List (List (Option Cell))
  pub trouble : Option Trouble

pub data Loaded : Type 0 where
  worksheet : Worksheet → Loaded
  unloadable : Trouble → Loaded

abbrev pub unreadable : String
unreadable = "Workbook structure could not be processed."

abbrev pub text_or_none : String → Option Cell
text_or_none s = if is_empty s then none else some (text_cell s)

-- `_normalize_text`
unfoldable pub normalize_text : Option Cell → Option Cell
unfolding strip
normalize_text (some (text_cell s)) = text_or_none (strip s)
normalize_text c = c

-- The normalized headers, each with its column.
abbrev pub HeaderIndex : Type 0
HeaderIndex = List (Cell × ℕ)

pub data Headers : Type 0 where
  headers : HeaderIndex → Headers
  bad_headers : String → Headers

-- `", ".join(names)`
unfoldable pub join_names : List String → String
unfolding append_text
join_names [] = ""
join_names (n ∷ []) = n
join_names (n ∷ m ∷ ns) = append_text n (append_text ", " (join_names (m ∷ ns)))

-- `other_equal` is `==` between values of which one is no text.
abbrev pub same_cell : (Cell → Cell → Bool) → Cell → Cell → Bool
same_cell other_equal (text_cell s) (text_cell t) = str_eq s t
same_cell other_equal a b = other_equal a b

module _ (other_equal : Cell → Cell → Bool) where
  -- `header in normalized_headers`
  abbrev pub known : Cell → HeaderIndex → Bool
  known h index = any (λ item. same_cell other_equal item.0 h) index

  abbrev pub header_step : ℕ → Option Cell → HeaderIndex → (HeaderIndex → Headers) → Headers
  header_step column none index next = next index
  header_step column (some h) index next =
      if known h index
      then bad_headers "Workbook contains duplicate headers."
      else next (index ++ (h, column) ∷ [])

  -- The loop over the header cells.
  unfoldable pub collect_headers : ℕ → List (Option Cell) → HeaderIndex → Headers
  unfolding normalize_text
  collect_headers column [] index = headers index
  collect_headers column (c ∷ cs) index =
      header_step column (normalize_text c) index (collect_headers (suc column) cs)

  unfoldable pub missing_headers : HeaderIndex → List String
  missing_headers index =
      select_where (λ h. not (known (text_cell h) index)) required_workbook_headers

  unfoldable pub require_headers : HeaderIndex → List String → Headers
  unfolding append_text join_names
  require_headers index [] = headers index
  require_headers index (m ∷ ms) =
      bad_headers (append_text "Workbook is missing required headers: " (join_names (m ∷ ms)))

  unfoldable pub checked_headers : Headers → Headers
  unfolding missing_headers require_headers
  checked_headers (bad_headers message) = bad_headers message
  checked_headers (headers index) = require_headers index (missing_headers index)

  unfoldable pub parse_headers : Option (List (Option Cell)) → Headers
  unfolding collect_headers checked_headers
  parse_headers none = bad_headers "Workbook is missing a header row."
  parse_headers (some cells) = checked_headers (collect_headers 0 cells [])

  -- `headers.get(field)`
  unfoldable pub column_of : String → HeaderIndex → Option ℕ
  column_of field [] = none
  column_of field ((h, column) ∷ index) =
      let rest = column_of field index in
      if same_cell other_equal h (text_cell field) then some column else rest

  abbrev pub flat : Option (Option Cell) → Option Cell
  flat none = none
  flat (some c) = c

  abbrev pub cell_in : List (Option Cell) → Option ℕ → Option Cell
  cell_in cells none = none
  cell_in cells (some column) = flat (get_elem? cells column)

  -- `_normalize_row`: its `setdefault` calls find every field set.
  unfoldable pub normalize_row : HeaderIndex → List (Option Cell) → Dict (Option Cell)
  unfolding column_of normalize_text
  normalize_row index cells =
      map (λ field. (field, normalize_text (cell_in cells (column_of field index))))
        workbook_row_fields

  abbrev pub is_blank : Dict (Option Cell) → Bool
  is_blank values = not (any (λ item. is_some item.1) values)

  -- `_iter_data_rows`, from a row number on
  unfoldable pub data_rows : HeaderIndex → ℕ → List (List (Option Cell)) → List ParsedWorkbookRow
  unfolding normalize_row
  data_rows index number [] = []
  data_rows index number (cells ∷ rest) =
      if is_blank (normalize_row index cells)
      then data_rows index (suc number) rest
      else record { row_number = number; values = normalize_row index cells }
        ∷ data_rows index (suc number) rest

-- The loop of `iter_chunks`: `broken` where the rows end in an exception, before the last yield.
unfoldable pub chunks_of :
    ℕ → Bool → List ParsedWorkbookRow → List ParsedWorkbookRow → List (List ParsedWorkbookRow)
chunks_of size broken held [] = if broken || is_nil held then [] else held ∷ []
chunks_of size broken held (r ∷ rs) =
    let full = chunks_of size broken [] rs in
    let more = chunks_of size broken (held ++ r ∷ []) rs in
    if leb size (length (held ++ r ∷ [])) then (held ++ r ∷ []) ∷ full else more

abbrev pub ending_of : Trouble → Ending
ending_of caught = structure unreadable
ending_of uncaught = escaped

abbrev pub option_ending : Option Trouble → Option Ending
option_ending none = none
option_ending (some t) = some (ending_of t)

abbrev pub read_rows :
    (Cell → Cell → Bool) → ℕ → Worksheet → Headers → List (List ParsedWorkbookRow) × Option Ending
read_rows other_equal size sheet (bad_headers message) = ([], some (structure message))
read_rows other_equal size sheet (headers index) = (
  chunks_of size (is_some sheet.trouble) [] (data_rows other_equal index 2 sheet.rows),
  option_ending sheet.trouble,
)

-- What the generator yields, and how it ends.
unfoldable pub iter_chunks :
    (Cell → Cell → Bool) → ℕ → Loaded → List (List ParsedWorkbookRow) × Option Ending
unfolding parse_headers data_rows chunks_of
iter_chunks other_equal size (unloadable t) = ([], some (ending_of t))
iter_chunks other_equal size (worksheet sheet) =
    read_rows other_equal size sheet (parse_headers other_equal sheet.header)
