-- ===== src/Tests/Sheets.antt =====
-- The parser's theorems on a small worksheet.
use fastapi_shipment_import.Base.{
  String, ◌≡◌, refl, ap, eq_iff, any, select_where, arith, Bool, false, Option, none, some, List,
  [], ◌∷◌, All, length, count_where,
}
use fastapi_shipment_import.Models.{pos}
use fastapi_shipment_import.Validation.Cells.{
  Cell, text_cell, integer_cell, boolean_cell, real_cell, decimal_cell, datetime_cell, date_cell,
  other_cell, required_workbook_headers,
}
use fastapi_shipment_import.Parser
use fastapi_shipment_import.Parser.Chunking.{
  flatten, Within, FullButLast, has_data, IsRowOf, Increasing,
}
use fastapi_shipment_import.Parser.HeaderRow.{parse_headers-finds, Found, TextIsText}
use fastapi_shipment_import.Parser.Sheets.{iter_chunks-partition, data_rows-numbered}
use fastapi_shipment_import.Validation.Generator.{rows_of}
use fastapi_shipment_import.Services.Process.{process_claimed}
use fastapi_shipment_import.Worker.Workbook.{process_claimed-reads, EndsWith, service_of}
use fastapi_shipment_import.Worker.Others.{done, Steps-Respects}
use fastapi_shipment_import.Worker.Rely.{Respects}
use fastapi_shipment_import.Tests.Data.{
  owned_job, db_of, claim_of_7, owned-IsSound, quiet, adapters, starting_at,
}

-- Values of which one is no text are never equal here.
abbrev unequal : Cell → Cell → Bool
unequal a b = false

abbrev header : List (Option Cell)
header =
    some (text_cell " shipment_code ")
    ∷ some (text_cell "customer_name")
    ∷ none
    ∷ some (text_cell "origin_city")
    ∷ some (text_cell "destination_city")
    ∷ some (text_cell "weight_kg")
    ∷ some (text_cell "price")
    ∷ some (text_cell "status")
    ∷ []

abbrev cells : String → List (Option Cell)
cells code =
    some (text_cell code)
    ∷ some (text_cell "Ada")
    ∷ none
    ∷ some (text_cell "Bern")
    ∷ some (text_cell "Oslo")
    ∷ some (integer_cell (pos 3))
    ∷ some (integer_cell (pos 12))
    ∷ some (text_cell "PENDING")
    ∷ []

abbrev index : Parser.HeaderIndex
index =
    (text_cell "shipment_code", 0)
    ∷ (text_cell "customer_name", 1)
    ∷ (text_cell "origin_city", 3)
    ∷ (text_cell "destination_city", 4)
    ∷ (text_cell "weight_kg", 5)
    ∷ (text_cell "price", 6)
    ∷ (text_cell "status", 7)
    ∷ []

-- Three rows with data, and a blank one among them.
abbrev sheet : Parser.Worksheet
sheet = record {
  header = some header;
  rows = cells "A-1" ∷ (none ∷ some (text_cell "  ") ∷ []) ∷ cells " B-1" ∷ cells "C-1" ∷ [];
  trouble = none;
}

parsed_header : Parser.parse_headers unequal sheet.header ≡ Parser.headers index
unfolding Parser.parse_headers any select_where
parsed_header = refl

iter_chunks-partition_example :
    let read = Parser.iter_chunks unequal 2 (Parser.worksheet sheet) in
    (read.1 ≡ none)
    × (flatten read.0 ≡ Parser.data_rows unequal index 2 sheet.rows)
    × All (Within 2) read.0
    × FullButLast 2 read.0
    × (rows_of read.0 ≡ count_where (has_data unequal index) sheet.rows)
iter_chunks-partition_example =
    iter_chunks-partition unequal 2 sheet index (omega arith) refl parsed_header

data_rows-numbered_example :
    All (IsRowOf unequal index 2 sheet.rows) (Parser.data_rows unequal index 2 sheet.rows)
    × Increasing 2 (Parser.data_rows unequal index 2 sheet.rows)
    × (length (Parser.data_rows unequal index 2 sheet.rows)
        ≡ count_where (has_data unequal index) sheet.rows)
data_rows-numbered_example = data_rows-numbered unequal index sheet.rows

unequal-TextIsText : TextIsText unequal
unequal-TextIsText (text_cell s) t h = ap text_cell ((eq_iff s t).0 h)
unequal-TextIsText (integer_cell n) t h = absurd (ground (arith, h))
unequal-TextIsText (boolean_cell b) t h = absurd (ground (arith, h))
unequal-TextIsText (real_cell r) t h = absurd (ground (arith, h))
unequal-TextIsText (decimal_cell d) t h = absurd (ground (arith, h))
unequal-TextIsText (datetime_cell d) t h = absurd (ground (arith, h))
unequal-TextIsText (date_cell d) t h = absurd (ground (arith, h))
unequal-TextIsText (other_cell s) t h = absurd (ground (arith, h))

parse_headers-finds_example : All (Found unequal header index) required_workbook_headers
parse_headers-finds_example =
    parse_headers-finds unequal header index unequal-TextIsText parsed_header

quiet-Respects : Respects quiet 1 7
quiet-Respects = Steps-Respects quiet 1 7 (λ k db. done db)

abbrev files : String → Parser.Loaded
files path = Parser.worksheet sheet

process_claimed-reads_example :
    EndsWith 1
      (count_where (has_data unequal index) sheet.rows)
      (process_claimed quiet
        (service_of adapters unequal 2 files 1)
        claim_of_7
        (starting_at (db_of owned_job))).0
      (process_claimed quiet
        (service_of adapters unequal 2 files 1)
        claim_of_7
        (starting_at (db_of owned_job))).1
process_claimed-reads_example =
    process_claimed-reads adapters unequal 2 files claim_of_7 quiet sheet index
      (starting_at (db_of owned_job)) (omega arith) quiet-Respects refl refl parsed_header
      owned-IsSound
