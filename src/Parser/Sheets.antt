-- ===== src/Parser/Sheets.antt =====
-- What `iter_chunks` yields for a whole worksheet, by the rows of it that hold data.
use fastapi_shipment_import.Base.{
  ℕ, Bool, false, ◌≤◌, ◌≡◌, refl, ap, ◌∙◌, arith, Option, none, List, [], All, length, count_where,
}
use fastapi_shipment_import.Validation.Cells.{Cell}
use fastapi_shipment_import.Validation.Generator.{rows_of}
use fastapi_shipment_import.Parser
use fastapi_shipment_import.Parser.Chunking

module _ (other_equal : Cell → Cell → Bool) where
  -- For a chunk size of at least one and a worksheet that is read without an exception and whose
  -- headers are accepted, the chunks of iter_chunks in order are the data rows of the sheet, each
  -- chunk has at least one row and at most the chunk size, all but the last are full, no exception
  -- ends them, and they have as many rows as the sheet has rows that are not blank.
  pub iter_chunks-partition :
      (size : ℕ) (sheet : Parser.Worksheet) (index : Parser.HeaderIndex)
      → 1 ≤ size
      → sheet.trouble ≡ none
      → Parser.parse_headers other_equal sheet.header ≡ Parser.headers index
      → let read = Parser.iter_chunks other_equal size (Parser.worksheet sheet) in
        (read.1 ≡ none)
        × (Chunking.flatten read.0 ≡ Parser.data_rows other_equal index 2 sheet.rows)
        × All (Chunking.Within size) read.0
        × Chunking.FullButLast size read.0
        × (rows_of read.0 ≡ count_where (Chunking.has_data other_equal index) sheet.rows)
  unfolding Parser.iter_chunks
  iter_chunks-partition size sheet index some_size fine parsed =
      let rows = Parser.data_rows other_equal index 2 sheet.rows in
      let all = Chunking.flatten-chunks_of size some_size [] rows in
      rw (parsed, fine)
        (
          refl,
          all,
          Chunking.chunks_of-Within size some_size false [] rows (omega (arith, some_size)),
          Chunking.chunks_of-FullButLast size some_size false [] rows (omega (arith, some_size)),
          Chunking.rows_of-flatten (Parser.chunks_of size false [] rows)
              ∙ ap length all
              ∙ Chunking.length-data_rows other_equal index 2 sheet.rows,
        )

  -- Each data row carries the number of its row in the sheet, counted from 2, and that row's cells,
  -- normalized, of which at least one is not empty; the numbers grow, and there are as many data
  -- rows as rows that are not blank.
  pub data_rows-numbered :
      (index : Parser.HeaderIndex) (rows : List (List (Option Cell)))
      → All (Chunking.IsRowOf other_equal index 2 rows) (Parser.data_rows other_equal index 2 rows)
        × Chunking.Increasing 2 (Parser.data_rows other_equal index 2 rows)
        × (length (Parser.data_rows other_equal index 2 rows)
            ≡ count_where (Chunking.has_data other_equal index) rows)
  data_rows-numbered index rows = (
    Chunking.data_rows-IsRowOf other_equal index 2 rows,
    Chunking.data_rows-Increasing other_equal index 2 rows,
    Chunking.length-data_rows other_equal index 2 rows,
  )
