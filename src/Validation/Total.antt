-- ===== src/Validation/Total.antt =====
-- `validate_chunk` returns on every chunk: no row meets its assertion.
use fastapi_shipment_import.Base.{
  ℕ, String, ◌≡◌, refl, arith, true, is_some, Option, none, some, List, [], ◌∷◌, map, length,
}
use fastapi_shipment_import.Models.{Db}
use fastapi_shipment_import.Domain.{ValidationIssue}
use fastapi_shipment_import.Session.{ok}
use fastapi_shipment_import.Repositories.Shipments.{find_existing_shipment_codes}
use fastapi_shipment_import.Validation.Cells.{Outside, ParsedWorkbookRow}
use fastapi_shipment_import.Validation.Results.{ChunkIsSound}
use fastapi_shipment_import.Validation.Rows.{PreparedRow, ShipmentRow, prepare_row}
use fastapi_shipment_import.Validation.Chunks.{
  ChunkState, ChunkAnswer, settle_row, validate_row, validate_rows, validate_chunk, unseen_codes,
  row_codes, start_state,
}
use fastapi_shipment_import.Validation.Sound.{validate_chunk-IsSound}
use fastapi_shipment_import.Validation.Parsed.{prepare_row-parsed, append-left}

module _ (o : Outside) (import_id : ℕ) where
  settle_row-returns :
      (p : PreparedRow) (issues : List ValidationIssue) (parsed : Option ShipmentRow)
      (s : ChunkState)
      → (issues ≡ [] → is_some parsed ≡ true)
      → (s' : ChunkState) × (settle_row o import_id p issues parsed s ≡ ok s')
  settle_row-returns p (i ∷ is) parsed s h = (_, refl)
  settle_row-returns p [] none s h = absurd (ground (arith, h refl))
  settle_row-returns p [] (some r) s h = (_, refl)

  validate_row-returns :
      (seen existing : List String) (row : ParsedWorkbookRow) (s : ChunkState)
      → (s' : ChunkState) × (validate_row o import_id seen existing (prepare_row o row) s ≡ ok s')
  unfolding validate_row
  validate_row-returns seen existing row s =
      settle_row-returns (prepare_row o row) _ _ _
        (λ e. prepare_row-parsed o row (append-left (prepare_row o row).issues _ e))

  validate_rows-return :
      (seen existing : List String) (rows : List ParsedWorkbookRow) (s : ChunkState)
      → (s' : ChunkState) × (validate_rows o import_id seen existing (map (prepare_row o) rows) s
          ≡ ok s')
  unfolding validate_rows
  validate_rows-return seen existing [] s = (s, refl)
  validate_rows-return seen existing (row ∷ rows) s =
      let (mid, q) = validate_row-returns seen existing row s in
      let (s', q') = validate_rows-return seen existing rows mid in (s', ground (arith, q, q'))

  answered :
      (rows : List ParsedWorkbookRow) (seen : List String) (drawn : ℕ) (db : Db) (s : ChunkState)
      → validate_rows o import_id seen
          (find_existing_shipment_codes
            (unseen_codes (row_codes (map (prepare_row o) rows)) seen)
            db)
          (map (prepare_row o) rows)
          (start_state drawn)
        ≡ ok s
      → (a : ChunkAnswer) × (validate_chunk o import_id rows seen drawn db ≡ ok a)
  unfolding validate_chunk
  answered rows seen drawn db s q = rw q (_, refl)

  -- validate_chunk returns on every chunk of rows, whatever their cells, the codes seen and the
  -- database: its assertion never fails, and its result is a sound chunk of as many rows.
  pub validate_chunk-returns :
      (rows : List ParsedWorkbookRow) (seen : List String) (drawn : ℕ) (db : Db)
      → (a : ChunkAnswer) × (validate_chunk o import_id rows seen drawn db ≡ ok a)
        × ChunkIsSound import_id a.chunk
        × (a.chunk.total_rows ≡ length rows)
  validate_chunk-returns rows seen drawn db =
      let prepared = map (prepare_row o) rows in
      let existing = find_existing_shipment_codes (unseen_codes (row_codes prepared) seen) db in
      let (s, q) = validate_rows-return seen existing rows (start_state drawn) in
      let (a, e) = answered rows seen drawn db s q in
      let (good, all) = validate_chunk-IsSound o import_id rows seen drawn db a e in
      (a, e, good, all)
