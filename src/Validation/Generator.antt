-- ===== src/Validation/Generator.antt =====
-- `iter_validated_chunks` and `reclassify_database_duplicates` as the interface that
-- ProcessImportService is given.
use fastapi_shipment_import.Base.{
  ℕ, ◌+◌, ◌<◌, ◌≤◌, String, ◌≡◌, ◌≢◌, refl, arith, Option, none, some, List, [], ◌∷◌, length, inl,
  inr, map,
}
use fastapi_shipment_import.Models.{Db}
use fastapi_shipment_import.Session.{ok, raised, Result-cases, fuel_exhausted}
use fastapi_shipment_import.Validation.Results.{ValidationChunkResult, ChunkIsSound, Validator}
use fastapi_shipment_import.Validation.Cells.{Outside, ParsedWorkbookRow}
use fastapi_shipment_import.Validation.Chunks
use fastapi_shipment_import.Repositories.Shipments.{find_existing_shipment_codes}
use fastapi_shipment_import.Validation.Sound.{
  validate_chunk-IsSound, validate_chunk-fuel, with_conflicts-IsSound,
}

-- The data rows of the chunks that the parser has still to yield.
abbrev pub rows_of : List (List ParsedWorkbookRow) → ℕ
rows_of [] = 0
rows_of (rows ∷ rest) = length rows + rows_of rest

-- What a workbook gives: its chunks, and the exception that ends them, if any.
abbrev pub Workbook : Type 0
Workbook = List (List ParsedWorkbookRow) × Option Chunks.Ending

-- The generator before its first `next`; `drawn` counts the UUIDs drawn before.
unfoldable pub iter_validated_chunks : ℕ → Workbook → Chunks.PendingChunks
iter_validated_chunks drawn book = record {
  chunks = book.0;
  ending = book.1;
  seen = [];
  drawn = drawn;
}

module _ (o : Outside) (import_id : ℕ) where
  next_of-IsSound :
      (ending : Option Chunks.Ending) (seen : List String) (drawn : ℕ) (db : Db)
      (chunks : List (List ParsedWorkbookRow)) (c : ValidationChunkResult)
      (p' : Chunks.PendingChunks)
      → Chunks.next_of o import_id ending seen drawn db chunks ≡ ok (some (c, p'))
      → ChunkIsSound import_id c
        × (length p'.chunks < length chunks)
        × (rows_of chunks ≡ c.total_rows + rows_of p'.chunks)
  next_of-IsSound none seen drawn db [] c p' e = cc
  next_of-IsSound (some (Chunks.structure m)) seen drawn db [] c p' e = cc
  next_of-IsSound (some Chunks.escaped) seen drawn db [] c p' e = cc
  next_of-IsSound ending seen drawn db (rows ∷ rest) c p' e =
      elim (Result-cases (Chunks.validate_chunk o import_id rows seen drawn db)) [
        | inl (a, q) ↦
            let (good, all) = validate_chunk-IsSound o import_id rows seen drawn db a q in
            let is : a.chunk ≡ c = ground (arith, e, q) in
            let rest_is : p'.chunks ≡ rest = ground (arith, e, q) in
            rw (← is, rest_is) (good, omega arith, omega (arith, all))
        | inr (x, q) ↦ absurd (ground (arith, e, q))
      ]

  pub next_of-none :
      (ending : Option Chunks.Ending) (seen : List String) (drawn : ℕ) (db : Db)
      (chunks : List (List ParsedWorkbookRow))
      → Chunks.next_of o import_id ending seen drawn db chunks ≡ ok none
      → rows_of chunks ≡ 0
  next_of-none ending seen drawn db [] e = refl
  next_of-none ending seen drawn db (rows ∷ rest) e =
      elim (Result-cases (Chunks.validate_chunk o import_id rows seen drawn db)) [
        | inl (a, q) ↦ absurd (ground (arith, e, q))
        | inr (x, q) ↦ absurd (ground (arith, e, q))
      ]

  pub next_of-fuel :
      (ending : Option Chunks.Ending) (seen : List String) (drawn : ℕ) (db : Db)
      (chunks : List (List ParsedWorkbookRow))
      → Chunks.next_of o import_id ending seen drawn db chunks ≢ raised fuel_exhausted
  next_of-fuel none seen drawn db [] e = cc
  next_of-fuel (some (Chunks.structure m)) seen drawn db [] e = cc
  next_of-fuel (some Chunks.escaped) seen drawn db [] e = cc
  next_of-fuel ending seen drawn db (rows ∷ rest) e =
      elim (Result-cases (Chunks.validate_chunk o import_id rows seen drawn db)) [
        | inl (a, q) ↦ absurd (ground (arith, e, q))
        | inr (x, q) ↦ validate_chunk-fuel o import_id rows seen drawn db (ground (arith, e, q))
      ]

  -- When the generator of iter_validated_chunks yields a chunk, each row of it is counted once, as
  -- a shipment of the import or as a failed row, there is an error at least for each failed row,
  -- the shipments are those of the valid rows, fewer chunks are left, and the rows left and the
  -- chunk's make up the rows that were left before.
  pub next_validated_chunk-IsSound :
      (p : Chunks.PendingChunks) (db : Db) (c : ValidationChunkResult) (p' : Chunks.PendingChunks)
      → Chunks.next_validated_chunk o import_id p db ≡ ok (some (c, p'))
      → ChunkIsSound import_id c
        × (length p'.chunks < length p.chunks)
        × (rows_of p.chunks ≡ c.total_rows + rows_of p'.chunks)
  unfolding Chunks.next_validated_chunk
  next_validated_chunk-IsSound p db = next_of-IsSound p.ending p.seen p.drawn db p.chunks

  -- reclassify_database_duplicates turns a sound chunk of the import into a sound chunk of the same
  -- rows with no more successes.
  pub reclassify_database_duplicates-IsSound :
      (drawn : ℕ) (c : ValidationChunkResult) (db : Db)
      → ChunkIsSound import_id c
      → ChunkIsSound import_id (Chunks.reclassify_database_duplicates o import_id drawn c db)
        × ((Chunks.reclassify_database_duplicates o import_id drawn c db).total_rows ≡ c.total_rows)
        × ((Chunks.reclassify_database_duplicates o import_id drawn c db).success_count
            ≤ c.success_count)
  unfolding Chunks.reclassify_database_duplicates
  reclassify_database_duplicates-IsSound drawn c db =
      with_conflicts-IsSound o import_id
        (find_existing_shipment_codes (map (λ r. r.shipment.shipment_code) c.valid_rows) db) drawn c

  unfoldable pub row_validation_service : (String → Workbook) → Validator import_id
  unfolding Chunks.next_validated_chunk Chunks.reclassify_database_duplicates
  row_validation_service workbook = record {
    Pending = Chunks.PendingChunks;
    start = λ path. iter_validated_chunks 0 (workbook path);
    next_chunk = Chunks.next_validated_chunk o import_id;
    reclassify = λ p. Chunks.reclassify_database_duplicates o import_id p.drawn;
    remaining = λ p. length p.chunks;
    rows = λ p. rows_of p.chunks;
    next_chunk-IsSound = next_validated_chunk-IsSound;
    next_chunk-none = λ p db. next_of-none p.ending p.seen p.drawn db p.chunks;
    next_chunk-fuel = λ p db. next_of-fuel p.ending p.seen p.drawn db p.chunks;
    reclassify-IsSound = λ p. reclassify_database_duplicates-IsSound p.drawn;
  }
