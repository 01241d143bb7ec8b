-- ===== src/Worker/Workbook.antt =====
-- A worker's run on a worksheet that can be read: the parser, the row validation and the writes.
use fastapi_shipment_import.Base.{ℕ, String, ◌≤◌, ◌≡◌, ◌≢◌, ap, ◌∙◌, subst, Bool, none, count_where}
use fastapi_shipment_import.Session.{fuel_exhausted, Result, ok, raised}
use fastapi_shipment_import.Service.{Env, World}
use fastapi_shipment_import.Repositories.Claims.{ClaimedImport}
use fastapi_shipment_import.Validation.Cells.{Cell, Outside}
use fastapi_shipment_import.Validation.Results.{Validator}
use fastapi_shipment_import.Validation.Generator.{
  row_validation_service, rows_of, iter_validated_chunks,
}
use fastapi_shipment_import.Parser
use fastapi_shipment_import.Parser.Chunking.{has_data}
use fastapi_shipment_import.Parser.Sheets.{iter_chunks-partition}
use fastapi_shipment_import.Services.Process.{process_claimed}
use fastapi_shipment_import.Invariants.Sound.{IsSound}
use fastapi_shipment_import.Worker.Rely.{Respects}
use fastapi_shipment_import.Worker.Outcome.{Completed}
use fastapi_shipment_import.Worker.Run.{ClaimedOutcome, process_claimed-outcome}

abbrev pub EndsWith : ℕ → ℕ → Result (Unit {0}) → World → Type 0
EndsWith i rows (ok u) w = Completed i rows w.db
EndsWith i rows (raised e) w = IsSound w.db × (e ≢ fuel_exhausted)

module _ (o : Outside) (other_equal : Cell → Cell → Bool) (size : ℕ)
    (files : String → Parser.Loaded) where
  -- The row validation service on the workbooks that the parser reads.
  abbrev pub service_of : (i : ℕ) → Validator i
  service_of i =
      row_validation_service o i (λ path. Parser.iter_chunks other_equal size (files path))

  as_read :
      (claimed : ClaimedImport) (env : Env)
      (rely : Respects env claimed.import_id claimed.processing_token) (rows : ℕ)
      (r : Result (Unit {0})) (w : World)
      → rows_of (Parser.iter_chunks other_equal size (files claimed.stored_file_path)).0 ≡ rows
      → ClaimedOutcome claimed (service_of claimed.import_id) env rely r w
      → EndsWith claimed.import_id rows r w
  unfolding row_validation_service iter_validated_chunks
  as_read claimed env rely rows (ok u) w is h = subst (λ n. Completed claimed.import_id n w.db) is h
  as_read claimed env rely rows (raised e) w is h = h

  -- In a sound database, among other processes that keep the database sound and write nothing under
  -- the worker's token between its transactions, where the file of the claimed import is a
  -- worksheet that is read without an exception, whose headers are accepted, in chunks of at least
  -- one row, the block of run below the claim either returns with the import COMPLETED and its
  -- total_rows the number of rows of the sheet below the headers that are not blank, the counts and
  -- the stored shipments adding up; or it raises an exception of the program in a sound database.
  pub process_claimed-reads :
      (claimed : ClaimedImport) (env : Env) (sheet : Parser.Worksheet) (index : Parser.HeaderIndex)
      (w : World)
      → 1 ≤ size
      → Respects env claimed.import_id claimed.processing_token
      → files claimed.stored_file_path ≡ Parser.worksheet sheet
      → sheet.trouble ≡ none
      → Parser.parse_headers other_equal sheet.header ≡ Parser.headers index
      → IsSound w.db
      → EndsWith claimed.import_id
          (count_where (has_data other_equal index) sheet.rows)
          (process_claimed env (service_of claimed.import_id) claimed w).0
          (process_claimed env (service_of claimed.import_id) claimed w).1
  process_claimed-reads claimed env sheet index w some_size rely file fine parsed sound =
      let rows = iter_chunks-partition other_equal size sheet index some_size fine parsed in
      as_read claimed env rely (count_where (has_data other_equal index) sheet.rows)
        (process_claimed env (service_of claimed.import_id) claimed w).0
        (process_claimed env (service_of claimed.import_id) claimed w).1
        (ap (λ f. rows_of (Parser.iter_chunks other_equal size f).0) file ∙ rows.4)
        (process_claimed-outcome claimed (service_of claimed.import_id) env rely w sound)
