-- ===== src/Api/Imports.antt =====
-- app/api/v1/imports.py: the upload of a file.
use Prim.Native.Char.{code}
use fastapi_shipment_import.Base.{
  ℕ, String, Bool, true, false, not, ◌||◌, Option, none, some, List, [], ◌∷◌, ◌==◌, ltb, str_eq,
  strip, is_empty, text_length, take, if◌then◌else◌,
}
use fastapi_shipment_import.Session.{os_error, Result, ok, raised}
use fastapi_shipment_import.Settings.{Settings}
use fastapi_shipment_import.Service.{Env, World}
use fastapi_shipment_import.Repositories.Imports.{ImportSnapshot}
use fastapi_shipment_import.Services.CreateImport.{
  Upload, ImportCreatedResult, ImportCreateOutcome, CreateAnswer, returned,
  idempotency_conflict_error, duplicate_import_error, database_write_error, failed,
}
use fastapi_shipment_import.Services.CreateImport
use fastapi_shipment_import.Storage
use fastapi_shipment_import.Storage.Paths.{path_name, path_suffix}
use fastapi_shipment_import.Api.Errors.{
  ApiError, bad_request, error_with_status, Answer, responded, api_error, escaped,
}

-- Starlette's UploadFile: what its reads give, for the chunk size of the settings.
pub record UploadFile : Type 0 where
  pub filename : Option String
  pub content_type : Option String
  pub reads : List Storage.Read

-- The database and the disk that a request works on.
pub record Site : Type 0 where
  pub world : World
  pub disk : Storage.Disk

abbrev not_xlsx : {A : Type 0} → Answer A
not_xlsx = api_error (bad_request "INVALID_FILE_FORMAT" "Uploaded file must be a .xlsx file.")

abbrev pub bad_name : (String → String) → String → Bool
bad_name lower name = is_empty name || not (str_eq (lower (path_suffix name)) ".xlsx")

-- `_validate_original_file_name`, for a `str.lower`
unfoldable pub validate_original_file_name : (String → String) → Option String → Answer String
unfolding path_name path_suffix
validate_original_file_name lower none = not_xlsx
validate_original_file_name lower (some name) =
    if bad_name lower (path_name name) then not_xlsx else responded (path_name name)

unfoldable pub has_control_character : String → Bool
has_control_character String.[] = false
has_control_character (String.◌∷◌ c s) =
    let rest = has_control_character s in ltb (code c) 32 || (code c == 127) || rest

abbrev bad_key : {A : Type 0} → Answer A
bad_key = api_error (
    bad_request "INVALID_IDEMPOTENCY_KEY"
      "Idempotency-Key must be a non-empty textual value without surrounding whitespace.")

-- `_validate_idempotency_key`
unfoldable pub validate_idempotency_key : Option String → Answer (Option String)
unfolding strip has_control_character text_length
validate_idempotency_key none = responded none
validate_idempotency_key (some key) =
    if is_empty key || not (str_eq key (strip key))
    then bad_key
    else if ltb 255 (text_length key) || has_control_character key
    then bad_key
    else responded (some key)

abbrev pub is_signature : Storage.Bytes → Bool
is_signature (a ∷ b ∷ c ∷ d ∷ []) =
    if a == 0x50 then if b == 0x4b then if c == 3 then d == 4 else false else false else false
is_signature _ = false

abbrev pub signature_read : Bool → Option Storage.Bytes → Result Bool
signature_read true found = raised os_error
signature_read false none = raised os_error
signature_read false (some content) = ok (is_signature (take 4 content))

abbrev pub duplicate_error : ImportSnapshot → ApiError
duplicate_error s = record {
  code = "DUPLICATE_IMPORT";
  message = "An identical file was already submitted.";
  status_code = 409;
  details = some (record { import_id = s.import_id; status = s.status; created_at = s.created_at });
}

-- `unreadable k`: the disk refuses to read the file that was just stored, at its operation number k.
module _ (machine : Storage.Machine) (unreadable : ℕ → Bool) where
  -- `_has_xlsx_zip_signature`
  unfoldable pub has_xlsx_zip_signature : String → Storage.Disk → Result Bool × Storage.Disk
  has_xlsx_zip_signature path disk =
      (signature_read (unreadable disk.operations) (disk.files path), Storage.asked disk)

  -- The stored file is deleted, and then the handler ends with the answer, if no exception comes.
  abbrev pub ending :
      {A : Type 0} → Answer A → Result (Unit {0}) × Storage.Disk → World → Answer A × Site
  ending answer (ok u, disk) w = (answer, record { world = w; disk = disk })
  ending answer (raised e, disk) w = (escaped e, record { world = w; disk = disk })

  unfoldable pub discarding :
      {A : Type 0} → String → Answer A → Storage.Disk → World → Answer A × Site
  unfolding Storage.delete_if_exists
  discarding path answer disk w = ending answer (Storage.delete_if_exists machine path disk) w

  abbrev no_signature : {A : Type 0} → Answer A
  no_signature =
      api_error
        (bad_request "INVALID_FILE_FORMAT" "Uploaded file must have a valid .xlsx ZIP signature.")

  -- Without a signature the file is deleted, and once more by the except clause that is then reached.
  abbrev pub refusing_signature :
      {A : Type 0} → String → Result (Unit {0}) × Storage.Disk → World → Answer A × Site
  refusing_signature path (ok u, disk) w = discarding path no_signature disk w
  refusing_signature path (raised e, disk) w = discarding path (escaped e) disk w

  -- The except clauses, and what follows the `try`.
  unfoldable pub after_service :
      String → CreateAnswer × World → Storage.Disk → Answer ImportCreatedResult × Site
  unfolding discarding
  after_service path (returned o, w) disk =
      if o.created
      then (responded o.result, record { world = w; disk = disk })
      else discarding path (responded o.result) disk w
  after_service path (idempotency_conflict_error, w) disk =
      discarding path
        (api_error (
          error_with_status "IDEMPOTENCY_CONFLICT"
            "Idempotency-Key already exists for a different upload." 409))
        disk w
  after_service path (duplicate_import_error s, w) disk =
      discarding path (api_error (duplicate_error s)) disk w
  after_service path (database_write_error, w) disk =
      discarding path
        (api_error (error_with_status "DATABASE_ERROR" "Failed to persist the import." 500)) disk w
  after_service path (failed e, w) disk = discarding path (escaped e) disk w

  module _ (env : Env) (settings : Settings) (job_id event_id : ℕ) where
    abbrev pub upload_of : Option String → Option String → Storage.StoredFile → Upload
    upload_of content_type key f = record {
      original_file_name = f.original_file_name;
      stored_file_path = f.stored_file_path;
      file_size_bytes = f.file_size_bytes;
      content_type = content_type;
      idempotency_key = key;
      idempotency_fingerprint = f.sha256_hex;
    }

    abbrev pub after_signature :
        Option String
        → Option String
        → Storage.StoredFile
        → Result Bool × Storage.Disk
        → World
        → Answer ImportCreatedResult × Site
    after_signature content_type key f (raised e, disk) w =
        discarding f.stored_file_path (escaped e) disk w
    after_signature content_type key f (ok false, disk) w =
        refusing_signature f.stored_file_path
          (Storage.delete_if_exists machine f.stored_file_path disk) w
    after_signature content_type key f (ok true, disk) w =
        after_service f.stored_file_path
          (CreateImport.create_import env settings job_id event_id (upload_of content_type key f) w)
          disk

    -- Nothing is stored yet where saving fails.
    abbrev pub after_save :
        Option String
        → Option String
        → Storage.Saved × Storage.Disk
        → World
        → Answer ImportCreatedResult × Site
    after_save content_type key (Storage.stored f, disk) w =
        after_signature content_type key f (has_xlsx_zip_signature f.stored_file_path disk) w
    after_save content_type key (Storage.upload_too_large_error, disk) w = (
      api_error (
          error_with_status "FILE_TOO_LARGE" "Uploaded file exceeds the maximum allowed size." 413),
      record { world = w; disk = disk },
    )
    after_save content_type key (Storage.save_failed e, disk) w =
        (escaped e, record { world = w; disk = disk })

    abbrev pub with_key :
        String
        → UploadFile
        → String
        → Answer (Option String)
        → Site
        → Answer ImportCreatedResult × Site
    with_key token file name (responded key) site =
        after_save file.content_type key
          (Storage.save_upload machine settings.max_upload_size_bytes token name file.reads
            site.disk)
          site.world
    with_key token file name (api_error e) site = (api_error e, site)
    with_key token file name (escaped e) site = (escaped e, site)

    abbrev pub with_name :
        String
        → UploadFile
        → Option String
        → Answer String
        → Site
        → Answer ImportCreatedResult × Site
    with_name token file key (responded name) site =
        with_key token file name (validate_idempotency_key key) site
    with_name token file key (api_error e) site = (api_error e, site)
    with_name token file key (escaped e) site = (escaped e, site)

    -- `POST /imports`; `token` is the hex text of the UUID that names the file.
    unfoldable pub create_import :
        String → Option UploadFile → Option String → Site → Answer ImportCreatedResult × Site
    unfolding validate_original_file_name validate_idempotency_key Storage.save_upload
        has_xlsx_zip_signature after_service CreateImport.create_import
    create_import token none key site = (
      api_error (
          bad_request "INVALID_FILE_FORMAT"
            "Uploaded file must be provided as multipart form data."),
      site,
    )
    create_import token (some file) key site =
        with_name token file key (validate_original_file_name machine.lower file.filename) site
