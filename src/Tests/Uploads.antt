-- ===== src/Tests/Uploads.antt =====
-- The theorems on uploads, at concrete inputs.
use fastapi_shipment_import.Base.{order_by}
use fastapi_shipment_import.Base.{select_where}
use fastapi_shipment_import.Repositories.Imports.{create_dispatch_intent}
use fastapi_shipment_import.Repositories.Imports.{create_import_job}
use fastapi_shipment_import.Repositories.Imports.{get_snapshot_by_fingerprint}
use fastapi_shipment_import.Base.{
  ◌≡◌, refl, arith, true, false, ◌==◌, none, some, List, [], ◌∷◌, any, count_where, find_where,
  append_text,
}
use fastapi_shipment_import.Session.{ok}
use fastapi_shipment_import.Service.{Env, transaction}
use fastapi_shipment_import.Repositories.Claims.{claim_pending_import}
use fastapi_shipment_import.Repositories.Imports.{job_columns_fit}
use fastapi_shipment_import.Services.CreateImport
use fastapi_shipment_import.Services.CreateImport.{Upload, new_job, existing_answer}
use fastapi_shipment_import.Services.Process.{run}
use fastapi_shipment_import.Invariants.Sound.{IsSound}
use fastapi_shipment_import.Worker.LostClaim.{run-lost_claim}
use fastapi_shipment_import.Upload.Registry.{registry, register}
use fastapi_shipment_import.Upload.Refines.{create_import-refines, verdict_of, entry_for, IsQuiet}
use fastapi_shipment_import.Upload.Concurrent.{
  create_import-IsSound, create_import-IsUnique, IsUnique,
}
use fastapi_shipment_import.Storage
use fastapi_shipment_import.Storage.Saving.{save_upload-outcome, SaveOutcome}
use fastapi_shipment_import.Storage.Receiving.{all_bytes}
use fastapi_shipment_import.Storage.Paths.{path_name}
use fastapi_shipment_import.Api.Imports
use fastapi_shipment_import.Api.Names.{validate_original_file_name-stores, slash_free}
use fastapi_shipment_import.Api.Files.{create_import-agrees, Agree}
use fastapi_shipment_import.Api.LostRefresh.{create_import-loses_file, Lost}
use fastapi_shipment_import.Tests.Data.{
  waiting_job, db_of, waiting-IsSound, quiet, service, starting_at, settings,
}

-- The COMMIT of the first transaction fails.
abbrev losing : Env
losing = record quiet { lost = λ k. k == 0 }

run-lost_claim_example :
    ((run losing (service 1) (λ i. false) 7 "worker" (starting_at (db_of waiting_job))).0 ≡ ok tt)
    × ((run losing (service 1) (λ i. false) 7 "worker" (starting_at (db_of waiting_job))).1.db
        ≡ db_of waiting_job)
unfolding claim_pending_import count_where find_where
run-lost_claim_example =
    run-lost_claim losing (service 1) (λ i. false) 7 "worker" (starting_at (db_of waiting_job)) _ _
      refl refl refl refl refl (omega arith) refl

abbrev other_upload : Upload
other_upload = record {
  original_file_name = "more.xlsx";
  stored_file_path = "imports/2.xlsx";
  file_size_bytes = 100;
  content_type = none;
  idempotency_key = some "key";
  idempotency_fingerprint = "other";
}

quiet-IsQuiet : IsQuiet quiet
quiet-IsQuiet = record { alone = λ k db. refl; connected = λ k. refl; kept = λ k. refl }

create_import-refines_example :
    (verdict_of
        (CreateImport.create_import quiet settings 2 3 other_upload
          (starting_at (db_of waiting_job))).0
      ≡ some (register (entry_for 2 other_upload) (registry (db_of waiting_job))).0)
    × (registry
          (CreateImport.create_import quiet settings 2 3 other_upload
            (starting_at (db_of waiting_job))).1.db
        ≡ (register (entry_for 2 other_upload) (registry (db_of waiting_job))).1)
unfolding job_columns_fit any
create_import-refines_example =
    create_import-refines quiet quiet-IsQuiet settings 2 3 other_upload
      (starting_at (db_of waiting_job)) refl refl refl

create_import-IsSound_example :
    IsSound
      (CreateImport.create_import quiet settings 2 3 other_upload
        (starting_at (db_of waiting_job))).1.db
create_import-IsSound_example =
    create_import-IsSound quiet settings 2 3 other_upload (starting_at (db_of waiting_job))
      (λ k db h. h) waiting-IsSound

waiting-IsUnique : IsUnique (db_of waiting_job)
unfolding count_where
waiting-IsUnique = record { keys = λ key. ground arith; files = λ f. ground arith }

create_import-IsUnique_example :
    IsUnique
      (CreateImport.create_import quiet settings 2 3 other_upload
        (starting_at (db_of waiting_job))).1.db
create_import-IsUnique_example =
    create_import-IsUnique quiet settings 2 3 other_upload (starting_at (db_of waiting_job))
      (λ k db h. h) (λ db h. h) waiting-IsUnique

-- A disk without files that refuses nothing.
abbrev machine : Storage.Machine
machine = record {
  upload_dir = "data/uploads";
  refuses = λ k. false;
  refuses_removal = λ k. false;
  sha256_hex = λ content. "digest";
  lower = λ s. s;
}

abbrev empty_disk : Storage.Disk
empty_disk = record { files = λ p. none; operations = 0 }

abbrev reads : List Storage.Read
reads = Storage.chunk (0x50 ∷ 0x4b ∷ []) ∷ Storage.chunk (3 ∷ 4 ∷ 20 ∷ []) ∷ Storage.chunk [] ∷ []

save_upload-outcome_example :
    SaveOutcome machine
      (λ k. refl)
      4096
      "abc"
      "a.xlsx"
      (all_bytes reads)
      empty_disk
      (Storage.save_upload machine 4096 "abc" "a.xlsx" reads empty_disk).0
      (Storage.save_upload machine 4096 "abc" "a.xlsx" reads empty_disk).1
save_upload-outcome_example =
    save_upload-outcome machine (λ k. refl) 4096 "abc" "a.xlsx" reads empty_disk refl refl

validate_original_file_name-stores_example :
    (path_name "a.xlsx" ≡ "a.xlsx")
    × (slash_free "a.xlsx" ≡ true)
    × (Storage.final_path machine "abc" "a.xlsx"
        ≡ append_text "data/uploads" (append_text "/" (append_text "abc" ".xlsx")))
unfolding Imports.validate_original_file_name select_where
validate_original_file_name-stores_example =
    validate_original_file_name-stores machine (some "../../a.xlsx") "abc" "a.xlsx" refl

abbrev file : Imports.UploadFile
file = record { filename = some "docs/a.xlsx"; content_type = none; reads = reads }

abbrev site : Imports.Site
site = record { world = starting_at (db_of waiting_job); disk = empty_disk }

create_import-agrees_example :
    Agree 2
      (Storage.final_path machine "abc" (path_name "docs/a.xlsx"))
      (all_bytes reads)
      empty_disk
      (Imports.create_import machine (λ k. false) quiet settings 2 3 "abc" (some file) none site).1
unfolding find_where
create_import-agrees_example =
    create_import-agrees machine (λ k. refl) (λ k. false) quiet settings 2 3 (λ k db. refl) "abc"
      file "docs/a.xlsx" none site refl refl refl refl refl

-- The connection drops in the refresh after the COMMIT.
abbrev dropping : Env
dropping = record quiet { fault = λ k. k == 2 }

create_import-loses_file_example :
    Lost 2 "data/uploads/abc.xlsx"
      (Imports.create_import machine (λ k. false) dropping settings 2 3 "abc" (some file) none site)
unfolding Imports.validate_original_file_name Imports.validate_idempotency_key Storage.save_upload
    Imports.has_xlsx_zip_signature existing_answer transaction CreateImport.insert_records
    select_where append_text get_snapshot_by_fingerprint order_by create_import_job any
    create_dispatch_intent
create_import-loses_file_example =
    create_import-loses_file machine (λ k. refl) (λ k. false) dropping settings 2 3 (λ k db. refl)
      "abc" file none none "a.xlsx" _ _ _ 2 site refl refl refl refl refl refl refl refl
