-- ===== src/Api/Files.antt =====
-- The upload handler keeps the disk and the table of imports in step.
use fastapi_shipment_import.Base.{
  ℕ, suc, String, ◌≡◌, refl, sym, ap, subst, ◌∙◌, Bool, true, false, Bool-cases, ◌⊎◌, inl, inr,
  Option, none, some, str_eq, eq_iff,
}
use fastapi_shipment_import.Models.{Db}
use fastapi_shipment_import.Session.{Result, ok, raised}
use fastapi_shipment_import.Settings.{Settings}
use fastapi_shipment_import.Service.{Env, World}
use fastapi_shipment_import.Services.CreateImport
use fastapi_shipment_import.Services.CreateImport.{
  Upload, ImportCreatedResult, CreateAnswer, returned, idempotency_conflict_error,
  duplicate_import_error, database_write_error, failed,
}
use fastapi_shipment_import.Storage
use fastapi_shipment_import.Storage.Receiving.{all_bytes, SameOff}
use fastapi_shipment_import.Storage.Saving.{
  delete_if_exists-removes, SaveOutcome, save_upload-outcome,
}
use fastapi_shipment_import.Storage.Paths.{path_name}
use fastapi_shipment_import.Upload.Created.{is_created, path_of, path_if, create_import-Settled}
use fastapi_shipment_import.Api.Errors.{Answer, responded, api_error, escaped}
use fastapi_shipment_import.Api.Imports

-- Either the import is there, and its path is that of the file, which has these bytes; or neither is
-- there. All other files are as before.
abbrev pub Agree : ℕ → String → Storage.Bytes → Storage.Disk → Imports.Site → Type 0
Agree job_id path all before site =
    (((path_of job_id site.world.db ≡ some path) × (site.disk.files path ≡ some all))
      ⊎ ((path_of job_id site.world.db ≡ none) × (site.disk.files path ≡ none)))
    × SameOff path before site.disk

module _ (machine : Storage.Machine) (removable : (k : ℕ) → machine.refuses_removal k ≡ false)
    (unreadable : ℕ → Bool) (job_id : ℕ) (path : String) (all : Storage.Bytes)
    (before : Storage.Disk) where
  deleted-SameOff :
      (disk : Storage.Disk)
      → SameOff path before disk
      → SameOff path before (Storage.delete_if_exists machine path disk).1
  deleted-SameOff disk off p away =
      let deleted = (delete_if_exists-removes machine removable path disk).1 p in
      deleted ∙ rw away (off p away)

  ending-agrees :
      {A : Type 0} (answer : Answer A) (r : Result (Unit {0}) × Storage.Disk) (w : World)
      → r.1.files path ≡ none
      → SameOff path before r.1
      → path_of job_id w.db ≡ none
      → Agree job_id path all before (Imports.ending machine unreadable answer r w).1
  ending-agrees answer (ok u, disk) w gone off absent = (inr (absent, gone), off)
  ending-agrees answer (raised e, disk) w gone off absent = (inr (absent, gone), off)

  discarding-agrees :
      {A : Type 0} (answer : Answer A) (disk : Storage.Disk) (w : World)
      → SameOff path before disk
      → path_of job_id w.db ≡ none
      → Agree job_id path all before (Imports.discarding machine unreadable path answer disk w).1
  unfolding Imports.discarding
  discarding-agrees answer disk w off absent =
      let deleted = (delete_if_exists-removes machine removable path disk).1 path in
      let itself : str_eq path path ≡ true = (eq_iff path path).1 refl in
      ending-agrees answer (Storage.delete_if_exists machine path disk) w (deleted ∙ rw itself refl)
        (deleted-SameOff disk off) absent

  after_service-agrees :
      (a : CreateAnswer) (w : World) (disk : Storage.Disk)
      → SameOff path before disk
      → disk.files path ≡ some all
      → path_of job_id w.db ≡ path_if (is_created a) path
      → Agree job_id path all before (Imports.after_service machine unreadable path (a, w) disk).1
  unfolding Imports.after_service
  after_service-agrees (returned o) w disk off held settled = elim (Bool-cases o.created) [
    | inl t ↦ rw t (inl (settled ∙ rw t refl, held), off)
    | inr f ↦ rw f (discarding-agrees (responded o.result) disk w off (settled ∙ rw f refl))
  ]
  after_service-agrees idempotency_conflict_error w disk off held settled =
      discarding-agrees _ disk w off settled
  after_service-agrees (duplicate_import_error s) w disk off held settled =
      discarding-agrees _ disk w off settled
  after_service-agrees database_write_error w disk off held settled =
      discarding-agrees _ disk w off settled
  after_service-agrees (failed e) w disk off held settled = discarding-agrees _ disk w off settled

  refusing_signature-agrees :
      (r : Result (Unit {0}) × Storage.Disk) (w : World)
      → SameOff path before r.1
      → path_of job_id w.db ≡ none
      → Agree job_id path all before
          (Imports.refusing_signature machine unreadable {A = ImportCreatedResult} path r w).1
  refusing_signature-agrees (ok u, disk) w off absent = discarding-agrees _ disk w off absent
  refusing_signature-agrees (raised e, disk) w off absent = discarding-agrees _ disk w off absent

module _ (machine : Storage.Machine) (removable : (k : ℕ) → machine.refuses_removal k ≡ false)
    (unreadable : ℕ → Bool) (env : Env) (settings : Settings) (job_id event_id : ℕ)
    (others : (k : ℕ) (db : Db) → path_of job_id (env.interfere k db) ≡ path_of job_id db)
    (token : String) where
  abbrev pub stored_at : String → String
  stored_at name = Storage.final_path machine token name

  after_signature-agrees :
      (content_type key : Option String) (f : Storage.StoredFile) (all : Storage.Bytes)
      (before : Storage.Disk) (r : Result Bool × Storage.Disk) (w : World)
      → env.fault (suc (suc w.ticks)) ≡ false
      → SameOff f.stored_file_path before r.1
      → r.1.files f.stored_file_path ≡ some all
      → path_of job_id w.db ≡ none
      → Agree job_id f.stored_file_path all before
          (Imports.after_signature machine unreadable env settings job_id event_id content_type key
            f r w).1
  after_signature-agrees content_type key f all before (raised e, disk) w steady off held absent =
      discarding-agrees machine removable unreadable job_id f.stored_file_path all before _ disk w
        off absent
  after_signature-agrees content_type key f all before (ok false, disk) w steady off held absent =
      refusing_signature-agrees machine removable unreadable job_id f.stored_file_path all before
        (Storage.delete_if_exists machine f.stored_file_path disk) w
        (deleted-SameOff machine removable unreadable job_id f.stored_file_path all before disk off)
        absent
  after_signature-agrees content_type key f all before (ok true, disk) w steady off held absent =
      let u =
        Imports.upload_of machine unreadable env settings job_id event_id content_type key f in
      after_service-agrees machine removable unreadable job_id f.stored_file_path all before
        (CreateImport.create_import env settings job_id event_id u w).0
        (CreateImport.create_import env settings job_id event_id u w).1 disk off held
        (create_import-Settled env settings job_id event_id u others w steady absent)

  after_save-agrees :
      (content_type key : Option String) (name : String) (all : Storage.Bytes)
      (before : Storage.Disk) (saved : Storage.Saved) (disk : Storage.Disk) (w : World)
      → SaveOutcome machine removable settings.max_upload_size_bytes token name all before saved
          disk
      → before.files (stored_at name) ≡ none
      → env.fault (suc (suc w.ticks)) ≡ false
      → path_of job_id w.db ≡ none
      → Agree job_id
          (stored_at name)
          all
          before
          (Imports.after_save machine unreadable env settings job_id event_id content_type key
            (saved, disk)
            w).1
  unfolding Imports.has_xlsx_zip_signature
  after_save-agrees content_type key name all before (Storage.stored f) disk w h fresh steady
        absent =
      let is : f.stored_file_path ≡ stored_at name =
        ap (λ (f : Storage.StoredFile). f.stored_file_path) h.0 in
      let site =
        (Imports.after_save machine unreadable env settings job_id event_id content_type key
          (Storage.stored f, disk) w).1 in
      subst (λ path. Agree job_id path all before site) is
        (after_signature-agrees content_type key f all before _ w steady
          (subst (λ path. SameOff path before disk) (sym is) h.3) (ap disk.files is ∙ h.2) absent)
  after_save-agrees content_type key name all before Storage.upload_too_large_error disk w h fresh
        steady absent =
      (inr (absent, h.1 (stored_at name) ∙ fresh), λ p away. h.1 p)
  after_save-agrees content_type key name all before (Storage.save_failed e) disk w h fresh steady
        absent =
      (inr (absent, h (stored_at name) ∙ fresh), λ p away. h p)

  with_key-agrees :
      (file : Imports.UploadFile) (name : String) (key : Answer (Option String))
      (site : Imports.Site)
      → env.fault (suc (suc site.world.ticks)) ≡ false
      → path_of job_id site.world.db ≡ none
      → site.disk.files (Storage.temp_path machine token) ≡ none
      → site.disk.files (stored_at name) ≡ none
      → Agree job_id
          (stored_at name)
          (all_bytes file.reads)
          site.disk
          (Imports.with_key machine unreadable env settings job_id event_id token file name key
            site).1
  with_key-agrees file name (responded key) site steady absent no_temp fresh =
      after_save-agrees file.content_type key name (all_bytes file.reads) site.disk _ _ site.world
        (save_upload-outcome machine removable settings.max_upload_size_bytes token name file.reads
          site.disk no_temp fresh)
        fresh steady absent
  with_key-agrees file name (api_error e) site steady absent no_temp fresh =
      (inr (absent, fresh), λ p away. refl)
  with_key-agrees file name (escaped e) site steady absent no_temp fresh =
      (inr (absent, fresh), λ p away. refl)

  -- With a disk that refuses no removal, no file at the upload's two paths, an import id that is
  -- not in the table, other processes that neither add nor remove that import nor change its path,
  -- and no dropped connection in the refresh after the COMMIT, the upload handler, given a file
  -- with a name and however it ends (an invalid name, key or signature, a file too large, a refused
  -- write, a failed INSERT or COMMIT, a duplicate), leaves either the import with the path of the
  -- file, which holds all bytes read, or neither the import nor the file; all other files are as
  -- before.
  pub create_import-agrees :
      (file : Imports.UploadFile) (name : String) (key : Option String) (site : Imports.Site)
      → file.filename ≡ some name
      → env.fault (suc (suc site.world.ticks)) ≡ false
      → path_of job_id site.world.db ≡ none
      → site.disk.files (Storage.temp_path machine token) ≡ none
      → site.disk.files (stored_at (path_name name)) ≡ none
      → Agree job_id
          (stored_at (path_name name))
          (all_bytes file.reads)
          site.disk
          (Imports.create_import machine unreadable env settings job_id event_id token
            (some file)
            key
            site).1
  unfolding Imports.create_import Imports.validate_original_file_name
  create_import-agrees file name key site named steady absent no_temp fresh =
      elim (Bool-cases (Imports.bad_name machine.lower (path_name name))) [
        | inl t ↦ rw (named, t) (inr (absent, fresh), λ p away. refl)
        | inr f ↦
            rw (named, f)
              (with_key-agrees file (path_name name) (Imports.validate_idempotency_key key) site
                steady absent no_temp fresh)
      ]
