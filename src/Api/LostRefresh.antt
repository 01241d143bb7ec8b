-- ===== src/Api/LostRefresh.antt =====
-- The upload handler where the connection drops after the COMMIT, in `session.refresh`.
use fastapi_shipment_import.Base.{
  ℕ, suc, String, ◌≡◌, refl, ◌∙◌, Bool, true, false, Option, none, some, arith, str_eq, eq_iff,
}
use fastapi_shipment_import.Models.{Db}
use fastapi_shipment_import.Session.{operational_error, Result, ok, raised}
use fastapi_shipment_import.Settings.{Settings}
use fastapi_shipment_import.Service.{Env, World, seen, transaction}
use fastapi_shipment_import.Services.CreateImport
use fastapi_shipment_import.Services.CreateImport.{
  Upload, ImportCreatedResult, CreateAnswer, failed,
}
use fastapi_shipment_import.Storage
use fastapi_shipment_import.Storage.Saving.{delete_if_exists-removes}
use fastapi_shipment_import.Upload.Created.{path_of, transaction-ticks, inserted-path_of}
use fastapi_shipment_import.Api.Errors.{Answer, responded, escaped}
use fastapi_shipment_import.Api.Imports

-- The import is committed under a path that holds no file, and the answer is an error.
abbrev pub Lost : ℕ → String → Answer ImportCreatedResult × Imports.Site → Type 0
Lost job_id path r =
    (r.0 ≡ escaped operational_error)
    × (path_of job_id r.1.world.db ≡ some path)
    × (r.1.disk.files path ≡ none)

module _ (machine : Storage.Machine) (removable : (k : ℕ) → machine.refuses_removal k ≡ false)
    (unreadable : ℕ → Bool) (env : Env) (settings : Settings) (job_id event_id : ℕ)
    (others : (k : ℕ) (db : Db) → path_of job_id (env.interfere k db) ≡ path_of job_id db)
    (token : String) where
  ending-Lost :
      (path : String) (r : Result (Unit {0}) × Storage.Disk) (w : World)
      → r.0 ≡ ok tt
      → r.1.files path ≡ none
      → path_of job_id w.db ≡ some path
      → Lost job_id path (Imports.ending machine unreadable (escaped operational_error) r w)
  ending-Lost path (ok u, disk) w done gone there = (refl, there, gone)
  ending-Lost path (raised e, disk) w done gone there = absurd (ground (arith, done))

  after_service-Lost :
      (path : String) (r : CreateAnswer × World) (disk : Storage.Disk)
      → r.0 ≡ failed operational_error
      → path_of job_id r.1.db ≡ some path
      → Lost job_id path (Imports.after_service machine unreadable path r disk)
  unfolding Imports.after_service Imports.discarding
  after_service-Lost path r disk answer there =
      let deleted = delete_if_exists-removes machine removable path disk in
      let itself : str_eq path path ≡ true = (eq_iff path path).1 refl in
      rw answer (
        ending-Lost path (Storage.delete_if_exists machine path disk) r.1 deleted.0
          (deleted.1 path ∙ rw itself refl) there)

  service-lost :
      (u : Upload) (w : World) (id : ℕ)
      → env.fault w.ticks ≡ false
      → CreateImport.existing_answer u (seen env w) ≡ none
      → (transaction env
          (CreateImport.insert_records settings job_id event_id u)
          (record { db = seen env w; ticks = suc w.ticks })).0
        ≡ ok id
      → env.fault (suc (suc w.ticks)) ≡ true
      → ((CreateImport.create_import env settings job_id event_id u w).0 ≡ failed operational_error)
        × (path_of job_id (CreateImport.create_import env settings job_id event_id u w).1.db
            ≡ some u.stored_file_path)
  unfolding CreateImport.create_import
  service-lost u w id steady new committed dropped =
      let looked : World = record { db = seen env w; ticks = suc w.ticks } in
      let body = CreateImport.insert_records settings job_id event_id u in
      let ticks = transaction-ticks env body looked in
      let stored = inserted-path_of env settings job_id event_id u others looked id committed in
      rw (steady, new, committed, ticks, dropped)
        (
          refl,
          others (transaction env body looked).1.ticks (transaction env body looked).1.db ∙ stored,
        )

  -- With a disk that refuses no removal and other processes that leave the new import and its path
  -- alone, if the file is stored with a signature, no import answers the upload, the INSERT is
  -- committed and the connection then drops in session.refresh, the handler raises the
  -- OperationalError, the import is in the table with the path of the file, and the file has been
  -- deleted.
  pub create_import-loses_file :
      (file : Imports.UploadFile) (key valid_key : Option String) (name : String)
      (f : Storage.StoredFile) (saved checked : Storage.Disk) (id : ℕ) (site : Imports.Site)
      → Imports.validate_original_file_name machine.lower file.filename ≡ responded name
      → Imports.validate_idempotency_key key ≡ responded valid_key
      → Storage.save_upload machine settings.max_upload_size_bytes token name file.reads site.disk
        ≡ (Storage.stored f, saved)
      → Imports.has_xlsx_zip_signature machine unreadable f.stored_file_path saved
        ≡ (ok true, checked)
      → env.fault site.world.ticks ≡ false
      → CreateImport.existing_answer
          (Imports.upload_of machine unreadable env settings job_id event_id file.content_type
            valid_key f)
          (seen env site.world)
        ≡ none
      → (transaction env
          (CreateImport.insert_records settings job_id event_id (
            Imports.upload_of machine unreadable env settings job_id event_id file.content_type
              valid_key f))
          (record { db = seen env site.world; ticks = suc site.world.ticks })).0
        ≡ ok id
      → env.fault (suc (suc site.world.ticks)) ≡ true
      → Lost job_id f.stored_file_path (
          Imports.create_import machine unreadable env settings job_id event_id token
            (some file)
            key
            site)
  unfolding Imports.create_import
  create_import-loses_file file key valid_key name f saved checked id site named keyed stored signed
        steady new committed dropped =
      let u =
        Imports.upload_of machine unreadable env settings job_id event_id file.content_type
          valid_key f in
      let lost = service-lost u site.world id steady new committed dropped in
      rw (named, keyed, stored, signed)
        (after_service-Lost f.stored_file_path
          (CreateImport.create_import env settings job_id event_id u site.world) checked lost.0
          lost.1)
