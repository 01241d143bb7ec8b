-- ===== src/Storage.antt =====
-- app/storage/local_file_storage.py: the disk, and `LocalFileStorage`.
--
-- A byte is a number. A write to the disk changes it at once, or is refused and changes nothing: what
-- a file holds after a write that stopped halfway is not told apart.
pub mod Paths
pub mod Receiving
pub mod Saving
use fastapi_shipment_import.Base.{
  ℕ, suc, ◌+◌, String, Bool, true, false, Option, none, some, List, [], ◌∷◌, ◌++◌, length, ltb,
  str_eq, append_text, is_nil, if◌then◌else◌,
}
use fastapi_shipment_import.Session.{Failure, os_error, Result, ok, raised}
use fastapi_shipment_import.Storage.Paths.{path_name, path_suffix}

abbrev pub Bytes : Type 0
Bytes = List ℕ

-- The files by their paths, and how many operations the disk has been asked for.
pub record Disk : Type 0 where
  pub files : String → Option Bytes
  pub operations : ℕ

-- What the storage takes from outside: `refuses k` says that the disk refuses to write at its
-- operation number k, `refuses_removal k` that it refuses to remove a file that is there (both an
-- OSError), `sha256_hex` is the digest of all the bytes, `lower` is `str.lower`.
pub record Machine : Type 0 where
  pub upload_dir : String
  pub refuses : ℕ → Bool
  pub refuses_removal : ℕ → Bool
  pub sha256_hex : Bytes → String
  pub lower : String → String

-- What `await reader(n)` gives: some bytes, or an exception. A reader that has no more gives no bytes.
pub data Read : Type 0 where
  chunk : Bytes → Read
  read_failed : Failure → Read

pub record StoredFile : Type 0 where
  pub original_file_name : String
  pub stored_file_path : String
  pub file_size_bytes : ℕ
  pub sha256_hex : String

pub data Saved : Type 0 where
  stored : StoredFile → Saved
  upload_too_large_error : Saved
  save_failed : Failure → Saved

-- The loop's end: the total size and the bytes written, or an exception.
pub data Received : Type 0 where
  received : ℕ → Bytes → Received
  too_large : Received
  broken : Failure → Received

abbrev pub put : String → Bytes → (String → Option Bytes) → String → Option Bytes
put path content files = λ p. if str_eq p path then some content else files p

abbrev pub removed : String → (String → Option Bytes) → String → Option Bytes
removed path files = λ p. if str_eq p path then none else files p

abbrev pub asked : Disk → Disk
asked disk = record disk { operations = suc disk.operations }

module _ (machine : Machine) where
  -- `final_path`, `temp_path`; the name is the last component of the one given.
  abbrev pub final_path : String → String → String
  final_path token name =
      append_text machine.upload_dir
        (append_text "/" (append_text token (machine.lower (path_suffix (path_name name)))))

  abbrev pub temp_path : String → String
  temp_path token = append_text machine.upload_dir (append_text "/" (append_text token ".tmp"))

  -- An operation on the disk that writes.
  abbrev pub writing :
      ((String → Option Bytes) → String → Option Bytes) → Disk → Result (Unit {0}) × Disk
  writing f disk =
      if machine.refuses disk.operations
      then (raised os_error, asked disk)
      else (ok tt, record { files = f disk.files; operations = suc disk.operations })

  abbrev pub remove : String → Option Bytes → Disk → Result (Unit {0}) × Disk
  remove path none disk = (ok tt, asked disk)
  remove path (some content) disk =
      if machine.refuses_removal disk.operations
      then (raised os_error, asked disk)
      else (ok tt, record { files = removed path disk.files; operations = suc disk.operations })

  -- A file that is not there is not removed: the FileNotFoundError is swallowed.
  unfoldable pub delete_if_exists : String → Disk → Result (Unit {0}) × Disk
  delete_if_exists path disk = remove path (disk.files path) disk

  abbrev pub and_then :
      Result (Unit {0}) × Disk → (Disk → Result (Unit {0}) × Disk) → Result (Unit {0}) × Disk
  and_then (ok u, disk) next = next disk
  and_then (raised e, disk) next = (raised e, disk)

  abbrev pub kept_writing : Result (Unit {0}) × Disk → (Disk → Received × Disk) → Received × Disk
  kept_writing (ok u, disk) next = next disk
  kept_writing (raised e, disk) next = (broken e, disk)

  -- The `while True` loop: `content` is what has been written, `total` is `total_size`.
  unfoldable pub receive : ℕ → String → ℕ → Bytes → List Read → Disk → Received × Disk
  receive max_size temp total content [] disk = (received total content, disk)
  receive max_size temp total content (read_failed e ∷ reads) disk = (broken e, disk)
  receive max_size temp total content (chunk bytes ∷ reads) disk =
      let rest = receive max_size temp (total + length bytes) (content ++ bytes) reads in
      if is_nil bytes
      then (received total content, disk)
      else if ltb max_size (total + length bytes)
      then (too_large, disk)
      else kept_writing (writing (put temp (content ++ bytes)) disk) rest

  -- `except BaseException`: both paths are deleted, and the exception goes on.
  abbrev pub after_cleanup : Result (Unit {0}) × Disk → Saved → Saved × Disk
  after_cleanup (ok u, disk) saved = (saved, disk)
  after_cleanup (raised e, disk) saved = (save_failed e, disk)

  unfoldable pub clean_up : String → String → Saved → Disk → Saved × Disk
  unfolding delete_if_exists
  clean_up temp final saved disk =
      after_cleanup (and_then (delete_if_exists temp disk) (delete_if_exists final)) saved

  -- `os.replace(temp, final)`
  abbrev pub moved : String → String → (String → Option Bytes) → String → Option Bytes
  moved temp final files = λ p. if str_eq p final then files temp else removed temp files p

  module _ (max_size : ℕ) (token name : String) where
    abbrev pub stored_file : ℕ → Bytes → StoredFile
    stored_file total content = record {
      original_file_name = path_name name;
      stored_file_path = final_path token name;
      file_size_bytes = total;
      sha256_hex = machine.sha256_hex content;
    }

    abbrev pub failing : Saved → Disk → Saved × Disk
    failing = clean_up (temp_path token) (final_path token name)

    abbrev pub finished : ℕ → Bytes → Result (Unit {0}) × Disk → Saved × Disk
    finished total content (ok u, disk) = (stored (stored_file total content), disk)
    finished total content (raised e, disk) = failing (save_failed e) disk

    abbrev pub after_receive : Received × Disk → Saved × Disk
    after_receive (received total content, disk) =
        finished total content (writing (moved (temp_path token) (final_path token name)) disk)
    after_receive (too_large, disk) = failing upload_too_large_error disk
    after_receive (broken e, disk) = failing (save_failed e) disk

    abbrev pub after_open : List Read → Result (Unit {0}) × Disk → Saved × Disk
    after_open reads (ok u, disk) =
        after_receive (receive max_size (temp_path token) 0 [] reads disk)
    after_open reads (raised e, disk) = failing (save_failed e) disk

    -- Making the directory is outside the `try`.
    abbrev pub after_makedirs : List Read → Result (Unit {0}) × Disk → Saved × Disk
    after_makedirs reads (ok u, disk) = after_open reads (writing (put (temp_path token) []) disk)
    after_makedirs reads (raised e, disk) = (save_failed e, disk)

    -- `token` is the hex text of the UUID that it draws.
    unfoldable pub save_upload : List Read → Disk → Saved × Disk
    unfolding receive clean_up
    save_upload reads disk = after_makedirs reads (writing (λ files. files) disk)
