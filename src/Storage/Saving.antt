-- ===== src/Storage/Saving.antt =====
-- What `save_upload` leaves on the disk.
use fastapi_shipment_import.Base.{
  ℕ, suc, ◌≤◌, ◌<◌, ◌≡◌, ◌∙◌, subst, ap, sym, refl, arith, String, false, Bool-cases, inl, inr,
  Option, none, some, List, [], length, str_eq, eq_iff,
}
use fastapi_shipment_import.Session.{Failure, Result, ok, raised}
use fastapi_shipment_import.Storage
use fastapi_shipment_import.Storage.Receiving.{
  all_bytes, SameOff, SameFiles, ReceiveOutcome, ReceiveOutcome-before, receive-outcome,
  str_eq_refl,
}

module _ (machine : Storage.Machine) (removable : (k : ℕ) → machine.refuses_removal k ≡ false) where
  pub delete_if_exists-removes :
      (path : String) (disk : Storage.Disk)
      → ((Storage.delete_if_exists machine path disk).0 ≡ ok tt)
        × ((p : String)
            → (Storage.delete_if_exists machine path disk).1.files p
              ≡ Storage.removed path disk.files p)
  unfolding Storage.delete_if_exists
  delete_if_exists-removes path disk = go (disk.files path) refl
    where
      go :
          (found : Option Storage.Bytes)
          → disk.files path ≡ found
          → ((Storage.remove machine path found disk).0 ≡ ok tt)
            × ((p : String)
                → (Storage.remove machine path found disk).1.files p
                  ≡ Storage.removed path disk.files p)
      go none is = (refl, λ p. absent p)
        where
          absent : (p : String) → disk.files p ≡ Storage.removed path disk.files p
          absent p = elim (Bool-cases (str_eq p path)) [
            | inl t ↦ rw (t, (eq_iff p path).0 t) is
            | inr f ↦ rw f refl
          ]
      go (some content) is = rw (removable disk.operations) (refl, λ p. refl)

  and_then-ok :
      (r : Result (Unit {0}) × Storage.Disk)
      (next : Storage.Disk → Result (Unit {0}) × Storage.Disk)
      → r.0 ≡ ok tt
      → Storage.and_then machine r next ≡ next r.1
  and_then-ok (ok u, disk) next e = refl
  and_then-ok (raised x, disk) next e = absurd (ground (arith, e))

  after_cleanup-ok :
      (r : Result (Unit {0}) × Storage.Disk) (saved : Storage.Saved)
      → r.0 ≡ ok tt
      → Storage.after_cleanup machine r saved ≡ (saved, r.1)
  after_cleanup-ok (ok u, disk) saved e = refl
  after_cleanup-ok (raised x, disk) saved e = absurd (ground (arith, e))

  -- After the two deletions nothing is left of an upload that touched only its two paths.
  clean_up-restores :
      (temp final : String) (saved : Storage.Saved) (before disk : Storage.Disk)
      → SameOff temp before disk
      → before.files temp ≡ none
      → before.files final ≡ none
      → ((Storage.clean_up machine temp final saved disk).0 ≡ saved)
        × SameFiles before (Storage.clean_up machine temp final saved disk).1
  unfolding Storage.clean_up
  clean_up-restores temp final saved before disk off no_temp no_final =
      let first = delete_if_exists-removes temp disk in
      let second = delete_if_exists-removes final (Storage.delete_if_exists machine temp disk).1 in
      let both =
        and_then-ok (Storage.delete_if_exists machine temp disk)
          (Storage.delete_if_exists machine final) first.0 in
      let done : Storage.clean_up machine temp final saved disk ≡ (
        saved,
        (Storage.delete_if_exists machine final (Storage.delete_if_exists machine temp disk).1).1,
      ) =
        ap (λ r. Storage.after_cleanup machine r saved) both
        ∙ after_cleanup-ok
            (Storage.delete_if_exists machine final (Storage.delete_if_exists machine temp disk).1)
            saved second.0 in
      rw done (refl, λ p. second.1 p ∙ restored p (first.1 p))
    where
      restored :
          (p : String)
          → (Storage.delete_if_exists machine temp disk).1.files p
            ≡ Storage.removed temp disk.files p
          → Storage.removed final (Storage.delete_if_exists machine temp disk).1.files p
            ≡ before.files p
      restored p first = elim (Bool-cases (str_eq p final)) [
        | inl t ↦ rw (t, (eq_iff p final).0 t) (sym no_final)
        | inr f ↦ elim (Bool-cases (str_eq p temp)) [
          | inl t ↦ rw f (first ∙ rw t (rw ((eq_iff p temp).0 t) (sym no_temp)))
          | inr g ↦ rw f (first ∙ rw g (off p g))
        ]
      ]

  -- What save_upload answers, and leaves.
  abbrev pub SaveOutcome :
      ℕ → String → String → Storage.Bytes → Storage.Disk → Storage.Saved → Storage.Disk → Type 0
  SaveOutcome max_size token name all disk (Storage.stored f) after =
      (f ≡ Storage.stored_file machine max_size token name (length all) all)
      × (length all ≤ max_size)
      × (after.files (Storage.final_path machine token name) ≡ some all)
      × SameOff (Storage.final_path machine token name) disk after
  SaveOutcome max_size token name all disk Storage.upload_too_large_error after =
      (max_size < length all) × SameFiles disk after
  SaveOutcome max_size token name all disk (Storage.save_failed e) after = SameFiles disk after

  module _ (max_size : ℕ) (token name : String) (all : Storage.Bytes) (disk : Storage.Disk)
      (no_temp : disk.files (Storage.temp_path machine token) ≡ none)
      (no_final : disk.files (Storage.final_path machine token name) ≡ none) where
    abbrev temp : String
    temp = Storage.temp_path machine token

    abbrev final : String
    final = Storage.final_path machine token name

    -- A save that failed, cleaned up.
    failing-restores :
        (e : Failure) (now : Storage.Disk)
        → SameOff temp disk now
        → SaveOutcome max_size token name all disk
            (Storage.failing machine max_size token name (Storage.save_failed e) now).0
            (Storage.failing machine max_size token name (Storage.save_failed e) now).1
    failing-restores e now off =
        let done =
          clean_up-restores temp final (Storage.save_failed e) disk now off no_temp no_final in
        rw done.0 done.1

    moved-stored :
        (now : Storage.Disk)
        → SameOff temp disk now
        → (p : String) → str_eq p final ≡ false
        → Storage.removed temp now.files p ≡ disk.files p
    moved-stored now off p away = elim (Bool-cases (str_eq p temp)) [
      | inl t ↦ rw t (rw ((eq_iff p temp).0 t) (sym no_temp))
      | inr f ↦ rw f (off p f)
    ]

    moved_file :
        (total : ℕ) (content : Storage.Bytes)
        → content ≡ all
        → total ≡ length content
        → Storage.stored_file machine max_size token name total content
          ≡ Storage.stored_file machine max_size token name (length all) all
    moved_file total content e sized = rw (sized, e) refl

    received-outcome :
        (r : Storage.Received) (now : Storage.Disk)
        → ReceiveOutcome max_size temp all disk r now
        → SaveOutcome max_size token name all disk
            (Storage.after_receive machine max_size token name (r, now)).0
            (Storage.after_receive machine max_size token name (r, now)).1
    received-outcome (Storage.received total content) now h =
        elim (Bool-cases (machine.refuses now.operations)) [
          | inl t ↦ rw t (failing-restores Storage.os_error (Storage.asked now) h.4)
          | inr f ↦ rw f (
            moved_file total content h.0 h.1,
            subst (λ c. length c ≤ max_size) h.0 (omega (arith, h.1, h.2)),
            rw (str_eq_refl final) (h.3 ∙ ap some h.0),
            λ p away. rw away (moved-stored now h.4 p away),
          )
        ]
    received-outcome Storage.too_large now h =
        let done =
          clean_up-restores temp final Storage.upload_too_large_error disk now h.1 no_temp
            no_final in
        rw done.0 (h.0, done.1)
    received-outcome (Storage.broken e) now h = failing-restores e now h

  opened :
      (max_size : ℕ) (token name : String) (reads : List Storage.Read) (disk : Storage.Disk)
      → disk.files (Storage.temp_path machine token) ≡ none
      → disk.files (Storage.final_path machine token name) ≡ none
      → SaveOutcome max_size token name
          (all_bytes reads)
          disk
          (Storage.after_open machine max_size token name reads
            (Storage.writing machine (Storage.put (Storage.temp_path machine token) []) disk)).0
          (Storage.after_open machine max_size token name reads
            (Storage.writing machine (Storage.put (Storage.temp_path machine token) []) disk)).1
  opened max_size token name reads disk no_temp no_final =
      let temp = Storage.temp_path machine token in
      let empty : Storage.Disk = record {
        files = Storage.put temp [] disk.files;
        operations = suc disk.operations;
      } in
      elim (Bool-cases (machine.refuses disk.operations)) [
        | inl t ↦ rw t (
            failing-restores max_size token name (all_bytes reads) disk no_temp no_final
              Storage.os_error (Storage.asked disk) (λ p off. refl))
        | inr f ↦ rw f (
            received-outcome max_size token name (all_bytes reads) disk no_temp no_final
              (Storage.receive machine max_size temp 0 [] reads empty).0
              (Storage.receive machine max_size temp 0 [] reads empty).1
              (ReceiveOutcome-before max_size temp (all_bytes reads) disk empty _ _
                (λ p off. rw off refl)
                (receive-outcome machine max_size temp 0 [] reads empty refl (omega arith)
                  (rw (str_eq_refl temp) refl))))
      ]

  -- With a disk that refuses no removal and no file at the upload's two paths, save_upload either
  -- stores all bytes read under the final path, at most the maximum, with their number and digest,
  -- and every other file as before; or finds them too large, and they are more than the maximum, or
  -- fails, and then every file is as before.
  pub save_upload-outcome :
      (max_size : ℕ) (token name : String) (reads : List Storage.Read) (disk : Storage.Disk)
      → disk.files (Storage.temp_path machine token) ≡ none
      → disk.files (Storage.final_path machine token name) ≡ none
      → SaveOutcome max_size token name
          (all_bytes reads)
          disk
          (Storage.save_upload machine max_size token name reads disk).0
          (Storage.save_upload machine max_size token name reads disk).1
  unfolding Storage.save_upload
  save_upload-outcome max_size token name reads disk no_temp no_final =
      elim (Bool-cases (machine.refuses disk.operations)) [
        | inl t ↦ rw t (λ p. refl)
        | inr f ↦ rw f (opened max_size token name reads (Storage.asked disk) no_temp no_final)
      ]
