-- ===== src/Api/Status.antt =====
-- What the status of an import shows.
use fastapi_shipment_import.Base.{
  ℕ, ◌≡◌, refl, not, ◌&&◌, is_some, sym, ap, ◌∙◌, String, Bool, ◌||◌, ◌==◌, is_some-find_where,
  true, false, Option, none, some, arith, if◌then◌else◌, find_where, All-find_where,
}
use fastapi_shipment_import.Models.{Db, ImportStatus, ImportJob, is_failed}
use fastapi_shipment_import.Invariants.Sound.{IsSound}
use fastapi_shipment_import.Invariants.Jobs.{JobIsValid}
use fastapi_shipment_import.Repositories.Imports.{exists, get_status_read_model, status_of}
use fastapi_shipment_import.Services.Reads
use fastapi_shipment_import.Services.Reads.{
  ReadAnswer, shown_failure_reason, shown_last_reason, is_completed, hides_last_reason, payload_of,
  found, import_not_found_error, invalid_shipment_filter_error, read_failed, StatusPayload, Page,
}

-- A reason that is a key of the payload, with a text or with null.
abbrev pub is_text : Option (Option String) → Bool
is_text none = false
is_text (some none) = false
is_text (some (some t)) = true

abbrev pub is_null : Option (Option String) → Bool
is_null none = false
is_null (some none) = true
is_null (some (some t)) = false

abbrev pub StatusOutcome : ℕ → Db → ReadAnswer StatusPayload → Type 0
StatusOutcome import_id db (found p) =
    (exists import_id db ≡ true)
    × (is_text p.failure_reason ≡ is_failed p.record_read.status)
    × (is_null p.failure_reason ≡ false)
    × (is_completed p.record_read.status && is_some p.last_failure_reason ≡ false)
    × (is_null p.last_failure_reason && not (is_failed p.record_read.status) ≡ false)
StatusOutcome import_id db import_not_found_error = exists import_id db ≡ false
StatusOutcome import_id db (invalid_shipment_filter_error message) = ⊥
StatusOutcome import_id db (read_failed e) = ⊥

-- The two keys, by the status and the columns.
shown-outcome :
    (status : ImportStatus) (last reason : Option String)
    → is_some reason ≡ is_failed status
    → let shown = if not (is_failed status) then none else some reason in
      let shown_last =
        if is_completed status || (not (is_failed status) && not (is_some last))
        then none
        else some last in
      (is_text shown ≡ is_failed status)
      × (is_null shown ≡ false)
      × (is_completed status && is_some shown_last ≡ false)
      × (is_null shown_last && not (is_failed status) ≡ false)
shown-outcome ImportStatus.pending last (some r) h = absurd (ground (arith, h))
shown-outcome ImportStatus.pending none none h = (refl, refl, refl, refl)
shown-outcome ImportStatus.pending (some l) none h = (refl, refl, refl, refl)
shown-outcome ImportStatus.processing last (some r) h = absurd (ground (arith, h))
shown-outcome ImportStatus.processing none none h = (refl, refl, refl, refl)
shown-outcome ImportStatus.processing (some l) none h = (refl, refl, refl, refl)
shown-outcome ImportStatus.completed last (some r) h = absurd (ground (arith, h))
shown-outcome ImportStatus.completed none none h = (refl, refl, refl, refl)
shown-outcome ImportStatus.completed (some l) none h = (refl, refl, refl, refl)
shown-outcome ImportStatus.failed last none h = absurd (ground (arith, h))
shown-outcome ImportStatus.failed none (some r) h = (refl, refl, refl, refl)
shown-outcome ImportStatus.failed (some l) (some r) h = (refl, refl, refl, refl)

-- In a sound database get_status answers an import that exists and no other; failure_reason is
-- shown, as a text, exactly for FAILED imports, last_failure_reason is not shown for COMPLETED
-- ones, and it is shown as null for FAILED ones at most.
pub get_status-outcome :
    (import_id : ℕ) (db : Db)
    → IsSound db
    → StatusOutcome import_id db (Reads.get_status import_id db)
unfolding Reads.get_status get_status_read_model exists
get_status-outcome import_id db sound =
    by_row (find_where (λ (job : ImportJob). job.id == import_id) db.import_jobs) refl
  where
    by_row :
        (row : Option ImportJob)
        → find_where (λ (job : ImportJob). job.id == import_id) db.import_jobs ≡ row
        → StatusOutcome import_id db (payload_of (status_of row))
    by_row none e =
        sym (is_some-find_where (λ (job : ImportJob). job.id == import_id) db.import_jobs)
        ∙ ap is_some e
    by_row (some job) e =
        let valid =
          All-find_where JobIsValid (λ (job : ImportJob). job.id == import_id) db.import_jobs
            sound.jobs_valid e in
        let here =
          sym (is_some-find_where (λ (job : ImportJob). job.id == import_id) db.import_jobs)
          ∙ ap is_some e in
        let shown =
          shown-outcome job.status job.last_failure_reason job.failure_reason
            valid.reason_terminal in
        (here, shown.0, shown.1, shown.2, shown.3)
