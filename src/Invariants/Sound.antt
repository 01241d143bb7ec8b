-- ===== src/Invariants/Sound.antt =====
-- The invariant of the database: keys, the rows of `import_jobs`, and the shipments that its counters
-- count.
use fastapi_shipment_import.Base.{
  ℕ, ◌+◌, ◌≤◌, String, ◌≡◌, Bool, true, List, ◌==◌, if◌then◌else◌, All, count_where,
}
use fastapi_shipment_import.Models.{Db, ImportJob, Shipment}
use fastapi_shipment_import.Repositories.Shipments.{has_code, in_import, checks_hold}
use fastapi_shipment_import.Invariants.Jobs.{JobIsValid}

abbrev pub has_id : ℕ → ImportJob → Bool
has_id i job = job.id == i

-- The success count of a job is the number of its shipments, but that `extra` of import `i` are not
-- counted yet.
abbrev pub Counted : List Shipment → ℕ → ℕ → ImportJob → Type 0
Counted shipments i extra job =
    count_where (in_import job.id) shipments
    ≡ job.success_count + (if job.id == i then extra else 0)

-- The import of a shipment is there.
abbrev pub Referenced : List ImportJob → Shipment → Type 0
Referenced jobs s = 1 ≤ count_where (has_id s.import_id) jobs

pub record IsSoundBut (i extra : ℕ) (db : Db) : Type 0 where
  pub jobs_keyed : (j : ℕ) → count_where (has_id j) db.import_jobs ≤ 1
  pub jobs_valid : All JobIsValid db.import_jobs
  pub codes_unique : (c : String) → count_where (has_code c) db.shipments ≤ 1
  pub shipments_checked : All (λ s. checks_hold s ≡ true) db.shipments
  pub counted : All (Counted db.shipments i extra) db.import_jobs
  -- the foreign key of shipments
  pub referenced : All (Referenced db.import_jobs) db.shipments

abbrev pub IsSound : Db → Type 0
IsSound = IsSoundBut 0 0
