-- ===== src/Invariants/Recovery.antt =====
-- What recover_stale_imports makes of the rows of `import_jobs` and of the outbox.
use fastapi_shipment_import.Base.{
  ◌⊎◌, any-eq-false, count-order_by, ℕ, zero, suc, ◌-◌, ◌+◌, ◌≤◌, ◌==◌, ◌≡◌, refl, Bool, true,
  false, not, ◌&&◌, Bool-cases, inl, inr, any, List, [], ◌∷◌, map, take, length, All, All-mono,
  All-select_where, All-order_by, count_where, select_where, order_by, arith,
}
use fastapi_shipment_import.Models.{Db, ImportJob}
use fastapi_shipment_import.Session.{>>=-ok, ok, pure}
use fastapi_shipment_import.Settings.{Settings}
use fastapi_shipment_import.Services.Watchdog.{
  recover_each, recover_in_transaction, stale_imports, is_stale, beat_earlier,
}
use fastapi_shipment_import.Invariants.Sound.{IsSound}
use fastapi_shipment_import.Invariants.Updates.{recover_in_transaction-IsSound}
use fastapi_shipment_import.Invariants.RecoveredRows.{
  is_exhausted, recovered, after_batch, intents, requeues, Agrees, each-Agrees, recover_each-rows,
  recover_each-returns,
}

All-map :
    (P : ImportJob → Type 0) (f : ImportJob → ImportJob) (xs : List ImportJob)
    → All (λ x. P (f x)) xs
    → All P (map f xs)
All-map P f [] h = tt
All-map P f (x ∷ xs) h = (h.0, All-map P f xs h.1)

All-take : (P : ImportJob → Type 0) (n : ℕ) (xs : List ImportJob) → All P xs → All P (take n xs)
All-take P zero xs h = tt
All-take P (suc n) [] h = tt
All-take P (suc n) (x ∷ xs) h = (h.0, All-take P n xs h.1)

take_whole : (n : ℕ) (xs : List ImportJob) → (n ≤ length (take n xs)) ⊎ (take n xs ≡ xs)
take_whole zero xs = inl (omega arith)
take_whole (suc n) [] = inr refl
take_whole (suc n) (x ∷ xs) = elim (take_whole n xs) [
  | inl h ↦ inl (omega (arith, h))
  | inr h ↦ inr (rw h refl)
]

take_bound : (n : ℕ) (xs : List ImportJob) → length (take n xs) ≤ n
take_bound zero xs = omega arith
take_bound (suc n) [] = omega arith
take_bound (suc n) (x ∷ xs) = omega (arith, take_bound n xs)

-- The rows that a condition chooses are among the chosen ones, by their ids.
chosen_rows :
    (chosen : ImportJob → Bool) (jobs : List ImportJob)
    → All
        (λ (j : ImportJob).
          chosen j ≡ true
          → 1 ≤ count_where (λ (t : ImportJob). j.id == t.id) (select_where chosen jobs))
        jobs
unfolding count_where select_where
chosen_rows chosen [] = tt
chosen_rows chosen (s ∷ js) = (
  (λ q. ground (arith, q)),
  All-mono
      (λ (j : ImportJob).
        chosen j ≡ true
        → 1 ≤ count_where (λ (t : ImportJob). j.id == t.id) (select_where chosen js))
      (λ (j : ImportJob).
        chosen j ≡ true
        → 1 ≤ count_where (λ (t : ImportJob). j.id == t.id) (select_where chosen (s ∷ js)))
      (λ j h q. ground (arith, h q)) js (chosen_rows chosen js),
)

module _ (now_db now before : ℕ) (skipped : ℕ → Bool) where
  -- What the SELECT of the watchdog chooses.
  abbrev chosen : ImportJob → Bool
  chosen job = is_stale before job && not (skipped job.id)

  recovered-chosen : (j : ImportJob) → chosen (recovered now_db now j) ≡ false
  recovered-chosen j = elim (Bool-cases (is_exhausted j)) [ inl e ↦ rw e refl | inr e ↦ rw e refl ]

  after_batch-chosen :
      (jobs : List ImportJob) (j : ImportJob)
      → (chosen j ≡ true
          → 1 ≤ count_where (λ (t : ImportJob). j.id == t.id) (select_where chosen jobs))
      → chosen (after_batch now_db now (order_by beat_earlier (select_where chosen jobs)) j) ≡ false
  after_batch-chosen jobs j h =
      let batch = order_by beat_earlier (select_where chosen jobs) in
      let same_id : ImportJob → Bool = λ t. j.id == t.id in
      elim (Bool-cases (any same_id batch)) [
        | inl e ↦ rw e (recovered-chosen j)
        | inr e ↦ rw e (elim (Bool-cases (chosen j)) [
          | inl q ↦ absurd (
              omega (
                arith,
                h q,
                any-eq-false same_id batch e,
                count-order_by beat_earlier same_id (select_where chosen jobs),
              ))
          | inr q ↦ q
        ])
      ]

  -- A batch of all chosen rows leaves none of them to choose.
  none_left :
      (jobs : List ImportJob)
      → All
          (λ job. chosen job ≡ false)
          (map (after_batch now_db now (order_by beat_earlier (select_where chosen jobs))) jobs)
  none_left jobs =
      All-map (λ job. chosen job ≡ false)
        (after_batch now_db now (order_by beat_earlier (select_where chosen jobs))) jobs
        (All-mono _ _ (after_batch-chosen jobs) jobs (chosen_rows chosen jobs))

-- What the watchdog has done when its transaction commits `db'` and returns `a`.
pub record Recovered (skipped : ℕ → Bool) (batch_size before now now_db : ℕ) (db : Db) (a : ℕ)
    (db' : Db) : Type 0 where
  pub sound : IsSound db'
  pub number : a ≡ length (stale_imports skipped batch_size before db)
  pub bounded : a ≤ batch_size
  pub rows :
      db'.import_jobs
      ≡ map (after_batch now_db now (stale_imports skipped batch_size before db)) db.import_jobs
  pub events :
      (i : ℕ)
      → intents i db' ≡ intents i db + requeues i (stale_imports skipped batch_size before db)
  pub left :
      (batch_size ≤ a)
      ⊎ All (λ job. (is_stale before job && not (skipped job.id)) ≡ false) db'.import_jobs

committed-Recovered :
    (skipped : ℕ → Bool) (uuid4 : ℕ → ℕ) (settings : Settings) (batch_size now now_db : ℕ) (db : Db)
    (a : ℕ) (db' : Db)
    → IsSound db
    → recover_in_transaction skipped uuid4 settings batch_size now now_db db ≡ ok (a, db')
    → Recovered skipped batch_size
        (now - settings.processing_stale_timeout_seconds)
        now
        now_db
        db
        a
        db'
unfolding recover_in_transaction stale_imports
committed-Recovered skipped uuid4 settings batch_size now now_db db a db' h e =
    let before = now - settings.processing_stale_timeout_seconds in
    let batch = stale_imports skipped batch_size before db in
    let chosen : ImportJob → Bool = λ job. is_stale before job && not (skipped job.id) in
    let ordered = order_by beat_earlier (select_where chosen db.import_jobs) in
    let agree : All (Agrees db.import_jobs) batch =
      All-take (Agrees db.import_jobs) batch_size ordered (
        All-order_by beat_earlier (Agrees db.import_jobs) (select_where chosen db.import_jobs) (
          All-select_where (Agrees db.import_jobs) chosen db.import_jobs
            (each-Agrees db.import_jobs h.jobs_keyed))) in
    let (u, mid, first, rest) =
      >>=-ok (recover_each uuid4 now_db now 0 batch) (λ _. pure (length batch)) db e in
    let (rows, events) = recover_each-rows now_db now uuid4 0 batch db u mid agree first in
    let same : mid ≡ db' = ground (arith, rest) in
    let count : a ≡ length batch = ground (arith, rest) in
    let all : db'.import_jobs ≡ map (after_batch now_db now batch) db.import_jobs =
      rw (← same) rows in
    record {
      sound =
          recover_in_transaction-IsSound skipped uuid4 settings batch_size now now_db db a db' h e;
      number = count;
      bounded = ground (arith, count, take_bound batch_size ordered);
      rows = all;
      events = λ i. rw (← same) (events i);
      left = elim (take_whole batch_size ordered) [
        | inl many ↦ inl (ground (arith, count, many))
        | inr whole ↦ inr (rw (all, whole) (none_left now_db now before skipped db.import_jobs))
      ];
    }

-- On a sound database the body of the watchdog's transaction returns, and what it leaves is
-- Recovered: the database is sound, the number returned is that of the batch of stale imports and
-- at most batch_size, the rows of import_jobs are the old ones with those of the batch failed where
-- no attempt is left and pending again otherwise, the outbox has as many dispatch intents more for
-- an import as rows of the batch put it back to pending, and unless the number is batch_size no
-- stale import is left but locked ones.
pub recover_in_transaction-recovers :
    (skipped : ℕ → Bool) (uuid4 : ℕ → ℕ) (settings : Settings) (batch_size now now_db : ℕ) (db : Db)
    → IsSound db
    → (a : ℕ) × (db' : Db) × (recover_in_transaction skipped uuid4 settings batch_size now now_db db
        ≡ ok (a, db'))
      × Recovered skipped batch_size
          (now - settings.processing_stale_timeout_seconds)
          now
          now_db
          db
          a
          db'
unfolding recover_in_transaction
recover_in_transaction-recovers skipped uuid4 settings batch_size now now_db db h =
    let before = now - settings.processing_stale_timeout_seconds in
    let batch = stale_imports skipped batch_size before db in
    let (u, mid, each) = recover_each-returns now_db now uuid4 0 batch db in
    let commits : recover_in_transaction skipped uuid4 settings batch_size now now_db db
        ≡ ok (length batch, mid) =
      ground (arith, each) in
    (
      length batch,
      mid,
      commits,
      committed-Recovered skipped uuid4 settings batch_size now now_db db (length batch) mid h
          commits,
    )
