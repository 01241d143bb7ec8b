-- ===== src/Invariants/RecoveredRows.antt =====
-- What the loop of recover_stale_imports makes of the rows of `import_jobs` and of the outbox.
use fastapi_shipment_import.Base.{
  ℕ, suc, ◌+◌, ◌≤◌, ◌==◌, ◌≡◌, refl, sym, ◌∙◌, ap, Bool, true, false, not, ◌&&◌, Bool-cases, inl,
  inr, if◌then◌else◌, leb, any, List, [], ◌∷◌, map, All, All-mono, All-both, update_where,
  count_where, count-append, arith,
}
use fastapi_shipment_import.Models.{Db, ImportJob, ImportDispatchOutbox}
use fastapi_shipment_import.Session.{>>=-ok, ok}
use fastapi_shipment_import.Repositories.Outbox.{new_event}
use fastapi_shipment_import.Services.Watchdog.{failed_job, requeued_job, recover_one, recover_each}
use fastapi_shipment_import.Invariants.Sound.{has_id}

abbrev pub is_exhausted : ImportJob → Bool
is_exhausted job = leb job.max_attempts job.attempt_count

-- A row that has no attempt left fails, another one waits again.
abbrev pub recovered : ℕ → ℕ → ImportJob → ImportJob
recovered now_db now job =
    if is_exhausted job then failed_job now_db now job else requeued_job now_db now job

-- The rows of the batch are recovered, by their ids.
abbrev pub after_batch : ℕ → ℕ → List ImportJob → ImportJob → ImportJob
after_batch now_db now batch job =
    if any (λ (s : ImportJob). job.id == s.id) batch then recovered now_db now job else job

-- The intents for import `i`.
abbrev pub intents : ℕ → Db → ℕ
intents i db =
    count_where (λ (e : ImportDispatchOutbox). e.import_id == i) db.import_dispatch_outbox

-- How many rows of the batch that are import `i` are requeued.
abbrev pub requeues : ℕ → List ImportJob → ℕ
requeues i batch = count_where (λ job. has_id i job && not (is_exhausted job)) batch

-- Whether a row of the table with the id of `s` has attempts left is as for `s`.
abbrev pub Agrees : List ImportJob → ImportJob → Type 0
Agrees jobs s = All (λ j. (j.id == s.id) ≡ true → is_exhausted j ≡ is_exhausted s) jobs

if-same : {A : Type 0} (c : Bool) (a : A) → (if c then a else a) ≡ a
if-same true a = refl
if-same false a = refl

unkeyed-Agrees :
    (s : ImportJob) (jobs : List ImportJob) → count_where (has_id s.id) jobs ≡ 0 → Agrees jobs s
unfolding count_where
unkeyed-Agrees s [] e = tt
unkeyed-Agrees s (j ∷ js) e = ground (arith, e, unkeyed-Agrees s js)

-- Where no two rows share an id, the rows of the table agree with each of them.
pub each-Agrees :
    (jobs : List ImportJob) → ((j : ℕ) → count_where (has_id j) jobs ≤ 1) → All (Agrees jobs) jobs
unfolding count_where
each-Agrees [] keyed = tt
each-Agrees (s ∷ js) keyed =
    let rest = each-Agrees js (λ j. omega (arith, keyed j)) in
    let only = unkeyed-Agrees s js (ground (arith, keyed s.id)) in
    let both =
      All-both (λ t. (t.id == s.id) ≡ true → is_exhausted t ≡ is_exhausted s) (Agrees js) js only
        rest in
    (
      ((λ q. refl), only),
      All-mono (λ t. ((t.id == s.id) ≡ true → is_exhausted t ≡ is_exhausted s) × Agrees js t)
          (Agrees (s ∷ js)) (λ t h. ((λ q. sym (h.0 (ground (arith, q)))), h.1)) js both,
    )

module _ (now_db now : ℕ) where
  one-Agrees :
      (s t : ImportJob) (jobs : List ImportJob)
      → Agrees jobs t
      → Agrees (map (after_batch now_db now (s ∷ [])) jobs) t
  unfolding any
  one-Agrees s t [] h = tt
  one-Agrees s t (j ∷ js) h = elim (Bool-cases (j.id == s.id)) [
    | inl e ↦ elim (Bool-cases (is_exhausted j)) [
      | inl x ↦ rw (e, x) (ground (arith, h.0), one-Agrees s t js h.1)
      | inr x ↦ rw (e, x) (ground (arith, h.0), one-Agrees s t js h.1)
    ]
    | inr e ↦ rw e (h.0, one-Agrees s t js h.1)
  ]

  -- One row of the batch, and then the others.
  after_batch-after_batch :
      (s : ImportJob) (batch : List ImportJob) (j : ImportJob)
      → after_batch now_db now batch (after_batch now_db now (s ∷ []) j)
        ≡ after_batch now_db now (s ∷ batch) j
  unfolding any
  after_batch-after_batch s batch j = elim (Bool-cases (j.id == s.id)) [
    | inl e ↦ elim (Bool-cases (is_exhausted j)) [
      | inl x ↦ rw (e, x, x) (if-same (any (λ (t : ImportJob). j.id == t.id) batch) _)
      | inr x ↦ rw (e, x, x) (if-same (any (λ (t : ImportJob). j.id == t.id) batch) _)
    ]
    | inr e ↦ rw e refl
  ]

  map-after_batch :
      (s : ImportJob) (batch jobs : List ImportJob)
      → map (after_batch now_db now batch) (map (after_batch now_db now (s ∷ [])) jobs)
        ≡ map (after_batch now_db now (s ∷ batch)) jobs
  map-after_batch s batch [] = refl
  map-after_batch s batch (j ∷ js) =
      rw (after_batch-after_batch s batch j, map-after_batch s batch js) refl

  update-batch :
      (s : ImportJob) (f : ImportJob → ImportJob) (jobs : List ImportJob)
      → All (λ j. (j.id == s.id) ≡ true → f j ≡ recovered now_db now j) jobs
      → update_where (λ (j : ImportJob). j.id == s.id) f jobs
        ≡ map (after_batch now_db now (s ∷ [])) jobs
  unfolding update_where any
  update-batch s f [] h = refl
  update-batch s f (j ∷ js) h = elim (Bool-cases (j.id == s.id)) [
    | inl e ↦ rw (e, h.0 e, update-batch s f js h.1) refl
    | inr e ↦ rw (e, update-batch s f js h.1) refl
  ]

  recover_one-jobs :
      (outbox_id : ℕ) (s : ImportJob) (db : Db) (u : Unit {0}) (mid : Db)
      → Agrees db.import_jobs s
      → recover_one now_db outbox_id now s db ≡ ok (u, mid)
      → mid.import_jobs ≡ map (after_batch now_db now (s ∷ [])) db.import_jobs
  unfolding recover_one
  recover_one-jobs outbox_id s db u mid h e = elim (Bool-cases (is_exhausted s)) [
    | inl x ↦
        let same = update-batch s (failed_job now_db now) db.import_jobs (
          All-mono (λ j. (j.id == s.id) ≡ true → is_exhausted j ≡ is_exhausted s)
            (λ j. (j.id == s.id) ≡ true → failed_job now_db now j ≡ recovered now_db now j)
            (λ j v q. rw (v q, x) refl) db.import_jobs h) in
        ground (arith, e, x, same)
    | inr x ↦
        let same = update-batch s (requeued_job now_db now) db.import_jobs (
          All-mono (λ j. (j.id == s.id) ≡ true → is_exhausted j ≡ is_exhausted s)
            (λ j. (j.id == s.id) ≡ true → requeued_job now_db now j ≡ recovered now_db now j)
            (λ j v q. rw (v q, x) refl) db.import_jobs h) in
        ground (arith, e, x, same)
  ]

  recover_one-intents :
      (i outbox_id : ℕ) (s : ImportJob) (db : Db) (u : Unit {0}) (mid : Db)
      → recover_one now_db outbox_id now s db ≡ ok (u, mid)
      → intents i mid ≡ intents i db + requeues i (s ∷ [])
  unfolding recover_one count_where
  recover_one-intents i outbox_id s db u mid e = ground (
    arith,
    e,
    count-append (λ (x : ImportDispatchOutbox). x.import_id == i) db.import_dispatch_outbox
        (new_event now_db outbox_id s.id now ∷ []),
  )

  map-after_none : (jobs : List ImportJob) → map (after_batch now_db now []) jobs ≡ jobs
  unfolding any
  map-after_none [] = refl
  map-after_none (j ∷ js) = rw (map-after_none js) refl

  one-All :
      (s : ImportJob) (batch jobs : List ImportJob)
      → All (Agrees jobs) batch
      → All (Agrees (map (after_batch now_db now (s ∷ [])) jobs)) batch
  one-All s batch jobs =
      All-mono (Agrees jobs) (Agrees (map (after_batch now_db now (s ∷ [])) jobs))
        (λ t. one-Agrees s t jobs) batch

  pub recover_each-rows :
      (uuid4 : ℕ → ℕ) (k : ℕ) (batch : List ImportJob) (db : Db) (a : Unit {0}) (db' : Db)
      → All (Agrees db.import_jobs) batch
      → recover_each uuid4 now_db now k batch db ≡ ok (a, db')
      → (db'.import_jobs ≡ map (after_batch now_db now batch) db.import_jobs)
        × ((i : ℕ) → intents i db' ≡ intents i db + requeues i batch)
  unfolding recover_each count_where
  recover_each-rows uuid4 k [] db a db' h e =
      (ground (arith, e, map-after_none db.import_jobs), λ i. ground (arith, e))
  recover_each-rows uuid4 k (s ∷ batch) db a db' h e =
      let (u, mid, first, rest) =
        >>=-ok (recover_one now_db (uuid4 k) now s)
          (λ _. recover_each uuid4 now_db now (suc k) batch) db e in
      let jobs = recover_one-jobs (uuid4 k) s db u mid h.0 first in
      let (rows, events) =
        recover_each-rows uuid4 (suc k) batch mid a db'
          (rw jobs (one-All s batch db.import_jobs h.1)) rest in
      (
        rows
            ∙ ap (map (after_batch now_db now batch)) jobs
            ∙ map-after_batch s batch db.import_jobs,
        λ i. omega (arith, events i, recover_one-intents i (uuid4 k) s db u mid first),
      )

  recover_one-returns :
      (outbox_id : ℕ) (s : ImportJob) (db : Db)
      → (u : Unit {0}) × (mid : Db) × (recover_one now_db outbox_id now s db ≡ ok (u, mid))
  unfolding recover_one
  recover_one-returns outbox_id s db = elim (Bool-cases (is_exhausted s)) [
    | inl x ↦ rw x (_, _, refl)
    | inr x ↦ rw x (_, _, refl)
  ]

  -- The loop raises nothing.
  pub recover_each-returns :
      (uuid4 : ℕ → ℕ) (k : ℕ) (batch : List ImportJob) (db : Db)
      → (u : Unit {0}) × (db' : Db) × (recover_each uuid4 now_db now k batch db ≡ ok (u, db'))
  unfolding recover_each
  recover_each-returns uuid4 k [] db = (_, _, refl)
  recover_each-returns uuid4 k (s ∷ batch) db =
      let (u, mid, first) = recover_one-returns (uuid4 k) s db in
      let (v, db', rest) = recover_each-returns uuid4 (suc k) batch mid in
      (v, db', ground (arith, first, rest))
