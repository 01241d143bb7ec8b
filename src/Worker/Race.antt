-- ===== src/Worker/Race.antt =====
-- `_persist_chunk_after_duplicate_race`: it ends, and what it stores is a sound chunk of as many rows.
use fastapi_shipment_import.Base.{
  ℕ, zero, suc, ◌≤◌, ◌<◌, ◌≡◌, ◌≢◌, refl, ◌∙◌, arith, Option, none, some,
}
use fastapi_shipment_import.Models.{Db}
use fastapi_shipment_import.Session.{Failure, integrity_error, fuel_exhausted, Result, ok, raised}
use fastapi_shipment_import.Service.{Env, World, Service, seen, transaction}
use fastapi_shipment_import.Repositories.Claims.{ClaimedImport}
use fastapi_shipment_import.Services.Process.{
  Counts, add_counts, after_race_round, race_round, persist_chunk,
  persist_chunk_after_duplicate_race,
}
use fastapi_shipment_import.Validation.Results.{ValidationChunkResult, Validator, ChunkIsSound}
use fastapi_shipment_import.Invariants.Sound.{IsSound}
use fastapi_shipment_import.Invariants.Chunks.{persist_chunk-IsSound}
use fastapi_shipment_import.Worker.Rely.{
  Holds, Respects, transaction-ok, transaction-raised, transaction-integrity, persist_chunk-Holds,
}
use fastapi_shipment_import.Worker.Fuel.{transaction-NoFuel, race_round-NoFuel}
use fastapi_shipment_import.Worker.Rounds.{
  race_round-stores, race_round-breaks, race_round-collides,
}

module _ (claimed : ClaimedImport) where
  -- Between its transactions: the database is sound, and as long as the worker owns the import its
  -- counters are the worker's.
  pub record Inv (n : Counts) (db : Db) : Type 0 where
    pub sound : IsSound db
    pub mine : Holds claimed.import_id claimed.processing_token n db.import_jobs

  pub seen-Inv :
      (env : Env) (n : Counts) (w : World)
      → Respects env claimed.import_id claimed.processing_token
      → Inv n w.db
      → Inv n (seen env w)
  seen-Inv env n w r h = record {
    sound = r.sound w.ticks w.db h.sound;
    mine = r.mine w.ticks w.db n h.mine;
  }

  pub persist_chunk-Inv :
      (n : Counts) (c : ValidationChunkResult) (now : ℕ) (db db' : Db)
      → ChunkIsSound claimed.import_id c
      → persist_chunk claimed c now db ≡ ok (tt, db')
      → Inv n db
      → Inv (add_counts n c) db'
  persist_chunk-Inv n c now db db' good e h = record {
    sound = persist_chunk-IsSound claimed c now good db tt db' h.sound e;
    mine = persist_chunk-Holds claimed n c now db tt db' h.mine e;
  }

  abbrev pub RaceOutcome : Counts → ℕ → Result ValidationChunkResult → World → Type 0
  RaceOutcome n total (ok c) w =
      ChunkIsSound claimed.import_id c × (c.total_rows ≡ total) × Inv (add_counts n c) w.db
  RaceOutcome n total (raised e) w = IsSound w.db × (e ≢ fuel_exhausted)

  after_race_round-outcome :
      (n : Counts) (total : ℕ) (again : Service ValidationChunkResult)
      (r : Result (Option ValidationChunkResult)) (w : World)
      → ((c : ValidationChunkResult) → r ≡ ok (some c) → RaceOutcome n total (ok c) w)
      → (r ≡ ok none → IsSound w.db)
      → (r ≡ raised integrity_error → RaceOutcome n total (again w).0 (again w).1)
      → ((e : Failure) → r ≡ raised e → IsSound w.db)
      → r ≢ raised fuel_exhausted
      → RaceOutcome n total (after_race_round again r w).0 (after_race_round again r w).1
  after_race_round-outcome n total again (ok none) w stored broke collided kept fuel =
      (broke refl, λ e. cc)
  after_race_round-outcome n total again (ok (some c)) w stored broke collided kept fuel =
      stored c refl
  after_race_round-outcome n total again (raised integrity_error) w stored broke collided kept
        fuel =
      collided refl
  after_race_round-outcome n total again (raised e) w stored broke collided kept fuel =
      (kept _ refl, λ x. fuel (ground (arith, x)))

  module _ (env : Env) (v : Validator claimed.import_id)
      (rely : Respects env claimed.import_id claimed.processing_token) where
    -- With a row validator that keeps the laws of Validator and other processes that keep the
    -- database sound and write nothing under the worker's token between its transactions, the retry
    -- loop of _persist_chunk_after_duplicate_race, started on a sound chunk where the worker's
    -- counters hold and with more rounds than the chunk has successes, ends without using them up:
    -- it returns a sound chunk of as many rows whose shipments and counts are stored, or raises in
    -- a sound database.
    pub race-outcome :
        (fuel : ℕ) (p : v.Pending) (current : ValidationChunkResult) (n : Counts) (w : World)
        (total : ℕ)
        → current.total_rows ≡ total
        → ChunkIsSound claimed.import_id current
        → current.success_count < fuel
        → Inv n w.db
        → RaceOutcome n total
            (persist_chunk_after_duplicate_race env v claimed fuel p current w).0
            (persist_chunk_after_duplicate_race env v claimed fuel p current w).1
    unfolding persist_chunk_after_duplicate_race
    race-outcome zero p current n w total of_total good enough h = absurd (omega arith)
    race-outcome (suc fuel) p current n w total of_total good enough h =
        after_race_round-outcome n total
          (persist_chunk_after_duplicate_race env v claimed fuel p
            (v.reclassify p current (seen env w)))
          (transaction env (race_round v claimed p current) w).0
          (transaction env (race_round v claimed p current) w).1
          (λ c e.
            let (of, done) =
              race_round-stores v claimed p current (env.clock w.ticks) (seen env w) c _
                (transaction-ok env (race_round v claimed p current) w (some c) e) in
            (
              rw of fixed.0,
              rw of (fixed.1 ∙ of_total),
              persist_chunk-Inv n c (env.clock w.ticks) (seen env w) _ (rw of fixed.0) done here,
            ))
          (λ e.
            let same =
              race_round-breaks v claimed p current (env.clock w.ticks) (seen env w) _
                (transaction-ok env (race_round v claimed p current) w none e) in
            rw same here.sound)
          (λ e.
            let less =
              race_round-collides v claimed p current (env.clock w.ticks) (seen env w)
                (transaction-integrity env (race_round v claimed p current) w e) in
            let same =
              transaction-raised env (race_round v claimed p current) w integrity_error e in
            race-outcome fuel p (v.reclassify p current (seen env w)) n
              (transaction env (race_round v claimed p current) w).1 total (fixed.1 ∙ of_total)
              fixed.0 (omega (arith, less, fixed.2)) (rw same here))
          (λ x e. rw (transaction-raised env (race_round v claimed p current) w x e) here.sound)
          (transaction-NoFuel env (race_round v claimed p current) w
            (race_round-NoFuel v claimed p current))
      where
        here : Inv n (seen env w)
        here = seen-Inv env n w rely h

        fixed :
            ChunkIsSound claimed.import_id (v.reclassify p current (seen env w))
            × ((v.reclassify p current (seen env w)).total_rows ≡ current.total_rows)
            × ((v.reclassify p current (seen env w)).success_count ≤ current.success_count)
        fixed = v.reclassify-IsSound p current (seen env w) good
