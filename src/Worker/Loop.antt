-- ===== src/Worker/Loop.antt =====
-- `_process_next_chunk` and the loop of `run`: no row is lost or counted twice, whatever the others do.
use fastapi_shipment_import.Base.{suc, ◌+◌, ◌<◌, ◌≡◌, ◌≢◌, refl, arith, Option, none, some}
use fastapi_shipment_import.Models.{Db}
use fastapi_shipment_import.Session.{Failure, integrity_error, fuel_exhausted, Result, ok, raised}
use fastapi_shipment_import.Service.{Env, World, Service, seen, transaction}
use fastapi_shipment_import.Repositories.Claims.{ClaimedImport}
use fastapi_shipment_import.Services.Process.{
  Counts, add_counts, after_chunk_round, after_race, chunk_round, drawn_chunk, retry_drawn,
  process_next_chunk, persist_chunk_after_duplicate_race,
}
use fastapi_shipment_import.Validation.Results.{ValidationChunkResult, Validator, ChunkIsSound}
use fastapi_shipment_import.Invariants.Sound.{IsSound}
use fastapi_shipment_import.Worker.Rely.{Respects, transaction-ok, transaction-raised}
use fastapi_shipment_import.Worker.Fuel.{transaction-NoFuel, chunk_round-NoFuel}
use fastapi_shipment_import.Worker.Rounds.{
  chunk_round-stores, chunk_round-ends, drawn_chunk-yielded,
}
use fastapi_shipment_import.Worker.Race.{
  Inv, seen-Inv, persist_chunk-Inv, RaceOutcome, race-outcome,
}

module _ (claimed : ClaimedImport) (v : Validator claimed.import_id) where
  -- A chunk adds its counts to those before, or the generator has ended, or the database is sound.
  abbrev pub ChunkOutcome :
      Counts → v.Pending → Result (Option (ValidationChunkResult × v.Pending)) → World → Type 0
  ChunkOutcome n p (ok none) w = Inv claimed n w.db × (v.rows p ≡ 0)
  ChunkOutcome n p (ok (some (c, p'))) w =
      ChunkIsSound claimed.import_id c
      × (v.remaining p' < v.remaining p)
      × (v.rows p ≡ c.total_rows + v.rows p')
      × Inv claimed (add_counts n c) w.db
  ChunkOutcome n p (raised e) w = IsSound w.db × (e ≢ fuel_exhausted)

  after_chunk_round-outcome :
      (n : Counts) (p : v.Pending) (retry : Service (Option (ValidationChunkResult × v.Pending)))
      (r : Result (Option (ValidationChunkResult × v.Pending))) (w : World)
      → (r ≡ ok none → ChunkOutcome n p (ok none) w)
      → ((c : ValidationChunkResult) (p' : v.Pending)
          → r ≡ ok (some (c, p'))
          → ChunkOutcome n p (ok (some (c, p'))) w)
      → (r ≡ raised integrity_error → ChunkOutcome n p (retry w).0 (retry w).1)
      → ((e : Failure) → r ≡ raised e → IsSound w.db)
      → r ≢ raised fuel_exhausted
      → ChunkOutcome n p (after_chunk_round retry r w).0 (after_chunk_round retry r w).1
  after_chunk_round-outcome n p retry (ok none) w ended stored collided kept fuel = ended refl
  after_chunk_round-outcome n p retry (ok (some (c, p'))) w ended stored collided kept fuel =
      stored c p' refl
  after_chunk_round-outcome n p retry (raised integrity_error) w ended stored collided kept fuel =
      collided refl
  after_chunk_round-outcome n p retry (raised e) w ended stored collided kept fuel =
      (kept _ refl, λ x. fuel (ground (arith, x)))

  after_race-outcome :
      (n : Counts) (p : v.Pending) (c : ValidationChunkResult) (p' : v.Pending)
      (r : Result ValidationChunkResult) (w : World)
      → v.remaining p' < v.remaining p
      → v.rows p ≡ c.total_rows + v.rows p'
      → RaceOutcome claimed n c.total_rows r w
      → ChunkOutcome n p (after_race p' r w).0 (after_race p' r w).1
  after_race-outcome n p c p' (ok x) w less rows h = (h.0, less, omega (arith, rows, h.1), h.2)
  after_race-outcome n p c p' (raised e) w less rows h = h

  module _ (env : Env) (rely : Respects env claimed.import_id claimed.processing_token) where
    retry_drawn-outcome :
        (n : Counts) (p : v.Pending) (db : Db) (drawn : Option (ValidationChunkResult × v.Pending))
        (w : World)
        → drawn_chunk v claimed p db ≡ drawn
        → Inv claimed n w.db
        → ChunkOutcome n p
            (retry_drawn env v claimed drawn w).0
            (retry_drawn env v claimed drawn w).1
    unfolding retry_drawn
    retry_drawn-outcome n p db none w e h = (h.sound, λ x. cc)
    retry_drawn-outcome n p db (some (c, p')) w e h =
        let (good, less, rows) =
          v.next_chunk-IsSound p db c p' (drawn_chunk-yielded v claimed p db c p' e) in
        let raced =
          race-outcome claimed env v rely (suc c.success_count) p' c n w c.total_rows refl good
            (omega arith) h in
        after_race-outcome n p c p'
          (persist_chunk_after_duplicate_race env v claimed (suc c.success_count) p' c w).0
          (persist_chunk_after_duplicate_race env v claimed (suc c.success_count) p' c w).1 less
          rows raced

    -- With a row validator that keeps the laws of Validator and other processes that keep the
    -- database sound and write nothing under the worker's token between its transactions, and where
    -- the worker's counters hold, one call of _process_next_chunk either finds no rows left; or
    -- stores a sound chunk of the next rows, its counts added to the worker's, with fewer chunks
    -- left; or raises an exception of the program in a sound database.
    pub process_next_chunk-outcome :
        (n : Counts) (p : v.Pending) (w : World)
        → Inv claimed n w.db
        → ChunkOutcome n p
            (process_next_chunk env v claimed p w).0
            (process_next_chunk env v claimed p w).1
    unfolding process_next_chunk
    process_next_chunk-outcome n p w h =
        let body = chunk_round v claimed p in
        let now = env.clock w.ticks in
        let db = seen env w in
        after_chunk_round-outcome n p
          (retry_drawn env v claimed (drawn_chunk v claimed p (seen env w)))
          (transaction env (chunk_round v claimed p) w).0
          (transaction env (chunk_round v claimed p) w).1
          (λ e.
            let (ended, same) =
              chunk_round-ends v claimed p now db _ (transaction-ok env body w none e) in
            (rw same here, v.next_chunk-none p db ended))
          (λ c p' e.
            let (yielded, done) =
              chunk_round-stores v claimed p now db c p' _
                (transaction-ok env body w (some (c, p')) e) in
            let (good, less, rows) = v.next_chunk-IsSound p db c p' yielded in
            (good, less, rows, persist_chunk-Inv claimed n c now db _ good done here))
          (λ e.
            retry_drawn-outcome n p db (drawn_chunk v claimed p db) (transaction env body w).1 refl
              (rw (transaction-raised env body w integrity_error e) here))
          (λ x e. rw (transaction-raised env body w x e) here.sound)
          (transaction-NoFuel env body w (chunk_round-NoFuel v claimed p))
      where
        here : Inv claimed n (seen env w)
        here = seen-Inv claimed env n w rely h
