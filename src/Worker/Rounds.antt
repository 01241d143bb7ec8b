-- ===== src/Worker/Rounds.antt =====
-- What one transaction of the loops has done when it commits.
use fastapi_shipment_import.Base.{ℕ, ◌≡◌, ◌≢◌, arith, inl, inr, none, some}
use fastapi_shipment_import.Models.{Db}
use fastapi_shipment_import.Session.{
  Failure, integrity_error, stale_import_worker_error, ok, raised, Result-cases,
}
use fastapi_shipment_import.Repositories.Claims.{ClaimedImport}
use fastapi_shipment_import.Repositories.Progress.{has_current_ownership}
use fastapi_shipment_import.Services.Process.{
  require_current_ownership, persist_chunk, race_round, persist_next, chunk_round, drawn_chunk,
}
use fastapi_shipment_import.Validation.Results.{ValidationChunkResult, Validator}

-- The ownership check reads only, and raises nothing but the loss of ownership.
ownership-same :
    (claimed : ClaimedImport) (db : Db) (u : Unit {0}) (mid : Db)
    → require_current_ownership claimed db ≡ ok (u, mid)
    → mid ≡ db
unfolding require_current_ownership has_current_ownership
ownership-same claimed db u mid e = ground arith

ownership-raised :
    (claimed : ClaimedImport) (db : Db) (x : Failure)
    → require_current_ownership claimed db ≡ raised x
    → x ≡ stale_import_worker_error
unfolding require_current_ownership has_current_ownership
ownership-raised claimed db x e = ground arith

module _ {i : ℕ} (v : Validator i) (claimed : ClaimedImport) where
  module _ (p : v.Pending) (current : ValidationChunkResult) (now : ℕ) (db : Db) where
    pub race_round-stores :
        (x : ValidationChunkResult) (db' : Db)
        → race_round v claimed p current now db ≡ ok (some x, db')
        → (x ≡ v.reclassify p current db) × (persist_chunk claimed x now db ≡ ok (tt, db'))
    unfolding race_round
    race_round-stores x db' e = elim (Result-cases (require_current_ownership claimed db)) [
      | inl (r, q) ↦ ground (arith, q, ownership-same claimed db r.0 r.1)
      | inr (y, q) ↦ absurd (ground (arith, q))
    ]

    pub race_round-breaks :
        (db' : Db) → race_round v claimed p current now db ≡ ok (none, db') → db' ≡ db
    unfolding race_round
    race_round-breaks db' e = elim (Result-cases (require_current_ownership claimed db)) [
      | inl (r, q) ↦ ground (arith, q, ownership-same claimed db r.0 r.1)
      | inr (y, q) ↦ absurd (ground (arith, q))
    ]

    -- A round that met a duplicate has dropped a row from the chunk.
    pub race_round-collides :
        race_round v claimed p current now db ≡ raised integrity_error
        → (v.reclassify p current db).success_count ≢ current.success_count
    unfolding race_round
    race_round-collides e = elim (Result-cases (require_current_ownership claimed db)) [
      | inl (r, q) ↦ ground (arith, q, ownership-same claimed db r.0 r.1)
      | inr (y, q) ↦ absurd (ground (arith, q, ownership-raised claimed db y))
    ]

  module _ (p : v.Pending) (now : ℕ) (db : Db) where
    -- A chunk that is processed comes from the generator and is stored.
    pub chunk_round-stores :
        (c : ValidationChunkResult) (p' : v.Pending) (db' : Db)
        → chunk_round v claimed p now db ≡ ok (some (c, p'), db')
        → (v.next_chunk p db ≡ ok (some (c, p'))) × (persist_chunk claimed c now db ≡ ok (tt, db'))
    unfolding chunk_round persist_next
    chunk_round-stores c p' db' e = elim (Result-cases (require_current_ownership claimed db)) [
      | inl (r, q) ↦ ground (arith, q, ownership-same claimed db r.0 r.1)
      | inr (y, q) ↦ absurd (ground (arith, q))
    ]

    -- The loop ends where the generator does.
    pub chunk_round-ends :
        (db' : Db)
        → chunk_round v claimed p now db ≡ ok (none, db')
        → (v.next_chunk p db ≡ ok none) × (db' ≡ db)
    unfolding chunk_round persist_next
    chunk_round-ends db' e = elim (Result-cases (require_current_ownership claimed db)) [
      | inl (r, q) ↦ ground (arith, q, ownership-same claimed db r.0 r.1)
      | inr (y, q) ↦ absurd (ground (arith, q))
    ]

  -- What the generator has yielded when a transaction failed.
  pub drawn_chunk-yielded :
      (p : v.Pending) (db : Db) (c : ValidationChunkResult) (p' : v.Pending)
      → drawn_chunk v claimed p db ≡ some (c, p')
      → v.next_chunk p db ≡ ok (some (c, p'))
  unfolding drawn_chunk
  drawn_chunk-yielded p db c p' e = ground arith
