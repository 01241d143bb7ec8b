-- ===== src/Invariants/Claiming.antt =====
-- What a claim does: whom it goes to, and that no second one follows it.
use fastapi_shipment_import.Base.{
  ℕ, String, ◌≡◌, refl, arith, Bool, true, false, not, ◌&&◌, none, some, List, [], ◌∷◌,
  Option-cases, Bool-cases, inl, inr, find_where, update_where,
}
use fastapi_shipment_import.Models.{Db}
use fastapi_shipment_import.Session.{ok}
use fastapi_shipment_import.Repositories.Claims.{
  ClaimedImport, claimable, claimed_job, claim_pending_import,
}
use fastapi_shipment_import.Invariants.Updates.{with_jobs}

find_where-update_where-none {ℓ} :
    {A : Type ℓ} (p q : A → Bool) (f : A → A) (xs : List A)
    → ((x : A) → q x ≡ true → p x ≡ true)
    → ((x : A) → p (f x) ≡ false)
    → find_where q (update_where p f xs) ≡ none
unfolding find_where update_where
find_where-update_where-none p q f [] narrow gone = refl
find_where-update_where-none p q f (x ∷ xs) narrow gone = elim (Bool-cases (p x)) [
  | inl t ↦ elim (Bool-cases (q (f x))) [
    | inl u ↦ absurd (ground (arith, narrow (f x) u, gone x))
    | inr n ↦ ground (arith, t, n, find_where-update_where-none p q f xs narrow gone)
  ]
  | inr miss ↦ elim (Bool-cases (q x)) [
    | inl u ↦ absurd (ground (arith, narrow x u, miss))
    | inr n ↦ ground (arith, miss, n, find_where-update_where-none p q f xs narrow gone)
  ]
]

-- After a claim that returned an import, any later claim of the same import on the database it
-- left, by whatever worker and with whatever rows locked, returns None and changes nothing.
pub claim_pending_import-excludes :
    (skipped skipped' : ℕ → Bool) (now now' i token token' : ℕ) (worker worker' : String) (db : Db)
    (c : ClaimedImport) (db' : Db)
    → claim_pending_import skipped now i token worker db ≡ ok (some c, db')
    → claim_pending_import skipped' now' i token' worker' db' ≡ ok (none, db')
unfolding claim_pending_import
claim_pending_import-excludes skipped skipped' now now' i token token' worker worker' db c db' e =
    elim (Option-cases
      (find_where (λ job. claimable i job && not (skipped job.id)) db.import_jobs)) [
        | inl q ↦ absurd (ground (arith, e, q))
        | inr (job, q) ↦ elim (Option-cases (find_where (claimable i) db.import_jobs)) [
          | inl r ↦ absurd (ground (arith, e, q, r))
          | inr (row, r) ↦
              let left : db' ≡ with_jobs (claimable i) (claimed_job now token worker) db =
                ground (arith, e, q, r) in
              let gone =
                find_where-update_where-none (claimable i)
                  (λ job. claimable i job && not (skipped' job.id)) (claimed_job now token worker)
                  db.import_jobs (λ x h. ground (arith, h)) (λ x. ground arith) in
              rw left (ground (arith, gone))
        ]
      ]
