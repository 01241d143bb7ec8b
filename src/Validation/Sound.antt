-- ===== src/Validation/Sound.antt =====
-- `RowValidationService` is what ProcessImportService needs: its chunks are sound, and the generator
-- ends after as many as the parser yields.
use fastapi_shipment_import.Base.{
  ℕ, suc, ◌+◌, ◌≤◌, String, ◌≡◌, ◌≢◌, refl, ap, subst, arith, Option, none, some, List, [], ◌∷◌,
  ◌++◌, map, length, length-append, All, All-append, select_where, Bool-cases, inl, inr, Bool, not,
}
use fastapi_shipment_import.Models.{Db, Shipment}
use fastapi_shipment_import.Session.{Failure, ok, raised, Result-cases, fuel_exhausted, other_error}
use fastapi_shipment_import.Repositories.Shipments.{contains, find_existing_shipment_codes}
use fastapi_shipment_import.Domain.{ValidationIssue}
use fastapi_shipment_import.Validation.Results.{
  ValidatedShipmentRow, ValidationChunkResult, ChunkIsSound,
}
use fastapi_shipment_import.Validation.Cells.{Outside, ParsedWorkbookRow}
use fastapi_shipment_import.Validation.Rows.{PreparedRow, ShipmentRow, prepare_row}
use fastapi_shipment_import.Validation.Chunks

pub length-map {ℓ κ} :
    {A : Type ℓ} {B : Type κ} (f : A → B) (xs : List A) → length (map f xs) ≡ length xs
length-map f [] = refl
length-map f (x ∷ xs) = omega (arith, length-map f xs)

pub map-append {ℓ κ} :
    {A : Type ℓ} {B : Type κ} (f : A → B) (xs ys : List A) → map f (xs ++ ys) ≡ map f xs ++ map f ys
map-append f [] ys = refl
map-append f (x ∷ xs) ys = rw (map-append f xs ys) refl

pub length-select_where-le {ℓ} :
    {A : Type ℓ} (p : A → Bool) (xs : List A) → length (select_where p xs) ≤ length xs
unfolding select_where
length-select_where-le p [] = omega arith
length-select_where-le p (x ∷ xs) = ground (arith, length-select_where-le p xs)

abbrev shipment_of : ValidatedShipmentRow → Shipment
shipment_of r = r.shipment

-- Each shipment that a kept row has is of the import, where each shipment of a row was.
All-retained :
    (P : Shipment → Type 0) (p : ValidatedShipmentRow → Bool) (rows : List ValidatedShipmentRow)
    → All P (map shipment_of rows)
    → All P (map shipment_of (select_where p rows))
unfolding select_where
All-retained P p [] h = tt
All-retained P p (r ∷ rs) h = elim (Bool-cases (p r)) [
  | inl e ↦ rw e (h.0, All-retained P p rs h.1)
  | inr e ↦ rw e (All-retained P p rs h.1)
]

-- What the loop of `validate_chunk` has built from `n` rows.
record StateIsSound (import_id n : ℕ) (s : Chunks.ChunkState) : Type 0 where
  pub settled : length s.shipments + s.failed_count ≡ n
  pub explained : s.failed_count ≤ length s.import_errors
  pub of_rows : s.shipments ≡ map shipment_of s.valid_rows
  pub of_import : All (λ (x : Shipment). x.import_id ≡ import_id) s.shipments

-- Each row is kept or has an error.
retained-conflict_errors :
    (o : Outside) (import_id : ℕ) (existing : List String) (drawn : ℕ)
    (rows : List ValidatedShipmentRow)
    → length (Chunks.retained existing rows)
        + length (Chunks.conflict_errors o import_id existing drawn rows)
      ≡ length rows
unfolding Chunks.retained Chunks.conflict_errors Chunks.build_import_errors select_where
retained-conflict_errors o import_id existing drawn [] = refl
retained-conflict_errors o import_id existing drawn (r ∷ rs) = ground (
  arith,
  retained-conflict_errors o import_id existing drawn rs,
  retained-conflict_errors o import_id existing (suc drawn) rs,
)

module _ (o : Outside) (import_id : ℕ) where
  settle_row-IsSound :
      (p : PreparedRow) (issues : List ValidationIssue) (parsed : Option ShipmentRow)
      (s s' : Chunks.ChunkState) (n : ℕ)
      → StateIsSound import_id n s
      → Chunks.settle_row o import_id p issues parsed s ≡ ok s'
      → StateIsSound import_id (suc n) s'
  unfolding Chunks.build_import_errors
  settle_row-IsSound p (i ∷ is) parsed s s' n h e = record {
    settled = ground (arith, e, h.settled);
    explained = ground (
      arith,
      e,
      h.explained,
      length-append s.import_errors
          (Chunks.build_import_errors o import_id s.drawn p.row.row_number p.row.values (i ∷ is)),
    );
    of_rows = ground (arith, e, h.of_rows);
    of_import = ground (arith, e, h.of_import);
  }
  settle_row-IsSound p [] none s s' n h e = cc
  settle_row-IsSound p [] (some r) s s' n h e =
      let new = Chunks.build_shipment o import_id s.drawn r in
      let row : ValidatedShipmentRow = record {
        shipment = new;
        row_number = p.row.row_number;
        raw_data = p.row.values;
      } in
      record {
        settled = ground (arith, e, h.settled, length-append s.shipments (new ∷ []));
        explained = ground (arith, e, h.explained);
        of_rows = ground (arith, e, h.of_rows, map-append shipment_of s.valid_rows (row ∷ []));
        of_import =
            let is : s'.shipments ≡ s.shipments ++ new ∷ [] = ground (arith, e) in
            rw is (
              All-append (λ (x : Shipment). x.import_id ≡ import_id) s.shipments (new ∷ [])
                h.of_import (refl, tt));
      }

  settle_row-raises :
      (p : PreparedRow) (issues : List ValidationIssue) (parsed : Option ShipmentRow)
      (s : Chunks.ChunkState) (x : Failure)
      → Chunks.settle_row o import_id p issues parsed s ≡ raised x
      → x ≡ other_error
  settle_row-raises p (i ∷ is) parsed s x e = cc
  settle_row-raises p [] none s x e = ground arith
  settle_row-raises p [] (some r) s x e = cc

  validate_rows-IsSound :
      (seen existing : List String) (ps : List PreparedRow) (s s' : Chunks.ChunkState) (n : ℕ)
      → StateIsSound import_id n s
      → Chunks.validate_rows o import_id seen existing ps s ≡ ok s'
      → StateIsSound import_id (n + length ps) s'
  unfolding Chunks.validate_rows Chunks.validate_row
  validate_rows-IsSound seen existing [] s s' n h e =
      let same : n + 0 ≡ n = omega arith in rw same (ground (arith, e, h))
  validate_rows-IsSound seen existing (p ∷ ps) s s' n h e =
      elim (Result-cases (Chunks.validate_row o import_id seen existing p s)) [
        | inl (mid, q) ↦
            let same : n + suc (length ps) ≡ suc n + length ps = omega arith in
            rw same (
              validate_rows-IsSound seen existing ps mid s' (suc n)
                (settle_row-IsSound p _ _ _ mid n
                  (record {
                    settled = h.settled;
                    explained = h.explained;
                    of_rows = h.of_rows;
                    of_import = h.of_import;
                  })
                  q)
                (ground (arith, e, q)))
        | inr (x, q) ↦ absurd (ground (arith, e, q))
      ]

  -- The only exception of the loop is that of the assertion.
  validate_rows-raises :
      (seen existing : List String) (ps : List PreparedRow) (s : Chunks.ChunkState) (x : Failure)
      → Chunks.validate_rows o import_id seen existing ps s ≡ raised x
      → x ≡ other_error
  unfolding Chunks.validate_rows Chunks.validate_row
  validate_rows-raises seen existing [] s x e = cc
  validate_rows-raises seen existing (p ∷ ps) s x e =
      elim (Result-cases (Chunks.validate_row o import_id seen existing p s)) [
        | inl (mid, q) ↦ validate_rows-raises seen existing ps mid x (ground (arith, e, q))
        | inr (y, q) ↦ ground (arith, e, q, settle_row-raises p _ _ _ y q)
      ]

  pub validate_chunk-IsSound :
      (rows : List ParsedWorkbookRow) (seen : List String) (drawn : ℕ) (db : Db)
      (a : Chunks.ChunkAnswer)
      → Chunks.validate_chunk o import_id rows seen drawn db ≡ ok a
      → ChunkIsSound import_id a.chunk × (a.chunk.total_rows ≡ length rows)
  unfolding Chunks.validate_chunk
  validate_chunk-IsSound rows seen drawn db a e =
      let prepared = map (prepare_row o) rows in
      let existing =
        find_existing_shipment_codes (Chunks.unseen_codes (Chunks.row_codes prepared) seen) db in
      elim (Result-cases
        (Chunks.validate_rows o import_id seen existing prepared (Chunks.start_state drawn))) [
          | inl (s, q) ↦
              let done =
                validate_rows-IsSound seen existing prepared (Chunks.start_state drawn) s 0
                  (record {
                    settled = refl;
                    explained = omega arith;
                    of_rows = refl;
                    of_import = tt;
                  })
                  q in
              let all = length-map (prepare_row o) rows in
              let is : a.chunk ≡ Chunks.chunk_result (length rows) s = ground (arith, e, q) in
              rw is (
                record {
                  counted = refl;
                  split = omega (arith, done.settled, all);
                  processed = omega (arith, done.settled, all);
                  explained = done.explained;
                  of_rows = done.of_rows;
                  of_import = done.of_import;
                },
                refl,
              )
          | inr (x, q) ↦ absurd (ground (arith, e, q))
        ]

  pub validate_chunk-fuel :
      (rows : List ParsedWorkbookRow) (seen : List String) (drawn : ℕ) (db : Db)
      → Chunks.validate_chunk o import_id rows seen drawn db ≢ raised fuel_exhausted
  unfolding Chunks.validate_chunk
  validate_chunk-fuel rows seen drawn db e =
      let prepared = map (prepare_row o) rows in
      let existing =
        find_existing_shipment_codes (Chunks.unseen_codes (Chunks.row_codes prepared) seen) db in
      elim (Result-cases
        (Chunks.validate_rows o import_id seen existing prepared (Chunks.start_state drawn))) [
          | inl (s, q) ↦ absurd (ground (arith, e, q))
          | inr (x, q) ↦
              let only =
                validate_rows-raises seen existing prepared (Chunks.start_state drawn) x q in
              absurd (ground (arith, e, q, only))
        ]

  -- The rows that a correction keeps make a chunk of the same rows.
  pub with_conflicts-IsSound :
      (existing : List String) (drawn : ℕ) (c : ValidationChunkResult)
      → ChunkIsSound import_id c
      → ChunkIsSound import_id (Chunks.with_conflicts o import_id existing drawn c)
        × ((Chunks.with_conflicts o import_id existing drawn c).total_rows ≡ c.total_rows)
        × ((Chunks.with_conflicts o import_id existing drawn c).success_count ≤ c.success_count)
  unfolding Chunks.retained
  with_conflicts-IsSound [] drawn c h = (h, refl, omega arith)
  with_conflicts-IsSound (x ∷ xs) drawn c h =
      let keep : ValidatedShipmentRow → Bool =
        λ r. not (contains (x ∷ xs) r.shipment.shipment_code) in
      let fewer = length-select_where-le keep c.valid_rows in
      let all = length-map shipment_of c.valid_rows in
      let left = retained-conflict_errors o import_id (x ∷ xs) drawn c.valid_rows in
      let more =
        length-append c.import_errors
          (Chunks.conflict_errors o import_id (x ∷ xs) drawn c.valid_rows) in
      let kept = length-map shipment_of (select_where keep c.valid_rows) in
      let stored : c.success_count ≡ length c.valid_rows =
        ground (arith, h.counted, ap (λ (ss : List Shipment). length ss) h.of_rows, all) in
      (
        record {
          counted = omega (arith, kept);
          split = omega (arith, h.split, stored, fewer);
          processed = h.processed;
          explained = omega (arith, h.explained, stored, left, more);
          of_rows = refl;
          of_import =
              All-retained (λ x. x.import_id ≡ import_id) keep c.valid_rows
                (subst (All (λ (x : Shipment). x.import_id ≡ import_id)) h.of_rows h.of_import);
        },
        refl,
        omega (arith, stored, fewer),
      )
