-- ===== src/Upload/Registry.antt =====
-- The abstract view of an upload: a registry of imports by key and by file.
use fastapi_shipment_import.Base.{
  ℕ, String, ◌≡◌, refl, Bool, true, false, Option, none, some, List, [], ◌∷◌, ◌++◌, map, str_eq,
  if◌then◌else◌, any, find_where, select_where, order_by, insert_in_order, is_some, arith,
  Bool-cases, inl, inr,
}
use fastapi_shipment_import.Models.{Db, ImportJob}
use fastapi_shipment_import.Repositories.Imports.{
  same_key, has_fingerprint, first, newer, snapshot_of, get_snapshot_by_fingerprint,
}

pub record Entry : Type 0 where
  pub id : ℕ
  pub key : Option String
  pub fingerprint : String

abbrev pub entry_of : ImportJob → Entry
entry_of job = record {
  id = job.id;
  key = job.idempotency_key;
  fingerprint = job.idempotency_fingerprint;
}

abbrev pub registry : Db → List Entry
registry db = map entry_of db.import_jobs

pub data Verdict : Type 0 where
  accepted : ℕ → Verdict
  replayed : ℕ → Verdict
  conflicting : Verdict
  duplicated : Verdict

abbrev pub entry_has_key : String → Entry → Bool
entry_has_key key e = same_key e.key (some key)

abbrev pub entry_has_fingerprint : String → Entry → Bool
entry_has_fingerprint fingerprint e = str_eq e.fingerprint fingerprint

abbrev pub by_file : Entry → List Entry → Verdict × List Entry
by_file e entries =
    if any (entry_has_fingerprint e.fingerprint) entries
    then (duplicated, entries)
    else (accepted e.id, entries ++ e ∷ [])

abbrev pub by_found : Entry → List Entry → Option Entry → Verdict × List Entry
by_found e entries none = by_file e entries
by_found e entries (some f) =
    if str_eq f.fingerprint e.fingerprint then (replayed f.id, entries) else (conflicting, entries)

abbrev pub by_key : Entry → List Entry → Option String → Verdict × List Entry
by_key e entries none = by_file e entries
by_key e entries (some key) = by_found e entries (find_where (entry_has_key key) entries)

-- What an upload does: a known key replays its import, or conflicts with another file under it; a
-- known file is a duplicate; all else is a new entry.
unfoldable pub register : Entry → List Entry → Verdict × List Entry
register e entries = by_key e entries e.key

abbrev pub option_map {ℓ κ} : {A : Type ℓ} {B : Type κ} → (A → B) → Option A → Option B
option_map f none = none
option_map f (some a) = some (f a)

-- The lookups of the database, on the registry.
pub find_where-map {ℓ κ} :
    {A : Type ℓ} {B : Type κ} (f : A → B) (q : B → Bool) (p : A → Bool)
    (same : (a : A) → q (f a) ≡ p a) (xs : List A)
    → find_where q (map f xs) ≡ option_map f (find_where p xs)
unfolding find_where
find_where-map f q p same [] = refl
find_where-map f q p same (x ∷ xs) = ground (arith, same x, find_where-map f q p same xs)

pub any-map {ℓ κ} :
    {A : Type ℓ} {B : Type κ} (f : A → B) (q : B → Bool) (p : A → Bool)
    (same : (a : A) → q (f a) ≡ p a) (xs : List A)
    → any q (map f xs) ≡ any p xs
unfolding any
any-map f q p same [] = refl
any-map f q p same (x ∷ xs) = ground (arith, same x, any-map f q p same xs)

is_some-first-insert_in_order {ℓ} :
    {A : Type ℓ} (before : A → A → Bool) (x : A) (xs : List A)
    → is_some (first (insert_in_order before x xs)) ≡ true
unfolding insert_in_order
is_some-first-insert_in_order before x [] = refl
is_some-first-insert_in_order before x (y ∷ ys) = ground arith

is_some-first-order_by {ℓ} :
    {A : Type ℓ} (before : A → A → Bool) (p : A → Bool) (xs : List A)
    → is_some (first (order_by before (select_where p xs))) ≡ any p xs
unfolding select_where order_by any
is_some-first-order_by before p [] = refl
is_some-first-order_by before p (x ∷ xs) = elim (Bool-cases (p x)) [
  | inl t ↦ rw t (is_some-first-insert_in_order before x (order_by before (select_where p xs)))
  | inr f ↦ rw f (is_some-first-order_by before p xs)
]

is_some-snapshot_of : (o : Option ImportJob) → is_some (snapshot_of o) ≡ is_some o
is_some-snapshot_of none = refl
is_some-snapshot_of (some job) = refl

-- A snapshot by fingerprint is found exactly where some import has the fingerprint.
pub is_some-get_snapshot_by_fingerprint :
    (fingerprint : String) (db : Db)
    → is_some (get_snapshot_by_fingerprint fingerprint db)
      ≡ any (has_fingerprint fingerprint) db.import_jobs
unfolding get_snapshot_by_fingerprint
is_some-get_snapshot_by_fingerprint fingerprint db = ground (
  arith,
  is_some-snapshot_of
      (first (order_by newer (select_where (has_fingerprint fingerprint) db.import_jobs))),
  is_some-first-order_by newer (has_fingerprint fingerprint) db.import_jobs,
)

pub find_where-append_fresh {ℓ} :
    {A : Type ℓ} (p : A → Bool) (xs : List A) (x : A)
    → any p xs ≡ false
    → p x ≡ true
    → find_where p (xs ++ x ∷ []) ≡ some x
unfolding find_where any
find_where-append_fresh p [] x h e = ground (arith, e)
find_where-append_fresh p (y ∷ ys) x h e = ground (arith, h, find_where-append_fresh p ys x)
