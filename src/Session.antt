-- ===== src/Session.antt =====
-- A SQLAlchemy session: what runs inside `with session.begin()` and the exceptions that it may raise.
use fastapi_shipment_import.Base.{String, Bool, true, false, ◌≡◌, refl, ap, ◌⊎◌, inl, inr, arith}
use fastapi_shipment_import.Models.{Db}

-- The exceptions that the services tell apart; `sqlalchemy_error` stands for those of SQLAlchemy
-- that are neither an IntegrityError nor an OperationalError, `other_error` for the rest.
pub data Failure : Type 0 where
  integrity_error operational_error sqlalchemy_error os_error value_error other_error : Failure
  stale_import_worker_error : Failure
  -- no exception of the program: a loop of the model was given too little fuel
  fuel_exhausted : Failure
  workbook_structure_error : String → Failure
  retryable_import_processing_error : String → Failure

pub data Result {ℓ} (A : Type ℓ) : Type ℓ where
  ok : A → Result A
  raised : Failure → Result A

abbrev pub Tx : Type 0 → Type 0
Tx A = Db → Result (A × Db)

abbrev pub pure : {A : Type 0} → A → Tx A
pure a db = ok (a, db)

abbrev pub raise : {A : Type 0} → Failure → Tx A
raise e db = raised e

abbrev pub modify : (Db → Db) → Tx (Unit {0})
modify f db = ok (tt, f db)

infixl 5 ◌>>=◌ ◌>>◌
abbrev pub ◌>>=◌ : {A B : Type 0} → Tx A → (A → Tx B) → Tx B
◌>>=◌ m f db = elim (m db) [ ok r ↦ f r.0 r.1 | raised e ↦ raised e ]

abbrev pub ◌>>◌ : {A B : Type 0} → Tx A → Tx B → Tx B
m >> n = m >>= λ _. n

-- `if not done: raise e`
abbrev pub require : Bool → Failure → Tx (Unit {0})
require true e db = ok (tt, db)
require false e db = raised e

pub Result-cases {ℓ} :
    {A : Type ℓ} (r : Result A) → ((a : A) × (r ≡ ok a)) ⊎ ((e : Failure) × (r ≡ raised e))
Result-cases (ok a) = inl (a, refl)
Result-cases (raised e) = inr (e, refl)

-- A block that returns has a first statement that returns.
pub >>=-ok :
    {A B : Type 0} (m : Tx A) (f : A → Tx B) (db : Db) {b : B} {db' : Db}
    → (m >>= f) db ≡ ok (b, db')
    → (a : A) × (mid : Db) × (m db ≡ ok (a, mid)) × (f a mid ≡ ok (b, db'))
>>=-ok m f db e = elim (Result-cases (m db)) [
  | inl (r, q) ↦ (r.0, r.1, q, ground (arith, q))
  | inr (x, q) ↦ absurd (ground (arith, q))
]

-- After a first statement that returned, a block goes on with the rest.
pub >>=-continues :
    {A B : Type 0} (m : Tx A) (f : A → Tx B) (db : Db) (a : A) (mid : Db)
    → m db ≡ ok (a, mid)
    → (m >>= f) db ≡ f a mid
>>=-continues {A} {B} m f db a mid e =
    ap
      (λ (r : Result (A × Db)). elim r as (λ _. Result (B × Db)) [
        | ok r ↦ f r.0 r.1
        | raised e ↦ raised e
      ])
      e
