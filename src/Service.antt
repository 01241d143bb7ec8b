-- ===== src/Service.antt =====
-- Service methods: sequences of transactions in a changing database, with `try` and `raise`.
use fastapi_shipment_import.Base.{ℕ, suc, Bool, true, false, if◌then◌else◌, ◌≡◌, refl}
use fastapi_shipment_import.Models.{Db}
use fastapi_shipment_import.Session.{Failure, operational_error, Result, ok, raised, Tx}

-- What a service meets between its transactions: `interfere k` is what the other processes commit
-- before its transaction number k, `fault k` says that the connection drops in it (an
-- OperationalError), `lost k` that its COMMIT fails and rolls it back (the same error, after the body
-- has run), `clock k` is the time at which it runs.
pub record Env : Type 0 where
  pub interfere : ℕ → Db → Db
  pub fault : ℕ → Bool
  pub lost : ℕ → Bool
  pub clock : ℕ → ℕ

pub record World : Type 0 where
  pub db : Db
  pub ticks : ℕ

abbrev pub Service : Type 0 → Type 0
Service A = World → Result A × World

abbrev pub pure : {A : Type 0} → A → Service A
pure a w = (ok a, w)

abbrev pub raise : {A : Type 0} → Failure → Service A
raise e w = (raised e, w)

abbrev pub continue : {A B : Type 0} → Result A → (A → Service B) → Service B
continue (ok a) f w = f a w
continue (raised e) f w = (raised e, w)

infixl 5 ◌>>=◌ ◌>>◌
abbrev pub ◌>>=◌ : {A B : Type 0} → Service A → (A → Service B) → Service B
◌>>=◌ m f w = continue (m w).0 f (m w).1

abbrev pub ◌>>◌ : {A B : Type 0} → Service A → Service B → Service B
m >> n = m >>= λ _. n

abbrev pub handled : {A : Type 0} → Result A → (Failure → Service A) → Service A
handled (ok a) handler w = (ok a, w)
handled (raised e) handler w = handler e w

-- `try: body except e: handler e`
abbrev pub catching : {A : Type 0} → Service A → (Failure → Service A) → Service A
catching body handler w = handled (body w).0 handler (body w).1

-- A statement about the result and the state that a block leaves, from those of its parts.
module _ {A B : Type 0} (Out : Result B → World → Type 0) where
  pub continue-outcome :
      (r : Result A) (f : A → Service B) (w : World)
      → ((a : A) → r ≡ ok a → Out (f a w).0 (f a w).1)
      → ((e : Failure) → r ≡ raised e → Out (raised e) w)
      → Out (continue r f w).0 (continue r f w).1
  continue-outcome (ok a) f w returned stopped = returned a refl
  continue-outcome (raised e) f w returned stopped = stopped e refl

pub handled-outcome :
    {A : Type 0} (Out : Result A → World → Type 0) (r : Result A) (handler : Failure → Service A)
    (w : World)
    → ((a : A) → r ≡ ok a → Out (ok a) w)
    → ((e : Failure) → r ≡ raised e → Out (handler e w).0 (handler e w).1)
    → Out (handled r handler w).0 (handled r handler w).1
handled-outcome Out (ok a) handler w returned caught = returned a refl
handled-outcome Out (raised e) handler w returned caught = caught e refl

-- The end of a transaction: its COMMIT may fail, and a body that raised is rolled back.
abbrev pub ended : {A : Type 0} → Bool → Result (A × Db) → Db → Result A × Db
ended lost (raised e) db = (raised e, db)
ended true (ok r) db = (raised operational_error, db)
ended false (ok r) db = (ok r.0, r.1)

module _ (env : Env) where
  -- The database as the next transaction of the service finds it.
  abbrev pub seen : World → Db
  seen w = env.interfere w.ticks w.db

  -- `with session.begin(): body`, where `body` is given the transaction's time. A dropped connection
  -- rolls back whatever the body did.
  unfoldable pub transaction : {A : Type 0} → (ℕ → Tx A) → Service A
  transaction body w =
      if env.fault w.ticks
      then (raised operational_error, record { db = seen w; ticks = suc w.ticks })
      else (
        (ended (env.lost w.ticks) (body (env.clock w.ticks) (seen w)) (seen w)).0,
        record {
          db = (ended (env.lost w.ticks) (body (env.clock w.ticks) (seen w)) (seen w)).1;
          ticks = suc w.ticks;
        },
      )
