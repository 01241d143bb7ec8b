-- ===== src/Invariants/Keeps.antt =====
-- Transactions that take one property of the database to another, when they commit.
use fastapi_shipment_import.Base.{true, false, ◌≡◌, Bool, arith}
use fastapi_shipment_import.Models.{Db}
use fastapi_shipment_import.Session.{Tx, ok, ◌>>=◌, >>=-ok, pure, Failure, require}

abbrev pub Keeps : {A : Type 0} → (Db → Type 0) → (Db → Type 0) → Tx A → Type 0
Keeps {A} P Q m = (db : Db) (a : A) (db' : Db) → P db → m db ≡ ok (a, db') → Q db'

pub Keeps-bind :
    {A B : Type 0} (P Q R : Db → Type 0) (m : Tx A) (f : A → Tx B)
    → Keeps P Q m
    → ((a : A) → Keeps Q R (f a))
    → Keeps P R (m >>= f)
Keeps-bind P Q R m f km kf db b db' h e =
    let (a, mid, first, rest) = >>=-ok m f db e in kf a mid b db' (km db a mid h first) rest

pub Keeps-pure : {A : Type 0} (P : Db → Type 0) (a : A) → Keeps P P (pure a)
Keeps-pure P a db b db' h e = ground (arith, h)

pub Keeps-require : (P : Db → Type 0) (done : Bool) (x : Failure) → Keeps P P (require done x)
Keeps-require P true x db b db' h e = ground (arith, h)
Keeps-require P false x db b db' h e = cc
