-- ===== src/Repositories/ImportErrors.antt =====
-- app/imports/repositories/import_error_repository.py
use fastapi_shipment_import.Base.{
  ℕ, String, Bool, not, ◌&&◌, ◌||◌, List, [], ◌∷◌, ◌++◌, map, ◌==◌, leb, ltb, if◌then◌else◌,
  text_length, any, select_where, delete_where, count_where, take, drop, order_by, in_bigint,
}
use fastapi_shipment_import.Models.{Db, ImportError, ImportJob}
use fastapi_shipment_import.Session.{
  Tx, Result, ok, raised, integrity_error, sqlalchemy_error, ◌>>◌, pure,
}

abbrev pub error_in_import : ℕ → ImportError → Bool
error_in_import import_id e = e.import_id == import_id

unfoldable pub insert_import_error : ℕ → ImportError → Tx (Unit {0})
unfolding text_length
insert_import_error now e db =
    if not (leb (text_length e.field) 255)
    then raised sqlalchemy_error
    else if any (λ (job : ImportJob). job.id == e.import_id) db.import_jobs
    then ok
        (tt, record db { import_errors = db.import_errors ++ record e { created_at = now } ∷ [] })
    else raised integrity_error

unfoldable pub bulk_insert : ℕ → List ImportError → Tx (Unit {0})
bulk_insert now [] = pure tt
bulk_insert now (e ∷ es) = insert_import_error now e >> bulk_insert now es

unfoldable pub delete_by_import_id : ℕ → Tx ℕ
delete_by_import_id import_id db = ok (
  count_where (error_in_import import_id) db.import_errors,
  record db { import_errors = delete_where (error_in_import import_id) db.import_errors },
)

-- ORDER BY row_number, id
abbrev pub listed_before : ImportError → ImportError → Bool
listed_before a b =
    ltb a.row_number b.row_number || ((a.row_number == b.row_number) && leb a.id b.id)

-- app/imports/dto.py
pub record ImportErrorReadModel : Type 0 where
  pub row_number : ℕ
  pub field : String
  pub error : String

pub record ImportErrorPage : Type 0 where
  pub items : List ImportErrorReadModel
  pub total_items : ℕ

abbrev pub read_error : ImportError → ImportErrorReadModel
read_error e = record { row_number = e.row_number; field = e.field; error = e.error }

-- The count and the rows are two statements: each sees what is committed before it. LIMIT and OFFSET
-- are BIGINTs.
unfoldable pub list_page : ℕ → ℕ → ℕ → Db → Db → Result ImportErrorPage
list_page import_id limit offset counted listed =
    if in_bigint limit && in_bigint offset
    then ok (record {
      items = map read_error (
          take limit (
            drop offset (
              order_by listed_before
                (select_where (error_in_import import_id) listed.import_errors))));
      total_items = count_where (error_in_import import_id) counted.import_errors;
    })
    else raised sqlalchemy_error
