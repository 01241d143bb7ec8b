-- ===== src/Lib.antt =====
-- The shipment import service: an upload is stored as an import job with a dispatch intent in an
-- outbox; a publisher sends the intents to Celery; a worker claims the import, validates its workbook
-- chunk by chunk and stores shipments and row errors; a watchdog takes back imports whose worker has
-- stopped.
--
-- Parts, and the files of the repository that they model:
--   Models (with Decimals)     app/db/models, app/domain/import_states.py
--   Domain                     app/domain/shipment_rules.py, app/domain/errors.py
--   Settings                   app/core/settings.py
--   Repositories.Claims        app/imports/repositories/import_claim_repository.py
--   Repositories.Progress      app/imports/repositories/import_progress_repository.py
--   Repositories.Imports       app/imports/repositories/import_repository.py, app/imports/dto.py
--   Repositories.ImportErrors  app/imports/repositories/import_error_repository.py
--   Repositories.Shipments     app/imports/repositories/shipment_repository.py
--   Repositories.Outbox        app/outbox/repositories/outbox_repository.py
--   Validation                 app/imports/services/row_validation.py, duplicate_tracker.py beside it,
--                              app/imports/schemas/shipment_row.py, app/imports/jsonb.py
--   Services.Process           app/imports/services/process_import.py (Transactions and Loops below it)
--   Services.Watchdog          app/imports/services/recover_stale_imports.py
--   Services.Publisher         app/outbox/services/publish_outbox.py
--   Services.CreateImport      app/imports/services/create_import.py
--   Services.Tasks             app/workers/tasks.py, startup_recovery.py and beat_schedule.py beside it
--   Services.Reads             app/imports/services/get_import_status.py, list_import_errors.py beside
--                              it, app/shipments/services/list_shipments.py
--   Parser                     app/imports/parsers/xlsx_parser.py
--   Pagination (with Numbers)  app/common/pagination.py
--   Repositories.ShipmentQuery app/shipments/repositories/shipment_query_repository.py
--   Storage (with Paths)       app/storage/local_file_storage.py
--   Api.Errors                 app/api/errors.py
--   Api.Imports, Api.Reads     app/api/v1/imports.py, app/api/v1/shipments.py
-- Base holds what they share: Boolean tests, tables as lists of rows, texts, dicts and ORDER BY.
-- Invariants states what a sound database is and what each transaction does to it; Worker is about
-- whole runs among other processes; Upload is about create_import; the modules below Storage, Parser,
-- Pagination and Api that no line above names hold proofs about them; Tests runs the model on
-- small databases.
--
-- The database is a record of four lists of rows (Models.Db). A statement inside a transaction is a
-- function from the database to a value and a database, or to the exception that it raises
-- (Session.Tx); UPDATE, DELETE and SELECT are the functions on rows of Base.Rows. A service method
-- (Service.Service) is a sequence of transactions: before transaction number k the other processes
-- commit what `interfere k` says, `fault k` drops the connection, `lost k` makes its COMMIT fail and
-- roll back, `clock k` is the time. Rows that SKIP LOCKED passes over, UUIDs that are drawn and answers
-- of the broker are arguments. A COMMIT that takes effect and raises all the same is not modelled,
-- nor is a commit of another process between two statements of one transaction.
--
-- An upload passes the handler (Api.Imports.create_import), the storage on a disk whose operations may
-- be refused, and the service, which writes the job and its dispatch intent in one transaction. The
-- advisory lock on the fingerprint is what the others are asked to respect between lookup and INSERT.
-- Upload.Registry is the abstract view of the table of imports, by key and by file. A worksheet is
-- the list of its rows, as openpyxl gives them, with the exception that may end them; the parser's
-- chunks are the workbook that row validation reads. A reading service is given what each of its
-- statements sees, so that the count and the rows of a page may differ.
--
-- UUIDs, dates and date-times are numbers. Counters are natural numbers without a bound: the integer
-- columns of the tables are not filled by counting the rows of an upload of limited size. Decimals are
-- a sign, a coefficient and an exponent, rounded as a NUMERIC column rounds them.
--
-- Fuel: the chunk loop of `run` gets one round more than the generator has chunks, and the duplicate
-- race one more than the chunk has successes, as each round that collides drops at least one row.
-- Api.Reads.int_text gets one round more than the number, which has no more digits than that.
-- `fuel_exhausted` is a failure of the model alone, kept apart from the program's exceptions.
--
-- Services.Process takes row validation as an interface, Validation.Results.Validator, with the laws
-- that it relies on; Validation.Generator.row_validation_service fills it from the modelled service.
-- The adapters of pydantic and the texts of decimals and dates are the fields of
-- Validation.Cells.Outside. What a worker asks of the other processes is Worker.Rely.Respects;
-- Worker.Others has the transactions of the other processes as a step relation that provides it.
-- Parameters are also `==` between cells of which one is no text, str.lower, SHA-256,
-- date.fromisoformat, the decimal digits beyond ASCII, ILIKE (Repositories.Searching.IsIlike has its
-- rules) and the text of a decimal.
--
-- Not modelled: FastAPI's routing and its own exceptions, app/api/v1/health.py, app/main.py; Celery
-- with its configuration, its schedule and what it does on a retry (app/celery_app.py); the endless loop
-- around the publisher; engine, logging and migrations; the parsing of environment variables; a
-- request that is cancelled halfway; a file that another process touches while it is uploaded; of
-- the database's refusals, those of a worker name of more than 255 characters, of a UUID drawn twice
-- for shipments or row errors, of a text with a NUL character and of an infinite number in raw_data;
-- fractions of a second in comparisons of date-times.
pub mod Base
pub mod Models
pub mod Domain
pub mod Session
pub mod Settings
pub mod Service
pub mod Repositories
pub mod Validation
pub mod Parser
pub mod Pagination
pub mod Services
pub mod Storage
pub mod Invariants
pub mod Worker
pub mod Upload
pub mod Api
mod Tests
