-- ===== src/Repositories.antt =====
-- app/imports/repositories: the statements that the import services run on the tables.
pub mod Imports
pub mod Outbox
pub mod Claims
pub mod Progress
pub mod Shipments
pub mod ShipmentQuery
pub mod Searching
pub mod ImportErrors
