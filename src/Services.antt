-- ===== src/Services.antt =====
-- app/imports/services and app/outbox/services.
pub mod Watchdog
pub mod Process
pub mod Tasks
pub mod CreateImport
pub mod Reads
pub mod Publisher
