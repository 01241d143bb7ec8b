-- ===== src/Tests.antt =====
-- Runs of the model on small databases, and the theorems at concrete inputs.
mod Data
mod Runs
mod Writes
mod Rules
mod Like
mod Reading
mod Uploads
mod Sheets
