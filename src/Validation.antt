-- ===== src/Validation.antt =====
-- app/imports/services/row_validation.py
pub mod Cells
pub mod Results
pub mod Rows
pub mod Chunks
pub mod Sound
pub mod Generator
pub mod Checks
pub mod Parsed
pub mod Total
pub mod Accumulator
pub mod Whole
