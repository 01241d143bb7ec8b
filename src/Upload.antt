-- ===== src/Upload.antt =====
-- Uploads: what an upload promises, and what it does among the others.
pub mod Registry
pub mod Refines
pub mod Concurrent
pub mod Created
