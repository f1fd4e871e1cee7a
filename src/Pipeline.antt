-- ===== src/Pipeline.antt =====
-- The validation of a run (backend/pipeline) over the database (backend/models).
pub mod Database
pub mod Environment
pub mod Validate
pub mod Wired
pub mod Queue
pub mod Worker
