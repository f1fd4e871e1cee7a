-- ===== src/Export.antt =====
-- The export of a redlined revision (backend/export).
pub mod Redline
pub mod Docx
