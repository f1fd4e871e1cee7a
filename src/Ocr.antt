-- ===== src/Ocr.antt =====
-- Reading a document and finding its fields (backend/ocr).
pub mod Result
pub mod Regex
pub mod Extract
pub mod Formats
pub mod Reader
pub mod Service
