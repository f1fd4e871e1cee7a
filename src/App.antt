-- ===== src/App.antt =====
-- The application around the pipeline (backend/app, backend/api/health.py, migrations).
pub mod Config
pub mod Database
pub mod Defaults
pub mod Health
pub mod Routes
pub mod Migrations
