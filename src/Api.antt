-- ===== src/Api.antt =====
-- The HTTP endpoints (backend/api, backend/deps.py).
pub mod Http
pub mod Documents
pub mod Visits
pub mod Machines
