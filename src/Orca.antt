-- ===== src/Orca.antt =====
-- The verified state machine and what drives it (backend/orca, machines).
pub mod Context
pub mod Actions
pub mod Machine
pub mod Runtime
pub mod Persistence
pub mod Bridge
pub mod Verdict
pub mod Gate
pub mod Fsm
pub mod Hoisting
pub mod Diagram
pub mod Compile
