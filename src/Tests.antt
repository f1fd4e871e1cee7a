-- ===== src/Tests.antt =====
-- The theorems at concrete inputs: a runtime that reads the machine's table, an environment, and
-- the witnesses.
pub mod Interpreter
pub mod Instances
pub mod Pipeline
pub mod Parts
pub mod Service
pub mod System
pub mod Application
pub mod Routes
pub mod Model
pub mod Machines
pub mod Reading
pub mod Diagrams
pub mod Wired
pub mod Downloads
pub mod Visits
