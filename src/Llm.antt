-- ===== src/Llm.antt =====
-- The language-model layer (backend/llm).
pub mod Chunks
pub mod Budget
pub mod Prompts
pub mod Chat
pub mod Revision
pub mod Classification
pub mod Analysis
pub mod Machine
