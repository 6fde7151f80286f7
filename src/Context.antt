-- ===== src/Context.antt =====
-- src/personal_assistant/core/context: the evidence and instructions that a model is shown.
pub mod Delimiters
pub mod Escaping
pub mod Fences
pub mod Models
pub mod Composer
pub mod Budget
pub mod Manager
pub mod Admission
pub mod Provenance
pub mod Tracing
mod Tests
