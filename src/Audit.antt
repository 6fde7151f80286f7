-- ===== src/Audit.antt =====
-- The packages core/audit and infrastructure/memory/audit.py: the redaction of audit data, and the writer.
pub mod Redaction
pub mod Writer
pub mod Masking
mod Tests
