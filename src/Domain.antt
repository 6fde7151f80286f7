-- ===== src/Domain.antt =====
-- src/personal_assistant/domain: the types that every other part shares.
pub mod Enums
pub mod Errors
pub mod Exec
pub mod Checking
pub mod Text
pub mod Values
pub mod Models
pub mod Sorting
