-- ===== src/Approvals.antt =====
-- src/personal_assistant/core/approvals: exact approvals of external actions.
pub mod Sorting
pub mod Canonical
pub mod StateMachine
pub mod Binding
pub mod Record
pub mod Service
pub mod Follows
pub mod Stored
pub mod Evolution
pub mod Interleaving
pub mod ExactlyOnce
pub mod Guards
pub mod MemoryOutbox
pub mod Refinement
pub mod Operations
pub mod Simulation
mod Tests
mod OutboxTests
