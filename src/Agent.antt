-- ===== src/Agent.antt =====
-- src/personal_assistant/core/agent: the recoverable plan-act-observe loop.
pub mod StateMachine
pub mod Progress
pub mod Checkpoint
pub mod Engine
pub mod Writes
pub mod Rounds
pub mod Stalls
pub mod Durability
pub mod Segments
pub mod Calls
pub mod Restoring
pub mod Decisions
pub mod Authority
mod Tests
mod CallTests
mod DecisionTests
