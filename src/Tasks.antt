-- ===== src/Tasks.antt =====
-- The package core/tasks with infrastructure/memory/tasks.py and infrastructure/memory/form_drafts.py.
pub mod Repository
pub mod Events
pub mod Service
pub mod Integrity
pub mod Additions
pub mod Keeping
pub mod Replies
pub mod History
pub mod Steps
pub mod Promises
pub mod Answers
pub mod Replay
pub mod Drafts
pub mod Receipts
mod Tests
mod DraftTests
