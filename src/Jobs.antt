-- ===== src/Jobs.antt =====
-- src/personal_assistant/core/jobs and infrastructure/memory/job_queue.py: the queue of jobs, and the
-- outbox of external actions.
pub mod Outbox
pub mod Queue
pub mod Claims
pub mod Holding
pub mod Schedule
pub mod Firing
pub mod Leases
pub mod Claimed
pub mod Idempotency
mod Tests
