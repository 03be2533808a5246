-- ===== src/Writeback.antt =====
-- Versions of source files, and the jobs and plans that write back to them (apps/server/app/domain.py).
pub mod Versions
pub mod Jobs
pub mod Completion
pub mod Restore
pub mod History
pub mod Locks
pub mod Exclusion
pub mod Commands
pub mod Permission
pub mod Outcomes
pub mod Drift
pub mod Final
pub mod Plans
pub mod Waiting
pub mod Queueing
pub mod Readiness
pub mod Holding
pub mod Confirming
mod Tests
