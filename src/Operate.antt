-- ===== src/Operate.antt =====
-- Field work: packages, observations and their approval (apps/server/app/domain.py).
pub mod Packages
pub mod Observations
pub mod Retries
pub mod AsBuilt
pub mod Approvals
pub mod Closed
pub mod Dashboard
mod Tests
