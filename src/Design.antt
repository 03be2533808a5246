-- ===== src/Design.antt =====
-- Cameras, their revisions and the change sets on them (apps/server/app/domain.py).
pub mod Cameras
pub mod Revisions
pub mod Numbering
pub mod Merging
pub mod Threeway
pub mod Approval
pub mod Approved
pub mod Settled
pub mod Review
pub mod Edits
mod Tests
