-- ===== src/Organize.antt =====
-- Tags, memberships and the lifecycle of items (apps/server/app/domain.py).
pub mod Names
pub mod Guards
pub mod Memberships
pub mod Removal
pub mod Assignment
pub mod Items
pub mod Hierarchy
pub mod Cycles
pub mod Acyclic
pub mod Groups
pub mod Forest
pub mod Detached
pub mod Rules
pub mod Kept
pub mod Moves
mod Tests
