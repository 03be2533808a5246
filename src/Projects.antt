-- ===== src/Projects.antt =====
-- The life of a project (apps/server/app/domain.py, modules/project/domain.py).
pub mod Codes
pub mod Lifecycle
pub mod Naming
pub mod Registry
pub mod Moves
pub mod Commands
pub mod Creation
mod Tests
