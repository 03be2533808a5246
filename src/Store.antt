-- ===== src/Store.antt =====
-- The state of `CameraStore` (apps/server/app/domain.py) and the actions on it.
pub mod Values
pub mod Contracts
pub mod Tables
pub mod Enums
pub mod State
pub mod Actions
pub mod Samples
