-- ===== src/Reconciler.antt =====
-- apps/server/app/shared/reconciler.py: the offline-sync reconciliation engine.
-- A field value is `Any` in the source: a type parameter `V` with Python's `==` on it as the test
-- `same`. A clock reading is an argument. The `message` of an acknowledgement, display text, is
-- left out.
pub mod Records
pub mod Merging
pub mod Resolving
pub mod Fields
pub mod Items
pub mod Batches
pub mod Coherence
pub mod Resolution
mod Tests
