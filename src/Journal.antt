-- ===== src/Journal.antt =====
-- The outbox and the audit trail (apps/server/app/domain.py): `_add_event`, `changes_after`,
-- `query_audit`.
pub mod Events
pub mod Cursors
pub mod Chains
pub mod Log
mod Tests
