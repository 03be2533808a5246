-- ===== src/Authorization.antt =====
-- The permissions of roles (apps/server/app/authorization.py).
pub mod Roles
pub mod Scope
mod Tests
