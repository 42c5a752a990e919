-- ===== src/Access.antt =====
-- apps/access: the permissions that are granted on single documents.
pub mod Selectors
pub mod Temporary
pub mod Grants
