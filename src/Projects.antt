-- ===== src/Projects.antt =====
-- apps/projects: projects and their members.
pub mod Membership
