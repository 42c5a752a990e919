-- ===== src/Folders.antt =====
-- apps/folders: the tree of folders.
pub mod Defaults
pub mod Descendants
pub mod Personnel
pub mod Services
