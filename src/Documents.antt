-- ===== src/Documents.antt =====
-- apps/documents: the documents, their versions, and who may do what with them.
pub mod Permissions
pub mod Selectors
pub mod Listing
pub mod Guards
pub mod Operations
pub mod Files
pub mod Removal
pub mod Rows
pub mod Concurrency
pub mod Titles
pub mod Steps
pub mod Entitlement
pub mod Storage
pub mod Versions
pub mod RoundTrip
pub mod Stored
pub mod Privacy
