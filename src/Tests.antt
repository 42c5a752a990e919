-- ===== src/Tests.antt =====
-- The services at concrete inputs.
mod Sample
mod Documents
mod Folders
mod Access
mod Uploads
mod Grants
mod Storage
mod Task
mod Generation
mod Reviews
mod Prompts
