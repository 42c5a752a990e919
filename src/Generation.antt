-- ===== src/Generation.antt =====
-- apps/document_generation: the tasks that draft a document from a project's material.
pub mod Schema
pub mod Guards
pub mod Events
pub mod Context
pub mod Requests
pub mod Sources
pub mod Compile
pub mod Sections
pub mod Drafts
pub mod Review
pub mod Failures
pub mod Jobs
pub mod Worker
pub mod Queue
pub mod Prompts
pub mod Flow
pub mod Laws
pub mod ExportNames
pub mod Export
