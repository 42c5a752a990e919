-- ===== src/Generation/Flow.antt =====
-- What the operations do to the tables of the tasks.
pub mod Diagram
pub mod Requests
pub mod Retry
pub mod Sections
pub mod Events
pub mod Composite
pub mod Worker
pub mod Steps
pub mod Statuses
pub mod Progress
pub mod Revisions
pub mod Trace
