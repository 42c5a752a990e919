-- ===== src/Generation/Laws.antt =====
-- What single operations on a task promise.
pub mod Gates
pub mod Alike
pub mod Repeats
pub mod Stops
pub mod Recovers
pub mod Refusals
pub mod Completes
pub mod Prompts
pub mod Reports
