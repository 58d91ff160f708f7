-- ===== src/Documents.antt =====
-- app/services/documents.py: the facade of the document flows.
pub mod World
pub mod Sat
pub mod Audit
pub mod Intake
pub mod Service
pub mod Entry
pub mod Batch
pub mod Amend
pub mod Request
