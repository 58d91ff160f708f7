-- ===== src/Tests.antt =====
-- Concrete runs of the models of the repository's services, and the parts they run with.
pub mod Provider
pub mod Extraction
pub mod Documents
pub mod Requests
pub mod Queue
pub mod Amend
pub mod LiteLlm
pub mod Http
pub mod Batches
pub mod Files
pub mod Startup
