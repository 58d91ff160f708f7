-- ===== src/Pages.antt =====
-- app/services/page_extraction.py: `PageStrategyRunner`.
pub mod Text
pub mod Merge
pub mod Runner
