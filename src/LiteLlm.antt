-- ===== src/LiteLlm.antt =====
-- app/integrations/llm/litellm_client.py
pub mod Schema
pub mod Client
pub mod Extraction
