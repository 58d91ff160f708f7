-- ===== src/Errors.antt =====
-- app/core/exceptions.py, and the exceptions of other layers that these services meet.
use structured_data_extracto.Base.{ℕ, String, List, ◌<>◌, show}

-- What `ExtractionError` carries.
pub record ExtractionFailure : Type 0 where
  pub text : String
  pub attempts : ℕ
  pub input_tokens : ℕ
  pub output_tokens : ℕ

pub data Error : Type 0 where
  unsupported_document_type : String → Error
  pdf_parse : String → String → Error
  storage : String → String → String → Error
  document_not_found extraction_not_found : ℕ → Error
  invalid_document_type : String → List String → Error
  invalid_upload upload_too_large invalid_batch : String → Error
  correction_validation : List String → Error
  classification : String → Error
  extraction : ExtractionFailure → Error
  -- `LLMClientError` of integrations/llm/client.py
  llm_client : String → Error
  -- Python's own exceptions, SQLAlchemy's, and those of a job queue
  key_error value_error runtime database queue other : String → Error

-- `str(exc)`
abbrev pub message : Error → String
message (Error.unsupported_document_type t) = "Unsupported document type: " <> t
message (Error.pdf_parse path cause) = "Failed to parse PDF at " <> path <> ": " <> cause
message (Error.storage path operation cause) =
    "Failed to " <> operation <> " storage path " <> path <> ": " <> cause
message (Error.document_not_found id) = "Document " <> show id <> " not found"
message (Error.extraction_not_found id) = "Extraction " <> show id <> " not found"
message (Error.invalid_document_type t available) = "Invalid document type: " <> t
message (Error.invalid_upload m) = m
message (Error.upload_too_large m) = m
message (Error.invalid_batch m) = m
message (Error.correction_validation ws) = "Correction does not contain valid schema fields"
message (Error.classification m) = m
message (Error.extraction e) = e.text
message (Error.llm_client m) = m
message (Error.key_error m) = m
message (Error.value_error m) = m
message (Error.runtime m) = m
message (Error.database m) = m
message (Error.queue m) = m
message (Error.other m) = m
