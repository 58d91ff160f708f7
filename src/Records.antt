-- ===== src/Records.antt =====
-- The rows of app/models/*.py and the database session behind app/repositories/*.py.
pub mod Store
use structured_data_extracto.Base.{ℕ, String, Option, List, Dict}
use structured_data_extracto.Value.{Value}
use structured_data_extracto.Classifier.{Purpose}
use structured_data_extracto.Corrections.{Diff}
use structured_data_extracto.Validation.{ExtractionStatus}

pub data DocumentStatus : Type 0 where
  uploaded processing completed failed : DocumentStatus

pub record Document : Type 0 where
  pub id : ℕ
  pub filename : String
  pub file_path : String
  pub file_size_bytes : ℕ
  pub page_count : ℕ
  pub status : DocumentStatus

-- `raw_tool_output`: the output itself, or the merged output with the source pages of its fields.
pub data AuditOutput : Type 0 where
  plain : Dict Value → AuditOutput
  merged : Dict Value → Dict (List ℕ) → AuditOutput

pub record Extraction : Type 0 where
  pub id : ℕ
  pub document_id : ℕ
  pub doc_type : String
  pub status : ExtractionStatus
  pub extracted_data : Option (Dict Value)
  pub confidence_map : Option (Dict ℕ)
  pub warnings : Option (List String)
  pub raw_tool_output : Option AuditOutput
  pub strategy : String
  pub source_pages : Option (List ℕ)
  pub model_used : String
  pub input_tokens : ℕ
  pub output_tokens : ℕ
  pub extraction_duration_ms : ℕ

pub record LlmUsage : Type 0 where
  pub id : ℕ
  pub document_id : ℕ
  pub extraction_id : Option ℕ
  pub purpose : Purpose
  pub model : String
  pub input_tokens : ℕ
  pub output_tokens : ℕ

-- `ExtractionCorrection`, without its date.
pub record Correction : Type 0 where
  pub id : ℕ
  pub extraction_id : ℕ
  pub original_data : Option (Dict Value)
  pub corrected_data : Dict Value
  pub correction_diff : Diff
  pub warnings : List String
  pub corrected_by : Option String
  pub note : Option String
