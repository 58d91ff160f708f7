-- ===== src/Documents/Amend.antt =====
-- `CorrectionService` of app/services/corrections.py and the reads of documents and extractions in
-- app/services/documents.py.
pub mod Stored
pub mod Reads
use structured_data_extracto.Base.{
  ℕ, String, Option, none, some, or_else, List, [], ◌∷◌, Dict, eqb, if◌then◌else◌,
}
use structured_data_extracto.Errors.{Error}
use structured_data_extracto.Exec.{Result, ok, err, Exec, pure, raise, lift, gets, ◌>>=◌, ◌>>◌}
use structured_data_extracto.Value.{Value}
use structured_data_extracto.Validation.{ValidationResult, validate_extraction}
use structured_data_extracto.Corrections.{Diff, diff_extraction_data}
use structured_data_extracto.Records.{Document, DocumentStatus, Extraction, Correction, AuditOutput}
use structured_data_extracto.Records.Store.{Session, Tables, find_extraction}
use structured_data_extracto.Documents.World.{Platform, World, Flow, on_db, change_db, uuid4}
use structured_data_extracto.Documents.Audit.{status_value, get_by_id}
use structured_data_extracto.Documents.Service.{or_not_found}

-- `CorrectionRequest`
pub record CorrectionRequest : Type 0 where
  pub corrected_data : Dict Value
  pub corrected_by : Option String
  pub note : Option String

-- `ExtractionResponse`
pub record ExtractionResponse : Type 0 where
  pub extraction_id : ℕ
  pub document_id : ℕ
  pub doc_type : String
  pub status : String
  pub extracted_data : Option (Dict Value)
  pub confidence_map : Dict ℕ
  pub warnings : List String
  pub model_used : String
  pub input_tokens : ℕ
  pub output_tokens : ℕ
  pub extraction_duration_ms : ℕ

-- `_to_extraction_response`
abbrev pub to_extraction_response : Extraction → ExtractionResponse
to_extraction_response x = record {
  extraction_id = x.id;
  document_id = x.document_id;
  doc_type = x.doc_type;
  status = status_value x.status;
  extracted_data = x.extracted_data;
  confidence_map = or_else x.confidence_map [];
  warnings = or_else x.warnings [];
  model_used = x.model_used;
  input_tokens = x.input_tokens;
  output_tokens = x.output_tokens;
  extraction_duration_ms = x.extraction_duration_ms;
}

-- `ExtractionAuditResponse`
pub record ExtractionAuditResponse : Type 0 where
  pub extraction : ExtractionResponse
  pub raw_tool_output : Option AuditOutput
  pub strategy : String
  pub source_pages : Option (List ℕ)

-- `_to_extraction_audit_response`
abbrev pub to_extraction_audit_response : Extraction → ExtractionAuditResponse
to_extraction_audit_response x = record {
  extraction = to_extraction_response x;
  raw_tool_output = x.raw_tool_output;
  strategy = x.strategy;
  source_pages = x.source_pages;
}

-- `DocumentResponse`
pub record DocumentResponse : Type 0 where
  pub id : ℕ
  pub filename : String
  pub status : DocumentStatus
  pub page_count : ℕ
  pub file_size_bytes : ℕ
  pub extraction_ids : List ℕ

-- `document.extractions`: the rows of a document.
unfoldable pub extraction_ids_of : ℕ → List Extraction → List ℕ
extraction_ids_of id [] = []
extraction_ids_of id (x ∷ xs) =
    let rest = extraction_ids_of id xs in if eqb x.document_id id then x.id ∷ rest else rest

-- The row that `CorrectionService.create` adds.
abbrev pub correction_row :
    Extraction → CorrectionRequest → Dict Value → List String → ℕ → Correction
correction_row extraction request corrected_data warnings id = record {
  id = id;
  extraction_id = extraction.id;
  original_data = extraction.extracted_data;
  corrected_data = corrected_data;
  correction_diff = diff_extraction_data (or_else extraction.extracted_data []) corrected_data;
  warnings = warnings;
  corrected_by = request.corrected_by;
  note = request.note;
}

module _ (P : Platform) where
  -- `CorrectionRepository.create`
  unfoldable pub create_correction : Correction → Flow P Correction
  create_correction c = do
    change_db P (P.session.add_correction c)
    on_db P P.session.flush
    on_db P P.session.refresh
    pure c

  -- `CorrectionService.create`, with what the validation gives.
  unfoldable pub create_validated :
      Extraction → CorrectionRequest → List String → Option (Dict Value) → Flow P Correction
  create_validated extraction request warnings none = raise (Error.correction_validation warnings)
  create_validated extraction request warnings (some corrected_data) = do
    id ← uuid4 P
    c ← create_correction (correction_row extraction request corrected_data warnings id)
    on_db P P.session.commit
    on_db P P.session.refresh
    pure c

  -- `CorrectionService.correct`, whose response has the fields of the correction.
  unfoldable pub correct : Extraction → CorrectionRequest → Flow P Correction
  correct extraction request = do
    v ← lift (validate_extraction P.engine.pydantic extraction.doc_type request.corrected_data)
    create_validated extraction request v.warnings v.extracted_data

  abbrev pub or_extraction_not_found : ℕ → Option Extraction → Flow P Extraction
  or_extraction_not_found id none = raise (Error.extraction_not_found id)
  or_extraction_not_found id (some x) = pure x

  -- `require_extraction`
  unfoldable pub require_extraction : ℕ → Flow P Extraction
  require_extraction id = do
    found ← gets (λ w. find_extraction id (P.session.rows w.db).extractions)
    or_extraction_not_found id found

  -- `correct_extraction`
  unfoldable pub correct_extraction : ℕ → CorrectionRequest → Flow P Correction
  correct_extraction id request = do extraction ← require_extraction id; correct extraction request

  -- `get_extraction`
  unfoldable pub get_extraction : ℕ → Flow P ExtractionResponse
  get_extraction id = do
    extraction ← require_extraction id
    pure (to_extraction_response extraction)

  -- `get_extraction_audit`
  unfoldable pub get_extraction_audit : ℕ → Flow P ExtractionAuditResponse
  get_extraction_audit id = do
    extraction ← require_extraction id
    pure (to_extraction_audit_response extraction)

  abbrev pub document_response : Document → List Extraction → DocumentResponse
  document_response d extractions = record {
    id = d.id;
    filename = d.filename;
    status = d.status;
    page_count = d.page_count;
    file_size_bytes = d.file_size_bytes;
    extraction_ids = extraction_ids_of d.id extractions;
  }

  -- `get_document`
  unfoldable pub get_document : ℕ → Flow P DocumentResponse
  get_document id = do
    found ← get_by_id P id
    d ← or_not_found P id found
    gets (λ w. document_response d (P.session.rows w.db).extractions)
