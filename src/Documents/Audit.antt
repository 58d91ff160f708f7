-- ===== src/Documents/Audit.antt =====
-- app/services/audit.py, over app/repositories/{documents,extractions,llm_usage}.py.
pub mod Stored
pub mod Recorded
use structured_data_extracto.Base.{ℕ, ◌-◌, String, Option, none, some, List, [], ◌∷◌, Dict}
use structured_data_extracto.Errors.{Error, ExtractionFailure}
use structured_data_extracto.Exec.{Result, ok, err, Exec, pure, gets, ◌>>=◌, ◌>>◌}
use structured_data_extracto.Value.{Value}
use structured_data_extracto.Pages.Runner.{Strategy, StrategyResult, strategy_value}
use structured_data_extracto.Classifier.{Purpose, UsageEvent}
use structured_data_extracto.Validation.{ExtractionStatus, ValidationResult}
use structured_data_extracto.Processor.Pipeline.{PipelineResult}
use structured_data_extracto.Records.{
  Document, DocumentStatus, Extraction, LlmUsage, AuditOutput, plain, merged,
}
use structured_data_extracto.Records.Store.{Session, Tables, find_document}
use structured_data_extracto.Documents.World.{
  Platform, World, Flow, on_db, on_net, change_db, uuid4,
}

-- `StrategyExtractionResult.audit_output`
unfoldable pub audit_output : StrategyResult → AuditOutput
audit_output x = elim x.field_source_pages [
  | none ↦ plain x.raw_output
  | some sources ↦ merged x.raw_output sources
]

abbrev pub status_value : ExtractionStatus → String
status_value ExtractionStatus.pending = "pending"
status_value ExtractionStatus.processing = "processing"
status_value ExtractionStatus.partial = "partial"
status_value ExtractionStatus.completed = "completed"
status_value ExtractionStatus.failed = "failed"

-- `ExtractResponse`
pub record ExtractResponse : Type 0 where
  pub extraction_id : ℕ
  pub document_id : ℕ
  pub doc_type : String
  pub status : String
  pub extracted_data : Option (Dict Value)
  pub confidence_map : Dict ℕ
  pub warnings : List String
  pub model_used : String
  pub input_tokens : ℕ
  pub output_tokens : ℕ

-- The rows that the two recorders add, with the identifier that is drawn.
abbrev pub failure_row : String → ℕ → String → String → ℕ → ExtractionFailure → ℕ → Extraction
failure_row model document_id doc_type strategy duration_ms e id = record {
  id = id;
  document_id = document_id;
  doc_type = doc_type;
  status = ExtractionStatus.failed;
  extracted_data = none;
  confidence_map = none;
  warnings = none;
  raw_tool_output = none;
  strategy = strategy;
  source_pages = none;
  model_used = model;
  input_tokens = e.input_tokens;
  output_tokens = e.output_tokens;
  extraction_duration_ms = duration_ms;
}

abbrev pub success_row : String → ℕ → PipelineResult → ℕ → Extraction
success_row model document_id r id = record {
  id = id;
  document_id = document_id;
  doc_type = r.doc_type;
  status = r.validation.status;
  extracted_data = r.validation.extracted_data;
  confidence_map = some r.confidence_map;
  warnings = some r.warnings;
  raw_tool_output = some (audit_output r.extraction);
  strategy = strategy_value r.extraction.strategy;
  source_pages = some r.extraction.source_pages;
  model_used = model;
  input_tokens = r.extraction.input_tokens;
  output_tokens = r.extraction.output_tokens;
  extraction_duration_ms = r.duration_ms;
}

module _ (P : Platform) where
  -- `DocumentRepository`
  unfoldable pub create_row : Document → Flow P (Unit {0})
  create_row document = do change_db P (P.session.add_document document); on_db P P.session.flush

  unfoldable pub get_by_id : ℕ → Flow P (Option Document)
  get_by_id id = gets (λ w. find_document id (P.session.rows w.db).documents)

  unfoldable pub set_status : Document → DocumentStatus → Flow P Document
  set_status document status = do
    let document' : Document = record document { status = status }
    change_db P (P.session.add_document document')
    on_db P P.session.flush
    pure document'

  -- `ExtractionRepository.create`; `create_from_fields` refreshes the row as well.
  unfoldable pub create_extraction : Extraction → Flow P Extraction
  create_extraction x = do change_db P (P.session.add_extraction x); on_db P P.session.flush; pure x

  unfoldable pub create_from_fields : Extraction → Flow P Extraction
  create_from_fields x = do
    change_db P (P.session.add_extraction x)
    on_db P P.session.flush
    on_db P P.session.refresh
    pure x

  -- `LLMUsageRepository.create`
  unfoldable pub create_usage : ℕ → ℕ → Purpose → String → ℕ → ℕ → Flow P (Unit {0})
  create_usage document_id extraction_id purpose model input_tokens output_tokens = do
    id ← uuid4 P
    change_db P (
        P.session.add_usage (record {
          id = id;
          document_id = document_id;
          extraction_id = some extraction_id;
          purpose = purpose;
          model = model;
          input_tokens = input_tokens;
          output_tokens = output_tokens;
        }))
    on_db P P.session.flush

  unfoldable pub add_classifier_events : ℕ → ℕ → List UsageEvent → Flow P (Unit {0})
  add_classifier_events document_id extraction_id [] = pure tt
  add_classifier_events document_id extraction_id (u ∷ us) = do
    create_usage document_id extraction_id u.purpose u.model u.input_tokens u.output_tokens
    add_classifier_events document_id extraction_id us

  -- `_add_usage_events`
  unfoldable pub add_usage_events : ℕ → ℕ → List UsageEvent → ℕ → ℕ → Flow P (Unit {0})
  add_usage_events document_id extraction_id events input_tokens output_tokens = do
    add_classifier_events document_id extraction_id events
    create_usage document_id extraction_id Purpose.extraction P.engine.model input_tokens
        output_tokens

  unfoldable pub clock : Flow P ℕ
  clock = on_net P (λ s. let (t, s') = P.engine.now s in (ok t, s'))

  -- `record_failure`
  unfoldable pub record_failure :
      Document → String → String → ℕ → ExtractionFailure → List UsageEvent → Flow P (Unit {0})
  unfolding clock
  record_failure document doc_type strategy started_at e events = do
    id ← uuid4 P
    ended ← clock
    x ←
        create_extraction
          (failure_row P.engine.model document.id doc_type strategy (ended - started_at) e id)
    add_usage_events document.id x.id events e.input_tokens e.output_tokens

  unfoldable pub to_response : ℕ → ℕ → PipelineResult → ExtractResponse
  to_response extraction_id document_id r = record {
    extraction_id = extraction_id;
    document_id = document_id;
    doc_type = r.doc_type;
    status = status_value r.validation.status;
    extracted_data = r.validation.extracted_data;
    confidence_map = r.confidence_map;
    warnings = r.warnings;
    model_used = P.engine.model;
    input_tokens = r.extraction.input_tokens;
    output_tokens = r.extraction.output_tokens;
  }

  -- `record_success`
  unfoldable pub record_success :
      Document → PipelineResult → List UsageEvent → Flow P ExtractResponse
  record_success document r events = do
    id ← uuid4 P
    x ← create_from_fields (success_row P.engine.model document.id r id)
    add_usage_events document.id x.id events r.extraction.input_tokens r.extraction.output_tokens
    on_db P P.session.refresh
    pure (to_response x.id document.id r)
