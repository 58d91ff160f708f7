-- ===== src/Processor.antt =====
-- app/services/extraction_pipeline.py and app/services/document_processor.py.
pub mod Pipeline
pub mod Outcome
pub mod Tokens
use structured_data_extracto.Base.{
  ℕ, String, Bool, Option, none, some, List, [], ◌∷◌, not, contains, if◌then◌else◌,
}
use structured_data_extracto.Errors.{Error, ExtractionFailure}
use structured_data_extracto.Exec.{Result, ok, err, Exec}
use structured_data_extracto.Schema.{list_types}
use structured_data_extracto.Llm.{LlmClient}
use structured_data_extracto.Validation.Quality.{Pydantic}
use structured_data_extracto.Pages.Runner.{Strategy, resolve_strategy}
use structured_data_extracto.Classifier.{UsageEvent, ClassificationResult, classify}
use structured_data_extracto.Processor.Pipeline.{PipelineResult, run_resolved}

-- `ResolvedDocumentInput`
pub record Resolved : Type 0 where
  pub doc_type : String
  pub strategy : Strategy
  pub usage_events : List UsageEvent

-- `DocumentProcessingResult`
pub record ProcessingResult : Type 0 where
  pub pipeline : PipelineResult
  pub classifier_usage_events : List UsageEvent

-- How `process_pages` ends: it returns, it raises `DocumentProcessingError`, which keeps the resolved
-- input and the `ExtractionError`, or another exception goes through.
pub data Processed : Type 0 where
  processed : ProcessingResult → Processed
  processing_error : Resolved → ExtractionFailure → Processed
  raised : Error → Processed

-- `pages[0] if pages else ""`
abbrev pub first_page : List String → String
first_page [] = ""
first_page (p ∷ _) = p

-- `_validate_doc_type`, and the strategy.
unfoldable pub resolve_as : String → Option Strategy → ℕ → List UsageEvent → Result Resolved
unfolding resolve_strategy
resolve_as doc_type strategy page_count events =
    if not (contains list_types doc_type)
    then err (Error.unsupported_document_type doc_type)
    else ok (record {
      doc_type = doc_type;
      strategy = resolve_strategy strategy page_count;
      usage_events = events;
    })

abbrev pub resolve_classified : Option Strategy → ℕ → Result ClassificationResult → Result Resolved
resolve_classified strategy page_count (ok c) =
    resolve_as c.doc_type strategy page_count (c.usage ∷ [])
resolve_classified strategy page_count (err e) = err e

abbrev pub processing_outcome : Resolved → Result PipelineResult → Processed
processing_outcome resolved (ok p) =
    processed (record { pipeline = p; classifier_usage_events = resolved.usage_events })
processing_outcome resolved (err (Error.extraction e)) = processing_error resolved e
processing_outcome resolved (err e) = raised e

-- What the processor is built with: the client, its clock (in milliseconds), pydantic, the two
-- models and the number of retries.
pub record Engine : Type 1 where
  pub client : LlmClient
  pub now : client.State → ℕ × client.State
  pub pydantic : Pydantic
  pub model : String
  pub classifier_model : String
  pub max_retries : ℕ

module _ (E : Engine) where
  -- `_resolve_extraction_input`
  unfoldable pub resolve_input :
      List String → ℕ → Option String → Option Strategy → Exec E.client.State Resolved
  resolve_input pages page_count none strategy s =
      let (c, s') = classify E.client E.classifier_model (first_page pages) s in
      (resolve_classified strategy page_count c, s')
  resolve_input pages page_count (some doc_type) strategy s =
      (resolve_as doc_type strategy page_count [], s)

  unfoldable pub run_pipeline :
      List String → Result Resolved → E.client.State → Processed × E.client.State
  run_pipeline pages (ok r) s =
      let (p, s') =
        run_resolved E.client E.now E.pydantic E.model E.max_retries pages r.doc_type r.strategy
          s in
      (processing_outcome r p, s')
  run_pipeline pages (err e) s = (raised e, s)

  -- `DocumentProcessor.process_pages`
  unfoldable pub process_pages :
      List String
      → ℕ
      → Option String
      → Option Strategy
      → E.client.State
      → Processed × E.client.State
  process_pages pages page_count doc_type strategy s =
      let (r, s') = resolve_input pages page_count doc_type strategy s in run_pipeline pages r s'
