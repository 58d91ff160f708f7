-- ===== src/Processor/Pipeline.antt =====
-- app/services/extraction_pipeline.py: `QualityPipeline`.
use structured_data_extracto.Base.{ℕ, ◌-◌, String, List, ◌++◌, Dict}
use structured_data_extracto.Exec.{Result, ok, err, Exec}
use structured_data_extracto.Llm.{LlmClient}
use structured_data_extracto.ToolCall.{extract}
use structured_data_extracto.Validation.Quality.{Pydantic}
use structured_data_extracto.Validation.{ValidationResult, validate_extraction}
use structured_data_extracto.Confidence.{score_confidence_map}
use structured_data_extracto.Pages.Runner.{Strategy, StrategyResult, extract_from_pages}

pub record PipelineResult : Type 0 where
  pub doc_type : String
  pub validation : ValidationResult
  pub extraction : StrategyResult
  pub confidence_map : Dict ℕ
  pub warnings : List String
  pub duration_ms : ℕ

abbrev pub pipeline_result :
    String → StrategyResult → ℕ → ValidationResult → Result (Dict ℕ) → Result PipelineResult
pipeline_result doc_type x duration v (ok scores) = ok (record {
  doc_type = doc_type;
  validation = v;
  extraction = x;
  confidence_map = scores;
  warnings = v.warnings ++ x.warnings;
  duration_ms = duration;
})
pipeline_result doc_type x duration v (err e) = err e

abbrev pub score_validated :
    String → StrategyResult → ℕ → Result ValidationResult → Result PipelineResult
score_validated doc_type x duration (ok v) =
    pipeline_result doc_type x duration v (score_confidence_map doc_type v.extracted_data)
score_validated doc_type x duration (err e) = err e

module _ (C : LlmClient) (now : C.State → ℕ × C.State) (P : Pydantic) (model : String)
    (max_retries : ℕ) where
  abbrev pub after_extraction : String → ℕ → Result StrategyResult → Exec C.State PipelineResult
  after_extraction doc_type started (ok x) s =
      let (ended, s') = now s in
      (
        score_validated doc_type x (ended - started) (validate_extraction P doc_type x.raw_output),
        s',
      )
  after_extraction doc_type started (err e) s = (err e, s)

  -- `QualityPipeline.run_resolved`
  unfoldable pub run_resolved : List String → String → Strategy → Exec C.State PipelineResult
  run_resolved pages doc_type strategy s =
      let (started, s') = now s in
      let (x, s'') = extract_from_pages (extract C model max_retries) doc_type pages strategy s' in
      after_extraction doc_type started x s''
