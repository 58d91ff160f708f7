-- ===== src/Evaluation.antt =====
-- scripts/evaluate_strategies.py: the three strategies on one document, and the report on them. Files,
-- arguments of the command line and the exit codes are not modelled.
pub mod Report
pub mod Charges
use structured_data_extracto.Base.{
  ℕ, String, Option, none, some, or_else, List, [], ◌∷◌, ◌++◌, ◌==◌, Dict, keys, if◌then◌else◌,
}
use structured_data_extracto.Errors.{Error}
use structured_data_extracto.Exec.{Result, ok, err, Exec, pure, lift, ◌>>=◌}
use structured_data_extracto.Value.{Value}
use structured_data_extracto.Money.{Decimal, add_decimal}
use structured_data_extracto.ToolCall.{Extracted}
use structured_data_extracto.Pages.Runner.{Strategy, StrategyResult, extract_from_pages}
use structured_data_extracto.Validation.{ExtractionStatus, ValidationResult, validate_extraction}
use structured_data_extracto.Validation.Quality.{Pydantic}
use structured_data_extracto.Documents.Audit.{status_value}
use structured_data_extracto.Corrections.{insert_texts}
use structured_data_extracto.Costs.{ModelTokenPrice}
use structured_data_extracto.Costs.Division.{multiply_by}

-- `StrategyEvaluationResult`
pub record Evaluation : Type 0 where
  pub strategy : Strategy
  pub status : String
  pub source_pages : List ℕ
  pub input_tokens : ℕ
  pub output_tokens : ℕ
  pub estimated_cost_usd : Decimal
  pub extracted_fields : List String
  pub warnings : List String

-- `DEFAULT_EVALUATION_STRATEGIES`
abbrev pub default_strategies : List Strategy
default_strategies = Strategy.full ∷ Strategy.smart ∷ Strategy.page_by_page ∷ []

-- What the `try` of the loop leaves in its variables.
pub record Attempted : Type 0 where
  pub status : String
  pub source_pages : List ℕ
  pub input_tokens : ℕ
  pub output_tokens : ℕ
  pub extracted_fields : List String
  pub warnings : List String

unfoldable pub succeeded : StrategyResult → ValidationResult → Attempted
succeeded extraction validation = record {
  status = status_value validation.status;
  source_pages = extraction.source_pages;
  input_tokens = extraction.input_tokens;
  output_tokens = extraction.output_tokens;
  extracted_fields = insert_texts (keys (or_else validation.extracted_data [])) [];
  warnings = validation.warnings ++ extraction.warnings;
}

abbrev pub handled : Error → Result Attempted
handled (Error.extraction e) = ok (record {
  status = status_value ExtractionStatus.failed;
  source_pages = [];
  input_tokens = e.input_tokens;
  output_tokens = e.output_tokens;
  extracted_fields = [];
  warnings = e.text ∷ [];
})
handled e = err e

abbrev pub on_validation : StrategyResult → Result ValidationResult → Result Attempted
on_validation extraction (ok validation) = ok (succeeded extraction validation)
on_validation extraction (err e) = handled e

abbrev pub on_extraction :
    (Dict Value → Result ValidationResult) → Result StrategyResult → Result Attempted
on_extraction validate (ok extraction) = on_validation extraction (validate extraction.raw_output)
on_extraction validate (err e) = handled e

-- `model or llm_settings.EXTRACTION_MODEL`
abbrev pub model_or : Option String → String → String
model_or none default = default
model_or (some model) default = if model == "" then default else model

abbrev pub tokens_cost : ℕ → ℕ → Result ModelTokenPrice → Result Decimal
tokens_cost input_tokens output_tokens (ok price) = ok (
    add_decimal (multiply_by input_tokens price.input_token_price_usd)
      (multiply_by output_tokens price.output_token_price_usd))
tokens_cost input_tokens output_tokens (err e) = err e

abbrev pub evaluation : Strategy → Attempted → Decimal → Evaluation
evaluation strategy a cost = record {
  strategy = strategy;
  status = a.status;
  source_pages = a.source_pages;
  input_tokens = a.input_tokens;
  output_tokens = a.output_tokens;
  estimated_cost_usd = cost;
  extracted_fields = a.extracted_fields;
  warnings = a.warnings;
}

module _ (price_for_model : String → Result ModelTokenPrice) (extraction_model : String)
    (model : Option String) where
  -- `estimate_cost`
  unfoldable pub estimate_cost : ℕ → ℕ → Result Decimal
  estimate_cost input_tokens output_tokens =
      tokens_cost input_tokens output_tokens (price_for_model (model_or model extraction_model))

  module _ {S : Type 0} (extract : String → String → Exec S Extracted) (P : Pydantic)
      (pages : List String) (doc_type : String) where
    -- The body of the loop.
    unfoldable pub evaluate_strategy : Strategy → Exec S Evaluation
    evaluate_strategy strategy s =
        let (extraction, s') = extract_from_pages extract doc_type pages strategy s in
        (lift (on_extraction (validate_extraction P doc_type) extraction) >>= λ a.
        lift (estimate_cost a.input_tokens a.output_tokens) >>= λ cost.
        pure (evaluation strategy a cost))
          s'

    -- `evaluate_strategies`
    unfoldable pub evaluate_strategies : List Strategy → Exec S (List Evaluation)
    evaluate_strategies [] = pure []
    evaluate_strategies (strategy ∷ strategies) = do
      result ← evaluate_strategy strategy
      results ← evaluate_strategies strategies
      pure (result ∷ results)
