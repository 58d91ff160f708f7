-- ===== src/Processor/Tokens.antt =====
-- The tokens of a processed document, from the provider's replies to what the audit is given.
use structured_data_extracto.Base.{
  ℕ, ◌+◌, String, Option, none, some, List, ◌≡◌, ◌∙◌, refl, arith, Dict,
}
use structured_data_extracto.Errors.{Error}
use structured_data_extracto.Exec.{Result, ok, err}
use structured_data_extracto.Llm.{LlmClient, Message, Meter}
use structured_data_extracto.ToolCall.{Extracted, extract}
use structured_data_extracto.ToolCall.Loop.{Spends, extract-tokens}
use structured_data_extracto.Schema.{get_schema}
use structured_data_extracto.Confidence.{score_confidence_map, scored}
use structured_data_extracto.Validation.{ValidationResult}
use structured_data_extracto.Validation.Raises.{IsOther, validate_extraction-IsOther}
use structured_data_extracto.Pages.Runner.{Strategy, StrategyResult}
use structured_data_extracto.Pages.Runner.Tokens.{
  Charged, ChargedText, ChargedPages, extract_from_pages-Charged, get_schema_own,
}
use structured_data_extracto.Classifier.{classify}
use structured_data_extracto.Processor.Pipeline.{
  PipelineResult, pipeline_result, score_validated, after_extraction, run_resolved,
}
use structured_data_extracto.Processor.{
  Resolved, Processed, processed, processing_error, raised, Engine, processing_outcome,
  resolve_input, run_pipeline, process_pages,
}

-- A meter of tool calls that other uses of the environment leave alone: reading the clock, and the
-- classifier's completion, whose usage is recorded apart.
pub record EngineMeter (E : Engine) : Type 0 where
  pub meter : Meter E.client
  pub now_input : (s : E.client.State) → meter.input (E.now s).1 ≡ meter.input s
  pub now_output : (s : E.client.State) → meter.output (E.now s).1 ≡ meter.output s
  pub text_input :
      (model : String) (ms : List Message) (n : ℕ) (s : E.client.State)
      → meter.input (E.client.generate_text model ms n s).1 ≡ meter.input s
  pub text_output :
      (model : String) (ms : List Message) (n : ℕ) (s : E.client.State)
      → meter.output (E.client.generate_text model ms n s).1 ≡ meter.output s

module _ {C : LlmClient} (M : Meter C) where
  Charged-of-Spends :
      (s : C.State) (r : Result Extracted) (s' : C.State)
      → Spends M s r s'
      → ChargedText M.input M.output s r s'
  Charged-of-Spends s (ok x) s' h = h
  Charged-of-Spends s (err (Error.extraction e)) s' h = (h.0, h.1)
  Charged-of-Spends s (err _) s' h = tt

module _ {E : Engine} (M : EngineMeter E) where
  abbrev ChargedPipeline : E.client.State → Result PipelineResult → E.client.State → Type 0
  ChargedPipeline =
      Charged M.meter.input M.meter.output (λ p. p.extraction.input_tokens)
        (λ p. p.extraction.output_tokens)

  -- What is handed on for a processed document, or for a failed extraction, is what the meter has
  -- counted.
  abbrev pub ChargedProcessed : E.client.State → Processed → E.client.State → Type 0
  ChargedProcessed s (processed r) s' =
      (M.meter.input s' ≡ M.meter.input s + r.pipeline.extraction.input_tokens)
      × (M.meter.output s' ≡ M.meter.output s + r.pipeline.extraction.output_tokens)
  ChargedProcessed s (processing_error r e) s' =
      (M.meter.input s' ≡ M.meter.input s + e.input_tokens)
      × (M.meter.output s' ≡ M.meter.output s + e.output_tokens)
  ChargedProcessed s (raised e) s' = Unit

  module _ (s s' : E.client.State) (t : String) (x : StrategyResult) (d : ℕ)
      (i : M.meter.input s' ≡ M.meter.input s + x.input_tokens)
      (o : M.meter.output s' ≡ M.meter.output s + x.output_tokens) where
    scores-Charged :
        (v : ValidationResult) (m : Result (Dict ℕ))
        → IsOther m
        → ChargedPipeline s (pipeline_result t x d v m) s'
    scores-Charged v (ok m) h = (i, o)
    scores-Charged v (err (Error.extraction e)) h = absurd h
    scores-Charged v (err _) h = tt

    scored-IsOther : (data' : Dict _) (r : Result _) → get_schema t ≡ r → IsOther (scored data' r)
    scored-IsOther data' (ok schema) e = tt
    scored-IsOther data' (err (Error.extraction f)) e = get_schema_own t f e refl
    scored-IsOther data' (err _) e = tt

    score_confidence_map-IsOther :
        (extracted : Option (Dict _)) → IsOther (score_confidence_map t extracted)
    unfolding score_confidence_map
    score_confidence_map-IsOther extracted = scored-IsOther _ _ refl

    validated-Charged :
        (v : Result ValidationResult) → IsOther v → ChargedPipeline s (score_validated t x d v) s'
    validated-Charged (ok v) h = scores-Charged v _ (score_confidence_map-IsOther v.extracted_data)
    validated-Charged (err (Error.extraction e)) h = absurd h
    validated-Charged (err _) h = tt

  abbrev after :
      String → ℕ → Result StrategyResult → E.client.State → Result PipelineResult × E.client.State
  after = after_extraction E.client E.now E.pydantic E.model E.max_retries

  after-Charged :
      (s : E.client.State) (t : String) (started : ℕ) (x : Result StrategyResult)
      (s' : E.client.State)
      → ChargedPages M.meter.input M.meter.output s x s'
      → let out = after t started x s' in ChargedPipeline s out.0 out.1
  after-Charged s t started (ok x) s' h =
      validated-Charged s (E.now s').1 t x _ (M.now_input s' ∙ h.0) (M.now_output s' ∙ h.1) _
        (validate_extraction-IsOther E.pydantic t x.raw_output)
  after-Charged s t started (err (Error.extraction e)) s' h = h
  after-Charged s t started (err _) s' h = tt

  Charged-earlier :
      (s t : E.client.State) (p : Processed) (s' : E.client.State)
      → M.meter.input t ≡ M.meter.input s
      → M.meter.output t ≡ M.meter.output s
      → ChargedProcessed t p s'
      → ChargedProcessed s p s'
  Charged-earlier s t (processed r) s' i o h = omega arith
  Charged-earlier s t (processing_error r e) s' i o h = omega arith
  Charged-earlier s t (raised e) s' i o h = tt

  outcome-Charged :
      (s : E.client.State) (r : Resolved) (p : Result PipelineResult) (s' : E.client.State)
      → ChargedPipeline s p s'
      → ChargedProcessed s (processing_outcome r p) s'
  outcome-Charged s r (ok p) s' h = h
  outcome-Charged s r (err (Error.extraction e)) s' h = h
  outcome-Charged s r (err _) s' h = tt

  run_pipeline-Charged :
      (pages : List String) (r : Result Resolved) (s : E.client.State)
      → let out = run_pipeline E pages r s in ChargedProcessed s out.0 out.1
  unfolding run_pipeline run_resolved
  run_pipeline-Charged pages (ok r) s =
      let (started, t) = E.now s in
      Charged-earlier s t _ _ (M.now_input s) (M.now_output s) (
        outcome-Charged t r _ _ (
          after-Charged t r.doc_type started _ _ (
            extract_from_pages-Charged M.meter.input M.meter.output
              (extract E.client E.model E.max_retries) r.doc_type
              (λ text u.
                Charged-of-Spends M.meter u _ _
                  (extract-tokens M.meter E.model E.max_retries text r.doc_type u))
              pages r.strategy t)))
  run_pipeline-Charged pages (err e) s = tt

  -- From end to end: the tokens that are handed on for a document, or with the `ExtractionError`
  -- that ended it, are exactly those that the provider's replies to its tool calls have reported,
  -- with every retry, failed page and page without a useful field counted once.
  pub process_pages-Charged :
      (pages : List String) (page_count : ℕ) (doc_type : Option String) (strategy : Option Strategy)
      (s : E.client.State)
      → let out = process_pages E pages page_count doc_type strategy s in
        ChargedProcessed s out.0 out.1
  unfolding process_pages resolve_input classify
  process_pages-Charged pages page_count none strategy s =
      Charged-earlier s _ _ _ (M.text_input _ _ _ s) (M.text_output _ _ _ s)
        (run_pipeline-Charged pages _ _)
  process_pages-Charged pages page_count (some t) strategy s = run_pipeline-Charged pages _ s
