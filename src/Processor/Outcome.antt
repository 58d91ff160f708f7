-- ===== src/Processor/Outcome.antt =====
-- What app/services/document_processor.py resolves a document with, and what it hands on.
use structured_data_extracto.Base.{
  ℕ, ◌<◌, ◌≤◌, String, true, false, Option, none, some, List, [], ◌∷◌, ◌≡◌, ◌⊎◌, contains,
}
use structured_data_extracto.Errors.{Error}
use structured_data_extracto.Exec.{Result, ok, err}
use structured_data_extracto.Schema.{list_types}
use structured_data_extracto.Pages.Runner.{Strategy}
use structured_data_extracto.Classifier.{UsageEvent, ClassificationResult, classify}
use structured_data_extracto.Processor.Pipeline.{PipelineResult, run_resolved}
use structured_data_extracto.Processor.{
  Resolved, Processed, processed, processing_error, raised, Engine, first_page,
}

abbrev Resolves : Option Strategy → ℕ → Strategy → Type 0
Resolves (some asked) page_count st = st ≡ asked
Resolves none page_count st =
    ((10 < page_count) × (st ≡ Strategy.smart)) ⊎ ((page_count ≤ 10) × (st ≡ Strategy.full))

abbrev OfType : String → Result PipelineResult → Type 0
OfType t (ok p) = p.doc_type ≡ t
OfType t (err e) = Unit

module _ (E : Engine) (pages : List String) (page_count : ℕ) (strategy : Option Strategy)
    (s : E.client.State) where
  abbrev classified : Result ClassificationResult × E.client.State
  classified = classify E.client E.classifier_model (first_page pages) s

  -- The client as the pipeline finds it: the classifier has called it exactly if no type is asked for.
  abbrev entered : Option String → E.client.State
  entered none = classified.1
  entered (some given) = s

  -- What a document is resolved with: a registered type, which is the classifier's, with its usage, or
  -- the one that was asked for, with none.
  abbrev Chosen : Option String → String → List UsageEvent → Type 0
  Chosen none t events =
      (contains list_types t ≡ true)
      × ((c : ClassificationResult) × (classified.0 ≡ ok c)
          × (t ≡ c.doc_type)
          × (events ≡ c.usage ∷ []))
  Chosen (some given) t events = (contains list_types t ≡ true) × (t ≡ given) × (events ≡ [])

  abbrev Unsupported : String → Error → Type 0
  Unsupported t e = (contains list_types t ≡ false) × (e ≡ Error.unsupported_document_type t)

  -- Why a document is not resolved.
  abbrev NotChosen : Option String → Error → Type 0
  NotChosen none e =
      (classified.0 ≡ err e)
      ⊎ ((c : ClassificationResult) × (classified.0 ≡ ok c) × Unsupported c.doc_type e)
  NotChosen (some given) e = Unsupported given e

  -- The pipeline for a type and a strategy, from where it is entered.
  abbrev piped : Option String → String → Strategy → Result PipelineResult × E.client.State
  piped doc_type t st =
      run_resolved E.client E.now E.pydantic E.model E.max_retries pages t st (entered doc_type)

  abbrev pub IsProcessed : Option String → Processed → E.client.State → Type 0
  IsProcessed doc_type (processed r) s' =
      (st : Strategy) × Resolves strategy page_count st
      × Chosen doc_type r.pipeline.doc_type r.classifier_usage_events
      × (piped doc_type r.pipeline.doc_type st ≡ (ok r.pipeline, s'))
  IsProcessed doc_type (processing_error r e) s' =
      Resolves strategy page_count r.strategy
      × Chosen doc_type r.doc_type r.usage_events
      × (piped doc_type r.doc_type r.strategy ≡ (err (Error.extraction e), s'))
  IsProcessed doc_type (raised e) s' =
      (NotChosen doc_type e × (s' ≡ entered doc_type))
      ⊎ ((t : String) × (events : List UsageEvent) × (st : Strategy) × Resolves strategy page_count
            st
          × Chosen doc_type t events
          × (piped doc_type t st ≡ (err e, s')))

  abbrev AsResolved : Option String → Result Resolved → Type 0
  AsResolved doc_type (ok r) =
      Resolves strategy page_count r.strategy × Chosen doc_type r.doc_type r.usage_events
  AsResolved doc_type (err e) = NotChosen doc_type e
