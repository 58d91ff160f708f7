-- ===== src/Evaluation/Charges.antt =====
-- The results of scripts/evaluate_strategies.py and what the provider has charged for them.
use structured_data_extracto.Base.{
  ℕ, ◌+◌, String, Option, none, some, List, [], ◌∷◌, ◌≡◌, ◌∙◌, refl, ap, map, sum_of, arith, Dict,
  get,
}
use structured_data_extracto.Errors.{Error}
use structured_data_extracto.Exec.{Result, ok, err, Exec, lift, pure, ◌>>=◌}
use structured_data_extracto.ToolCall.{Extracted}
use structured_data_extracto.Pages.Runner.{Strategy, StrategyResult, extract_from_pages}
use structured_data_extracto.Pages.Runner.Tokens.{
  Charged, ChargedText, ChargedPages, extract_from_pages-Charged,
}
use structured_data_extracto.Validation.{ValidationResult, validate_extraction}
use structured_data_extracto.Validation.Quality.{Pydantic}
use structured_data_extracto.Validation.Raises.{IsOther, validate_extraction-IsOther}
use structured_data_extracto.Costs.{ModelTokenPrice, or_no_price, price_for_model}
use structured_data_extracto.Evaluation.{
  Evaluation, Attempted, succeeded, on_validation, on_extraction, handled, tokens_cost, evaluation,
  estimate_cost, evaluate_strategy, evaluate_strategies, model_or,
}

module _ {S : Type 0} (input output : S → ℕ) where
  -- What the tokens of an attempt are, as `try` leaves them.
  abbrev Counted : S → Result Attempted → S → Type 0
  Counted s (ok a) s' =
      (input s' ≡ input s + a.input_tokens) × (output s' ≡ output s + a.output_tokens)
  Counted s (err (Error.extraction e)) s' = ⊥
  Counted s (err _) s' = Unit

  handled-Counted :
      {A : Type 0} (in_of out_of : A → ℕ) (s s' : S) (e : Error)
      → Charged input output in_of out_of s (err e) s'
      → Counted s (handled e) s'
  handled-Counted in_of out_of s s' (Error.extraction e) h = h
  handled-Counted in_of out_of s s' _ h = tt

  on_validation-Counted :
      (s s' : S) (x : StrategyResult) (v : Result ValidationResult)
      → IsOther v
      → ChargedPages input output s (ok x) s'
      → Counted s (on_validation x v) s'
  unfolding succeeded
  on_validation-Counted s s' x (ok v) o h = h
  on_validation-Counted s s' x (err (Error.extraction e)) o h = absurd o
  on_validation-Counted s s' x (err _) o h = tt

  module _ (P : Pydantic) (doc_type : String) where
    on_extraction-Counted :
        (s s' : S) (x : Result StrategyResult)
        → ChargedPages input output s x s'
        → Counted s (on_extraction (validate_extraction P doc_type) x) s'
    on_extraction-Counted s s' (ok x) h =
        on_validation-Counted s s' x _ (validate_extraction-IsOther P doc_type x.raw_output) h
    on_extraction-Counted s s' (err e) h =
        handled-Counted (λ (x : StrategyResult). x.input_tokens) (λ x. x.output_tokens) s s' e h

  -- One result of a strategy, with what was charged for it.
  abbrev IsOne : Strategy → S → Result Evaluation → S → Type 0
  IsOne strategy s (ok r) s' =
      (r.strategy ≡ strategy)
      × (input s' ≡ input s + r.input_tokens)
      × (output s' ≡ output s + r.output_tokens)
  IsOne strategy s (err (Error.extraction e)) s' = ⊥
  IsOne strategy s (err _) s' = Unit

  -- The results of the strategies in their order, with what was charged for all of them.
  abbrev pub AreEvaluated : List Strategy → S → Result (List Evaluation) → S → Type 0
  AreEvaluated strategies s (ok rs) s' =
      (map (λ r. r.strategy) rs ≡ strategies)
      × (input s' ≡ input s + sum_of (λ r. r.input_tokens) rs)
      × (output s' ≡ output s + sum_of (λ r. r.output_tokens) rs)
  AreEvaluated strategies s (err (Error.extraction e)) s' = ⊥
  AreEvaluated strategies s (err _) s' = Unit

  cost-IsOne :
      (strategy : Strategy) (a : Attempted) (s s' : S) (price : Option ModelTokenPrice)
      (model : String)
      → Counted s (ok a) s'
      → let out =
          (lift (tokens_cost a.input_tokens a.output_tokens (or_no_price model price)) >>= λ cost.
          pure {S = S} (evaluation strategy a cost))
            s' in
        IsOne strategy s out.0 out.1
  cost-IsOne strategy a s s' (some price) model h = (refl, h.0, h.1)
  cost-IsOne strategy a s s' none model h = tt

  module _ (prices : Dict ModelTokenPrice) (extraction_model : String) (model : Option String) where
    attempted-IsOne :
        (strategy : Strategy) (r : Result Attempted) (s s' : S)
        → Counted s r s'
        → let out =
            (lift r >>= λ a.
            lift (
              estimate_cost
                (price_for_model prices)
                extraction_model
                model
                a.input_tokens
                a.output_tokens)
            >>= λ cost. pure {S = S} (evaluation strategy a cost))
              s' in
          IsOne strategy s out.0 out.1
    unfolding estimate_cost price_for_model
    attempted-IsOne strategy (ok a) s s' h =
        cost-IsOne strategy a s s' (get prices (model_or model extraction_model))
          (model_or model extraction_model) h
    attempted-IsOne strategy (err (Error.extraction e)) s s' h = absurd h
    attempted-IsOne strategy (err _) s s' h = tt

    module _ (extract : String → String → Exec S Extracted) (P : Pydantic) (pages : List String)
        (doc_type : String)
        (charges : (text : String) (s : S)
          → ChargedText input output s
              (extract text doc_type s).0
              (extract text doc_type s).1) where
      abbrev one : Strategy → Exec S Evaluation
      one =
          evaluate_strategy (price_for_model prices) extraction_model model extract P pages doc_type

      abbrev all_of : List Strategy → Exec S (List Evaluation)
      all_of =
          evaluate_strategies (price_for_model prices) extraction_model model extract P pages
            doc_type

      one-IsOne :
          (strategy : Strategy) (s : S) → IsOne strategy s (one strategy s).0 (one strategy s).1
      unfolding evaluate_strategy
      one-IsOne strategy s =
          let x = extract_from_pages extract doc_type pages strategy s in
          attempted-IsOne strategy (on_extraction (validate_extraction P doc_type) x.0) s x.1 (
            on_extraction-Counted P doc_type s x.1 x.0
              (extract_from_pages-Charged input output extract doc_type charges pages strategy s))

      joined-AreEvaluated :
          (strategy : Strategy) (strategies : List Strategy) (s s' s'' : S) (r : Evaluation)
          (rs : Result (List Evaluation))
          → IsOne strategy s (ok r) s'
          → AreEvaluated strategies s' rs s''
          → let out = ((λ _. (rs, s'')) >>= λ rs. pure {S = S} (r ∷ rs)) s' in
            AreEvaluated (strategy ∷ strategies) s out.0 out.1
      joined-AreEvaluated strategy strategies s s' s'' r (ok rs) h k = (
        ap (λ t. t ∷ map (λ x. x.strategy) rs) h.0 ∙ ap (λ ts. strategy ∷ ts) k.0,
        omega arith,
        omega arith,
      )
      joined-AreEvaluated strategy strategies s s' s'' r (err (Error.extraction e)) h k = absurd k
      joined-AreEvaluated strategy strategies s s' s'' r (err _) h k = tt

      next-AreEvaluated :
          (strategy : Strategy) (strategies : List Strategy) (s s' : S) (r : Result Evaluation)
          → IsOne strategy s r s'
          → ((t : S) → AreEvaluated strategies t (all_of strategies t).0 (all_of strategies t).1)
          → let out =
              ((λ _. (r, s')) >>= λ x. all_of strategies >>= λ xs. pure {S = S} (x ∷ xs)) s in
            AreEvaluated (strategy ∷ strategies) s out.0 out.1
      next-AreEvaluated strategy strategies s s' (ok r) h ih =
          joined-AreEvaluated strategy strategies s s' _ r _ h (ih s')
      next-AreEvaluated strategy strategies s s' (err (Error.extraction e)) h ih = absurd h
      next-AreEvaluated strategy strategies s s' (err _) h ih = tt

      -- If the extractor's tokens are what a meter counts, the results of an evaluation are one for
      -- each strategy, in their order, failed extractions included, and their tokens add up to what
      -- was charged; an `ExtractionError` never ends an evaluation.
      pub evaluate_strategies-AreEvaluated :
          (strategies : List Strategy) (s : S)
          → AreEvaluated strategies s (all_of strategies s).0 (all_of strategies s).1
      unfolding evaluate_strategies
      evaluate_strategies-AreEvaluated [] s = (refl, omega arith, omega arith)
      evaluate_strategies-AreEvaluated (strategy ∷ strategies) s =
          next-AreEvaluated strategy strategies s _ _ (one-IsOne strategy s)
            (λ t. evaluate_strategies-AreEvaluated strategies t)
