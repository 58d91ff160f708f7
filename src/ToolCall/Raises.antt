-- ===== src/ToolCall/Raises.antt =====
-- What an extraction of app/services/tool_call_extractor.py raises when the client raises nothing but
-- `LLMClientError`.
use structured_data_extracto.Base.{
  ℕ, zero, suc, ◌+◌, ◌≤◌, String, Option, none, some, ◌≡◌, refl, arith, Option-cases, Bool-cases,
  leb, inl, inr, ◌<◌,
}
use structured_data_extracto.Errors.{Error, ExtractionFailure}
use structured_data_extracto.Exec.{Result, ok, err}
use structured_data_extracto.Schema.{DocType, Tool, get_schema, get_tool}
use structured_data_extracto.Llm.{ToolCallResult, ToolRequest, LlmClient}
use structured_data_extracto.ToolCall.{
  Extracted, Progress, start, turn, counted, follow, request, attempt, extract_within, extract,
}
use structured_data_extracto.ToolCall.Rounds.{used_up}

abbrev pub OnlyClientErrors {ℓ} : {A : Type ℓ} → Result A → Type 0
OnlyClientErrors (ok a) = Unit
OnlyClientErrors (err e) = (m : String) × (e ≡ Error.llm_client m)

-- The arguments of a tool call, or an `ExtractionError` with its attempts counted.
abbrev pub IsExtracted : ℕ → Result Extracted → Type 0
IsExtracted max_retries (ok x) = Unit
IsExtracted max_retries (err e) =
    (f : ExtractionFailure) × (e ≡ Error.extraction f)
    × (1 ≤ f.attempts)
    × (f.attempts ≤ max_retries + 1)

module _ {ℓ} {S : Type ℓ} (max_retries : ℕ) where
  turn-IsExtracted :
      (next : Progress → S → Result Extracted × S) (p : Progress) (s : S)
      (r : Result (Option ToolCallResult))
      → OnlyClientErrors r
      → p.attempts ≤ max_retries
      → ((q : Progress) → q.attempts ≡ p.attempts + 1 → IsExtracted max_retries (next q s).0)
      → IsExtracted max_retries (follow next (turn max_retries (counted p) r) s).0
  unfolding turn
  turn-IsExtracted next p s (ok none) c le ih = ih _ refl
  turn-IsExtracted next p s (ok (some r)) c le ih = elim (Option-cases r.arguments) [
    | inl e ↦ rw e (ih _ refl)
    | inr (a, e) ↦ rw e tt
  ]
  turn-IsExtracted next p s (err e) c le ih = rw c.1 (_, refl, omega arith, omega arith)

module _ (C : LlmClient) (model : String) (max_retries : ℕ) (schema : DocType)
    (client : (q : ToolRequest) (s : C.State)
      → q.tool.parameters ≡ schema
      → OnlyClientErrors (C.call_tool q s).0) where
  attempt-IsExtracted :
      (fuel : ℕ) (text doc_type : String) (tool : Tool) (p : Progress) (s : C.State)
      → tool.parameters ≡ schema
      → p.attempts ≤ max_retries + 1
      → max_retries + 1 < p.attempts + fuel
      → IsExtracted max_retries (attempt C model max_retries fuel text doc_type tool p s).0
  unfolding attempt request
  attempt-IsExtracted zero text doc_type tool p s t low more =
      absurd (used_up max_retries p.attempts low more)
  attempt-IsExtracted (suc n) text doc_type tool p s t low more =
      elim (Bool-cases (leb p.attempts max_retries)) [
        | inl e ↦ rw e (
            turn-IsExtracted max_retries (attempt C model max_retries n text doc_type tool) p _ _
              (client (request C model max_retries text doc_type tool p) s t) (ground (arith, e))
              (λ q h.
                attempt-IsExtracted n text doc_type tool q _ t (ground (arith, h, e))
                  (omega arith)))
        | inr e ↦ rw e (_, refl, ground (arith, e), low)
      ]

  -- With such a client, an extraction for a known document type ends with arguments or with an
  -- `ExtractionError`.
  pub extract-IsExtracted :
      (text doc_type : String) (s : C.State)
      → get_schema doc_type ≡ ok schema
      → IsExtracted max_retries (extract C model max_retries text doc_type s).0
  unfolding extract extract_within get_tool
  extract-IsExtracted text doc_type s e = rw e (
      attempt-IsExtracted (max_retries + 2) text doc_type _ start s refl (omega arith)
        (omega arith))
