-- ===== src/LiteLlm/Extraction.antt =====
-- The tool call extractor (app/services/tool_call_extractor.py) with LiteLLM's client
-- (app/integrations/llm/litellm_client.py).
use structured_data_extracto.Base.{
  ℕ, zero, suc, ◌<◌, String, Option, List, ◌≡◌, ◌∙◌, refl, ap, arith, Bool-cases, inl, inr,
}
use structured_data_extracto.Exec.{Result, ok, err}
use structured_data_extracto.Value.{Value, dict, Fields, to_fields}
use structured_data_extracto.Schema.{DocType, get_schema}
use structured_data_extracto.Llm.{ToolCallResult, ToolRequest}
use structured_data_extracto.ToolCall.{extract}
use structured_data_extracto.ToolCall.Raises.{OnlyClientErrors, IsExtracted, extract-IsExtracted}
use structured_data_extracto.LiteLlm.Schema.{definitions, without, simplify_schema}
use structured_data_extracto.LiteLlm.Schema.Terminates.{Below, IsAcyclic, simplify_schema-returns}
use structured_data_extracto.LiteLlm.Client.{
  Completion, Provider, parameters_for, is_gemini, call_tool, litellm_client,
}
use structured_data_extracto.LiteLlm.Client.Replies.{IsAnswer, call_tool-IsAnswer}

answer-OnlyClientErrors :
    (P : Provider) (name : String) (c : Result Completion) (r : Result (Option ToolCallResult))
    → IsAnswer P name c r
    → OnlyClientErrors r
answer-OnlyClientErrors P name c (ok a) h = tt
answer-OnlyClientErrors P name (ok c) (err e) h = h.0
answer-OnlyClientErrors P name (err x) (err e) h = ("LLM completion failed", ground arith)

module _ (P : Provider) (rank : List ℕ → ℕ) (schema defs : Fields) (n : ℕ)
    (held : definitions schema ≡ dict defs) (acyclic : IsAcyclic rank defs)
    (below : Below rank n (dict (to_fields (without "$defs" schema)))) (room : n < P.depth) where
  simplify_schema-ok :
      (depth : ℕ) → n < depth → (w : Fields) × (simplify_schema depth (dict schema) ≡ ok (dict w))
  simplify_schema-ok zero lt = elim (no_room lt) [ ]
    where
      no_room : n < 0 → ⊥
      no_room = omega arith
  simplify_schema-ok (suc fuel) lt =
      let w = simplify_schema-returns rank schema defs n fuel held acyclic below (omega arith) in
      (w.0, w.1)

  parameters_for-ok : (model : String) → (w : Value) × (parameters_for P model (dict schema) ≡ ok w)
  parameters_for-ok model = elim (Bool-cases (is_gemini P model)) [
    | inl e ↦ rw e (let w = simplify_schema-ok P.depth room in (dict w.0, w.1))
    | inr e ↦ rw e (dict schema, refl)
  ]

  call_tool-OnlyClientErrors :
      (t : DocType) (q : ToolRequest) (s : P.State)
      → P.model_json_schema t ≡ dict schema
      → q.tool.parameters ≡ t
      → OnlyClientErrors (call_tool P q s).0
  call_tool-OnlyClientErrors t q s j e =
      let w = parameters_for-ok q.model in
      answer-OnlyClientErrors P q.tool_name _ (call_tool P q s).0
        (call_tool-IsAnswer P q s w.0 (
          ap (λ d. parameters_for P q.model (P.model_json_schema d)) e
          ∙ ap (parameters_for P q.model) j
          ∙ w.1)).1

-- With LiteLLM's client, an extraction for a known document type ends with the arguments of a tool
-- call or with an `ExtractionError` that counts at least one attempt and at most `max_retries + 1`:
-- whatever LiteLLM returns or raises and whichever model is asked. The JSON schema of the type has
-- definitions whose references can be ranked, and Python's stack has room for more nested calls than
-- the rank of the schema.
pub extract-Ends :
    (P : Provider) (rank : List ℕ → ℕ) (schema defs : Fields) (n max_retries : ℕ) (t : DocType)
    (model text doc_type : String) (s : P.State)
    → get_schema doc_type ≡ ok t
    → P.model_json_schema t ≡ dict schema
    → definitions schema ≡ dict defs
    → IsAcyclic rank defs
    → Below rank n (dict (to_fields (without "$defs" schema)))
    → n < P.depth
    → IsExtracted max_retries (extract (litellm_client P) model max_retries text doc_type s).0
extract-Ends P rank schema defs n max_retries t model text doc_type s g j h acyclic b room =
    extract-IsExtracted (litellm_client P) model max_retries t
      (λ q s' e. call_tool-OnlyClientErrors P rank schema defs n h acyclic b room t q s' j e) text
      doc_type s g
