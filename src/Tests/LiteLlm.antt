-- ===== src/Tests/LiteLlm.antt =====
-- Runs of app/integrations/llm/litellm_client.py: the schema of an invoice with its line items.
use structured_data_extracto.Base.{
  ℕ, suc, none, some, List, [], ◌∷◌, ◌≡◌, refl, arith, text_eq, lower, put, subst, codes,
  Bool-cases, inl, inr,
}
use structured_data_extracto.Errors.{Error}
use structured_data_extracto.Exec.{ok, err}
use structured_data_extracto.Value.{
  Value, str, list, dict, nil, cons, Fields, end, field, to_fields,
}
use structured_data_extracto.Schema.{DocType, get_schema}
use structured_data_extracto.Llm.{ToolRequest}
use structured_data_extracto.ToolCall.{extract}
use structured_data_extracto.ToolCall.Raises.{IsExtracted}
use structured_data_extracto.LiteLlm.Schema.{
  find_name, without, simplify_schema, simplify, resolve, lookup, last_segment, removed, built,
  update, primary_type, non_null_types,
}
use structured_data_extracto.LiteLlm.Schema.Terminates.{Below, IsAcyclic, simplify_schema-returns}
use structured_data_extracto.LiteLlm.Schema.Settles.{IsDict}
use structured_data_extracto.LiteLlm.Client.{
  Completion, dict_arguments, Provider, completion_request, call_tool, litellm_client,
}
use structured_data_extracto.LiteLlm.Client.Replies.{IsAnswer, call_tool-IsAnswer}
use structured_data_extracto.Tests.Provider.{vendor}
use structured_data_extracto.LiteLlm.Extraction.{extract-Ends}

abbrev line_item : Fields
line_item = field "type" (str "object") (field "pattern" (str "x") end)

abbrev defs : Fields
defs = field "LineItem" (dict line_item) end

abbrev amount : Value
amount = dict (
    field "anyOf"
      (list (
        cons (dict (field "type" (str "number") end))
          (cons (dict (field "type" (str "null") end)) nil)))
      end)

abbrev properties : Fields
properties =
    field "item" (dict (field "$ref" (str "#/$defs/LineItem") end)) (field "total" amount end)

abbrev schema : Fields
schema = field "$defs" (dict defs) (field "properties" (dict properties) end)

abbrev rank : List ℕ → ℕ
rank name = 0

schema_simplified :
    simplify_schema 2 (dict schema)
    ≡ ok (
        dict (
          field "properties"
            (dict (
              field "item"
                (dict (field "type" (str "object") end))
                (field "total" (dict (field "type" (str "number") end)) end)))
            end))
unfolding simplify_schema simplify resolve without lookup last_segment removed built put update
    primary_type non_null_types
schema_simplified = refl

named_line_item :
    (name : List ℕ) (body : Value) → find_name defs name ≡ some body → dict line_item ≡ body
named_line_item name body h = elim (Bool-cases (text_eq (codes "LineItem") name)) [
  | inl e ↦ ground arith
  | inr e ↦ ground arith
]

defs-IsAcyclic : IsAcyclic rank defs
unfolding Below
defs-IsAcyclic name body h =
    subst (λ v. IsDict v × Below rank 0 v) (named_line_item name body h) (tt, (tt, (tt, (tt, tt))))

schema-Below : Below rank 1 (dict (to_fields (without "$defs" schema)))
unfolding Below without
schema-Below = (
  tt,
  ((tt, ((omega arith, (tt, tt)), ((tt, (((tt, (tt, tt)), ((tt, (tt, tt)), tt)), tt)), tt))), tt),
)

simplify_schema-returns_example :
    (w : Fields) × (simplify_schema 5 (dict schema) ≡ ok (dict w))
    × (simplify_schema 2 (dict schema) ≡ ok (dict w))
simplify_schema-returns_example =
    simplify_schema-returns rank schema defs 1 4 refl defs-IsAcyclic schema-Below (omega arith)

abbrev completion : Completion
completion = record {
  choices =
      record {
        content = none;
        refusal = none;
        tool_calls =
            record { name = some "extract_invoice"; arguments = dict_arguments vendor } ∷ [];
      }
      ∷ [];
  usage = some (record { prompt_tokens = 30; completion_tokens = 8 });
  block_reason = none;
}

-- A provider that counts the completions it is asked for.
abbrev litellm : Provider
litellm = record {
  State = ℕ;
  acompletion = λ q s. (ok completion, suc s);
  loads = λ text. err (Error.value_error text);
  model_json_schema = λ t. dict schema;
  depth = 1000;
}

abbrev question : ToolRequest
question = record {
  model = "gpt-4.1";
  system_prompt = "Extract.";
  user_content = "Invoice 7";
  tool = record { name = "extract_invoice"; description = ""; parameters = DocType.invoice };
  tool_name = "extract_invoice";
  extra_messages = none;
}

call_tool-IsAnswer_example :
    let asked = litellm.acompletion (completion_request litellm question (dict schema)) 3 in
    let out = call_tool litellm question 3 in
    (out.1 ≡ asked.1) × IsAnswer litellm "extract_invoice" asked.0 out.0
unfolding lower
call_tool-IsAnswer_example = call_tool-IsAnswer litellm question 3 (dict schema) refl

invoice_schema : get_schema "invoice" ≡ ok DocType.invoice
unfolding get_schema
invoice_schema = refl

extract-Ends_example :
    IsExtracted 2 (extract (litellm_client litellm) "gemini/flash" 2 "Invoice 7" "invoice" 0).0
extract-Ends_example =
    extract-Ends litellm rank schema defs 1 2 DocType.invoice "gemini/flash" "Invoice 7" "invoice" 0
      invoice_schema refl refl defs-IsAcyclic schema-Below (omega arith)
