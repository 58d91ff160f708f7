-- ===== src/LiteLlm/Client.antt =====
-- `LiteLLMClient` of app/integrations/llm/litellm_client.py, on the completions of LiteLLM.
pub mod Replies
use structured_data_extracto.Base.{
  ℕ, String, Bool, true, false, ◌<>◌, Option, none, some, List, [], ◌∷◌, ◌++◌, ◌==◌, Dict, or_else,
  nonempty, codes, lower, has_infix, if◌then◌else◌,
}
use structured_data_extracto.Errors.{Error}
use structured_data_extracto.Exec.{Result, ok, err, Exec, lift, ◌>>=◌}
use structured_data_extracto.Value.{Value}
use structured_data_extracto.Schema.{DocType, Tool}
use structured_data_extracto.Llm.{
  Message, TextCompletionResult, ToolCallResult, ToolRequest, LlmClient,
}
use structured_data_extracto.LiteLlm.Schema.{simplify_schema}

pub data ToolChoice : Type 0 where
  auto : ToolChoice
  function : String → ToolChoice

pub record ToolDefinition : Type 0 where
  pub name : String
  pub description : String
  pub parameters : Value

pub record CompletionRequest : Type 0 where
  pub model : String
  pub messages : List Message
  pub max_tokens : Option ℕ
  pub tools : List ToolDefinition
  pub tool_choice : Option ToolChoice

-- What the client reads of a completion. The arguments of a tool call are a dict or JSON text.
pub data Arguments : Type 0 where
  dict_arguments : Dict Value → Arguments
  text_arguments : String → Arguments

pub record ToolCall : Type 0 where
  pub name : Option String
  pub arguments : Arguments

pub record Choice : Type 0 where
  pub content : Option String
  pub refusal : Option String
  pub tool_calls : List ToolCall

pub record TokenUsage : Type 0 where
  pub prompt_tokens : ℕ
  pub completion_tokens : ℕ

-- A completion with a list of choices; one whose `choices` is `None` is not modelled.
pub record Completion : Type 0 where
  pub choices : List Choice
  pub usage : Option TokenUsage
  pub block_reason : Option String

-- `litellm.acompletion`; `json.loads` of a text of arguments, for texts of an object or of `null` (the
-- code hands on any other JSON value as well, which is not modelled);
-- pydantic's `model_json_schema`; and how many nested calls Python's stack has room for.
pub record Provider : Type 1 where
  pub State : Type 0
  pub acompletion : CompletionRequest → Exec State Completion
  pub loads : String → Result (Option (Dict Value))
  pub model_json_schema : DocType → Value
  pub depth : ℕ

abbrev pub completion_failed : Error
completion_failed = Error.llm_client "LLM completion failed"

abbrev pub refused_request : String → Error
refused_request reason =
    Error.llm_client ("LLM completion failed: request was refused. Reason: " <> reason)

abbrev empty_choices : Error
empty_choices =
    Error.llm_client
      "LLM completion failed: provider returned no choices (possible content filter or malformed response)"

abbrev pub no_choices : Option String → Error
no_choices none = empty_choices
no_choices (some reason) =
    if reason == ""
    then empty_choices
    else Error.llm_client ("LLM completion blocked by provider safety filter: " <> reason)

abbrev pub prompt_of : Option TokenUsage → ℕ
prompt_of none = 0
prompt_of (some u) = u.prompt_tokens

abbrev pub completion_of : Option TokenUsage → ℕ
completion_of none = 0
completion_of (some u) = u.completion_tokens

-- `isinstance(refusal, str) and refusal`
abbrev pub unless_refused {ℓ} : {A : Type ℓ} → Option String → Result A → Result A
unless_refused none r = r
unless_refused (some reason) r = if reason == "" then r else err (refused_request reason)

abbrev pub text_result : Completion → List Choice → Result TextCompletionResult
text_result c [] = err completion_failed
text_result c (choice ∷ _) = unless_refused choice.refusal (
    ok (record {
      content = or_else choice.content "";
      input_tokens = prompt_of c.usage;
      output_tokens = completion_of c.usage;
    }))

-- An exception of LiteLLM becomes an `LLMClientError`.
abbrev pub then_read {ℓ} : {A : Type ℓ} → (Completion → Result A) → Result Completion → Result A
then_read read (ok c) = read c
then_read read (err e) = err completion_failed

abbrev pub tool_result : Completion → Option (Dict Value) → ToolCallResult
tool_result c arguments = record {
  arguments = arguments;
  input_tokens = prompt_of c.usage;
  output_tokens = completion_of c.usage;
}

abbrev pub mismatch : String → Option String → Error
mismatch expected name = Error.llm_client (
    "Tool name mismatch: expected tool call '"
    <> expected
    <> "', got '"
    <> or_else name "None"
    <> "'")

abbrev pub is_named : String → Option String → Bool
is_named expected none = false
is_named expected (some name) = name == expected

abbrev pub loaded : Completion → Result (Option (Dict Value)) → Result (Option ToolCallResult)
loaded c (ok arguments) = ok (some (tool_result c arguments))
loaded c (err e) = err (Error.llm_client "Failed to parse tool call arguments")

module _ (P : Provider) where
  abbrev pub read_arguments : Completion → Arguments → Result (Option ToolCallResult)
  read_arguments c (dict_arguments d) = ok (some (tool_result c (some d)))
  read_arguments c (text_arguments text) = loaded c (P.loads text)

  abbrev pub read_call : Completion → String → List ToolCall → Result (Option ToolCallResult)
  read_call c tool_name [] = ok (some (tool_result c none))
  read_call c tool_name (call ∷ _) =
      if is_named tool_name call.name
      then read_arguments c call.arguments
      else err (mismatch tool_name call.name)

  abbrev pub read_choice : Completion → String → List Choice → Result (Option ToolCallResult)
  read_choice c tool_name [] = err (no_choices c.block_reason)
  read_choice c tool_name (choice ∷ _) =
      unless_refused choice.refusal (read_call c tool_name choice.tool_calls)

  -- `LiteLLMClient.generate_text`
  unfoldable pub generate_text : String → List Message → ℕ → Exec P.State TextCompletionResult
  generate_text model messages max_tokens s =
      let (r, s') =
        P.acompletion
          (record {
            model = model;
            messages = messages;
            max_tokens = some max_tokens;
            tools = [];
            tool_choice = none;
          })
          s in
      (then_read (λ c. text_result c c.choices) r, s')

  abbrev pub is_gemini : String → Bool
  is_gemini model = has_infix (lower (codes model)) (codes "gemini")

  -- The parameters of the tool as they are sent.
  abbrev pub parameters_for : String → Value → Result Value
  parameters_for model parameters =
      if is_gemini model then simplify_schema P.depth parameters else ok parameters

  abbrev choice_for : String → String → ToolChoice
  choice_for model tool_name = if is_gemini model then auto else function tool_name

  abbrev messages_for : ToolRequest → List Message
  messages_for q =
      record { role = "system"; content = q.system_prompt }
      ∷ record { role = "user"; content = q.user_content }
      ∷ or_else q.extra_messages []

  abbrev pub completion_request : ToolRequest → Value → CompletionRequest
  completion_request q parameters = record {
    model = q.model;
    messages = messages_for q;
    max_tokens = none;
    tools =
        record { name = q.tool.name; description = q.tool.description; parameters = parameters }
        ∷ [];
    tool_choice = some (choice_for q.model q.tool_name);
  }

  abbrev pub ask : ToolRequest → Value → Exec P.State (Option ToolCallResult)
  ask q parameters s =
      let (r, s') = P.acompletion (completion_request q parameters) s in
      (then_read (λ c. read_choice c q.tool_name c.choices) r, s')

  -- `LiteLLMClient.call_tool`
  unfoldable pub call_tool : ToolRequest → Exec P.State (Option ToolCallResult)
  call_tool q = do
    parameters ← lift (parameters_for q.model (P.model_json_schema q.tool.parameters))
    ask q parameters

  abbrev pub litellm_client : LlmClient
  litellm_client = record { State = P.State; generate_text = generate_text; call_tool = call_tool }
