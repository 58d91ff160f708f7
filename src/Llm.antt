-- ===== src/Llm.antt =====
-- app/integrations/llm/client.py: the client interface and its results.
use structured_data_extracto.Base.{ℕ, String, Option, some, List, ◌+◌, ◌≡◌, ◌≢◌}
use structured_data_extracto.Base.{Dict}
use structured_data_extracto.Errors.{Error, ExtractionFailure}
use structured_data_extracto.Exec.{Result, ok, err, Exec}
use structured_data_extracto.Value.{Value}
use structured_data_extracto.Schema.{Tool}

pub record Message : Type 0 where
  pub role : String
  pub content : String

pub record TextCompletionResult : Type 0 where
  pub content : String
  pub input_tokens : ℕ
  pub output_tokens : ℕ

pub record ToolCallResult : Type 0 where
  pub arguments : Option (Dict Value)
  pub input_tokens : ℕ
  pub output_tokens : ℕ

pub record ToolRequest : Type 0 where
  pub model : String
  pub system_prompt : String
  pub user_content : String
  pub tool : Tool
  pub tool_name : String
  pub extra_messages : Option (List Message)

-- `LLMClient`. The state is what the provider and the network hold.
pub record LlmClient : Type 1 where
  pub State : Type 0
  pub generate_text : String → List Message → ℕ → Exec State TextCompletionResult
  pub call_tool : ToolRequest → Exec State (Option ToolCallResult)

-- The tokens that a reply reports.
abbrev pub reply_input : Result (Option ToolCallResult) → ℕ
reply_input (ok (some r)) = r.input_tokens
reply_input _ = 0

abbrev pub reply_output : Result (Option ToolCallResult) → ℕ
reply_output (ok (some r)) = r.output_tokens
reply_output _ = 0

-- A meter on a client: what its tool calls have reported so far. The interface documents
-- `LLMClientError` as the exception of a call; `ExtractionError` is its callers'.
pub record Meter (C : LlmClient) : Type 0 where
  pub input : C.State → ℕ
  pub output : C.State → ℕ
  pub calls : C.State → ℕ
  pub input_call :
      (q : ToolRequest) (s : C.State)
      → input (C.call_tool q s).1 ≡ input s + reply_input (C.call_tool q s).0
  pub output_call :
      (q : ToolRequest) (s : C.State)
      → output (C.call_tool q s).1 ≡ output s + reply_output (C.call_tool q s).0
  pub calls_call : (q : ToolRequest) (s : C.State) → calls (C.call_tool q s).1 ≡ calls s + 1
  pub own_errors :
      (q : ToolRequest) (s : C.State) (e : ExtractionFailure)
      → (C.call_tool q s).0 ≢ err (Error.extraction e)
