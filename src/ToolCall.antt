-- ===== src/ToolCall.antt =====
-- app/services/tool_call_extractor.py: the tool call with its retries.
pub mod Loop
pub mod Rounds
pub mod Raises
use structured_data_extracto.Base.{
  ℕ, String, Bool, true, Option, none, some, List, [], ◌∷◌, ◌++◌, ◌+◌, zero, suc, ◌<>◌, leb, show,
  nonempty, if◌then◌else◌, Dict,
}
use structured_data_extracto.Errors.{Error, ExtractionFailure}
use structured_data_extracto.Exec.{Result, ok, err, Exec, pure, raise, lift, ◌>>=◌}
use structured_data_extracto.Value.{Value}
use structured_data_extracto.Schema.{Tool, get_tool}
use structured_data_extracto.Llm.{Message, ToolCallResult, ToolRequest, LlmClient}

abbrev pub extraction_system_prompt : String
extraction_system_prompt =
    "You are a document data extraction assistant. Your job is to extract structured data from the document text. You must call the extraction tool. Do not provide prose explanations."

abbrev pub retry_user_prompt : String
retry_user_prompt =
    "You must respond ONLY by calling the specified tool. Do not output prose or conversational replies."

-- `EXTRACTION_USER_PROMPT_TEMPLATE.format(text=text)`
abbrev pub user_prompt : String → String
user_prompt text =
    "Extract all structured data from this document.\n\nRules:\n- Preserve the exact numeric amounts stated in the document.\n- Normalize dates to ISO 8601 format (YYYY-MM-DD) when the date is stated.\n- Do not guess missing values.\n- Omit fields that are genuinely absent from the document.\n- Respond only by calling the extraction tool.\n\nDocument text:\n"
    <> text

-- `(arguments, total_input_tokens, total_output_tokens)`
pub record Extracted : Type 0 where
  pub raw_output : Dict Value
  pub input_tokens : ℕ
  pub output_tokens : ℕ

-- The variables of the `while` loop.
pub record Progress : Type 0 where
  pub attempts : ℕ
  pub input_tokens : ℕ
  pub output_tokens : ℕ
  pub extra_messages : List Message

abbrev start : Progress
start = record { attempts = 0; input_tokens = 0; output_tokens = 0; extra_messages = [] }

abbrev retry_messages : List Message
retry_messages =
    record { role = "assistant"; content = "" }
    ∷ record { role = "user"; content = retry_user_prompt }
    ∷ []

-- `extra_messages or None`
abbrev or_none : List Message → Option (List Message)
or_none ms = if nonempty ms then some ms else none

-- What one attempt leads to.
pub data Turn : Type 0 where
  done : Extracted → Turn
  again : Progress → Turn
  failed : Error → Turn

abbrev client_failure : Progress → Turn
client_failure p = failed (
    Error.extraction (record {
      text = "LLM tool-call extraction failed";
      attempts = p.attempts;
      input_tokens = p.input_tokens;
      output_tokens = p.output_tokens;
    }))

-- No tool call: the tokens of a reply count, and the retry messages go with the next attempt.
abbrev no_call : ℕ → Progress → ℕ → ℕ → Progress
no_call max_retries p i o = record p {
  input_tokens = p.input_tokens + i;
  output_tokens = p.output_tokens + o;
  extra_messages =
      if leb p.attempts max_retries then p.extra_messages ++ retry_messages else p.extra_messages;
}

abbrev with_arguments : ℕ → Progress → ℕ → ℕ → Option (Dict Value) → Turn
with_arguments max_retries p i o none = again (no_call max_retries p i o)
with_arguments max_retries p i o (some arguments) = done (record {
  raw_output = arguments;
  input_tokens = p.input_tokens + i;
  output_tokens = p.output_tokens + o;
})

-- The body of the loop behind the call, `p` with the attempt counted.
turn : ℕ → Progress → Result (Option ToolCallResult) → Turn
turn max_retries p (ok none) = again (no_call max_retries p 0 0)
turn max_retries p (ok (some r)) =
    with_arguments max_retries p r.input_tokens r.output_tokens r.arguments
turn max_retries p (err (Error.llm_client m)) = client_failure p
turn max_retries p (err e) = failed e

-- The `raise` behind the loop.
abbrev gave_up : String → Progress → Error
gave_up doc_type p = Error.extraction (record {
  text =
      "Failed to extract structured data for '"
      <> doc_type
      <> "' after "
      <> show p.attempts
      <> " attempts. LLM failed to call tool.";
  attempts = p.attempts;
  input_tokens = p.input_tokens;
  output_tokens = p.output_tokens;
})

-- A loop that ran out of fuel. It is told apart by its text, and no exception of the code.
abbrev cut_off : Progress → Error
cut_off p = Error.extraction (record {
  text = "out of fuel";
  attempts = p.attempts;
  input_tokens = p.input_tokens;
  output_tokens = p.output_tokens;
})

abbrev counted : Progress → Progress
counted p = record p { attempts = p.attempts + 1 }

-- The way on from an attempt.
abbrev follow {ℓ} : {S : Type ℓ} → (Progress → Exec S Extracted) → Turn → Exec S Extracted
follow next (done x) s = (ok x, s)
follow next (again q) s = next q s
follow next (failed e) s = (err e, s)

module _ (C : LlmClient) (model : String) (max_retries : ℕ) where
  request : String → String → Tool → Progress → ToolRequest
  request text doc_type tool p = record {
    model = model;
    system_prompt = extraction_system_prompt;
    user_content = user_prompt text;
    tool = tool;
    tool_name = "extract_" <> doc_type;
    extra_messages = or_none p.extra_messages;
  }

  -- `while attempts <= max_retries`, with fuel: the test is the loop's, and the code's `continue` and
  -- `break` behind a reply without a tool call follow the same test.
  attempt : ℕ → String → String → Tool → Progress → Exec C.State Extracted
  unfolding request turn
  attempt zero text doc_type tool p s = (err (cut_off p), s)
  attempt (suc fuel) text doc_type tool p s =
      let (reply, s') = C.call_tool (request text doc_type tool p) s in
      let out =
        follow (λ q. attempt fuel text doc_type tool q) (turn max_retries (counted p) reply) s' in
      if leb p.attempts max_retries then out else (err (gave_up doc_type p), s)

  -- `ToolCallExtractor.extract`, with fuel.
  unfoldable pub extract_within : ℕ → String → String → Exec C.State Extracted
  unfolding attempt get_tool
  extract_within fuel text doc_type = do
    tool ← lift (get_tool doc_type)
    attempt fuel text doc_type tool start

  -- The same with enough fuel: a round for each call, and one for the test that ends the loop.
  unfoldable pub extract : String → String → Exec C.State Extracted
  unfolding extract_within
  extract text doc_type = extract_within (max_retries + 2) text doc_type
