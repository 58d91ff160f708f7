-- ===== src/LiteLlm/Client/Replies.antt =====
-- What `LiteLLMClient.call_tool` of app/integrations/llm/litellm_client.py makes of a completion.
use structured_data_extracto.Base.{
  String, true, false, Option, none, some, List, [], ◌∷◌, ◌≡◌, ◌<>◌, or_else, ◌≢◌, ◌⊎◌, inl, inr,
  refl, arith, Dict, ◌==◌, eq_iff, Bool-cases,
}
use structured_data_extracto.Errors.{Error}
use structured_data_extracto.Exec.{Result, ok, err}
use structured_data_extracto.Value.{Value}
use structured_data_extracto.Llm.{ToolCallResult, ToolRequest}
use structured_data_extracto.LiteLlm.Client.{
  Arguments, dict_arguments, text_arguments, ToolCall, Choice, Completion, Provider, prompt_of,
  completion_of, no_choices, then_read, is_named, loaded, read_arguments, read_call, read_choice,
  unless_refused, parameters_for, completion_request, call_tool,
}

abbrev pub IsClientError : Error → Type 0
IsClientError e = (m : String) × (e ≡ Error.llm_client m)

module _ (P : Provider) (tool_name : String) where
  -- The arguments that are read of a tool call.
  abbrev Given : Arguments → Option (Dict Value) → Type 0
  Given (dict_arguments d) a = a ≡ some d
  Given (text_arguments text) a = P.loads text ≡ ok a

  abbrev CannotRead : Arguments → Type 0
  CannotRead (dict_arguments d) = ⊥
  CannotRead (text_arguments text) = (e : Error) × (P.loads text ≡ err e)

  -- Of the tool calls, the first is read, and it must bear the tool's name.
  abbrev Provided : List ToolCall → Option (Dict Value) → Type 0
  Provided [] a = a ≡ none
  Provided (call ∷ _) a = (call.name ≡ some tool_name) × Given call.arguments a

  -- Why the tool calls are of no use, with the exception for it.
  abbrev Unusable : List ToolCall → Error → Type 0
  Unusable [] e = ⊥
  Unusable (call ∷ _) e =
      ((call.name ≢ some tool_name)
        × (e
            ≡ Error.llm_client (
                "Tool name mismatch: expected tool call '"
                <> tool_name
                <> "', got '"
                <> or_else call.name "None"
                <> "'")))
      ⊎ ((call.name ≡ some tool_name)
          × CannotRead call.arguments
          × (e ≡ Error.llm_client "Failed to parse tool call arguments"))

  -- A refusal that is none, or empty.
  abbrev IsNoRefusal : Option String → Type 0
  IsNoRefusal none = Unit
  IsNoRefusal (some reason) = reason ≡ ""

  abbrev IsRefusal : Option String → Error → Type 0
  IsRefusal none e = ⊥
  IsRefusal (some reason) e =
      (reason ≢ "")
      × (e ≡ Error.llm_client ("LLM completion failed: request was refused. Reason: " <> reason))

  abbrev IsEmpty : Error → Type 0
  IsEmpty e =
      e
      ≡ Error.llm_client
          "LLM completion failed: provider returned no choices (possible content filter or malformed response)"

  -- Without a choice, the reason for the block decides.
  abbrev IsBlock : Option String → Error → Type 0
  IsBlock none e = IsEmpty e
  IsBlock (some reason) e =
      ((reason ≡ "") × IsEmpty e)
      ⊎ ((reason ≢ "")
          × (e ≡ Error.llm_client ("LLM completion blocked by provider safety filter: " <> reason)))

  abbrev Declined : Completion → List Choice → Error → Type 0
  Declined c [] e = IsBlock c.block_reason e
  Declined c (choice ∷ _) e =
      IsRefusal choice.refusal e ⊎ (IsNoRefusal choice.refusal × Unusable choice.tool_calls e)

  abbrev Accepted : List Choice → Option (Dict Value) → Type 0
  Accepted [] a = ⊥
  Accepted (choice ∷ _) a = IsNoRefusal choice.refusal × Provided choice.tool_calls a

  -- An answer to a completion: its usage with the arguments, or an `LLMClientError` on a completion
  -- that declines.
  abbrev OnChoice : Completion → List Choice → Result (Option ToolCallResult) → Type 0
  OnChoice c choices (ok none) = ⊥
  OnChoice c choices (ok (some r)) =
      Accepted choices r.arguments
      × (r.input_tokens ≡ prompt_of c.usage)
      × (r.output_tokens ≡ completion_of c.usage)
  OnChoice c choices (err e) = IsClientError e × Declined c choices e

  abbrev pub IsAnswer : Result Completion → Result (Option ToolCallResult) → Type 0
  IsAnswer (ok c) out = OnChoice c c.choices out
  IsAnswer (err e) out = out ≡ err (Error.llm_client "LLM completion failed")

  abbrev OnCall : Completion → List ToolCall → Result (Option ToolCallResult) → Type 0
  OnCall c calls (ok none) = ⊥
  OnCall c calls (ok (some r)) =
      Provided calls r.arguments
      × (r.input_tokens ≡ prompt_of c.usage)
      × (r.output_tokens ≡ completion_of c.usage)
  OnCall c calls (err e) = IsClientError e × Unusable calls e

  loaded-OnCall :
      (c : Completion) (call : ToolCall) (calls : List ToolCall) (text : String)
      (r : Result (Option (Dict Value)))
      → call.name ≡ some tool_name
      → call.arguments ≡ text_arguments text
      → P.loads text ≡ r
      → OnCall c (call ∷ calls) (loaded c r)
  loaded-OnCall c call calls text (ok a) n w e = ((n, rw w e), refl, refl)
  loaded-OnCall c call calls text (err x) n w e = ((_, refl), inr (n, rw w (x, e), refl))

  read_arguments-OnCall :
      (c : Completion) (call : ToolCall) (calls : List ToolCall) (a : Arguments)
      → call.name ≡ some tool_name
      → call.arguments ≡ a
      → OnCall c (call ∷ calls) (read_arguments P c a)
  read_arguments-OnCall c call calls (dict_arguments d) n e = ((n, rw e refl), refl, refl)
  read_arguments-OnCall c call calls (text_arguments text) n e =
      loaded-OnCall c call calls text _ n e refl

  is_named-name : (name : Option String) → is_named tool_name name ≡ true → name ≡ some tool_name
  is_named-name none h = ground arith
  is_named-name (some t) h = ground (arith, eq_iff t tool_name)

  not_named : (name : Option String) → is_named tool_name name ≡ false → name ≢ some tool_name
  not_named none h e = ground arith
  not_named (some t) h e = ground (arith, eq_iff t tool_name)

  read_call-OnCall :
      (c : Completion) (calls : List ToolCall) → OnCall c calls (read_call P c tool_name calls)
  read_call-OnCall c [] = (refl, refl, refl)
  read_call-OnCall c (call ∷ calls) = elim (Bool-cases (is_named tool_name call.name)) [
    | inl e ↦ rw e (read_arguments-OnCall c call calls call.arguments (is_named-name _ e) refl)
    | inr e ↦ rw e ((_, refl), inl (not_named _ e, refl))
  ]

  OnChoice-call :
      (c : Completion) (choice : Choice) (choices : List Choice)
      (r : Result (Option ToolCallResult))
      → IsNoRefusal choice.refusal
      → OnCall c choice.tool_calls r
      → OnChoice c (choice ∷ choices) r
  OnChoice-call c choice choices (ok none) k h = h
  OnChoice-call c choice choices (ok (some r)) k h = ((k, h.0), h.1, h.2)
  OnChoice-call c choice choices (err e) k h = (h.0, inr (k, h.1))

  unless_refused-OnChoice :
      (c : Completion) (choice : Choice) (choices : List Choice) (refusal : Option String)
      → choice.refusal ≡ refusal
      → OnChoice c
          (choice ∷ choices)
          (unless_refused refusal (read_call P c tool_name choice.tool_calls))
  unless_refused-OnChoice c choice choices none e =
      OnChoice-call c choice choices _ (rw e tt) (read_call-OnCall c choice.tool_calls)
  unless_refused-OnChoice c choice choices (some reason) e = elim (Bool-cases (reason == "")) [
    | inl h ↦ rw h (
        OnChoice-call c choice choices _ (rw e (ground (arith, eq_iff reason "")))
          (read_call-OnCall c choice.tool_calls))
    | inr h ↦ rw h ((_, refl), inl (rw e ((λ q. ground (arith, eq_iff reason "")), refl)))
  ]

  no_choices-IsBlock :
      (block : Option String) → IsClientError (no_choices block) × IsBlock block (no_choices block)
  no_choices-IsBlock none = ((_, refl), refl)
  no_choices-IsBlock (some reason) = elim (Bool-cases (reason == "")) [
    | inl h ↦ rw h ((_, refl), inl (ground (arith, eq_iff reason ""), refl))
    | inr h ↦ rw h ((_, refl), inr ((λ q. ground (arith, eq_iff reason "")), refl))
  ]

  read_choice-OnChoice :
      (c : Completion) (choices : List Choice)
      → OnChoice c choices (read_choice P c tool_name choices)
  read_choice-OnChoice c [] = no_choices-IsBlock c.block_reason
  read_choice-OnChoice c (choice ∷ choices) =
      unless_refused-OnChoice c choice choices choice.refusal refl

  then_read-IsAnswer :
      (r : Result Completion) → IsAnswer r (then_read (λ c. read_choice P c tool_name c.choices) r)
  then_read-IsAnswer (ok c) = read_choice-OnChoice c c.choices
  then_read-IsAnswer (err e) = refl

-- When the parameters of the tool are fit to be sent, `call_tool` asks for one completion. An
-- exception of LiteLLM becomes an `LLMClientError`. From a completion comes either a result with the
-- usage that it reports and with the arguments of its first tool call, which bears the tool's name,
-- or with none if it calls no tool, and then it refuses nothing; or an `LLMClientError`, whose text says
-- which holds: the completion has no choice, perhaps because it was blocked for a reason; it refuses,
-- with its reason; it calls a tool of another name; or its arguments cannot be read.
pub call_tool-IsAnswer :
    (P : Provider) (q : ToolRequest) (s : P.State) (parameters : Value)
    → parameters_for P q.model (P.model_json_schema q.tool.parameters) ≡ ok parameters
    → let asked = P.acompletion (completion_request P q parameters) s in
      let out = call_tool P q s in (out.1 ≡ asked.1) × IsAnswer P q.tool_name asked.0 out.0
unfolding call_tool
call_tool-IsAnswer P q s parameters h =
    rw h (
      refl,
      then_read-IsAnswer P q.tool_name (P.acompletion (completion_request P q parameters) s).0,
    )
