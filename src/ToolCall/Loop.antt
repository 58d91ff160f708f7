-- ===== src/ToolCall/Loop.antt =====
-- What the retry loop of app/services/tool_call_extractor.py spends and how it ends.
use structured_data_extracto.Base.{
  ℕ, zero, suc, ◌+◌, String, ◌≡◌, ◌≢◌, refl, none, some, Option, inl, inr, arith, Option-cases,
  Bool-cases, leb,
}
use structured_data_extracto.Errors.{Error, ExtractionFailure}
use structured_data_extracto.Exec.{Result, ok, err, lift, ◌>>=◌}
use structured_data_extracto.Schema.{Tool, get_tool}
use structured_data_extracto.Llm.{LlmClient, Meter, ToolCallResult, reply_input, reply_output}
use structured_data_extracto.ToolCall.{
  Extracted, Progress, start, no_call, turn, follow, counted, request, attempt, extract_within,
  extract,
}

module _ {C : LlmClient} (M : Meter C) where
  -- An outcome that began with `p` in state `s` reports what the meter has counted since then.
  abbrev Reports : Progress → C.State → Result Extracted → C.State → Type 0
  Reports p s (ok x) s' =
      (M.input s + x.input_tokens ≡ M.input s' + p.input_tokens)
      × (M.output s + x.output_tokens ≡ M.output s' + p.output_tokens)
  Reports p s (err (Error.extraction e)) s' =
      (M.input s + e.input_tokens ≡ M.input s' + p.input_tokens)
      × (M.output s + e.output_tokens ≡ M.output s' + p.output_tokens)
      × (M.calls s + e.attempts ≡ M.calls s' + p.attempts)
  Reports p s (err _) s' = Unit

  -- The tokens in an outcome are what the meter has counted in the run.
  abbrev pub Spends : C.State → Result Extracted → C.State → Type 0
  Spends s (ok x) s' =
      (M.input s' ≡ M.input s + x.input_tokens) × (M.output s' ≡ M.output s + x.output_tokens)
  Spends s (err (Error.extraction e)) s' =
      (M.input s' ≡ M.input s + e.input_tokens)
      × (M.output s' ≡ M.output s + e.output_tokens)
      × (M.calls s' ≡ M.calls s + e.attempts)
  Spends s (err _) s' = Unit

  Spends-Reports :
      (s : C.State) (r : Result Extracted) (s' : C.State) → Reports start s r s' → Spends s r s'
  Spends-Reports s (ok x) s' h = omega arith
  Spends-Reports s (err (Error.extraction e)) s' h = omega arith
  Spends-Reports s (err _) s' h = tt

  -- The same from an earlier point.
  Reports-earlier :
      (p q : Progress) (s t : C.State) (r : Result Extracted) (s' : C.State)
      → M.input s + q.input_tokens ≡ M.input t + p.input_tokens
      → M.output s + q.output_tokens ≡ M.output t + p.output_tokens
      → M.calls s + q.attempts ≡ M.calls t + p.attempts
      → Reports q t r s'
      → Reports p s r s'
  Reports-earlier p q s t (ok x) s' i o c h = omega arith
  Reports-earlier p q s t (err (Error.extraction e)) s' i o c h = omega arith
  Reports-earlier p q s t (err _) s' i o c h = tt

module _ {C : LlmClient} (M : Meter C) (max_retries : ℕ)
    (next : Progress → C.State → Result Extracted × C.State) (p : Progress) (s s' : C.State) where
  -- One attempt, whatever its reply.
  turn-Reports :
      (reply : Result (Option ToolCallResult))
      → ((e : ExtractionFailure) → reply ≢ err (Error.extraction e))
      → ((q : Progress) → Reports M q s' (next q s').0 (next q s').1)
      → M.input s' ≡ M.input s + reply_input reply
      → M.output s' ≡ M.output s + reply_output reply
      → M.calls s' ≡ M.calls s + 1
      → let out = follow next (turn max_retries (counted p) reply) s' in Reports M p s out.0 out.1
  unfolding turn
  turn-Reports (ok none) own ih i o c =
      Reports-earlier M p (no_call max_retries (counted p) 0 0) s s' _ _ (omega arith) (omega arith)
        (omega arith) (ih _)
  turn-Reports (ok (some r)) own ih i o c = elim (Option-cases r.arguments) [
    | inl e ↦ rw e (
        Reports-earlier M p (no_call max_retries (counted p) r.input_tokens r.output_tokens) s s' _
          _ (omega arith) (omega arith) (omega arith) (ih _))
    | inr (a, e) ↦ rw e (omega arith)
  ]
  turn-Reports (err (Error.llm_client m)) own ih i o c = omega arith
  turn-Reports (err (Error.extraction e)) own ih i o c = absurd (own e refl)
  turn-Reports (err _) own ih i o c = tt

module _ {C : LlmClient} (M : Meter C) (model : String) (max_retries : ℕ) where
  attempt-Reports :
      (rounds : ℕ) (text doc_type : String) (tool : Tool) (p : Progress) (s : C.State)
      → let out = attempt C model max_retries rounds text doc_type tool p s in
        Reports M p s out.0 out.1
  unfolding attempt
  attempt-Reports zero text doc_type tool p s = (refl, refl, refl)
  attempt-Reports (suc n) text doc_type tool p s = elim (Bool-cases (leb p.attempts max_retries)) [
    | inl e ↦
        let q = request C model max_retries text doc_type tool p in
        rw e (
          turn-Reports M max_retries (attempt C model max_retries n text doc_type tool) p s _ _
            (M.own_errors q s) (λ p'. attempt-Reports n text doc_type tool p' _) (M.input_call q s)
            (M.output_call q s) (M.calls_call q s))
    | inr e ↦ rw e (refl, refl, refl)
  ]

  Spends-raise :
      (s : C.State) (e : Error)
      → ((f : ExtractionFailure) → e ≢ Error.extraction f)
      → Spends M s (err e) s
  Spends-raise s (Error.extraction f) own = absurd (own f refl)
  Spends-raise s _ own = tt

  get_tool_own :
      (doc_type : String) {e : Error} (f : ExtractionFailure)
      → get_tool doc_type ≡ err e
      → e ≢ Error.extraction f
  unfolding get_tool
  get_tool_own doc_type f h k = ground arith

  with_tool-Spends :
      (text doc_type : String) (s : C.State) (r : Result Tool)
      → get_tool doc_type ≡ r
      → let out =
          (lift r >>= λ tool.
          attempt C model max_retries (max_retries + 2) text doc_type tool start)
            s in
        Spends M s out.0 out.1
  with_tool-Spends text doc_type s (ok tool) e =
      Spends-Reports M s _ _ (attempt-Reports (max_retries + 2) text doc_type tool start s)
  with_tool-Spends text doc_type s (err x) e = Spends-raise s x (λ f. get_tool_own doc_type f e)

  -- The tokens that an extraction reports, in its result or in its `ExtractionError`, are those
  -- that the replies to its calls have reported, failed attempts included; the attempts that the
  -- error reports are the calls that were made.
  pub extract-tokens :
      (text doc_type : String) (s : C.State)
      → let out = extract C model max_retries text doc_type s in Spends M s out.0 out.1
  unfolding extract extract_within
  extract-tokens text doc_type s = with_tool-Spends text doc_type s (get_tool doc_type) refl
