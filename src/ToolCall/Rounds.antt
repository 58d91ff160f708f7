-- ===== src/ToolCall/Rounds.antt =====
-- The `while` loop of app/services/tool_call_extractor.py: how many calls it makes, and that it ends.
use structured_data_extracto.Base.{
  ℕ, zero, suc, ◌+◌, ◌≤◌, ◌<◌, String, ◌≡◌, refl, none, some, Option, inl, inr, arith, Option-cases,
  Bool-cases, leb,
}
use structured_data_extracto.Errors.{Error}
use structured_data_extracto.Exec.{Result, ok, err, lift, ◌>>=◌}
use structured_data_extracto.Schema.{Tool, get_tool}
use structured_data_extracto.Llm.{LlmClient, Meter, ToolCallResult}
use structured_data_extracto.ToolCall.{
  Extracted, Progress, start, turn, follow, counted, request, attempt, extract_within, extract,
}

-- A loop within its bound has fuel left.
pub used_up : (max_retries n : ℕ) → n ≤ max_retries + 1 → max_retries + 1 < n + 0 → ⊥
used_up max_retries n = omega arith

module _ {C : LlmClient} (M : Meter C) (max_retries : ℕ) where
  -- From `p` on, the calls stay within what the test of the loop lets through.
  abbrev Stays : Progress → C.State → C.State → Type 0
  Stays p s s' = M.calls s' + p.attempts ≤ M.calls s + (max_retries + 1)

  turn-Stays :
      (next : Progress → C.State → Result Extracted × C.State) (p : Progress) (s s' : C.State)
      (reply : Result (Option ToolCallResult))
      → ((q : Progress) → q.attempts ≡ p.attempts + 1 → Stays q s' (next q s').1)
      → p.attempts ≤ max_retries
      → M.calls s' ≡ M.calls s + 1
      → Stays p s (follow next (turn max_retries (counted p) reply) s').1
  unfolding turn
  turn-Stays next p s s' (ok none) ih low c = omega (arith, ih _ refl)
  turn-Stays next p s s' (ok (some r)) ih low c = elim (Option-cases r.arguments) [
    | inl e ↦ rw e (omega (arith, ih _ refl))
    | inr (a, e) ↦ rw e (omega arith)
  ]
  turn-Stays next p s s' (err (Error.llm_client m)) ih low c = omega arith
  turn-Stays next p s s' (err _) ih low c = omega arith

module _ {S : Type 0} (max_retries : ℕ) where
  turn-same :
      (next other : Progress → S → Result Extracted × S) (p : Progress) (s : S)
      (reply : Result (Option ToolCallResult))
      → ((q : Progress) → q.attempts ≡ p.attempts + 1 → next q s ≡ other q s)
      → follow next (turn max_retries (counted p) reply) s
        ≡ follow other (turn max_retries (counted p) reply) s
  unfolding turn
  turn-same next other p s (ok none) h = h _ refl
  turn-same next other p s (ok (some r)) h = elim (Option-cases r.arguments) [
    | inl e ↦ rw e (h _ refl)
    | inr (a, e) ↦ rw e refl
  ]
  turn-same next other p s (err (Error.llm_client m)) h = refl
  turn-same next other p s (err _) h = refl

module _ {C : LlmClient} (M : Meter C) (model : String) (max_retries : ℕ)
    (text doc_type : String) where
  attempt-Stays :
      (fuel : ℕ) (tool : Tool) (p : Progress) (s : C.State)
      → p.attempts ≤ max_retries + 1
      → Stays M max_retries p s (attempt C model max_retries fuel text doc_type tool p s).1
  unfolding attempt
  attempt-Stays zero tool p s low = omega arith
  attempt-Stays (suc n) tool p s low = elim (Bool-cases (leb p.attempts max_retries)) [
    | inl e ↦
        let q = request C model max_retries text doc_type tool p in
        rw e (
          turn-Stays M max_retries (attempt C model max_retries n text doc_type tool) p s _ _
            (λ p' h. attempt-Stays n tool p' _ (ground (arith, h, e))) (ground (arith, e))
            (M.calls_call q s))
    | inr e ↦ rw e (omega arith)
  ]

  attempt-same :
      (fuel more : ℕ) (tool : Tool) (p : Progress) (s : C.State)
      → p.attempts ≤ max_retries + 1
      → max_retries + 1 < p.attempts + fuel
      → max_retries + 1 < p.attempts + more
      → attempt C model max_retries fuel text doc_type tool p s
        ≡ attempt C model max_retries more text doc_type tool p s
  unfolding attempt
  attempt-same zero more tool p s low f m = absurd (used_up max_retries p.attempts low f)
  attempt-same (suc n) zero tool p s low f m = absurd (used_up max_retries p.attempts low m)
  attempt-same (suc n) (suc k) tool p s low f m = elim (Bool-cases (leb p.attempts max_retries)) [
    | inl e ↦ rw e (
        turn-same max_retries (attempt C model max_retries n text doc_type tool)
          (attempt C model max_retries k text doc_type tool) p _ _
          (λ q h. attempt-same n k tool q _ (ground (arith, h, e)) (omega arith) (omega arith)))
    | inr e ↦ rw e refl
  ]

  with_tool-calls :
      (fuel : ℕ) (s : C.State) (r : Result Tool)
      → M.calls ((lift r >>= λ tool. attempt C model max_retries fuel text doc_type tool start) s).1
        ≤ M.calls s + (max_retries + 1)
  with_tool-calls fuel s (ok tool) = omega (arith, attempt-Stays fuel tool start s (omega arith))
  with_tool-calls fuel s (err x) = omega arith

  with_tool-same :
      (fuel : ℕ) (s : C.State) (r : Result Tool)
      → max_retries + 1 < fuel
      → (lift r >>= λ tool. attempt C model max_retries fuel text doc_type tool start) s
        ≡ (lift r >>= λ tool.
              attempt C model max_retries (max_retries + 2) text doc_type tool start)
            s
  with_tool-same fuel s (ok tool) h =
      attempt-same fuel (max_retries + 2) tool start s (omega arith) (omega arith) (omega arith)
  with_tool-same fuel s (err x) h = refl

  -- The loop ends by its own test: with any fuel above `max_retries + 1`, however much, an extraction ends
  -- in the same way, and it makes at most `max_retries + 1` calls.
  pub extract-calls :
      (fuel : ℕ) (s : C.State)
      → max_retries + 1 < fuel
      → (extract_within C model max_retries fuel text doc_type s
          ≡ extract C model max_retries text doc_type s)
        × (M.calls (extract_within C model max_retries fuel text doc_type s).1
            ≤ M.calls s + (max_retries + 1))
  unfolding extract extract_within
  extract-calls fuel s h =
      (with_tool-same fuel s (get_tool doc_type) h, with_tool-calls fuel s (get_tool doc_type))
