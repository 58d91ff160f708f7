-- ===== src/Pages/Runner/Outcomes.antt =====
-- The loop over the pages in app/services/page_extraction.py, described by what the extractor gives for
-- each page that has text.
use structured_data_extracto.Base.{
  ℕ, ◌+◌, String, Bool, true, false, Option, none, some, List, [], ◌∷◌, ◌++◌, ◌≡◌, ◌∙◌, refl, sym,
  arith, append_assoc, append-nil, Dict, map, length, codes, strip, nonempty, Bool-cases, inl, inr,
  if◌then◌else◌,
}
use structured_data_extracto.Errors.{Error, ExtractionFailure}
use structured_data_extracto.Exec.{Result, ok, err, Exec, ◌>>=◌}
use structured_data_extracto.Value.{Value}
use structured_data_extracto.ToolCall.{Extracted}
use structured_data_extracto.Pages.Text.{format_page}
use structured_data_extracto.Pages.Merge.{has_useful}
use structured_data_extracto.Pages.Runner.{Sweep, skip_warning, record_page, page_step, sweep}

-- The pages whose extraction failed with an `ExtractionError`.
abbrev pub failed_pages : List (ℕ × Result Extracted) → List ℕ
failed_pages [] = []
failed_pages ((i, err (Error.extraction e)) ∷ rest) = i ∷ failed_pages rest
failed_pages ((i, _) ∷ rest) = failed_pages rest

-- The pages that gave a useful field, with what they gave.
abbrev pub useful_pages : List (ℕ × Result Extracted) → List (Dict Value × ℕ)
useful_pages [] = []
useful_pages ((i, ok x) ∷ rest) =
    if has_useful x.raw_output then (x.raw_output, i) ∷ useful_pages rest else useful_pages rest
useful_pages ((i, err _) ∷ rest) = useful_pages rest

-- The first exception of another kind.
abbrev pub broken_by : List (ℕ × Result Extracted) → Option Error
broken_by [] = none
broken_by ((i, ok x) ∷ rest) = broken_by rest
broken_by ((i, err (Error.extraction e)) ∷ rest) = broken_by rest
broken_by ((i, err e) ∷ rest) = some e

module _ {S : Type 0} (extract : String → String → Exec S Extracted) (doc_type : String) where
  -- What the extractor gives for the pages that are not blank, one after the other.
  unfoldable pub outcomes : List (ℕ × String) → S → List (ℕ × Result Extracted)
  outcomes [] s = []
  outcomes ((i, text) ∷ pages) s =
      let reply = extract (format_page i text) doc_type s in
      let skipped = outcomes pages s in
      let rest = outcomes pages reply.1 in
      if nonempty (strip (codes text)) then (i, reply.0) ∷ rest else skipped

-- The variables of the loop, behind pages with these outcomes.
abbrev pub Follows : Sweep → List (ℕ × Result Extracted) → Result Sweep → Type 0
Follows w os (ok w') =
    (broken_by os ≡ none)
    × (w'.per_page ≡ w.per_page ++ useful_pages os)
    × (w'.failures ≡ w.failures + length (failed_pages os))
    × (w'.warnings ≡ w.warnings ++ map skip_warning (failed_pages os))
Follows w os (err e) = broken_by os ≡ some e

useful-Follows :
    (w : Sweep) (i : ℕ) (x : Extracted) (os : List (ℕ × Result Extracted)) (out : Result Sweep)
    (b : Bool)
    → has_useful x.raw_output ≡ b
    → Follows
        (record w {
          input_tokens = w.input_tokens + x.input_tokens;
          output_tokens = w.output_tokens + x.output_tokens;
          per_page = if b then w.per_page ++ (x.raw_output, i) ∷ [] else w.per_page;
        })
        os
        out
    → Follows w ((i, ok x) ∷ os) out
useful-Follows w i x os (ok w') true e (b, p, f, t) =
    (b, rw e (p ∙ append_assoc w.per_page _ _), f, t)
useful-Follows w i x os (ok w') false e (b, p, f, t) = (b, rw e p, f, t)
useful-Follows w i x os (err _) b e h = h

failed-Follows :
    (w : Sweep) (i : ℕ) (e : ExtractionFailure) (os : List (ℕ × Result Extracted))
    (out : Result Sweep)
    → Follows
        (record w {
          failures = w.failures + 1;
          input_tokens = w.input_tokens + e.input_tokens;
          output_tokens = w.output_tokens + e.output_tokens;
          warnings = w.warnings ++ skip_warning i ∷ [];
        })
        os
        out
    → Follows w ((i, err (Error.extraction e)) ∷ os) out
failed-Follows w i e os (ok w') (b, p, f, t) =
    (b, p, omega (arith, f), t ∙ append_assoc w.warnings _ _)
failed-Follows w i e os (err _) h = h

module _ {S : Type 0} (next : Sweep → Exec S Sweep) (w : Sweep) (i : ℕ)
    (os : List (ℕ × Result Extracted)) where
  recorded-Follows :
      (r : Result Extracted) (s : S)
      → ((w' : Sweep) → Follows w' os (next w' s).0)
      → Follows w ((i, r) ∷ os) (((λ (_ : S). (record_page i w r, s)) >>= next) s).0
  unfolding record_page
  recorded-Follows (ok x) s ih = useful-Follows w i x os _ (has_useful x.raw_output) refl (ih _)
  recorded-Follows (err (Error.extraction e)) s ih = failed-Follows w i e os _ (ih _)
  recorded-Follows (err _) s ih = refl

module _ {S : Type 0} (extract : String → String → Exec S Extracted) (doc_type : String) where
  pub sweep-Follows :
      (pages : List (ℕ × String)) (w : Sweep) (s : S)
      → Follows w (outcomes extract doc_type pages s) (sweep extract doc_type pages w s).0
  unfolding sweep page_step outcomes
  sweep-Follows [] w s =
      (refl, sym (append-nil w.per_page), omega arith, sym (append-nil w.warnings))
  sweep-Follows ((i, text) ∷ pages) w s = elim (Bool-cases (nonempty (strip (codes text)))) [
    | inl e ↦
        let reply = extract (format_page i text) doc_type s in
        rw e (
          recorded-Follows (sweep extract doc_type pages) w i
            (outcomes extract doc_type pages reply.1) reply.0 reply.1
            (λ w'. sweep-Follows pages w' reply.1))
    | inr e ↦ rw e (sweep-Follows pages w s)
  ]
