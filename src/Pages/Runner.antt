-- ===== src/Pages/Runner.antt =====
-- The three strategies of app/services/page_extraction.py over any text extractor.
pub mod Tokens
pub mod Sweeps
pub mod Outcomes
pub mod Sources
use structured_data_extracto.Base.{
  ℕ, String, Bool, true, false, not, Option, none, some, List, [], ◌∷◌, ◌++◌, ◌+◌, ◌&&◌, Dict,
  values, map, codes, strip, nonempty, length, show, ltb, ◌<>◌, insert_sorted, if◌then◌else◌,
}
use structured_data_extracto.Errors.{Error, ExtractionFailure}
use structured_data_extracto.Exec.{Result, ok, err, Exec, pure, raise, lift, ◌>>=◌}
use structured_data_extracto.Value.{Value}
use structured_data_extracto.Schema.{DocType, get_schema, field_names}
use structured_data_extracto.ToolCall.{Extracted}
use structured_data_extracto.Pages.Text.{enumerate, format_page, join_pages, select_pages}
use structured_data_extracto.Pages.Merge.{Merge, no_merge, has_useful, merge_results}

-- `ExtractionStrategy` of app/schemas/requests.py
pub data Strategy : Type 0 where
  full page_by_page smart : Strategy

-- `ExtractionStrategy.value`
abbrev pub strategy_value : Strategy → String
strategy_value Strategy.full = "full"
strategy_value Strategy.page_by_page = "page_by_page"
strategy_value Strategy.smart = "smart"

-- `PageStrategyRunner.resolve_strategy`
unfoldable pub resolve_strategy : Option Strategy → ℕ → Strategy
resolve_strategy (some strategy) page_count = strategy
resolve_strategy none page_count = if ltb 10 page_count then Strategy.smart else Strategy.full

-- `StrategyExtractionResult` of app/services/types.py
pub record StrategyResult : Type 0 where
  pub raw_output : Dict Value
  pub input_tokens : ℕ
  pub output_tokens : ℕ
  pub strategy : Strategy
  pub source_pages : List ℕ
  pub warnings : List String
  pub field_source_pages : Option (Dict (List ℕ))

-- The variables of the loop over the pages.
pub record Sweep : Type 0 where
  pub per_page : List (Dict Value × ℕ)
  pub input_tokens : ℕ
  pub output_tokens : ℕ
  pub failures : ℕ
  pub warnings : List String

abbrev pub no_pages : Sweep
no_pages = record {
  per_page = [];
  input_tokens = 0;
  output_tokens = 0;
  failures = 0;
  warnings = [];
}

abbrev pub skip_warning : ℕ → String
skip_warning i = "page " <> show i <> ": extraction failed and was skipped"

-- The rest of the loop's body, behind the call of the extractor.
unfoldable pub record_page : ℕ → Sweep → Result Extracted → Result Sweep
record_page i w (ok x) = ok (record w {
  input_tokens = w.input_tokens + x.input_tokens;
  output_tokens = w.output_tokens + x.output_tokens;
  per_page = if has_useful x.raw_output then w.per_page ++ (x.raw_output, i) ∷ [] else w.per_page;
})
record_page i w (err (Error.extraction e)) = ok (record w {
  failures = w.failures + 1;
  input_tokens = w.input_tokens + e.input_tokens;
  output_tokens = w.output_tokens + e.output_tokens;
  warnings = w.warnings ++ skip_warning i ∷ [];
})
record_page i w (err e) = err e

-- `sorted({i for pages in field_source_pages.values() for i in pages})`
unfoldable pub sorted_union : List (List ℕ) → List ℕ
sorted_union [] = []
sorted_union ([] ∷ rest) = sorted_union rest
sorted_union ((i ∷ is) ∷ rest) = insert_sorted i (sorted_union (is ∷ rest))

abbrev pub all_failed : Sweep → Error
all_failed w = Error.extraction (record {
  text = "All page-level extraction attempts failed";
  attempts = w.failures;
  input_tokens = w.input_tokens;
  output_tokens = w.output_tokens;
})

-- The end of `_extract_page_by_page`, once the schema of the merge is found.
unfoldable pub conclude : Sweep → DocType → StrategyResult
conclude w schema =
    let m = merge_results (field_names schema) w.per_page no_merge in
    record {
      raw_output = m.merged;
      input_tokens = w.input_tokens;
      output_tokens = w.output_tokens;
      strategy = Strategy.page_by_page;
      source_pages = sorted_union (values m.sources);
      warnings = w.warnings;
      field_source_pages = some m.sources;
    }

module _ {S : Type 0} (extract : String → String → Exec S Extracted) (doc_type : String) where
  unfoldable pub page_step : ℕ → String → Sweep → Exec S Sweep
  page_step i text w s =
      if not (nonempty (strip (codes text)))
      then (ok w, s)
      else let (r, s') = extract (format_page i text) doc_type s in (record_page i w r, s')

  unfoldable pub sweep : List (ℕ × String) → Sweep → Exec S Sweep
  sweep [] w = pure w
  sweep ((i, text) ∷ pages) w = do w' ← page_step i text w; sweep pages w'

  unfoldable pub finish : Sweep → Exec S StrategyResult
  finish w =
      if ltb 0 w.failures && not (nonempty w.per_page)
      then raise (all_failed w)
      else (do schema ← lift (get_schema doc_type); pure (conclude w schema))

  unfoldable pub extract_page_by_page : List String → Exec S StrategyResult
  extract_page_by_page pages = do w ← sweep (enumerate 0 pages) no_pages; finish w

  abbrev pub one_call : Strategy → List ℕ → Extracted → StrategyResult
  one_call strategy pages x = record {
    raw_output = x.raw_output;
    input_tokens = x.input_tokens;
    output_tokens = x.output_tokens;
    strategy = strategy;
    source_pages = pages;
    warnings = [];
    field_source_pages = none;
  }

  unfoldable pub extract_full_document : List String → Exec S StrategyResult
  extract_full_document pages = do
    x ← extract (join_pages (enumerate 0 pages)) doc_type
    pure (one_call Strategy.full (map (λ p. p.0) (enumerate 0 pages)) x)

  unfoldable pub extract_smart : List String → Exec S StrategyResult
  extract_smart pages = do
    selected ← lift (select_pages pages)
    x ← extract (join_pages selected) doc_type
    pure (one_call Strategy.smart (map (λ p. p.0) selected) x)

  -- `PageStrategyRunner.extract_from_pages`
  unfoldable pub extract_from_pages : List String → Strategy → Exec S StrategyResult
  extract_from_pages pages Strategy.full = extract_full_document pages
  extract_from_pages pages Strategy.smart = extract_smart pages
  extract_from_pages pages Strategy.page_by_page = extract_page_by_page pages
