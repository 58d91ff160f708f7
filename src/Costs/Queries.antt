-- ===== src/Costs/Queries.antt =====
-- The report queries of app/repositories/llm_usage.py and app/repositories/extractions.py, over the stored
-- rows. A row's `created_at` is a function of its identifier. SQL leaves the order of the groups open;
-- here a group stands where its last row was met.
use structured_data_extracto.Base.{
  ℕ, ◌+◌, String, Bool, true, ◌&&◌, Option, none, some, or_else, List, [], ◌∷◌, ◌==◌, leb,
  if◌then◌else◌, Dict, get, put, length, map,
}
use structured_data_extracto.Classifier.{Purpose}
use structured_data_extracto.Exec.{Result}
use structured_data_extracto.Records.{Extraction, LlmUsage}
use structured_data_extracto.Records.Store.{Tables, find_extraction}
use structured_data_extracto.Costs.{UsageRow, StatsRow, ModelTokenPrice}
use structured_data_extracto.Costs.Report.{ReportRows, CostReport, generate}

-- `LLMUsagePurpose.value`
abbrev pub purpose_value : Purpose → String
purpose_value Purpose.classifier = "classifier"
purpose_value Purpose.extraction = "extraction"

-- The `where` clauses.
abbrev at_or_after : Option ℕ → ℕ → Bool
at_or_after none date = true
at_or_after (some from_date) date = leb from_date date

abbrev at_or_before : Option ℕ → ℕ → Bool
at_or_before none date = true
at_or_before (some to_date) date = leb date to_date

abbrev pub in_range : Option ℕ → Option ℕ → ℕ → Bool
in_range from_date to_date date = at_or_after from_date date && at_or_before to_date date

-- A row of the join, with its group.
pub record Selected : Type 0 where
  pub group_key : String
  pub model : String
  pub input_tokens : ℕ
  pub output_tokens : ℕ

abbrev pub selected_row : String → LlmUsage → Selected
selected_row group_key u = record {
  group_key = group_key;
  model = u.model;
  input_tokens = u.input_tokens;
  output_tokens = u.output_tokens;
}

-- `join(Extraction, LLMUsage.extraction_id == Extraction.id)`
abbrev pub extraction_of : List Extraction → Option ℕ → Option Extraction
extraction_of extractions none = none
extraction_of extractions (some id) = find_extraction id extractions

abbrev pub select_row :
    (LlmUsage → Extraction → String) → LlmUsage → Option Extraction → List Selected → List Selected
select_row group_column u none rows = rows
select_row group_column u (some x) rows = selected_row (group_column u x) u ∷ rows

-- `group_by(group_column, LLMUsage.model)` with the sums.
abbrev pub new_group : Selected → UsageRow
new_group s = record {
  group_key = s.group_key;
  model = s.model;
  total_input_tokens = some s.input_tokens;
  total_output_tokens = some s.output_tokens;
}

abbrev pub add_tokens : Selected → UsageRow → UsageRow
add_tokens s row = record row {
  total_input_tokens = some (s.input_tokens + or_else row.total_input_tokens 0);
  total_output_tokens = some (s.output_tokens + or_else row.total_output_tokens 0);
}

unfoldable pub add_to_group : Selected → List UsageRow → List UsageRow
add_to_group s [] = new_group s ∷ []
add_to_group s (row ∷ rows) =
    let rest = add_to_group s rows in
    if (row.group_key == s.group_key) && (row.model == s.model)
    then add_tokens s row ∷ rows
    else row ∷ rest

unfoldable pub grouped : List Selected → List UsageRow
grouped [] = []
grouped (s ∷ ss) = add_to_group s (grouped ss)

-- The durations of the extractions by group.
abbrev pub add_duration : String → ℕ → Dict (List ℕ) → Dict (List ℕ)
add_duration key duration d = put d key (duration ∷ or_else (get d key) [])

module _ (usage_date : ℕ → ℕ) (from_date to_date : Option ℕ) where
  unfoldable pub selected :
      (LlmUsage → Extraction → String) → List Extraction → List LlmUsage → List Selected
  selected group_column extractions [] = []
  selected group_column extractions (u ∷ us) =
      let rest = selected group_column extractions us in
      if in_range from_date to_date (usage_date u.id)
      then select_row group_column u (extraction_of extractions u.extraction_id) rest
      else rest

  -- `_usage_report_stmt`
  unfoldable pub usage_report : (LlmUsage → Extraction → String) → Tables → List UsageRow
  usage_report group_column t = grouped (selected group_column t.extractions t.usages)

module _ (extraction_date : ℕ → ℕ) (from_date to_date : Option ℕ) where
  unfoldable pub durations_by : (Extraction → String) → List Extraction → Dict (List ℕ)
  durations_by column [] = []
  durations_by column (x ∷ xs) =
      let rest = durations_by column xs in
      if in_range from_date to_date (extraction_date x.id)
      then add_duration (column x) x.extraction_duration_ms rest
      else rest

  -- `average` is SQL's `avg`.
  module _ {Float : Type 0} (average : List ℕ → Float) where
    abbrev pub stats_row : String × List ℕ → StatsRow Float
    stats_row (key, durations) = record {
      group_key = key;
      count = some (length durations);
      avg_duration_ms = some (average durations);
    }

    -- `get_cost_report_data` and `get_strategy_cost_report_data`, by their column.
    unfoldable pub stats_report : (Extraction → String) → Tables → List (StatsRow Float)
    stats_report column t = map stats_row (durations_by column t.extractions)

module _ (usage_date extraction_date : ℕ → ℕ) (from_date to_date : Option ℕ) {Float : Type 0}
    (average : List ℕ → Float) where
  -- The six queries of `generate`.
  unfoldable pub report_rows : Tables → ReportRows Float
  report_rows t =
      let usages : (LlmUsage → Extraction → String) → List UsageRow =
        λ column. usage_report usage_date from_date to_date column t in
      let stats : (Extraction → String) → List (StatsRow Float) =
        λ column. stats_report extraction_date from_date to_date average column t in
      record {
        doc_type_rows = stats (λ x. x.doc_type);
        strategy_rows = stats (λ x. x.strategy);
        doc_type_usage_rows = usages (λ u x. x.doc_type);
        strategy_usage_rows = usages (λ u x. x.strategy);
        model_usage_rows = usages (λ u x. u.model);
        purpose_usage_rows = usages (λ u x. purpose_value u.purpose);
      }

  -- `CostReportService.generate`
  unfoldable pub stored_report :
      Float → (String → Result ModelTokenPrice) → Tables → Result (CostReport Float)
  stored_report no_time price_for_model t = generate no_time price_for_model (report_rows t)
