-- ===== src/Costs/Stored.antt =====
-- The cost report of app/services/cost_report.py and the usages that are stored.
use structured_data_extracto.Base.{
  ℕ, ◌+◌, String, Bool, true, Option, none, some, List, [], ◌∷◌, ◌≡◌, ◌∙◌, refl, ap, arith, ◌==◌,
  if◌then◌else◌, Bool-cases, inl, inr, Dict, get, sum_of,
}
use structured_data_extracto.Exec.{ok}
use structured_data_extracto.Records.{Extraction, LlmUsage}
use structured_data_extracto.Records.Store.{Tables}
use structured_data_extracto.Costs.{ModelTokenPrice, input_of, output_of, price_for_model}
use structured_data_extracto.Costs.Totals.{amount_at}
use structured_data_extracto.Costs.Report.{CostReport, generate-IsReport}
use structured_data_extracto.Costs.Counts.{counted_extraction, stats_report-counts}
use structured_data_extracto.Costs.Queries.{
  Selected, in_range, selected_row, select_row, extraction_of, selected, usage_report,
  purpose_value, report_rows, stored_report,
}
use structured_data_extracto.Costs.Groups.{grouped-sum}

abbrev tokens_with : (LlmUsage → Extraction → ℕ) → LlmUsage → Option Extraction → ℕ
tokens_with f u none = 0
tokens_with f u (some x) = f u x

-- The usages that a report counts: those of the period whose extraction is stored.
module _ (usage_date : ℕ → ℕ) (from_date to_date : Option ℕ) where
  abbrev counted_usage : (LlmUsage → Extraction → ℕ) → List Extraction → LlmUsage → ℕ
  counted_usage f extractions u =
      if in_range from_date to_date (usage_date u.id)
      then tokens_with f u (extraction_of extractions u.extraction_id)
      else 0

  -- The input tokens of the usages that are counted and whose group is asked for.
  module _ (group_column : LlmUsage → Extraction → String) (asked : String → Bool)
      (picked : Selected → ℕ) (field : LlmUsage → ℕ)
      (same : (k : String) (u : LlmUsage) → picked (selected_row k u) ≡ field u) where
    abbrev summed : List Selected → ℕ
    summed ss = sum_of (λ s. if asked s.group_key then picked s else 0) ss

    abbrev field_of : LlmUsage → Extraction → ℕ
    field_of u x = if asked (group_column u x) then field u else 0

    select_row-sum :
        (u : LlmUsage) (found : Option Extraction) (rows : List Selected)
        → summed (select_row group_column u found rows) ≡ tokens_with field_of u found + summed rows
    select_row-sum u none rows = omega arith
    select_row-sum u (some x) rows =
        ap (λ n. (if asked (group_column u x) then n else 0) + summed rows)
          (same (group_column u x) u)

    selected-sum :
        (extractions : List Extraction) (us : List LlmUsage)
        → summed (selected usage_date from_date to_date group_column extractions us)
          ≡ sum_of (counted_usage field_of extractions) us
    unfolding selected
    selected-sum extractions [] = refl
    selected-sum extractions (u ∷ us) =
        elim (Bool-cases (in_range from_date to_date (usage_date u.id))) [
          | inl e ↦ rw e (
              omega (
                arith,
                select_row-sum u (extraction_of extractions u.extraction_id)
                    (selected usage_date from_date to_date group_column extractions us),
                selected-sum extractions us,
              ))
          | inr e ↦ rw e (omega (arith, selected-sum extractions us))
        ]

  module _ (column : LlmUsage → Extraction → String) (asked : String → Bool) (t : Tables) where
    usage_report-input :
        sum_of
          (λ row. if asked row.group_key then input_of row else 0)
          (usage_report usage_date from_date to_date column t)
        ≡ sum_of
            (counted_usage (λ u x. if asked (column u x) then u.input_tokens else 0) t.extractions)
            t.usages
    unfolding usage_report
    usage_report-input =
        grouped-sum input_of (λ s. s.input_tokens) (λ s. refl) (λ s row. refl) asked
          (selected usage_date from_date to_date column t.extractions t.usages)
        ∙ selected-sum column asked (λ s. s.input_tokens) (λ u. u.input_tokens) (λ k u. refl)
            t.extractions t.usages

    usage_report-output :
        sum_of
          (λ row. if asked row.group_key then output_of row else 0)
          (usage_report usage_date from_date to_date column t)
        ≡ sum_of
            (counted_usage (λ u x. if asked (column u x) then u.output_tokens else 0) t.extractions)
            t.usages
    unfolding usage_report
    usage_report-output =
        grouped-sum output_of (λ s. s.output_tokens) (λ s. refl) (λ s row. refl) asked
          (selected usage_date from_date to_date column t.extractions t.usages)
        ∙ selected-sum column asked (λ s. s.output_tokens) (λ u. u.output_tokens) (λ k u. refl)
            t.extractions t.usages

  -- What a report says of the stored rows: its extractions are those of the period, its totals are the
  -- tokens of the usages, and those of each model and of each purpose are the tokens of its usages.
  pub record Reconciles (extraction_date : ℕ → ℕ) (t : Tables) {Float : Type 0}
      (c : CostReport Float) : Type 0 where
    pub extractions :
        c.total_extractions
        ≡ sum_of (counted_extraction extraction_date from_date to_date) t.extractions
    pub input :
        c.total_input_tokens ≡ sum_of (counted_usage (λ u x. u.input_tokens) t.extractions) t.usages
    pub output :
        c.total_output_tokens
        ≡ sum_of (counted_usage (λ u x. u.output_tokens) t.extractions) t.usages
    pub model_input :
        (m : String)
        → amount_at (λ u. u.total_input_tokens) (get c.by_model m)
          ≡ sum_of
              (counted_usage (λ u x. if u.model == m then u.input_tokens else 0) t.extractions)
              t.usages
    pub model_output :
        (m : String)
        → amount_at (λ u. u.total_output_tokens) (get c.by_model m)
          ≡ sum_of
              (counted_usage (λ u x. if u.model == m then u.output_tokens else 0) t.extractions)
              t.usages
    pub purpose_output :
        (p : String)
        → amount_at (λ u. u.total_output_tokens) (get c.by_purpose p)
          ≡ sum_of
              (counted_usage
                (λ u x. if purpose_value u.purpose == p then u.output_tokens else 0)
                t.extractions)
              t.usages
    pub purpose_input :
        (p : String)
        → amount_at (λ u. u.total_input_tokens) (get c.by_purpose p)
          ≡ sum_of
              (counted_usage
                (λ u x. if purpose_value u.purpose == p then u.input_tokens else 0)
                t.extractions)
              t.usages

  -- With the prices of the configuration, a report over the stored rows is always returned, and it
  -- reconciles with the stored rows of the period: it counts each extraction once; its totals are the
  -- tokens of the usages whose extraction is stored, and the tokens of each model and of each purpose are
  -- those of its usages.
  pub stored_report-Reconciles :
      (extraction_date : ℕ → ℕ) {Float : Type 0} (average : List ℕ → Float) (no_time : Float)
      (prices : Dict ModelTokenPrice) (t : Tables)
      → (c : CostReport Float) × (stored_report usage_date extraction_date from_date to_date average
            no_time
            (price_for_model prices)
            t
          ≡ ok c)
        × Reconciles extraction_date t c
  unfolding stored_report report_rows get
  stored_report-Reconciles extraction_date average no_time prices t =
      let r = report_rows usage_date extraction_date from_date to_date average t in
      let (c, e, i) = generate-IsReport no_time prices r in
      (
        c,
        e,
        record {
          input = i.input ∙ usage_report-input (λ u x. x.doc_type) (λ _. true) t;
          output = i.output ∙ usage_report-output (λ u x. x.doc_type) (λ _. true) t;
          model_input = λ m.
              i.models.0.by_group m
              ∙ (omega arith ∙ usage_report-input (λ u x. u.model) (λ k. k == m) t);
          model_output = λ m.
              i.models.1.by_group m
              ∙ (omega arith ∙ usage_report-output (λ u x. u.model) (λ k. k == m) t);
          extractions =
              i.extractions
              ∙ stats_report-counts extraction_date from_date to_date no_time average
                  (λ x. x.doc_type) t;
          purpose_output = λ p.
              i.purposes.1.by_group p
              ∙ (omega arith
                  ∙ usage_report-output (λ u x. purpose_value u.purpose) (λ k. k == p) t);
          purpose_input = λ p.
              i.purposes.0.by_group p
              ∙ (omega arith ∙ usage_report-input (λ u x. purpose_value u.purpose) (λ k. k == p) t);
        },
      )
