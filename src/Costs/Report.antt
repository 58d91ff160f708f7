-- ===== src/Costs/Report.antt =====
-- `generate` of app/services/cost_report.py, over what its six queries return.
use structured_data_extracto.Base.{ℕ, String, List, [], Dict, ◌≡◌, refl, sum_of, values}
use structured_data_extracto.Exec.{Result, ok, err}
use structured_data_extracto.Money.{Decimal}
use structured_data_extracto.Costs.{
  ModelTokenPrice, UsageRow, UsageCost, StatsRow, DocTypeCost, CostBreakdown, stats_breakdown,
  price_for_model, input_of, output_of, build_usage_costs, build_cost_breakdown,
}
use structured_data_extracto.Costs.Totals.{
  Accounts, build_usage_costs-Accounts, build_cost_breakdown-totals,
}

pub record ReportRows (Float : Type 0) : Type 0 where
  pub doc_type_rows : List (StatsRow Float)
  pub strategy_rows : List (StatsRow Float)
  pub doc_type_usage_rows : List UsageRow
  pub strategy_usage_rows : List UsageRow
  pub model_usage_rows : List UsageRow
  pub purpose_usage_rows : List UsageRow

-- `CostReportResponse`
pub record CostReport (Float : Type 0) : Type 0 where
  pub by_doc_type : Dict (DocTypeCost Float)
  pub by_strategy : Dict (DocTypeCost Float)
  pub by_model : Dict UsageCost
  pub by_purpose : Dict UsageCost
  pub total_input_tokens : ℕ
  pub total_output_tokens : ℕ
  pub total_estimated_cost_usd : Decimal
  pub total_extractions : ℕ

abbrev then_with : {A B : Type 0} → Result A → (A → Result B) → Result B
then_with (ok a) f = f a
then_with (err e) f = err e

module _ {Float : Type 0} (no_time : Float) where
  abbrev cost_report :
      CostBreakdown no_time
      → CostBreakdown no_time
      → Dict UsageCost
      → Dict UsageCost
      → CostReport Float
  cost_report doc_type_costs strategy_costs by_model by_purpose = record {
    by_doc_type = doc_type_costs.breakdown;
    by_strategy = strategy_costs.breakdown;
    by_model = by_model;
    by_purpose = by_purpose;
    total_input_tokens = doc_type_costs.input_tokens;
    total_output_tokens = doc_type_costs.output_tokens;
    total_estimated_cost_usd = doc_type_costs.estimated_cost;
    total_extractions = doc_type_costs.extractions;
  }

  unfoldable pub generate :
      (String → Result ModelTokenPrice) → ReportRows Float → Result (CostReport Float)
  generate resolver r =
      then_with (build_cost_breakdown no_time resolver r.doc_type_rows r.doc_type_usage_rows) (λ d.
        then_with (build_cost_breakdown no_time resolver r.strategy_rows r.strategy_usage_rows)
          (λ s. then_with (build_usage_costs resolver r.model_usage_rows) (λ m.
            then_with (build_usage_costs resolver r.purpose_usage_rows)
              (λ p. ok (cost_report d s m p)))))

  -- What a report says of the rows: its totals are the tokens of the rows by document type, and its
  -- parts by model and by purpose hold the tokens of their rows, in total and group by group.
  pub record IsReport (r : ReportRows Float) (c : CostReport Float) : Type 0 where
    pub input : c.total_input_tokens ≡ sum_of input_of r.doc_type_usage_rows
    pub output : c.total_output_tokens ≡ sum_of output_of r.doc_type_usage_rows
    pub extractions :
        c.total_extractions
        ≡ sum_of (λ x. x.count) (values (stats_breakdown no_time r.doc_type_rows []))
    pub models : Accounts r.model_usage_rows [] c.by_model
    pub purposes : Accounts r.purpose_usage_rows [] c.by_purpose

  -- `generate` returns a report on any rows that its queries give, whatever models they name: with the
  -- prices of the configuration a model without a price makes no error. The totals of the report are the
  -- tokens of the rows by document type and the extractions of their statistics, and its parts by model and
  -- by purpose hold the tokens of their rows, in total and group by group.
  pub generate-IsReport :
      (prices : Dict ModelTokenPrice) (r : ReportRows Float)
      → (c : CostReport Float) × (generate (price_for_model prices) r ≡ ok c) × IsReport r c
  unfolding generate
  generate-IsReport prices r =
      let (d, e, i, o, x) =
        build_cost_breakdown-totals prices no_time r.doc_type_rows r.doc_type_usage_rows in
      let (s, f, _, _, _) =
        build_cost_breakdown-totals prices no_time r.strategy_rows r.strategy_usage_rows in
      let (m, g, a) = build_usage_costs-Accounts prices r.model_usage_rows in
      let (p, h, b) = build_usage_costs-Accounts prices r.purpose_usage_rows in
      (
        cost_report d s m p,
        rw (e, f, g, h) refl,
        record { input = i; output = o; extractions = x; models = a; purposes = b },
      )
