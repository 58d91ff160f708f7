-- ===== src/Costs.antt =====
-- app/services/cost_report.py, with `price_for_model` of app/core/config.py. The rows are those that the
-- report queries of app/repositories group; averages of durations are floats, which stay as they come.
pub mod Division
pub mod Totals
pub mod Report
pub mod Queries
pub mod Groups
pub mod Counts
pub mod Stored
use structured_data_extracto.Base.{
  ℕ, ◌+◌, String, Option, none, some, or_else, List, [], ◌∷◌, Dict, get, put, values, sum_of, map,
  ltb, if◌then◌else◌,
}
use structured_data_extracto.Errors.{Error}
use structured_data_extracto.Value.{ℤ, pos}
use structured_data_extracto.Exec.{Result, ok, err}
use structured_data_extracto.Money.{Decimal, round_to_precision, add_decimal, sum_decimals}
use structured_data_extracto.Costs.Division.{multiply_by, divide_by}

-- `ModelTokenPrice`
pub record ModelTokenPrice : Type 0 where
  pub input_token_price_usd : Decimal
  pub output_token_price_usd : Decimal

-- `Decimal("0.0")`
abbrev pub zero_usd : Decimal
zero_usd = record { coefficient = pos 0; scale = 1 }

abbrev pub zero_price : ModelTokenPrice
zero_price = record { input_token_price_usd = zero_usd; output_token_price_usd = zero_usd }

abbrev pub or_no_price : String → Option ModelTokenPrice → Result ModelTokenPrice
or_no_price model (some price) = ok price
or_no_price model none = err (Error.value_error model)

-- `CostConfig.price_for_model`
unfoldable pub price_for_model : Dict ModelTokenPrice → String → Result ModelTokenPrice
price_for_model prices model = or_no_price model (get prices model)

-- `try: price_for_model(...) except ValueError`
abbrev pub or_zero_price : Result ModelTokenPrice → Result ModelTokenPrice
or_zero_price (ok price) = ok price
or_zero_price (err (Error.value_error m)) = ok zero_price
or_zero_price (err e) = err e

-- A row of a usage query: tokens by group and model.
pub record UsageRow : Type 0 where
  pub group_key : String
  pub model : String
  pub total_input_tokens : Option ℕ
  pub total_output_tokens : Option ℕ

pub record UsageCost : Type 0 where
  pub total_input_tokens : ℕ
  pub total_output_tokens : ℕ
  pub estimated_cost_usd : Decimal

abbrev pub input_of : UsageRow → ℕ
input_of row = or_else row.total_input_tokens 0

abbrev pub output_of : UsageRow → ℕ
output_of row = or_else row.total_output_tokens 0

unfoldable pub row_cost : UsageRow → ModelTokenPrice → UsageCost
row_cost row price = record {
  total_input_tokens = input_of row;
  total_output_tokens = output_of row;
  estimated_cost_usd =
      add_decimal (multiply_by (input_of row) price.input_token_price_usd)
        (multiply_by (output_of row) price.output_token_price_usd);
}

abbrev pub add_cost : Option UsageCost → UsageCost → UsageCost
add_cost none c = c
add_cost (some current) c = record {
  total_input_tokens = current.total_input_tokens + c.total_input_tokens;
  total_output_tokens = current.total_output_tokens + c.total_output_tokens;
  estimated_cost_usd = add_decimal current.estimated_cost_usd c.estimated_cost_usd;
}

-- The row of a group in a statistics query; `Float` is the type of the averages.
pub record StatsRow (Float : Type 0) : Type 0 where
  pub group_key : String
  pub count : Option ℕ
  pub avg_duration_ms : Option Float

pub record DocTypeCost (Float : Type 0) : Type 0 where
  pub count : ℕ
  pub avg_extraction_ms : Float
  pub total_input_tokens : ℕ
  pub total_output_tokens : ℕ
  pub estimated_cost_usd : Decimal
  pub avg_cost_per_document_usd : Decimal

module _ (resolver : String → Result ModelTokenPrice) where
  abbrev pub charge : Dict UsageCost → UsageRow → Result ModelTokenPrice → Result (Dict UsageCost)
  charge costs row (err e) = err e
  charge costs row (ok price) =
      ok (put costs row.group_key (add_cost (get costs row.group_key) (row_cost row price)))

  -- The loop of `_build_usage_costs`.
  abbrev pub charge_next :
      (Dict UsageCost → Result (Dict UsageCost)) → Result (Dict UsageCost) → Result (Dict UsageCost)
  charge_next next (ok costs) = next costs
  charge_next next (err e) = err e

  unfoldable pub charge_rows : List UsageRow → Dict UsageCost → Result (Dict UsageCost)
  charge_rows [] costs = ok costs
  charge_rows (row ∷ rows) costs =
      charge_next (charge_rows rows) (charge costs row (or_zero_price (resolver row.model)))

  -- `_build_usage_costs`
  unfoldable pub build_usage_costs : List UsageRow → Result (Dict UsageCost)
  build_usage_costs rows = charge_rows rows []

module _ {Float : Type 0} (no_time : Float) where
  -- `_empty_cost_row`
  abbrev pub empty_cost_row : StatsRow Float → DocTypeCost Float
  empty_cost_row row = record {
    count = or_else row.count 0;
    avg_extraction_ms = or_else row.avg_duration_ms no_time;
    total_input_tokens = 0;
    total_output_tokens = 0;
    estimated_cost_usd = zero_usd;
    avg_cost_per_document_usd = zero_usd;
  }

  -- The dict comprehension over the statistics.
  unfoldable pub stats_breakdown :
      List (StatsRow Float) → Dict (DocTypeCost Float) → Dict (DocTypeCost Float)
  stats_breakdown [] d = d
  stats_breakdown (row ∷ rows) d = stats_breakdown rows (put d row.group_key (empty_cost_row row))

  abbrev pub count_of : Option (DocTypeCost Float) → ℕ
  count_of none = 0
  count_of (some c) = c.count

  abbrev pub time_of : Option (DocTypeCost Float) → Float
  time_of none = no_time
  time_of (some c) = c.avg_extraction_ms

  unfoldable pub with_usage_cost : Option (DocTypeCost Float) → UsageCost → DocTypeCost Float
  with_usage_cost current usage = record {
    count = count_of current;
    avg_extraction_ms = time_of current;
    total_input_tokens = usage.total_input_tokens;
    total_output_tokens = usage.total_output_tokens;
    estimated_cost_usd = usage.estimated_cost_usd;
    avg_cost_per_document_usd =
        if ltb 0 (count_of current)
        then divide_by usage.estimated_cost_usd (count_of current)
        else zero_usd;
  }

  -- The loop over `usage_totals`.
  unfoldable pub add_usages : Dict UsageCost → Dict (DocTypeCost Float) → Dict (DocTypeCost Float)
  add_usages [] d = d
  add_usages ((key, usage) ∷ rest) d =
      add_usages rest (put d key (with_usage_cost (get d key) usage))

  -- `_CostBreakdown`
  pub record CostBreakdown : Type 0 where
    pub breakdown : Dict (DocTypeCost Float)
    pub input_tokens : ℕ
    pub output_tokens : ℕ
    pub estimated_cost : Decimal
    pub extractions : ℕ

  abbrev pub cost_breakdown : List (StatsRow Float) → Dict UsageCost → CostBreakdown
  cost_breakdown stats_rows usage_totals =
      let stats = stats_breakdown stats_rows [] in
      record {
        breakdown = add_usages usage_totals stats;
        input_tokens = sum_of (λ u. u.total_input_tokens) (values usage_totals);
        output_tokens = sum_of (λ u. u.total_output_tokens) (values usage_totals);
        estimated_cost =
            sum_decimals zero_usd (map (λ u. u.estimated_cost_usd) (values usage_totals));
        extractions = sum_of (λ c. c.count) (values stats);
      }

  abbrev pub breakdown_of : List (StatsRow Float) → Result (Dict UsageCost) → Result CostBreakdown
  breakdown_of stats_rows (ok usage_totals) = ok (cost_breakdown stats_rows usage_totals)
  breakdown_of stats_rows (err e) = err e

  -- `_build_cost_breakdown`
  unfoldable pub build_cost_breakdown :
      (String → Result ModelTokenPrice)
      → List (StatsRow Float)
      → List UsageRow
      → Result CostBreakdown
  build_cost_breakdown resolver stats_rows usage_rows =
      breakdown_of stats_rows (build_usage_costs resolver usage_rows)
