-- ===== src/Costs/Totals.antt =====
-- The totals of app/services/cost_report.py.
use structured_data_extracto.Base.{
  ℕ, ◌+◌, String, Option, none, some, List, [], ◌∷◌, ◌≡◌, refl, ap, arith, Dict, get, put, get-put,
  values, sum_of, ◌==◌, eq_iff, if◌then◌else◌, Bool-cases, Option-cases, inl, inr,
}
use structured_data_extracto.Exec.{ok}
use structured_data_extracto.Costs.{
  ModelTokenPrice, UsageRow, UsageCost, input_of, output_of, row_cost, add_cost, charge_rows,
  build_usage_costs, or_zero_price, price_for_model, zero_price, StatsRow, CostBreakdown,
  stats_breakdown, cost_breakdown, build_cost_breakdown,
}

module _ {V : Type 0} (f : V → ℕ) where
  -- A measure of what a key holds; nothing counts 0.
  abbrev pub amount_at : Option V → ℕ
  amount_at none = 0
  amount_at (some v) = f v

  pub sum_of-put :
      (d : Dict V) (k : String) (v : V)
      → sum_of f (values (put d k v)) + amount_at (get d k) ≡ sum_of f (values d) + f v
  unfolding values put get
  sum_of-put [] k v = omega arith
  sum_of-put ((j, w) ∷ d) k v = elim (Bool-cases (j == k)) [
    | inl e ↦ rw (e) (omega arith)
    | inr e ↦ rw (e) (omega (arith, sum_of-put d k v))
  ]

-- The part of a row in the total of a group.
abbrev pub in_group : (UsageRow → ℕ) → String → UsageRow → ℕ
in_group tokens k row = if row.group_key == k then tokens row else 0

-- What the rows add to the totals of the groups.
pub record Grows (f : UsageCost → ℕ) (tokens : UsageRow → ℕ) (rows : List UsageRow)
    (costs costs' : Dict UsageCost) : Type 0 where
  pub total : sum_of f (values costs') ≡ sum_of f (values costs) + sum_of tokens rows
  pub by_group :
      (k : String)
      → amount_at f (get costs' k) ≡ amount_at f (get costs k) + sum_of (in_group tokens k) rows

module _ (f : UsageCost → ℕ) (tokens : UsageRow → ℕ)
    (added : (o : Option UsageCost) (c : UsageCost) → f (add_cost o c) ≡ amount_at f o + f c)
    (costed : (row : UsageRow) (p : ModelTokenPrice) → f (row_cost row p) ≡ tokens row) where
  charge-Grows :
      (costs : Dict UsageCost) (row : UsageRow) (p : ModelTokenPrice)
      → Grows f tokens
          (row ∷ [])
          costs
          (put costs row.group_key (add_cost (get costs row.group_key) (row_cost row p)))
  charge-Grows costs row p =
      let o = get costs row.group_key in
      let c = add_cost o (row_cost row p) in
      record {
        total =
            omega
              (arith, sum_of-put f costs row.group_key c, added o (row_cost row p), costed row p);
        by_group = λ k. elim (Bool-cases (row.group_key == k)) [
          | inl e ↦
              rw (get-put costs row.group_key c k, e)
                (omega (
                  arith,
                  added o (row_cost row p),
                  costed row p,
                  ap (λ j. amount_at f (get costs j)) ((eq_iff row.group_key k).0 e),
                ))
          | inr e ↦ rw (get-put costs row.group_key c k, e) (omega arith)
        ];
      }

  Grows-trans :
      (row : UsageRow) (rows : List UsageRow) (a b c : Dict UsageCost)
      → Grows f tokens (row ∷ []) a b
      → Grows f tokens rows b c
      → Grows f tokens (row ∷ rows) a c
  Grows-trans row rows a b c g h = record {
    total = omega (arith, g.total, h.total);
    by_group = λ k. omega (arith, g.by_group k, h.by_group k);
  }

Grows-nil :
    (f : UsageCost → ℕ) (tokens : UsageRow → ℕ) (costs : Dict UsageCost)
    → Grows f tokens [] costs costs
Grows-nil f tokens costs = record { total = omega arith; by_group = λ k. omega arith }

-- Both kinds of tokens.
abbrev pub Accounts : List UsageRow → Dict UsageCost → Dict UsageCost → Type 0
Accounts rows costs costs' =
    Grows (λ u. u.total_input_tokens) input_of rows costs costs'
    × Grows (λ u. u.total_output_tokens) output_of rows costs costs'

input_added :
    (o : Option UsageCost) (c : UsageCost)
    → (add_cost o c).total_input_tokens
      ≡ amount_at (λ u. u.total_input_tokens) o + c.total_input_tokens
input_added none c = omega arith
input_added (some d) c = refl

output_added :
    (o : Option UsageCost) (c : UsageCost)
    → (add_cost o c).total_output_tokens
      ≡ amount_at (λ u. u.total_output_tokens) o + c.total_output_tokens
output_added none c = omega arith
output_added (some d) c = refl

module _ (prices : Dict ModelTokenPrice) where
  -- A model without a price costs nothing.
  priced :
      (model : String)
      → (p : ModelTokenPrice) × (or_zero_price (price_for_model prices model) ≡ ok p)
  unfolding price_for_model
  priced model = elim (Option-cases (get prices model)) [
    | inl e ↦ (zero_price, rw e refl)
    | inr (p, e) ↦ (p, rw e refl)
  ]

  charge-Accounts :
      (costs : Dict UsageCost) (row : UsageRow) (p : ModelTokenPrice)
      → Accounts
          (row ∷ [])
          costs
          (put costs row.group_key (add_cost (get costs row.group_key) (row_cost row p)))
  unfolding row_cost
  charge-Accounts costs row p = (
    charge-Grows (λ u. u.total_input_tokens) input_of input_added (λ r q. refl) costs row p,
    charge-Grows (λ u. u.total_output_tokens) output_of output_added (λ r q. refl) costs row p,
  )

  charge_rows-Accounts :
      (rows : List UsageRow) (costs : Dict UsageCost)
      → (costs' : Dict UsageCost) × (charge_rows (price_for_model prices) rows costs ≡ ok costs')
        × Accounts rows costs costs'
  unfolding charge_rows row_cost
  charge_rows-Accounts [] costs = (costs, refl, (Grows-nil _ _ costs, Grows-nil _ _ costs))
  charge_rows-Accounts (row ∷ rows) costs =
      let (p, e) = priced row.model in
      let next = put costs row.group_key (add_cost (get costs row.group_key) (row_cost row p)) in
      let (costs', e', a) = charge_rows-Accounts rows next in
      let b = charge-Accounts costs row p in
      (
        costs',
        rw e e',
        (
          Grows-trans (λ u. u.total_input_tokens) input_of input_added (λ r q. refl) row rows _ _ _
              b.0 a.0,
          Grows-trans (λ u. u.total_output_tokens) output_of output_added (λ r q. refl) row rows _ _
              _ b.1 a.1,
        ),
      )

  -- `_build_usage_costs` never raises with the prices of the configuration, whatever the models of the
  -- rows: the tokens of all groups are those of all rows, and those of each group are those of its rows.
  pub build_usage_costs-Accounts :
      (rows : List UsageRow)
      → (costs : Dict UsageCost) × (build_usage_costs (price_for_model prices) rows ≡ ok costs)
        × Accounts rows [] costs
  unfolding build_usage_costs
  build_usage_costs-Accounts rows = charge_rows-Accounts rows []

  -- `_build_cost_breakdown` returns, the tokens of its totals are those of the usage rows, whether or not
  -- the statistics have their groups, and its extractions are those of the statistics.
  pub build_cost_breakdown-totals :
      {Float : Type 0} (no_time : Float) (stats : List (StatsRow Float)) (rows : List UsageRow)
      → (b : CostBreakdown no_time) × (build_cost_breakdown no_time
            (price_for_model prices)
            stats
            rows
          ≡ ok b)
        × (b.input_tokens ≡ sum_of input_of rows)
        × (b.output_tokens ≡ sum_of output_of rows)
        × (b.extractions ≡ sum_of (λ c. c.count) (values (stats_breakdown no_time stats [])))
  unfolding build_cost_breakdown values
  build_cost_breakdown-totals no_time stats rows =
      let (costs, e, a) = build_usage_costs-Accounts rows in
      (
        cost_breakdown no_time stats costs,
        rw e refl,
        omega (arith, a.0.total),
        omega (arith, a.1.total),
        refl,
      )
