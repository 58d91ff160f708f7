-- ===== src/Tests/Batches.antt =====
-- Runs of a batch under its semaphore, of the strategies' evaluation, and of a report on stored rows.
use structured_data_extracto.Base.{
  ℕ, Dict, ◌*◌, ◌≤◌, ◌<◌, ◌≡◌, ◌⊎◌, String, some, none, List, [], ◌∷◌, arith, map, length, refl,
}
use structured_data_extracto.Exec.{Result, ok}
use structured_data_extracto.Pages.Runner.{Strategy}
use structured_data_extracto.Value.{pos}
use structured_data_extracto.Costs.{ModelTokenPrice, price_for_model}
use structured_data_extracto.Costs.Report.{CostReport}
use structured_data_extracto.Costs.Queries.{stored_report}
use structured_data_extracto.Costs.Stored.{Reconciles, stored_report-Reconciles}
use structured_data_extracto.Documents.Batch.Tasks.{
  Task, waiting, running, acquire, other, Run, idle, then, file_of, count_running, start_tasks,
}
use structured_data_extracto.Documents.Batch.Schedule.{CanStep, Responds, Run-IsBounded, Run-ends}
use structured_data_extracto.Evaluation.{Evaluation, default_strategies, evaluate_strategies}
use structured_data_extracto.Evaluation.Charges.{AreEvaluated, evaluate_strategies-AreEvaluated}
use structured_data_extracto.Tests.Provider.{pydantic}
use structured_data_extracto.Tests.Extraction.{three_pages, small_extract}
use structured_data_extracto.Tests.Amend.{recorded_world}

abbrev prices : Dict ModelTokenPrice
prices =
    (
      "large",
      record {
        input_token_price_usd = record { coefficient = pos 3; scale = 6 };
        output_token_price_usd = record { coefficient = pos 15; scale = 6 };
      },
    )
    ∷ []

abbrev files : List String
files = "a.pdf" ∷ "b.pdf" ∷ []

-- The second file comes first.
abbrev tasks : List Task
tasks = waiting "a.pdf" ∷ running "b.pdf" ∷ []

one_step : Run (start_tasks files) 5 1 tasks 4
one_step = then (other (waiting "a.pdf") (acquire "b.pdf" [] 4)) (idle tasks 4)

Run-IsBounded_example : (count_running tasks ≤ 5) × (map file_of tasks ≡ files)
Run-IsBounded_example = Run-IsBounded files 5 1 tasks 4 one_step

five_positive : 0 < 5
five_positive = omega arith

Run-ends_example :
    ((1 < 2 * length files) × CanStep tasks 4) ⊎ ((1 ≡ 2 * length files) × Responds files tasks)
Run-ends_example = Run-ends files 5 1 tasks 4 five_positive one_step

abbrev no_date : ℕ → ℕ
no_date id = 0

stored_report-Reconciles_example :
    (c : CostReport ℕ) × (stored_report no_date no_date
        (some 0)
        none
        length
        0
        (price_for_model prices)
        recorded_world.db.0
      ≡ ok c)
    × Reconciles no_date (some 0) none no_date recorded_world.db.0 c
stored_report-Reconciles_example =
    stored_report-Reconciles no_date (some 0) none no_date length 0 prices recorded_world.db.0

abbrev small_evaluation : List Strategy → ℕ × ℕ → Result (List Evaluation) × (ℕ × ℕ)
small_evaluation =
    evaluate_strategies (price_for_model prices) "large" none small_extract pydantic three_pages
      "invoice"

evaluate_strategies-AreEvaluated_example :
    AreEvaluated
      (λ (s : ℕ × ℕ). s.0)
      (λ s. s.1)
      default_strategies
      (0, 0)
      (small_evaluation default_strategies (0, 0)).0
      (small_evaluation default_strategies (0, 0)).1
evaluate_strategies-AreEvaluated_example =
    evaluate_strategies-AreEvaluated (λ (s : ℕ × ℕ). s.0) (λ s. s.1) prices "large" none
      small_extract pydantic three_pages "invoice" (λ text s. (refl, refl)) default_strategies
      (0, 0)
