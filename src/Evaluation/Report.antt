-- ===== src/Evaluation/Report.antt =====
-- The Markdown of scripts/evaluate_strategies.py.
use Prim.Native.Char.{code}
use structured_data_extracto.Base.{
  ℕ, zero, suc, ◌+◌, ◌-◌, ◌/◌, ◌%◌, ◌^◌, String, List, [], ◌∷◌, ◌++◌, ◌<>◌, show, join, map,
  nonempty, eqb, leb, if◌then◌else◌,
}
use structured_data_extracto.Value.{ℤ, pos, negsuc}
use structured_data_extracto.Money.{Decimal, magnitude, digits_of}
use structured_data_extracto.Pages.Runner.{strategy_value}
use structured_data_extracto.Evaluation.{Evaluation}

-- `str(value).replace("|", "\\|")`
unfoldable pub escape_bars : String → String
escape_bars String.[] = ""
escape_bars (String.◌∷◌ c s) =
    let rest = String.◌∷◌ c (escape_bars s) in if eqb (code c) b'|' then "\\" <> rest else rest

-- `_join_values`
unfoldable pub join_values : List String → String
join_values values = if nonempty values then join ", " (map escape_bars values) else "-"

abbrev zeros : ℕ → String
zeros zero = ""
zeros (suc n) = "0" <> zeros n

-- A number with zeros in front of it, up to a width.
abbrev padded : ℕ → ℕ → String
padded width n = zeros (width - digits_of (suc n) n) <> (if eqb n 0 then "" else show n)

abbrev sign_of : ℤ → String
sign_of (pos _) = ""
sign_of (negsuc _) = "-"

-- How many digits a coefficient is written with.
abbrev digit_count : ℕ → ℕ
digit_count m = if eqb m 0 then 1 else digits_of (suc m) m

abbrev fraction : ℕ → ℕ → String
fraction places m = if eqb places 0 then "" else "." <> padded places m

-- `str` of a decimal: in full down to six zeros behind the point, and below with an exponent.
abbrev pub decimal_text : Decimal → String
decimal_text d =
    let m = magnitude d.coefficient in
    let digits = digit_count m in
    if leb d.scale (digits + 5)
    then sign_of d.coefficient <> show (m / 10 ^ d.scale) <> fraction d.scale (m % 10 ^ d.scale)
    else sign_of d.coefficient
      <> show (m / 10 ^ (digits - 1))
      <> fraction (digits - 1) (m % 10 ^ (digits - 1))
      <> "E-"
      <> show (d.scale - (digits - 1))

-- The row of a result.
unfoldable pub result_line : Evaluation → String
result_line r =
    "| "
    <> join " | " (
        strategy_value r.strategy
        ∷ r.status
        ∷ join_values (map show r.source_pages)
        ∷ show r.input_tokens
        ∷ show r.output_tokens
        ∷ decimal_text r.estimated_cost_usd
        ∷ join_values r.extracted_fields
        ∷ join_values r.warnings
        ∷ [])
    <> " |"

abbrev header_lines : String → String → List String
header_lines pdf_path doc_type =
    "# Strategy Comparison"
    ∷ ""
    ∷ ("- PDF: `" <> pdf_path <> "`")
    ∷ ("- Document type: `" <> doc_type <> "`")
    ∷ ""
    ∷ "| Strategy | Status | Pages | Input tokens | Output tokens | Estimated cost USD | Fields | Warnings |"
    ∷ "|---|---|---:|---:|---:|---:|---|---|"
    ∷ []

abbrev note_lines : List String
note_lines =
    "" ∷ "## Notes" ∷ "" ∷ "- `full` sends every page in one extraction request."
    ∷ "- `smart` sends selected pages based on the page heuristic."
    ∷ "- `page_by_page` extracts each page separately and merges fields." ∷ []

-- `render_strategy_evaluation_markdown`
unfoldable pub render_strategy_evaluation_markdown : String → String → List Evaluation → String
render_strategy_evaluation_markdown pdf_path doc_type results =
    join "\n" (header_lines pdf_path doc_type ++ map result_line results ++ note_lines) <> "\n"
