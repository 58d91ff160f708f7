-- ===== src/Tests/Extraction.antt =====
-- Runs of the extraction: the tool call, the pages, the validation and the processor.
use structured_data_extracto.Base.{
  ℕ, ◌+◌, ◌≤◌, ◌<◌, arith, String, none, some, or_else, List, [], ◌∷◌, ◌≡◌, refl, Dict, get_elem?,
  true, false, get, has, put,
}
use structured_data_extracto.Exec.{Result, ok}
use structured_data_extracto.Value.{Value, str}
use structured_data_extracto.Schema.{
  DocType, Annotation, FieldInfo, get_schema, model_fields, field_names,
}
use structured_data_extracto.ToolCall.{Extracted, extract_within, extract}
use structured_data_extracto.ToolCall.Loop.{Spends, extract-tokens}
use structured_data_extracto.ToolCall.Rounds.{extract-calls}
use structured_data_extracto.Pages.Text.{select_pages}
use structured_data_extracto.Pages.Text.Selection.{IsSelection, select_pages-IsSelection}
use structured_data_extracto.Pages.Merge.{merge_results, no_merge}
use structured_data_extracto.Pages.Merge.Keys.{IsMerge, merge_results-IsMerge}
use structured_data_extracto.Pages.Runner.{Strategy, extract_from_pages, extract_page_by_page}
use structured_data_extracto.Pages.Runner.Tokens.{ChargedPages, extract_from_pages-Charged}
use structured_data_extracto.Pages.Text.{enumerate}
use structured_data_extracto.Pages.Runner.Outcomes.{outcomes}
use structured_data_extracto.Pages.Runner.Sources.{IsPageOutcome, page_by_page-IsPageOutcome}
use structured_data_extracto.Confidence.{score_confidence_map}
use structured_data_extracto.Confidence.Scores.{AreScores, score_confidence_map-AreScores}
use structured_data_extracto.Validation.Quality.{
  key, ErrorDetail, invalid, quality_warnings, total_warnings,
}
use structured_data_extracto.Validation.Fields.{
  invalid_fields, validated_field_value, candidate_with_field_value, missing_value, error_warnings,
  field_name, missing_warnings, reported_fields,
}
use structured_data_extracto.Validation.{
  ExtractionStatus, ValidationResult, recover_partial, recover_fields, recover_field,
  validate_extraction, validation_warnings,
}
use structured_data_extracto.Validation.Outcome.{IsRecovered, validate_extraction-IsRecovered}
use structured_data_extracto.Validation.Missing.{Warns, validation_warnings-Warns}
use structured_data_extracto.Classifier.{classify}
use structured_data_extracto.Classifier.Types.{Answers, classify-Answers}
use structured_data_extracto.Processor.{process_pages}
use structured_data_extracto.Processor.Tokens.{ChargedProcessed, process_pages-Charged}
use structured_data_extracto.Tests.Provider.{
  unused, vendor, provider, provider_meter, pydantic, engine, engine_meter,
}

abbrev pub three_pages : List String
three_pages = "Invoice 7" ∷ "Terms" ∷ "Total due 12" ∷ []

is_invoice : get_schema "invoice" ≡ ok DocType.invoice
unfolding get_schema
is_invoice = refl

abbrev invoice_number : FieldInfo
invoice_number = record { name = "invoice_number"; annotation = Annotation.text; required = true }

third_field : get_elem? (model_fields DocType.invoice) 2 ≡ some invoice_number
unfolding model_fields
third_field = refl

extract-tokens_example :
    Spends provider_meter unused
      (extract provider "large" 2 "Invoice 7" "invoice" unused).0
      (extract provider "large" 2 "Invoice 7" "invoice" unused).1
extract-tokens_example = extract-tokens provider_meter "large" 2 "Invoice 7" "invoice" unused

six_rounds : 2 + 1 < 6
six_rounds = omega arith

extract-calls_example :
    (extract_within provider "large" 2 6 "Invoice 7" "invoice" unused
      ≡ extract provider "large" 2 "Invoice 7" "invoice" unused)
    × ((extract_within provider "large" 2 6 "Invoice 7" "invoice" unused).1.calls
        ≤ unused.calls + (2 + 1))
extract-calls_example =
    extract-calls provider_meter "large" 2 "Invoice 7" "invoice" 6 unused six_rounds

select_pages-IsSelection_example :
    (sel : List (ℕ × String)) × (select_pages three_pages ≡ ok sel) × IsSelection three_pages sel
select_pages-IsSelection_example =
    select_pages-IsSelection "Invoice 7" ("Terms" ∷ "Total due 12" ∷ [])

merge_results-IsMerge_example :
    IsMerge
      (field_names DocType.invoice)
      (0 ∷ 2 ∷ [])
      (merge_results (field_names DocType.invoice) ((vendor, 0) ∷ (vendor, 2) ∷ []) no_merge)
merge_results-IsMerge_example =
    merge_results-IsMerge (field_names DocType.invoice) (0 ∷ 2 ∷ [])
      ((vendor, 0) ∷ (vendor, 2) ∷ []) (refl, (refl, tt))

page_by_page-IsPageOutcome_example :
    IsPageOutcome
      (outcomes (extract provider "large" 2) "invoice" (enumerate 0 three_pages) unused)
      "invoice"
      3
      (extract_page_by_page (extract provider "large" 2) "invoice" three_pages unused).0
page_by_page-IsPageOutcome_example =
    page_by_page-IsPageOutcome (extract provider "large" 2) "invoice" three_pages unused

-- An extractor that charges three tokens a page.
abbrev pub small_extract : String → String → ℕ × ℕ → Result Extracted × (ℕ × ℕ)
small_extract text doc_type (i, o) =
    (ok (record { raw_output = vendor; input_tokens = 2; output_tokens = 1 }), (i + 2, o + 1))

extract_from_pages-Charged_example :
    ChargedPages
      (λ s. s.0)
      (λ s. s.1)
      (0, 0)
      (extract_from_pages small_extract "invoice" three_pages Strategy.page_by_page (0, 0)).0
      (extract_from_pages small_extract "invoice" three_pages Strategy.page_by_page (0, 0)).1
extract_from_pages-Charged_example =
    extract_from_pages-Charged (λ s. s.0) (λ s. s.1) small_extract "invoice"
      (λ text s. (refl, refl)) three_pages Strategy.page_by_page (0, 0)

score_confidence_map-AreScores_example :
    (m : Dict ℕ) × (score_confidence_map "invoice" (some vendor) ≡ ok m)
    × AreScores (or_else (some vendor) []) (model_fields DocType.invoice) m
score_confidence_map-AreScores_example =
    score_confidence_map-AreScores "invoice" DocType.invoice (some vendor) is_invoice

no_number : has vendor "invoice_number" ≡ false
unfolding get
no_number = refl

validation_warnings-Warns_example :
    Warns (validation_warnings DocType.invoice vendor []) "invoice_number"
validation_warnings-Warns_example =
    validation_warnings-Warns DocType.invoice vendor [] 2 invoice_number third_field refl no_number

classify-Answers_example : Answers provider "small" (classify provider "small" "Invoice 7" unused).0
classify-Answers_example = classify-Answers provider "small" "Invoice 7" unused

process_pages-Charged_example :
    ChargedProcessed engine_meter unused
      (process_pages engine three_pages 3 none none unused).0
      (process_pages engine three_pages 3 none none unused).1
process_pages-Charged_example = process_pages-Charged engine_meter three_pages 3 none none unused

abbrev complaint : ErrorDetail
complaint = record { loc = key "invoice_number" ∷ []; msg = "Field required" }

abbrev partial_result : ValidationResult
partial_result = record {
  extracted_data = some (
      ("vendor_name", str "ACME")
      ∷ ("vendor_address", Value.null)
      ∷ ("invoice_number", Value.null)
      ∷ ("invoice_date", Value.null)
      ∷ ("due_date", Value.null)
      ∷ ("subtotal", Value.null)
      ∷ ("tax_amount", Value.null)
      ∷ ("total_amount", Value.null)
      ∷ ("currency", str "USD")
      ∷ ("line_items", Value.null)
      ∷ ("payment_terms", Value.null)
      ∷ []);
  warnings =
      "invoice_number: Field required" ∷ "invoice_date: required field missing"
      ∷ "subtotal: required field missing" ∷ "total_amount: required field missing"
      ∷ "line_items: required field missing" ∷ [];
  status = ExtractionStatus.partial;
}

partial_run : validate_extraction pydantic "invoice" vendor ≡ ok partial_result
unfolding validate_extraction get_schema get recover_partial recover_fields model_fields
    recover_field invalid_fields validated_field_value put candidate_with_field_value
    quality_warnings total_warnings missing_value validation_warnings error_warnings field_name
    missing_warnings reported_fields
partial_run = refl

not_valid : pydantic.model_validate DocType.invoice vendor ≡ invalid (complaint ∷ [])
unfolding get
not_valid = refl

validate_extraction-IsRecovered_example :
    IsRecovered pydantic DocType.invoice vendor (complaint ∷ []) partial_result
validate_extraction-IsRecovered_example =
    validate_extraction-IsRecovered pydantic "invoice" DocType.invoice vendor (complaint ∷ [])
      partial_result is_invoice not_valid partial_run
