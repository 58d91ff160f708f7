-- ===== src/Validation.antt =====
-- app/services/validation.py. Pydantic is a parameter: models, their validation and their dumps.
pub mod Quality
pub mod Fields
pub mod Outcome
pub mod Missing
pub mod Raises
use structured_data_extracto.Base.{
  ℕ, String, Bool, true, false, not, ◌&&◌, ◌||◌, ◌+◌, ◌<>◌, Option, none, some, List, [], ◌∷◌, ◌++◌,
  Dict, get, put, has, contains, ltb, if◌then◌else◌,
}
use structured_data_extracto.Errors.{Error}
use structured_data_extracto.Exec.{Result, ok, err}
use structured_data_extracto.Value.{Value}
use structured_data_extracto.Schema.{DocType, FieldInfo, get_schema, model_fields}
use structured_data_extracto.Validation.Quality.{
  Pydantic, Location, ErrorDetail, Validated, valid, invalid, quality_warnings,
}
use structured_data_extracto.Validation.Fields.{
  invalid_fields, error_warnings, missing_warnings, missing_value, validated_field_value,
}

-- `ExtractionStatus` of app/models/extraction.py
pub data ExtractionStatus : Type 0 where
  pending processing partial completed failed : ExtractionStatus

pub record ValidationResult : Type 0 where
  pub extracted_data : Option (Dict Value)
  pub warnings : List String
  pub status : ExtractionStatus

-- `_warnings`
unfoldable pub validation_warnings : DocType → Dict Value → List ErrorDetail → List String
validation_warnings schema raw errors =
    error_warnings errors ++ missing_warnings (model_fields schema) raw errors

module _ (P : Pydantic) where
  -- The loop of `_recover_partial`: the values and the number of fields that were kept.
  abbrev pub keep_value :
      String → Result P.Attribute → Result (Dict P.Attribute × ℕ) → Result (Dict P.Attribute × ℕ)
  keep_value name (ok v) (ok (values, n)) = ok ((name, v) ∷ values, n + 1)
  keep_value name (err e) rest = err e
  keep_value name (ok v) (err e) = err e

  abbrev pub drop_value :
      String → P.Attribute → Result (Dict P.Attribute × ℕ) → Result (Dict P.Attribute × ℕ)
  drop_value name v (ok (values, n)) = ok ((name, v) ∷ values, n)
  drop_value name v (err e) = err e

  -- One round of it, by the raw value of the field and whether an error names the field.
  unfoldable pub recover_field :
      DocType
      → FieldInfo
      → Result (Dict P.Attribute × ℕ)
      → Option Value
      → Bool
      → Result (Dict P.Attribute × ℕ)
  recover_field schema f rest none is_invalid = drop_value f.name (missing_value P f) rest
  recover_field schema f rest (some v) true = drop_value f.name (missing_value P f) rest
  recover_field schema f rest (some v) false =
      keep_value f.name (validated_field_value P schema f v) rest

  unfoldable pub recover_fields :
      DocType → Dict Value → List String → List FieldInfo → Result (Dict P.Attribute × ℕ)
  recover_fields schema raw invalids [] = ok ([], 0)
  recover_fields schema raw invalids (f ∷ fs) =
      recover_field schema f (recover_fields schema raw invalids fs) (get raw f.name)
        (contains invalids f.name)

  abbrev pub with_quality :
      Option (Dict Value)
      → List String
      → ExtractionStatus
      → Result (List String)
      → Result ValidationResult
  with_quality extracted warnings status (ok quality) =
      ok (record { extracted_data = extracted; warnings = warnings ++ quality; status = status })
  with_quality extracted warnings status (err e) = err e

  abbrev pub recovered :
      DocType → List String → Result (Dict P.Attribute × ℕ) → Result ValidationResult
  recovered schema warnings (ok (values, n)) =
      let model = P.model_construct schema values in
      with_quality (if ltb 0 n then some (P.model_dump model) else none) warnings
        (if ltb 0 n then ExtractionStatus.partial else ExtractionStatus.failed)
        (quality_warnings P schema model)
  recovered schema warnings (err e) = err e

  unfoldable pub recover_partial : DocType → Dict Value → List ErrorDetail → Result ValidationResult
  recover_partial schema raw errors =
      recovered schema (validation_warnings schema raw errors)
        (recover_fields schema raw (invalid_fields errors) (model_fields schema))

  abbrev pub validated : DocType → Dict Value → Validated P.Model → Result ValidationResult
  validated schema raw (valid model) =
      with_quality (some (P.model_dump model)) [] ExtractionStatus.completed
        (quality_warnings P schema model)
  validated schema raw (invalid errors) = recover_partial schema raw errors

  abbrev pub validate_schema : Dict Value → Result DocType → Result ValidationResult
  validate_schema raw (ok schema) = validated schema raw (P.model_validate schema raw)
  validate_schema raw (err e) = err e

  -- `validate_extraction`
  unfoldable pub validate_extraction : String → Dict Value → Result ValidationResult
  validate_extraction doc_type raw = validate_schema raw (get_schema doc_type)
