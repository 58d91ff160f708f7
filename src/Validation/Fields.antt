-- ===== src/Validation/Fields.antt =====
-- The field-wise helpers of app/services/validation.py.
use structured_data_extracto.Base.{
  String, not, ◌||◌, ◌<>◌, Option, none, some, List, [], ◌∷◌, Dict, get, put, has, contains, show,
  if◌then◌else◌,
}
use structured_data_extracto.Errors.{Error}
use structured_data_extracto.Exec.{Result, ok, err}
use structured_data_extracto.Value.{Value, pos, null, int, str, list, nil}
use structured_data_extracto.Schema.{
  DocType, FieldInfo, Annotation, text, decimal, date, integer, list_of, model_fields,
}
use structured_data_extracto.Validation.Quality.{
  Pydantic, Location, key, index, ErrorDetail, Validated, valid, invalid,
}

-- `_field_name`
abbrev pub location_name : Location → String
location_name (key name) = name
location_name (index i) = show i

unfoldable pub field_name : List Location → String
field_name [] = "model"
field_name (l ∷ _) = location_name l

-- `_invalid_fields`
abbrev pub add_invalid : List Location → List String → List String
add_invalid [] rest = rest
add_invalid (key name ∷ _) rest = name ∷ rest
add_invalid (index _ ∷ _) rest = rest

unfoldable pub invalid_fields : List ErrorDetail → List String
invalid_fields [] = []
invalid_fields (e ∷ es) = add_invalid e.loc (invalid_fields es)

-- The first loop of `_warnings`, and the names that it reports.
unfoldable pub error_warnings : List ErrorDetail → List String
error_warnings [] = []
error_warnings (e ∷ es) = (field_name e.loc <> ": " <> e.msg) ∷ error_warnings es

unfoldable pub reported_fields : List ErrorDetail → List String
reported_fields [] = []
reported_fields (e ∷ es) = field_name e.loc ∷ reported_fields es

-- The second loop of `_warnings`.
unfoldable pub missing_warnings : List FieldInfo → Dict Value → List ErrorDetail → List String
missing_warnings [] raw errors = []
missing_warnings (f ∷ fs) raw errors =
    let rest = missing_warnings fs raw errors in
    if has raw f.name || contains (reported_fields errors) f.name
    then rest
    else if f.required
    then (f.name <> ": " <> "required field missing") ∷ rest
    else rest

-- `_fallback_raw_value`; the default of every field that is not required is `None`.
abbrev pub fallback_for : Annotation → Value
fallback_for text = str ""
fallback_for integer = int (pos 0)
fallback_for decimal = str "0"
fallback_for date = str "1970-01-01"
fallback_for (list_of _) = list nil

unfoldable pub fallback_raw_value : FieldInfo → Value
fallback_raw_value f = if not f.required then null else fallback_for f.annotation

-- `_candidate_with_field_value`
unfoldable pub candidate_with_field_value : List FieldInfo → Dict Value → List String → Dict Value
candidate_with_field_value [] raw invalids = []
candidate_with_field_value (f ∷ fs) raw invalids =
    let rest = candidate_with_field_value fs raw invalids in
    let fallback = (f.name, fallback_raw_value f) ∷ rest in
    elim (get raw f.name) [
      | none ↦ fallback
      | some v ↦ if contains invalids f.name then fallback else (f.name, v) ∷ rest
    ]

module _ (P : Pydantic) where
  -- `_missing_value`: `None` for a required field, and its default, `None`, for another.
  unfoldable pub missing_value : FieldInfo → P.Attribute
  missing_value f = P.none_value

  abbrev pub adapted : Option P.Attribute → Result P.Attribute
  adapted (some v) = ok v
  adapted none = err (Error.other "ValidationError")

  abbrev pub attribute_or_adapted : FieldInfo → Value → Validated P.Model → Result P.Attribute
  attribute_or_adapted f v (valid model) = ok (P.attribute model f.name)
  attribute_or_adapted f v (invalid errors) = adapted (P.validate_python f.annotation v)

  -- `_validated_field_value`
  unfoldable pub validated_field_value : DocType → FieldInfo → Value → Result P.Attribute
  validated_field_value schema f v = attribute_or_adapted f v (
      P.model_validate schema
        (put (candidate_with_field_value (model_fields schema) [] []) f.name v))
