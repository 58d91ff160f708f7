-- ===== src/Validation/Raises.antt =====
-- A validation of app/services/validation.py never raises `ExtractionError`, which its callers take
-- for a failure of the extraction.
use structured_data_extracto.Base.{
  ℕ, String, Bool, true, false, Option, none, some, List, [], ◌∷◌, ◌≡◌, refl, Dict,
}
use structured_data_extracto.Errors.{Error}
use structured_data_extracto.Exec.{Result, ok, err}
use structured_data_extracto.Value.{Value, ℤ}
use structured_data_extracto.Schema.{DocType, FieldInfo, get_schema, model_fields}
use structured_data_extracto.Money.{Decimal}
use structured_data_extracto.Pages.Runner.Tokens.{get_schema_own}
use structured_data_extracto.Validation.Quality.{
  Pydantic, Validated, valid, invalid, compare_amounts, total_warnings, pay_warnings,
  quality_warnings,
}
use structured_data_extracto.Validation.Fields.{
  adapted, attribute_or_adapted, validated_field_value,
}
use structured_data_extracto.Validation.{
  ExtractionStatus, keep_value, drop_value, recover_field, recover_fields, with_quality, recovered,
  recover_partial, validated, validate_schema, validate_extraction,
}

abbrev pub IsOther {ℓ} : {A : Type ℓ} → Result A → Type 0
IsOther (ok a) = Unit
IsOther (err (Error.extraction e)) = ⊥
IsOther (err _) = Unit

compare_amounts-IsOther : (w : String) (a b : Option ℤ) → IsOther (compare_amounts w a b)
compare_amounts-IsOther w (some a) (some b) = tt
compare_amounts-IsOther w (some a) none = tt
compare_amounts-IsOther w none b = tt

total_warnings-IsOther : (w : String) (a b c : Option Decimal) → IsOther (total_warnings w a b c)
unfolding total_warnings
total_warnings-IsOther w (some a) (some b) (some c) = compare_amounts-IsOther w _ _
total_warnings-IsOther w (some a) (some b) none = tt
total_warnings-IsOther w (some a) none c = tt
total_warnings-IsOther w none b c = tt

pay_warnings-IsOther :
    (a b : Option Decimal) (c : Option (List Decimal)) → IsOther (pay_warnings a b c)
unfolding pay_warnings
pay_warnings-IsOther (some a) (some b) (some c) = compare_amounts-IsOther _ _ _
pay_warnings-IsOther (some a) (some b) none = tt
pay_warnings-IsOther (some a) none c = tt
pay_warnings-IsOther none b c = tt

module _ (P : Pydantic) where
  quality_warnings-IsOther :
      (schema : DocType) (model : P.Model) → IsOther (quality_warnings P schema model)
  unfolding quality_warnings
  quality_warnings-IsOther DocType.invoice model = total_warnings-IsOther _ _ _ _
  quality_warnings-IsOther DocType.contract model = tt
  quality_warnings-IsOther DocType.payslip model = pay_warnings-IsOther _ _ _
  quality_warnings-IsOther DocType.receipt model = total_warnings-IsOther _ _ _ _

  with_quality-IsOther :
      (x : Option (Dict Value)) (ws : List String) (st : ExtractionStatus)
      (q : Result (List String))
      → IsOther q
      → IsOther (with_quality P x ws st q)
  with_quality-IsOther x ws st (ok q) h = tt
  with_quality-IsOther x ws st (err (Error.extraction e)) h = h
  with_quality-IsOther x ws st (err _) h = tt

  attribute-IsOther :
      (f : FieldInfo) (v : Value) (m : Validated P.Model) → IsOther (attribute_or_adapted P f v m)
  attribute-IsOther f v (valid m) = tt
  attribute-IsOther f v (invalid es) = of_adapted (P.validate_python f.annotation v)
    where
      of_adapted : (o : Option P.Attribute) → IsOther (adapted P o)
      of_adapted (some a) = tt
      of_adapted none = tt

  keep-IsOther :
      (name : String) (v : Result P.Attribute) (rest : Result (Dict P.Attribute × ℕ))
      → IsOther v
      → IsOther rest
      → IsOther (keep_value P name v rest)
  keep-IsOther name (ok v) (ok r) h k = tt
  keep-IsOther name (ok v) (err (Error.extraction e)) h k = k
  keep-IsOther name (ok v) (err _) h k = tt
  keep-IsOther name (err (Error.extraction e)) rest h k = h
  keep-IsOther name (err _) rest h k = tt

  drop-IsOther :
      (name : String) (v : P.Attribute) (rest : Result (Dict P.Attribute × ℕ))
      → IsOther rest
      → IsOther (drop_value P name v rest)
  drop-IsOther name v (ok r) k = tt
  drop-IsOther name v (err (Error.extraction e)) k = k
  drop-IsOther name v (err _) k = tt

  recover_field-IsOther :
      (schema : DocType) (f : FieldInfo) (rest : Result (Dict P.Attribute × ℕ)) (o : Option Value)
      (c : Bool)
      → IsOther rest
      → IsOther (recover_field P schema f rest o c)
  unfolding recover_field validated_field_value
  recover_field-IsOther schema f rest none c h = drop-IsOther f.name _ rest h
  recover_field-IsOther schema f rest (some v) true h = drop-IsOther f.name _ rest h
  recover_field-IsOther schema f rest (some v) false h =
      keep-IsOther f.name _ rest (attribute-IsOther f v _) h

  recover_fields-IsOther :
      (schema : DocType) (raw : Dict Value) (invalids : List String) (fs : List FieldInfo)
      → IsOther (recover_fields P schema raw invalids fs)
  unfolding recover_fields
  recover_fields-IsOther schema raw invalids [] = tt
  recover_fields-IsOther schema raw invalids (f ∷ fs) =
      recover_field-IsOther schema f _ _ _ (recover_fields-IsOther schema raw invalids fs)

  recovered-IsOther :
      (schema : DocType) (ws : List String) (r : Result (Dict P.Attribute × ℕ))
      → IsOther r
      → IsOther (recovered P schema ws r)
  recovered-IsOther schema ws (ok (values, n)) h =
      with_quality-IsOther _ ws _ _ (quality_warnings-IsOther schema _)
  recovered-IsOther schema ws (err (Error.extraction e)) h = h
  recovered-IsOther schema ws (err _) h = tt

  validated-IsOther :
      (schema : DocType) (raw : Dict Value) (m : Validated P.Model)
      → IsOther (validated P schema raw m)
  unfolding recover_partial
  validated-IsOther schema raw (valid m) =
      with_quality-IsOther _ [] _ _ (quality_warnings-IsOther schema m)
  validated-IsOther schema raw (invalid es) =
      recovered-IsOther schema _ _ (recover_fields-IsOther schema raw _ (model_fields schema))

  validate_schema-IsOther :
      (raw : Dict Value) (doc_type : String) (r : Result DocType)
      → get_schema doc_type ≡ r
      → IsOther (validate_schema P raw r)
  validate_schema-IsOther raw doc_type (ok schema) e = validated-IsOther schema raw _
  validate_schema-IsOther raw doc_type (err (Error.extraction f)) e =
      get_schema_own doc_type f e refl
  validate_schema-IsOther raw doc_type (err _) e = tt

  pub validate_extraction-IsOther :
      (doc_type : String) (raw : Dict Value) → IsOther (validate_extraction P doc_type raw)
  unfolding validate_extraction
  validate_extraction-IsOther doc_type raw = validate_schema-IsOther raw doc_type _ refl
