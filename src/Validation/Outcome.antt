-- ===== src/Validation/Outcome.antt =====
-- What a validation of app/services/validation.py may return.
use structured_data_extracto.Base.{
  ℕ, suc, String, Bool, true, false, not, ◌&&◌, Option, none, some, List, [], ◌∷◌, ◌++◌, ◌≡◌, refl,
  arith, ap, subst, Dict, get, has, keys, contains, ltb, if◌then◌else◌,
}
use structured_data_extracto.Exec.{Result, ok, err}
use structured_data_extracto.Value.{Value}
use structured_data_extracto.Schema.{DocType, FieldInfo, get_schema, model_fields}
use structured_data_extracto.Validation.Quality.{Pydantic, ErrorDetail, invalid}
use structured_data_extracto.Validation.Fields.{invalid_fields}
use structured_data_extracto.Validation.{
  ExtractionStatus, ValidationResult, validation_warnings, keep_value, drop_value, recover_field,
  recover_fields, with_quality, recovered, recover_partial, validate_extraction,
}

-- How many fields of a schema are in the raw output and not named by an error.
abbrev pub kept_count : Dict Value → List String → List FieldInfo → ℕ
kept_count raw invalids [] = 0
kept_count raw invalids (f ∷ fs) =
    if has raw f.name && not (contains invalids f.name)
    then suc (kept_count raw invalids fs)
    else kept_count raw invalids fs

abbrev pub names_of : List FieldInfo → List String
names_of [] = []
names_of (f ∷ fs) = f.name ∷ names_of fs

module _ (P : Pydantic) where
  -- What the loop of `_recover_partial` returns for the fields `fs`.
  abbrev Recovers :
      List FieldInfo → Dict Value → List String → Result (Dict P.Attribute × ℕ) → Type 0
  Recovers fs raw invalids (ok (values, n)) =
      (keys values ≡ names_of fs) × (n ≡ kept_count raw invalids fs)
  Recovers fs raw invalids (err e) = Unit

  keep-Recovers :
      (f : FieldInfo) (fs : List FieldInfo) (raw : Dict Value) (invalids : List String)
      (v : Result P.Attribute) (rest : Result (Dict P.Attribute × ℕ))
      → (has raw f.name && not (contains invalids f.name)) ≡ true
      → Recovers fs raw invalids rest
      → Recovers (f ∷ fs) raw invalids (keep_value P f.name v rest)
  unfolding keys
  keep-Recovers f fs raw invalids (ok v) (ok (values, n)) k h =
      (ap (λ ks. f.name ∷ ks) h.0, rw k (omega (arith, h.1)))
  keep-Recovers f fs raw invalids (ok v) (err e) k h = tt
  keep-Recovers f fs raw invalids (err e) rest k h = tt

  drop-Recovers :
      (f : FieldInfo) (fs : List FieldInfo) (raw : Dict Value) (invalids : List String)
      (v : P.Attribute) (rest : Result (Dict P.Attribute × ℕ))
      → (has raw f.name && not (contains invalids f.name)) ≡ false
      → Recovers fs raw invalids rest
      → Recovers (f ∷ fs) raw invalids (drop_value P f.name v rest)
  unfolding keys
  drop-Recovers f fs raw invalids v (ok (values, n)) k h = (ap (λ ks. f.name ∷ ks) h.0, rw k h.1)
  drop-Recovers f fs raw invalids v (err e) k h = tt

  recover_field-Recovers :
      (schema : DocType) (f : FieldInfo) (fs : List FieldInfo) (raw : Dict Value)
      (invalids : List String) (rest : Result (Dict P.Attribute × ℕ)) (o : Option Value) (c : Bool)
      → get raw f.name ≡ o
      → contains invalids f.name ≡ c
      → Recovers fs raw invalids rest
      → Recovers (f ∷ fs) raw invalids (recover_field P schema f rest o c)
  unfolding recover_field
  recover_field-Recovers schema f fs raw invalids rest none c e k h =
      drop-Recovers f fs raw invalids _ rest (rw e refl) h
  recover_field-Recovers schema f fs raw invalids rest (some v) true e k h =
      drop-Recovers f fs raw invalids _ rest (rw (e, k) refl) h
  recover_field-Recovers schema f fs raw invalids rest (some v) false e k h =
      keep-Recovers f fs raw invalids _ rest (rw (e, k) refl) h

  recover_fields-Recovers :
      (schema : DocType) (raw : Dict Value) (invalids : List String) (fs : List FieldInfo)
      → Recovers fs raw invalids (recover_fields P schema raw invalids fs)
  unfolding recover_fields keys
  recover_fields-Recovers schema raw invalids [] = (refl, refl)
  recover_fields-Recovers schema raw invalids (f ∷ fs) =
      recover_field-Recovers schema f fs raw invalids _ _ _ refl refl
        (recover_fields-Recovers schema raw invalids fs)

  -- What the recovery of a partial result returns: the dump of a model that is constructed from a
  -- value for each field of the schema, if any raw value was kept, and no data otherwise.
  pub record IsRecovered (schema : DocType) (raw : Dict Value) (errors : List ErrorDetail)
      (r : ValidationResult) : Type 0 where
    pub status : r.status ≡ (
        if ltb 0 (kept_count raw (invalid_fields errors) (model_fields schema))
        then ExtractionStatus.partial
        else ExtractionStatus.failed)
    pub extracted :
        (values : Dict P.Attribute) × (keys values ≡ names_of (model_fields schema))
        × (r.extracted_data ≡ (
            if ltb 0 (kept_count raw (invalid_fields errors) (model_fields schema))
            then some (P.model_dump (P.model_construct schema values))
            else none))
    pub warned :
        (quality : List String) × (r.warnings ≡ validation_warnings schema raw errors ++ quality)

  abbrev Recovered : DocType → Dict Value → List ErrorDetail → Result ValidationResult → Type 0
  Recovered schema raw errors (ok r) = IsRecovered schema raw errors r
  Recovered schema raw errors (err e) = Unit

  quality-Recovered :
      (schema : DocType) (raw : Dict Value) (errors : List ErrorDetail) (values : Dict P.Attribute)
      (quality : Result (List String))
      → keys values ≡ names_of (model_fields schema)
      → let n = kept_count raw (invalid_fields errors) (model_fields schema) in
        Recovered schema raw errors (
          with_quality P
            (if ltb 0 n then some (P.model_dump (P.model_construct schema values)) else none)
            (validation_warnings schema raw errors)
            (if ltb 0 n then ExtractionStatus.partial else ExtractionStatus.failed)
            quality)
  quality-Recovered schema raw errors values (ok q) k = record {
    status = refl;
    extracted = (values, k, refl);
    warned = (q, refl);
  }
  quality-Recovered schema raw errors values (err e) k = tt

  recovered-Recovered :
      (schema : DocType) (raw : Dict Value) (errors : List ErrorDetail)
      (fields : Result (Dict P.Attribute × ℕ))
      → Recovers (model_fields schema) raw (invalid_fields errors) fields
      → Recovered schema raw errors
          (recovered P schema (validation_warnings schema raw errors) fields)
  recovered-Recovered schema raw errors (ok (values, n)) h =
      rw h.1 (quality-Recovered schema raw errors values _ h.0)
  recovered-Recovered schema raw errors (err e) h = tt

  recover_partial-Recovered :
      (schema : DocType) (raw : Dict Value) (errors : List ErrorDetail)
      → Recovered schema raw errors (recover_partial P schema raw errors)
  unfolding recover_partial
  recover_partial-Recovered schema raw errors =
      recovered-Recovered schema raw errors _
        (recover_fields-Recovers schema raw (invalid_fields errors) (model_fields schema))

  of_ok :
      (schema : DocType) (raw : Dict Value) (errors : List ErrorDetail) (r : ValidationResult)
      (out : Result ValidationResult)
      → out ≡ ok r
      → Recovered schema raw errors out
      → IsRecovered schema raw errors r
  of_ok schema raw errors r out e h = let k = subst (Recovered schema raw errors) e h in k

  -- When pydantic reports errors and a result is returned, its status is `partial` exactly when some
  -- field of the schema is in the raw output and no error names it, and `failed` otherwise; the data
  -- is the dump of a model with one value for each field of the schema, and is left out on failure;
  -- the warnings begin with those on the errors and on the missing fields.
  pub validate_extraction-IsRecovered :
      (doc_type : String) (schema : DocType) (raw : Dict Value) (errors : List ErrorDetail)
      (r : ValidationResult)
      → get_schema doc_type ≡ ok schema
      → P.model_validate schema raw ≡ invalid errors
      → validate_extraction P doc_type raw ≡ ok r
      → IsRecovered schema raw errors r
  unfolding validate_extraction
  validate_extraction-IsRecovered doc_type schema raw errors r s e h =
      of_ok schema raw errors r _ (rw (s, e) at h) (recover_partial-Recovered schema raw errors)
