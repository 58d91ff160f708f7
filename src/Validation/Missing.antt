-- ===== src/Validation/Missing.antt =====
-- The warnings of app/services/validation.py on required fields that are missing.
use structured_data_extracto.Base.{
  String, Bool, true, false, ◌||◌, ◌<>◌, some, List, [], ◌∷◌, ◌++◌, ◌≡◌, refl, arith, Dict, has,
  contains, eq_iff, ℕ, zero, suc, get_elem?, eq_refl, if◌then◌else◌, Bool-cases, inl, inr, ◌==◌,
}
use structured_data_extracto.Value.{Value}
use structured_data_extracto.Schema.{DocType, FieldInfo, model_fields}
use structured_data_extracto.Validation.Quality.{ErrorDetail}
use structured_data_extracto.Validation.Fields.{
  error_warnings, reported_fields, missing_warnings, field_name,
}
use structured_data_extracto.Validation.{validation_warnings}

-- Some warning of the list is on the field.
abbrev pub Warns : List String → String → Type 0
Warns ws name = (m : String) × (contains ws (name <> ": " <> m) ≡ true)

contains-append :
    (xs ys : List String) (k : String) → contains (xs ++ ys) k ≡ (contains xs k || contains ys k)
contains-append [] ys k = refl
contains-append (x ∷ xs) ys k = ground (arith, contains-append xs ys k)

reported-Warns :
    (es : List ErrorDetail) (name : String)
    → contains (reported_fields es) name ≡ true
    → Warns (error_warnings es) name
unfolding reported_fields error_warnings
reported-Warns [] name h = absurd (cc)
reported-Warns (e ∷ es) name h = elim (Bool-cases (field_name e.loc == name)) [
  | inl same ↦ (
    e.msg,
    rw ((eq_iff (field_name e.loc) name).0 same)
        (ground (arith, eq_iff (name <> ": " <> e.msg) (name <> ": " <> e.msg))),
  )
  | inr other ↦
      let (m, there) = reported-Warns es name (rw other at h) in (m, rw there (ground arith))
]

abbrev missing_warning : FieldInfo → String
missing_warning f = f.name <> ": " <> "required field missing"

abbrev chosen : FieldInfo → Bool → Bool → List String → List String
chosen f skip need rest = if skip then rest else if need then missing_warning f ∷ rest else rest

chosen-keeps :
    (f : FieldInfo) (skip need : Bool) (rest : List String) (w : String)
    → contains rest w ≡ true
    → contains (chosen f skip need rest) w ≡ true
chosen-keeps f skip need rest w h = ground arith

chosen_self :
    (f : FieldInfo) (rest : List String)
    → contains (chosen f false true rest) (missing_warning f) ≡ true
chosen_self f rest = rw eq_refl refl

-- A required field that no error reports gets the warning of the second loop.
missing_warnings-lists :
    (fs : List FieldInfo) (raw : Dict Value) (errors : List ErrorDetail) (i : ℕ) (f : FieldInfo)
    → get_elem? fs i ≡ some f
    → f.required ≡ true
    → has raw f.name ≡ false
    → contains (reported_fields errors) f.name ≡ false
    → contains (missing_warnings fs raw errors) (missing_warning f) ≡ true
unfolding missing_warnings
missing_warnings-lists [] raw errors i f e q a b = cc
missing_warnings-lists (g ∷ fs) raw errors zero f e q a b =
    let same : g ≡ f = cc in rw (same, a, b, q) (chosen_self f (missing_warnings fs raw errors))
missing_warnings-lists (g ∷ fs) raw errors (suc i) f e q a b =
    chosen-keeps g _ _ _ (missing_warning f) (missing_warnings-lists fs raw errors i f e q a b)

-- Every required field of the schema that the raw output lacks is warned about by name: by
-- pydantic's error, if it reports the field, and as missing otherwise.
pub validation_warnings-Warns :
    (schema : DocType) (raw : Dict Value) (errors : List ErrorDetail) (i : ℕ) (f : FieldInfo)
    → get_elem? (model_fields schema) i ≡ some f
    → f.required ≡ true
    → has raw f.name ≡ false
    → Warns (validation_warnings schema raw errors) f.name
unfolding validation_warnings
validation_warnings-Warns schema raw errors i f e q a =
    let es = error_warnings errors in
    let ms = missing_warnings (model_fields schema) raw errors in
    elim (Bool-cases (contains (reported_fields errors) f.name)) [
      | inl r ↦
          let (m, there) = reported-Warns errors f.name r in (m, rw contains-append (rw there refl))
      | inr r ↦ (
        "required field missing",
        ground (
          arith,
          contains-append es ms (missing_warning f),
          missing_warnings-lists (model_fields schema) raw errors i f e q a r,
        ),
      )
    ]
