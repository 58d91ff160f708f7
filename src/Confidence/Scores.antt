-- ===== src/Confidence/Scores.antt =====
-- What app/lib/confidence.py guarantees of its scores.
use structured_data_extracto.Base.{
  ℕ, ◌≤◌, ◌<◌, String, Bool, true, false, Option, none, some, List, [], ◌∷◌, ◌≡◌, ◌↔◌, refl, arith,
  Dict, get, if◌then◌else◌, or_else,
}
use structured_data_extracto.Exec.{ok}
use structured_data_extracto.Value.{Value, null, bool, int, float, str, list, dict}
use structured_data_extracto.Schema.{FieldInfo, DocType, get_schema, model_fields}
use structured_data_extracto.Confidence.{
  is_placeholder, is_suspicious_amount, score_value, score_field, score_fields,
  score_confidence_map,
}

-- The value that `data.get(name)` has for a field is `None`.
abbrev pub is_missing : Option Value → Bool
is_missing none = true
is_missing (some null) = true
is_missing (some _) = false

score_value_range :
    (name : String) (v : Value) (required : Bool)
    → (0 < score_value name v required)
      × (score_value name v required ≤ (if required then 85 else 70))
score_value_range name v required = ground arith

-- What a score says of the value that the data has for a field.
pub record IsScore (name : String) (o : Option Value) (required : Bool) (score : ℕ) : Type 0 where
  -- 0 exactly for a missing value
  pub zero_iff : (score ≡ 0) ↔ (is_missing o ≡ true)
  -- at most 0.85 in a required field and 0.70 in an optional one
  pub bounded : score ≤ (if required then 85 else 70)
  -- 0.20 for a placeholder, 0.60 for a negative amount
  pub placeholder :
      (v : Value) → o ≡ some v → is_missing o ≡ false → is_placeholder v ≡ true → score ≡ 20
  pub suspicious :
      (v : Value)
      → o ≡ some v
      → is_missing o ≡ false
      → is_placeholder v ≡ false
      → is_suspicious_amount name v ≡ true
      → score ≡ 60

missing-IsScore :
    (name : String) (o : Option Value) (required : Bool)
    → is_missing o ≡ true
    → IsScore name o required 0
missing-IsScore name o required m = record {
  zero_iff = (λ _. m, λ _. refl);
  bounded = ground arith;
  placeholder = λ v e n. cc;
  suspicious = λ v e n. cc;
}

value-IsScore :
    (name : String) (v : Value) (required : Bool)
    → is_missing (some v) ≡ false
    → IsScore name (some v) required (score_value name v required)
value-IsScore name v required m =
    let (positive, bound) = score_value_range name v required in
    record {
      zero_iff = (λ z. absurd (omega arith), λ n. cc);
      bounded = bound;
      placeholder = λ w e n p. ground arith;
      suspicious = λ w e n p s. ground arith;
    }

score_field-IsScore :
    (name : String) (o : Option Value) (required : Bool)
    → IsScore name o required (score_field name o required)
unfolding score_field
score_field-IsScore name none required = missing-IsScore name none required refl
score_field-IsScore name (some null) required = missing-IsScore name (some null) required refl
score_field-IsScore name (some (bool b)) required = value-IsScore name (bool b) required refl
score_field-IsScore name (some (int n)) required = value-IsScore name (int n) required refl
score_field-IsScore name (some (float n k)) required = value-IsScore name (float n k) required refl
score_field-IsScore name (some (str s)) required = value-IsScore name (str s) required refl
score_field-IsScore name (some (list xs)) required = value-IsScore name (list xs) required refl
score_field-IsScore name (some (dict fs)) required = value-IsScore name (dict fs) required refl

-- One score for each field, in the order of the schema.
abbrev pub AreScores : Dict Value → List FieldInfo → Dict ℕ → Type 0
AreScores d [] [] = Unit
AreScores d (f ∷ fs) ((name, score) ∷ m) =
    (name ≡ f.name) × IsScore f.name (get d f.name) f.required score × AreScores d fs m
AreScores d _ _ = ⊥

score_fields-AreScores : (fs : List FieldInfo) (d : Dict Value) → AreScores d fs (score_fields fs d)
unfolding score_fields
score_fields-AreScores [] d = tt
score_fields-AreScores (f ∷ fs) d =
    (refl, score_field-IsScore f.name (get d f.name) f.required, score_fields-AreScores fs d)

-- For a known document type the map has one score for each field of the schema, in its order: 0
-- exactly where the data has no value, never above 0.85 (0.70 in an optional field), 0.20 for a
-- placeholder and 0.60 for a negative amount.
pub score_confidence_map-AreScores :
    (doc_type : String) (schema : DocType) (extracted : Option (Dict Value))
    → get_schema doc_type ≡ ok schema
    → (m : Dict ℕ) × (score_confidence_map doc_type extracted ≡ ok m)
      × AreScores (or_else extracted []) (model_fields schema) m
unfolding score_confidence_map
score_confidence_map-AreScores doc_type schema extracted e =
    (score_fields (model_fields schema) (or_else extracted []), rw e, score_fields-AreScores _ _)
