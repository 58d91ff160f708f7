-- ===== src/Corrections.antt =====
-- `diff_extraction_data` of app/services/corrections.py.
pub mod Equality
pub mod Steps
pub mod Partition
use structured_data_extracto.Base.{
  ℕ, String, Bool, true, false, ◌||◌, ◌&&◌, ◌==◌, Option, none, some, or_else, List, [], ◌∷◌, Dict,
  get, put, keys, codes, ltb, eqb, if◌then◌else◌,
}
use structured_data_extracto.Value.{Value}
use structured_data_extracto.Corrections.Equality.{eq_value}

-- `{"from": original_value, "to": corrected_value}`
pub record Change : Type 0 where
  pub from_value : Value
  pub to_value : Value

-- `correction_diff`
pub record Diff : Type 0 where
  pub added : Dict Value
  pub removed : Dict Value
  pub changed : Dict Change

abbrev pub no_diff : Diff
no_diff = record { added = []; removed = []; changed = [] }

-- The order of texts: by their code points.
abbrev pub text_before : List ℕ → List ℕ → Bool
text_before [] [] = false
text_before [] (_ ∷ _) = true
text_before (_ ∷ _) [] = false
text_before (a ∷ s) (b ∷ t) = ltb a b || (eqb a b && text_before s t)

-- `sorted` of a set of texts: insertion without repetition.
unfoldable pub insert_text : String → List String → List String
insert_text k [] = k ∷ []
insert_text k (j ∷ js) =
    let rest = insert_text k js in
    if k == j then j ∷ js else if text_before (codes k) (codes j) then k ∷ j ∷ js else j ∷ rest

unfoldable pub insert_texts : List String → List String → List String
insert_texts [] js = js
insert_texts (k ∷ ks) js = insert_text k (insert_texts ks js)

-- `sorted(original.keys() | corrected.keys())`
unfoldable pub all_fields : Dict Value → Dict Value → List String
all_fields original corrected = insert_texts (keys original) (insert_texts (keys corrected) [])

-- The body of the loop, by what `original` and `corrected` hold at the field.
unfoldable pub compare_field : String → Option Value → Option Value → Diff → Diff
compare_field field_name none corrected d = record d {
  added = put d.added field_name (or_else corrected Value.null);
}
compare_field field_name (some v) none d = record d { removed = put d.removed field_name v }
compare_field field_name (some v) (some w) d =
    if eq_value v w
    then d
    else record d { changed = put d.changed field_name (record { from_value = v; to_value = w }) }

unfoldable pub compare_fields : Dict Value → Dict Value → List String → Diff → Diff
compare_fields original corrected [] d = d
compare_fields original corrected (k ∷ ks) d =
    compare_fields original corrected ks (compare_field k (get original k) (get corrected k) d)

-- `diff_extraction_data`
unfoldable pub diff_extraction_data : Dict Value → Dict Value → Diff
diff_extraction_data original corrected =
    compare_fields original corrected (all_fields original corrected) no_diff
