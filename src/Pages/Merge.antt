-- ===== src/Pages/Merge.antt =====
-- The merge of page results in app/services/page_extraction.py. A set of `repr` texts stands as the
-- list of the values that were printed.
pub mod Keys
use structured_data_extracto.Base.{
  ℕ, String, Bool, true, false, not, Option, none, some, List, [], ◌∷◌, ◌++◌, ◌||◌, Dict, get, put,
  values, any, elem, codes, strip, nonempty, length, ltb, if◌then◌else◌,
}
use structured_data_extracto.Value.{
  Value, null, bool, int, float, str, list, dict, Items, nil, cons, same_repr, has_items,
  has_fields,
}
use structured_data_extracto.Schema.{DocType, field_names}

-- `_is_useful_value`
unfoldable pub is_useful : Value → Bool
is_useful null = false
is_useful (str s) = nonempty (strip (codes s))
is_useful (list xs) = has_items xs
is_useful (dict fs) = has_fields fs
is_useful _ = true

-- `_has_useful_extraction`
unfoldable pub has_useful : Dict Value → Bool
has_useful output = any is_useful (values output)

-- `_is_more_complete`
abbrev pub longer : Value → Value → Bool
longer (str candidate) (str current) =
    ltb (length (strip (codes current))) (length (strip (codes candidate)))
longer _ _ = false

unfoldable pub is_more_complete : Value → Value → Bool
is_more_complete candidate current =
    if not (is_useful current) then true else longer candidate current

unfoldable pub is_seen : List Value → Value → Bool
is_seen [] v = false
is_seen (w ∷ seen) v = same_repr w v || is_seen seen v

abbrev pub items_of : Items → List Value
items_of nil = []
items_of (cons v vs) = v ∷ items_of vs

-- The loop of `_unique_list_items`.
unfoldable pub unique_from : List Value → Items → Items
unique_from seen nil = nil
unique_from seen (cons v vs) = elim (is_seen seen v) [
  | true ↦ unique_from seen vs
  | false ↦ cons v (unique_from (v ∷ seen) vs)
]

unfoldable pub unique_list_items : Items → Items → Items
unique_list_items current candidate = unique_from (items_of current) candidate

-- `current.extend(additions)`
unfoldable pub extend : Items → Items → Items
extend nil ys = ys
extend (cons x xs) ys = cons x (extend xs ys)

-- `_append_source_page`
abbrev pub append_source_page : List ℕ → ℕ → List ℕ
append_source_page sources i = if elem i sources then sources else sources ++ i ∷ []

-- `merged` and `field_source_pages`
pub record Merge : Type 0 where
  pub merged : Dict Value
  pub sources : Dict (List ℕ)

abbrev pub no_merge : Merge
no_merge = record { merged = []; sources = [] }

-- The list is there whenever the field is in `merged`: the two dicts always have the same keys.
abbrev pub add_source : Option (List ℕ) → String → ℕ → Dict (List ℕ) → Dict (List ℕ)
add_source none name i sources = sources
add_source (some ps) name i sources = put sources name (append_source_page ps i)

abbrev pub replace_value : Merge → String → ℕ → Value → Merge
replace_value m name i v = record {
  merged = put m.merged name v;
  sources = add_source (get m.sources name) name i m.sources;
}

abbrev pub add_items : Merge → String → ℕ → Items → Items → Merge
add_items m name i current nil = m
add_items m name i current additions = replace_value m name i (list (extend current additions))

unfoldable pub combine : Merge → String → ℕ → Value → Value → Merge
combine m name i (list candidate) (list current) =
    add_items m name i current (unique_list_items current candidate)
combine m name i candidate current =
    if is_more_complete candidate current then replace_value m name i candidate else m

unfoldable pub merge_value : Merge → String → ℕ → Value → Option Value → Merge
merge_value m name i candidate none = record {
  merged = put m.merged name candidate;
  sources = put m.sources name (i ∷ []);
}
merge_value m name i candidate (some current) = combine m name i candidate current

-- The body of the inner loop, for a field and what the page has for it.
unfoldable pub merge_field : Merge → String → ℕ → Option Value → Merge
merge_field m name i none = m
merge_field m name i (some candidate) =
    if not (is_useful candidate) then m else merge_value m name i candidate (get m.merged name)

unfoldable pub merge_page : List String → Dict Value → ℕ → Merge → Merge
merge_page [] output i m = m
merge_page (name ∷ names) output i m =
    merge_page names output i (merge_field m name i (get output name))

-- `_merge_results`, with `names` for `schema.model_fields`
unfoldable pub merge_results : List String → List (Dict Value × ℕ) → Merge → Merge
merge_results names [] m = m
merge_results names ((output, i) ∷ pages) m =
    merge_results names pages (merge_page names output i m)
