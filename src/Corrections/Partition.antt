-- ===== src/Corrections/Partition.antt =====
-- What the diff of app/services/corrections.py holds, field by field.
use structured_data_extracto.Base.{
  String, true, false, ◌||◌, ◌==◌, Option, none, is_some, List, [], ◌∷◌, ◌≡◌, ◌∙◌, refl, sym, subst,
  arith, Dict, get, get-nil, keys, contains, contains-keys, eq_iff, Bool-cases, inl, inr,
}
use structured_data_extracto.Value.{Value}
use structured_data_extracto.Corrections.{
  Diff, no_diff, insert_text, insert_texts, all_fields, compare_field, compare_fields,
  diff_extraction_data,
}
use structured_data_extracto.Corrections.Steps.{
  added_value, removed_value, changed_value, Holds, Near, Begun, Begun-of-Holds, Alike,
  compared-Holds, compared-Alike,
}

contains-insert_text :
    (k : String) (js : List String) (i : String)
    → contains (insert_text k js) i ≡ (k == i || contains js i)
unfolding insert_text
contains-insert_text k [] i = refl
contains-insert_text k (j ∷ js) i = ground (arith, contains-insert_text k js i, eq_iff k j)

contains-insert_texts :
    (ks js : List String) (i : String)
    → contains (insert_texts ks js) i ≡ (contains ks i || contains js i)
unfolding insert_texts
contains-insert_texts [] js i = refl
contains-insert_texts (k ∷ ks) js i =
    contains-insert_text k (insert_texts ks js) i ∙ ground (arith, contains-insert_texts ks js i)

-- The fields that the loop has passed are held, and no others are begun.
module _ (original corrected : Dict Value) (k : String) where
  abbrev o : Option Value
  o = get original k

  abbrev c : Option Value
  c = get corrected k

  step-Holds :
      (j : String) (d : Diff)
      → (is_some o || is_some c) ≡ true
      → Holds d k o c
      → Holds (compare_field j (get original j) (get corrected j) d) k o c
  step-Holds j d there h = elim (Bool-cases (j == k)) [
    | inl e ↦
        subst (λ j. Holds (compare_field j (get original j) (get corrected j) d) k o c)
          (sym ((eq_iff j k).0 e)) (compared-Holds k o c d there (Begun-of-Holds d k o c h))
    | inr e ↦
        let a = compared-Alike j k (get original j) (get corrected j) d e in
        record {
          at_added = a.same_added ∙ h.at_added;
          at_removed = a.same_removed ∙ h.at_removed;
          at_changed = a.same_changed ∙ h.at_changed;
        }
  ]

  step-Begun :
      (j : String) (d : Diff)
      → (j == k) ≡ false
      → Begun d k o c
      → Begun (compare_field j (get original j) (get corrected j) d) k o c
  step-Begun j d e h =
      let a = compared-Alike j k (get original j) (get corrected j) d e in
      record {
        near_added = subst (λ x. Near x (added_value o c)) (sym a.same_added) h.near_added;
        near_removed = subst (λ x. Near x (removed_value o c)) (sym a.same_removed) h.near_removed;
        near_changed = subst (λ x. Near x (changed_value o c)) (sym a.same_changed) h.near_changed;
      }

  keeps-Holds :
      (ks : List String) (d : Diff)
      → (is_some o || is_some c) ≡ true
      → Holds d k o c
      → Holds (compare_fields original corrected ks d) k o c
  unfolding compare_fields
  keeps-Holds [] d there h = h
  keeps-Holds (j ∷ js) d there h = keeps-Holds js _ there (step-Holds j d there h)

  reaches-Holds :
      (ks : List String) (d : Diff)
      → (is_some o || is_some c) ≡ true
      → contains ks k ≡ true
      → Begun d k o c
      → Holds (compare_fields original corrected ks d) k o c
  unfolding compare_fields
  reaches-Holds [] d there listed h = ground arith
  reaches-Holds (j ∷ js) d there listed h = elim (Bool-cases (j == k)) [
    | inl e ↦ keeps-Holds js _ there (
        subst (λ j. Holds (compare_field j (get original j) (get corrected j) d) k o c)
          (sym ((eq_iff j k).0 e)) (compared-Holds k o c d there h))
    | inr e ↦ reaches-Holds js _ there (ground arith) (step-Begun j d e h)
  ]

  untouched :
      (ks : List String) (d : Diff)
      → contains ks k ≡ false
      → Alike d (compare_fields original corrected ks d) k
  unfolding compare_fields
  untouched [] d e = record { same_added = refl; same_removed = refl; same_changed = refl }
  untouched (j ∷ js) d e =
      let a = compared-Alike j k (get original j) (get corrected j) d (ground arith) in
      let b = untouched js (compare_field j (get original j) (get corrected j) d) (ground arith) in
      record {
        same_added = b.same_added ∙ a.same_added;
        same_removed = b.same_removed ∙ a.same_removed;
        same_changed = b.same_changed ∙ a.same_changed;
      }

  contains-all_fields : contains (all_fields original corrected) k ≡ (is_some o || is_some c)
  unfolding all_fields
  contains-all_fields =
      contains-insert_texts (keys original) (insert_texts (keys corrected) []) k
      ∙ ground (
        arith,
        contains-insert_texts (keys corrected) [] k,
        contains-keys original k,
        contains-keys corrected k,
      )

  nothing :
      (is_some o || is_some c) ≡ false
      → Alike no_diff (diff_extraction_data original corrected) k
      → Holds (diff_extraction_data original corrected) k o c
  nothing e a =
      let o_none : o ≡ none = ground arith in
      let c_none : c ≡ none = ground arith in
      record {
        at_added = a.same_added ∙ get-nil k ∙ sym (rw (o_none, c_none) refl);
        at_removed = a.same_removed ∙ get-nil k ∙ sym (rw o_none refl);
        at_changed = a.same_changed ∙ get-nil k ∙ sym (rw o_none refl);
      }

  begun : Begun no_diff k o c
  begun = record {
    near_added = inl (get-nil k);
    near_removed = inl (get-nil k);
    near_changed = inl (get-nil k);
  }

  -- Whatever the two dicts hold, the diff takes each field once: a field that only the corrected data
  -- has is added with its value, one that only the original has is removed, one that both have is changed
  -- exactly if the values are not equal, with both of them, and nothing else is in the diff.
  pub diff_extraction_data-Holds : Holds (diff_extraction_data original corrected) k o c
  unfolding diff_extraction_data
  diff_extraction_data-Holds = elim (Bool-cases (is_some o || is_some c)) [
    | inl e ↦
        reaches-Holds (all_fields original corrected) no_diff e (contains-all_fields ∙ e) begun
    | inr e ↦
        nothing e (untouched (all_fields original corrected) no_diff (contains-all_fields ∙ e))
  ]
