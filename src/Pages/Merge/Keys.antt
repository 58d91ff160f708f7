-- ===== src/Pages/Merge/Keys.antt =====
-- What the merge of app/services/page_extraction.py keeps: which fields it holds, and from where.
use structured_data_extracto.Base.{
  ℕ, String, Bool, true, false, Option, none, some, List, [], ◌∷◌, ◌++◌, ◌≡◌, refl, arith, All,
  All-append, Dict, get, put, values, ◌==◌, has, get-put, contains, elem, nonempty, eq_iff,
  Bool-cases, Option-cases, inl, inr, ap, is_some, if◌then◌else◌,
}
use structured_data_extracto.Value.{Value, list, Items, nil, cons}
use structured_data_extracto.Pages.Merge.{
  Merge, no_merge, is_useful, replace_value, add_items, append_source_page, combine, merge_value,
  merge_field, merge_page, merge_results, extend,
}

-- A list of page numbers that is not empty and names only pages in `known`.
abbrev pub ArePages : List ℕ → List ℕ → Type 0
ArePages known ps = (nonempty ps ≡ true) × All (λ i. elem i known ≡ true) ps

-- `merged` and `field_source_pages` hold the same fields, all of them fields of the schema; each
-- value is useful, and each has source pages, which are pages of the sweep.
pub record IsMerge (names : List String) (known : List ℕ) (m : Merge) : Type 0 where
  pub same : (k : String) → has m.merged k ≡ has m.sources k
  pub fields : (k : String) → has m.merged k ≡ true → contains names k ≡ true
  pub useful : (k : String) (v : Value) → get m.merged k ≡ some v → is_useful v ≡ true
  pub paged : (k : String) (ps : List ℕ) → get m.sources k ≡ some ps → ArePages known ps
  pub listed : All (ArePages known) (values m.sources)

values-put {ℓ κ} :
    {V : Type ℓ} (P : V → Type κ) (d : Dict V) (k : String) (v : V)
    → All P (values d)
    → P v
    → All P (values (put d k v))
unfolding values put
values-put P [] k v h p = (p, tt)
values-put P ((j, w) ∷ d) k v h p = elim (Bool-cases (j == k)) [
  | inl e ↦ rw e (p, h.1)
  | inr e ↦ rw e (h.0, values-put P d k v h.1 p)
]

nonempty-append : (ps : List ℕ) (i : ℕ) → nonempty (ps ++ i ∷ []) ≡ true
nonempty-append [] i = refl
nonempty-append (p ∷ ps) i = refl

append_source_page-ArePages :
    (known ps : List ℕ) (i : ℕ)
    → elem i known ≡ true
    → ArePages known ps
    → ArePages known (append_source_page ps i)
append_source_page-ArePages known ps i h a = elim (Bool-cases (elem i ps)) [
  | inl e ↦ rw e a
  | inr e ↦ rw e (nonempty-append ps i, All-append _ ps (i ∷ []) a.1 (h, tt))
]

module _ (names : List String) (known : List ℕ) where
  put-IsMerge :
      (m : Merge) (k : String) (v : Value) (ps : List ℕ)
      → IsMerge names known m
      → contains names k ≡ true
      → is_useful v ≡ true
      → ArePages known ps
      → IsMerge names known (record { merged = put m.merged k v; sources = put m.sources k ps })
  put-IsMerge m k v ps h c u a = record {
    same = λ j. ground (arith, get-put m.merged k v j, get-put m.sources k ps j, h.same j);
    fields = λ j. ground (arith, get-put m.merged k v j, h.fields j, eq_iff k j);
    useful = λ j w. ground (arith, get-put m.merged k v j, h.useful j w);
    paged = λ j qs. ground (arith, get-put m.sources k ps j, h.paged j qs);
    listed = values-put (ArePages known) m.sources k ps h.listed a;
  }

  module _ (i : ℕ) (seen : elem i known ≡ true) where
    replace_value-IsMerge :
        (m : Merge) (k : String) (v : Value)
        → IsMerge names known m
        → has m.merged k ≡ true
        → is_useful v ≡ true
        → IsMerge names known (replace_value m k i v)
    replace_value-IsMerge m k v h there u = elim (Option-cases (get m.sources k)) [
      | inl e ↦ absurd (ground (arith, h.same k))
      | inr (ps, e) ↦ rw e (
          put-IsMerge m k v (append_source_page ps i) h (h.fields k there) u
            (append_source_page-ArePages known ps i seen (h.paged k ps e)))
    ]

    extend-useful :
        (xs ys : Items) → is_useful (list xs) ≡ true → is_useful (list (extend xs ys)) ≡ true
    unfolding is_useful extend
    extend-useful nil ys u = cc
    extend-useful (cons x xs) ys u = refl

    add_items-IsMerge :
        (m : Merge) (k : String) (current additions : Items)
        → IsMerge names known m
        → get m.merged k ≡ some (list current)
        → IsMerge names known (add_items m k i current additions)
    add_items-IsMerge m k current nil h e = h
    add_items-IsMerge m k current (cons x xs) h e =
        replace_value-IsMerge m k (list (extend current (cons x xs))) h (ap is_some e)
          (extend-useful current (cons x xs) (h.useful k (list current) e))

    if_complete-IsMerge :
        (b : Bool) (m : Merge) (k : String) (v : Value)
        → IsMerge names known m
        → has m.merged k ≡ true
        → is_useful v ≡ true
        → IsMerge names known (if b then replace_value m k i v else m)
    if_complete-IsMerge true m k v h there u = replace_value-IsMerge m k v h there u
    if_complete-IsMerge false m k v h there u = h

    combine-IsMerge :
        (m : Merge) (k : String) (v w : Value)
        → IsMerge names known m
        → get m.merged k ≡ some w
        → is_useful v ≡ true
        → IsMerge names known (combine m k i v w)
    unfolding combine
    combine-IsMerge m k (list vs) (list ws) h e u = add_items-IsMerge m k ws _ h e
    combine-IsMerge m k v w h e u = if_complete-IsMerge _ m k v h (ap is_some e) u

    merge_field-IsMerge :
        (m : Merge) (k : String) (o : Option Value)
        → IsMerge names known m
        → contains names k ≡ true
        → IsMerge names known (merge_field m k i o)
    unfolding merge_field merge_value
    merge_field-IsMerge m k none h c = h
    merge_field-IsMerge m k (some v) h c = elim (Bool-cases (is_useful v)) [
      | inl u ↦ elim (Option-cases (get m.merged k)) [
        | inl e ↦ rw (u, e) (put-IsMerge m k v (i ∷ []) h c u (refl, (seen, tt)))
        | inr (w, e) ↦ rw (u, e) (combine-IsMerge m k v w h e u)
      ]
      | inr u ↦ rw u h
    ]

    merge_page-IsMerge :
        (ks : List String) (output : Dict Value) (m : Merge)
        → IsMerge names known m
        → All (λ k. contains names k ≡ true) ks
        → IsMerge names known (merge_page ks output i m)
    unfolding merge_page
    merge_page-IsMerge [] output m h c = h
    merge_page-IsMerge (k ∷ ks) output m h c =
        merge_page-IsMerge ks output _ (merge_field-IsMerge m k (get output k) h c.0) c.1

  merge_results-IsMerge_from :
      (pages : List (Dict Value × ℕ)) (m : Merge)
      → IsMerge names known m
      → All (λ k. contains names k ≡ true) names
      → All (λ p. elem p.1 known ≡ true) pages
      → IsMerge names known (merge_results names pages m)
  unfolding merge_results
  merge_results-IsMerge_from [] m h c s = h
  merge_results-IsMerge_from ((output, i) ∷ pages) m h c s =
      merge_results-IsMerge_from pages _ (merge_page-IsMerge i s.0 names output m h c) c s.1

contains_more :
    (j : String) (names ks : List String)
    → All (λ k. contains names k ≡ true) ks
    → All (λ k. contains (j ∷ names) k ≡ true) ks
contains_more j names [] h = tt
contains_more j names (k ∷ ks) h = (ground (arith, h.0), contains_more j names ks h.1)

contains-All : (names : List String) → All (λ k. contains names k ≡ true) names
contains-All [] = tt
contains-All (k ∷ ks) = (ground (arith, eq_iff k k), contains_more k ks ks (contains-All ks))

-- Merging the results of any pages gives a result and a source map over the same fields, all of
-- them fields of the schema; every value is useful, and every field names at least one source page
-- and only pages that gave a result.
pub merge_results-IsMerge :
    (names : List String) (known : List ℕ) (pages : List (Dict Value × ℕ))
    → All (λ p. elem p.1 known ≡ true) pages
    → IsMerge names known (merge_results names pages no_merge)
unfolding get values
merge_results-IsMerge names known pages s =
    merge_results-IsMerge_from names known pages no_merge
      (record {
        same = λ k. refl;
        fields = λ k h. cc;
        useful = λ k v h. cc;
        paged = λ k v h. cc;
        listed = tt;
      })
      (contains-All names) s
