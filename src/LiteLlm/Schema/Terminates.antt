-- ===== src/LiteLlm/Schema/Terminates.antt =====
-- Why `_dereference_and_simplify_schema` of app/integrations/llm/litellm_client.py comes to an end on
-- the schemas whose definitions do not refer to themselves.
use structured_data_extracto.Base.{
  ℕ, zero, suc, String, Option, none, some, List, ◌≡◌, refl, ap, arith, ◌<◌, ◌≤◌, Bool-cases, inl,
  inr, Dict, [], ◌∷◌, ◌==◌, has_prefix, codes, ◌∙◌,
}
use structured_data_extracto.Exec.{Result, ok}
use structured_data_extracto.Value.{
  Value, null, bool, int, float, str, list, dict, Items, nil, cons, Fields, end, field, to_fields,
}
use structured_data_extracto.LiteLlm.Schema.{
  field_at, find_name, name_of, lookup, followed, dereference, resolve, resolve_items,
  resolve_fields, simplify, simplify_schema, as_node, entry_of, with_entry, with_item, as_list,
  with_resolved, definitions, then_value, primary_type, non_null_types, new_node, without,
}
use structured_data_extracto.LiteLlm.Schema.Settles.{
  IsDict, Settles, constant-Settles, settle-map, settle-map2, forget, always, merge,
  with_resolved-merge, merge-IsDict, plain_entry,
}

module _ (rank : List ℕ → ℕ) where
  -- A reference leads to a name below `n`.
  abbrev pub IsBelow : ℕ → Option Value → Type 0
  IsBelow n none = Unit
  IsBelow n (some (str path)) = rank (name_of path) < n
  IsBelow n (some _) = ⊥

  -- All references in a value do.
  unfoldable mutual
    pub Below : ℕ → Value → Type 0
    Below n (dict fs) = IsBelow n (field_at fs "$ref") × BelowFields n fs
    Below n (list xs) = BelowItems n xs
    Below n _ = Unit

    pub BelowItems : ℕ → Items → Type 0
    BelowItems n nil = Unit
    BelowItems n (cons v xs) = Below n v × BelowItems n xs

    pub BelowFields : ℕ → Fields → Type 0
    BelowFields n end = Unit
    BelowFields n (field k v fs) = Below n v × BelowFields n fs

  -- Every definition is a dict, and its references lead below it.
  abbrev pub IsAcyclic : Fields → Type 0
  IsAcyclic defs =
      (name : List ℕ) (body : Value)
      → find_name defs name ≡ some body
      → IsDict body × Below (rank name) body

  module _ (defs : Fields) (acyclic : IsAcyclic defs) where
    -- What the definitions below `n` constant-Settles to.
    abbrev Followed : ℕ → Type 0
    Followed n =
        (name : List ℕ) (body : Value)
        → find_name defs name ≡ some body
        → rank name < n
        → Settles IsDict n (λ fuel. simplify (dict defs) fuel body)

    abbrev run : ℕ → Value → Result Value
    run fuel v = resolve (dict defs) (λ w. simplify (dict defs) fuel w) v

    abbrev run_items : ℕ → Items → Result Items
    run_items fuel xs = resolve_items (dict defs) (λ w. simplify (dict defs) fuel w) xs

    abbrev run_fields : ℕ → Fields → Result (Dict Value)
    run_fields fuel fs = resolve_fields (dict defs) (λ w. simplify (dict defs) fuel w) fs

    followed-Settles :
        (n : ℕ) (node : Fields) (name : List ℕ) (found : Option Value) (plain : ℕ → Result Value)
        → find_name defs name ≡ found
        → rank name < n
        → Followed n
        → Settles IsDict n plain
        → Settles IsDict n (λ fuel.
          followed (dict defs) (λ w. simplify (dict defs) fuel w) node (ok found) (plain fuel))
    followed-Settles n node name none plain e lt h s = s
    followed-Settles n node name (some body) plain e lt h s =
        settle-map n (λ fuel. simplify (dict defs) fuel body)
          (λ r. then_value r (with_resolved node)) (merge node) (with_resolved-merge node)
          (merge-IsDict node) (h name body e lt)

    dereference-Settles :
        (n : ℕ) (node : Fields) (ref : Option Value) (plain : ℕ → Result Value)
        → IsBelow n ref
        → Followed n
        → Settles IsDict n plain
        → Settles IsDict n (λ fuel.
          dereference (dict defs) (λ w. simplify (dict defs) fuel w) node ref (plain fuel))
    unfolding lookup
    dereference-Settles n node none plain b h s = s
    dereference-Settles n node (some (str path)) plain b h s =
        elim (Bool-cases (has_prefix (codes path) (codes "#/$defs/"))) [
          | inl e ↦ rw e (followed-Settles n node (name_of path) _ plain refl b h s)
          | inr e ↦ rw e s
        ]
    dereference-Settles n node (some null) plain b h s = elim b [ ]
    dereference-Settles n node (some (bool _)) plain b h s = elim b [ ]
    dereference-Settles n node (some (int _)) plain b h s = elim b [ ]
    dereference-Settles n node (some (float _ _)) plain b h s = elim b [ ]
    dereference-Settles n node (some (list _)) plain b h s = elim b [ ]
    dereference-Settles n node (some (dict _)) plain b h s = elim b [ ]

    entry_of-Settles :
        (n : ℕ) (k : String) (v : Value) (r : ℕ → Result Value)
        → Settles (λ _. Unit) n r
        → Settles (λ _. Unit) n (λ fuel. entry_of k v (r fuel))
    entry_of-Settles n k (list xs) r s = elim (Bool-cases (k == "anyOf")) [
      | inl e ↦ rw e (constant-Settles n ("type", primary_type (non_null_types xs)))
      | inr e ↦ rw e (plain_entry n k r s)
    ]
    entry_of-Settles n k null r s = plain_entry n k r s
    entry_of-Settles n k (bool _) r s = plain_entry n k r s
    entry_of-Settles n k (int _) r s = plain_entry n k r s
    entry_of-Settles n k (float _ _) r s = plain_entry n k r s
    entry_of-Settles n k (str _) r s = plain_entry n k r s
    entry_of-Settles n k (dict _) r s = plain_entry n k r s

    mutual
      unfolding resolve resolve_items resolve_fields Below

      run-Settles :
          (n : ℕ) (v : Value)
          → Followed n
          → Below n v
          → Settles (λ w. IsDict v → IsDict w) n (λ fuel. run fuel v)
      run-Settles n (dict fs) h b = always Unit n _ (
          dereference-Settles n fs (field_at fs "$ref") (λ fuel. as_node (run_fields fuel fs)) b.0 h
            (settle-map n (λ fuel. run_fields fuel fs) as_node new_node (λ a u. refl) (λ a u. tt)
              (run_fields-Settles n fs h b.1)))
      run-Settles n (list xs) h b =
          settle-map n (λ fuel. run_items fuel xs) as_list list (λ a u. refl) (λ a u d. d)
            (run_items-Settles n xs h b)
      run-Settles n null h b = (null, (λ d. d), λ fuel le. refl)
      run-Settles n (bool x) h b = (bool x, (λ d. d), λ fuel le. refl)
      run-Settles n (int x) h b = (int x, (λ d. d), λ fuel le. refl)
      run-Settles n (float x i) h b = (float x i, (λ d. d), λ fuel le. refl)
      run-Settles n (str x) h b = (str x, (λ d. d), λ fuel le. refl)

      run_items-Settles :
          (n : ℕ) (xs : Items)
          → Followed n
          → BelowItems n xs
          → Settles (λ _. Unit) n (λ fuel. run_items fuel xs)
      run_items-Settles n nil h b = constant-Settles n nil
      run_items-Settles n (cons v xs) h b =
          settle-map2 n (λ fuel. run fuel v) (λ fuel. run_items fuel xs) with_item cons
            (λ a c. refl) (run-Settles n v h b.0) (run_items-Settles n xs h b.1)

      run_fields-Settles :
          (n : ℕ) (fs : Fields)
          → Followed n
          → BelowFields n fs
          → Settles (λ _. Unit) n (λ fuel. run_fields fuel fs)
      run_fields-Settles n end h b = constant-Settles n []
      run_fields-Settles n (field k v fs) h b =
          settle-map2 n (λ fuel. entry_of k v (run fuel v)) (λ fuel. run_fields fuel fs) with_entry
            ◌∷◌ (λ a c. refl) (entry_of-Settles n k v _ (forget n _ (run-Settles n v h b.0)))
            (run_fields-Settles n fs h b.1)

    -- A value whose references lead below `n` settles with more than `n` calls.
    abbrev Settled : ℕ → Type 0
    Settled n =
        (v : Value)
        → Below n v
        → Settles (λ w. IsDict v → IsDict w) n (λ fuel. simplify (dict defs) (suc fuel) v)

    run-Settled : (n : ℕ) → Followed n → Settled n
    unfolding simplify
    run-Settled n h v b = run-Settles n v h b

    later :
        (m n : ℕ) (v : Value)
        → m < n
        → IsDict v
        → Settles (λ w. IsDict v → IsDict w) m (λ fuel. simplify (dict defs) (suc fuel) v)
        → Settles IsDict n (λ fuel. simplify (dict defs) fuel v)
    later m n v lt d s = (s.0, s.1 d, at)
      where
        at : (fuel : ℕ) → n ≤ fuel → simplify (dict defs) fuel v ≡ ok s.0
        at zero le = elim (clash le) [ ]
          where
            clash : n ≤ 0 → ⊥
            clash = omega arith
        at (suc fuel) le = s.2 fuel (omega arith)

    below-Settled : (bound n : ℕ) → n < bound → Settled n
    below-Settled zero n lt = elim (no_less lt) [ ]
      where
        no_less : n < 0 → ⊥
        no_less = omega arith
    below-Settled (suc bound) n lt = run-Settled n (λ name body e less.
        later (rank name) n body less (acyclic name body e).0
          (below-Settled bound (rank name) (omega arith) body (acyclic name body e).1))

dict_of : (w : Value) → IsDict w → (fs : Fields) × (w ≡ dict fs)
dict_of (dict fs) h = (fs, refl)
dict_of null h = elim h [ ]
dict_of (bool _) h = elim h [ ]
dict_of (int _) h = elim h [ ]
dict_of (float _ _) h = elim h [ ]
dict_of (str _) h = elim h [ ]
dict_of (list _) h = elim h [ ]

both_dict :
    {P : Value → Type 0} (n fuel : ℕ) (r : ℕ → Result Value)
    → ((w : Value) → P w → IsDict w)
    → Settles P n r
    → n ≤ fuel
    → (w : Fields) × (r fuel ≡ ok (dict w)) × (r n ≡ ok (dict w))
both_dict n fuel r h s le =
    let d = dict_of s.0 (h s.0 s.1) in
    (d.0, s.2 fuel le ∙ ap ok d.1, s.2 n (omega arith) ∙ ap ok d.1)

-- If the names can be ranked so that each definition of a schema is a dict whose references lead to
-- names of a lower rank, and the references of the rest of the schema lead to names below `n`, then
-- `_dereference_and_simplify_schema` returns: any number of nested calls above `n` gives the same
-- dict.
pub simplify_schema-returns :
    (rank : List ℕ → ℕ) (schema defs : Fields) (n fuel : ℕ)
    → definitions schema ≡ dict defs
    → IsAcyclic rank defs
    → Below rank n (dict (to_fields (without "$defs" schema)))
    → n ≤ fuel
    → (w : Fields) × (simplify_schema (suc fuel) (dict schema) ≡ ok (dict w))
      × (simplify_schema (suc n) (dict schema) ≡ ok (dict w))
unfolding simplify_schema
simplify_schema-returns rank schema defs n fuel e acyclic b le = rw e (
    both_dict n fuel (λ f. simplify (dict defs) (suc f) (dict (to_fields (without "$defs" schema))))
      (λ w h. h tt) (below-Settled rank defs acyclic (suc n) n (omega arith) _ b) le)
