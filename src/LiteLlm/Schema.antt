-- ===== src/LiteLlm/Schema.antt =====
-- `_dereference_and_simplify_schema` of app/integrations/llm/litellm_client.py. A reference is followed
-- by a call that is passed in; `simplify` ties the knot with as many nested references as Python's
-- recursion limit lets through, and ends in a `RecursionError` past them.
pub mod Settles
pub mod Terminates
use structured_data_extracto.Base.{
  ℕ, zero, suc, String, Bool, true, false, not, ◌&&◌, Option, none, some, List, [], ◌∷◌, ◌==◌, Dict,
  get, put, any, codes, eqb, has_prefix, has_infix, text_eq, ◌||◌, or_else, if◌then◌else◌,
}
use structured_data_extracto.Errors.{Error}
use structured_data_extracto.Exec.{Result, ok, err}
use structured_data_extracto.Value.{
  Value, null, bool, int, float, str, list, dict, Items, nil, cons, Fields, end, field, to_fields,
  has_items, has_fields, ℤ, pos, eq_ℤ,
}

abbrev pub to_dict : Fields → Dict Value
to_dict end = []
to_dict (field k v fs) = (k, v) ∷ to_dict fs

abbrev pub field_at : Fields → String → Option Value
field_at end k = none
field_at (field j v fs) k = if j == k then some v else field_at fs k

-- `bool(t)`
abbrev pub is_true : Value → Bool
is_true null = false
is_true (bool b) = b
is_true (int n) = not (eq_ℤ n (pos 0))
is_true (float n _) = not (eq_ℤ n (pos 0))
is_true (str s) = not (s == "")
is_true (list xs) = has_items xs
is_true (dict fs) = has_fields fs

abbrev pub is_text : String → Value → Bool
is_text t (str s) = s == t
is_text t _ = false

-- The types that the subschemas of an `anyOf` name, without `null`.
abbrev pub type_of : Option Value → List Value → List Value
type_of none types = types
type_of (some t) types = if is_true t && not (is_text "null" t) then t ∷ types else types

unfoldable pub non_null_types : Items → List Value
non_null_types nil = []
non_null_types (cons (dict fs) xs) = type_of (field_at fs "type") (non_null_types xs)
non_null_types (cons _ xs) = non_null_types xs

unfoldable pub primary_type : List Value → Value
primary_type [] = str "string"
primary_type (t ∷ ts) =
    if any (is_text "number") (t ∷ ts)
    then str "number"
    else if any (is_text "integer") (t ∷ ts)
    then str "integer"
    else if any (is_text "boolean") (t ∷ ts)
    then str "boolean"
    else t

-- `ref_path.split("/")[-1]`
unfoldable pub last_segment : List ℕ → List ℕ → List ℕ
last_segment name [] = name
last_segment name (c ∷ cs) = if eqb c b'/' then last_segment cs cs else last_segment name cs

abbrev pub name_of : String → List ℕ
name_of path = last_segment (codes path) (codes path)

abbrev pub then_value {ℓ κ} : {A : Type ℓ} {B : Type κ} → Result A → (A → Result B) → Result B
then_value (ok a) f = f a
then_value (err e) f = err e

-- `merged = {k: v for k, v in node.items() if k != "$ref"}; merged.update(resolved)`
unfoldable pub without : String → Fields → Dict Value
without j end = []
without j (field k v fs) = let rest = without j fs in if k == j then rest else (k, v) ∷ rest

unfoldable pub update : Dict Value → Fields → Dict Value
update d end = d
update d (field k v fs) = update (put d k v) fs

-- A definition that is no dict is refused. (`dict.update` would also take an empty list or text, which is
-- no definition in a schema of pydantic.)
abbrev pub with_resolved : Fields → Value → Result Value
with_resolved node (dict resolved) = ok (dict (to_fields (update (without "$ref" node) resolved)))
with_resolved node _ = err (Error.other "'update' needs a mapping")

-- `new_node`, from its entries in order, and without the forbidden keys.
unfoldable pub built : Dict Value → Dict Value → Dict Value
built d [] = d
built d ((k, v) ∷ entries) = built (put d k v) entries

unfoldable pub removed : String → Dict Value → Dict Value
removed k [] = []
removed k ((j, v) ∷ d) = let rest = removed k d in if j == k then rest else (j, v) ∷ rest

abbrev pub new_node : Dict Value → Value
new_node entries = dict (to_fields (removed "format" (removed "pattern" (built [] entries))))

abbrev pub with_entry : Result (String × Value) → Result (Dict Value) → Result (Dict Value)
with_entry (ok entry) (ok entries) = ok (entry ∷ entries)
with_entry (ok entry) (err e) = err e
with_entry (err e) entries = err e

-- The entry of a key: an `anyOf` that is a list gives a type.
abbrev pub entry_of : String → Value → Result Value → Result (String × Value)
entry_of k (list xs) r =
    if k == "anyOf"
    then ok ("type", primary_type (non_null_types xs))
    else then_value r (λ v. ok (k, v))
entry_of k v r = then_value r (λ w. ok (k, w))

abbrev pub with_item : Result Value → Result Items → Result Items
with_item (ok v) (ok xs) = ok (cons v xs)
with_item (ok v) (err e) = err e
with_item (err e) xs = err e

abbrev pub as_list : Result Items → Result Value
as_list (ok xs) = ok (list xs)
as_list (err e) = err e

abbrev pub as_node : Result (Dict Value) → Result Value
as_node (ok entries) = ok (new_node entries)
as_node (err e) = err e

-- `def_name in defs` and `defs[def_name]`, with what Python does where `defs` is no dict.
abbrev pub find_name : Fields → List ℕ → Option Value
find_name end name = none
find_name (field k v fs) name = if text_eq (codes k) name then some v else find_name fs name

abbrev is_name : List ℕ → Value → Bool
is_name name (str s) = text_eq (codes s) name
is_name name _ = false

abbrev holds_name : Items → List ℕ → Bool
holds_name nil name = false
holds_name (cons v xs) name = is_name name v || holds_name xs name

abbrev bad_index : Bool → Result (Option Value)
bad_index true = err (Error.other "indices must be integers")
bad_index false = ok none

unfoldable pub lookup : Value → List ℕ → Result (Option Value)
lookup (dict fs) name = ok (find_name fs name)
lookup (list xs) name = bad_index (holds_name xs name)
lookup (str s) name = bad_index (has_infix (codes s) name)
lookup _ name = err (Error.other "argument is not iterable")

module _ (defs : Value) (follow : Value → Result Value) where
  abbrev pub followed : Fields → Result (Option Value) → Result Value → Result Value
  followed node (ok none) plain = plain
  followed node (ok (some body)) plain = then_value (follow body) (with_resolved node)
  followed node (err e) plain = err e

  -- A node with a `$ref`, and what it is without.
  abbrev pub dereference : Fields → Option Value → Result Value → Result Value
  dereference node none plain = plain
  dereference node (some (str path)) plain =
      if has_prefix (codes path) (codes "#/$defs/")
      then followed node (lookup defs (name_of path)) plain
      else plain
  dereference node (some _) plain = err (Error.other "'startswith' needs a text")

  -- `resolve_and_simplify`
  unfoldable mutual
    pub resolve : Value → Result Value
    resolve (dict fs) = dereference fs (field_at fs "$ref") (as_node (resolve_fields fs))
    resolve (list xs) = as_list (resolve_items xs)
    resolve v = ok v

    pub resolve_items : Items → Result Items
    resolve_items nil = ok nil
    resolve_items (cons v xs) = with_item (resolve v) (resolve_items xs)

    pub resolve_fields : Fields → Result (Dict Value)
    resolve_fields end = ok []
    resolve_fields (field k v fs) = with_entry (entry_of k v (resolve v)) (resolve_fields fs)

-- `resolve_and_simplify` with `n` nested references.
unfoldable pub simplify : Value → ℕ → Value → Result Value
simplify defs zero v = err (Error.runtime "maximum recursion depth exceeded")
simplify defs (suc n) v = resolve defs (λ w. simplify defs n w) v

-- `schema.pop("$defs", {})`
abbrev pub definitions : Fields → Value
definitions fs = or_else (field_at fs "$defs") (dict end)

-- `_dereference_and_simplify_schema`
unfoldable pub simplify_schema : ℕ → Value → Result Value
simplify_schema n (dict fs) = simplify (definitions fs) n (dict (to_fields (without "$defs" fs)))
simplify_schema n v = ok v
