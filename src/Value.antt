-- ===== src/Value.antt =====
-- The values that `json.loads` returns and that JSONB columns hold. A finite float stands as the
-- decimal that `repr` prints: its digits and how many of them follow the point.
use structured_data_extracto.Base.{
  ℕ, String, Bool, true, false, ◌&&◌, [], ◌∷◌, ◌≡◌, refl, arith, ◌==◌, eq_iff, eqb, Dict,
}

pub data ℤ : Type 0 where
  pos : ℕ → ℤ
  negsuc : ℕ → ℤ

mutual
  pub data Value : Type 0 where
    null : Value
    bool : Bool → Value
    int : ℤ → Value
    float : ℤ → ℕ → Value
    str : String → Value
    list : Items → Value
    dict : Fields → Value

  pub data Items : Type 0 where
    nil : Items
    cons : Value → Items → Items

  pub data Fields : Type 0 where
    end : Fields
    field : String → Value → Fields → Fields

abbrev pub eq_ℤ : ℤ → ℤ → Bool
eq_ℤ (pos m) (pos n) = eqb m n
eq_ℤ (negsuc m) (negsuc n) = eqb m n
eq_ℤ _ _ = false

abbrev pub is_negative : ℤ → Bool
is_negative (pos _) = false
is_negative (negsuc _) = true

abbrev eq_bool : Bool → Bool → Bool
eq_bool true true = true
eq_bool false false = true
eq_bool _ _ = false

-- `repr(a) == repr(b)`: the same text is printed for the same structure only, with `1`, `1.0` and
-- `True` apart and a dict's entries in order.
unfoldable mutual
  pub same_repr : Value → Value → Bool
  same_repr null null = true
  same_repr (bool a) (bool b) = eq_bool a b
  same_repr (int a) (int b) = eq_ℤ a b
  same_repr (float a i) (float b j) = eq_ℤ a b && eqb i j
  same_repr (str a) (str b) = a == b
  same_repr (list a) (list b) = same_items a b
  same_repr (dict a) (dict b) = same_fields a b
  same_repr _ _ = false

  pub same_items : Items → Items → Bool
  same_items nil nil = true
  same_items (cons a as') (cons b bs) = same_repr a b && same_items as' bs
  same_items _ _ = false

  pub same_fields : Fields → Fields → Bool
  same_fields end end = true
  same_fields (field j a as') (field k b bs) = (j == k) && same_repr a b && same_fields as' bs
  same_fields _ _ = false

-- `bool(x)` of a list and of a dict.
abbrev pub has_items : Items → Bool
has_items nil = false
has_items (cons _ _) = true

abbrev pub has_fields : Fields → Bool
has_fields end = false
has_fields (field _ _ _) = true

-- A dict value as a dict, and back.
abbrev pub to_fields : Dict Value → Fields
to_fields [] = end
to_fields ((k, v) ∷ d) = field k v (to_fields d)

mutual
  unfolding same_repr

  same_repr_refl_value : (v : Value) → same_repr v v ≡ true
  same_repr_refl_value null = refl
  same_repr_refl_value (bool true) = refl
  same_repr_refl_value (bool false) = refl
  same_repr_refl_value (int (pos n)) = ground arith
  same_repr_refl_value (int (negsuc n)) = ground arith
  same_repr_refl_value (float (pos n) i) = ground arith
  same_repr_refl_value (float (negsuc n) i) = ground arith
  same_repr_refl_value (str s) = ground (arith, eq_iff s s)
  same_repr_refl_value (list xs) = same_items_refl xs
  same_repr_refl_value (dict fs) = same_fields_refl fs

  same_items_refl : (xs : Items) → same_items xs xs ≡ true
  same_items_refl nil = refl
  same_items_refl (cons x xs) = ground (arith, same_repr_refl_value x, same_items_refl xs)

  same_fields_refl : (fs : Fields) → same_fields fs fs ≡ true
  same_fields_refl end = refl
  same_fields_refl (field k v fs) =
      ground (arith, eq_iff k k, same_repr_refl_value v, same_fields_refl fs)

pub same_repr_refl : (v : Value) → same_repr v v ≡ true
same_repr_refl v = same_repr_refl_value v
