-- ===== src/Corrections/Equality.antt =====
-- Python's `==` on the values of app/services/corrections.py: `True`, `1` and `1.0` are equal, lists are
-- compared in order, and dicts whatever the order of their keys. A float stands for the decimal that it
-- prints.
use structured_data_extracto.Base.{
  ℕ, suc, ◌*◌, ◌^◌, String, Bool, true, false, ◌&&◌, ◌==◌, Option, none, some, eqb, if◌then◌else◌,
}
use structured_data_extracto.Value.{
  ℤ, pos, Value, null, bool, int, float, str, list, dict, Items, nil, cons, Fields, end, field,
  eq_ℤ,
}
use structured_data_extracto.Money.{magnitude, with_sign}

abbrev pub times : ℤ → ℕ → ℤ
times a k = with_sign a (magnitude a * k)

-- A number, by its digits and how many follow the point.
abbrev pub number_of : Value → Option (ℤ × ℕ)
number_of (bool true) = some (pos 1, 0)
number_of (bool false) = some (pos 0, 0)
number_of (int n) = some (n, 0)
number_of (float n places) = some (n, places)
number_of _ = none

abbrev pub eq_numbers : Option (ℤ × ℕ) → Option (ℤ × ℕ) → Bool
eq_numbers (some (m, i)) (some (n, j)) = eq_ℤ (times m (10 ^ j)) (times n (10 ^ i))
eq_numbers _ _ = false

abbrev pub find_field : Fields → String → Option Value
find_field end k = none
find_field (field j v fs) k = if j == k then some v else find_field fs k

abbrev pub count_fields : Fields → ℕ
count_fields end = 0
count_fields (field _ _ fs) = suc (count_fields fs)

unfoldable mutual
  pub eq_value : Value → Value → Bool
  eq_value null null = true
  eq_value (str a) (str b) = a == b
  eq_value (list a) (list b) = eq_items a b
  eq_value (dict a) (dict b) = eqb (count_fields a) (count_fields b) && fields_within a b
  eq_value a b = eq_numbers (number_of a) (number_of b)

  pub eq_items : Items → Items → Bool
  eq_items nil nil = true
  eq_items (cons a as') (cons b bs) = eq_value a b && eq_items as' bs
  eq_items _ _ = false

  pub fields_within : Fields → Fields → Bool
  fields_within end b = true
  fields_within (field k v fs) b =
      elim (find_field b k) [ none ↦ false | some w ↦ eq_value v w ] && fields_within fs b
