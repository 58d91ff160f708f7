-- ===== src/Money.antt =====
-- Decimals as app/schemas/documents.py and app/services/validation.py use them: a sign, a magnitude
-- and the number of decimal places; sums have Python's default precision of 28 digits, with ties
-- to even, and quantizing past that precision is an error.
use structured_data_extracto.Base.{
  ℕ, zero, suc, ◌+◌, ◌-◌, ◌*◌, ◌/◌, ◌%◌, ◌^◌, Option, none, some, List, [], ◌∷◌, ltb, leb, eqb,
  if◌then◌else◌,
}
use structured_data_extracto.Value.{ℤ, pos, negsuc}

pub record Decimal : Type 0 where
  pub coefficient : ℤ
  pub scale : ℕ

abbrev pub magnitude : ℤ → ℕ
magnitude (pos n) = n
magnitude (negsuc n) = suc n

abbrev pub positive_part : ℤ → ℕ
positive_part (pos n) = n
positive_part (negsuc n) = 0

abbrev pub negative_part : ℤ → ℕ
negative_part (pos n) = 0
negative_part (negsuc n) = suc n

-- `a - b` as an integer, and a number with the sign of another.
abbrev pub sub_ℕ : ℕ → ℕ → ℤ
sub_ℕ a b = if leb b a then pos (a - b) else negsuc (b - a - 1)

abbrev pub with_sign : ℤ → ℕ → ℤ
with_sign (pos _) m = pos m
with_sign (negsuc _) m = sub_ℕ 0 m

infixl 65 ◌+ℤ◌
unfoldable pub ◌+ℤ◌ : ℤ → ℤ → ℤ
a +ℤ b = sub_ℕ (positive_part a + positive_part b) (negative_part a + negative_part b)

abbrev pub negate : ℤ → ℤ
negate a = sub_ℕ (negative_part a) (positive_part a)

-- `m / d`, rounded half to even.
abbrev pub round_half_even : ℕ → ℕ → ℕ
round_half_even m d =
    let q = m / d in
    let r = m % d in if ltb (2 * r) d then q else if ltb d (2 * r) then q + 1 else q + q % 2

-- How many decimal digits a number has, by fuel; `m + 1` steps are enough.
unfoldable pub digits_of : ℕ → ℕ → ℕ
digits_of zero m = 0
digits_of (suc fuel) m = let rest = digits_of fuel (m / 10) in if eqb m 0 then 0 else rest + 1

abbrev pub precision : ℕ
precision = 28

-- Scales a coefficient by a power of ten.
abbrev pub times_ten : ℤ → ℕ → ℤ
times_ten a k = with_sign a (magnitude a * 10 ^ k)

-- Rounds a result to the precision; what is dropped left of the point comes back as zeros.
unfoldable pub round_to_precision : Decimal → Decimal
unfolding digits_of
round_to_precision d =
    let m = magnitude d.coefficient in
    let drop = digits_of (suc m) m - precision in
    record {
      coefficient = with_sign d.coefficient (round_half_even m (10 ^ drop) * 10 ^ (drop - d.scale));
      scale = d.scale - drop;
    }

unfoldable pub add_decimal : Decimal → Decimal → Decimal
unfolding ◌+ℤ◌ round_to_precision
add_decimal a b = round_to_precision (record {
  coefficient =
      times_ten a.coefficient (b.scale - a.scale) +ℤ times_ten b.coefficient (a.scale - b.scale);
  scale = if ltb a.scale b.scale then b.scale else a.scale;
})

abbrev pub negate_decimal : Decimal → Decimal
negate_decimal d = record d { coefficient = negate d.coefficient }

unfoldable pub sum_decimals : Decimal → List Decimal → Decimal
unfolding add_decimal
sum_decimals total [] = total
sum_decimals total (d ∷ ds) = sum_decimals (add_decimal total d) ds

-- `normalize_money`: the amount in hundredths; `none` is `InvalidOperation`.
unfoldable pub normalize_money : Decimal → Option ℤ
unfolding digits_of
normalize_money d =
    let cents =
      round_half_even (magnitude d.coefficient * 10 ^ (2 - d.scale)) (10 ^ (d.scale - 2)) in
    if ltb precision (digits_of (suc cents) cents)
    then none
    else some (with_sign d.coefficient cents)
