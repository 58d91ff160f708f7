-- ===== src/Confidence.antt =====
-- app/lib/confidence.py. A score stands in hundredths.
pub mod Scores
use structured_data_extracto.Base.{
  ℕ, String, Bool, true, false, ◌&&◌, ◌||◌, not, Option, none, some, List, [], ◌∷◌, Dict, get,
  or_else, any, codes, lower, strip, text_eq, has_infix, leb, ltb, eqb, nonempty, contains,
  if◌then◌else◌,
}
use structured_data_extracto.Exec.{Result, ok, err}
use structured_data_extracto.Value.{ℤ, Value, null, bool, int, float, str, list, dict, is_negative}
use structured_data_extracto.Schema.{FieldInfo, DocType, get_schema, model_fields}

abbrev pub placeholder_values : List String
placeholder_values = "n/a" ∷ "unknown" ∷ "not stated" ∷ []

abbrev pub money_field_markers : List String
money_field_markers = "amount" ∷ "pay" ∷ "price" ∷ "subtotal" ∷ "total" ∷ []

unfoldable pub is_placeholder : Value → Bool
unfolding strip lower
is_placeholder (str s) =
    let t = lower (strip (codes s)) in any (λ p. text_eq t (codes p)) placeholder_values
is_placeholder _ = false

abbrev pub is_digit : ℕ → Bool
is_digit c = leb b'0' c && leb c b'9'

-- The text of a decimal after its sign, by what has been read: whether a digit, whether one that is
-- not zero, whether the point. The result says whether the text is a number, and not zero.
abbrev pub is_exponent_mark : ℕ → Bool
is_exponent_mark c = eqb c b'e' || eqb c b'E'

unfoldable pub all_digits : List ℕ → Bool
all_digits [] = true
all_digits (c ∷ s) = is_digit c && all_digits s

abbrev pub is_exponent : List ℕ → Bool
is_exponent [] = false
is_exponent (c ∷ s) =
    if eqb c b'+' || eqb c b'-' then nonempty s && all_digits s else all_digits (c ∷ s)

-- Digits are those of ASCII; `Decimal` reads other Unicode digits as well.
unfoldable pub is_nonzero_number : Bool → Bool → Bool → List ℕ → Bool
unfolding all_digits
is_nonzero_number read nonzero point [] = read && nonzero
is_nonzero_number read nonzero point (c ∷ s) =
    if is_exponent_mark c
    then read && nonzero && is_exponent s
    else (is_digit c || (eqb c b'.' && not point))
      && is_nonzero_number (read || is_digit c) (nonzero || (is_digit c && not (eqb c b'0')))
          (point || eqb c b'.') s

-- `str.replace("_", "")`
unfoldable pub without_underscores : List ℕ → List ℕ
without_underscores [] = []
without_underscores (c ∷ s) =
    let rest = without_underscores s in if eqb c b'_' then rest else c ∷ rest

abbrev pub negative_from : List ℕ → Bool
negative_from [] = false
negative_from (c ∷ s) =
    eqb c b'-'
    && (text_eq (lower s) (codes "inf")
        || text_eq (lower s) (codes "infinity")
        || is_nonzero_number false false false s)

-- `Decimal(value) < 0`; a text that is no number, or not a number's (`nan`), gives `False`.
unfoldable pub is_negative_text : String → Bool
unfolding strip lower is_nonzero_number without_underscores
is_negative_text s = negative_from (without_underscores (strip (codes s)))

abbrev pub suspicious_value : Value → Bool
suspicious_value (int n) = is_negative n
suspicious_value (float n _) = is_negative n
suspicious_value (str s) = is_negative_text s
suspicious_value _ = false

unfoldable pub is_suspicious_amount : String → Value → Bool
unfolding is_negative_text
is_suspicious_amount name v =
    if not (any (λ marker. has_infix (codes name) (codes marker)) money_field_markers)
    then false
    else suspicious_value v

abbrev pub min_score : ℕ → ℕ → ℕ
min_score a b = if ltb b a then b else a

abbrev pub score_value : String → Value → Bool → ℕ
score_value name v required =
    if is_placeholder v
    then 20
    else let score : ℕ = if required then 85 else 70 in
      if is_suspicious_amount name v then min_score score 60 else score

-- `_score_field`; a key that is missing and a null are both `None`.
unfoldable pub score_field : String → Option Value → Bool → ℕ
score_field name none required = 0
score_field name (some null) required = 0
score_field name (some v) required = score_value name v required

unfoldable pub score_fields : List FieldInfo → Dict Value → Dict ℕ
unfolding score_field
score_fields [] d = []
score_fields (f ∷ fs) d = (f.name, score_field f.name (get d f.name) f.required) ∷ score_fields fs d

abbrev pub scored : Dict Value → Result DocType → Result (Dict ℕ)
scored d (ok schema) = ok (score_fields (model_fields schema) d)
scored d (err e) = err e

-- `score_confidence_map`
unfoldable pub score_confidence_map : String → Option (Dict Value) → Result (Dict ℕ)
score_confidence_map doc_type extracted = scored (or_else extracted []) (get_schema doc_type)
