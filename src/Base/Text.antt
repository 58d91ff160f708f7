-- ===== src/Base/Text.antt =====
-- Texts. Whole texts are native strings; code that walks a text reads its code points.
-- `lower` is exact on what this program compares: ASCII, and the two other characters (U+0130 and
-- U+212A) whose lower case holds an ASCII letter. Any other character lowers to characters that
-- are not ASCII, and every text that the program compares with is ASCII.
use Prim.Native.Nat.{ℕ, zero, suc, ◌+◌, ◌/◌, ◌%◌}
use Prim.Native.Char.{code}
use Prim.Native.String
use Prim.Native.String.{String}
use mathlib.Core.Bool.{Bool, true, false, ◌&&◌, ◌||◌}
use mathlib.Core.List.{List, [], ◌∷◌, ◌++◌, reverse}
use structured_data_extracto.Base.Tests.{ltb, leb, eqb, if◌then◌else◌}
use structured_data_extracto.Base.Lists.{elem}

-- `s + t`
infixr 65 ◌<>◌
abbrev pub ◌<>◌ : String → String → String
s <> t = String.◌++◌ s t

-- The code points of a text.
abbrev pub codes : String → List ℕ
codes String.[] = []
codes (String.◌∷◌ c s) = code c ∷ codes s

-- `str.isspace` of one character.
unfoldable pub is_space : ℕ → Bool
is_space c =
    (leb 9 c && leb c 13)
    || (leb 28 c && leb c 32)
    || elem c (133 ∷ 160 ∷ 5760 ∷ 8232 ∷ 8233 ∷ 8239 ∷ 8287 ∷ 12288 ∷ [])
    || (leb 8192 c && leb c 8202)

-- `str.lower`
unfoldable pub lower_char : ℕ → List ℕ
lower_char c =
    if leb b'A' c && leb c b'Z'
    then (c + 32) ∷ []
    else if eqb c 0x212a
    then b'k' ∷ []
    else if eqb c 0x130
    then b'i' ∷ 0x307 ∷ []
    else c ∷ []

unfoldable pub lower : List ℕ → List ℕ
unfolding lower_char
lower [] = []
lower (c ∷ s) = lower_char c ++ lower s

-- `str.lstrip` and `str.strip`
unfoldable pub lstrip : List ℕ → List ℕ
unfolding is_space
lstrip [] = []
lstrip (c ∷ s) = if is_space c then lstrip s else c ∷ s

unfoldable pub strip : List ℕ → List ℕ
unfolding lstrip
strip s = reverse (lstrip (reverse (lstrip s)))

-- `==`, `startswith`, `in` and `endswith` on code points.
abbrev pub text_eq : List ℕ → List ℕ → Bool
text_eq [] [] = true
text_eq (a ∷ s) (b ∷ t) = eqb a b && text_eq s t
text_eq _ _ = false

abbrev pub has_prefix : List ℕ → List ℕ → Bool
has_prefix s [] = true
has_prefix [] (b ∷ t) = false
has_prefix (a ∷ s) (b ∷ t) = eqb a b && has_prefix s t

abbrev pub has_infix : List ℕ → List ℕ → Bool
has_infix [] t = has_prefix [] t
has_infix (a ∷ s) t = has_prefix (a ∷ s) t || has_infix s t

abbrev pub has_suffix : List ℕ → List ℕ → Bool
has_suffix [] t = text_eq [] t
has_suffix (a ∷ s) t = text_eq (a ∷ s) t || has_suffix s t

-- `str(n)` of a number that is not negative: its digits, by fuel. `n + 1` steps are enough.
abbrev digit : ℕ → String
digit d =
    if eqb d 0
    then "0"
    else if eqb d 1
    then "1"
    else if eqb d 2
    then "2"
    else if eqb d 3
    then "3"
    else if eqb d 4
    then "4"
    else if eqb d 5
    then "5"
    else if eqb d 6
    then "6"
    else if eqb d 7
    then "7"
    else if eqb d 8
    then "8"
    else "9"

show_onto : ℕ → ℕ → String → String
show_onto zero n acc = acc
show_onto (suc fuel) n acc =
    let more = show_onto fuel (n / 10) (digit (n % 10) <> acc) in
    if ltb n 10 then digit n <> acc else more

unfoldable pub show : ℕ → String
unfolding show_onto
show n = show_onto (suc n) n ""

-- `sep.join(texts)`
unfoldable pub join : String → List String → String
join sep [] = ""
join sep (t ∷ []) = t
join sep (t ∷ u ∷ ts) = t <> sep <> join sep (u ∷ ts)
