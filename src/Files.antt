-- ===== src/Files.antt =====
-- The names under which app/infrastructure/storage.py keeps files, as lists of code points. A path is
-- read as `pathlib` reads it on POSIX: at its slashes, without its empty parts and its dots.
pub mod Names
pub mod Local
pub mod Resolved
pub mod Kept
use structured_data_extracto.Base.{
  ℕ, String, Bool, true, false, ◌||◌, List, [], ◌∷◌, ◌++◌, map, codes, text_eq, eqb, if◌then◌else◌,
}

abbrev pub slash : ℕ
slash = 47

abbrev pub backslash : ℕ
backslash = 92

-- `value.replace("\\", "/")`
abbrev pub slashed : List ℕ → List ℕ
slashed = map (λ c. if eqb c backslash then slash else c)

abbrev pub onto_first : ℕ → List (List ℕ) → List (List ℕ)
onto_first c [] = (c ∷ []) ∷ []
onto_first c (p ∷ ps) = (c ∷ p) ∷ ps

unfoldable pub split_path : List ℕ → List (List ℕ)
split_path [] = [] ∷ []
split_path (c ∷ cs) = if eqb c slash then [] ∷ split_path cs else onto_first c (split_path cs)

-- The last part that counts: `Path(value).name`.
abbrev pub is_dropped : List ℕ → Bool
is_dropped p = text_eq p [] || text_eq p (codes ".")

unfoldable pub last_part : List (List ℕ) → List ℕ → List ℕ
last_part [] name = name
last_part (p ∷ ps) name = if is_dropped p then last_part ps name else last_part ps p

abbrev pub path_name : List ℕ → List ℕ
path_name path = last_part (split_path path) []

-- `name in {"", ".", ".."}`
abbrev pub is_special : List ℕ → Bool
is_special name = text_eq name [] || text_eq name (codes ".") || text_eq name (codes "..")

abbrev pub or_fallback : List ℕ → List ℕ → List ℕ
or_fallback fallback name = if is_special name then fallback else name

-- `_safe_name`
unfoldable pub safe_name : List ℕ → List ℕ → List ℕ
safe_name value fallback = or_fallback fallback (path_name (slashed value))

-- The path that `save` returns: `Path(safe_file_id) / safe_filename`.
unfoldable pub save_path : List ℕ → List ℕ → List ℕ
save_path file_id filename =
    safe_name file_id (codes "file") ++ slash ∷ safe_name filename (codes "uploaded.pdf")
