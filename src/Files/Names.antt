-- ===== src/Files/Names.antt =====
-- What the names of app/infrastructure/storage.py can be.
use structured_data_extracto.Base.{
  ℕ, Bool, false, ◌||◌, List, [], ◌∷◌, ◌++◌, ◌≡◌, ◌∙◌, refl, ap, arith, All, any, codes, eqb,
  Bool-cases, inl, inr,
}
use structured_data_extracto.Files.{
  slash, backslash, slashed, onto_first, split_path, is_dropped, last_part, path_name, is_special,
  or_fallback, safe_name, save_path,
}

abbrev pub is_separator : ℕ → Bool
is_separator c = eqb c slash || eqb c backslash

-- A name that is one part of a path, and neither the folder itself nor the one above.
pub record IsSafe (name : List ℕ) : Type 0 where
  pub one_part : any is_separator name ≡ false
  pub ordinary : is_special name ≡ false

abbrev HasNone : List ℕ → Type 0
HasNone p = any is_separator p ≡ false

onto_first-All :
    (c : ℕ) (ps : List (List ℕ))
    → is_separator c ≡ false
    → All HasNone ps
    → All HasNone (onto_first c ps)
onto_first-All c [] e h = (ground arith, tt)
onto_first-All c (p ∷ ps) e h = (ground (arith, h.0), h.1)

split_path-All : (cs : List ℕ) → any (λ c. eqb c backslash) cs ≡ false → All HasNone (split_path cs)
unfolding split_path
split_path-All [] e = (refl, tt)
split_path-All (c ∷ cs) e = elim (Bool-cases (eqb c slash)) [
  | inl s ↦ rw s (refl, split_path-All cs (ground arith))
  | inr s ↦
      rw s (onto_first-All c (split_path cs) (ground arith) (split_path-All cs (ground arith)))
]

slashed_plain : (cs : List ℕ) → any (λ c. eqb c backslash) (slashed cs) ≡ false
slashed_plain [] = refl
slashed_plain (c ∷ cs) = elim (Bool-cases (eqb c backslash)) [
  | inl e ↦ rw e (slashed_plain cs)
  | inr e ↦ rw (e, e) (slashed_plain cs)
]

last_part-HasNone :
    (ps : List (List ℕ)) (name : List ℕ)
    → All HasNone ps
    → HasNone name
    → HasNone (last_part ps name)
unfolding last_part
last_part-HasNone [] name h k = k
last_part-HasNone (p ∷ ps) name h k = elim (Bool-cases (is_dropped p)) [
  | inl e ↦ rw e (last_part-HasNone ps name h.1 k)
  | inr e ↦ rw e (last_part-HasNone ps p h.1 h.0)
]

or_fallback-IsSafe :
    (fallback name : List ℕ) → IsSafe fallback → HasNone name → IsSafe (or_fallback fallback name)
or_fallback-IsSafe fallback name h k = elim (Bool-cases (is_special name)) [
  | inl e ↦ rw e h
  | inr e ↦ rw e (record { one_part = k; ordinary = e })
]

-- `_safe_name` gives one part of a path, without slash or backslash, that is neither empty nor `.` nor
-- `..`, whatever the value is, if its fallback is such a name.
pub safe_name-IsSafe :
    (value fallback : List ℕ) → IsSafe fallback → IsSafe (safe_name value fallback)
unfolding safe_name
safe_name-IsSafe value fallback h = or_fallback-IsSafe fallback (path_name (slashed value)) h (
    last_part-HasNone (split_path (slashed value)) []
      (split_path-All (slashed value) (slashed_plain value)) refl)

split_path-one : (p : List ℕ) → any is_separator p ≡ false → split_path p ≡ p ∷ []
unfolding split_path
split_path-one [] e = refl
split_path-one (c ∷ cs) e = elim (Bool-cases (eqb c slash)) [
  | inl s ↦ ground arith
  | inr s ↦ rw (s, split_path-one cs (ground arith)) refl
]

split_path-append :
    (p rest : List ℕ)
    → any is_separator p ≡ false
    → split_path (p ++ slash ∷ rest) ≡ p ∷ split_path rest
unfolding split_path
split_path-append [] rest e = refl
split_path-append (c ∷ cs) rest e = elim (Bool-cases (eqb c slash)) [
  | inl s ↦ ground arith
  | inr s ↦ rw (s, split_path-append cs rest (ground arith)) refl
]

file-IsSafe : IsSafe (codes "file")
file-IsSafe = record { one_part = refl; ordinary = refl }

uploaded-IsSafe : IsSafe (codes "uploaded.pdf")
uploaded-IsSafe = record { one_part = refl; ordinary = refl }

-- Whatever an upload is called, the path that `save` returns for it is a folder and a file in it: its
-- parts are two names that are neither empty nor `.` nor `..`, so it leads out of nothing.
pub save_path-IsContained :
    (file_id filename : List ℕ)
    → (folder : List ℕ) × (name : List ℕ) × (split_path (save_path file_id filename)
        ≡ folder ∷ name ∷ [])
      × IsSafe folder
      × IsSafe name
unfolding save_path
save_path-IsContained file_id filename =
    let a = safe_name-IsSafe file_id (codes "file") file-IsSafe in
    let b = safe_name-IsSafe filename (codes "uploaded.pdf") uploaded-IsSafe in
    let folder : List ℕ = safe_name file_id (codes "file") in
    let name : List ℕ = safe_name filename (codes "uploaded.pdf") in
    (
      folder,
      name,
      split_path-append folder name a.one_part
          ∙ ap (λ ps. folder ∷ ps) (split_path-one name b.one_part),
      a,
      b,
    )
