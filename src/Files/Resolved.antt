-- ===== src/Files/Resolved.antt =====
-- Where the paths of app/infrastructure/storage.py lead.
use structured_data_extracto.Base.{
  ℕ, true, false, List, [], ◌∷◌, ◌≡◌, ◌≢◌, inl, inr, refl, sym, ap, ◌∙◌, arith, codes, text_eq, eqb,
  eqb_iff, if◌then◌else◌, Bool-cases,
}
use structured_data_extracto.Files.{
  slash, onto_first, split_path, is_dropped, is_special, save_path,
}
use structured_data_extracto.Files.Names.{save_path-IsContained}
use structured_data_extracto.Files.Local.{
  FullPath, Stored, is_absolute, descend, same_path, is_under, resolve_relative_path,
}

text_eq_refl : (t : List ℕ) → text_eq t t ≡ true
text_eq_refl [] = refl
text_eq_refl (c ∷ t) = ground (arith, eqb_iff c c, text_eq_refl t)

pub same_path_refl : (p : FullPath) → same_path p p ≡ true
same_path_refl [] = refl
same_path_refl (t ∷ p) = ground (arith, text_eq_refl t, same_path_refl p)

is_under_refl : (base : FullPath) → is_under base base ≡ true
is_under_refl [] = refl
is_under_refl (t ∷ base) = rw (same_path_refl (t ∷ base)) refl

is_under-part :
    (base : FullPath) (t : List ℕ) (p : FullPath)
    → is_under base p ≡ true
    → is_under base (t ∷ p) ≡ true
is_under-part base t p e = elim (Bool-cases (same_path (t ∷ p) base)) [
  | inl h ↦ rw h refl
  | inr h ↦ rw h e
]

-- Two files in a folder and out of it are not the same.
pub apart : (base p q : FullPath) → is_under base p ≡ true → is_under base q ≡ false → q ≢ p
apart base p q inside outside e = absurd clash
  where
    under_both : is_under base q ≡ true
    under_both = ap (is_under base) e ∙ inside

    clash : ⊥
    clash = ground arith

abbrev first : List (List ℕ) → List ℕ
first [] = []
first (p ∷ ps) = p

relative :
    (cs : List ℕ) (f : List ℕ) (fs : List (List ℕ))
    → split_path cs ≡ f ∷ fs
    → is_special f ≡ false
    → is_absolute cs ≡ false
unfolding split_path
relative [] f fs e h = refl
relative (c ∷ cs) f fs e h = elim (Bool-cases (eqb c slash)) [
  | inl s ↦ absurd (clash s)
  | inr s ↦ s
]
  where
    special : eqb c slash ≡ true → is_special f ≡ true
    special s =
        ap (λ ps. is_special (first ps))
          (sym e ∙ ap (λ b. if b then [] ∷ split_path cs else onto_first c (split_path cs)) s)

    clash : eqb c slash ≡ true → ⊥
    clash s = ground (arith, special s)

ordinary_part :
    (t : List ℕ) → is_special t ≡ false → (is_dropped t ≡ false) × (text_eq t (codes "..") ≡ false)
ordinary_part t h = ground arith

descend-parts :
    (base : FullPath) (folder name : List ℕ)
    → is_special folder ≡ false
    → is_special name ≡ false
    → descend base (folder ∷ name ∷ []) ≡ name ∷ folder ∷ base
unfolding descend
descend-parts base folder name f n =
    rw
      (
        (ordinary_part folder f).0,
        (ordinary_part folder f).1,
        (ordinary_part name n).0,
        (ordinary_part name n).1,
      )
      refl

module _ (base : FullPath) (file_id filename : List ℕ) where
  -- Where an upload is saved.
  abbrev pub IsPlace : FullPath → Type 0
  IsPlace p =
      (resolve_relative_path base (save_path file_id filename) ≡ inr p) × (is_under base p ≡ true)

  pub save_path-resolves : (p : FullPath) × IsPlace p
  unfolding resolve_relative_path
  save_path-resolves =
      let (folder, name, e, a, b) = save_path-IsContained file_id filename in
      let p : FullPath = name ∷ folder ∷ base in
      let d : descend base (split_path (save_path file_id filename)) ≡ p =
        ap (descend base) e ∙ descend-parts base folder name a.ordinary b.ordinary in
      let u : is_under base p ≡ true =
        is_under-part base name (folder ∷ base)
          (is_under-part base folder base (is_under_refl base)) in
      (
        p,
        (rw (relative (save_path file_id filename) folder (name ∷ []) e a.ordinary, d, u) refl, u),
      )

module _ (base : FullPath) where
  abbrev pub FoundUnder : Stored FullPath → Type 0
  FoundUnder (inl e) = Unit
  FoundUnder (inr p) = is_under base p ≡ true

  pub resolve_relative_path-FoundUnder :
      (path : List ℕ) → FoundUnder (resolve_relative_path base path)
  unfolding resolve_relative_path
  resolve_relative_path-FoundUnder path = elim (Bool-cases (is_absolute path)) [
    | inl e ↦ rw e tt
    | inr e ↦ elim (Bool-cases (is_under base (descend base (split_path path)))) [
      | inl u ↦ rw (e, u) u
      | inr u ↦ rw (e, u) tt
    ]
  ]
