-- ===== src/Files/Local.antt =====
-- `LocalStorage` of app/infrastructure/storage.py, over a file system. A resolved path is the list of its
-- parts from the innermost out, so that a folder is the end of the paths in it.
use structured_data_extracto.Base.{
  ℕ, String, Bool, true, false, not, ◌&&◌, Option, none, some, List, [], ◌∷◌, ◌⊎◌, inl, inr, codes,
  text_eq, eqb, nonempty, if◌then◌else◌,
}
use structured_data_extracto.Files.{slash, split_path, is_dropped, safe_name, save_path}

abbrev pub FullPath : Type 0
FullPath = List (List ℕ)

-- The operating system's files. An operation tells whether it succeeded.
pub record Disk : Type 1 where
  pub State : Type 0
  pub Bytes : Type 0
  pub file_at : FullPath → State → Option Bytes
  pub mkdir : FullPath → State → Bool × State
  pub write_bytes : FullPath → Bytes → State → Bool × State
  pub read_bytes : FullPath → State → Option Bytes
  pub exists : FullPath → State → Bool
  pub unlink : FullPath → State → Bool × State
  pub listdir : FullPath → State → Option (List (List ℕ))
  pub rmdir : FullPath → State → Bool × State

-- `StorageError`, without its cause: the path and the operation.
pub record StorageFailure : Type 0 where
  pub path : List ℕ ⊎ FullPath
  pub operation : String

abbrev pub Stored {ℓ} : Type ℓ → Type ℓ
Stored A = StorageFailure ⊎ A

-- `Path(file_path).is_absolute()`
abbrev pub is_absolute : List ℕ → Bool
is_absolute [] = false
is_absolute (c ∷ cs) = eqb c slash

abbrev pub parent : FullPath → FullPath
parent [] = []
parent (p ∷ ps) = ps

-- `(base_path / relative_path).resolve()`, without symbolic links.
unfoldable pub descend : FullPath → List (List ℕ) → FullPath
descend at [] = at
descend at (p ∷ ps) =
    let here = descend at ps in
    let above = descend (parent at) ps in
    let below = descend (p ∷ at) ps in
    if is_dropped p then here else if text_eq p (codes "..") then above else below

abbrev pub same_path : FullPath → FullPath → Bool
same_path [] [] = true
same_path (p ∷ ps) (q ∷ qs) = text_eq p q && same_path ps qs
same_path _ _ = false

-- `full_path.relative_to(base_path)` finds a path.
abbrev pub is_under : FullPath → FullPath → Bool
is_under base [] = same_path [] base
is_under base (p ∷ ps) = if same_path (p ∷ ps) base then true else is_under base ps

abbrev pub resolve_failure : List ℕ → StorageFailure
resolve_failure file_path = record { path = inl file_path; operation = "resolve" }

abbrev pub failure_at : FullPath → String → StorageFailure
failure_at full_path operation = record { path = inr full_path; operation = operation }

-- `_resolve_relative_path`
unfoldable pub resolve_relative_path : FullPath → List ℕ → Stored FullPath
resolve_relative_path base file_path =
    if is_absolute file_path
    then inl (resolve_failure file_path)
    else let full_path = descend base (split_path file_path) in
      if is_under base full_path then inr full_path else inl (resolve_failure file_path)

module _ (K : Disk) (base : FullPath) where
  abbrev pub Files {ℓ} : Type ℓ → Type ℓ
  Files A = K.State → Stored A × K.State

  abbrev pub at_path {ℓ} : {A : Type ℓ} → Stored FullPath → (FullPath → Files A) → Files A
  at_path (inl e) f s = (inl e, s)
  at_path (inr full_path) f s = f full_path s

  abbrev pub written : FullPath → List ℕ → Bool × K.State → Stored (List ℕ) × K.State
  written target_path relative_path (true, s) = (inr relative_path, s)
  written target_path relative_path (false, s) = (inl (failure_at target_path "save"), s)

  abbrev pub write_in : FullPath → List ℕ → K.Bytes → Bool × K.State → Stored (List ℕ) × K.State
  write_in target_path relative_path content (true, s) =
      written target_path relative_path (K.write_bytes target_path content s)
  write_in target_path relative_path content (false, s) = (inl (failure_at target_path "save"), s)

  -- `save`
  unfoldable pub save : List ℕ → K.Bytes → List ℕ → Files (List ℕ)
  save file_id content filename =
      at_path (resolve_relative_path base (safe_name file_id (codes "file"))) (λ target_dir.
        at_path (resolve_relative_path base (save_path file_id filename)) (λ target_path s.
          write_in target_path (save_path file_id filename) content (K.mkdir target_dir s)))

  abbrev pub read_or : FullPath → Option K.Bytes → Stored K.Bytes
  read_or full_path none = inl (failure_at full_path "load")
  read_or full_path (some content) = inr content

  -- `load`
  unfoldable pub load : List ℕ → Files K.Bytes
  load file_path =
      at_path (resolve_relative_path base file_path)
        (λ full_path s. (read_or full_path (K.read_bytes full_path s), s))

  abbrev pub deleted : FullPath → Bool × K.State → Stored (Unit {0}) × K.State
  deleted full_path (true, s) = (inr tt, s)
  deleted full_path (false, s) = (inl (failure_at full_path "delete"), s)

  abbrev pub remove_empty : FullPath → Option (List (List ℕ)) → Files (Unit {0})
  remove_empty full_path none s = (inl (failure_at full_path "delete"), s)
  remove_empty full_path (some entries) s =
      if nonempty entries then (inr tt, s) else deleted full_path (K.rmdir (parent full_path) s)

  -- The folder of a deleted file goes too, if it is empty and not the base.
  abbrev pub clean_up : FullPath → Bool × K.State → Stored (Unit {0}) × K.State
  clean_up full_path (false, s) = (inl (failure_at full_path "delete"), s)
  clean_up full_path (true, s) =
      if not (same_path (parent full_path) base) && K.exists (parent full_path) s
      then remove_empty full_path (K.listdir (parent full_path) s) s
      else (inr tt, s)

  -- `delete`
  unfoldable pub delete : List ℕ → Files (Unit {0})
  delete file_path = at_path (resolve_relative_path base file_path) (λ full_path s.
      clean_up full_path (if K.exists full_path s then K.unlink full_path s else (true, s)))
