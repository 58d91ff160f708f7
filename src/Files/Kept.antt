-- ===== src/Files/Kept.antt =====
-- What `LocalStorage` of app/infrastructure/storage.py does to files.
use structured_data_extracto.Base.{
  ℕ, Bool, true, false, not, ◌&&◌, Option, none, some, List, [], ◌∷◌, ◌≡◌, ◌≢◌, inl, inr, refl, ◌∙◌,
  codes, if◌then◌else◌, Bool-cases,
}
use structured_data_extracto.Files.{safe_name, save_path}
use structured_data_extracto.Files.Local.{
  FullPath, Disk, Stored, parent, same_path, is_under, failure_at, resolve_relative_path, at_path,
  written, write_in, save, load, deleted, remove_empty, clean_up, delete,
}
use structured_data_extracto.Files.Resolved.{
  apart, save_path-resolves, FoundUnder, resolve_relative_path-FoundUnder,
}

-- Documented behaviour of a file system: a file that was written has the content, one that was unlinked
-- is gone, other files stay as they are, and a file is read as it is.
pub record DiskLaws (K : Disk) : Type 0 where
  pub mkdir_keeps : (p q : FullPath) (s : K.State) → K.file_at q (K.mkdir p s).1 ≡ K.file_at q s
  pub write_keeps :
      (p q : FullPath) (b : K.Bytes) (s : K.State)
      → q ≢ p
      → K.file_at q (K.write_bytes p b s).1 ≡ K.file_at q s
  pub write_stores :
      (p : FullPath) (b : K.Bytes) (s : K.State)
      → (K.write_bytes p b s).0 ≡ true
      → K.file_at p (K.write_bytes p b s).1 ≡ some b
  pub read_file : (p : FullPath) (s : K.State) → K.read_bytes p s ≡ K.file_at p s
  pub exists_file : (p : FullPath) (s : K.State) → K.exists p s ≡ false → K.file_at p s ≡ none
  pub unlink_keeps :
      (p q : FullPath) (s : K.State) → q ≢ p → K.file_at q (K.unlink p s).1 ≡ K.file_at q s
  pub unlink_removes :
      (p : FullPath) (s : K.State) → (K.unlink p s).0 ≡ true → K.file_at p (K.unlink p s).1 ≡ none
  pub rmdir_keeps : (p q : FullPath) (s : K.State) → K.file_at q (K.rmdir p s).1 ≡ K.file_at q s

module _ {K : Disk} (L : DiskLaws K) (base q : FullPath) (outside : is_under base q ≡ false) where
  load-file :
      (path : List ℕ) (p : FullPath) (s : K.State) (b : K.Bytes)
      → resolve_relative_path base path ≡ inr p
      → K.file_at p s ≡ some b
      → load K base path s ≡ (inr b, s)
  unfolding load
  load-file path p s b r h = rw (r, L.read_file p s, h) refl

  load-no_file :
      (path : List ℕ) (p : FullPath) (s : K.State)
      → resolve_relative_path base path ≡ inr p
      → K.file_at p s ≡ none
      → load K base path s ≡ (inl (failure_at p "load"), s)
  unfolding load
  load-no_file path p s r h = rw (r, L.read_file p s, h) refl

  -- A path that was returned is loaded as the content; and a file elsewhere is as it was.
  abbrev Loads : K.Bytes → Stored (List ℕ) × K.State → Type 0
  Loads content (inr path, s) = load K base path s ≡ (inr content, s)
  Loads content (inl e, s) = Unit

  abbrev pub IsSaved : K.Bytes → K.State → Stored (List ℕ) × K.State → Type 0
  IsSaved content s out = Loads content out × (K.file_at q out.1 ≡ K.file_at q s)

  module _ (path : List ℕ) (content : K.Bytes) (p : FullPath) (s : K.State)
      (place : resolve_relative_path base path ≡ inr p) (inside : is_under base p ≡ true) where
    written-IsSaved :
        (done : Bool) (t : K.State)
        → (done ≡ true → K.file_at p t ≡ some content)
        → K.file_at q t ≡ K.file_at q s
        → IsSaved content s (written K base p path (done, t))
    written-IsSaved true t stores keeps = (load-file path p t content place (stores refl), keeps)
    written-IsSaved false t stores keeps = (tt, keeps)

    write_in-IsSaved :
        (made : Bool) (t : K.State)
        → K.file_at q t ≡ K.file_at q s
        → IsSaved content s (write_in K base p path content (made, t))
    write_in-IsSaved true t keeps =
        let w = K.write_bytes p content t in
        written-IsSaved w.0 w.1 (L.write_stores p content t)
          (L.write_keeps p q content t (apart base p q inside outside) ∙ keeps)
    write_in-IsSaved false t keeps = (tt, keeps)

    at_target-IsSaved :
        (target_dir : Stored FullPath)
        → IsSaved content s (
            at_path K base target_dir
              (λ dir.
                at_path K base
                  (resolve_relative_path base path)
                  (λ target s'. write_in K base target path content (K.mkdir dir s')))
              s)
    at_target-IsSaved (inl e) = (tt, refl)
    at_target-IsSaved (inr dir) =
        let m = K.mkdir dir s in rw place (write_in-IsSaved m.0 m.1 (L.mkdir_keeps dir q s))

  -- With a lawful file system, and whatever the names and the content are: the path that `save` returns
  -- is loaded as the content, and no file outside of the base folder changes, even if it raises.
  pub save-IsSaved :
      (file_id : List ℕ) (content : K.Bytes) (filename : List ℕ) (s : K.State)
      → IsSaved content s (save K base file_id content filename s)
  unfolding save
  save-IsSaved file_id content filename s =
      let (p, (place, inside)) = save_path-resolves base file_id filename in
      at_target-IsSaved (save_path file_id filename) content p s place inside
        (resolve_relative_path base (safe_name file_id (codes "file")))

  -- A path that was deleted cannot be loaded; and a file elsewhere is as it was.
  abbrev Gone : List ℕ → Stored (Unit {0}) × K.State → Type 0
  Gone path (inr _, s) = (p : FullPath) × (load K base path s ≡ (inl (failure_at p "load"), s))
  Gone path (inl e, s) = Unit

  abbrev pub IsDeleted : List ℕ → K.State → Stored (Unit {0}) × K.State → Type 0
  IsDeleted path s out = Gone path out × (K.file_at q out.1 ≡ K.file_at q s)

  module _ (path : List ℕ) (p : FullPath) (s : K.State)
      (place : resolve_relative_path base path ≡ inr p) where
    deleted-IsDeleted :
        (done : Bool) (t : K.State)
        → K.file_at p t ≡ none
        → K.file_at q t ≡ K.file_at q s
        → IsDeleted path s (deleted K base p (done, t))
    deleted-IsDeleted true t gone keeps = ((p, load-no_file path p t place gone), keeps)
    deleted-IsDeleted false t gone keeps = (tt, keeps)

    remove_empty-IsDeleted :
        (entries : Option (List (List ℕ))) (t : K.State)
        → K.file_at p t ≡ none
        → K.file_at q t ≡ K.file_at q s
        → IsDeleted path s (remove_empty K base p entries t)
    remove_empty-IsDeleted none t gone keeps = (tt, keeps)
    remove_empty-IsDeleted (some (e ∷ es)) t gone keeps =
        ((p, load-no_file path p t place gone), keeps)
    remove_empty-IsDeleted (some []) t gone keeps =
        let r = K.rmdir (parent p) t in
        deleted-IsDeleted r.0 r.1 (L.rmdir_keeps (parent p) p t ∙ gone)
          (L.rmdir_keeps (parent p) q t ∙ keeps)

    clean_up-IsDeleted :
        (done : Bool) (t : K.State)
        → (done ≡ true → K.file_at p t ≡ none)
        → K.file_at q t ≡ K.file_at q s
        → IsDeleted path s (clean_up K base p (done, t))
    clean_up-IsDeleted false t gone keeps = (tt, keeps)
    clean_up-IsDeleted true t gone keeps =
        elim (Bool-cases (not (same_path (parent p) base) && K.exists (parent p) t)) [
          | inl e ↦ rw e (remove_empty-IsDeleted (K.listdir (parent p) t) t (gone refl) keeps)
          | inr e ↦ rw e ((p, load-no_file path p t place (gone refl)), keeps)
        ]

    unlinked-IsDeleted :
        is_under base p ≡ true
        → IsDeleted path s (clean_up K base p (if K.exists p s then K.unlink p s else (true, s)))
    unlinked-IsDeleted inside = elim (Bool-cases (K.exists p s)) [
      | inl e ↦ rw e (
          let u = K.unlink p s in
          clean_up-IsDeleted u.0 u.1 (L.unlink_removes p s)
            (L.unlink_keeps p q s (apart base p q inside outside)))
      | inr e ↦ rw e (clean_up-IsDeleted true s (λ _. L.exists_file p s e) refl)
    ]

  found-IsDeleted :
      (path : List ℕ) (s : K.State) (found : Stored FullPath)
      → resolve_relative_path base path ≡ found
      → FoundUnder base found
      → IsDeleted path s (
          at_path K base found
            (λ p s'. clean_up K base p (if K.exists p s' then K.unlink p s' else (true, s')))
            s)
  found-IsDeleted path s (inl e) r u = (tt, refl)
  found-IsDeleted path s (inr p) r u = unlinked-IsDeleted path p s r u

  -- With a lawful file system, and whatever the path is, `..` and absolute paths included: a path that
  -- `delete` returns from cannot be loaded, and no file outside of the base folder changes, even if it
  -- raises.
  pub delete-IsDeleted : (path : List ℕ) (s : K.State) → IsDeleted path s (delete K base path s)
  unfolding delete
  delete-IsDeleted path s =
      found-IsDeleted path s (resolve_relative_path base path) refl
        (resolve_relative_path-FoundUnder base path)
