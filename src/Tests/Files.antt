-- ===== src/Tests/Files.antt =====
-- Runs of app/infrastructure/storage.py over files kept in memory.
use structured_data_extracto.Base.{
  ℕ, String, true, false, Option, none, some, is_some, List, [], ◌∷◌, ◌≡◌, ◌≢◌, refl, arith, codes,
  text_eq, eqb_iff, if◌then◌else◌, Bool-cases, inl, inr,
}
use structured_data_extracto.Files.Local.{FullPath, Disk, same_path, save, delete}
use structured_data_extracto.Files.Resolved.{same_path_refl}
use structured_data_extracto.Files.Kept.{
  DiskLaws, IsSaved, IsDeleted, save-IsSaved, delete-IsDeleted,
}

abbrev Contents : Type 0
Contents = FullPath → Option String

abbrev with_file : FullPath → Option String → Contents → Contents
with_file p b s q = if same_path q p then b else s q

abbrev memory_disk : Disk
memory_disk = record {
  State = Contents;
  Bytes = String;
  file_at = λ p s. s p;
  mkdir = λ p s. (true, s);
  write_bytes = λ p b s. (true, with_file p (some b) s);
  read_bytes = λ p s. s p;
  exists = λ p s. is_some (s p);
  unlink = λ p s. (true, with_file p none s);
  listdir = λ p s. some (codes "other.pdf" ∷ []);
  rmdir = λ p s. (false, s);
}

text_eq_≡ : (t u : List ℕ) → text_eq t u ≡ true → t ≡ u
text_eq_≡ [] [] e = refl
text_eq_≡ [] (c ∷ u) e = ground arith
text_eq_≡ (c ∷ t) [] e = ground arith
text_eq_≡ (c ∷ t) (d ∷ u) e = ground (arith, eqb_iff c d, text_eq_≡ t u)

same_path_≡ : (p q : FullPath) → same_path p q ≡ true → p ≡ q
same_path_≡ [] [] e = refl
same_path_≡ [] (t ∷ q) e = ground arith
same_path_≡ (t ∷ p) [] e = ground arith
same_path_≡ (t ∷ p) (u ∷ q) e = ground (arith, text_eq_≡ t u, same_path_≡ p q)

elsewhere : (p q : FullPath) (b : Option String) (s : Contents) → q ≢ p → with_file p b s q ≡ s q
elsewhere p q b s h = elim (Bool-cases (same_path q p)) [
  | inl e ↦ absurd (h (same_path_≡ q p e))
  | inr e ↦ rw e refl
]

there : (p : FullPath) (b : Option String) (s : Contents) → with_file p b s p ≡ b
there p b s = rw (same_path_refl p) refl

missing : (o : Option String) → is_some o ≡ false → o ≡ none
missing none e = refl
missing (some b) e = ground arith

memory_disk_laws : DiskLaws memory_disk
memory_disk_laws = record {
  mkdir_keeps = λ p q s. refl;
  write_keeps = λ p q b s h. elsewhere p q (some b) s h;
  write_stores = λ p b s e. there p (some b) s;
  read_file = λ p s. refl;
  exists_file = λ p s e. missing (s p) e;
  unlink_keeps = λ p q s h. elsewhere p q none s h;
  unlink_removes = λ p s e. there p none s;
  rmdir_keeps = λ p q s. refl;
}

abbrev uploads : FullPath
uploads = codes "uploads" ∷ codes "srv" ∷ []

abbrev passwords : FullPath
passwords = codes "passwd" ∷ codes "etc" ∷ []

abbrev contents : Contents
contents = with_file passwords (some "root") (λ p. none)

save-IsSaved_example :
    IsSaved memory_disk_laws uploads passwords refl "%PDF" contents
      (save memory_disk uploads (codes "7") "%PDF" (codes "../../etc/passwd") contents)
save-IsSaved_example =
    save-IsSaved memory_disk_laws uploads passwords refl (codes "7") "%PDF"
      (codes "../../etc/passwd") contents

delete-IsDeleted_example :
    IsDeleted memory_disk_laws uploads passwords refl
      (codes "../../etc/passwd")
      contents
      (delete memory_disk uploads (codes "../../etc/passwd") contents)
delete-IsDeleted_example =
    delete-IsDeleted memory_disk_laws uploads passwords refl (codes "../../etc/passwd") contents
