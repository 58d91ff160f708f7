-- ===== src/Uploads/Bounds.antt =====
-- The chunk loop and the limits of app/api/validation.py.
use structured_data_extracto.Base.{
  ℕ, zero, suc, ◌+◌, ◌≤◌, ◌<◌, String, true, false, Option, none, some, List, [], ◌∷◌, ◌++◌, ◌≡◌,
  ◌∙◌, refl, sym, ap, arith, length, length-append, ltb, if◌then◌else◌, Bool-cases, inl, inr,
  sum_of,
}
use structured_data_extracto.Exec.{Result, ok, err, Exec, pure, raise, ◌>>=◌, ◌>>◌}
use structured_data_extracto.Uploads.{
  UploadFile, UploadedDocument, Opened, file_too_large, read_on, read_chunks, valid_pdf_upload,
  max_batch_size, max_batch_total_size_bytes, add_upload, prepend, collect_uploads, batch_of_pdfs,
  invalid_file, valid_pdf_batch,
}

-- Documented behaviour of a file: `unread` are the bytes that are left; a read takes bytes from their
-- front, and takes none only at the end; `close` does not fail.
pub record UploadLaws (F : UploadFile) : Type 0 where
  pub unread : F.State → List ℕ
  pub read_ok :
      (n : ℕ) (s : F.State)
      → (chunk : List ℕ) × ((F.read n s).0 ≡ ok chunk) × (unread s ≡ chunk ++ unread (F.read n s).1)
  pub read_end : (n : ℕ) (s : F.State) → 0 < n → (F.read n s).0 ≡ ok [] → unread s ≡ []
  pub close_ok : (s : F.State) → (F.close s).0 ≡ ok tt

module _ (F : UploadFile) (L : UploadLaws F) (max_size chunk_size : ℕ)
    (positive : 0 < chunk_size) where
  -- What is to come of the loop with `total` bytes read and `bytes` left.
  abbrev outcome : ℕ → List ℕ → Result (List ℕ)
  outcome total bytes = if ltb max_size (total + length bytes) then err file_too_large else ok bytes

  abbrev refused_bytes : Result (List ℕ)
  refused_bytes = err file_too_large

  closed : (s : F.State) → ((F.close >> raise file_too_large) s).0 ≡ refused_bytes
  closed s = rw (L.close_ok s)

  joined :
      (next : Exec F.State (List ℕ)) (chunk bytes : List ℕ) (total : ℕ) (s : F.State)
      → (next s).0 ≡ outcome (total + length chunk) bytes
      → ((next >>= (λ rest. pure (chunk ++ rest))) s).0 ≡ outcome total (chunk ++ bytes)
  joined next chunk bytes total s e =
      elim (Bool-cases (ltb max_size (total + length chunk + length bytes))) [
        | inl h ↦ rw (e, h) (rw (over h))
        | inr h ↦ rw (e, h) (rw (within h))
      ]
    where
      over :
          ltb max_size (total + length chunk + length bytes) ≡ true
          → ltb max_size (total + length (chunk ++ bytes)) ≡ true
      over h = ground (arith, length-append chunk bytes)

      within :
          ltb max_size (total + length chunk + length bytes) ≡ false
          → ltb max_size (total + length (chunk ++ bytes)) ≡ false
      within h = ground (arith, length-append chunk bytes)

  read_on-outcome :
      (next : ℕ → Exec F.State (List ℕ)) (total : ℕ) (chunk bytes : List ℕ) (s : F.State)
      → total ≤ max_size
      → (chunk ≡ [] → bytes ≡ [])
      → (0 < length chunk
          → total + length chunk ≤ max_size
          → (next (total + length chunk) s).0 ≡ outcome (total + length chunk) bytes)
      → (read_on F max_size chunk_size next total chunk s).0 ≡ outcome total (chunk ++ bytes)
  read_on-outcome next total [] bytes s low end more = rw (end refl) (ground arith)
  read_on-outcome next total (b ∷ bs) bytes s low end more =
      elim (Bool-cases (ltb max_size (total + length (b ∷ bs)))) [
        | inl h ↦ rw h (closed s ∙ sym (rw (larger h)))
        | inr h ↦ rw h (
            joined (next (total + length (b ∷ bs))) (b ∷ bs) bytes total s
              (more (omega arith) (ground arith)))
      ]
    where
      larger :
          ltb max_size (total + length (b ∷ bs)) ≡ true
          → ltb max_size (total + length ((b ∷ bs) ++ bytes)) ≡ true
      larger h = ground (arith, length-append (b ∷ bs) bytes)

  -- `_read_upload_file`, with its rounds more than the bytes of the file, returns the whole file if its
  -- size is within `max_size`, and otherwise raises that the file is too large: whatever the chunks are
  -- that the file is read in, and with any size of chunks that is not 0.
  pub read_chunks-outcome :
      (rounds total : ℕ) (s : F.State)
      → total ≤ max_size
      → length (L.unread s) < rounds
      → (read_chunks F max_size chunk_size rounds total s).0 ≡ (
          if ltb max_size (total + length (L.unread s))
          then err file_too_large
          else ok (L.unread s))
  unfolding read_chunks
  read_chunks-outcome zero total s low enough = ground arith
  read_chunks-outcome (suc rounds) total s low enough =
      let (chunk, e, u) = L.read_ok chunk_size s in
      let t = (F.read chunk_size s).1 in
      rw (e, u)
        (read_on-outcome (read_chunks F max_size chunk_size rounds) total chunk (L.unread t) t low
          (ended chunk t e u)
          (λ some_bytes within.
            read_chunks-outcome rounds (total + length chunk) t within
              (fewer chunk t some_bytes u)))
    where
      ended :
          (chunk : List ℕ) (t : F.State)
          → (F.read chunk_size s).0 ≡ ok chunk
          → L.unread s ≡ chunk ++ L.unread t
          → chunk ≡ []
          → L.unread t ≡ []
      ended chunk t e u c =
          sym (u ∙ ap (λ x. x ++ L.unread t) c) ∙ L.read_end chunk_size s positive (e ∙ ap ok c)

      fewer :
          (chunk : List ℕ) (t : F.State)
          → 0 < length chunk
          → L.unread s ≡ chunk ++ L.unread t
          → length (L.unread t) < rounds
      fewer chunk t some_bytes u =
          omega (arith, enough, length-append chunk (L.unread t), ap length u)

-- What `valid_pdf_batch` promises of the uploads that it lets through.
abbrev pub Within : ℕ → ℕ → Result (List UploadedDocument) → Type 0
Within total count (ok uploads) =
    (length uploads ≡ count)
    × (total + sum_of (λ u. length u.content) uploads ≤ max_batch_total_size_bytes)
Within total count (err e) = Unit

abbrev pub Admits : ℕ → Result (List UploadedDocument) → Type 0
Admits count (ok uploads) =
    (length uploads ≡ count)
    × (0 < count)
    × (count ≤ max_batch_size)
    × (sum_of (λ u. length u.content) uploads ≤ max_batch_total_size_bytes)
Admits count (err e) = Unit

module _ (max_upload_size chunk_size rounds : ℕ) where
  prepend-Within :
      (total count : ℕ) (u : UploadedDocument) (r : Result (List UploadedDocument))
      → Within (total + length u.content) count r
      → Within total (suc count) (prepend max_upload_size chunk_size rounds u r)
  prepend-Within total count u (ok us) (n, h) = (ap suc n, omega arith)
  prepend-Within total count u (err e) h = tt

  add_upload-Within :
      (total count : ℕ) (r : Result UploadedDocument)
      (next : UploadedDocument → Result (List UploadedDocument))
      → ((u : UploadedDocument) → Within total count (next u))
      → Within total count (add_upload max_upload_size chunk_size rounds r next)
  add_upload-Within total count (ok u) next h = h u
  add_upload-Within total count (err e) next h = tt

  collect_uploads-Within :
      (files : List Opened) (total : ℕ)
      → total ≤ max_batch_total_size_bytes
      → Within total (length files) (collect_uploads max_upload_size chunk_size rounds total files)
  unfolding collect_uploads
  collect_uploads-Within [] total low = (refl, ground arith)
  collect_uploads-Within (f ∷ fs) total low =
      add_upload-Within total (suc (length fs))
        (valid_pdf_upload f.file max_upload_size chunk_size rounds f.state).0 _
        (λ u. elim (Bool-cases (ltb max_batch_total_size_bytes (total + length u.content))) [
          | inl h ↦ rw h tt
          | inr h ↦ rw h (
              prepend-Within total (length fs) u _
                (collect_uploads-Within fs (total + length u.content) (ground arith)))
        ])

  batch_of_pdfs-Within :
      (o : Option (Option String)) (files : List Opened)
      → Within 0 (length files) (batch_of_pdfs max_upload_size chunk_size rounds o files)
  batch_of_pdfs-Within (some name) files = tt
  batch_of_pdfs-Within none files = collect_uploads-Within files 0 (ground arith)

  admitted :
      (n : ℕ) (r : Result (List UploadedDocument))
      → suc n ≤ max_batch_size
      → Within 0 (suc n) r
      → Admits (suc n) r
  admitted n (ok us) low (e, h) = (e, omega arith, low, omega arith)
  admitted n (err e) low h = tt

  -- A batch that `valid_pdf_batch` lets through has an upload for each of its files, at least one and
  -- at most 20, and their bytes are at most 100 MiB together.
  pub valid_pdf_batch-Admits :
      (files : List Opened)
      → Admits (length files) (valid_pdf_batch max_upload_size chunk_size rounds files)
  unfolding valid_pdf_batch
  valid_pdf_batch-Admits [] = tt
  valid_pdf_batch-Admits (f ∷ fs) = elim (Bool-cases (ltb max_batch_size (length (f ∷ fs)))) [
    | inl h ↦ rw h tt
    | inr h ↦ rw h (
        admitted (length fs)
          (batch_of_pdfs max_upload_size chunk_size rounds (invalid_file (f ∷ fs)) (f ∷ fs))
          (ground arith) (batch_of_pdfs-Within (invalid_file (f ∷ fs)) (f ∷ fs)))
  ]
