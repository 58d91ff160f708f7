-- ===== src/Http/Uploaded.antt =====
-- What the check of an upload in app/api/validation.py makes of a request's file.
use structured_data_extracto.Base.{
  ℕ, ◌+◌, ◌<◌, Bool, true, false, not, Option, none, some, is_some, List, ◌≡◌, ◌⊎◌, inl, inr, refl,
  ◌∙◌, ap, sym, subst, arith, length, ltb, if◌then◌else◌,
}
use structured_data_extracto.Errors.{Error}
use structured_data_extracto.Exec.{Result, ok, err, Exec, pure, raise, ◌>>=◌, ◌>>◌}
use structured_data_extracto.Uploads.{
  UploadedDocument, Opened, or_uploaded, file_too_large, is_pdf_upload, read_chunks,
  valid_pdf_upload,
}
use structured_data_extracto.Uploads.Bounds.{UploadLaws, read_chunks-outcome}
use structured_data_extracto.Http.Responses.{JsonResponse, respond}
use structured_data_extracto.Http.Endpoints.{as_some, optional_pdf_upload}

-- An uploaded file that keeps to its documentation and can be read in the given rounds.
pub record ReadableFile (rounds : ℕ) : Type 1 where
  pub opened : Opened
  pub laws : UploadLaws opened.file
  pub enough : length (laws.unread opened.state) < rounds

abbrev pub opened_of : {rounds : ℕ} → Option (ReadableFile rounds) → Option Opened
opened_of none = none
opened_of (some f) = some f.opened

-- What is wrong with an upload: it is no PDF, or too large.
abbrev pub BadFile : {rounds : ℕ} → ℕ → Option (ReadableFile rounds) → Type 0
BadFile max_size none = ⊥
BadFile max_size (some f) =
    (is_pdf_upload f.opened.file.content_type f.opened.file.filename ≡ false)
    ⊎ (max_size < length (f.laws.unread f.opened.state))

-- An exception that is answered as the client's error.
abbrev pub IsTurnedAway : Error → Type 0
IsTurnedAway e =
    (r : JsonResponse) × (respond e ≡ some r) × ((r.status_code ≡ 400) ⊎ (r.status_code ≡ 413))

-- What the check of an upload makes of a file.
abbrev pub IsChecked :
    {rounds : ℕ} → ℕ → Option (ReadableFile rounds) → Result (Option UploadedDocument) → Type 0
IsChecked max_size file (ok u) = (BadFile max_size file → ⊥) × (is_some u ≡ is_some file)
IsChecked max_size file (err e) = IsTurnedAway e

abbrev mapped {ℓ κ} : {A : Type ℓ} {B : Type κ} → (A → B) → Result A → Result B
mapped f (ok a) = ok (f a)
mapped f (err e) = err e

bind_pure {ℓ κ μ} :
    {S : Type ℓ} {A : Type κ} {B : Type μ} (m : Exec S A) (f : A → B) (s : S) (r : Result A)
    → (m s).0 ≡ r
    → ((m >>= λ a. pure (f a)) s).0 ≡ mapped f r
bind_pure m f s (ok a) e = rw e refl
bind_pure m f s (err x) e = rw e refl

closed :
    {S : Type 0} (close : Exec S (Unit {0})) (s : S) (e : Error)
    → (close s).0 ≡ ok tt
    → ((close >> raise {A = UploadedDocument} e) s).0 ≡ err e
closed close s e h = rw h refl

module _ (max_size chunk_size rounds : ℕ) (positive : 0 < chunk_size) where
  abbrev upload_of : (f : ReadableFile rounds) → Result UploadedDocument
  upload_of f = (valid_pdf_upload f.opened.file max_size chunk_size rounds f.opened.state).0

  abbrev is_pdf : ReadableFile rounds → Bool
  is_pdf f = is_pdf_upload f.opened.file.content_type f.opened.file.filename

  abbrev not_pdf : Error
  not_pdf = Error.invalid_upload "Only PDF uploads are supported"

  abbrev refuse : (f : ReadableFile rounds) → Exec f.opened.file.State UploadedDocument
  refuse f = f.opened.file.close >> raise not_pdf

  abbrev document_of : ReadableFile rounds → List ℕ → UploadedDocument
  document_of f content = record {
    filename = or_uploaded f.opened.file.filename;
    content = content;
  }

  abbrev accept : (f : ReadableFile rounds) → Exec f.opened.file.State UploadedDocument
  accept f = read_chunks f.opened.file max_size chunk_size rounds 0 >>= λ content.
      pure (document_of f content)

  -- `valid_pdf_upload`, by the test of its first line.
  abbrev by_kind : ReadableFile rounds → Bool → Result UploadedDocument
  by_kind f b = ((if not b then refuse f else accept f) f.opened.state).0

  upload_of-by_kind :
      (f : ReadableFile rounds) (b : Bool) → is_pdf f ≡ b → upload_of f ≡ by_kind f b
  unfolding valid_pdf_upload
  upload_of-by_kind f b e = ap (by_kind f) e

  abbrev unread_of : ReadableFile rounds → List ℕ
  unread_of f = f.laws.unread f.opened.state

  abbrev is_large : ReadableFile rounds → Bool
  is_large f = ltb max_size (0 + length (unread_of f))

  refuse-outcome : (f : ReadableFile rounds) → by_kind f false ≡ err not_pdf
  refuse-outcome f =
      closed f.opened.file.close f.opened.state not_pdf (f.laws.close_ok f.opened.state)

  accept-outcome :
      (f : ReadableFile rounds)
      → (accept f f.opened.state).0
        ≡ mapped (document_of f) (if is_large f then err file_too_large else ok (unread_of f))
  accept-outcome f =
      bind_pure (read_chunks f.opened.file max_size chunk_size rounds 0) (document_of f)
        f.opened.state _
        (read_chunks-outcome f.opened.file f.laws max_size chunk_size positive rounds 0
          f.opened.state (omega arith) f.enough)

  by_kind-outcome :
      (f : ReadableFile rounds) (large : Bool)
      → is_large f ≡ large
      → by_kind f true
        ≡ mapped (document_of f) (if large then err file_too_large else ok (unread_of f))
  by_kind-outcome f large e =
      accept-outcome f
      ∙ ap (λ b. mapped (document_of f) (if b then err file_too_large else ok (unread_of f))) e

  abbrev Checked : ReadableFile rounds → Result UploadedDocument → Type 0
  Checked f r = IsChecked max_size (some f) (as_some r)

  as_some-IsChecked :
      (f : ReadableFile rounds) (b large : Bool)
      → is_pdf f ≡ b
      → is_large f ≡ large
      → Checked f (by_kind f b)
  unfolding respond
  as_some-IsChecked f false large k l =
      subst (Checked f) (sym (refuse-outcome f)) (_, refl, inl refl)
  as_some-IsChecked f true true k l =
      subst (Checked f) (sym (by_kind-outcome f true l)) (_, refl, inr refl)
  as_some-IsChecked f true false k l =
      subst (Checked f) (sym (by_kind-outcome f false l))
        ((λ bad. elim bad [ inl e ↦ differs k e | inr lt ↦ small lt ]), refl)
    where
      differs : is_pdf f ≡ true → is_pdf f ≡ false → ⊥
      differs p q = ground arith

      small : max_size < length (unread_of f) → ⊥
      small lt = ground arith

  pub optional_pdf_upload-IsChecked :
      (file : Option (ReadableFile rounds))
      → IsChecked max_size file (optional_pdf_upload max_size chunk_size rounds (opened_of file))
  optional_pdf_upload-IsChecked none = ((λ bad. bad), refl)
  optional_pdf_upload-IsChecked (some f) =
      subst (Checked f) (sym (upload_of-by_kind f (is_pdf f) refl))
        (as_some-IsChecked f (is_pdf f) (is_large f) refl refl)
