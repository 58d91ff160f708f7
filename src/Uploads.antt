-- ===== src/Uploads.antt =====
-- app/api/validation.py: uploads, batches of uploads and the document type of a request. An uploaded
-- file is a parameter: what it is read and closed by.
pub mod Bounds
use structured_data_extracto.Base.{
  ℕ, zero, suc, ◌+◌, ◌*◌, String, Bool, true, false, not, ◌&&◌, ◌||◌, Option, none, some, or_else,
  List, [], ◌∷◌, ◌++◌, ◌<>◌, ◌==◌, codes, lower, text_eq, has_suffix, contains, length, ltb,
  if◌then◌else◌,
}
use structured_data_extracto.Errors.{Error}
use structured_data_extracto.Exec.{Result, ok, err, Exec, pure, raise, ◌>>=◌, ◌>>◌}
use structured_data_extracto.Schema.{list_types}

abbrev pub pdf_content_type : String
pdf_content_type = "application/pdf"

abbrev pub max_batch_size : ℕ
max_batch_size = 20

abbrev pub max_batch_total_size_bytes : ℕ
max_batch_total_size_bytes = 100 * 1024 * 1024

-- `UploadFile`. `read n` gives at most `n` bytes, and no bytes at the end of the file.
pub record UploadFile : Type 1 where
  pub State : Type 0
  pub content_type : Option String
  pub filename : Option String
  pub read : ℕ → Exec State (List ℕ)
  pub close : Exec State (Unit {0})

pub record UploadedDocument : Type 0 where
  pub filename : String
  pub content : List ℕ

abbrev pub file_too_large : Error
file_too_large = Error.upload_too_large "Uploaded file is too large"

-- `_is_pdf_upload`
unfoldable pub is_pdf_upload : Option String → Option String → Bool
is_pdf_upload content_type filename =
    text_eq (lower (codes (or_else content_type ""))) (codes pdf_content_type)
    || has_suffix (lower (codes (or_else filename ""))) (codes ".pdf")

-- `filename or "uploaded.pdf"`
abbrev pub or_uploaded : Option String → String
or_uploaded none = "uploaded.pdf"
or_uploaded (some name) = if name == "" then "uploaded.pdf" else name

module _ (F : UploadFile) (max_size chunk_size : ℕ) where
  -- A round, by the chunk that was read.
  abbrev pub read_on : (ℕ → Exec F.State (List ℕ)) → ℕ → List ℕ → Exec F.State (List ℕ)
  read_on next total_size [] = pure []
  read_on next total_size (b ∷ bs) =
      if ltb max_size (total_size + length (b ∷ bs))
      then (do F.close; raise file_too_large)
      else (do rest ← next (total_size + length (b ∷ bs)); pure ((b ∷ bs) ++ rest))

  -- `_read_upload_file` with `total_size` bytes read, in at most `rounds` rounds of its loop. The
  -- chunks are joined as they come.
  unfoldable pub read_chunks : ℕ → ℕ → Exec F.State (List ℕ)
  read_chunks zero total_size = raise (Error.runtime "no rounds left")
  read_chunks (suc rounds) total_size = do
    chunk ← F.read chunk_size
    read_on (read_chunks rounds) total_size chunk

  -- `valid_pdf_upload`
  unfoldable pub valid_pdf_upload : ℕ → Exec F.State UploadedDocument
  valid_pdf_upload rounds =
      if not (is_pdf_upload F.content_type F.filename)
      then (do F.close; raise (Error.invalid_upload "Only PDF uploads are supported"))
      else (do
        content ← read_chunks rounds 0
        pure (record { filename = or_uploaded F.filename; content = content }))

-- A file with its state.
pub record Opened : Type 1 where
  pub file : UploadFile
  pub state : file.State

-- `next((file for file in files if not _is_pdf_upload(file)), None)`
unfoldable pub invalid_file : List Opened → Option (Option String)
invalid_file [] = none
invalid_file (f ∷ fs) =
    if is_pdf_upload f.file.content_type f.file.filename
    then invalid_file fs
    else some f.file.filename

module _ (max_upload_size chunk_size rounds : ℕ) where
  abbrev pub add_upload :
      Result UploadedDocument
      → (UploadedDocument → Result (List UploadedDocument))
      → Result (List UploadedDocument)
  add_upload (ok upload) next = next upload
  add_upload (err e) next = err e

  abbrev pub prepend :
      UploadedDocument → Result (List UploadedDocument) → Result (List UploadedDocument)
  prepend upload (ok uploads) = ok (upload ∷ uploads)
  prepend upload (err e) = err e

  -- The loop of `valid_pdf_batch`, with the bytes so far.
  unfoldable pub collect_uploads : ℕ → List Opened → Result (List UploadedDocument)
  collect_uploads total_size [] = ok []
  collect_uploads total_size (f ∷ fs) =
      add_upload (valid_pdf_upload f.file max_upload_size chunk_size rounds f.state).0 (λ upload.
        let total = total_size + length upload.content in
        let rest = collect_uploads total fs in
        if ltb max_batch_total_size_bytes total
        then err (Error.upload_too_large "Uploaded batch is too large")
        else prepend upload rest)

  abbrev pub batch_of_pdfs : Option (Option String) → List Opened → Result (List UploadedDocument)
  batch_of_pdfs (some name) files = err (
      Error.invalid_upload
        ("Only PDF uploads are supported. Invalid file: " <> or_else name "None"))
  batch_of_pdfs none files = collect_uploads 0 files

  -- `valid_pdf_batch`
  unfoldable pub valid_pdf_batch : List Opened → Result (List UploadedDocument)
  valid_pdf_batch [] = err (Error.invalid_batch "No files uploaded")
  valid_pdf_batch (f ∷ fs) =
      if ltb max_batch_size (length (f ∷ fs))
      then err (Error.invalid_batch "Maximum batch size is 20 files")
      else batch_of_pdfs (invalid_file (f ∷ fs)) (f ∷ fs)

-- `valid_doc_type`
unfoldable pub valid_doc_type : Option String → Result (Option String)
valid_doc_type none = ok none
valid_doc_type (some doc_type) =
    if not (contains list_types doc_type)
    then err (Error.invalid_document_type doc_type list_types)
    else ok (some doc_type)
