-- ===== src/Http/Requests.antt =====
-- The requests that `POST /documents/extractions` of app/api/v1/endpoints/documents.py turns away.
use structured_data_extracto.Base.{
  ℕ, ◌<◌, String, Bool, false, Option, none, some, is_some, List, ◌≡◌, ◌⊎◌, inl, inr, refl, ◌∙◌,
  sym, subst, contains, Bool-cases,
}
use structured_data_extracto.Errors.{Error}
use structured_data_extracto.Exec.{Result, ok, err, lift, ◌>>=◌}
use structured_data_extracto.Schema.{list_types}
use structured_data_extracto.Pages.Runner.{Strategy}
use structured_data_extracto.Uploads.{UploadedDocument, valid_doc_type}
use structured_data_extracto.Documents.World.{Platform, World}
use structured_data_extracto.Documents.Service.{Response}
use structured_data_extracto.Documents.Entry.{invalid_input, extract_document, both}
use structured_data_extracto.Documents.Entry.Refusal.{extract_document-IsRefused}
use structured_data_extracto.Http.Responses.{JsonResponse, Reply, failed, reply, respond}
use structured_data_extracto.Http.Endpoints.{
  answer_with, content_of, filename_of, optional_pdf_upload, extract_endpoint,
}
use structured_data_extracto.Http.Uploaded.{
  ReadableFile, opened_of, BadFile, IsTurnedAway, IsChecked, optional_pdf_upload-IsChecked,
}

abbrev BadType : Option String → Type 0
BadType none = ⊥
BadType (some t) = contains list_types t ≡ false

-- A request that the API turns away.
abbrev pub IsBad :
    {rounds : ℕ} → ℕ → Option (ReadableFile rounds) → Option ℕ → Option String → Type 0
IsBad max_size file document_id doc_type =
    BadFile max_size file ⊎ BadType doc_type ⊎ (is_some file ≡ is_some document_id)

-- What the rest of a request does, by the upload that was read.
module _ (P : Platform) (bytes : List ℕ → P.storage.Bytes) (has_pool async_mode : Bool)
    (document_id : Option ℕ) (strategy : Option Strategy) (w : World P) where
  abbrev IsRefusal : Reply Response × World P → Type 0
  IsRefusal out =
      (r : JsonResponse) × (out ≡ (failed r, w)) × ((r.status_code ≡ 400) ⊎ (r.status_code ≡ 413))

  abbrev with_type : Option UploadedDocument → Result (Option String) → Reply Response × World P
  with_type upload t =
      answer_with 200
        (do
          doc_type ← lift t
          extract_document P has_pool async_mode (content_of bytes upload) (filename_of upload)
              document_id doc_type strategy)
        w

  abbrev with_upload :
      Result (Option UploadedDocument) → Result (Option String) → Reply Response × World P
  with_upload u t =
      answer_with 200
        (do
          upload ← lift u
          doc_type ← lift t
          extract_document P has_pool async_mode (content_of bytes upload) (filename_of upload)
              document_id doc_type strategy)
        w

  IsRefusal-turned : (e : Error) → IsTurnedAway e → IsRefusal (reply 200 (err e), w)
  IsRefusal-turned e (r, h, st) = (r, rw h refl, st)

  is_some-both :
      (u : Option UploadedDocument)
      → is_some (both (content_of bytes u) (filename_of u)) ≡ is_some u
  is_some-both none = refl
  is_some-both (some u) = refl

  no_input-IsRefusal :
      (upload : Option UploadedDocument) (doc_type : Option String)
      → is_some upload ≡ is_some document_id
      → IsRefusal (with_type upload (ok doc_type))
  unfolding respond
  no_input-IsRefusal upload doc_type b =
      subst (λ out. IsRefusal (reply 200 out.0, out.1))
        (sym (
          extract_document-IsRefused P has_pool async_mode (content_of bytes upload)
            (filename_of upload) document_id doc_type strategy w (is_some-both upload ∙ b)))
        (IsRefusal-turned invalid_input (_, refl, inl refl))

  with_type-IsRefusal :
      (upload : Option UploadedDocument) (doc_type : Option String)
      → BadType doc_type ⊎ (is_some upload ≡ is_some document_id)
      → IsRefusal (with_type upload (valid_doc_type doc_type))
  unfolding valid_doc_type respond
  with_type-IsRefusal upload none (inl b) = elim b [ ]
  with_type-IsRefusal upload (some t) (inl b) = rw b (_, refl, inl refl)
  with_type-IsRefusal upload none (inr b) = no_input-IsRefusal upload none b
  with_type-IsRefusal upload (some t) (inr b) = elim (Bool-cases (contains list_types t)) [
    | inl e ↦ rw e (no_input-IsRefusal upload (some t) b)
    | inr e ↦ rw e (_, refl, inl refl)
  ]

  with_upload-IsRefusal :
      {rounds : ℕ} (max_size : ℕ) (file : Option (ReadableFile rounds)) (doc_type : Option String)
      (u : Result (Option UploadedDocument))
      → IsChecked max_size file u
      → IsBad max_size file document_id doc_type
      → IsRefusal (with_upload u (valid_doc_type doc_type))
  with_upload-IsRefusal max_size file doc_type (err e) c bad = IsRefusal-turned e c
  with_upload-IsRefusal max_size file doc_type (ok u) c (inl b) = absurd (c.0 b)
  with_upload-IsRefusal max_size file doc_type (ok u) c (inr (inl b)) =
      with_type-IsRefusal u doc_type (inl b)
  with_upload-IsRefusal max_size file doc_type (ok u) c (inr (inr b)) =
      with_type-IsRefusal u doc_type (inr (c.1 ∙ b))

-- A request for an extraction is turned away if its file is no PDF or larger than `max_size`, if its
-- document type is none of the registered ones, or if it has a file and a document or neither: the
-- response has the status 400 or 413, and nothing of the world changes. The file keeps to its
-- documentation, and the rounds are more than its bytes.
pub extract_endpoint-IsRefusal :
    (P : Platform) (bytes : List ℕ → P.storage.Bytes) (has_pool async_mode : Bool)
    (max_size chunk_size rounds : ℕ) (file : Option (ReadableFile rounds)) (document_id : Option ℕ)
    (doc_type : Option String) (strategy : Option Strategy) (w : World P)
    → 0 < chunk_size
    → IsBad max_size file document_id doc_type
    → (r : JsonResponse) × (extract_endpoint max_size chunk_size rounds P bytes has_pool
          (opened_of file)
          document_id
          doc_type
          strategy
          async_mode
          w
        ≡ (failed r, w))
      × ((r.status_code ≡ 400) ⊎ (r.status_code ≡ 413))
unfolding extract_endpoint
extract_endpoint-IsRefusal P bytes has_pool async_mode max_size chunk_size rounds file document_id
      doc_type strategy w positive bad =
    with_upload-IsRefusal P bytes has_pool async_mode document_id strategy w max_size file doc_type
      (optional_pdf_upload max_size chunk_size rounds (opened_of file))
      (optional_pdf_upload-IsChecked max_size chunk_size rounds positive file) bad
