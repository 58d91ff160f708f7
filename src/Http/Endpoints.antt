-- ===== src/Http/Endpoints.antt =====
-- app/api/v1/endpoints/documents.py, schemas_endpoint.py and health.py. The service of a request, which
-- app/api/dependencies.py puts together, works in the request's session.
use structured_data_extracto.Base.{ℕ, String, Bool, Option, none, some, List, [], ◌∷◌, Dict}
use structured_data_extracto.Exec.{Result, ok, err, Exec, lift, ◌>>=◌}
use structured_data_extracto.Value.{Value}
use structured_data_extracto.Schema.{DocType, Tool, list_types, get_tool}
use structured_data_extracto.Pages.Runner.{Strategy}
use structured_data_extracto.Uploads.{
  UploadedDocument, Opened, valid_pdf_upload, valid_pdf_batch, valid_doc_type,
}
use structured_data_extracto.Records.{Correction}
use structured_data_extracto.Documents.World.{Platform, World}
use structured_data_extracto.Documents.Service.{Response}
use structured_data_extracto.Documents.Entry.{extract_document}
use structured_data_extracto.Documents.Batch.{BatchResponse, batch_extract}
use structured_data_extracto.Documents.Amend.{
  CorrectionRequest, ExtractionResponse, ExtractionAuditResponse, DocumentResponse,
  correct_extraction, get_extraction, get_extraction_audit, get_document,
}
use structured_data_extracto.Http.Responses.{Detail, Reply, answered, failed, reply}

-- A path operation answers with what the service returns or raises.
abbrev pub answer_with : {S A : Type 0} → ℕ → Exec S A → S → Reply A × S
answer_with status_code m s = let (r, s') = m s in (reply status_code r, s')

-- `upload.content if upload is not None else None`, and the same of its name.
abbrev pub content_of : {Bytes : Type 0} → (List ℕ → Bytes) → Option UploadedDocument → Option Bytes
content_of bytes none = none
content_of bytes (some upload) = some (bytes upload.content)

abbrev pub filename_of : Option UploadedDocument → Option String
filename_of none = none
filename_of (some upload) = some upload.filename

abbrev pub as_some {ℓ} : {A : Type ℓ} → Result A → Result (Option A)
as_some (ok a) = ok (some a)
as_some (err e) = err e

module _ (max_upload_size chunk_size rounds : ℕ) where
  -- `optional_pdf_upload`
  abbrev pub optional_pdf_upload : Option Opened → Result (Option UploadedDocument)
  optional_pdf_upload none = ok none
  optional_pdf_upload (some f) =
      as_some (valid_pdf_upload f.file max_upload_size chunk_size rounds f.state).0

  module _ (P : Platform) (bytes : List ℕ → P.storage.Bytes) (has_pool : Bool) where
    -- `POST /documents/extractions`: the upload and the type are checked before the service is called.
    unfoldable pub extract_endpoint :
        Option Opened
        → Option ℕ
        → Option String
        → Option Strategy
        → Bool
        → World P
        → Reply Response × World P
    extract_endpoint file document_id doc_type strategy async_mode = answer_with 200 (do
      upload ← lift (optional_pdf_upload file)
      doc_type' ← lift (valid_doc_type doc_type)
      extract_document P has_pool async_mode (content_of bytes upload) (filename_of upload)
          document_id doc_type' strategy)

  -- `POST /documents/extractions/batch`, with what the items end with, by their uploads and the type.
  unfoldable pub batch_endpoint :
      (List UploadedDocument → Option String → List (String × Result Response))
      → List Opened
      → Option String
      → Reply BatchResponse
  batch_endpoint items files doc_type =
      (answer_with 200
        (do
          uploads ← lift (valid_pdf_batch max_upload_size chunk_size rounds files)
          doc_type' ← lift (valid_doc_type doc_type)
          lift (ok (batch_extract (items uploads doc_type'))))
        tt).0

module _ (P : Platform) where
  -- `GET /documents/{document_id}`
  unfoldable pub document_endpoint : ℕ → World P → Reply DocumentResponse × World P
  document_endpoint id = answer_with 200 (get_document P id)

  -- `GET /documents/extractions/{extraction_id}`
  unfoldable pub extraction_endpoint : ℕ → World P → Reply ExtractionResponse × World P
  extraction_endpoint id = answer_with 200 (get_extraction P id)

  -- `GET /documents/extractions/{extraction_id}/audit`
  unfoldable pub audit_endpoint : ℕ → World P → Reply ExtractionAuditResponse × World P
  audit_endpoint id = answer_with 200 (get_extraction_audit P id)

  -- `POST /documents/extractions/{extraction_id}/correct`
  unfoldable pub correct_endpoint : ℕ → CorrectionRequest → World P → Reply Correction × World P
  correct_endpoint id request = answer_with 201 (correct_extraction P id request)

-- `SchemaInfoResponse` of app/schemas/responses.py
pub record SchemaInfo : Type 0 where
  pub name : String
  pub schema_definition : Value

module _ (model_json_schema : DocType → Value) where
  abbrev info : String → Tool → SchemaInfo
  info name tool = record { name = name; schema_definition = model_json_schema tool.parameters }

  abbrev with_info : String → Result Tool → Result (List SchemaInfo) → Result (List SchemaInfo)
  with_info name (ok tool) (ok infos) = ok (info name tool ∷ infos)
  with_info name (ok tool) (err e) = err e
  with_info name (err e) infos = err e

  schema_infos : List String → Result (List SchemaInfo)
  schema_infos [] = ok []
  schema_infos (t ∷ ts) = with_info t (get_tool t) (schema_infos ts)

  -- `list_schemas`, for `GET /schemas`
  unfoldable pub list_schemas : Reply (List SchemaInfo)
  unfolding schema_infos
  list_schemas = reply 200 (schema_infos list_types)

-- `health_check`, for `GET /health`, by the session's answer_with to `SELECT 1`.
unfoldable pub health_check : Result (Unit {0}) → Reply (Dict String)
health_check (ok _) = answered 200 (("status", "ok") ∷ ("database", "ok") ∷ [])
health_check (err _) = failed (record {
  status_code = 503;
  detail = Detail.pairs (("status", "error") ∷ ("database", "error") ∷ []);
})
