-- ===== src/Http/Responses.antt =====
-- app/api/exception_handlers.py: the response to an exception. FastAPI answers an exception without a
-- handler itself, as an internal server error.
use structured_data_extracto.Base.{
  ℕ, String, Option, none, some, Dict, List, ◌<>◌, ◌==◌, map, join, if◌then◌else◌,
}
use structured_data_extracto.Errors.{Error}
use structured_data_extracto.Exec.{Result, ok, err}
use structured_data_extracto.Schema.{list_types}

pub data Detail : Type 0 where
  text : String → Detail
  warnings : List String → Detail
  pairs : Dict String → Detail

pub record JsonResponse : Type 0 where
  pub status_code : ℕ
  pub detail : Detail

-- `_response`
abbrev pub response : ℕ → String → Option JsonResponse
response status_code detail = some (record { status_code = status_code; detail = text detail })

-- `str` of a list of texts that have no quotes in them.
abbrev pub repr_list : List String → String
repr_list ts = "[" <> join ", " (map (λ t. "'" <> t <> "'") ts) <> "]"

abbrev pub storage_action : String → String
storage_action operation =
    if operation == "load" then "load document file from" else "save uploaded file to"

-- The handlers, as `register_exception_handlers` registers them.
unfoldable pub respond : Error → Option JsonResponse
respond (Error.document_not_found _) = response 404 "Document not found"
respond (Error.extraction_not_found _) = response 404 "Extraction not found"
respond (Error.invalid_document_type document_type available_types) =
    response 400
      ("Invalid doc_type '" <> document_type <> "'. Available types: " <> repr_list available_types)
respond (Error.invalid_upload m) = response 400 m
respond (Error.invalid_batch m) = response 400 m
respond (Error.upload_too_large m) = response 413 m
respond (Error.pdf_parse _ _) = response 400 "Could not parse PDF"
respond (Error.storage _ operation _) =
    response 500 ("Failed to " <> storage_action operation <> " storage")
respond (Error.classification _) = response 502 "Classification service unavailable"
respond (Error.unsupported_document_type _) =
    response 422
      ("Could not determine the document type. Supported types: " <> repr_list list_types)
respond (Error.extraction _) = response 500 "Extraction failed"
respond (Error.correction_validation ws) = some (record { status_code = 422; detail = warnings ws })
respond (Error.database _) = response 500 "Database operation failed"
respond _ = none

-- What a request is answered with.
pub data Reply {ℓ} (A : Type ℓ) : Type ℓ where
  answered : ℕ → A → Reply A
  failed : JsonResponse → Reply A
  unhandled : Error → Reply A

abbrev pub failed_or {ℓ} : {A : Type ℓ} → Error → Option JsonResponse → Reply A
failed_or e (some r) = failed r
failed_or e none = unhandled e

abbrev pub reply {ℓ} : {A : Type ℓ} → ℕ → Result A → Reply A
reply status_code (ok a) = answered status_code a
reply status_code (err e) = failed_or e (respond e)
