-- ===== src/Documents/Batch.antt =====
-- The batch of app/services/documents.py. `asyncio.gather` runs the items together, each in a session
-- of its own, and gives their results in the order of the items: what each item ended with is the
-- input here, whatever the interleaving.
pub mod Counts
pub mod Tasks
pub mod Schedule
use structured_data_extracto.Base.{
  ℕ, zero, suc, ◌+◌, String, Bool, true, false, ◌||◌, ◌==◌, Option, none, some, List, [], ◌∷◌, Dict,
  length, ltb, leb, if◌then◌else◌,
}
use structured_data_extracto.Errors.{Error, message}
use structured_data_extracto.Exec.{Result, ok, err}
use structured_data_extracto.Value.{Value}
use structured_data_extracto.Documents.Audit.{ExtractResponse}
use structured_data_extracto.Documents.Service.{AsyncResponse, Response, inline, queued}

-- `BatchItemResult` of app/schemas/responses.py
pub record BatchItem : Type 0 where
  pub filename : String
  pub status : String
  pub document_id : Option ℕ
  pub job_id : Option String
  pub extraction_id : Option ℕ
  pub doc_type : Option String
  pub extracted_data : Option (Dict Value)
  pub confidence_map : Option (Dict ℕ)
  pub warnings : List String
  pub error : Option String
  pub input_tokens : ℕ
  pub output_tokens : ℕ

abbrev empty_item : String → String → BatchItem
empty_item filename status = record {
  filename = filename;
  status = status;
  document_id = none;
  job_id = none;
  extraction_id = none;
  doc_type = none;
  extracted_data = none;
  confidence_map = none;
  warnings = [];
  error = none;
  input_tokens = 0;
  output_tokens = 0;
}

abbrev pub failed_item : String → String → BatchItem
failed_item filename error = record (empty_item filename "failed") { error = some error }

-- `_to_batch_item_result`
unfoldable pub to_batch_item : String → Response → BatchItem
to_batch_item filename (queued r) = record (empty_item filename r.status) {
  document_id = some r.document_id;
  job_id = some r.job_id;
}
to_batch_item filename (inline r) = record (empty_item filename r.status) {
  document_id = some r.document_id;
  extraction_id = some r.extraction_id;
  doc_type = some r.doc_type;
  extracted_data = r.extracted_data;
  confidence_map = some r.confidence_map;
  warnings = r.warnings;
  input_tokens = r.input_tokens;
  output_tokens = r.output_tokens;
}

-- `_extract_batch_item`, by what `extract_document` does.
unfoldable pub batch_item : String → Result Response → BatchItem
batch_item filename (ok r) = to_batch_item filename r
batch_item filename (err e) = failed_item filename (message e)

-- `_extract_batch_items`
unfoldable pub batch_items : List (String × Result Response) → List BatchItem
batch_items [] = []
batch_items ((filename, outcome) ∷ rest) = batch_item filename outcome ∷ batch_items rest

-- `BatchExtractionResponse`
pub record BatchResponse : Type 0 where
  pub total : ℕ
  pub succeeded : ℕ
  pub failed : ℕ
  pub results : List BatchItem

abbrev pub is_success : BatchItem → Bool
is_success r = (r.status == "completed") || (r.status == "partial") || (r.status == "processing")

abbrev pub is_failure : BatchItem → Bool
is_failure r = r.status == "failed"

-- `sum(p(x) for x in xs)`
abbrev pub count_if {ℓ} : {A : Type ℓ} → (A → Bool) → List A → ℕ
count_if p [] = 0
count_if p (x ∷ xs) = (if p x then 1 else 0) + count_if p xs

-- `batch_extract`
unfoldable pub batch_extract : List (String × Result Response) → BatchResponse
batch_extract files =
    let results = batch_items files in
    record {
      total = length files;
      succeeded = count_if is_success results;
      failed = count_if is_failure results;
      results = results;
    }
