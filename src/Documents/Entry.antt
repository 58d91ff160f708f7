-- ===== src/Documents/Entry.antt =====
-- `extract_document` of app/services/documents.py and its two ways in, and the job of
-- app/workers/worker.py.
pub mod Refusal
pub mod Created
pub mod Uploaded
pub mod Inline
pub mod Worked
pub mod Answers
pub mod Answered
use structured_data_extracto.Base.{
  ℕ, String, Bool, true, false, not, ◌&&◌, ◌||◌, Option, none, some, is_some, List, [], ◌∷◌, ◌++◌,
  if◌then◌else◌,
}
use structured_data_extracto.Errors.{Error}
use structured_data_extracto.Exec.{Result, ok, err, Exec, pure, raise, lift, catch, ◌>>=◌, ◌>>◌}
use structured_data_extracto.Pages.Runner.{Strategy, strategy_value}
use structured_data_extracto.Records.{Document, DocumentStatus}
use structured_data_extracto.Documents.World.{Storage, Platform, World, Flow, on_db, on_net, uuid4}
use structured_data_extracto.Documents.Audit.{ExtractResponse, get_by_id}
use structured_data_extracto.Documents.Intake.{
  IntakeResult, prepare_document, load_document, delete_upload,
}
use structured_data_extracto.Documents.Service.{
  AsyncResponse, Response, inline, queued, with_warning, create_document, process_document_pages,
  process_uploaded_inline, process_existing_inline, or_not_found,
}

-- `strategy.value if strategy else None`
abbrev pub strategy_argument : Option Strategy → Option String
strategy_argument none = none
strategy_argument (some s) = some (strategy_value s)

abbrev pub invalid_input : Error
invalid_input = Error.invalid_upload "Provide either a PDF file or document_id, but not both"

-- `job.job_id`
abbrev pub job_id : Option String → Result String
job_id (some id) = ok id
job_id none = err (Error.other "'NoneType' object has no attribute 'job_id'")

-- The content and the file name of an upload, if it has both.
abbrev pub both {ℓ κ} : {A : Type ℓ} {B : Type κ} → Option A → Option B → Option (A × B)
both (some a) (some b) = some (a, b)
both _ _ = none

-- Which input a request has.
pub data Input (Bytes : Type 0) : Type 0 where
  upload : Bytes → String → Input Bytes
  existing : ℕ → Input Bytes
  refused : Input Bytes

unfoldable pub choose_input : {Bytes : Type 0} → Option (Bytes × String) → Option ℕ → Input Bytes
choose_input (some (content, filename)) none = upload content filename
choose_input none (some id) = existing id
choose_input _ _ = refused

-- `has_pool` says whether the service has a job queue, `async_mode` whether the request asks for one.
module _ (P : Platform) (has_pool async_mode : Bool) where
  -- `enqueue_extraction`, and the response to it.
  unfoldable pub enqueue_extraction : ℕ → Option String → Option Strategy → Flow P Response
  enqueue_extraction document_id doc_type strategy = do
    job ← on_net P (P.enqueue document_id doc_type (strategy_argument strategy))
    id ← lift (job_id job)
    pure (queued (record { document_id = document_id; job_id = id; status = "processing" }))

  abbrev pub inline_response : Bool → Flow P ExtractResponse → Flow P Response
  inline_response warn m = do r ← m; pure (inline (with_warning warn r))

  -- The handler that takes an upload back when its row could not be created.
  unfoldable pub discard_upload : Document → Error → Flow P (Unit {0})
  discard_upload document e = do
    on_db P P.session.rollback
    delete_upload P document.file_path
    raise e

  unfoldable pub enqueue_uploaded :
      P.storage.Bytes → String → Option String → Option Strategy → Flow P Response
  enqueue_uploaded content filename doc_type strategy = do
    intake ← prepare_document P content filename DocumentStatus.processing
    catch (create_document P intake.document) (discard_upload intake.document)
    catch (enqueue_extraction intake.document.id doc_type strategy) (λ e.
        inline_response true
          (process_document_pages P intake.document intake.pages_text doc_type strategy))

  -- `_extract_uploaded_document`
  unfoldable pub extract_uploaded_document :
      P.storage.Bytes → String → Option String → Option Strategy → Flow P Response
  extract_uploaded_document content filename doc_type strategy =
      if not async_mode || not has_pool
      then inline_response async_mode (process_uploaded_inline P content filename doc_type strategy)
      else enqueue_uploaded content filename doc_type strategy

  unfoldable pub enqueue_existing : ℕ → Option String → Option Strategy → Flow P Response
  enqueue_existing document_id doc_type strategy = do
    found ← get_by_id P document_id
    _ ← or_not_found P document_id found
    enqueue_extraction document_id doc_type strategy

  -- `_extract_existing_document`
  unfoldable pub extract_existing_document : ℕ → Option String → Option Strategy → Flow P Response
  extract_existing_document document_id doc_type strategy =
      if async_mode && has_pool
      then enqueue_existing document_id doc_type strategy
      else inline_response async_mode (process_existing_inline P document_id doc_type strategy)

  unfoldable pub extract_input :
      Input P.storage.Bytes → Option String → Option Strategy → Flow P Response
  extract_input (upload content filename) doc_type strategy =
      extract_uploaded_document content filename doc_type strategy
  extract_input (existing id) doc_type strategy = extract_existing_document id doc_type strategy
  extract_input refused doc_type strategy = raise invalid_input

  -- `extract_document`
  unfoldable pub extract_document :
      Option P.storage.Bytes
      → Option String
      → Option ℕ
      → Option String
      → Option Strategy
      → Flow P Response
  extract_document content filename document_id doc_type strategy =
      extract_input (choose_input (both content filename) document_id) doc_type strategy

-- `extraction_job` of the worker, which logs what is raised and raises it again. The text of the strategy
-- is one that `enqueue_extraction` has written, and stands for the strategy that it names.
unfoldable pub extraction_job :
    (P : Platform) → ℕ → Option String → Option Strategy → Flow P (Unit {0})
extraction_job P document_id doc_type strategy = do
  _ ← process_existing_inline P document_id doc_type strategy
  pure tt
