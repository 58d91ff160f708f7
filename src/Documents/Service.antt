-- ===== src/Documents/Service.antt =====
-- The extraction flows of `DocumentService` in app/services/documents.py.
pub mod Atomic
pub mod Settled
pub mod Status
pub mod Final
pub mod Stuck
pub mod Undo
use structured_data_extracto.Base.{
  ℕ, String, Bool, true, false, not, ◌&&◌, Option, none, some, is_some, List, [], ◌∷◌, ◌++◌,
  if◌then◌else◌,
}
use structured_data_extracto.Errors.{Error, ExtractionFailure}
use structured_data_extracto.Exec.{Result, ok, err, Exec, pure, raise, lift, catch, ◌>>=◌, ◌>>◌}
use structured_data_extracto.Pages.Runner.{Strategy, strategy_value}
use structured_data_extracto.Validation.{ExtractionStatus, ValidationResult}
use structured_data_extracto.Processor.{
  Resolved, ProcessingResult, Processed, processed, processing_error, raised, Engine, process_pages,
}
use structured_data_extracto.Records.{Document, DocumentStatus}
use structured_data_extracto.Records.Store.{Session}
use structured_data_extracto.Documents.World.{Storage, Platform, World, Flow, on_db, on_net, uuid4}
use structured_data_extracto.Documents.Audit.{
  ExtractResponse, create_row, get_by_id, set_status, record_failure, record_success,
}
use structured_data_extracto.Documents.Intake.{
  IntakeResult, prepare_document, load_document, delete_upload,
}

-- `REDIS_FALLBACK_WARNING` of app/jobs/extraction_queue.py
abbrev pub redis_fallback_warning : String
redis_fallback_warning = "Redis unavailable, processed inline"

pub record AsyncResponse : Type 0 where
  pub document_id : ℕ
  pub job_id : String
  pub status : String

-- `ExtractResponse | AsyncExtractionResponse`
pub data Response : Type 0 where
  inline : ExtractResponse → Response
  queued : AsyncResponse → Response

-- `_document_status_for`
abbrev pub final_status : ExtractionStatus → DocumentStatus
final_status ExtractionStatus.failed = DocumentStatus.failed
final_status _ = DocumentStatus.completed

unfoldable pub document_status_for : ProcessingResult → DocumentStatus
document_status_for p = final_status p.pipeline.validation.status

abbrev pub with_warning : Bool → ExtractResponse → ExtractResponse
with_warning true r = record r { warnings = r.warnings ++ redis_fallback_warning ∷ [] }
with_warning false r = r

module _ (P : Platform) where
  abbrev pub commit : Flow P (Unit {0})
  commit = on_db P P.session.commit

  -- `_create_document`
  unfoldable pub create_document : Document → Flow P (Unit {0})
  create_document document = do create_row P document; commit; on_db P P.session.refresh

  -- `_set_document_status`
  unfoldable pub set_document_status : Document → DocumentStatus → Flow P Document
  set_document_status document status = do
    document' ← set_status P document status
    commit
    pure document'

  -- `_record_processing_success`
  unfoldable pub record_processing_success : Document → ProcessingResult → Flow P ExtractResponse
  record_processing_success document p = do
    document' ← set_status P document (document_status_for p)
    response ← record_success P document' p.pipeline p.classifier_usage_events
    commit
    pure response

  -- `_record_processing_failure`
  unfoldable pub record_processing_failure :
      Document → Resolved → ExtractionFailure → ℕ → Flow P (Unit {0})
  record_processing_failure document r e started_at = do
    document' ← set_status P document DocumentStatus.failed
    record_failure P document' r.doc_type (strategy_value r.strategy) started_at e r.usage_events
    commit

  -- What follows on the processor's outcome in `_process_document_pages`.
  unfoldable pub settle : Document → ℕ → Processed → Flow P ExtractResponse
  settle document started_at (processed p) = record_processing_success document p
  settle document started_at (processing_error r e) = do
    record_processing_failure document r e started_at
    raise (Error.extraction e)
  settle document started_at (raised e) = raise e

  -- `_process_document_pages`
  unfoldable pub process_document_pages :
      Document → List String → Option String → Option Strategy → Flow P ExtractResponse
  process_document_pages document pages doc_type strategy w =
      let (started_at, net) = P.engine.now w.net in
      let (outcome, net') =
        process_pages P.engine pages document.page_count doc_type strategy net in
      settle document started_at outcome (record w { net = net' })

  -- The handler of `_process_uploaded_inline`.
  unfoldable pub undo_upload : Document → Bool → Error → Flow P ExtractResponse
  undo_upload document document_created e = do
    on_db P P.session.rollback
    (if document_created then pure tt else delete_upload P document.file_path)
    raise e

  -- The rest of its `try`, once the document is created.
  unfoldable pub process_created :
      IntakeResult → Option String → Option Strategy → Flow P ExtractResponse
  process_created intake doc_type strategy = do
    document ← set_document_status intake.document DocumentStatus.processing
    process_document_pages document intake.pages_text doc_type strategy

  abbrev pub created_or_undone :
      IntakeResult → Option String → Option Strategy → Result (Unit {0}) → Flow P ExtractResponse
  created_or_undone intake doc_type strategy (err e) = undo_upload intake.document false e
  created_or_undone intake doc_type strategy (ok _) =
      catch (process_created intake doc_type strategy) (undo_upload intake.document true)

  -- `_process_uploaded_inline`
  unfoldable pub process_uploaded_inline :
      P.storage.Bytes → String → Option String → Option Strategy → Flow P ExtractResponse
  process_uploaded_inline content filename doc_type strategy = do
    intake ← prepare_document P content filename DocumentStatus.uploaded
    (λ w.
        let (r, w') = create_document intake.document w in
        created_or_undone intake doc_type strategy r w')

  abbrev pub or_not_found : ℕ → Option Document → Flow P Document
  or_not_found id none = raise (Error.document_not_found id)
  or_not_found id (some d) = pure d

  -- The handler of `_process_existing_inline`.
  unfoldable pub mark_failed : Document → Error → Flow P ExtractResponse
  mark_failed document e = do _ ← set_status P document DocumentStatus.failed; commit; raise e

  -- `_process_existing_inline`, from the document that was found.
  unfoldable pub process_found : Option String → Option Strategy → Document → Flow P ExtractResponse
  process_found doc_type strategy found = do
    document ← set_document_status found DocumentStatus.processing
    catch
        (do
          pages ← load_document P document
          process_document_pages document pages doc_type strategy)
        (mark_failed document)

  unfoldable pub process_existing_inline :
      ℕ → Option String → Option Strategy → Flow P ExtractResponse
  process_existing_inline document_id doc_type strategy = do
    found ← get_by_id P document_id
    document ← or_not_found document_id found
    process_found doc_type strategy document
