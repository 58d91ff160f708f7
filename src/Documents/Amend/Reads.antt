-- ===== src/Documents/Amend/Reads.antt =====
-- What is read of a document after its processing was recorded, in app/services/documents.py.
use structured_data_extracto.Base.{
  ℕ, String, Dict, Option, true, none, some, List, [], ◌∷◌, ◌++◌, ◌≡◌, ◌∙◌, refl, ap, subst, arith,
  eqb, eqb_iff, elem, Bool-cases, Option-cases, inl, inr,
}
use structured_data_extracto.Exec.{ok}
use structured_data_extracto.Value.{Value}
use structured_data_extracto.Validation.{ExtractionStatus}
use structured_data_extracto.Pages.Runner.{StrategyResult, strategy_value}
use structured_data_extracto.Processor.Pipeline.{PipelineResult}
use structured_data_extracto.Processor.{ProcessingResult}
use structured_data_extracto.Records.{
  Document, DocumentStatus, Extraction, AuditOutput, plain, merged,
}
use structured_data_extracto.Records.Store.{SessionLaws, Tables, find_extraction, find_document}
use structured_data_extracto.Documents.World.{Platform, World}
use structured_data_extracto.Documents.Sat.{Sat, Unstored}
use structured_data_extracto.Documents.Audit.{
  ExtractResponse, audit_output, status_value, success_row, get_by_id, to_response,
}
use structured_data_extracto.Documents.Service.{
  final_status, document_status_for, record_processing_success,
}
use structured_data_extracto.Documents.Service.Atomic.{
  success_tables, record_processing_success-IsStored,
}
use structured_data_extracto.Documents.Service.Final.{find_document-save_document}
use structured_data_extracto.Documents.Amend.{
  ExtractionResponse, ExtractionAuditResponse, DocumentResponse, to_extraction_response,
  to_extraction_audit_response, require_extraction, get_extraction, get_extraction_audit,
  document_response, extraction_ids_of, get_document,
}

find_extraction-append :
    (x : Extraction) (xs : List Extraction)
    → find_extraction x.id xs ≡ none
    → find_extraction x.id (xs ++ x ∷ []) ≡ some x
unfolding find_extraction
find_extraction-append x [] e = rw ((eqb_iff x.id x.id).1 refl) refl
find_extraction-append x (y ∷ ys) e = ground (arith, find_extraction-append x ys)

extraction_ids_of-append :
    (x : Extraction) (xs : List Extraction)
    → elem x.id (extraction_ids_of x.document_id (xs ++ x ∷ [])) ≡ true
unfolding extraction_ids_of
extraction_ids_of-append x [] =
    ground (arith, eqb_iff x.document_id x.document_id, eqb_iff x.id x.id)
extraction_ids_of-append x (y ∷ ys) = elim (Bool-cases (eqb y.document_id x.document_id)) [
  | inl e ↦ rw e (ground (arith, extraction_ids_of-append x ys))
  | inr e ↦ rw e (extraction_ids_of-append x ys)
]

-- The response says what the run of the pipeline for a document has produced.
pub record Tells (model : String) (document_id id : ℕ) (p : PipelineResult) (r : ExtractionResponse)
    : Type 0 where
  pub extraction_id_of : r.extraction_id ≡ id
  pub document_id_of : r.document_id ≡ document_id
  pub doc_type_of : r.doc_type ≡ p.doc_type
  pub status_of : r.status ≡ status_value p.validation.status
  pub data_of : r.extracted_data ≡ p.validation.extracted_data
  pub confidence_of : r.confidence_map ≡ p.confidence_map
  pub warnings_of : r.warnings ≡ p.warnings
  pub model_of : r.model_used ≡ model
  pub input_of : r.input_tokens ≡ p.extraction.input_tokens
  pub output_of : r.output_tokens ≡ p.extraction.output_tokens
  pub duration_of : r.extraction_duration_ms ≡ p.duration_ms

abbrev ReturnedBy : Option (Dict (List ℕ)) → Dict Value → Option AuditOutput → Type 0
ReturnedBy none raw out = out ≡ some (plain raw)
ReturnedBy (some sources) raw out = out ≡ some (merged raw sources)

-- A document has failed if its extraction has, and is completed otherwise.
abbrev EndsAs : ExtractionStatus → DocumentStatus → Type 0
EndsAs ExtractionStatus.failed st = st ≡ DocumentStatus.failed
EndsAs _ st = st ≡ DocumentStatus.completed

document_status_for-EndsAs :
    (p : ProcessingResult) → EndsAs p.pipeline.validation.status (document_status_for p)
unfolding document_status_for
document_status_for-EndsAs p = go p.pipeline.validation.status
  where
    go : (st : ExtractionStatus) → EndsAs st (final_status st)
    go ExtractionStatus.pending = refl
    go ExtractionStatus.processing = refl
    go ExtractionStatus.partial = refl
    go ExtractionStatus.completed = refl
    go ExtractionStatus.failed = refl

audit_output-ReturnedBy :
    (x : StrategyResult) → ReturnedBy x.field_source_pages x.raw_output (some (audit_output x))
unfolding audit_output
audit_output-ReturnedBy x = elim (Option-cases x.field_source_pages) [
  | inl e ↦ rw e refl
  | inr (a, e) ↦ rw e refl
]

row-Tells :
    (model : String) (document_id id : ℕ) (p : ProcessingResult)
    → Tells model document_id id p.pipeline
        (to_extraction_response (success_row model document_id p.pipeline id))
row-Tells model document_id id p = record {
  extraction_id_of = refl;
  document_id_of = refl;
  doc_type_of = refl;
  status_of = refl;
  data_of = refl;
  confidence_of = refl;
  warnings_of = refl;
  model_of = refl;
  input_of = refl;
  output_of = refl;
  duration_of = refl;
}

-- The audit's response adds what the provider has returned and where it came from.
pub record TellsOrigin (x : StrategyResult) (r : ExtractionAuditResponse) : Type 0 where
  pub returned_of : ReturnedBy x.field_source_pages x.raw_output r.raw_tool_output
  pub strategy_of : r.strategy ≡ strategy_value x.strategy
  pub pages_of : r.source_pages ≡ some x.source_pages

module _ (P : Platform) (d : Document) (p : ProcessingResult) (n : ℕ) (w : World P) where
  -- What the service reads of a document whose success was recorded.
  pub record ReadsBack : Type 0 where
    pub extraction :
        (r : ExtractionResponse) × (get_extraction P n w ≡ (ok r, w))
        × Tells P.engine.model d.id n p.pipeline r
    pub audit :
        (r : ExtractionAuditResponse) × (get_extraction_audit P n w ≡ (ok r, w))
        × Tells P.engine.model d.id n p.pipeline r.extraction
        × TellsOrigin p.pipeline.extraction r
    pub document :
        (r : DocumentResponse) × (get_document P d.id w ≡ (ok r, w))
        × (r.filename ≡ d.filename)
        × (r.page_count ≡ d.page_count)
        × EndsAs p.pipeline.validation.status r.status
        × (elem n r.extraction_ids ≡ true)

module _ (P : Platform) (d : Document) (p : ProcessingResult) (n : ℕ) (T : Tables)
    (w : World P) where
  success_tables-ReadsBack :
      P.session.rows w.db ≡ success_tables P.engine.model d p n T
      → find_extraction n T.extractions ≡ none
      → ReadsBack P d p n w
  unfolding get_extraction get_extraction_audit require_extraction get_document get_by_id
  success_tables-ReadsBack e fresh =
      let x = success_row P.engine.model d.id p.pipeline n in
      let d' : Document = record d { status = document_status_for p } in
      let found : find_extraction n (P.session.rows w.db).extractions ≡ some x =
        ap (λ t. find_extraction n t.extractions) e
        ∙ find_extraction-append x T.extractions fresh in
      let there : find_document d.id (P.session.rows w.db).documents ≡ some d' =
        ap (λ t. find_document d.id t.documents) e ∙ find_document-save_document d' T.documents in
      record {
        extraction = (to_extraction_response x, rw found refl, row-Tells P.engine.model d.id n p);
        audit = (
          to_extraction_audit_response x,
          rw found refl,
          row-Tells P.engine.model d.id n p,
          record {
            returned_of = audit_output-ReturnedBy p.pipeline.extraction;
            strategy_of = refl;
            pages_of = refl;
          },
        );
        document = (
          document_response P d' (P.session.rows w.db).extractions,
          rw there refl,
          refl,
          refl,
          document_status_for-EndsAs p,
          ap (λ t. elem n (extraction_ids_of d.id t.extractions)) e
              ∙ extraction_ids_of-append x T.extractions,
        );
      }

-- With a lawful session: once `_record_processing_success` has returned a response under a new
-- identifier, any session that has the committed tables reads the extraction under that identifier with
-- the type, the status, the data, the scores, the warnings, the model, the tokens and the duration of the
-- run; its audit adds what the provider returned, the strategy and the pages; and the document is read
-- with its name, its page count and the status that follows, and lists the extraction.
pub record_processing_success-ReadsBack :
    {P : Platform} (L : SessionLaws P.session) (d : Document) (p : ProcessingResult)
    (a : ExtractResponse) (w v : World P)
    → find_extraction w.next_id (P.session.rows w.db).extractions ≡ none
    → (record_processing_success P d p w).0 ≡ ok a
    → P.session.rows v.db ≡ P.session.stored (record_processing_success P d p w).1.db
    → (a.extraction_id ≡ w.next_id) × ReadsBack P d p w.next_id v
unfolding to_response
record_processing_success-ReadsBack {P = P} L d p a w v fresh e same =
    let T = P.session.rows w.db in
    let S = P.session.stored w.db in
    let n = w.next_id in
    let out = record_processing_success P d p w in
    let Q : ExtractResponse → World P → Type 0 = λ a w'.
      (a ≡ to_response P n d.id p.pipeline)
      × (P.session.stored w'.db ≡ success_tables P.engine.model d p n T) in
    let (says, stored) =
      subst (λ r. Sat Q (Unstored S) (r, out.1)) e
        (record_processing_success-IsStored L T S n d w (refl, refl, refl) p) in
    (ap (λ r. r.extraction_id) says, success_tables-ReadsBack P d p n T v (same ∙ stored) fresh)
