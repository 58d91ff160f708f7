-- ===== src/Documents/Service/Atomic.antt =====
-- What the recorders of app/services/documents.py store: all of an outcome, or nothing.
use structured_data_extracto.Base.{ℕ, String, ◌≡◌, sym, subst}
use structured_data_extracto.Errors.{ExtractionFailure}
use structured_data_extracto.Exec.{pure, ◌>>=◌, ◌>>◌}
use structured_data_extracto.Pages.Runner.{strategy_value}
use structured_data_extracto.Processor.{Resolved, ProcessingResult}
use structured_data_extracto.Records.{Document, DocumentStatus}
use structured_data_extracto.Records.Store.{SessionLaws, Tables, with_document}
use structured_data_extracto.Documents.World.{Platform, World, Flow}
use structured_data_extracto.Documents.Sat.{Sat, At, Unstored, bind-Sat, weaken-Sat, commit-Sat}
use structured_data_extracto.Documents.Audit.{
  ExtractResponse, failure_row, success_row, set_status, record_failure, record_success,
  to_response,
}
use structured_data_extracto.Documents.Audit.Stored.{set_status-Sat}
use structured_data_extracto.Documents.Audit.Recorded.{
  recorded, next_after, record_success-Sat, record_failure-Sat,
}
use structured_data_extracto.Documents.Service.{
  commit, document_status_for, record_processing_success, record_processing_failure,
}

-- The tables after a success: the document with its status, the extraction, the usage rows.
abbrev pub success_tables : String → Document → ProcessingResult → ℕ → Tables → Tables
success_tables model d p n t =
    recorded model d.id (success_row model d.id p.pipeline n) p.classifier_usage_events
      (with_document (record d { status = document_status_for p }) t)

-- The tables after a failure: the failed document, the failed extraction, the usage rows.
abbrev pub failure_tables :
    String → Document → Resolved → ExtractionFailure → ℕ → ℕ → Tables → Tables
failure_tables model d r e duration_ms n t =
    recorded model d.id
      (failure_row model d.id r.doc_type (strategy_value r.strategy) duration_ms e n) r.usage_events
      (with_document (record d { status = DocumentStatus.failed }) t)

module _ {P : Platform} (L : SessionLaws P.session) (T S : Tables) (n : ℕ) (d : Document)
    (w : World P) (h : At {P = P} T S n w) where
  -- With a lawful session, `_record_processing_success` returns the response of the new extraction and
  -- the committed tables are the ones it found in the session, with the document's new status, the
  -- extraction's row and its usage rows, one for each event of the classifier and one for the
  -- extraction; or it raises and nothing is committed.
  pub record_processing_success-IsStored :
      (p : ProcessingResult)
      → Sat
          (λ a w'.
            (a ≡ to_response P n d.id p.pipeline)
            × (P.session.stored w'.db ≡ success_tables P.engine.model d p n T))
          (Unstored S)
          (record_processing_success P d p w)
  unfolding record_processing_success
  record_processing_success-IsStored p =
      let d' : Document = record d { status = document_status_for p } in
      let rows = success_tables P.engine.model d p n T in
      let x = success_row P.engine.model d.id p.pipeline n in
      let m : ℕ = next_after P.engine.model d.id x p.classifier_usage_events in
      let R : ExtractResponse → World P → Type 0 =
        λ a w'. (a ≡ to_response P n d.id p.pipeline) × (P.session.stored w'.db ≡ rows) in
      let Q : ExtractResponse → World P → Type 0 =
        λ a w'. (a ≡ to_response P n d.id p.pipeline) × At {P = P} rows S m w' in
      bind-Sat (λ a w'. (a ≡ d') × At {P = P} (with_document d' T) S n w') R (Unstored S)
        (set_status P d (document_status_for p))
        (λ y. record_success P y p.pipeline p.classifier_usage_events >>= (λ a. commit P >> pure a))
        w (set_status-Sat L S T n d (document_status_for p) w h)
        (λ y w1 (e, h1).
          subst
            (λ y. Sat R (Unstored S) (
              (record_success P y p.pipeline p.classifier_usage_events
                  >>= (λ a. commit P >> pure a))
                w1))
            (sym e)
            (bind-Sat Q R (Unstored S) (record_success P d' p.pipeline p.classifier_usage_events)
              (λ a. commit P >> pure a) w1
              (record_success-Sat L _ S d' p.classifier_usage_events p.pipeline n w1 h1)
              (λ a w2 (q, h2).
                bind-Sat (λ _. At {P = P} rows rows m) R (Unstored S) (commit P) (λ _. pure a) w2
                  (commit-Sat L _ S m w2 h2) (λ _ w3 h3. (q, h3.1)))))

  -- With a lawful session, when `_record_processing_failure` returns, the committed tables are the ones
  -- it found in the session, with the document marked failed, one failed extraction with the tokens of
  -- the failure, and its usage rows; when it raises, nothing is committed.
  pub record_processing_failure-IsStored :
      (r : Resolved) (e : ExtractionFailure) (started_at : ℕ)
      → Sat
          (λ _ w'. (t : ℕ) × (P.session.stored w'.db ≡ failure_tables P.engine.model d r e t n T))
          (Unstored S)
          (record_processing_failure P d r e started_at w)
  unfolding record_processing_failure
  record_processing_failure-IsStored r e started_at =
      let d' : Document = record d { status = DocumentStatus.failed } in
      let R : Unit {0} → World P → Type 0 =
        λ _ w'. (t : ℕ) × (P.session.stored w'.db ≡ failure_tables P.engine.model d r e t n T) in
      let m : ℕ → ℕ = λ t.
        next_after P.engine.model d.id
          (failure_row P.engine.model d.id r.doc_type (strategy_value r.strategy) t e n)
          r.usage_events in
      let Q : Unit {0} → World P → Type 0 =
        λ _ w'. (t : ℕ) × At {P = P} (failure_tables P.engine.model d r e t n T) S (m t) w' in
      let rest : Document → Flow P (Unit {0}) = λ y.
        record_failure P y r.doc_type (strategy_value r.strategy) started_at e r.usage_events
        >> commit P in
      bind-Sat (λ a w'. (a ≡ d') × At {P = P} (with_document d' T) S n w') R (Unstored S)
        (set_status P d DocumentStatus.failed) rest w
        (set_status-Sat L S T n d DocumentStatus.failed w h)
        (λ y w1 (p, h1).
          subst (λ y. Sat R (Unstored S) (rest y w1)) (sym p)
            (bind-Sat Q R (Unstored S)
              (record_failure P d' r.doc_type (strategy_value r.strategy) started_at e
                r.usage_events)
              (λ _. commit P) w1
              (record_failure-Sat L _ S d' r.usage_events r.doc_type _ started_at e n w1 h1)
              (λ _ w2 (t, h2).
                let rows = failure_tables P.engine.model d r e t n T in
                weaken-Sat (λ _. At {P = P} rows rows (m t)) R (Unstored S) (commit P w2)
                  (commit-Sat L _ S (m t) w2 h2) (λ _ w3 h3. (t, h3.1)))))
