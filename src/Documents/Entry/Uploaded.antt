-- ===== src/Documents/Entry/Uploaded.antt =====
-- The queued path of `_extract_uploaded_document` in app/services/documents.py, over a lawful session.

use structured_data_extracto.Base.{
  ℕ, ◌+◌, String, true, Option, none, some, List, ap, ◌≡◌, ◌⊎◌, inl, inr,
}
use structured_data_extracto.Errors.{Error, ExtractionFailure}
use structured_data_extracto.Exec.{Result, ok, err, pure, catch, lift, ◌>>=◌, ◌>>◌}
use structured_data_extracto.Pages.Runner.{Strategy}
use structured_data_extracto.Processor.{
  Resolved, ProcessingResult, Processed, processed, processing_error, raised,
}
use structured_data_extracto.Records.{Document, DocumentStatus}
use structured_data_extracto.Records.Store.{SessionLaws, Tables, with_document}
use structured_data_extracto.Documents.World.{Platform, World, Flow}
use structured_data_extracto.Documents.Sat.{
  Sat, At, Unstored, bind-Sat, weaken-Sat, relax-Sat, catch-Sat,
}
use structured_data_extracto.Documents.Audit.{ExtractResponse, to_response}
use structured_data_extracto.Documents.Intake.{IntakeResult, prepare_document}
use structured_data_extracto.Documents.Service.{
  Response, inline, queued, with_warning, create_document, process_document_pages,
}
use structured_data_extracto.Documents.Service.Atomic.{success_tables, failure_tables}
use structured_data_extracto.Documents.Service.Settled.{Settled, process_document_pages-IsSettled}
use structured_data_extracto.Documents.Entry.{
  strategy_argument, job_id, enqueue_extraction, inline_response, discard_upload, enqueue_uploaded,
}
use structured_data_extracto.Documents.Entry.Created.{
  IsNew, Prepared, Unchanged, prepare_document-Sat, Created, create_document-Sat,
  discard_upload-Sat,
}

module _ {P : Platform} (L : SessionLaws P.session) (T S : Tables) (n : ℕ) where
  -- What a response is of, and what is committed when it is given.
  abbrev pub Answered : String → Response → World P → Type 0
  Answered filename (queued a) w =
      (a.document_id ≡ n)
      × ((d : Document) × IsNew DocumentStatus.processing n filename d
          × At {P = P} (with_document d T) (with_document d T) (n + 1) w)
  Answered filename (inline r) w =
      (d : Document) × IsNew DocumentStatus.processing n filename d
      × ((p : ProcessingResult) × (r ≡ with_warning true (to_response P (n + 1) d.id p.pipeline))
          × (P.session.stored w.db ≡ success_tables P.engine.model d p (n + 1) (with_document d T)))

  abbrev IsFailure : Document → World P → Type 0
  IsFailure d w =
      (r : Resolved) × (e : ExtractionFailure) × (t : ℕ) × (P.session.stored w.db
        ≡ failure_tables P.engine.model d r e t (n + 1) (with_document d T))

  -- What is committed when it raises: nothing, or the new document, or that with a failure.
  abbrev pub Raises : String → Error → World P → Type 0
  Raises filename e w =
      (P.session.stored w.db ≡ S)
      ⊎ ((d : Document) × IsNew DocumentStatus.processing n filename d
          × ((P.session.stored w.db ≡ with_document d T) ⊎ IsFailure d w))

  module _ (filename : String) (d : Document)
      (new : IsNew DocumentStatus.processing n filename d) where
    abbrev Raised : Error → World P → Type 0
    Raised = Raises filename

    Created-Raised : (e : Error) (w : World P) → Created L T S n d w → Raised e w
    Created-Raised e w (inl h) = inl h
    Created-Raised e w (inr h) = inr (d, new, inl h)

    abbrev Processes : ExtractResponse → World P → Type 0
    Processes r w =
        (p : ProcessingResult) × (r ≡ to_response P (n + 1) d.id p.pipeline)
        × (P.session.stored w.db ≡ success_tables P.engine.model d p (n + 1) (with_document d T))

    Settled-Sat :
        (o : Processed) (out : Result ExtractResponse × World P)
        → Settled L (with_document d T) (with_document d T) (n + 1) d o out
        → Sat Processes Raised out
    Settled-Sat (processed p) out h =
        weaken-Sat _ Processes Raised out
          (relax-Sat _ (Unstored (with_document d T)) Raised out h (λ _ _ s. inr (d, new, inl s.0)))
          (λ r w (e, s). (p, e, s))
    Settled-Sat (processing_error r e) out h =
        weaken-Sat (λ _ _. ⊥) Processes Raised out
          (relax-Sat (λ _ _. ⊥) _ Raised out h
            (λ x w q. elim q [
              | inl s ↦ inr (d, new, inl s.0)
              | inr (_, (t, s)) ↦ inr (d, new, inr (r, e, t, s))
            ]))
          (λ _ _ z. absurd z)
    Settled-Sat (raised e) out h =
        weaken-Sat (λ _ _. ⊥) Processes Raised out
          (relax-Sat (λ _ _. ⊥) _ Raised out h (λ _ _ (_, s). inr (d, new, inl s)))
          (λ _ _ z. absurd z)

    abbrev Here : World P → Type 0
    Here = At {P = P} (with_document d T) (with_document d T) (n + 1)

    create-Sat :
        (w : World P)
        → At {P = P} T S (n + 1) w
        → Sat (λ _. Here) Raised (catch (create_document P d) (discard_upload P true true d) w)
    create-Sat w h =
        catch-Sat (λ _. Here) (λ _. Created L T S n d) Raised (create_document P d)
          (discard_upload P true true d) w (create_document-Sat L T S n d (n + 1) w h)
          (λ e w1 c.
            weaken-Sat (λ _ _. ⊥) (λ _. Here) Raised (discard_upload P true true d e w1)
              (relax-Sat (λ _ _. ⊥) (λ _. Created L T S n d) Raised
                (discard_upload P true true d e w1) (discard_upload-Sat L T S n d e w1 c)
                Created-Raised)
              (λ _ _ z. absurd z))

    module _ (doc_type : Option String) (strategy : Option Strategy) where
      told-Sat :
          (r : Result (Option String)) (w : World P)
          → Here w
          → Sat
              (Answered filename)
              (λ _. Here)
              (((λ (_ : World P). (r, w)) >>= (λ job. lift (job_id job) >>= (λ j.
                  pure
                    (queued (record { document_id = d.id; job_id = j; status = "processing" })))))
                w)
      told-Sat (err e) w h = h
      told-Sat (ok none) w h = h
      told-Sat (ok (some j)) w h = (new.0, (d, new, h))

      enqueue_extraction-Sat :
          (w : World P)
          → Here w
          → Sat
              (Answered filename)
              (λ _. Here)
              (enqueue_extraction P true true d.id doc_type strategy w)
      unfolding enqueue_extraction
      enqueue_extraction-Sat w h =
          told-Sat (P.enqueue d.id doc_type (strategy_argument strategy) w.net).0 _ h

      fallback-Sat :
          (pages : List String) (w : World P)
          → Here w
          → Sat (Answered filename) Raised (
              inline_response P true true true
                (process_document_pages P d pages doc_type strategy)
                w)
      fallback-Sat pages w h =
          bind-Sat Processes (Answered filename) Raised
            (process_document_pages P d pages doc_type strategy)
            (λ r. pure (inline (with_warning true r))) w
            (Settled-Sat _ _
              (process_document_pages-IsSettled L _ _ (n + 1) d pages doc_type strategy w h))
            (λ r w1 (p, e, s). (d, new, (p, ap (with_warning true) e, s)))

  -- With a lawful session, when an asynchronous upload is answered with a job, the committed tables are by
  -- then the session's with the new document, which has the identifier of the answer and the status
  -- processing. When it is answered with an extraction instead, the answer has the fallback warning, and
  -- the document is committed with the extraction and its usage rows. When it raises, what is
  -- committed is as it was before, or has the new document, or has it with a failed extraction.
  pub enqueue_uploaded-IsStored :
      (content : P.storage.Bytes) (filename : String) (doc_type : Option String)
      (strategy : Option Strategy) (w : World P)
      → At {P = P} T S n w
      → Sat
          (Answered filename)
          (Raises filename)
          (enqueue_uploaded P true true content filename doc_type strategy w)
  unfolding enqueue_uploaded
  enqueue_uploaded-IsStored content filename doc_type strategy w h =
      let Q = Answered filename in
      let F = Raises filename in
      let fallback : IntakeResult → Flow P Response = λ i.
        inline_response P true true true
          (process_document_pages P i.document i.pages_text doc_type strategy) in
      let enqueue : IntakeResult → Flow P Response = λ i.
        catch (enqueue_extraction P true true i.document.id doc_type strategy) (λ _. fallback i) in
      let create : IntakeResult → Flow P (Unit {0}) =
        λ i. catch (create_document P i.document) (discard_upload P true true i.document) in
      bind-Sat (Prepared L T S n DocumentStatus.processing filename) Q F
        (prepare_document P content filename DocumentStatus.processing) (λ i. create i >> enqueue i)
        w
        (relax-Sat {A = IntakeResult} (Prepared L T S n DocumentStatus.processing filename)
          (Unchanged S) F _
          (prepare_document-Sat L T S n DocumentStatus.processing filename content w h)
          (λ _ _ s. inl s))
        (λ i w1 (new, h1).
          let d = i.document in
          bind-Sat (λ _. Here filename d new) Q F (create i) (λ _. enqueue i) w1
            (create-Sat filename d new w1 h1)
            (λ _ w2 h2.
              catch-Sat Q (λ _. Here filename d new) F
                (enqueue_extraction P true true d.id doc_type strategy) (λ _. fallback i) w2
                (enqueue_extraction-Sat filename d new doc_type strategy w2 h2)
                (λ _ w3 h3. fallback-Sat filename d new doc_type strategy i.pages_text w3 h3)))
