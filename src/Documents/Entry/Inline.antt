-- ===== src/Documents/Entry/Inline.antt =====
-- `_process_uploaded_inline` of app/services/documents.py, over a lawful session.
use structured_data_extracto.Base.{
  ℕ, ◌+◌, String, Bool, true, false, Option, ◌≡◌, ◌⊎◌, inl, inr, sym, subst, if◌then◌else◌,
}
use structured_data_extracto.Errors.{Error, ExtractionFailure}
use structured_data_extracto.Exec.{Result, ok, err, pure, raise, ◌>>◌}
use structured_data_extracto.Pages.Runner.{Strategy}
use structured_data_extracto.Processor.{
  Resolved, ProcessingResult, Processed, processed, processing_error, raised,
}
use structured_data_extracto.Records.{Document, DocumentStatus}
use structured_data_extracto.Records.Store.{SessionLaws, Tables, with_document}
use structured_data_extracto.Documents.World.{Platform, World, Flow, on_db}
use structured_data_extracto.Documents.Sat.{
  Sat, At, Unstored, bind-Sat, weaken-Sat, relax-Sat, catch-Sat,
}
use structured_data_extracto.Documents.Audit.{ExtractResponse, to_response}
use structured_data_extracto.Documents.Intake.{IntakeResult, prepare_document, delete_upload}
use structured_data_extracto.Documents.Service.{
  create_document, set_document_status, process_document_pages, undo_upload, process_created,
  created_or_undone, process_uploaded_inline,
}
use structured_data_extracto.Documents.Service.Undo.{delete_upload_ok}
use structured_data_extracto.Documents.Service.Status.{changed-Sat}
use structured_data_extracto.Documents.Service.Atomic.{success_tables, failure_tables}
use structured_data_extracto.Documents.Service.Settled.{Settled, process_document_pages-IsSettled}
use structured_data_extracto.Documents.Entry.Created.{
  IsNew, Prepared, Unchanged, prepare_document-Sat, Created, create_document-Sat,
}

abbrev pub working : Document → Document
working d = record d { status = DocumentStatus.processing }

-- The tables with the new document, and then with its second status.
abbrev pub working_tables : Document → Tables → Tables
working_tables d t = with_document (working d) (with_document d t)

module _ (P : Platform) (T S : Tables) (n : ℕ) (filename : String) where
  abbrev IsUploaded : Document → Type 0
  IsUploaded = IsNew DocumentStatus.uploaded n filename

  abbrev pub SucceedsFor : Document → ExtractResponse → World P → Type 0
  SucceedsFor d r w =
      (p : ProcessingResult) × (r ≡ to_response P (n + 1) d.id p.pipeline)
      × (P.session.stored w.db
          ≡ success_tables P.engine.model (working d) p (n + 1) (working_tables d T))

  -- The response is of the new document, which is committed with the extraction and its usage rows.
  abbrev pub Succeeds : ExtractResponse → World P → Type 0
  Succeeds r w = (d : Document) × IsUploaded d × SucceedsFor d r w

  -- The new document is committed as uploaded, as processing, or as failed with its extraction.
  abbrev Keeps : Document → Tables → Type 0
  Keeps d stored =
      (stored ≡ with_document d T)
      ⊎ ((stored ≡ working_tables d T)
          ⊎ ((r : Resolved) × (e : ExtractionFailure) × (t : ℕ) × (stored
                ≡ failure_tables P.engine.model (working d) r e t (n + 1) (working_tables d T))))

  abbrev Leaves : Tables → Type 0
  Leaves stored = (stored ≡ S) ⊎ ((d : Document) × IsUploaded d × Keeps d stored)

  abbrev pub Fails : Error → World P → Type 0
  Fails _ w = Leaves (P.session.stored w.db)

module _ {P : Platform} (L : SessionLaws P.session) (T S : Tables) (n : ℕ) (filename : String) where
  abbrev Left : World P → Type 0
  Left w = Leaves P T S n filename (P.session.stored w.db)

  either_way-Sat :
      (r : Result (Unit {0})) (w : World P) → Left w → Sat (λ _. Left) (λ _. Left) (r, w)
  either_way-Sat (ok _) w h = h
  either_way-Sat (err _) w h = h

  cleaned-Sat :
      (d : Document) (document_created : Bool) (e : Error) (w : World P)
      → Left w
      → Sat
          (λ (_ : ExtractResponse) _. ⊥)
          (λ _. Left)
          (((if document_created then pure tt else delete_upload P d.file_path) >> raise e) w)
  cleaned-Sat d true e w h = h
  cleaned-Sat d false e w h = rw (delete_upload_ok P d.file_path w) h

  undo_upload-Sat :
      (d : Document) (document_created : Bool) (e : Error) (w : World P)
      → Left w
      → Sat (λ _ _. ⊥) (λ _. Left) (undo_upload P d document_created e w)
  unfolding undo_upload
  undo_upload-Sat d created e w h =
      bind-Sat (λ _. Left) (λ (_ : ExtractResponse) _. ⊥) (λ _. Left) (on_db P P.session.rollback)
        (λ _. (if created then pure tt else delete_upload P d.file_path) >> raise e) w
        (either_way-Sat (P.session.rollback w.db).0 (record w { db = (P.session.rollback w.db).1 })
          (subst (Leaves P T S n filename) (sym (L.stored_rollback w.db)) h))
        (λ _ v k. cleaned-Sat d created e v k)

  undone-Sat :
      (d : Document) (document_created : Bool) (e : Error) (w : World P)
      → Left w
      → Sat (Succeeds P T S n filename) (λ _. Left) (undo_upload P d document_created e w)
  undone-Sat d created e w h =
      weaken-Sat (λ _ _. ⊥) (Succeeds P T S n filename) (λ _. Left) (undo_upload P d created e w)
        (undo_upload-Sat d created e w h) (λ _ _ z. absurd z)

  module _ (d : Document) (new : IsUploaded P T S n filename d) where
    abbrev Kept : Error → World P → Type 0
    Kept _ w = Keeps P T S n filename d (P.session.stored w.db)

    Settled-Keeps :
        (o : Processed) (out : Result ExtractResponse × World P)
        → Settled L (working_tables d T) (working_tables d T) (n + 1) (working d) o out
        → Sat (SucceedsFor P T S n filename d) Kept out
    Settled-Keeps (processed p) out h =
        weaken-Sat _ (SucceedsFor P T S n filename d) Kept out
          (relax-Sat _ (Unstored (working_tables d T)) Kept out h (λ _ _ s. inr (inl s.0)))
          (λ r w (e, s). (p, e, s))
    Settled-Keeps (processing_error r e) out h =
        weaken-Sat (λ _ _. ⊥) (SucceedsFor P T S n filename d) Kept out
          (relax-Sat (λ _ _. ⊥) _ Kept out h
            (λ x w q. elim q [ inl s ↦ inr (inl s.0) | inr (_, (t, s)) ↦ inr (inr (r, e, t, s)) ]))
          (λ _ _ z. absurd z)
    Settled-Keeps (raised e) out h =
        weaken-Sat (λ _ _. ⊥) (SucceedsFor P T S n filename d) Kept out
          (relax-Sat (λ _ _. ⊥) _ Kept out h (λ _ _ (_, s). inr (inl s))) (λ _ _ z. absurd z)

  module _ (i : IntakeResult) (new : IsUploaded P T S n filename i.document)
      (doc_type : Option String) (strategy : Option Strategy) where
    abbrev process : Document → Flow P ExtractResponse
    process x = process_document_pages P x i.pages_text doc_type strategy

    process_created-Keeps :
        (w : World P)
        → At {P = P} (with_document i.document T) (with_document i.document T) (n + 1) w
        → Sat
            (SucceedsFor P T S n filename i.document)
            (Kept i.document new)
            (process_created P i doc_type strategy w)
    unfolding process_created
    process_created-Keeps w h =
        let d = i.document in
        let T' = working_tables d T in
        let R = SucceedsFor P T S n filename d in
        let F = Kept d new in
        let Q : Document → World P → Type 0 =
          λ a w'. (a ≡ working d) × At {P = P} T' T' (n + 1) w' in
        bind-Sat Q R F (set_document_status P d DocumentStatus.processing) process w
          (relax-Sat Q (Unstored (with_document d T)) F
            (set_document_status P d DocumentStatus.processing w)
            (changed-Sat L (with_document d T) (with_document d T) (n + 1) d
              DocumentStatus.processing w h)
            (λ _ _ s. inl s.0))
          (λ x w1 (e, h1).
            subst (λ x. Sat R F (process x w1)) (sym e)
              (Settled-Keeps d new _ _ (
                process_document_pages-IsSettled L T' T' (n + 1) (working d) i.pages_text doc_type
                  strategy w1 h1)))

    created_or_undone-Sat :
        (r : Result (Unit {0})) (w : World P)
        → Sat
            (λ _. At {P = P} (with_document i.document T) (with_document i.document T) (n + 1))
            (λ _. Created L T S n i.document)
            (r, w)
        → Sat (Succeeds P T S n filename) (λ _. Left) (created_or_undone P i doc_type strategy r w)
    created_or_undone-Sat (err e) w (inl s) = undone-Sat i.document false e w (inl s)
    created_or_undone-Sat (err e) w (inr s) =
        undone-Sat i.document false e w (inr (i.document, new, inl s))
    created_or_undone-Sat (ok _) w h =
        let R = SucceedsFor P T S n filename i.document in
        let Q = Succeeds P T S n filename in
        let F = Kept i.document new in
        catch-Sat Q F (λ _. Left) (process_created P i doc_type strategy)
          (undo_upload P i.document true) w
          (weaken-Sat R Q F (process_created P i doc_type strategy w) (process_created-Keeps w h)
            (λ r w1 s. (i.document, new, s)))
          (λ e w1 k. undone-Sat i.document true e w1 (inr (i.document, new, k)))

  -- With a lawful session, an upload that is processed inline and answered has its document committed
  -- with the extraction of the answer, its usage rows and the status of its validation. When it raises,
  -- what is committed is as it was before, or has besides the session's rows the new document: as
  -- uploaded, as processing, or as failed with its extraction and the usage rows.
  pub process_uploaded_inline-IsStored :
      (content : P.storage.Bytes) (doc_type : Option String) (strategy : Option Strategy)
      (w : World P)
      → At {P = P} T S n w
      → Sat
          (Succeeds P T S n filename)
          (Fails P T S n filename)
          (process_uploaded_inline P content filename doc_type strategy w)
  unfolding process_uploaded_inline
  process_uploaded_inline-IsStored content doc_type strategy w h =
      let Q = Prepared L T S n DocumentStatus.uploaded filename in
      bind-Sat Q (Succeeds P T S n filename) (λ _. Left)
        (prepare_document P content filename DocumentStatus.uploaded)
        (λ i v.
          let (r, v') = create_document P i.document v in
          created_or_undone P i doc_type strategy r v')
        w
        (relax-Sat Q (Unchanged S) (λ _. Left)
          (prepare_document P content filename DocumentStatus.uploaded w)
          (prepare_document-Sat L T S n DocumentStatus.uploaded filename content w h)
          (λ _ _ s. inl s))
        (λ i v (new, h1).
          let (r, v') = create_document P i.document v in
          created_or_undone-Sat i new doc_type strategy r v'
            (create_document-Sat L T S n i.document (n + 1) v h1))
