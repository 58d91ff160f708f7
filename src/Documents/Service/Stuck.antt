-- ===== src/Documents/Service/Stuck.antt =====
-- The handler of `_process_uploaded_inline` in app/services/documents.py, which rolls back.
use structured_data_extracto.Base.{String, true, Option, ◌≡◌, ◌∙◌, refl, sym, subst}
use structured_data_extracto.Errors.{Error}
use structured_data_extracto.Exec.{Result, ok, err, raise, catch, ◌>>=◌}
use structured_data_extracto.Pages.Runner.{Strategy}
use structured_data_extracto.Processor.{raised, process_pages}
use structured_data_extracto.Records.{Document, DocumentStatus}
use structured_data_extracto.Records.Store.{SessionLaws, Tables, with_document}
use structured_data_extracto.Documents.World.{Platform, World, Flow}
use structured_data_extracto.Documents.Sat.{Sat, At, bind-Sat, relax-Sat, catch-Sat}
use structured_data_extracto.Documents.Audit.{ExtractResponse}
use structured_data_extracto.Documents.Intake.{IntakeResult}
use structured_data_extracto.Documents.Service.{
  set_document_status, process_document_pages, process_created, undo_upload,
}
use structured_data_extracto.Documents.Service.Settled.{Settled, process_document_pages-IsSettled}
use structured_data_extracto.Documents.Service.Final.{Reliable, set_document_status-Sat}

module _ {P : Platform} (L : SessionLaws P.session) (T : Tables) where
  abbrev Stored : Error → World P → Type 0
  Stored _ w = P.session.stored w.db ≡ T

  rolled_back-Sat :
      (r : Result (Unit {0})) (e : Error) (w w' : World P)
      → P.session.stored w'.db ≡ T
      → Sat
          (λ (_ : ExtractResponse) _. ⊥)
          Stored
          (((λ (_ : World P). (r, w')) >>= (λ _. raise e)) w)
  rolled_back-Sat (ok _) e w w' h = h
  rolled_back-Sat (err x) e w w' h = h

  undo_upload-Sat :
      (d : Document) (e : Error) (w : World P)
      → P.session.stored w.db ≡ T
      → Sat (λ _ _. ⊥) Stored (undo_upload P d true e w)
  unfolding undo_upload
  undo_upload-Sat d e w h =
      rolled_back-Sat (P.session.rollback w.db).0 e w _ (L.stored_rollback w.db ∙ h)

module _ {P : Platform} (L : SessionLaws P.session) (A : Reliable P.session)
    (i : IntakeResult) where
  -- With a lawful session whose `flush` and `commit` succeed: when the processor raises an exception
  -- that is not a `DocumentProcessingError`, whatever the state of the provider, the rest of
  -- `_process_uploaded_inline` with its handler raises too, and leaves the new document in the committed
  -- tables with the status `processing`.
  pub process_created-StaysProcessing :
      (doc_type : Option String) (strategy : Option Strategy) (e : Error) (w : World P)
      → ((net : P.engine.client.State)
          → (process_pages P.engine i.pages_text i.document.page_count doc_type strategy net).0
            ≡ raised e)
      → Sat
          (λ _ _. ⊥)
          (λ _ w'.
            P.session.stored w'.db
            ≡ with_document
                (record i.document { status = DocumentStatus.processing })
                (P.session.rows w.db))
          (catch (process_created P i doc_type strategy) (undo_upload P i.document true) w)
  unfolding process_created
  process_created-StaysProcessing doc_type strategy e w h =
      let d = i.document in
      let n = w.next_id in
      let d' : Document = record d { status = DocumentStatus.processing } in
      let T = with_document d' (P.session.rows w.db) in
      let rest : Document → Flow P ExtractResponse =
        λ x. process_document_pages P x i.pages_text doc_type strategy in
      catch-Sat (λ _ _. ⊥) (Stored L T) (Stored L T) (process_created P i doc_type strategy)
        (undo_upload P d true) w
        (bind-Sat (λ a w'. (a ≡ d') × At {P = P} T T n w') (λ _ _. ⊥) (Stored L T)
          (set_document_status P d DocumentStatus.processing) rest w
          (set_document_status-Sat L A d (P.session.rows w.db) (P.session.stored w.db) n
            (Stored L T) DocumentStatus.processing w (refl, refl, refl))
          (λ x w1 (p, h1).
            subst (λ x. Sat (λ _ _. ⊥) (Stored L T) (rest x w1)) (sym p)
              (relax-Sat (λ _ _. ⊥) _ (Stored L T) (rest d' w1)
                (subst (λ o. Settled L T T n d' o (rest d' w1)) (h _)
                  (process_document_pages-IsSettled L T T n d' i.pages_text doc_type strategy w1
                    h1))
                (λ _ _ (_, q). q))))
        (λ x w1 q. undo_upload-Sat L T d x w1 q)
