-- ===== src/Documents/Service/Final.antt =====
-- `_process_existing_inline` of app/services/documents.py, over a session whose statements succeed.
use structured_data_extracto.Base.{
  ℕ, String, Option, some, List, [], ◌∷◌, ◌≡◌, ◌∙◌, ◌⊎◌, inl, inr, refl, sym, ap, subst, eqb,
  eqb_iff, Bool-cases,
}
use structured_data_extracto.Errors.{Error}
use structured_data_extracto.Exec.{Result, ok, raise, catch, ◌>>=◌, ◌>>◌}
use structured_data_extracto.Pages.Runner.{Strategy}
use structured_data_extracto.Validation.{ExtractionStatus}
use structured_data_extracto.Processor.{
  ProcessingResult, Processed, processed, processing_error, raised,
}
use structured_data_extracto.Records.{Document, DocumentStatus}
use structured_data_extracto.Records.Store.{
  Session, SessionLaws, Tables, save_document, find_document, with_document,
}
use structured_data_extracto.Documents.World.{Platform, World, Flow}
use structured_data_extracto.Documents.Sat.{
  Sat, At, Unstored, bind-Sat, weaken-Sat, relax-Sat, returned-Sat, catch-Sat, commit-Sat,
}
use structured_data_extracto.Documents.Audit.{ExtractResponse, set_status}
use structured_data_extracto.Documents.Audit.Stored.{set_status-Sat}
use structured_data_extracto.Documents.Intake.{load_document}
use structured_data_extracto.Documents.Service.{
  commit, final_status, document_status_for, set_document_status, process_document_pages,
  mark_failed, process_found,
}
use structured_data_extracto.Documents.Service.Status.{changed-Sat, load_document-Sat}
use structured_data_extracto.Documents.Service.Settled.{Settled, process_document_pages-IsSettled}

pub find_document-save_document :
    (d : Document) (ds : List Document) → find_document d.id (save_document d ds) ≡ some d
unfolding find_document save_document
find_document-save_document d [] = rw ((eqb_iff d.id d.id).1 refl)
find_document-save_document d (e ∷ es) = elim (Bool-cases (eqb d.id e.id)) [
  | inl p ↦ rw (p, (eqb_iff d.id d.id).1 refl)
  | inr p ↦ rw (p, p, find_document-save_document d es)
]

-- A session whose `flush` and `commit` succeed.
pub record Reliable (D : Session) : Type 0 where
  pub flush_ok : (s : D.State) → (D.flush s).0 ≡ ok tt
  pub commit_ok : (s : D.State) → (D.commit s).0 ≡ ok tt

abbrev pub IsFinal : DocumentStatus → Type 0
IsFinal st = (st ≡ DocumentStatus.completed) ⊎ (st ≡ DocumentStatus.failed)

final_status-IsFinal : (s : ExtractionStatus) → IsFinal (final_status s)
final_status-IsFinal ExtractionStatus.pending = inl refl
final_status-IsFinal ExtractionStatus.processing = inl refl
final_status-IsFinal ExtractionStatus.partial = inl refl
final_status-IsFinal ExtractionStatus.completed = inl refl
final_status-IsFinal ExtractionStatus.failed = inr refl

document_status_for-IsFinal : (p : ProcessingResult) → IsFinal (document_status_for p)
unfolding document_status_for
document_status_for-IsFinal p = final_status-IsFinal p.pipeline.validation.status

module _ {P : Platform} (L : SessionLaws P.session) (A : Reliable P.session) (d : Document) where
  -- The committed row of the document is in a final status.
  abbrev pub StoredFinal : World P → Type 0
  StoredFinal w =
      (x : Document) × (find_document d.id (P.session.stored w.db).documents ≡ some x)
      × IsFinal x.status

  set_status_ok :
      (st : DocumentStatus) (w : World P) → (set_status P d st w).0 ≡ ok (record d { status = st })
  unfolding set_status
  set_status_ok st w = rw (A.flush_ok)

  set_document_status_ok :
      (st : DocumentStatus) (w : World P)
      → (set_document_status P d st w).0 ≡ ok (record d { status = st })
  unfolding set_document_status set_status
  set_document_status_ok st w = rw (A.flush_ok, A.commit_ok)

  abbrev Raised : Error → World P → Type 0
  Raised e w = StoredFinal w

  abbrev Returned : ExtractResponse → World P → Type 0
  Returned a w = StoredFinal w

  stored_final :
      (st : DocumentStatus) (t : Tables) (w : World P)
      → IsFinal st
      → (P.session.stored w.db).documents ≡ save_document (record d { status = st }) t.documents
      → StoredFinal w
  stored_final st t w f e =
      let d' : Document = record d { status = st } in
      (d', ap (find_document d.id) e ∙ find_document-save_document d' t.documents, f)

  mark_failed-IsFinal : (e : Error) (w : World P) → Sat Returned Raised (mark_failed P d e w)
  unfolding mark_failed
  mark_failed-IsFinal e w =
      let T = P.session.rows w.db in
      let d' : Document = record d { status = DocumentStatus.failed } in
      let T' = with_document d' T in
      let Q : Document → World P → Type 0 = λ a w'. (a ≡ d') × At {P = P} T' _ w.next_id w' in
      bind-Sat Q Returned Raised (set_status P d DocumentStatus.failed) (λ _. commit P >> raise e) w
        (returned-Sat Q (Unstored (P.session.stored w.db)) Raised _ d'
          (set_status_ok DocumentStatus.failed w)
          (set_status-Sat L (P.session.stored w.db) T w.next_id d DocumentStatus.failed w
            (refl, refl, refl)))
        (λ _ w1 (_, h1).
          bind-Sat (λ _. At {P = P} T' T' w.next_id) Returned Raised (commit P) (λ _. raise e) w1
            (returned-Sat _ (Unstored _) Raised _ tt (A.commit_ok w1.db)
              (commit-Sat L T' _ w.next_id w1 h1))
            (λ _ w2 h2.
              stored_final DocumentStatus.failed T w2 (inr refl) (ap (λ t. t.documents) h2.1)))

  module _ (T S : Tables) (n : ℕ) where
    pub set_document_status-Sat :
        (F : Error → World P → Type 0) (st : DocumentStatus) (w : World P)
        → At {P = P} T S n w
        → let d' : Document = record d { status = st } in
          Sat
            (λ a w'. (a ≡ d') × At {P = P} (with_document d' T) (with_document d' T) n w')
            F
            (set_document_status P d st w)
    set_document_status-Sat F st w h =
        let d' : Document = record d { status = st } in
        let R : Document → World P → Type 0 =
          λ a w'. (a ≡ d') × At {P = P} (with_document d' T) (with_document d' T) n w' in
        returned-Sat R (Unstored S) F _ d' (set_document_status_ok st w)
          (changed-Sat L T S n d st w h)

  outcome-IsFinal :
      (T S : Tables) (n : ℕ) (st : DocumentStatus) (o : Processed)
      (out : Result ExtractResponse × World P)
      → Settled L T S n (record d { status = st }) o out
      → Sat Returned (λ _ _. Unit) out
  outcome-IsFinal T S n st (processed p) out h =
      weaken-Sat _ Returned (λ _ _. Unit) out
        (relax-Sat _ (Unstored S) (λ _ _. Unit) out h (λ _ _ _. tt))
        (λ a w (_, e).
          stored_final (document_status_for p) T w (document_status_for-IsFinal p)
            (ap (λ t. t.documents) e))
  outcome-IsFinal T S n st (processing_error r e) out h =
      weaken-Sat (λ _ _. ⊥) Returned (λ _ _. Unit) out
        (relax-Sat (λ _ _. ⊥) _ (λ _ _. Unit) out h (λ _ _ _. tt)) (λ _ _ z. absurd z)
  outcome-IsFinal T S n st (raised e) out h =
      weaken-Sat (λ _ _. ⊥) Returned (λ _ _. Unit) out
        (relax-Sat (λ _ _. ⊥) _ (λ _ _. Unit) out h (λ _ _ _. tt)) (λ _ _ z. absurd z)

  -- With a lawful session whose `flush` and `commit` succeed, `_process_existing_inline` leaves the
  -- document it found in a final status, completed or failed, in the committed tables, whether it returns
  -- a response or raises, and whatever the storage, the provider and the processor do.
  pub process_found-IsFinal :
      (doc_type : Option String) (strategy : Option Strategy) (w : World P)
      → Sat Returned Raised (process_found P doc_type strategy d w)
  unfolding process_found mark_failed set_status
  process_found-IsFinal doc_type strategy w =
      let T = P.session.rows w.db in
      let n = w.next_id in
      let d' : Document = record d { status = DocumentStatus.processing } in
      let T' = with_document d' T in
      let body : Document → Flow P ExtractResponse =
        λ x. load_document P x >>= (λ pages. process_document_pages P x pages doc_type strategy) in
      let rest : Document → Flow P ExtractResponse = λ x. catch (body x) (mark_failed P x) in
      bind-Sat (λ a w'. (a ≡ d') × At {P = P} T' T' n w') Returned Raised
        (set_document_status P d DocumentStatus.processing) rest w
        (set_document_status-Sat T (P.session.stored w.db) n Raised DocumentStatus.processing w
          (refl, refl, refl))
        (λ x w1 (e, h1).
          subst (λ x. Sat Returned Raised (rest x w1)) (sym e)
            (catch-Sat Returned (λ _ _. Unit) Raised (body d') (mark_failed P d') w1
              (bind-Sat (λ _. At {P = P} T' T' n) Returned (λ _ _. Unit) (load_document P d')
                (λ pages. process_document_pages P d' pages doc_type strategy) w1
                (load_document-Sat T' T' n d' w1 h1)
                (λ pages w2 h2.
                  outcome-IsFinal T' T' n DocumentStatus.processing _ _
                    (process_document_pages-IsSettled L T' T' n d' pages doc_type strategy w2 h2)))
              (λ x w2 _. mark_failed-IsFinal x w2)))
