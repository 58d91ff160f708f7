-- ===== src/Documents/Entry/Answers.antt =====
-- What `extract_document` of app/services/documents.py answers with, on every way through it.
use structured_data_extracto.Base.{
  ℕ, String, Bool, true, false, Option, some, List, [], ◌∷◌, ◌++◌, ◌≡◌, refl, sym, subst,
}
use structured_data_extracto.Errors.{Error}
use structured_data_extracto.Exec.{Result, ok, err, pure, raise, catch, ◌>>=◌, ◌>>◌}
use structured_data_extracto.Pages.Runner.{Strategy}
use structured_data_extracto.Processor.{
  ProcessingResult, Processed, processed, processing_error, raised,
}
use structured_data_extracto.Records.{Document, DocumentStatus, Extraction}
use structured_data_extracto.Records.Store.{SessionLaws, Tables, with_document, find_document}
use structured_data_extracto.Documents.World.{Platform, World, Flow}
use structured_data_extracto.Documents.Sat.{
  Sat, At, Unstored, bind-Sat, weaken-Sat, relax-Sat, catch-Sat,
}
use structured_data_extracto.Documents.Audit.{ExtractResponse, to_response, success_row, set_status}
use structured_data_extracto.Documents.Service.{
  Response, inline, queued, with_warning, final_status, document_status_for, commit, mark_failed,
  set_document_status, process_document_pages, process_found,
}
use structured_data_extracto.Documents.Service.Atomic.{success_tables}
use structured_data_extracto.Documents.Service.Final.{find_document-save_document}
use structured_data_extracto.Documents.Service.Settled.{Settled, process_document_pages-IsSettled}
use structured_data_extracto.Documents.Service.Status.{changed-Sat, load_document-Sat}
use structured_data_extracto.Documents.Intake.{load_document}
use structured_data_extracto.Documents.Entry.{inline_response}

-- The extraction's row says what the response says.
abbrev Matches : Extraction → ExtractResponse → Type 0
Matches x r =
    (x.id ≡ r.extraction_id)
    × (x.document_id ≡ r.document_id)
    × (x.doc_type ≡ r.doc_type)
    × (x.extracted_data ≡ r.extracted_data)
    × (x.input_tokens ≡ r.input_tokens)
    × (x.output_tokens ≡ r.output_tokens)

-- The last extraction of the tables is the response's, and its document has the status that follows.
abbrev pub Stores : ExtractResponse → Tables → Type 0
Stores r t =
    (x : Extraction) × (xs : List Extraction) × (d : Document) × (t.extractions ≡ xs ++ x ∷ [])
    × Matches x r
    × (find_document r.document_id t.documents ≡ some d)
    × (d.status ≡ final_status x.status)

module _ {P : Platform} where
  abbrev pub IsStored : Response → World P → Type 0
  IsStored (inline r) w = Stores r (P.session.stored w.db)
  IsStored (queued a) w =
      (d : Document) × (find_document a.document_id (P.session.rows w.db).documents ≡ some d)

pub with_warning-Stores :
    (warn : Bool) (r : ExtractResponse) (t : Tables) → Stores r t → Stores (with_warning warn r) t
with_warning-Stores true r t h = h
with_warning-Stores false r t h = h

module _ {P : Platform} where
  abbrev pub Any : Error → World P → Type 0
  Any _ _ = Unit

  abbrev pub StoresIn : ExtractResponse → World P → Type 0
  StoresIn r w = Stores r (P.session.stored w.db)

  trivial-Sat : {B : Type 0} (r : Result B) (w : World P) → Sat (λ _ _. Unit {0}) Any (r, w)
  trivial-Sat (ok _) w = tt
  trivial-Sat (err _) w = tt

  pub inline_response-Sat :
      (has_pool async_mode warn : Bool) (m : Flow P ExtractResponse) (w : World P)
      → Sat StoresIn Any (m w)
      → Sat (IsStored {P = P}) Any (inline_response P has_pool async_mode warn m w)
  inline_response-Sat has_pool async_mode warn m w h =
      bind-Sat StoresIn (IsStored {P = P}) Any m (λ r. pure (inline (with_warning warn r))) w h
        (λ r w1 s. with_warning-Stores warn r (P.session.stored w1.db) s)

module _ (P : Platform) (d : Document) (p : ProcessingResult) (n : ℕ) (T : Tables) where
  success_tables-Stores :
      Stores (to_response P n d.id p.pipeline) (success_tables P.engine.model d p n T)
  unfolding to_response document_status_for
  success_tables-Stores = (
    success_row P.engine.model d.id p.pipeline n,
    T.extractions,
    record d { status = document_status_for p },
    refl,
    (refl, refl, refl, refl, refl, refl),
    find_document-save_document (record d { status = document_status_for p }) T.documents,
    refl,
  )

  pub success-StoresIn :
      (r : ExtractResponse) (w : World P)
      → r ≡ to_response P n d.id p.pipeline
      → P.session.stored w.db ≡ success_tables P.engine.model d p n T
      → StoresIn {P = P} r w
  success-StoresIn r w e s =
      subst (λ r. Stores r (P.session.stored w.db)) (sym e)
        (subst (Stores (to_response P n d.id p.pipeline)) (sym s) success_tables-Stores)

module _ {P : Platform} (L : SessionLaws P.session) (doc_type : Option String)
    (strategy : Option Strategy) where
  Settled-StoresIn :
      (T S : Tables) (n : ℕ) (d : Document) (o : Processed) (out : Result ExtractResponse × World P)
      → Settled L T S n d o out
      → Sat (StoresIn {P = P}) Any out
  Settled-StoresIn T S n d (processed p) out h =
      weaken-Sat _ StoresIn Any out (relax-Sat _ (Unstored S) Any out h (λ _ _ _. tt))
        (λ r w (e, s). success-StoresIn P d p n T r w e s)
  Settled-StoresIn T S n d (processing_error r e) out h =
      weaken-Sat (λ _ _. ⊥) StoresIn Any out (relax-Sat (λ _ _. ⊥) _ Any out h (λ _ _ _. tt))
        (λ _ _ z. absurd z)
  Settled-StoresIn T S n d (raised e) out h =
      weaken-Sat (λ _ _. ⊥) StoresIn Any out (relax-Sat (λ _ _. ⊥) _ Any out h (λ _ _ _. tt))
        (λ _ _ z. absurd z)

  mark_failed-StoresIn :
      (d : Document) (e : Error) (w : World P) → Sat (StoresIn {P = P}) Any (mark_failed P d e w)
  unfolding mark_failed
  mark_failed-StoresIn d e w =
      bind-Sat (λ _ _. Unit) StoresIn Any (set_status P d DocumentStatus.failed)
        (λ _. commit P >> raise e) w (trivial-Sat _ _)
        (λ _ w1 _.
          bind-Sat (λ _ _. Unit) StoresIn Any (commit P) (λ _. raise e) w1 (trivial-Sat _ _)
            (λ _ w2 _. tt))

  pub process_found-StoresIn :
      (d : Document) (w : World P)
      → Sat (StoresIn {P = P}) Any (process_found P doc_type strategy d w)
  unfolding process_found
  process_found-StoresIn d w =
      let T = P.session.rows w.db in
      let S = P.session.stored w.db in
      let n = w.next_id in
      let d' : Document = record d { status = DocumentStatus.processing } in
      let T' = with_document d' T in
      let Q : Document → World P → Type 0 = λ a w'. (a ≡ d') × At {P = P} T' T' n w' in
      let body : Document → Flow P ExtractResponse =
        λ x. load_document P x >>= (λ pages. process_document_pages P x pages doc_type strategy) in
      let rest : Document → Flow P ExtractResponse = λ x. catch (body x) (mark_failed P x) in
      bind-Sat Q StoresIn Any (set_document_status P d DocumentStatus.processing) rest w
        (relax-Sat Q (Unstored S) Any (set_document_status P d DocumentStatus.processing w)
          (changed-Sat L T S n d DocumentStatus.processing w (refl, refl, refl)) (λ _ _ _. tt))
        (λ x w1 (e, h1).
          subst (λ x. Sat StoresIn Any (rest x w1)) (sym e)
            (catch-Sat StoresIn Any Any (body d') (mark_failed P d') w1
              (bind-Sat (λ _. At {P = P} T' T' n) StoresIn Any (load_document P d')
                (λ pages. process_document_pages P d' pages doc_type strategy) w1
                (load_document-Sat T' T' n d' w1 h1)
                (λ pages w2 h2.
                  Settled-StoresIn T' T' n d' _ _
                    (process_document_pages-IsSettled L T' T' n d' pages doc_type strategy w2 h2)))
              (λ e w2 _. mark_failed-StoresIn d' e w2)))
