-- ===== src/Documents/Entry/Answered.antt =====
-- `extract_document` of app/services/documents.py, by its two ways in and with or without a job queue.
use structured_data_extracto.Base.{
  ℕ, ◌+◌, String, Bool, true, false, Option, none, some, ◌≡◌, ◌∙◌, refl, sym, ap, subst,
  Option-cases, inl, inr,
}
use structured_data_extracto.Exec.{Result, ok, err, pure, lift, ◌>>=◌}
use structured_data_extracto.Pages.Runner.{Strategy}
use structured_data_extracto.Records.{Document}
use structured_data_extracto.Records.Store.{SessionLaws, Tables, with_document, find_document}
use structured_data_extracto.Documents.World.{Platform, World}
use structured_data_extracto.Documents.Sat.{Sat, weaken-Sat, relax-Sat}
use structured_data_extracto.Documents.Audit.{get_by_id, to_response}
use structured_data_extracto.Documents.Service.{
  Response, inline, queued, process_uploaded_inline, process_existing_inline,
}
use structured_data_extracto.Documents.Service.Final.{find_document-save_document}
use structured_data_extracto.Documents.Entry.{
  Input, upload, existing, refused, strategy_argument, job_id, both, choose_input,
  enqueue_extraction, enqueue_uploaded, extract_uploaded_document, enqueue_existing,
  extract_existing_document, extract_input, extract_document,
}
use structured_data_extracto.Documents.Entry.Uploaded.{Answered, Raises, enqueue_uploaded-IsStored}
use structured_data_extracto.Documents.Entry.Inline.{
  Succeeds, Fails, working, working_tables, process_uploaded_inline-IsStored,
}
use structured_data_extracto.Documents.Entry.Answers.{
  IsStored, Stores, Any, StoresIn, with_warning-Stores, inline_response-Sat, success-StoresIn,
  process_found-StoresIn,
}

module _ {P : Platform} (L : SessionLaws P.session) (doc_type : Option String)
    (strategy : Option Strategy) where
  existing_inline-StoresIn :
      (id : ℕ) (w : World P)
      → Sat (StoresIn {P = P}) Any (process_existing_inline P id doc_type strategy w)
  unfolding process_existing_inline get_by_id
  existing_inline-StoresIn id w =
      elim (Option-cases (find_document id (P.session.rows w.db).documents)) [
        | inl e ↦ rw e tt
        | inr (d, e) ↦ rw e (process_found-StoresIn L doc_type strategy d w)
      ]

  told-IsStored :
      (id : ℕ) (d : Document) (r : Result (Option String)) (w w' : World P)
      → find_document id (P.session.rows w'.db).documents ≡ some d
      → Sat (IsStored {P = P}) Any (
          ((λ (_ : World P). (r, w')) >>= (λ job. lift (job_id job) >>= (λ j.
              pure (queued (record { document_id = id; job_id = j; status = "processing" })))))
            w)
  told-IsStored id d (err e) w w' h = tt
  told-IsStored id d (ok none) w w' h = tt
  told-IsStored id d (ok (some j)) w w' h = (d, h)

  enqueue_existing-IsStored :
      (id : ℕ) (w : World P)
      → Sat (IsStored {P = P}) Any (enqueue_existing P true true id doc_type strategy w)
  unfolding enqueue_existing enqueue_extraction get_by_id
  enqueue_existing-IsStored id w =
      elim (Option-cases (find_document id (P.session.rows w.db).documents)) [
        | inl e ↦ rw e tt
        | inr (d, e) ↦
            rw e (
              told-IsStored id d (P.enqueue id doc_type (strategy_argument strategy) w.net).0 w _ e)
      ]

  existing-IsStored :
      (has_pool async_mode : Bool) (id : ℕ) (w : World P)
      → Sat
          (IsStored {P = P})
          Any
          (extract_existing_document P has_pool async_mode id doc_type strategy w)
  unfolding extract_existing_document
  existing-IsStored true true id w = enqueue_existing-IsStored id w
  existing-IsStored false true id w =
      inline_response-Sat false true true (process_existing_inline P id doc_type strategy) w
        (existing_inline-StoresIn id w)
  existing-IsStored true false id w =
      inline_response-Sat true false false (process_existing_inline P id doc_type strategy) w
        (existing_inline-StoresIn id w)
  existing-IsStored false false id w =
      inline_response-Sat false false false (process_existing_inline P id doc_type strategy) w
        (existing_inline-StoresIn id w)

  module _ (content : P.storage.Bytes) (filename : String) (w : World P) where
    uploaded_inline-StoresIn :
        Sat (StoresIn {P = P}) Any (process_uploaded_inline P content filename doc_type strategy w)
    uploaded_inline-StoresIn =
        let T = P.session.rows w.db in
        let S = P.session.stored w.db in
        let n = w.next_id in
        let out = process_uploaded_inline P content filename doc_type strategy w in
        weaken-Sat (Succeeds P T S n filename) StoresIn Any out
          (relax-Sat (Succeeds P T S n filename) (Fails P T S n filename) Any out
            (process_uploaded_inline-IsStored L T S n filename content doc_type strategy w
              (refl, refl, refl))
            (λ _ _ _. tt))
          (λ r v (d, new, (p, e, s)).
            success-StoresIn P (working d) p _ (working_tables d T) r v e s)

    Answered-IsStored :
        (T S : Tables) (n : ℕ) (a : Response) (v : World P)
        → Answered L T S n filename a v
        → IsStored {P = P} a v
    Answered-IsStored T S n (queued a) v (i, (d, new, at)) = (
      d,
      ap (λ t. find_document a.document_id t.documents) at.0
          ∙ subst (λ k. find_document k (with_document d T).documents ≡ some d) (new.0 ∙ sym i)
              (find_document-save_document d T.documents),
    )
    Answered-IsStored T S n (inline r) v (d, new, (p, e, s)) =
        let r' = to_response P (n + 1) d.id p.pipeline in
        subst (λ r. Stores r (P.session.stored v.db)) (sym e)
          (with_warning-Stores true r' (P.session.stored v.db)
            (success-StoresIn P d p (n + 1) (with_document d T) r' v refl s))

    enqueue_uploaded-Sat :
        Sat
          (IsStored {P = P})
          Any
          (enqueue_uploaded P true true content filename doc_type strategy w)
    enqueue_uploaded-Sat =
        let T = P.session.rows w.db in
        let S = P.session.stored w.db in
        let n = w.next_id in
        let out = enqueue_uploaded P true true content filename doc_type strategy w in
        weaken-Sat (Answered L T S n filename) IsStored Any out
          (relax-Sat (Answered L T S n filename) (Raises L T S n filename) Any out
            (enqueue_uploaded-IsStored L T S n content filename doc_type strategy w
              (refl, refl, refl))
            (λ _ _ _. tt))
          (Answered-IsStored T S n)

    uploaded-IsStored :
        (has_pool async_mode : Bool)
        → Sat
            (IsStored {P = P})
            Any
            (extract_uploaded_document P has_pool async_mode content filename doc_type strategy w)
    unfolding extract_uploaded_document
    uploaded-IsStored true true = enqueue_uploaded-Sat
    uploaded-IsStored false true =
        inline_response-Sat false true true
          (process_uploaded_inline P content filename doc_type strategy) w uploaded_inline-StoresIn
    uploaded-IsStored true false =
        inline_response-Sat true false false
          (process_uploaded_inline P content filename doc_type strategy) w uploaded_inline-StoresIn
    uploaded-IsStored false false =
        inline_response-Sat false false false
          (process_uploaded_inline P content filename doc_type strategy) w uploaded_inline-StoresIn

  module _ (has_pool async_mode : Bool) (w : World P) where
    input-IsStored :
        (input : Input P.storage.Bytes)
        → Sat (IsStored {P = P}) Any (extract_input P has_pool async_mode input doc_type strategy w)
    unfolding extract_input
    input-IsStored (upload content filename) =
        uploaded-IsStored content filename w has_pool async_mode
    input-IsStored (existing id) = existing-IsStored has_pool async_mode id w
    input-IsStored refused = tt

    -- With a lawful session, whatever `extract_document` answers with is true of the tables, on every way
    -- through it: a response with an extraction has its row, the last one in the committed tables, with
    -- the type, the data and the tokens of the response, and the response's document is committed
    -- with the status that follows from the extraction's; a response with a job is of a document that the
    -- session has.
    pub extract_document-IsStored :
        (content : Option P.storage.Bytes) (filename : Option String) (document_id : Option ℕ)
        → Sat (IsStored {P = P}) Any (
            extract_document P has_pool async_mode content filename document_id doc_type strategy w)
    unfolding extract_document
    extract_document-IsStored content filename document_id =
        input-IsStored (choose_input (both content filename) document_id)
