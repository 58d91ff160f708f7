-- ===== src/Documents/Entry/Worked.antt =====
-- An upload from its queued answer to the end of its job in app/workers/worker.py.
use structured_data_extracto.Base.{ℕ, String, true, Option, some, ◌≡◌, ◌∙◌, refl, sym, ap, subst}
use structured_data_extracto.Exec.{Result, ok, err, pure, ◌>>=◌}
use structured_data_extracto.Pages.Runner.{Strategy}
use structured_data_extracto.Records.{Document}
use structured_data_extracto.Records.Store.{SessionLaws, Tables, find_document, with_document}
use structured_data_extracto.Documents.World.{Platform, World}
use structured_data_extracto.Documents.Sat.{Sat}
use structured_data_extracto.Documents.Audit.{get_by_id}
use structured_data_extracto.Documents.Service.{
  AsyncResponse, queued, process_found, process_existing_inline,
}
use structured_data_extracto.Documents.Service.Final.{
  Reliable, IsFinal, process_found-IsFinal, find_document-save_document,
}
use structured_data_extracto.Documents.Entry.{enqueue_uploaded, extraction_job}
use structured_data_extracto.Documents.Entry.Uploaded.{Answered, Raises, enqueue_uploaded-IsStored}

module _ {P : Platform} where
  -- The committed row of a document is in a final status.
  abbrev pub EndsFinal : ℕ → World P → Type 0
  EndsFinal id w =
      (x : Document) × (find_document id (P.session.stored w.db).documents ≡ some x)
      × IsFinal x.status

  either_way :
      {B : Type 0} (id : ℕ) (r : Result B) (w : World P)
      → Sat (λ _. EndsFinal id) (λ _. EndsFinal id) (r, w)
      → EndsFinal id w
  either_way id (ok _) w h = h
  either_way id (err _) w h = h

  unresulted :
      {B C : Type 0} (id : ℕ) (c : C) (r : Result B) (w w' : World P)
      → EndsFinal id w'
      → EndsFinal id (((λ (_ : World P). (r, w')) >>= (λ _. pure c)) w).1
  unresulted id c (ok _) w w' h = h
  unresulted id c (err _) w w' h = h

module _ {P : Platform} (L : SessionLaws P.session) (A : Reliable P.session)
    (doc_type : Option String) (strategy : Option Strategy) where
  job-EndsFinal :
      (d : Document) (v : World P)
      → find_document d.id (P.session.rows v.db).documents ≡ some d
      → EndsFinal d.id (extraction_job P d.id doc_type strategy v).1
  unfolding extraction_job process_existing_inline get_by_id
  job-EndsFinal d v found =
      let flow = process_found P doc_type strategy d v in
      rw found (
        unresulted d.id tt flow.0 v flow.1
          (either_way d.id flow.0 flow.1 (process_found-IsFinal L A d doc_type strategy v)))

  -- The job of a document that a session finds.
  committed-EndsFinal :
      (T : Tables) (n : ℕ) (d : Document) (v : World P)
      → n ≡ d.id
      → P.session.rows v.db ≡ with_document d T
      → EndsFinal n (extraction_job P n doc_type strategy v).1
  committed-EndsFinal T n d v e h =
      subst (λ k. EndsFinal k (extraction_job P k doc_type strategy v).1) (sym e)
        (job-EndsFinal d v
          (ap (λ t. find_document d.id t.documents) h ∙ find_document-save_document d T.documents))

  Answered-EndsFinal :
      (T S : Tables) (n : ℕ) (filename : String) (a : AsyncResponse) (w v : World P)
      → Answered L T S n filename (queued a) w
      → P.session.rows v.db ≡ P.session.stored w.db
      → EndsFinal a.document_id (extraction_job P a.document_id doc_type strategy v).1
  Answered-EndsFinal T S n filename a w v (i, (d, new, at)) k =
      committed-EndsFinal T a.document_id d v (i ∙ sym new.0) (k ∙ at.1)

  -- With a lawful session whose `flush` and `commit` succeed: once an asynchronous upload is answered with
  -- a job, the worker's job for the identifier of the answer, run in any session that has the tables
  -- committed by then, finds the document and leaves it in a final status, completed or failed, in the
  -- committed tables, whether the job returns or raises.
  pub queued_upload-EndsFinal :
      (content : P.storage.Bytes) (filename : String) (a : AsyncResponse) (w v : World P)
      → let out = enqueue_uploaded P true true content filename doc_type strategy w in
        out.0 ≡ ok (queued a)
        → P.session.rows v.db ≡ P.session.stored out.1.db
        → EndsFinal a.document_id (extraction_job P a.document_id doc_type strategy v).1
  queued_upload-EndsFinal content filename a w v e k =
      let T = P.session.rows w.db in
      let S = P.session.stored w.db in
      let out = enqueue_uploaded P true true content filename doc_type strategy w in
      Answered-EndsFinal T S w.next_id filename a out.1 v
        (subst
          (λ r.
            Sat (Answered L T S w.next_id filename) (Raises L T S w.next_id filename) (r, out.1))
          e
          (enqueue_uploaded-IsStored L T S w.next_id content filename doc_type strategy w
            (refl, refl, refl)))
        k
