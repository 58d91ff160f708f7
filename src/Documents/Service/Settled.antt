-- ===== src/Documents/Service/Settled.antt =====
-- The ends of `_process_document_pages` and of `_process_existing_inline` in app/services/documents.py:
-- what is committed when they return, and when they raise.
use structured_data_extracto.Base.{ℕ, String, Option, List, ◌≡◌, ◌⊎◌, inl, inr, refl}
use structured_data_extracto.Errors.{Error}
use structured_data_extracto.Exec.{Result, raise}
use structured_data_extracto.Pages.Runner.{Strategy}
use structured_data_extracto.Processor.{
  Processed, processed, processing_error, raised, process_pages,
}
use structured_data_extracto.Records.{Document}
use structured_data_extracto.Records.Store.{SessionLaws, Tables}
use structured_data_extracto.Documents.World.{Platform, World}
use structured_data_extracto.Documents.Sat.{Sat, At, Unstored, bind-Sat, relax-Sat}
use structured_data_extracto.Documents.Audit.{ExtractResponse, to_response}
use structured_data_extracto.Documents.Service.{
  settle, process_document_pages, record_processing_failure,
}
use structured_data_extracto.Documents.Service.Atomic.{
  success_tables, failure_tables, record_processing_success-IsStored,
  record_processing_failure-IsStored,
}

module _ {P : Platform} (L : SessionLaws P.session) (T S : Tables) (n : ℕ) (d : Document) where
  -- What an outcome of the processor leaves, when the tables were `S` before.
  abbrev pub Settled : Processed → Result ExtractResponse × World P → Type 0
  Settled (processed p) out =
      Sat
        (λ a w'.
          (a ≡ to_response P n d.id p.pipeline)
          × (P.session.stored w'.db ≡ success_tables P.engine.model d p n T))
        (Unstored S) out
  Settled (processing_error r e) out =
      Sat (λ _ _. ⊥)
        (λ x w'.
          Unstored S x w'
          ⊎ ((x ≡ Error.extraction e)
              × ((t : ℕ) × (P.session.stored w'.db ≡ failure_tables P.engine.model d r e t n T))))
        out
  Settled (raised e) out = Sat (λ _ _. ⊥) (λ x w'. (x ≡ e) × (P.session.stored w'.db ≡ S)) out

  settle-IsSettled :
      (started_at : ℕ) (o : Processed) (w : World P)
      → At {P = P} T S n w
      → Settled o (settle P d started_at o w)
  unfolding settle
  settle-IsSettled started_at (processed p) w h = record_processing_success-IsStored L T S n d w h p
  settle-IsSettled started_at (processing_error r e) w h =
      let F : Error → World P → Type 0 = λ x w'.
        Unstored S x w'
        ⊎ ((x ≡ Error.extraction e)
            × ((t : ℕ) × (P.session.stored w'.db ≡ failure_tables P.engine.model d r e t n T))) in
      let Q : Unit {0} → World P → Type 0 =
        λ _ w'. (t : ℕ) × (P.session.stored w'.db ≡ failure_tables P.engine.model d r e t n T) in
      bind-Sat Q (λ _ _. ⊥) F (record_processing_failure P d r e started_at)
        (λ _. raise (Error.extraction e)) w
        (relax-Sat Q (Unstored S) F (record_processing_failure P d r e started_at w)
          (record_processing_failure-IsStored L T S n d w h r e started_at) (λ _ w' q. inl q))
        (λ _ w' q. inr (refl, q))
  settle-IsSettled started_at (raised e) w (hr, hs, hi) = (refl, hs)

  -- With a lawful session, `_process_document_pages` commits exactly what the outcome of the processor
  -- says. A result is returned as a response and committed whole. A failure of the extraction is
  -- committed whole and raised again. In both cases the alternative is that an exception of the
  -- session's own flush, commit or refresh is raised, with nothing committed. Any other exception of the
  -- processor is raised again with nothing committed.
  pub process_document_pages-IsSettled :
      (pages : List String) (doc_type : Option String) (strategy : Option Strategy) (w : World P)
      → At {P = P} T S n w
      → Settled
          (process_pages P.engine pages d.page_count doc_type strategy (P.engine.now w.net).1).0
          (process_document_pages P d pages doc_type strategy w)
  unfolding process_document_pages
  process_document_pages-IsSettled pages doc_type strategy w h =
      let (started_at, net) = P.engine.now w.net in
      let (outcome, net') = process_pages P.engine pages d.page_count doc_type strategy net in
      settle-IsSettled started_at outcome (record w { net = net' }) h
