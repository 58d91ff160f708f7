-- ===== src/Documents/Audit/Recorded.antt =====
-- What the two recorders of app/services/audit.py do to the session.
use structured_data_extracto.Base.{
  ℕ, ◌+◌, ◌-◌, String, List, [], ◌∷◌, ◌++◌, ◌≡◌, refl, sym, subst, length,
}
use structured_data_extracto.Errors.{ExtractionFailure}
use structured_data_extracto.Exec.{pure, ◌>>◌}
use structured_data_extracto.Classifier.{UsageEvent}
use structured_data_extracto.Processor.Pipeline.{PipelineResult}
use structured_data_extracto.Records.{Document, Extraction}
use structured_data_extracto.Records.Store.{SessionLaws, Tables, with_extraction}
use structured_data_extracto.Documents.World.{Platform, World, Flow, on_db}
use structured_data_extracto.Documents.Sat.{Sat, At, Unstored, bind-Sat, weaken-Sat, refresh-Sat}
use structured_data_extracto.Documents.Audit.{
  ExtractResponse, failure_row, success_row, create_extraction, create_from_fields,
  add_usage_events, clock, record_failure, to_response, record_success,
}
use structured_data_extracto.Documents.Audit.Stored.{
  usage_rows, with_usages, extraction_event, Created, create_extraction-Sat, create_from_fields-Sat,
  add_usage_events-Sat,
}

-- The tables with an extraction and its usage rows: one for each event of the classifier, and one for
-- the extraction itself.
abbrev pub recorded : String → ℕ → Extraction → List UsageEvent → Tables → Tables
recorded model document_id x events t =
    with_usages
      (usage_rows (x.id + 1) document_id x.id
        (events ++ extraction_event model x.input_tokens x.output_tokens ∷ []))
      (with_extraction x t)

-- The identifier that is drawn next, afterwards.
abbrev pub next_after : String → ℕ → Extraction → List UsageEvent → ℕ
next_after model document_id x events =
    x.id + 1 + length (events ++ extraction_event model x.input_tokens x.output_tokens ∷ [])

module _ {P : Platform} (L : SessionLaws P.session) (T S : Tables) (d : Document)
    (events : List UsageEvent) where
  abbrev Recorded : Extraction → World P → Type 0
  Recorded x =
      At {P = P} (recorded P.engine.model d.id x events T) S
        (next_after P.engine.model d.id x events)

  pub record_success-Sat :
      (r : PipelineResult) (n : ℕ) (w : World P)
      → At {P = P} T S n w
      → Sat
          (λ a w'. (a ≡ to_response P n d.id r) × Recorded (success_row P.engine.model d.id r n) w')
          (Unstored S)
          (record_success P d r events w)
  unfolding record_success
  record_success-Sat r n w (hr, hs, hi) =
      let x = success_row P.engine.model d.id r w.next_id in
      let R : ExtractResponse → World P → Type 0 =
        λ a w'. (a ≡ to_response P w.next_id d.id r) × Recorded x w' in
      let drawn : World P = record w { next_id = w.next_id + 1 } in
      let finish : Flow P ExtractResponse =
        on_db P P.session.refresh >> pure (to_response P w.next_id d.id r) in
      let done : Sat R (Unstored S) (record_success P d r events w) =
        bind-Sat (Created L S T (w.next_id + 1) x drawn (hr, hs, refl)) R (Unstored S)
          (create_from_fields P x)
          (λ y.
            add_usage_events P d.id y.id events x.input_tokens x.output_tokens
            >> (on_db P P.session.refresh >> pure (to_response P y.id d.id r)))
          drawn (create_from_fields-Sat L S T (w.next_id + 1) x drawn (hr, hs, refl))
          (λ y w1 (e, h1).
            subst
              (λ y. Sat R (Unstored S) (
                (add_usage_events P d.id y.id events x.input_tokens x.output_tokens
                    >> (on_db P P.session.refresh >> pure (to_response P y.id d.id r)))
                  w1))
              (sym e)
              (bind-Sat (λ _. Recorded x) R (Unstored S)
                (add_usage_events P d.id x.id events x.input_tokens x.output_tokens) (λ _. finish)
                w1 (add_usage_events-Sat L S d.id x.id events _ _ _ (w.next_id + 1) w1 h1)
                (λ _ w2 h2.
                  bind-Sat (λ _. Recorded x) R (Unstored S) (on_db P P.session.refresh)
                    (λ _. pure (to_response P w.next_id d.id r)) w2 (refresh-Sat L _ S _ w2 h2)
                    (λ _ w3 h3. (refl, h3))))) in
      subst
        (λ k.
          Sat
            (λ a w'.
              (a ≡ to_response P k d.id r) × Recorded (success_row P.engine.model d.id r k) w')
            (Unstored S) (record_success P d r events w))
        hi done

  abbrev Failed : String → String → ExtractionFailure → ℕ → Unit {0} → World P → Type 0
  Failed doc_type strategy e n _ w =
      (t : ℕ) × Recorded (failure_row P.engine.model d.id doc_type strategy t e n) w

  pub record_failure-Sat :
      (doc_type strategy : String) (started_at : ℕ) (e : ExtractionFailure) (n : ℕ) (w : World P)
      → At {P = P} T S n w
      → Sat
          (Failed doc_type strategy e n)
          (Unstored S)
          (record_failure P d doc_type strategy started_at e events w)
  unfolding record_failure clock
  record_failure-Sat doc_type strategy started_at e n w (hr, hs, hi) =
      let (ended, net) = P.engine.now w.net in
      let t : ℕ = ended - started_at in
      let x = failure_row P.engine.model d.id doc_type strategy t e w.next_id in
      let Q = Failed doc_type strategy e w.next_id in
      let drawn : World P = record w { next_id = w.next_id + 1; net = net } in
      let done : Sat Q (Unstored S) (record_failure P d doc_type strategy started_at e events w) =
        bind-Sat (Created L S T (w.next_id + 1) x drawn (hr, hs, refl)) Q (Unstored S)
          (create_extraction P x)
          (λ y. add_usage_events P d.id y.id events x.input_tokens x.output_tokens) drawn
          (create_extraction-Sat L S T (w.next_id + 1) x drawn (hr, hs, refl))
          (λ y w1 (p, h1).
            subst
              (λ y.
                Sat Q (Unstored S)
                  (add_usage_events P d.id y.id events x.input_tokens x.output_tokens w1))
              (sym p)
              (weaken-Sat (λ _. Recorded x) Q (Unstored S)
                (add_usage_events P d.id x.id events x.input_tokens x.output_tokens w1)
                (add_usage_events-Sat L S d.id x.id events _ _ _ (w.next_id + 1) w1 h1)
                (λ _ w2 h2. (t, h2)))) in
      subst
        (λ k.
          Sat (Failed doc_type strategy e k) (Unstored S)
            (record_failure P d doc_type strategy started_at e events w))
        hi done
