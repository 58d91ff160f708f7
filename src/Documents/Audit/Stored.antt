-- ===== src/Documents/Audit/Stored.antt =====
-- What app/services/audit.py adds to the tables: the rows, in full.
use structured_data_extracto.Base.{
  ℕ, ◌+◌, String, some, List, [], ◌∷◌, ◌++◌, ◌≡◌, ◌∙◌, refl, ap, subst, arith, append-nil,
  append_assoc, sym, length, length-append,
}
use structured_data_extracto.Exec.{pure, ◌>>◌}
use structured_data_extracto.Classifier.{Purpose, UsageEvent}
use structured_data_extracto.Records.{Document, DocumentStatus, Extraction, LlmUsage}
use structured_data_extracto.Records.Store.{
  SessionLaws, Tables, with_document, with_extraction, with_usage,
}
use structured_data_extracto.Documents.World.{Platform, World, on_db, change_db}
use structured_data_extracto.Documents.Sat.{
  Sat, At, Unstored, bind-Sat, add_document-Sat, add_extraction-Sat, add_usage-Sat, flush-Sat,
  refresh-Sat,
}
use structured_data_extracto.Documents.Audit.{
  set_status, create_row, create_extraction, create_from_fields, create_usage,
  add_classifier_events, add_usage_events,
}

-- The usage rows of an extraction: one for each event of the classifier, and its own.
abbrev pub usage_row : ℕ → ℕ → ℕ → UsageEvent → LlmUsage
usage_row id document_id extraction_id u = record {
  id = id;
  document_id = document_id;
  extraction_id = some extraction_id;
  purpose = u.purpose;
  model = u.model;
  input_tokens = u.input_tokens;
  output_tokens = u.output_tokens;
}

abbrev pub usage_rows : ℕ → ℕ → ℕ → List UsageEvent → List LlmUsage
usage_rows id document_id extraction_id [] = []
usage_rows id document_id extraction_id (u ∷ us) =
    usage_row id document_id extraction_id u ∷ usage_rows (id + 1) document_id extraction_id us

abbrev pub with_usages : List LlmUsage → Tables → Tables
with_usages us t = record t { usages = t.usages ++ us }

abbrev pub extraction_event : String → ℕ → ℕ → UsageEvent
extraction_event model i o = record {
  purpose = Purpose.extraction;
  model = model;
  input_tokens = i;
  output_tokens = o;
}

module _ (document_id extraction_id : ℕ) where
  usage_rows-snoc :
      (n : ℕ) (us : List UsageEvent) (u : UsageEvent)
      → usage_rows n document_id extraction_id us
          ++ usage_row (n + length us) document_id extraction_id u ∷ []
        ≡ usage_rows n document_id extraction_id (us ++ u ∷ [])
  usage_rows-snoc n [] u = ap (λ k. usage_row k document_id extraction_id u ∷ []) (omega arith)
  usage_rows-snoc n (v ∷ us) u =
      ap (λ rows. usage_row n document_id extraction_id v ∷ rows)
        (ap
            (λ k.
              usage_rows (n + 1) document_id extraction_id us
              ++ usage_row k document_id extraction_id u ∷ [])
            (omega arith)
          ∙ usage_rows-snoc (n + 1) us u)

  with_usages-cons :
      (T : Tables) (u : LlmUsage) (us : List LlmUsage)
      → with_usages us (with_usage u T) ≡ with_usages (u ∷ us) T
  with_usages-cons T u us =
      ap (λ rows. record T { usages = rows }) (append_assoc T.usages (u ∷ []) us)

  with_usages-snoc :
      (T : Tables) (n : ℕ) (us : List UsageEvent) (u : UsageEvent)
      → with_usage
          (usage_row (n + length us) document_id extraction_id u)
          (with_usages (usage_rows n document_id extraction_id us) T)
        ≡ with_usages (usage_rows n document_id extraction_id (us ++ u ∷ [])) T
  with_usages-snoc T n us u =
      ap (λ rows. record T { usages = rows })
        (append_assoc T.usages _ _ ∙ ap (λ rows. T.usages ++ rows) (usage_rows-snoc n us u))

module _ {P : Platform} (L : SessionLaws P.session) (S : Tables) where
  pub set_status-Sat :
      (T : Tables) (n : ℕ) (d : Document) (st : DocumentStatus) (w : World P)
      → At {P = P} T S n w
      → let d' : Document = record d { status = st } in
        Sat
          (λ a w'. (a ≡ d') × At {P = P} (with_document d' T) S n w')
          (Unstored S)
          (set_status P d st w)
  unfolding set_status
  set_status-Sat T n d st w h =
      let d' : Document = record d { status = st } in
      let R : Document → World P → Type 0 =
        λ a w'. (a ≡ d') × At {P = P} (with_document d' T) S n w' in
      let Q : Unit → World P → Type 0 = λ _. At {P = P} (with_document d' T) S n in
      bind-Sat Q R (Unstored S) (change_db P (P.session.add_document d'))
        (λ _. on_db P P.session.flush >> pure d') w (add_document-Sat L T S n d' w h)
        (λ _ w1 h1.
          bind-Sat Q R (Unstored S) (on_db P P.session.flush) (λ _. pure d') w1
            (flush-Sat L _ S n w1 h1) (λ _ w2 h2. (refl, h2)))

  pub create_row-Sat :
      (T : Tables) (n : ℕ) (d : Document) (w : World P)
      → At {P = P} T S n w
      → Sat (λ _. At {P = P} (with_document d T) S n) (Unstored S) (create_row P d w)
  unfolding create_row
  create_row-Sat T n d w h =
      let Q : Unit → World P → Type 0 = λ _. At {P = P} (with_document d T) S n in
      bind-Sat Q Q (Unstored S) (change_db P (P.session.add_document d))
        (λ _. on_db P P.session.flush) w (add_document-Sat L T S n d w h)
        (λ _ w1 h1. flush-Sat L _ S n w1 h1)

  module _ (T : Tables) (n : ℕ) (x : Extraction) (w : World P) (h : At {P = P} T S n w) where
    abbrev pub Created : Extraction → World P → Type 0
    Created a w' = (a ≡ x) × At {P = P} (with_extraction x T) S n w'

    abbrev Added : Unit {0} → World P → Type 0
    Added _ = At {P = P} (with_extraction x T) S n

    pub create_extraction-Sat : Sat Created (Unstored S) (create_extraction P x w)
    unfolding create_extraction
    create_extraction-Sat =
        bind-Sat Added Created (Unstored S) (change_db P (P.session.add_extraction x))
          (λ _. on_db P P.session.flush >> pure x) w (add_extraction-Sat L T S n x w h)
          (λ _ w1 h1.
            bind-Sat Added Created (Unstored S) (on_db P P.session.flush) (λ _. pure x) w1
              (flush-Sat L _ S n w1 h1) (λ _ w2 h2. (refl, h2)))

    pub create_from_fields-Sat : Sat Created (Unstored S) (create_from_fields P x w)
    unfolding create_from_fields
    create_from_fields-Sat =
        bind-Sat Added Created (Unstored S) (change_db P (P.session.add_extraction x))
          (λ _. on_db P P.session.flush >> (on_db P P.session.refresh >> pure x)) w
          (add_extraction-Sat L T S n x w h)
          (λ _ w1 h1.
            bind-Sat Added Created (Unstored S) (on_db P P.session.flush)
              (λ _. on_db P P.session.refresh >> pure x) w1 (flush-Sat L _ S n w1 h1)
              (λ _ w2 h2.
                bind-Sat Added Created (Unstored S) (on_db P P.session.refresh) (λ _. pure x) w2
                  (refresh-Sat L _ S n w2 h2) (λ _ w3 h3. (refl, h3))))

  module _ (document_id extraction_id : ℕ) where
    create_usage-Sat :
        (T : Tables) (n : ℕ) (u : UsageEvent) (w : World P)
        → At {P = P} T S n w
        → Sat
            (λ _. At {P = P} (with_usage (usage_row n document_id extraction_id u) T) S (n + 1))
            (Unstored S)
            (create_usage P document_id extraction_id u.purpose u.model u.input_tokens
              u.output_tokens w)
    unfolding create_usage
    create_usage-Sat T n u w h =
        let row = usage_row w.next_id document_id extraction_id u in
        let Q : Unit → World P → Type 0 = λ _. At {P = P} (with_usage row T) S (w.next_id + 1) in
        let drawn : World P = record w { next_id = w.next_id + 1 } in
        let done : Sat Q (Unstored S)
            ((change_db P (P.session.add_usage row) >> on_db P P.session.flush) drawn) =
          bind-Sat Q Q (Unstored S) (change_db P (P.session.add_usage row))
            (λ _. on_db P P.session.flush) drawn
            (add_usage-Sat L T S (w.next_id + 1) row drawn (h.0, h.1, refl))
            (λ _ w1 h1. flush-Sat L _ S (w.next_id + 1) w1 h1) in
        subst
          (λ k.
            Sat (λ _. At {P = P} (with_usage (usage_row k document_id extraction_id u) T) S (k + 1))
              (Unstored S)
              (create_usage P document_id extraction_id u.purpose u.model u.input_tokens
                u.output_tokens w))
          h.2 done

    abbrev pub Charged : List UsageEvent → Tables → ℕ → Unit {0} → World P → Type 0
    Charged us T n _ =
        At {P = P} (with_usages (usage_rows n document_id extraction_id us) T) S (n + length us)

    add_classifier_events-Sat :
        (us : List UsageEvent) (T : Tables) (n : ℕ) (w : World P)
        → At {P = P} T S n w
        → Sat (Charged us T n) (Unstored S) (add_classifier_events P document_id extraction_id us w)
    unfolding add_classifier_events
    add_classifier_events-Sat [] T n w (r, s, i) = (
      r ∙ ap (λ rows. record T { usages = rows }) (sym (append-nil T.usages)),
      s,
      i ∙ (omega arith),
    )
    add_classifier_events-Sat (u ∷ us) T n w h =
        let row = usage_row n document_id extraction_id u in
        let Q : Unit → World P → Type 0 = λ _. At {P = P} (with_usage row T) S (n + 1) in
        bind-Sat Q (Charged (u ∷ us) T n) (Unstored S)
          (create_usage P document_id extraction_id u.purpose u.model u.input_tokens
            u.output_tokens)
          (λ _. add_classifier_events P document_id extraction_id us) w (create_usage-Sat T n u w h)
          (λ _ w1 h1.
            let rest = usage_rows (n + 1) document_id extraction_id us in
            let flow = add_classifier_events P document_id extraction_id us w1 in
            subst (λ k. Sat (λ _. At {P = P} (with_usages (row ∷ rest) T) S k) (Unstored S) flow)
              (omega arith)
              (subst (λ t. Sat (λ _. At {P = P} t S (n + 1 + length us)) (Unstored S) flow)
                (with_usages-cons document_id extraction_id T row rest)
                (add_classifier_events-Sat us (with_usage row T) (n + 1) w1 h1)))

    pub add_usage_events-Sat :
        (us : List UsageEvent) (input_tokens output_tokens : ℕ) (T : Tables) (n : ℕ) (w : World P)
        → At {P = P} T S n w
        → Sat
            (Charged (us ++ extraction_event P.engine.model input_tokens output_tokens ∷ []) T n)
            (Unstored S)
            (add_usage_events P document_id extraction_id us input_tokens output_tokens w)
    unfolding add_usage_events
    add_usage_events-Sat us i o T n w h =
        let u = extraction_event P.engine.model i o in
        bind-Sat (Charged us T n) (Charged (us ++ u ∷ []) T n) (Unstored S)
          (add_classifier_events P document_id extraction_id us)
          (λ _. create_usage P document_id extraction_id Purpose.extraction P.engine.model i o) w
          (add_classifier_events-Sat us T n w h)
          (λ _ w1 h1.
            let flow =
              create_usage P document_id extraction_id Purpose.extraction P.engine.model i o w1 in
            let rows = with_usages (usage_rows n document_id extraction_id (us ++ u ∷ [])) T in
            subst (λ k. Sat (λ _. At {P = P} rows S k) (Unstored S) flow)
              (omega (arith, length-append us (u ∷ [])))
              (subst (λ t. Sat (λ _. At {P = P} t S (n + length us + 1)) (Unstored S) flow)
                (with_usages-snoc document_id extraction_id T n us u)
                (create_usage-Sat _ (n + length us) u w1 h1)))
