-- ===== src/Documents/Amend/Stored.antt =====
-- What `CorrectionService.correct` of app/services/corrections.py stores.
use structured_data_extracto.Base.{
  ℕ, ◌+◌, String, Option, none, some, List, Dict, ◌≡◌, ◌⊎◌, inl, inr, refl, sym, subst,
}
use structured_data_extracto.Errors.{Error}
use structured_data_extracto.Exec.{Result, ok, err, pure, lift, ◌>>=◌, ◌>>◌}
use structured_data_extracto.Value.{Value}
use structured_data_extracto.Validation.{ValidationResult, validate_extraction}
use structured_data_extracto.Records.{Extraction, Correction}
use structured_data_extracto.Records.Store.{SessionLaws, Tables, with_correction}
use structured_data_extracto.Documents.World.{Platform, World, Flow, on_db, change_db}
use structured_data_extracto.Documents.Sat.{
  Sat, At, Unstored, bind-Sat, relax-Sat, add_correction-Sat, flush-Sat, refresh-Sat, commit-Sat,
}
use structured_data_extracto.Documents.Amend.{
  CorrectionRequest, correction_row, create_correction, create_validated, correct,
}

module _ {P : Platform} (L : SessionLaws P.session) (T S : Tables) where
  create_correction-Sat :
      (n : ℕ) (c : Correction) (w : World P)
      → At {P = P} T S n w
      → Sat
          (λ a w'. (a ≡ c) × At {P = P} (with_correction c T) S n w')
          (Unstored S)
          (create_correction P c w)
  unfolding create_correction
  create_correction-Sat n c w h =
      let Q : Unit {0} → World P → Type 0 = λ _. At {P = P} (with_correction c T) S n in
      let R : Correction → World P → Type 0 =
        λ a w'. (a ≡ c) × At {P = P} (with_correction c T) S n w' in
      bind-Sat Q R (Unstored S) (change_db P (P.session.add_correction c))
        (λ _. on_db P P.session.flush >> (on_db P P.session.refresh >> pure c)) w
        (add_correction-Sat L T S n c w h)
        (λ _ w1 h1.
          bind-Sat Q R (Unstored S) (on_db P P.session.flush)
            (λ _. on_db P P.session.refresh >> pure c) w1 (flush-Sat L _ S n w1 h1)
            (λ _ w2 h2.
              bind-Sat Q R (Unstored S) (on_db P P.session.refresh) (λ _. pure c) w2
                (refresh-Sat L _ S n w2 h2) (λ _ w3 h3. (refl, h3))))

  -- A correction is committed whole, or nothing is.
  abbrev pub AllOrNothing : Tables → Error → World P → Type 0
  AllOrNothing T' _ w = (P.session.stored w.db ≡ S) ⊎ (P.session.stored w.db ≡ T')

  finish-Sat :
      (n : ℕ) (c : Correction) (w : World P)
      → At {P = P} (with_correction c T) S n w
      → Sat
          (λ a w'. (a ≡ c) × (P.session.stored w'.db ≡ with_correction c T))
          (AllOrNothing (with_correction c T))
          ((on_db P P.session.commit >> (on_db P P.session.refresh >> pure c)) w)
  finish-Sat n c w h =
      let T' = with_correction c T in
      let R : Correction → World P → Type 0 = λ a w'. (a ≡ c) × (P.session.stored w'.db ≡ T') in
      let Q : Unit {0} → World P → Type 0 = λ _. At {P = P} T' T' n in
      let F = AllOrNothing T' in
      bind-Sat Q R F (on_db P P.session.commit) (λ _. on_db P P.session.refresh >> pure c) w
        (relax-Sat Q (Unstored S) F (on_db P P.session.commit w) (commit-Sat L T' S n w h)
          (λ _ _ e. inl e.0))
        (λ _ w1 h1.
          bind-Sat Q R F (on_db P P.session.refresh) (λ _. pure c) w1
            (relax-Sat Q (Unstored T') F (on_db P P.session.refresh w1)
              (refresh-Sat L T' T' n w1 h1) (λ _ _ e. inr e.0))
            (λ _ w2 h2. (refl, h2.1)))

  module _ (x : Extraction) (q : CorrectionRequest) (w : World P)
      (h : At {P = P} T S w.next_id w) where
    -- What a correction does, by what the validation of the corrected data gives.
    abbrev pub CorrectedData :
        List String → Option (Dict Value) → Result Correction × World P → Type 0
    CorrectedData warnings none out = out ≡ (err (Error.correction_validation warnings), w)
    CorrectedData warnings (some values) out =
        let row = correction_row x q values warnings w.next_id in
        Sat (λ a w'. (a ≡ row) × (P.session.stored w'.db ≡ with_correction row T))
          (AllOrNothing (with_correction row T)) out

    abbrev pub Corrected : Result ValidationResult → Result Correction × World P → Type 0
    Corrected (err e) out = out ≡ (err e, w)
    Corrected (ok v) out = CorrectedData v.warnings v.extracted_data out

    create_validated-Corrected :
        (warnings : List String) (values : Option (Dict Value))
        → CorrectedData warnings values (create_validated P x q warnings values w)
    unfolding create_validated
    create_validated-Corrected warnings none = refl
    create_validated-Corrected warnings (some values) =
        let row = correction_row x q values warnings w.next_id in
        let n : ℕ = w.next_id + 1 in
        let drawn : World P = record w { next_id = n } in
        let F = AllOrNothing (with_correction row T) in
        let R : Correction → World P → Type 0 =
          λ a w'. (a ≡ row) × (P.session.stored w'.db ≡ with_correction row T) in
        let Q : Correction → World P → Type 0 =
          λ a w'. (a ≡ row) × At {P = P} (with_correction row T) S n w' in
        let rest : Correction → Flow P Correction =
          λ c. on_db P P.session.commit >> (on_db P P.session.refresh >> pure c) in
        bind-Sat Q R F (create_correction P row) rest drawn
          (relax-Sat Q (Unstored S) F (create_correction P row drawn)
            (create_correction-Sat n row drawn (h.0, h.1, refl)) (λ _ _ e. inl e.0))
          (λ c w1 (e, h1). subst (λ c. Sat R F (rest c w1)) (sym e) (finish-Sat n row w1 h1))

    validated-Corrected :
        (r : Result ValidationResult)
        → Corrected r ((lift r >>= (λ v. create_validated P x q v.warnings v.extracted_data)) w)
    validated-Corrected (ok v) = create_validated-Corrected v.warnings v.extracted_data
    validated-Corrected (err e) = refl

    -- With a lawful session: corrected data that the validation gives up on is refused with its
    -- warnings, an exception of the validation goes through, and neither changes anything. Otherwise the
    -- correction that is returned, with the diff against the extraction's data, is the one row that the
    -- commit adds; and if the session raises, the committed tables have that row and all else, or they
    -- are as before.
    pub correct-Corrected :
        Corrected
          (validate_extraction P.engine.pydantic x.doc_type q.corrected_data)
          (correct P x q w)
    unfolding correct
    correct-Corrected =
        validated-Corrected (validate_extraction P.engine.pydantic x.doc_type q.corrected_data)
