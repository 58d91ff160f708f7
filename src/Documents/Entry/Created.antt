-- ===== src/Documents/Entry/Created.antt =====
-- How an upload is prepared, its row created and, failing that, discarded, in app/services/documents.py.
use structured_data_extracto.Base.{
  ℕ, ◌+◌, String, true, List, show, ap, ◌≡◌, ◌∙◌, ◌⊎◌, inl, inr, refl,
}
use structured_data_extracto.Errors.{Error}
use structured_data_extracto.Exec.{Result, ok, err, pure, raise, lift, ◌>>=◌, ◌>>◌}
use structured_data_extracto.Records.{Document, DocumentStatus}
use structured_data_extracto.Records.Store.{SessionLaws, Tables, with_document}
use structured_data_extracto.Documents.World.{Platform, World, Flow, on_db, on_files}
use structured_data_extracto.Documents.Sat.{
  Sat, At, Unstored, bind-Sat, relax-Sat, commit-Sat, refresh-Sat,
}
use structured_data_extracto.Documents.Audit.{create_row}
use structured_data_extracto.Documents.Audit.Stored.{create_row-Sat}
use structured_data_extracto.Documents.Intake.{
  IntakeResult, parse_pdf, prepare_document, delete_upload,
}
use structured_data_extracto.Documents.Service.{commit, create_document}
use structured_data_extracto.Documents.Service.Undo.{delete_upload_ok}
use structured_data_extracto.Documents.Entry.{discard_upload}

-- The document of an upload: its identifier is the one that is drawn.
abbrev pub IsNew : DocumentStatus → ℕ → String → Document → Type 0
IsNew status n filename d = (d.id ≡ n) × (d.filename ≡ filename) × (d.status ≡ status)

module _ {P : Platform} where
  -- Nothing has been committed.
  abbrev pub Unchanged : Tables → Error → World P → Type 0
  Unchanged stored e w = P.session.stored w.db ≡ stored

module _ {P : Platform} (L : SessionLaws P.session) (T S : Tables) (n : ℕ) where
  module _ (status : DocumentStatus) (filename : String) where
    abbrev pub Prepared : IntakeResult → World P → Type 0
    Prepared i w = IsNew status n filename i.document × At {P = P} T S (n + 1) w

    lifted-Sat :
        {B : Type 0} (r : Result B) (k : ℕ) (w : World P)
        → At {P = P} T S k w
        → Sat (λ _. At {P = P} T S k) (Unchanged S) (r, w)
    lifted-Sat (ok _) k w h = h
    lifted-Sat (err _) k w (r, s, i) = s

    pub prepare_document-Sat :
        (content : P.storage.Bytes) (w : World P)
        → At {P = P} T S n w
        → Sat Prepared (Unchanged S) (prepare_document P content filename status w)
    unfolding prepare_document
    prepare_document-Sat content w (r, s, i) =
        let drawn : World P = record w { next_id = w.next_id + 1 } in
        let h1 : At {P = P} T S (n + 1) drawn = (r, s, ap (λ k. k + 1) i) in
        let intake : ℕ → List String → String → IntakeResult = λ pages pages_text path. record {
          document = record {
            id = w.next_id;
            filename = filename;
            file_path = path;
            file_size_bytes = P.storage.size content;
            page_count = pages;
            status = status;
          };
          pages_text = pages_text;
        } in
        bind-Sat (λ _. At {P = P} T S (n + 1)) Prepared (Unchanged S)
          (lift (parse_pdf P.storage content filename))
          (λ pdf.
            on_files P (P.storage.save (show w.next_id) content filename)
            >>= (λ path. pure (intake pdf.page_count pdf.pages_text path)))
          drawn (lifted-Sat _ (n + 1) drawn h1)
          (λ pdf w1 h2.
            bind-Sat (λ _. At {P = P} T S (n + 1)) Prepared (Unchanged S)
              (on_files P (P.storage.save (show w.next_id) content filename))
              (λ path. pure (intake pdf.page_count pdf.pages_text path)) w1
              (lifted-Sat (P.storage.save (show w.next_id) content filename w1.files).0 (n + 1) _
                h2)
              (λ path w2 h3. ((i, refl, refl), h3)))

  module _ (d : Document) where
    -- The new row is there, or nothing is.
    abbrev pub Created : World P → Type 0
    Created w = (P.session.stored w.db ≡ S) ⊎ (P.session.stored w.db ≡ with_document d T)

    kept-Created :
        (w w' : World P) → P.session.stored w'.db ≡ P.session.stored w.db → Created w → Created w'
    kept-Created w w' e (inl h) = inl (e ∙ h)
    kept-Created w w' e (inr h) = inr (e ∙ h)

    pub create_document-Sat :
        (k : ℕ) (w : World P)
        → At {P = P} T S k w
        → Sat
            (λ _. At {P = P} (with_document d T) (with_document d T) k)
            (λ _. Created)
            (create_document P d w)
    unfolding create_document
    create_document-Sat k w h =
        let T' = with_document d T in
        let F : Error → World P → Type 0 = λ _. Created in
        bind-Sat (λ _. At {P = P} T' S k) (λ _. At {P = P} T' T' k) F (create_row P d)
          (λ _. commit P >> on_db P P.session.refresh) w
          (relax-Sat _ (Unstored S) F (create_row P d w) (create_row-Sat L S T k d w h)
            (λ _ _ s. inl s.0))
          (λ _ w1 h1.
            bind-Sat (λ _. At {P = P} T' T' k) (λ _. At {P = P} T' T' k) F (commit P)
              (λ _. on_db P P.session.refresh) w1
              (relax-Sat _ (Unstored S) F (commit P w1) (commit-Sat L T' S k w1 h1)
                (λ _ _ s. inl s.0))
              (λ _ w2 h2.
                relax-Sat _ (Unstored T') F (on_db P P.session.refresh w2)
                  (refresh-Sat L T' T' k w2 h2) (λ _ _ s. inr s.0)))

    discarded-Sat :
        (r : Result (Unit {0})) (m : Flow P (Unit {0})) (w : World P)
        → Created w
        → ((v : World P) → Created v → Sat (λ (_ : Unit) _. ⊥) (λ _. Created) (m v))
        → Sat (λ _ _. ⊥) (λ _. Created) (((λ (_ : World P). (r, w)) >> m) w)
    discarded-Sat (ok _) m w h k = k w h
    discarded-Sat (err _) m w h k = h

    pub discard_upload-Sat :
        (e : Error) (w : World P)
        → Created w
        → Sat (λ _ _. ⊥) (λ _. Created) (discard_upload P true true d e w)
    unfolding discard_upload
    discard_upload-Sat e w h =
        let back : World P = record w { db = (P.session.rollback w.db).1 } in
        discarded-Sat (P.session.rollback w.db).0 (delete_upload P d.file_path >> raise e) back
          (kept-Created w back (L.stored_rollback w.db) h)
          (λ v k. rw (delete_upload_ok P d.file_path v) k)
