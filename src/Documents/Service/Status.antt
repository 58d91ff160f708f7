-- ===== src/Documents/Service/Status.antt =====
-- `_set_document_status` of app/services/documents.py and `load_document` of
-- app/services/document_intake.py, over a lawful session.
use structured_data_extracto.Base.{ℕ, ◌≡◌}
use structured_data_extracto.Errors.{Error}
use structured_data_extracto.Exec.{Result, ok, err, pure, lift, ◌>>=◌, ◌>>◌}
use structured_data_extracto.Records.{Document, DocumentStatus}
use structured_data_extracto.Records.Store.{SessionLaws, Tables, with_document}
use structured_data_extracto.Documents.World.{Platform, World, on_files}
use structured_data_extracto.Documents.Sat.{Sat, At, Unstored, bind-Sat, commit-Sat}
use structured_data_extracto.Documents.Audit.{set_status}
use structured_data_extracto.Documents.Audit.Stored.{set_status-Sat}
use structured_data_extracto.Documents.Intake.{parse_pdf, load_document}
use structured_data_extracto.Documents.Service.{commit, set_document_status}

module _ {P : Platform} (L : SessionLaws P.session) (T S : Tables) (n : ℕ) where
  -- The new status is committed with all of the session, or nothing is.
  pub changed-Sat :
      (d : Document) (st : DocumentStatus) (w : World P)
      → At {P = P} T S n w
      → let d' : Document = record d { status = st } in
        Sat
          (λ a w'. (a ≡ d') × At {P = P} (with_document d' T) (with_document d' T) n w')
          (Unstored S)
          (set_document_status P d st w)
  unfolding set_document_status
  changed-Sat d st w h =
      let d' : Document = record d { status = st } in
      let T' = with_document d' T in
      let Q : Document → World P → Type 0 = λ a w'. (a ≡ d') × At {P = P} T' S n w' in
      let R : Document → World P → Type 0 = λ a w'. (a ≡ d') × At {P = P} T' T' n w' in
      bind-Sat Q R (Unstored S) (set_status P d st) (λ a. commit P >> pure a) w
        (set_status-Sat L S T n d st w h)
        (λ a w1 (e, h1).
          bind-Sat (λ _. At {P = P} T' T' n) R (Unstored S) (commit P) (λ _. pure a) w1
            (commit-Sat L T' S n w1 h1) (λ _ w2 h2. (e, h2)))

module _ {P : Platform} (T S : Tables) (n : ℕ) where
  abbrev Kept : {B : Type 0} → B → World P → Type 0
  Kept _ = At {P = P} T S n

  abbrev AnyError : Error → World P → Type 0
  AnyError _ _ = Unit

  loaded-Sat :
      {B : Type 0} (r : Result B) (w : World P) (files : P.storage.State)
      → At {P = P} T S n w
      → Sat Kept AnyError (r, record w { files = files })
  loaded-Sat (ok _) w files h = h
  loaded-Sat (err _) w files h = tt

  -- To load a document leaves the session alone.
  pub load_document-Sat :
      (x : Document) (w : World P) → At {P = P} T S n w → Sat Kept AnyError (load_document P x w)
  unfolding load_document
  load_document-Sat x w h =
      bind-Sat Kept Kept AnyError (on_files P (P.storage.load x.file_path))
        (λ content. lift (parse_pdf P.storage content x.filename) >>= (λ pdf. pure pdf.pages_text))
        w (loaded-Sat (P.storage.load x.file_path w.files).0 w _ h)
        (λ content w1 h1.
          bind-Sat Kept Kept AnyError (lift (parse_pdf P.storage content x.filename))
            (λ pdf. pure pdf.pages_text) w1
            (loaded-Sat (parse_pdf P.storage content x.filename) w1 w1.files h1) (λ pdf w2 h2. h2))
