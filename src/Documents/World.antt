-- ===== src/Documents/World.antt =====
-- The state of app/services/documents.py: the session, the storage, and the rest of the world (the
-- provider, its clock and the job queue), with the identifiers that are drawn.
use structured_data_extracto.Base.{ℕ, ◌+◌, String, Option, List}
use structured_data_extracto.Exec.{Result, ok, Exec}
use structured_data_extracto.Processor.{Engine}
use structured_data_extracto.Records.Store.{Session}

-- `StorageBackend` of app/infrastructure/storage.py, and PyMuPDF: opening a document gives its pages,
-- and getting the text of a page may fail.
pub record Storage : Type 1 where
  pub State : Type 0
  pub Bytes : Type 0
  pub size : Bytes → ℕ
  pub save : String → Bytes → String → Exec State String
  pub load : String → Exec State Bytes
  pub delete : String → Exec State (Unit {0})
  pub open_pdf : Bytes → Result (List (Result (Option String)))

-- `arq_pool.enqueue_job`, which gives the identifier of the job, or `None`.
pub record Platform : Type 1 where
  pub engine : Engine
  pub session : Session
  pub storage : Storage
  pub enqueue : ℕ → Option String → Option String → Exec engine.client.State (Option String)

pub record World (P : Platform) : Type 0 where
  pub db : P.session.State
  pub files : P.storage.State
  pub net : P.engine.client.State
  pub next_id : ℕ

module _ (P : Platform) where
  abbrev pub Flow {ℓ} : Type ℓ → Type ℓ
  Flow A = Exec (World P) A

  -- An action on one part of the world.
  abbrev pub on_db {ℓ} : {A : Type ℓ} → Exec P.session.State A → Flow A
  on_db m w = let (r, s) = m w.db in (r, record w { db = s })

  abbrev pub on_files {ℓ} : {A : Type ℓ} → Exec P.storage.State A → Flow A
  on_files m w = let (r, s) = m w.files in (r, record w { files = s })

  abbrev pub on_net {ℓ} : {A : Type ℓ} → Exec P.engine.client.State A → Flow A
  on_net m w = let (r, s) = m w.net in (r, record w { net = s })

  abbrev pub change_db : (P.session.State → P.session.State) → Flow (Unit {0})
  change_db f w = (ok tt, record w { db = f w.db })

  -- `uuid4()`: identifiers that were never drawn before.
  abbrev pub uuid4 : Flow ℕ
  uuid4 w = (ok w.next_id, record w { next_id = w.next_id + 1 })
