-- ===== src/Records/Store.antt =====
-- SQLAlchemy's session is a parameter: what it holds is seen through its tables, as queries in the
-- session see them (`rows`) and as they are committed (`stored`). The repositories of
-- app/repositories/*.py are written over its operations.
use structured_data_extracto.Base.{
  ℕ, Option, none, some, List, [], ◌∷◌, ◌++◌, ◌≡◌, eqb, if◌then◌else◌,
}
use structured_data_extracto.Errors.{Error}
use structured_data_extracto.Exec.{ok, err, Exec}
use structured_data_extracto.Records.{Document, Extraction, LlmUsage, Correction, Correction}

pub record Tables : Type 0 where
  pub documents : List Document
  pub extractions : List Extraction
  pub usages : List LlmUsage
  pub corrections : List Correction

-- The row of an object: a new one at the end, or in place of the row with its key.
unfoldable pub save_document : Document → List Document → List Document
save_document d [] = d ∷ []
save_document d (e ∷ es) = if eqb d.id e.id then d ∷ es else e ∷ save_document d es

unfoldable pub find_document : ℕ → List Document → Option Document
find_document id [] = none
find_document id (d ∷ ds) = if eqb id d.id then some d else find_document id ds

abbrev pub with_document : Document → Tables → Tables
with_document d t = record t { documents = save_document d t.documents }

abbrev pub with_extraction : Extraction → Tables → Tables
with_extraction x t = record t { extractions = t.extractions ++ x ∷ [] }

abbrev pub with_usage : LlmUsage → Tables → Tables
with_usage u t = record t { usages = t.usages ++ u ∷ [] }

abbrev pub with_correction : Correction → Tables → Tables
with_correction c t = record t { corrections = t.corrections ++ c ∷ [] }

unfoldable pub find_extraction : ℕ → List Extraction → Option Extraction
find_extraction id [] = none
find_extraction id (x ∷ xs) = if eqb id x.id then some x else find_extraction id xs

pub record Session : Type 1 where
  pub State : Type 0
  pub rows : State → Tables
  pub stored : State → Tables
  pub add_document : Document → State → State
  pub add_extraction : Extraction → State → State
  pub add_usage : LlmUsage → State → State
  pub add_correction : Correction → State → State
  pub flush : Exec State (Unit {0})
  pub commit : Exec State (Unit {0})
  pub rollback : Exec State (Unit {0})
  pub refresh : Exec State (Unit {0})

-- Documented behaviour. What `add` puts into the session is seen by its queries; `flush` and
-- `refresh` commit nothing, and leave the rows alone if they succeed; `commit` stores the rows of the
-- session, or fails and stores nothing; `rollback` goes back to what is stored.
pub record SessionLaws (D : Session) : Type 0 where
  pub rows_document :
      (d : Document) (s : D.State) → D.rows (D.add_document d s) ≡ with_document d (D.rows s)
  pub stored_document : (d : Document) (s : D.State) → D.stored (D.add_document d s) ≡ D.stored s
  pub rows_extraction :
      (x : Extraction) (s : D.State) → D.rows (D.add_extraction x s) ≡ with_extraction x (D.rows s)
  pub stored_extraction :
      (x : Extraction) (s : D.State) → D.stored (D.add_extraction x s) ≡ D.stored s
  pub rows_usage : (u : LlmUsage) (s : D.State) → D.rows (D.add_usage u s) ≡ with_usage u (D.rows s)
  pub stored_usage : (u : LlmUsage) (s : D.State) → D.stored (D.add_usage u s) ≡ D.stored s
  pub rows_correction :
      (c : Correction) (s : D.State) → D.rows (D.add_correction c s) ≡ with_correction c (D.rows s)
  pub stored_correction :
      (c : Correction) (s : D.State) → D.stored (D.add_correction c s) ≡ D.stored s
  pub rows_flush : (s : D.State) → (D.flush s).0 ≡ ok tt → D.rows (D.flush s).1 ≡ D.rows s
  pub stored_flush : (s : D.State) → D.stored (D.flush s).1 ≡ D.stored s
  pub rows_refresh : (s : D.State) → D.rows (D.refresh s).1 ≡ D.rows s
  pub stored_refresh : (s : D.State) → D.stored (D.refresh s).1 ≡ D.stored s
  pub rows_commit : (s : D.State) → (D.commit s).0 ≡ ok tt → D.rows (D.commit s).1 ≡ D.rows s
  pub stored_commit : (s : D.State) → (D.commit s).0 ≡ ok tt → D.stored (D.commit s).1 ≡ D.rows s
  pub stored_commit_failed :
      (s : D.State) (e : Error) → (D.commit s).0 ≡ err e → D.stored (D.commit s).1 ≡ D.stored s
  pub rows_rollback : (s : D.State) → D.rows (D.rollback s).1 ≡ D.stored s
  pub stored_rollback : (s : D.State) → D.stored (D.rollback s).1 ≡ D.stored s
