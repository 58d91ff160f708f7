-- ===== src/Documents/Sat.antt =====
-- Rules for the flows of app/services/documents.py: what holds of the tables when a flow returns, and
-- when it raises.
use structured_data_extracto.Base.{ℕ, ◌⊎◌, inl, inr, ◌≡◌, ◌∙◌, refl, sym, ap, subst}
use structured_data_extracto.Errors.{Error}
use structured_data_extracto.Exec.{Result, ok, err, ◌>>=◌, catch}
use structured_data_extracto.Records.{Document, Extraction, LlmUsage, Correction}
use structured_data_extracto.Records.Store.{
  Session, SessionLaws, Tables, with_document, with_extraction, with_usage, with_correction,
}
use structured_data_extracto.Documents.World.{Platform, World, Flow, on_db, change_db}

-- The session raises the exception, in some state of it.
abbrev pub IsOfSession : Session → Error → Type 0
IsOfSession D e =
    (s : D.State) × (((D.flush s).0 ≡ err e)
      ⊎ (((D.commit s).0 ≡ err e) ⊎ ((D.refresh s).0 ≡ err e)))

module _ {P : Platform} where
  abbrev Ends :
      {A : Type 0}
      → (A → World P → Type 0)
      → (Error → World P → Type 0)
      → Result A
      → World P
      → Type 0
  Ends Q F (ok a) w = Q a w
  Ends Q F (err e) w = F e w

  -- The outcome of a flow meets `Q` if it returns and `F` if it raises.
  abbrev pub Sat :
      {A : Type 0}
      → (A → World P → Type 0)
      → (Error → World P → Type 0)
      → Result A × World P
      → Type 0
  Sat Q F out = Ends Q F out.0 out.1

  bind_result-Sat :
      {A B : Type 0} (Q : A → World P → Type 0) (R : B → World P → Type 0)
      (F : Error → World P → Type 0) (r : Result A) (f : A → Flow P B) (w w' : World P)
      → Ends Q F r w'
      → ((a : A) → Q a w' → Sat R F (f a w'))
      → Sat R F (((λ (_ : World P). (r, w')) >>= f) w)
  bind_result-Sat Q R F (ok a) f w w' h k = k a h
  bind_result-Sat Q R F (err e) f w w' h k = h

  pub bind-Sat :
      {A B : Type 0} (Q : A → World P → Type 0) (R : B → World P → Type 0)
      (F : Error → World P → Type 0) (m : Flow P A) (f : A → Flow P B) (w : World P)
      → Sat Q F (m w)
      → ((a : A) (w' : World P) → Q a w' → Sat R F (f a w'))
      → Sat R F ((m >>= f) w)
  bind-Sat Q R F m f w h k = bind_result-Sat Q R F (m w).0 f w (m w).1 h (λ a q. k a (m w).1 q)

  weaken_result-Sat :
      {A : Type 0} (Q R : A → World P → Type 0) (F : Error → World P → Type 0) (r : Result A)
      (w : World P)
      → Ends Q F r w
      → ((a : A) (w' : World P) → Q a w' → R a w')
      → Ends R F r w
  weaken_result-Sat Q R F (ok a) w h k = k a w h
  weaken_result-Sat Q R F (err e) w h k = h

  pub weaken-Sat :
      {A : Type 0} (Q R : A → World P → Type 0) (F : Error → World P → Type 0)
      (out : Result A × World P)
      → Sat Q F out
      → ((a : A) (w' : World P) → Q a w' → R a w')
      → Sat R F out
  weaken-Sat Q R F out h k = weaken_result-Sat Q R F out.0 out.1 h k

  relax_result-Sat :
      {A : Type 0} (Q : A → World P → Type 0) (F G : Error → World P → Type 0) (r : Result A)
      (w : World P)
      → Ends Q F r w
      → ((e : Error) (w' : World P) → F e w' → G e w')
      → Ends Q G r w
  relax_result-Sat Q F G (ok a) w h k = h
  relax_result-Sat Q F G (err e) w h k = k e w h

  pub relax-Sat :
      {A : Type 0} (Q : A → World P → Type 0) (F G : Error → World P → Type 0)
      (out : Result A × World P)
      → Sat Q F out
      → ((e : Error) (w' : World P) → F e w' → G e w')
      → Sat Q G out
  relax-Sat Q F G out h k = relax_result-Sat Q F G out.0 out.1 h k

  -- A flow that is known to return cannot raise.
  pub returned-Sat :
      {A : Type 0} (Q : A → World P → Type 0) (F G : Error → World P → Type 0)
      (out : Result A × World P) (a : A)
      → out.0 ≡ ok a
      → Sat Q F out
      → Sat Q G out
  returned-Sat Q F G out a e h =
      subst (λ r. Ends Q G r out.1) (sym e) (subst (λ r. Ends Q F r out.1) e h)

  caught-Sat :
      {A : Type 0} (Q : A → World P → Type 0) (F G : Error → World P → Type 0) (r : Result A)
      (f : Error → Flow P A) (w w' : World P)
      → Ends Q F r w'
      → ((e : Error) → F e w' → Sat Q G (f e w'))
      → Sat Q G (catch (λ (_ : World P). (r, w')) f w)
  caught-Sat Q F G (ok a) f w w' h k = h
  caught-Sat Q F G (err e) f w w' h k = k e h

  pub catch-Sat :
      {A : Type 0} (Q : A → World P → Type 0) (F G : Error → World P → Type 0) (m : Flow P A)
      (f : Error → Flow P A) (w : World P)
      → Sat Q F (m w)
      → ((e : Error) (w' : World P) → F e w' → Sat Q G (f e w'))
      → Sat Q G (catch m f w)
  catch-Sat Q F G m f w h k = caught-Sat Q F G (m w).0 f w (m w).1 h (λ e q. k e (m w).1 q)

  -- What the session and the identifiers are at.
  abbrev pub At : Tables → Tables → ℕ → World P → Type 0
  At rows stored n w =
      (P.session.rows w.db ≡ rows) × (P.session.stored w.db ≡ stored) × (w.next_id ≡ n)

  -- Nothing has been committed, and the exception is the session's.
  abbrev pub Unstored : Tables → Error → World P → Type 0
  Unstored stored e w = (P.session.stored w.db ≡ stored) × IsOfSession P.session e

module _ {P : Platform} (L : SessionLaws P.session) (T S : Tables) (n : ℕ) where
  pub add_document-Sat :
      (d : Document) (w : World P)
      → At {P = P} T S n w
      → Sat
          (λ _. At {P = P} (with_document d T) S n)
          (Unstored S)
          (change_db P (P.session.add_document d) w)
  add_document-Sat d w (r, s, i) =
      (L.rows_document d w.db ∙ ap (with_document d) r, L.stored_document d w.db ∙ s, i)

  pub add_extraction-Sat :
      (x : Extraction) (w : World P)
      → At {P = P} T S n w
      → Sat
          (λ _. At {P = P} (with_extraction x T) S n)
          (Unstored S)
          (change_db P (P.session.add_extraction x) w)
  add_extraction-Sat x w (r, s, i) =
      (L.rows_extraction x w.db ∙ ap (with_extraction x) r, L.stored_extraction x w.db ∙ s, i)

  pub add_usage-Sat :
      (u : LlmUsage) (w : World P)
      → At {P = P} T S n w
      → Sat
          (λ _. At {P = P} (with_usage u T) S n)
          (Unstored S)
          (change_db P (P.session.add_usage u) w)
  add_usage-Sat u w (r, s, i) =
      (L.rows_usage u w.db ∙ ap (with_usage u) r, L.stored_usage u w.db ∙ s, i)

  pub add_correction-Sat :
      (c : Correction) (w : World P)
      → At {P = P} T S n w
      → Sat
          (λ _. At {P = P} (with_correction c T) S n)
          (Unstored S)
          (change_db P (P.session.add_correction c) w)
  add_correction-Sat c w (r, s, i) =
      (L.rows_correction c w.db ∙ ap (with_correction c) r, L.stored_correction c w.db ∙ s, i)

  flushed :
      (w : World P) (r : Result (Unit {0}))
      → (P.session.flush w.db).0 ≡ r
      → At {P = P} T S n w
      → Ends (λ _. At {P = P} T S n) (Unstored S) r (record w { db = (P.session.flush w.db).1 })
  flushed w (ok _) e (r, s, i) = (L.rows_flush w.db e ∙ r, L.stored_flush w.db ∙ s, i)
  flushed w (err x) e (r, s, i) = (L.stored_flush w.db ∙ s, (w.db, inl e))

  pub flush-Sat :
      (w : World P)
      → At {P = P} T S n w
      → Sat (λ _. At {P = P} T S n) (Unstored S) (on_db P P.session.flush w)
  flush-Sat w h = flushed w _ refl h

  refreshed :
      (w : World P) (r : Result (Unit {0}))
      → (P.session.refresh w.db).0 ≡ r
      → At {P = P} T S n w
      → Ends (λ _. At {P = P} T S n) (Unstored S) r (record w { db = (P.session.refresh w.db).1 })
  refreshed w (ok _) e (r, s, i) = (L.rows_refresh w.db ∙ r, L.stored_refresh w.db ∙ s, i)
  refreshed w (err x) e (r, s, i) = (L.stored_refresh w.db ∙ s, (w.db, inr (inr e)))

  pub refresh-Sat :
      (w : World P)
      → At {P = P} T S n w
      → Sat (λ _. At {P = P} T S n) (Unstored S) (on_db P P.session.refresh w)
  refresh-Sat w h = refreshed w _ refl h

  committed :
      (w : World P) (r : Result (Unit {0}))
      → (P.session.commit w.db).0 ≡ r
      → At {P = P} T S n w
      → Ends (λ _. At {P = P} T T n) (Unstored S) r (record w { db = (P.session.commit w.db).1 })
  committed w (ok _) e (r, s, i) = (L.rows_commit w.db e ∙ r, L.stored_commit w.db e ∙ r, i)
  committed w (err x) e (r, s, i) = (L.stored_commit_failed w.db x e ∙ s, (w.db, inr (inl e)))

  -- A commit stores the rows of the session, or raises and stores nothing.
  pub commit-Sat :
      (w : World P)
      → At {P = P} T S n w
      → Sat (λ _. At {P = P} T T n) (Unstored S) (on_db P P.session.commit w)
  commit-Sat w h = committed w _ refl h
