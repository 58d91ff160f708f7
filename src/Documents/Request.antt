-- ===== src/Documents/Request.antt =====
-- `get_db` of app/core/database.py, in whose session a request works.
use structured_data_extracto.Base.{◌≡◌, ◌∙◌, refl, sym}
use structured_data_extracto.Errors.{Error}
use structured_data_extracto.Exec.{Result, ok, err, pure, raise, catch, ◌>>=◌, ◌>>◌}
use structured_data_extracto.Records.Store.{SessionLaws}
use structured_data_extracto.Documents.World.{Platform, World, Flow, on_db}
use structured_data_extracto.Documents.Service.{commit}

module _ (P : Platform) where
  -- The session is committed after the request, and rolled back if that or the request raises.
  unfoldable pub get_db : {A : Type 0} → Flow P A → Flow P A
  get_db request =
      catch (do a ← request; commit P; pure a) (λ e. do on_db P P.session.rollback; raise e)

module _ {P : Platform} where
  -- Nothing is pending: the session has what is committed.
  abbrev pub IsClean : World P → Type 0
  IsClean w = P.session.rows w.db ≡ P.session.stored w.db

module _ {P : Platform} {A : Type 0} where
  -- What is committed, by what the request itself ended with.
  abbrev Commits : Result A × World P → Result A × World P → Type 0
  Commits ended (ok a, w) = (ended.0 ≡ ok a) × (P.session.stored w.db ≡ P.session.rows ended.1.db)
  Commits ended (err e, w) = P.session.stored w.db ≡ P.session.stored ended.1.db

  abbrev pub Closes : Result A × World P → Result A × World P → Type 0
  Closes ended out = IsClean out.1 × Commits ended out

module _ {P : Platform} (L : SessionLaws P.session) {A : Type 0} where
  undone-Closes :
      (r : Result A) (v u w : World P) (q : Result (Unit {0})) (e : Error)
      → IsClean u
      → P.session.stored u.db ≡ P.session.stored v.db
      → Closes (r, v) (((λ (_ : World P). (q, u)) >>= (λ _. raise e)) w)
  undone-Closes r v u w (ok _) e c s = (c, s)
  undone-Closes r v u w (err _) e c s = (c, s)

  abbrev undo : Error → Flow P A
  undo e = on_db P P.session.rollback >> raise e

  rollback-Closes :
      (r : Result A) (v u : World P) (e : Error)
      → P.session.stored u.db ≡ P.session.stored v.db
      → Closes (r, v) (undo e u)
  rollback-Closes r v u e s =
      undone-Closes r v (record u { db = (P.session.rollback u.db).1 }) u
        (P.session.rollback u.db).0 e (L.rows_rollback u.db ∙ sym (L.stored_rollback u.db))
        (L.stored_rollback u.db ∙ s)

  commit-Closes :
      (a : A) (v : World P) (q : Result (Unit {0}))
      → (P.session.commit v.db).0 ≡ q
      → let v' : World P = record v { db = (P.session.commit v.db).1 } in
        Closes (ok a, v) (catch ((λ (_ : World P). (q, v')) >>= (λ _. pure a)) undo v)
  commit-Closes a v (ok _) e =
      (L.rows_commit v.db e ∙ sym (L.stored_commit v.db e), (refl, L.stored_commit v.db e))
  commit-Closes a v (err x) e =
      rollback-Closes (ok a) v (record v { db = (P.session.commit v.db).1 }) x
        (L.stored_commit_failed v.db x e)

  ended-Closes :
      (r : Result A) (v w : World P)
      → Closes (r, v) (catch ((λ (_ : World P). (r, v)) >>= (λ a. commit P >> pure a)) undo w)
  ended-Closes (ok a) v w = commit-Closes a v (P.session.commit v.db).0 refl
  ended-Closes (err e) v w = rollback-Closes (err e) v v e refl

  -- After any request in a lawful session nothing is pending. If it ends with a result then the request
  -- returned that result, and all that its session held is committed. If it ends with an exception, then
  -- what is committed is what the request itself had committed.
  pub get_db-Closes : (request : Flow P A) (w : World P) → Closes (request w) (get_db P request w)
  unfolding get_db
  get_db-Closes request w = ended-Closes (request w).0 (request w).1 w
