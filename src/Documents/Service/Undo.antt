-- ===== src/Documents/Service/Undo.antt =====
-- How `_process_uploaded_inline` of app/services/documents.py takes an upload back.
use structured_data_extracto.Base.{String, Bool, true, false, ◌≡◌, refl, if◌then◌else◌}
use structured_data_extracto.Errors.{Error}
use structured_data_extracto.Exec.{Result, ok, err, pure, catch}
use structured_data_extracto.Records.{Document}
use structured_data_extracto.Documents.World.{Platform, World}
use structured_data_extracto.Documents.Intake.{delete_upload}
use structured_data_extracto.Documents.Service.{undo_upload}

module _ (P : Platform) where
  swallowed :
      (r : Result (Unit {0})) (w w' : World P)
      → catch (λ (_ : World P). (r, w')) (λ e. pure tt) w ≡ (ok tt, w')
  swallowed (ok _) w w' = refl
  swallowed (err e) w w' = refl

  pub delete_upload_ok :
      (path : String) (w : World P)
      → delete_upload P path w ≡ (ok tt, record w { files = (P.storage.delete path w.files).1 })
  unfolding delete_upload
  delete_upload_ok path w = swallowed (P.storage.delete path w.files).0 w _

  -- When the rollback succeeds, the handler raises the exception that it caught, with the session rolled
  -- back; it calls for the deletion of the uploaded file exactly if the document was not created; and a
  -- deletion that fails changes nothing of this.
  pub undo_upload-undoes :
      (d : Document) (document_created : Bool) (e : Error) (w : World P)
      → (P.session.rollback w.db).0 ≡ ok tt
      → undo_upload P d document_created e w ≡ (
        err e,
        record w {
          db = (P.session.rollback w.db).1;
          files = if document_created then w.files else (P.storage.delete d.file_path w.files).1;
        },
      )
  unfolding undo_upload
  undo_upload-undoes d true e w h = rw h refl
  undo_upload-undoes d false e w h = rw (h, delete_upload_ok d.file_path _) refl
