-- ===== src/Documents/Entry/Refusal.antt =====
-- The check of the input of `extract_document` in app/services/documents.py.
use structured_data_extracto.Base.{ℕ, String, Bool, Option, none, some, is_some, ◌≡◌, refl, arith}
use structured_data_extracto.Exec.{err}
use structured_data_extracto.Pages.Runner.{Strategy}
use structured_data_extracto.Documents.World.{Platform, World}
use structured_data_extracto.Documents.Entry.{
  both, refused, choose_input, extract_input, extract_document, invalid_input,
}

choose_input-refused :
    {B : Type 0} (u : Option (B × String)) (id : Option ℕ)
    → is_some u ≡ is_some id
    → choose_input u id ≡ refused
unfolding choose_input
choose_input-refused none none e = refl
choose_input-refused (some u) (some id) e = refl
choose_input-refused (some u) none e = ground arith
choose_input-refused none (some id) e = ground arith

-- A request with an upload and a document, or with neither, is refused with the error on its input, and
-- nothing of the world changes: no row, no file, no call, and no identifier drawn. A lone content or a
-- lone file name is no upload.
pub extract_document-IsRefused :
    (P : Platform) (has_pool async_mode : Bool) (content : Option P.storage.Bytes)
    (filename : Option String) (document_id : Option ℕ) (doc_type : Option String)
    (strategy : Option Strategy) (w : World P)
    → is_some (both content filename) ≡ is_some document_id
    → extract_document P has_pool async_mode content filename document_id doc_type strategy w
      ≡ (err invalid_input, w)
unfolding extract_document extract_input
extract_document-IsRefused P has_pool async_mode content filename document_id doc_type strategy w
      e =
    rw (choose_input-refused (both content filename) document_id e)
