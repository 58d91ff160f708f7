-- ===== src/Documents/Intake.antt =====
-- app/services/document_intake.py and `parse_pdf` of app/lib/pdf.py.
use structured_data_extracto.Base.{
  ℕ, ◌+◌, String, Option, or_else, List, [], ◌∷◌, ◌<>◌, show, length,
}
use structured_data_extracto.Errors.{Error, message}
use structured_data_extracto.Exec.{Result, ok, err, pure, lift, catch, ◌>>=◌}
use structured_data_extracto.Records.{Document, DocumentStatus}
use structured_data_extracto.Documents.World.{Storage, Platform, Flow, on_files, uuid4}

-- `ParsedPDF`
pub record ParsedPdf : Type 0 where
  pub pages_text : List String
  pub page_count : ℕ

abbrev pub add_page :
    String → ℕ → Result (Option String) → Result (List String) → Result (List String)
add_page filename i (ok text) (ok rest) = ok (or_else text "" ∷ rest)
add_page filename i (ok text) (err e) = err e
add_page filename i (err e) rest =
    err (Error.pdf_parse filename ("Failed to extract page " <> show i <> ": " <> message e))

unfoldable pub read_pages : String → ℕ → List (Result (Option String)) → Result (List String)
read_pages filename i [] = ok []
read_pages filename i (p ∷ ps) = add_page filename i p (read_pages filename (i + 1) ps)

abbrev pub parsed : ℕ → Result (List String) → Result ParsedPdf
parsed n (ok pages) = ok (record { pages_text = pages; page_count = n })
parsed n (err e) = err e

abbrev pub parse_opened : String → Result (List (Result (Option String))) → Result ParsedPdf
parse_opened filename (err e) = err (Error.pdf_parse filename (message e))
parse_opened filename (ok []) = err (Error.pdf_parse filename "PDF does not contain any pages")
parse_opened filename (ok (p ∷ ps)) = parsed (length (p ∷ ps)) (read_pages filename 0 (p ∷ ps))

unfoldable pub parse_pdf : (F : Storage) → F.Bytes → String → Result ParsedPdf
parse_pdf F content filename = parse_opened filename (F.open_pdf content)

pub record IntakeResult : Type 0 where
  pub document : Document
  pub pages_text : List String

module _ (P : Platform) where
  -- `prepare_document`
  unfoldable pub prepare_document : P.storage.Bytes → String → DocumentStatus → Flow P IntakeResult
  prepare_document content filename status = do
    document_id ← uuid4 P
    pdf ← lift (parse_pdf P.storage content filename)
    file_path ← on_files P (P.storage.save (show document_id) content filename)
    pure (record {
      document = record {
        id = document_id;
        filename = filename;
        file_path = file_path;
        file_size_bytes = P.storage.size content;
        page_count = pdf.page_count;
        status = status;
      };
      pages_text = pdf.pages_text;
    })

  -- `load_document`
  unfoldable pub load_document : Document → Flow P (List String)
  load_document document = do
    content ← on_files P (P.storage.load document.file_path)
    pdf ← lift (parse_pdf P.storage content document.filename)
    pure pdf.pages_text

  -- `delete_upload`, which logs a failure and goes on.
  unfoldable pub delete_upload : String → Flow P (Unit {0})
  delete_upload file_path = catch (on_files P (P.storage.delete file_path)) (λ e. pure tt)
