-- ===== src/Tests/Documents.antt =====
-- Runs of the document services over a session kept in memory.
use structured_data_extracto.Base.{
  ◌+◌, String, true, none, some, List, [], ◌∷◌, ◌≡◌, inr, refl, map, length,
}
use structured_data_extracto.Errors.{Error}
use structured_data_extracto.Exec.{Result, ok, err, catch}
use structured_data_extracto.Pages.Runner.{Strategy}
use structured_data_extracto.Classifier.{Purpose}
use structured_data_extracto.Validation.{ExtractionStatus}
use structured_data_extracto.Processor.{
  ProcessingResult, raised, process_pages, resolve_input, run_pipeline, resolve_as,
}
use structured_data_extracto.Records.{Document, DocumentStatus}
use structured_data_extracto.Records.Store.{
  Tables, Session, SessionLaws, with_document, with_extraction, with_usage, with_correction,
}
use structured_data_extracto.Documents.World.{Storage, Platform, World}
use structured_data_extracto.Documents.Sat.{Sat}
use structured_data_extracto.Documents.Audit.{to_response}
use structured_data_extracto.Documents.Intake.{IntakeResult}
use structured_data_extracto.Documents.Service.{
  Response, inline, process_document_pages, process_found, process_created, undo_upload,
}
use structured_data_extracto.Documents.Service.Settled.{Settled, process_document_pages-IsSettled}
use structured_data_extracto.Documents.Service.Final.{Reliable, StoredFinal, process_found-IsFinal}
use structured_data_extracto.Documents.Service.Stuck.{process_created-StaysProcessing}
use structured_data_extracto.Documents.Service.{process_uploaded_inline}
use structured_data_extracto.Documents.Entry.Inline.{
  Succeeds, Fails, process_uploaded_inline-IsStored,
}
use structured_data_extracto.Documents.Batch.{batch_extract}
use structured_data_extracto.Documents.Batch.Counts.{Reports, batch_extract-IsComplete}
use structured_data_extracto.Tests.Provider.{unused, engine, answered}
use structured_data_extracto.Tests.Extraction.{three_pages}

-- What the session holds, and what is committed.
abbrev pub memory : Session
memory = record {
  State = Tables × Tables;
  rows = λ s. s.0;
  stored = λ s. s.1;
  add_document = λ d (rows, stored). (with_document d rows, stored);
  add_extraction = λ x (rows, stored). (with_extraction x rows, stored);
  add_usage = λ u (rows, stored). (with_usage u rows, stored);
  add_correction = λ c (rows, stored). (with_correction c rows, stored);
  flush = λ s. (ok tt, s);
  commit = λ (rows, stored). (ok tt, (rows, rows));
  rollback = λ (rows, stored). (ok tt, (stored, stored));
  refresh = λ s. (ok tt, s);
}

abbrev pub memory_laws : SessionLaws memory
memory_laws = record {
  rows_document = λ d s. refl;
  stored_document = λ d s. refl;
  rows_extraction = λ x s. refl;
  stored_extraction = λ x s. refl;
  rows_usage = λ u s. refl;
  stored_usage = λ u s. refl;
  rows_correction = λ c s. refl;
  stored_correction = λ c s. refl;
  rows_flush = λ s e. refl;
  stored_flush = λ s. refl;
  rows_refresh = λ s. refl;
  stored_refresh = λ s. refl;
  rows_commit = λ s e. refl;
  stored_commit = λ s e. refl;
  stored_commit_failed = λ s e p. absurd (answered tt e p);
  rows_rollback = λ s. refl;
  stored_rollback = λ s. refl;
}

abbrev pub memory_reliable : Reliable memory
memory_reliable = record { flush_ok = λ s. refl; commit_ok = λ s. refl }

-- Every file is a document of three pages.
abbrev pub disk : Storage
disk = record {
  State = Unit {0};
  Bytes = String;
  size = λ b. 3;
  save = λ id b name s. (ok name, s);
  load = λ path s. (ok path, s);
  delete = λ path s. (ok tt, s);
  open_pdf = λ b. ok (map (λ p. ok (some p)) three_pages);
}

abbrev pub platform : Platform
platform = record {
  engine = engine;
  session = memory;
  storage = disk;
  enqueue = λ id t s n. (err (Error.queue "refused"), n);
}

abbrev pub upload_row : Document
upload_row = record {
  id = 0;
  filename = "a.pdf";
  file_path = "0/a.pdf";
  file_size_bytes = 3;
  page_count = 3;
  status = DocumentStatus.uploaded;
}

abbrev pub tables : Tables
tables = record { documents = upload_row ∷ []; extractions = []; usages = []; corrections = [] }

abbrev pub world : World platform
world = record { db = (tables, tables); files = tt; net = unused; next_id = 1 }

abbrev pub outcome : ProcessingResult
outcome = record {
  pipeline = record {
    doc_type = "invoice";
    extraction = record {
      raw_output = [];
      input_tokens = 20;
      output_tokens = 8;
      strategy = Strategy.smart;
      source_pages = 0 ∷ 2 ∷ [];
      field_source_pages = none;
      warnings = [];
    };
    validation = record { extracted_data = none; warnings = []; status = ExtractionStatus.failed };
    confidence_map = [];
    warnings = [];
    duration_ms = 5;
  };
  classifier_usage_events =
      record { purpose = Purpose.classifier; model = "small"; input_tokens = 7; output_tokens = 1 }
      ∷ [];
}

process_uploaded_inline-IsStored_example :
    Sat {P = platform}
      (Succeeds platform tables tables 1 "b.pdf")
      (Fails platform tables tables 1 "b.pdf")
      (process_uploaded_inline platform "%PDF" "b.pdf" none none world)
process_uploaded_inline-IsStored_example =
    process_uploaded_inline-IsStored memory_laws tables tables 1 "b.pdf" "%PDF" none none world
      (refl, refl, refl)

process_document_pages-IsSettled_example :
    Settled {P = platform} memory_laws tables tables 1 upload_row
      (process_pages engine three_pages 3 none none (engine.now unused).1).0
      (process_document_pages platform upload_row three_pages none none world)
process_document_pages-IsSettled_example =
    process_document_pages-IsSettled memory_laws tables tables 1 upload_row three_pages none none
      world (refl, refl, refl)

process_found-IsFinal_example :
    Sat {P = platform}
      (λ _. StoredFinal {P = platform} memory_laws memory_reliable upload_row)
      (λ _. StoredFinal {P = platform} memory_laws memory_reliable upload_row)
      (process_found platform none none upload_row world)
process_found-IsFinal_example =
    process_found-IsFinal memory_laws memory_reliable upload_row none none world

abbrev pub intake : IntakeResult
intake = record { document = upload_row; pages_text = three_pages }

letter_refused :
    (s : engine.client.State)
    → (process_pages engine three_pages 3 (some "letter") none s).0
      ≡ raised (Error.unsupported_document_type "letter")
unfolding process_pages resolve_input resolve_as run_pipeline
letter_refused s = refl

process_created-StaysProcessing_example :
    Sat {P = platform}
      (λ _ _. ⊥)
      (λ _ w.
        w.db.1 ≡ with_document (record upload_row { status = DocumentStatus.processing }) tables)
      (catch
        (process_created platform intake (some "letter") none)
        (undo_upload platform upload_row true)
        world)
process_created-StaysProcessing_example =
    process_created-StaysProcessing memory_laws memory_reliable intake (some "letter") none
      (Error.unsupported_document_type "letter") world letter_refused

abbrev pub batch : List (String × Result Response)
batch =
    ("a.pdf", ok (inline (to_response platform 1 0 outcome.pipeline)))
    ∷ ("b.pdf", err (Error.pdf_parse "b.pdf" "no pages"))
    ∷ []

failed_status : Reports ("a.pdf", ok (inline (to_response platform 1 0 outcome.pipeline)))
unfolding to_response
failed_status = inr (inr (inr refl))

batch_extract-IsComplete_example :
    (map (λ r. r.filename) (batch_extract batch).results ≡ map (λ f. f.0) batch)
    × ((batch_extract batch).total ≡ length batch)
    × ((batch_extract batch).succeeded + (batch_extract batch).failed ≡ (batch_extract batch).total)
batch_extract-IsComplete_example = batch_extract-IsComplete batch (failed_status, (tt, tt))
