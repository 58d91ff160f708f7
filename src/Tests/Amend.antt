-- ===== src/Tests/Amend.antt =====
-- Runs of a correction, also in a request's session, and of the reads of a recorded success.
use structured_data_extracto.Base.{none, some, ◌∷◌, refl, ◌≡◌}
use structured_data_extracto.Value.{str}
use structured_data_extracto.Validation.{ExtractionStatus, validate_extraction}
use structured_data_extracto.Records.{Extraction}
use structured_data_extracto.Records.Store.{Tables, find_extraction}
use structured_data_extracto.Documents.Amend.{CorrectionRequest, correct, correct_extraction}
use structured_data_extracto.Documents.Amend.Stored.{Corrected, correct-Corrected}
use structured_data_extracto.Documents.World.{World}
use structured_data_extracto.Documents.Service.Atomic.{success_tables}
use structured_data_extracto.Documents.Amend.Reads.{ReadsBack, record_processing_success-ReadsBack}
use structured_data_extracto.Exec.{ok}
use structured_data_extracto.Documents.Service.{record_processing_success}
use structured_data_extracto.Documents.Audit.{
  to_response, set_status, record_success, create_from_fields, add_usage_events,
  add_classifier_events, create_usage,
}
use structured_data_extracto.Documents.Request.{Closes, get_db, get_db-Closes}
use structured_data_extracto.Tests.Provider.{vendor, pydantic}
use structured_data_extracto.Tests.Documents.{
  memory_laws, tables, world, platform, upload_row, outcome,
}

abbrev extraction : Extraction
extraction = record {
  id = 1;
  document_id = 0;
  doc_type = "invoice";
  status = ExtractionStatus.partial;
  extracted_data = some vendor;
  confidence_map = none;
  warnings = none;
  raw_tool_output = none;
  strategy = "full";
  source_pages = none;
  model_used = "large";
  input_tokens = 20;
  output_tokens = 8;
  extraction_duration_ms = 5;
}

abbrev pub corrected_invoice : CorrectionRequest
corrected_invoice = record {
  corrected_data = ("invoice_number", str "7") ∷ vendor;
  corrected_by = some "auditor";
  note = none;
}

correct-Corrected_example :
    Corrected {P = platform} memory_laws tables tables extraction corrected_invoice world
      (refl, refl, refl)
      (validate_extraction pydantic "invoice" corrected_invoice.corrected_data)
      (correct platform extraction corrected_invoice world)
correct-Corrected_example =
    correct-Corrected memory_laws tables tables extraction corrected_invoice world
      (refl, refl, refl)

abbrev pub recorded_world : World platform
recorded_world = record world { db = (success_tables "large" upload_row outcome 1 tables, tables) }

new_identifier : find_extraction 1 tables.extractions ≡ none
unfolding find_extraction
new_identifier = refl

abbrev committed : Tables
committed = (record_processing_success platform upload_row outcome world).1.db.1

-- A later session.
abbrev reader : World platform
reader = record world { db = (committed, committed) }

answers :
    (record_processing_success platform upload_row outcome world).0
    ≡ ok (to_response platform 1 0 outcome.pipeline)
unfolding record_processing_success set_status record_success create_from_fields add_usage_events
    add_classifier_events create_usage
answers = refl

record_processing_success-ReadsBack_example :
    ((to_response platform 1 0 outcome.pipeline).extraction_id ≡ 1)
    × ReadsBack platform upload_row outcome 1 reader
record_processing_success-ReadsBack_example =
    record_processing_success-ReadsBack memory_laws upload_row outcome
      (to_response platform 1 0 outcome.pipeline) world reader new_identifier answers refl

-- A correction with rows pending in the session.
get_db-Closes_example :
    Closes {P = platform}
      (correct_extraction platform 1 corrected_invoice recorded_world)
      (get_db platform (correct_extraction platform 1 corrected_invoice) recorded_world)
get_db-Closes_example =
    get_db-Closes memory_laws (correct_extraction platform 1 corrected_invoice) recorded_world
