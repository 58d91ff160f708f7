-- ===== src/Tests/Http.antt =====
-- Requests to the endpoints of app/api/v1/endpoints/documents.py, over the session kept in memory.
use structured_data_extracto.Base.{false, none, some, ◌≡◌, ◌⊎◌, inl, inr, refl, contains}
use structured_data_extracto.Schema.{list_types}
use structured_data_extracto.Records.Store.{find_extraction}
use structured_data_extracto.Http.Responses.{JsonResponse, failed}
use structured_data_extracto.Http.Endpoints.{extract_endpoint, correct_endpoint}
use structured_data_extracto.Http.Uploaded.{ReadableFile, opened_of}
use structured_data_extracto.Http.Requests.{extract_endpoint-IsRefusal}
use structured_data_extracto.Http.Corrections.{OfRow, correct_endpoint-OfRow}
use structured_data_extracto.Tests.Documents.{platform, world, memory_laws}
use structured_data_extracto.Tests.Requests.{file, file_laws, bytes, one_byte, five_rounds}
use structured_data_extracto.Tests.Amend.{corrected_invoice, recorded_world}

abbrev readable : ReadableFile 5
readable = record {
  opened = record { file = file; state = bytes };
  laws = file_laws;
  enough = five_rounds;
}

no_letter : contains list_types "letter" ≡ false
no_letter = refl

extract_endpoint-IsRefusal_example :
    (r : JsonResponse) × (extract_endpoint 100 1 5 platform
        (λ b. "%PDF")
        false
        (opened_of (some readable))
        none
        (some "letter")
        none
        false
        world
      ≡ (failed r, world))
    × ((r.status_code ≡ 400) ⊎ (r.status_code ≡ 413))
extract_endpoint-IsRefusal_example =
    extract_endpoint-IsRefusal platform (λ b. "%PDF") false false 100 1 5 (some readable) none
      (some "letter") none world one_byte (inr (inl no_letter))

correct_endpoint-OfRow_example :
    OfRow {P = platform} memory_laws recorded_world.db.0 recorded_world.db.1 1 corrected_invoice
      recorded_world
      (find_extraction 1 recorded_world.db.0.extractions)
      (correct_endpoint platform 1 corrected_invoice recorded_world)
correct_endpoint-OfRow_example =
    correct_endpoint-OfRow memory_laws recorded_world.db.0 recorded_world.db.1 1 corrected_invoice
      recorded_world (refl, refl, refl)
