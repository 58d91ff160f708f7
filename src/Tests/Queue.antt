-- ===== src/Tests/Queue.antt =====
-- An upload while the job queue refuses, and one that is queued.
use structured_data_extracto.Base.{true, none, some, ◌≡◌, refl}
use structured_data_extracto.Exec.{ok}
use structured_data_extracto.Records.Store.{Tables}
use structured_data_extracto.Documents.World.{Platform, World}
use structured_data_extracto.Documents.Sat.{Sat}
use structured_data_extracto.Documents.Audit.{create_row}
use structured_data_extracto.Documents.Intake.{read_pages, parse_pdf, prepare_document}
use structured_data_extracto.Documents.Service.{AsyncResponse, queued, create_document}
use structured_data_extracto.Documents.Entry.{enqueue_extraction, enqueue_uploaded, extraction_job}
use structured_data_extracto.Documents.Entry.Uploaded.{Answered, Raises, enqueue_uploaded-IsStored}
use structured_data_extracto.Documents.Entry.{extract_document}
use structured_data_extracto.Documents.Entry.Answers.{IsStored, Any}
use structured_data_extracto.Documents.Entry.Answered.{extract_document-IsStored}
use structured_data_extracto.Documents.Entry.Worked.{EndsFinal, queued_upload-EndsFinal}
use structured_data_extracto.Tests.Provider.{unused}
use structured_data_extracto.Tests.Documents.{memory_laws, memory_reliable, platform, tables, world}

enqueue_uploaded-IsStored_example :
    Sat {P = platform}
      (Answered {P = platform} memory_laws tables tables 1 "b.pdf")
      (Raises {P = platform} memory_laws tables tables 1 "b.pdf")
      (enqueue_uploaded platform true true "%PDF" "b.pdf" none none world)
enqueue_uploaded-IsStored_example =
    enqueue_uploaded-IsStored memory_laws tables tables 1 "%PDF" "b.pdf" none none world
      (refl, refl, refl)

-- The platform with a queue that takes the job.
abbrev queueing : Platform
queueing = record platform { enqueue = λ id t s n. (ok (some "job"), n) }

abbrev before : World queueing
before = record { db = world.db; files = tt; net = unused; next_id = 1 }

abbrev told : AsyncResponse
told = record { document_id = 1; job_id = "job"; status = "processing" }

after_upload :
    (enqueue_uploaded queueing true true "%PDF" "b.pdf" none none before).0 ≡ ok (queued told)
unfolding enqueue_uploaded prepare_document parse_pdf read_pages create_document create_row
    enqueue_extraction
after_upload = refl

abbrev committed : Tables
committed = (enqueue_uploaded queueing true true "%PDF" "b.pdf" none none before).1.db.1

-- The worker has a session of its own.
abbrev worker : World queueing
worker = record { db = (committed, committed); files = tt; net = unused; next_id = 2 }

queued_upload-EndsFinal_example :
    EndsFinal {P = queueing} 1 (extraction_job queueing 1 none none worker).1
queued_upload-EndsFinal_example =
    queued_upload-EndsFinal memory_laws memory_reliable none none "%PDF" "b.pdf" told before worker
      after_upload refl

extract_document-IsStored_example :
    Sat {P = queueing}
      (IsStored {P = queueing})
      Any
      (extract_document queueing true true (some "%PDF") (some "b.pdf") none none none before)
extract_document-IsStored_example =
    extract_document-IsStored memory_laws none none true true before (some "%PDF") (some "b.pdf")
      none
