-- ===== src/Lib.antt =====
-- A model of structured-data-extractor, a service that extracts structured data from PDF documents
-- with a language model, and theorems on it.
--
-- A request reaches `DocumentService` (app/services/documents.py). It takes a new upload in or loads a
-- stored document (app/services/document_intake.py), has its pages processed
-- (app/services/document_processor.py), and records the outcome (app/services/audit.py) through the
-- repositories (app/repositories) in one database session. To process pages is to classify the
-- document if its type is not given (app/services/classifier.py), to extract its fields by one of
-- three strategies over its pages (app/services/page_extraction.py,
-- app/services/tool_call_extractor.py), and to validate and score what came out
-- (app/services/validation.py, app/lib/confidence.py).
--
-- The files, with the code each is about:
--   Base           lists, texts and dictionaries as Python's lists, str and dict are used
--   Errors, Exec   app/core/exceptions.py; flows with a state that return or raise
--   Value, Schema  JSON values; app/schemas/registry.py and the fields of app/schemas/documents.py
--   Llm            app/integrations/llm/client.py
--   ToolCall       app/services/tool_call_extractor.py
--   Pages          app/services/page_extraction.py: Text (selection), Merge, Runner (strategies)
--   Money          decimal.Decimal as the validation uses it
--   Confidence     app/lib/confidence.py
--   Validation     app/services/validation.py: Fields, Quality, and the recovery of partial results
--   Classifier     app/services/classifier.py
--   Processor      app/services/document_processor.py, app/services/extraction_pipeline.py
--   Records        app/models; the session behind app/repositories
--   Documents      app/services/documents.py: World (state), Sat (rules for flows), Intake, Audit,
--                  Service (flows), Entry (`extract_document`, the worker's job, and what they store),
--                  Batch (results, and the tasks under its semaphore), Amend (corrections, reads of
--                  documents and extractions), Request (`get_db` of app/core/database.py)
--   Corrections    the diff of app/services/corrections.py
--   Costs          app/services/cost_report.py; Queries, over the stored rows, of app/repositories
--   Uploads        app/api/validation.py
--   Files          app/infrastructure/storage.py: names, LocalStorage over a file system
--   LiteLlm        app/integrations/llm/litellm_client.py: Schema (JSON schemas), Client, and the
--                  extraction through it
--   Http           app/api/exception_handlers.py, app/api/v1/endpoints
--   Evaluation     scripts/evaluate_strategies.py
--   Settings       app/core/config.py; Startup, the start and the stop of app/core/lifecycle.py
--   Tests          concrete runs
--
-- Parameters. The provider (`LlmClient`), pydantic (`Pydantic`), the database session (`Session`,
-- with `SessionLaws` for what SQLAlchemy documents), the storage, PyMuPDF, the clock and the job
-- queue are arguments of the definitions. A clock gives milliseconds. Identifiers are drawn from a
-- counter, for `uuid4`. LiteLLM's completions, `json.loads` and pydantic's JSON schemas are a
-- `Provider`. A session that always succeeds is `Reliable`, which only the theorems that say so
-- assume.
--
-- Bounds. The retry loop of the tool call has fuel beside its test, one more than the most calls,
-- and any more fuel gives the same; an upload is read in `rounds` rounds, and more than the bytes of
-- the file are enough; a JSON schema is simplified with as many nested references as Python's stack
-- has room for, and more than their rank are enough; all other loops are over lists. Numbers are
-- natural numbers, Python's integers having no width; scores are in hundredths. Sums of money keep
-- Python's precision of 28 digits.
--
-- Not modelled: FastAPI's routing and parsing of parameters, symbolic links, the reading of the
-- environment, the database engine's construction, migrations, the command line of the script, and
-- columns that hold dates, which the report queries take as functions of the identifiers. In a
-- batch, what an item ends with is an input. A float that JSON holds stands for the decimal that it
-- prints. Of a completion, `choices` is a list and the arguments in JSON are an object or null.
-- Decimals are read in ASCII digits. The text of a job's strategy is one of the three that the queue
-- is given.
pub mod Base
pub mod Errors
pub mod Exec
pub mod Value
pub mod Schema
pub mod Llm
pub mod ToolCall
pub mod Pages
pub mod Money
pub mod Confidence
pub mod Validation
pub mod Classifier
pub mod Processor
pub mod Records
pub mod Documents
pub mod Uploads
pub mod Files
pub mod Costs
pub mod Corrections
pub mod LiteLlm
pub mod Http
pub mod Evaluation
pub mod Settings
pub mod Startup
pub mod Tests
