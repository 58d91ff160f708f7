-- ===== src/Classifier.antt =====
-- app/services/classifier.py and the usage events of app/services/types.py.
pub mod Types
use structured_data_extracto.Base.{
  ℕ, zero, suc, String, Bool, Option, none, some, List, [], ◌∷◌, ◌++◌, ◌<>◌, codes, lower, strip,
  text_eq, join, if◌then◌else◌,
}
use structured_data_extracto.Errors.{Error, message}
use structured_data_extracto.Exec.{Result, ok, err, Exec}
use structured_data_extracto.Schema.{list_types}
use structured_data_extracto.Llm.{Message, TextCompletionResult, LlmClient}
use Prim.Native.String

-- `LLMUsagePurpose` of app/models/llm_usage.py
pub data Purpose : Type 0 where
  classifier extraction : Purpose

-- `LLMUsageEvent`
pub record UsageEvent : Type 0 where
  pub purpose : Purpose
  pub model : String
  pub input_tokens : ℕ
  pub output_tokens : ℕ

pub record ClassificationResult : Type 0 where
  pub doc_type : String
  pub usage : UsageEvent

abbrev pub unknown_doc_type : String
unknown_doc_type = "unknown"

abbrev pub text_preview_length : ℕ
text_preview_length = 500

-- `text[:n]`
unfoldable pub take_chars : ℕ → String → String
take_chars zero s = ""
take_chars (suc n) String.[] = ""
take_chars (suc n) (String.◌∷◌ c s) = String.◌∷◌ c (take_chars n s)

-- `CLASSIFIER_PROMPT.format(...)`
unfoldable pub classifier_prompt : String → String
unfolding join take_chars
classifier_prompt text =
    "You are a document classifier. Based on the document text below, identify the document type.\nRespond with exactly one of: "
    <> join ", " (list_types ++ unknown_doc_type ∷ [])
    <> "\n\nUse unknown when the document does not match one of those types.\n\nDocument text (first 500 chars):\n"
    <> take_chars text_preview_length text
    <> "\n\nDocument type:"

-- The lookup in `valid_type_map`, whose keys are the types in lower case.
unfoldable pub find_type : List String → List ℕ → String
unfolding lower
find_type [] normalized = unknown_doc_type
find_type (t ∷ ts) normalized =
    if text_eq (lower (codes t)) normalized then t else find_type ts normalized

unfoldable pub read_type : String → String
unfolding strip lower find_type
read_type content =
    let normalized = lower (strip (codes content)) in
    if text_eq normalized (codes unknown_doc_type)
    then unknown_doc_type
    else find_type list_types normalized

abbrev pub classified : String → Result TextCompletionResult → Result ClassificationResult
classified model (ok c) = ok (record {
  doc_type = read_type c.content;
  usage = record {
    purpose = Purpose.classifier;
    model = model;
    input_tokens = c.input_tokens;
    output_tokens = c.output_tokens;
  };
})
classified model (err (Error.llm_client m)) =
    err (Error.classification ("LLM classification failed: " <> m))
classified model (err e) = err e

module _ (C : LlmClient) (model : String) where
  -- `ClassifierService.classify`
  unfoldable pub classify : String → Exec C.State ClassificationResult
  unfolding classifier_prompt read_type
  classify first_page_text s =
      let prompt : Message = record {
        role = "user";
        content = classifier_prompt first_page_text;
      } in
      let (r, s') = C.generate_text model (prompt ∷ []) 25 s in (classified model r, s')
