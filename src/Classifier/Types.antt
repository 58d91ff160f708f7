-- ===== src/Classifier/Types.antt =====
-- The answers of app/services/classifier.py.
use structured_data_extracto.Base.{
  ℕ, String, Bool, true, ◌||◌, List, [], ◌∷◌, ◌≡◌, refl, arith, contains, eq_refl, codes, lower,
  strip, text_eq, Bool-cases, inl, inr, ◌==◌,
}
use structured_data_extracto.Errors.{Error}
use structured_data_extracto.Exec.{Result, ok, err}
use structured_data_extracto.Schema.{list_types}
use structured_data_extracto.Llm.{LlmClient, TextCompletionResult}
use structured_data_extracto.Classifier.{
  ClassificationResult, unknown_doc_type, find_type, read_type, classified, classify,
}

abbrev pub is_answer : String → Bool
is_answer t = contains list_types t || (t == unknown_doc_type)

find_type_among :
    (ts : List String) (n : List ℕ)
    → (contains ts (find_type ts n) || (find_type ts n == unknown_doc_type)) ≡ true
unfolding find_type
find_type_among [] n = eq_refl unknown_doc_type
find_type_among (t ∷ ts) n = elim (Bool-cases (text_eq (lower (codes t)) n)) [
  | inl e ↦ rw (e, eq_refl) refl
  | inr e ↦ rw e (ground (arith, find_type_among ts n))
]

read_type-is_answer : (content : String) → is_answer (read_type content) ≡ true
unfolding read_type
read_type-is_answer content =
    elim (Bool-cases (text_eq (lower (strip (codes content))) (codes unknown_doc_type))) [
      | inl e ↦ rw e refl
      | inr e ↦ rw e (find_type_among list_types (lower (strip (codes content))))
    ]

module _ (C : LlmClient) (model : String) where
  abbrev pub Answers : Result ClassificationResult → Type 0
  Answers (ok c) = is_answer c.doc_type ≡ true
  Answers (err e) = Unit

  classified-Answers : (r : Result TextCompletionResult) → Answers (classified model r)
  classified-Answers (ok c) = read_type-is_answer c.content
  classified-Answers (err (Error.llm_client m)) = tt
  classified-Answers (err _) = tt

  -- Whatever the provider replies, a document is classified as one of the registered types or as
  -- `unknown`.
  pub classify-Answers : (text : String) (s : C.State) → Answers (classify C model text s).0
  unfolding classify
  classify-Answers text s = classified-Answers _
