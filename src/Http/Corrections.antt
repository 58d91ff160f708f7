-- ===== src/Http/Corrections.antt =====
-- `POST /documents/extractions/{extraction_id}/correct` of app/api/v1/endpoints/documents.py.
use structured_data_extracto.Base.{
  ℕ, String, Option, none, some, List, ◌≡◌, ◌⊎◌, inl, inr, refl, ap, Option-cases, Dict,
}
use structured_data_extracto.Exec.{Result, ok, err}
use structured_data_extracto.Value.{Value}
use structured_data_extracto.Validation.{ValidationResult, validate_extraction}
use structured_data_extracto.Records.{Extraction, Correction}
use structured_data_extracto.Records.Store.{Tables, SessionLaws, with_correction, find_extraction}
use structured_data_extracto.Documents.World.{Platform, World}
use structured_data_extracto.Documents.Sat.{Sat, At}
use structured_data_extracto.Documents.Amend.{
  CorrectionRequest, correction_row, correct, correct_extraction, require_extraction,
}
use structured_data_extracto.Documents.Amend.Stored.{
  Corrected, CorrectedData, AllOrNothing, correct-Corrected,
}
use structured_data_extracto.Http.Responses.{Detail, Reply, answered, failed, reply, respond}
use structured_data_extracto.Http.Endpoints.{correct_endpoint}

module _ {P : Platform} (L : SessionLaws P.session) (T S : Tables) (id : ℕ) (q : CorrectionRequest)
    (w : World P) where
  -- A response with the correction, which is then stored; or a failure that left it whole or out.
  abbrev Stores : Correction → Reply Correction × World P → Type 0
  Stores row (answered code c, w') =
      (code ≡ 201) × (c ≡ row) × (P.session.stored w'.db ≡ with_correction row T)
  Stores row (_, w') =
      (P.session.stored w'.db ≡ S) ⊎ (P.session.stored w'.db ≡ with_correction row T)

  abbrev refused : ℕ → Detail → Reply Correction × World P
  refused status_code detail = (failed (record { status_code = status_code; detail = detail }), w)

  abbrev OfData :
      Extraction → List String → Option (Dict Value) → Reply Correction × World P → Type 0
  OfData x warnings none out = out ≡ refused 422 (Detail.warnings warnings)
  OfData x warnings (some values) out = Stores (correction_row x q values warnings w.next_id) out

  abbrev OfValidation : Extraction → Result ValidationResult → Reply Correction × World P → Type 0
  OfValidation x (err e) out = out ≡ (reply 201 (err e), w)
  OfValidation x (ok v) out = OfData x v.warnings v.extracted_data out

  abbrev pub OfRow : Option Extraction → Reply Correction × World P → Type 0
  OfRow none out = out ≡ refused 404 (Detail.text "Extraction not found")
  OfRow (some x) out =
      OfValidation x (validate_extraction P.engine.pydantic x.doc_type q.corrected_data) out

  module _ (h : At {P = P} T S w.next_id w) where
    Stores-Sat :
        (row : Correction) (r : Result Correction) (w' : World P)
        → Sat {P = P}
            (λ a w''. (a ≡ row) × (P.session.stored w''.db ≡ with_correction row T))
            (AllOrNothing L T S (with_correction row T))
            (r, w')
        → Stores row (reply 201 r, w')
    Stores-Sat row (ok c) w' s = (refl, s.0, s.1)
    Stores-Sat row (err e) w' s = elim (Option-cases (respond e)) [
      | inl f ↦ rw f s
      | inr (r, f) ↦ rw f s
    ]

    data-OfData :
        (x : Extraction) (warnings : List String) (values : Option (Dict Value))
        (out : Result Correction × World P)
        → CorrectedData L T S x q w h warnings values out
        → OfData x warnings values (reply 201 out.0, out.1)
    unfolding respond
    data-OfData x warnings none out c = ap (λ o. (reply 201 o.0, o.1)) c
    data-OfData x warnings (some values) (r, w') c =
        Stores-Sat (correction_row x q values warnings w.next_id) r w' c

    validation-OfValidation :
        (x : Extraction) (v : Result ValidationResult) (out : Result Correction × World P)
        → Corrected L T S x q w h v out
        → OfValidation x v (reply 201 out.0, out.1)
    validation-OfValidation x (err e) out c = ap (λ o. (reply 201 o.0, o.1)) c
    validation-OfValidation x (ok v) out c = data-OfData x v.warnings v.extracted_data out c

    found-OfRow :
        (found : Option Extraction)
        → find_extraction id (P.session.rows w.db).extractions ≡ found
        → OfRow found (correct_endpoint P id q w)
    unfolding correct_endpoint correct_extraction require_extraction respond
    found-OfRow none e = rw e refl
    found-OfRow (some x) e = rw e (
        validation-OfValidation x
          (validate_extraction P.engine.pydantic x.doc_type q.corrected_data) (correct P x q w)
          (correct-Corrected L T S x q w h))

    -- With a lawful session, a request to correct an extraction is answered with 404 if there is no row
    -- of the identifier, and with 422 and the warnings if the validation gives up on the data; both
    -- leave the world as it was, as does an exception of the validation. Otherwise the answer is 201
    -- with the correction, which is then committed and is the only new row; or a failure, after which
    -- the committed tables have that row and all else, or are as before.
    pub correct_endpoint-OfRow :
        OfRow (find_extraction id (P.session.rows w.db).extractions) (correct_endpoint P id q w)
    correct_endpoint-OfRow = found-OfRow (find_extraction id (P.session.rows w.db).extractions) refl
