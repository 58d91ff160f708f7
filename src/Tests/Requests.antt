-- ===== src/Tests/Requests.antt =====
-- Runs of the checks of a request and of the diff of a correction: an upload that is read byte by
-- byte, a batch of two, and a corrected invoice.
use structured_data_extracto.Base.{
  ℕ, ◌+◌, ◌<◌, ◌≤◌, ◌≡◌, some, List, [], ◌∷◌, ◌++◌, refl, arith, ltb, length, if◌then◌else◌, Dict,
  get,
}
use structured_data_extracto.Exec.{Result, ok, err}
use structured_data_extracto.Uploads.{
  UploadFile, Opened, file_too_large, read_chunks, valid_pdf_batch,
}
use structured_data_extracto.Value.{Value, str}
use structured_data_extracto.Corrections.{diff_extraction_data}
use structured_data_extracto.Corrections.Steps.{Holds}
use structured_data_extracto.Corrections.Partition.{diff_extraction_data-Holds}
use structured_data_extracto.Uploads.Bounds.{
  UploadLaws, Admits, read_chunks-outcome, valid_pdf_batch-Admits,
}

abbrev read_byte : ℕ → List ℕ → Result (List ℕ) × List ℕ
read_byte n [] = (ok [], [])
read_byte n (b ∷ bs) = (ok (b ∷ []), bs)

abbrev pub file : UploadFile
file = record {
  State = List ℕ;
  content_type = some "application/pdf";
  filename = some "a.pdf";
  read = read_byte;
  close = λ s. (ok tt, s);
}

pub read_byte_ok :
    (n : ℕ) (s : List ℕ)
    → (chunk : List ℕ) × ((read_byte n s).0 ≡ ok chunk) × (s ≡ chunk ++ (read_byte n s).1)
read_byte_ok n [] = ([], refl, refl)
read_byte_ok n (b ∷ bs) = (b ∷ [], refl, refl)

pub read_byte_end : (n : ℕ) (s : List ℕ) → 0 < n → (read_byte n s).0 ≡ ok [] → s ≡ []
read_byte_end n [] p e = refl
read_byte_end n (b ∷ bs) p e = ground arith

abbrev pub file_laws : UploadLaws file
file_laws = record {
  unread = λ s. s;
  read_ok = read_byte_ok;
  read_end = read_byte_end;
  close_ok = λ s. refl;
}

abbrev pub bytes : List ℕ
bytes = 37 ∷ 80 ∷ 68 ∷ 70 ∷ []

pub one_byte : 0 < 1
one_byte = omega arith

no_bytes : 0 ≤ 3
no_bytes = omega arith

pub five_rounds : length bytes < 5
five_rounds = omega arith

read_chunks-outcome_example :
    (read_chunks file 3 1 5 0 bytes).0
    ≡ (if ltb 3 (0 + length bytes) then err file_too_large else ok bytes)
read_chunks-outcome_example =
    read_chunks-outcome file file_laws 3 1 one_byte 5 0 bytes no_bytes five_rounds

abbrev two_files : List Opened
two_files = record { file = file; state = bytes } ∷ record { file = file; state = bytes } ∷ []

valid_pdf_batch-Admits_example : Admits 2 (valid_pdf_batch 100 1 9 two_files)
valid_pdf_batch-Admits_example = valid_pdf_batch-Admits 100 1 9 two_files

abbrev original_data : Dict Value
original_data = ("vendor_name", str "ACME") ∷ ("tax_amount", str "1") ∷ []

abbrev corrected_data : Dict Value
corrected_data = ("vendor_name", str "ACME Ltd") ∷ ("currency", str "USD") ∷ []

diff_extraction_data-Holds_example :
    Holds
      (diff_extraction_data original_data corrected_data)
      "vendor_name"
      (get original_data "vendor_name")
      (get corrected_data "vendor_name")
diff_extraction_data-Holds_example =
    diff_extraction_data-Holds original_data corrected_data "vendor_name"
