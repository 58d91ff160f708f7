-- ===== src/Documents/Batch/Counts.antt =====
-- The counts of `batch_extract` in app/services/documents.py.
use structured_data_extracto.Base.{
  ℕ, ◌+◌, String, List, [], ◌∷◌, ◌≡◌, ◌⊎◌, inl, inr, refl, All, length, map, if◌then◌else◌, arith,
}
use structured_data_extracto.Exec.{Result, ok, err}
use structured_data_extracto.Documents.Service.{Response, inline, queued}
use structured_data_extracto.Documents.Batch.{
  BatchItem, to_batch_item, batch_item, batch_items, is_success, is_failure, count_if,
  batch_extract,
}

-- The statuses that a response of the service can have.
abbrev pub IsReported : String → Type 0
IsReported s = (s ≡ "completed") ⊎ ((s ≡ "partial") ⊎ ((s ≡ "processing") ⊎ (s ≡ "failed")))

abbrev pub response_status : Response → String
response_status (inline r) = r.status
response_status (queued r) = r.status

abbrev pub Reports : String × Result Response → Type 0
Reports (_, ok r) = IsReported (response_status r)
Reports (_, err _) = Unit

abbrev ones : BatchItem → ℕ
ones r = (if is_success r then 1 else 0) + (if is_failure r then 1 else 0)

counted_once : (r : BatchItem) → IsReported r.status → ones r ≡ 1
counted_once r (inl e) = rw e
counted_once r (inr (inl e)) = rw e
counted_once r (inr (inr (inl e))) = rw e
counted_once r (inr (inr (inr e))) = rw e

batch_item-IsReported :
    (f : String × Result Response) → Reports f → IsReported (batch_item f.0 f.1).status
unfolding batch_item to_batch_item
batch_item-IsReported (_, ok (inline r)) h = h
batch_item-IsReported (_, ok (queued r)) h = h
batch_item-IsReported (_, err e) h = inr (inr (inr refl))

batch_item_filename : (f : String × Result Response) → (batch_item f.0 f.1).filename ≡ f.0
unfolding batch_item to_batch_item
batch_item_filename (_, ok (inline r)) = refl
batch_item_filename (_, ok (queued r)) = refl
batch_item_filename (_, err e) = refl

batch_items_counts :
    (files : List (String × Result Response))
    → All Reports files
    → count_if is_success (batch_items files) + count_if is_failure (batch_items files)
      ≡ length files
unfolding batch_items
batch_items_counts [] h = refl
batch_items_counts (f ∷ fs) (p, h) =
    omega (
      arith,
      batch_items_counts fs h,
      counted_once (batch_item f.0 f.1) (batch_item-IsReported f p),
    )

pub batch_items_filenames :
    (files : List (String × Result Response))
    → map (λ r. r.filename) (batch_items files) ≡ map (λ f. f.0) files
unfolding batch_items
batch_items_filenames [] = refl
batch_items_filenames (f ∷ fs) = rw (batch_item_filename f, batch_items_filenames fs)

-- If the responses of a batch have the statuses that the service reports, `batch_extract` answers with
-- one result for each file, in the order of the files and under their names, whichever of them failed,
-- and counts each result once, as succeeded or as failed: the two counts add up to the total.
pub batch_extract-IsComplete :
    (files : List (String × Result Response))
    → All Reports files
    → (map (λ r. r.filename) (batch_extract files).results ≡ map (λ f. f.0) files)
      × ((batch_extract files).total ≡ length files)
      × ((batch_extract files).succeeded + (batch_extract files).failed
          ≡ (batch_extract files).total)
unfolding batch_extract
batch_extract-IsComplete files h = (batch_items_filenames files, refl, batch_items_counts files h)
