-- ===== src/Costs/Counts.antt =====
-- The statistics of the cost report (app/repositories/extractions.py, app/services/cost_report.py) count
-- each extraction of the period once.
use structured_data_extracto.Base.{
  ℕ, suc, ◌+◌, String, true, false, Option, none, List, [], ◌∷◌, ◌≡◌, ◌∙◌, refl, ap, arith, ◌==◌,
  eq_iff, eq_refl, if◌then◌else◌, Bool-cases, Option-cases, inl, inr, Dict, get, put, get-put, has,
  values, length, map, sum_of,
}
use structured_data_extracto.Records.{Extraction}
use structured_data_extracto.Records.Store.{Tables}
use structured_data_extracto.Costs.{StatsRow, DocTypeCost, empty_cost_row, stats_breakdown}
use structured_data_extracto.Costs.Totals.{amount_at, sum_of-put}
use structured_data_extracto.Costs.Queries.{
  in_range, add_duration, durations_by, stats_row, stats_report,
}

-- No key stands twice.
abbrev Distinct {ℓ} : {V : Type ℓ} → Dict V → Type 0
Distinct [] = Unit
Distinct ((k, v) ∷ d) = (has d k ≡ false) × Distinct d

module _ {V : Type 0} where
  put-Distinct : (d : Dict V) (k : String) (v : V) → Distinct d → Distinct (put d k v)
  unfolding put get
  put-Distinct [] k v h = (refl, tt)
  put-Distinct ((j, w) ∷ d) k v h = elim (Bool-cases (j == k)) [
    | inl e ↦ rw e h
    | inr e ↦ rw e (new e, put-Distinct d k v h.1)
  ]
    where
      new : (j == k) ≡ false → has (put d k v) j ≡ false
      new e = rw (get-put d k v j) (ground (arith, h.0, eq_iff k j, eq_iff j k))

  -- The keys of one dict are not in another.
  abbrev Apart : {W : Type 0} → Dict V → Dict W → Type 0
  Apart D d = (k : String) → has D k ≡ true → get d k ≡ none

  here : (k : String) (v : V) (D : Dict V) → has ((k, v) ∷ D) k ≡ true
  unfolding get
  here k v D = rw (eq_refl k) refl

  put-Apart :
      {W : Type 0} (k : String) (v : V) (D : Dict V) (d : Dict W) (w : W)
      → has D k ≡ false
      → Apart ((k, v) ∷ D) d
      → Apart D (put d k w)
  unfolding get
  put-Apart k v D d w new apart j h = elim (Bool-cases (k == j)) [
    | inl e ↦ absurd (clash e)
    | inr e ↦ get-put d k w j ∙ rw e (apart j (rw e h))
  ]
    where
      clash : (k == j) ≡ true → ⊥
      clash e = ground (arith, ap (has D) ((eq_iff k j).0 e))

-- A duration is one more.
added :
    (d : Dict (List ℕ)) (k : String) (n : ℕ)
    → sum_of length (values (add_duration k n d)) ≡ suc (sum_of length (values d))
added d k n = elim (Option-cases (get d k)) [
  | inl e ↦ rw e (omega (arith, sum_of-put length d k (n ∷ []), ap (amount_at length) e))
  | inr (ns, e) ↦ rw e (omega (arith, sum_of-put length d k (n ∷ ns), ap (amount_at length) e))
]

-- The extractions of the period.
abbrev pub counted_extraction : (ℕ → ℕ) → Option ℕ → Option ℕ → Extraction → ℕ
counted_extraction extraction_date from_date to_date x =
    if in_range from_date to_date (extraction_date x.id) then 1 else 0

module _ (extraction_date : ℕ → ℕ) (from_date to_date : Option ℕ) {Float : Type 0} (no_time : Float)
    (average : List ℕ → Float) where
  abbrev count : DocTypeCost Float → ℕ
  count c = c.count

  abbrev row_of : String × List ℕ → StatsRow Float
  row_of = stats_row extraction_date from_date to_date average

  stats_breakdown-counts :
      (D : Dict (List ℕ)) (d : Dict (DocTypeCost Float))
      → Distinct D
      → Apart D d
      → sum_of count (values (stats_breakdown no_time (map row_of D) d))
        ≡ sum_of count (values d) + sum_of length (values D)
  unfolding stats_breakdown values get
  stats_breakdown-counts [] d distinct apart = omega arith
  stats_breakdown-counts ((k, ns) ∷ D) d distinct apart =
      let c = empty_cost_row no_time (row_of (k, ns)) in
      omega (
        arith,
        stats_breakdown-counts D (put d k c) distinct.1 (put-Apart k ns D d c distinct.0 apart),
        sum_of-put count d k c,
        ap (amount_at count) (apart k (here k ns D)),
      )

  module _ (column : Extraction → String) where
    abbrev by_column : List Extraction → Dict (List ℕ)
    by_column xs = durations_by extraction_date from_date to_date column xs

    durations_by-Distinct : (xs : List Extraction) → Distinct (by_column xs)
    unfolding durations_by
    durations_by-Distinct [] = tt
    durations_by-Distinct (x ∷ xs) =
        elim (Bool-cases (in_range from_date to_date (extraction_date x.id))) [
          | inl e ↦ rw e (put-Distinct (by_column xs) (column x) _ (durations_by-Distinct xs))
          | inr e ↦ rw e (durations_by-Distinct xs)
        ]

    durations_by-length :
        (xs : List Extraction)
        → sum_of length (values (by_column xs))
          ≡ sum_of (counted_extraction extraction_date from_date to_date) xs
    unfolding durations_by values
    durations_by-length [] = refl
    durations_by-length (x ∷ xs) =
        elim (Bool-cases (in_range from_date to_date (extraction_date x.id))) [
          | inl e ↦ rw e (
              omega (
                arith,
                added (by_column xs) (column x) x.extraction_duration_ms,
                durations_by-length xs,
              ))
          | inr e ↦ rw e (omega (arith, durations_by-length xs))
        ]

    -- The statistics by a column count each extraction of the period once.
    pub stats_report-counts :
        (t : Tables)
        → sum_of count (
            values (
              stats_breakdown no_time
                (stats_report extraction_date from_date to_date average column t)
                []))
          ≡ sum_of (counted_extraction extraction_date from_date to_date) t.extractions
    unfolding stats_report values get
    stats_report-counts t =
        stats_breakdown-counts (by_column t.extractions) [] (durations_by-Distinct t.extractions)
          (λ k h. refl)
        ∙ (omega arith ∙ durations_by-length t.extractions)
