-- ===== src/Pages/Runner/Sources.antt =====
-- Where a page-by-page result of app/services/page_extraction.py comes from.
use structured_data_extracto.Base.{
  ℕ, ◌<◌, String, true, false, not, ◌&&◌, none, some, or_else, any, elem, map, ap, values, List, [],
  ◌∷◌, ◌≡◌, ◌∙◌, sym, ◌⊎◌, ◌≢◌, refl, arith, All, codes, strip, nonempty, ltb, length, Bool-cases,
  inl, inr,
}
use structured_data_extracto.Errors.{Error, ExtractionFailure}
use structured_data_extracto.Exec.{Result, ok, err, Exec, lift, pure, ◌>>=◌}
use structured_data_extracto.Schema.{DocType, get_schema, field_names}
use structured_data_extracto.ToolCall.{Extracted}
use structured_data_extracto.Pages.Text.{enumerate}
use structured_data_extracto.Pages.Runner.Tokens.{get_schema_own}
use structured_data_extracto.Pages.Runner.{
  StrategyResult, skip_warning, Sweep, no_pages, record_page, page_step, sweep, conclude, finish,
  extract_page_by_page,
}
use structured_data_extracto.Pages.Merge.{merge_results, no_merge}
use structured_data_extracto.Pages.Runner.Outcomes.{
  failed_pages, useful_pages, broken_by, outcomes, Follows, sweep-Follows,
}
use structured_data_extracto.Pages.Runner.Sweeps.{
  IsSweep, Swept, number, number-enumerate, IsPageResult, record_page-IsSweep,
  conclude-IsPageResult, elem-sorted_union,
}

-- How a page-by-page run may end, by what the extractor gave for the pages: with a merge of the useful
-- pages, with `ExtractionError`, or with the exception that broke the loop off.
abbrev pub IsPageOutcome : List (ℕ × Result Extracted) → String → ℕ → Result StrategyResult → Type 0
IsPageOutcome os doc_type n (ok r) =
    (d : DocType) × (get_schema doc_type ≡ ok d)
    × IsPageResult (field_names d) n r
    × (broken_by os ≡ none)
    × ((failed_pages os ≡ []) ⊎ (nonempty (useful_pages os) ≡ true))
    × (r.warnings ≡ map skip_warning (failed_pages os))
    × (r.raw_output ≡ (merge_results (field_names d) (useful_pages os) no_merge).merged)
    × ((i : ℕ) → elem i r.source_pages ≡ any (elem i) (values (or_else r.field_source_pages [])))
IsPageOutcome os doc_type n (err (Error.extraction e)) =
    (broken_by os ≡ none)
    × (useful_pages os ≡ [])
    × (e.attempts ≡ length (failed_pages os))
    × (0 < e.attempts)
IsPageOutcome os doc_type n (err x) =
    (broken_by os ≡ some x) ⊎ ((broken_by os ≡ none) × (get_schema doc_type ≡ err x))

worth :
    {A : Type 0} (is : List ℕ) (ps : List A)
    → (ltb 0 (length is) && not (nonempty ps)) ≡ false
    → (is ≡ []) ⊎ (nonempty ps ≡ true)
worth [] ps e = inl refl
worth (i ∷ is) [] e = ground arith
worth (i ∷ is) (p ∷ ps) e = inr refl

none_useful : {A : Type 0} (n : ℕ) (ps : List A) → (ltb 0 n && not (nonempty ps)) ≡ true → ps ≡ []
none_useful n [] e = refl
none_useful n (p ∷ ps) e = ground arith

module _ {S : Type 0} (extract : String → String → Exec S Extracted) (doc_type : String)
    (n : ℕ) where
  page_step-Swept :
      (i : ℕ) (text : String) (w : Sweep) (s : S)
      → i < n
      → IsSweep n w
      → Swept n (page_step extract doc_type i text w s).0
  unfolding page_step
  page_step-Swept i text w s low h = elim (Bool-cases (nonempty (strip (codes text)))) [
    | inl e ↦ rw e (record_page-IsSweep n i low w h _)
    | inr e ↦ rw e h
  ]

  then-Swept :
      (next : Sweep → Exec S Sweep) (r : Result Sweep) (t : S)
      → Swept n r
      → ((w : Sweep) → IsSweep n w → Swept n (next w t).0)
      → Swept n (((λ (_ : S). (r, t)) >>= next) t).0
  then-Swept next (ok w) t h k = k w h
  then-Swept next (err e) t h k = tt

  sweep-Swept :
      (pages : List (ℕ × String)) (w : Sweep) (s : S)
      → All (λ i. i < n) (number pages)
      → IsSweep n w
      → Swept n (sweep extract doc_type pages w s).0
  unfolding sweep
  sweep-Swept [] w s low h = h
  sweep-Swept ((i, text) ∷ pages) w s low h =
      then-Swept (sweep extract doc_type pages) _ _ (page_step-Swept i text w s low.0 h)
        (λ w' k. sweep-Swept pages w' _ low.1 k)

  module _ (os : List (ℕ × Result Extracted)) (w : Sweep) (t : S) (h : IsSweep n w)
      (f : Follows no_pages os (ok w)) where
    failures_count : w.failures ≡ length (failed_pages os)
    failures_count = omega (arith, f.2)

    -- The test behind the loop, on its variables and on the outcomes.
    same_guard :
        (ltb 0 w.failures && not (nonempty w.per_page))
        ≡ (ltb 0 (length (failed_pages os)) && not (nonempty (useful_pages os)))
    same_guard =
        ap (λ k. ltb 0 k && not (nonempty w.per_page)) failures_count
        ∙ ap (λ ps. ltb 0 (length (failed_pages os)) && not (nonempty ps)) f.1

    merged-IsPageOutcome :
        (schema : Result DocType)
        → get_schema doc_type ≡ schema
        → (ltb 0 w.failures && not (nonempty w.per_page)) ≡ false
        → IsPageOutcome os doc_type n ((lift schema >>= λ d. pure (conclude w d)) t).0
    unfolding conclude
    merged-IsPageOutcome (ok d) e g = (
      d,
      e,
      conclude-IsPageResult n w d h,
      f.0,
      worth (failed_pages os) (useful_pages os) (sym same_guard ∙ g),
      f.3,
      ap (λ ps. (merge_results (field_names d) ps no_merge).merged) f.1,
      λ i. elem-sorted_union i _,
    )
    merged-IsPageOutcome (err (Error.extraction x)) e g = absurd (get_schema_own doc_type x e refl)
    merged-IsPageOutcome (err _) e g = inr (f.0, e)

    finish-IsPageOutcome : IsPageOutcome os doc_type n (finish extract doc_type w t).0
    unfolding finish
    finish-IsPageOutcome = elim (Bool-cases (ltb 0 w.failures && not (nonempty w.per_page))) [
      | inl e ↦ rw e (
        f.0,
        none_useful (length (failed_pages os)) (useful_pages os) (sym same_guard ∙ e),
        failures_count,
        ground (arith, e),
      )
      | inr e ↦ rw e (merged-IsPageOutcome (get_schema doc_type) refl e)
    ]

  then_finish-IsPageOutcome :
      (os : List (ℕ × Result Extracted)) (r : Result Sweep) (t : S)
      → Swept n r
      → Follows no_pages os r
      → ((e : ExtractionFailure) → r ≢ err (Error.extraction e))
      → IsPageOutcome os doc_type n (((λ (_ : S). (r, t)) >>= finish extract doc_type) t).0
  then_finish-IsPageOutcome os (ok w) t h f own = finish-IsPageOutcome os w t h f
  then_finish-IsPageOutcome os (err (Error.extraction e)) t h f own = absurd (own e refl)
  then_finish-IsPageOutcome os (err _) t h f own = inl f

  record_page_own :
      (i : ℕ) (w : Sweep) (r : Result Extracted) (e : ExtractionFailure)
      → record_page i w r ≢ err (Error.extraction e)
  unfolding record_page
  record_page_own i w (ok x) e h = cc
  record_page_own i w (err (Error.extraction f)) e h = cc
  record_page_own i w (err _) e h = cc

  page_step_own :
      (i : ℕ) (text : String) (w : Sweep) (s : S) (e : ExtractionFailure)
      → (page_step extract doc_type i text w s).0 ≢ err (Error.extraction e)
  unfolding page_step
  page_step_own i text w s e = elim (Bool-cases (nonempty (strip (codes text)))) [
    | inl b ↦ rw b (record_page_own i w _ e)
    | inr b ↦ rw b (λ h. cc)
  ]

  then_own :
      (next : Sweep → Exec S Sweep) (r : Result Sweep) (t : S) (e : ExtractionFailure)
      → r ≢ err (Error.extraction e)
      → ((w : Sweep) → (next w t).0 ≢ err (Error.extraction e))
      → (((λ (_ : S). (r, t)) >>= next) t).0 ≢ err (Error.extraction e)
  then_own next (ok w) t e h k = k w
  then_own next (err x) t e h k = h

  sweep_own :
      (pages : List (ℕ × String)) (w : Sweep) (s : S) (e : ExtractionFailure)
      → (sweep extract doc_type pages w s).0 ≢ err (Error.extraction e)
  unfolding sweep
  sweep_own [] w s e = λ h. cc
  sweep_own ((i, text) ∷ pages) w s e =
      then_own (sweep extract doc_type pages) _ _ e (page_step_own i text w s e)
        (λ w'. sweep_own pages w' _ e)

module _ {S : Type 0} (extract : String → String → Exec S Extracted) (doc_type : String) where
  -- A page-by-page run takes the pages with text in order. An exception of the extractor other than
  -- `ExtractionError` ends it. Otherwise, if a page failed and none gave a useful field, it ends with an
  -- `ExtractionError` that counts the failed pages, at least one. Otherwise it returns a well-formed merge
  -- of the useful pages, with one warning for each failed page in order, and its source pages are those
  -- of its fields; or, for a type without schema, the error of the schema is raised.
  pub page_by_page-IsPageOutcome :
      (pages : List String) (s : S)
      → IsPageOutcome
          (outcomes extract doc_type (enumerate 0 pages) s)
          doc_type
          (length pages)
          (extract_page_by_page extract doc_type pages s).0
  unfolding extract_page_by_page
  page_by_page-IsPageOutcome pages s =
      then_finish-IsPageOutcome extract doc_type (length pages)
        (outcomes extract doc_type (enumerate 0 pages) s) _ _
        (sweep-Swept extract doc_type (length pages) (enumerate 0 pages) no_pages s
          (number-enumerate (length pages) 0 pages (omega arith))
          (record { inside = tt; warned = refl }))
        (sweep-Follows extract doc_type (enumerate 0 pages) no_pages s)
        (sweep_own extract doc_type (length pages) (enumerate 0 pages) no_pages s)
