-- ===== src/Pages/Runner/Tokens.antt =====
-- Tokens and failures in the strategies of app/services/page_extraction.py.
use structured_data_extracto.Base.{
  ℕ, String, not, ◌&&◌, ◌+◌, List, [], ◌∷◌, ◌≡◌, ◌≢◌, Option, map, refl, arith, codes, strip,
  nonempty, ltb, Bool-cases, inl, inr,
}
use structured_data_extracto.Errors.{Error, ExtractionFailure}
use structured_data_extracto.Exec.{Result, ok, err, Exec, lift, pure, ◌>>=◌}
use structured_data_extracto.Schema.{DocType, get_schema}
use structured_data_extracto.ToolCall.{Extracted}
use structured_data_extracto.Pages.Text.{
  enumerate, select_pages, format_page, join_pages, or_index_error,
}
use structured_data_extracto.Pages.Runner.{
  Strategy, StrategyResult, Sweep, no_pages, record_page, page_step, sweep, conclude, finish,
  one_call, extract_page_by_page, extract_full_document, extract_smart, extract_from_pages,
}

pub get_schema_own :
    (doc_type : String) {e : Error} (f : ExtractionFailure)
    → get_schema doc_type ≡ err e
    → e ≢ Error.extraction f
unfolding get_schema
get_schema_own doc_type f h k = ground arith

index_error_own :
    (o : Option (List (ℕ × String))) {e : Error} (f : ExtractionFailure)
    → or_index_error o ≡ err e
    → e ≢ Error.extraction f
index_error_own o f h k = ground arith

select_pages_own :
    (pages : List String) {e : Error} (f : ExtractionFailure)
    → select_pages pages ≡ err e
    → e ≢ Error.extraction f
unfolding select_pages
select_pages_own [] f h k = cc
select_pages_own (p ∷ ps) f h k = index_error_own _ f h k

-- What a run reports, as a result or in an `ExtractionError`, is what a meter on the state has
-- counted. Any other exception reports nothing.
module _ {S A : Type 0} (input output : S → ℕ) (in_of out_of : A → ℕ) where
  abbrev pub Charged : S → Result A → S → Type 0
  Charged s (ok a) s' = (input s' ≡ input s + in_of a) × (output s' ≡ output s + out_of a)
  Charged s (err (Error.extraction e)) s' =
      (input s' ≡ input s + e.input_tokens) × (output s' ≡ output s + e.output_tokens)
  Charged s (err _) s' = Unit

module _ {S : Type 0} (input output : S → ℕ) where
  abbrev pub ChargedText : S → Result Extracted → S → Type 0
  ChargedText = Charged input output (λ x. x.input_tokens) (λ x. x.output_tokens)

  abbrev pub ChargedPages : S → Result StrategyResult → S → Type 0
  ChargedPages = Charged input output (λ x. x.input_tokens) (λ x. x.output_tokens)

  -- From the totals `w` in `s` to those of the result in `s'`.
  abbrev SweptFrom : Sweep → S → Result Sweep → S → Type 0
  SweptFrom w s (ok w') s' =
      (input s' + w.input_tokens ≡ input s + w'.input_tokens)
      × (output s' + w.output_tokens ≡ output s + w'.output_tokens)
  SweptFrom w s (err (Error.extraction e)) s' = ⊥
  SweptFrom w s (err _) s' = Unit

  SweptFrom-trans :
      (w : Sweep) (s : S) (r : Result Sweep) (s' : S) (w' : Sweep) (t : S)
      → SweptFrom w s (ok w') t
      → SweptFrom w' t r s'
      → SweptFrom w s r s'
  SweptFrom-trans w s (ok x) s' w' t h k = omega arith
  SweptFrom-trans w s (err (Error.extraction e)) s' w' t h k = k
  SweptFrom-trans w s (err _) s' w' t h k = tt

  record_page-SweptFrom :
      (i : ℕ) (w : Sweep) (s : S) (r : Result Extracted) (s' : S)
      → ChargedText s r s'
      → SweptFrom w s (record_page i w r) s'
  unfolding record_page
  record_page-SweptFrom i w s (ok x) s' h = omega arith
  record_page-SweptFrom i w s (err (Error.extraction e)) s' h = omega arith
  record_page-SweptFrom i w s (err _) s' h = tt

  module _ (extract : String → String → Exec S Extracted) (doc_type : String)
      (charges : (text : String) (s : S)
        → let out = extract text doc_type s in ChargedText s out.0 out.1) where
    page_step-SweptFrom :
        (i : ℕ) (text : String) (w : Sweep) (s : S)
        → let out = page_step extract doc_type i text w s in SweptFrom w s out.0 out.1
    unfolding page_step
    page_step-SweptFrom i text w s = elim (Bool-cases (nonempty (strip (codes text)))) [
      | inl e ↦ rw e (record_page-SweptFrom i w s _ _ (charges (format_page i text) s))
      | inr e ↦ rw e (refl, refl)
    ]

    then-SweptFrom :
        (next : Sweep → Exec S Sweep) (w : Sweep) (s : S) (r : Result Sweep) (t : S)
        → SweptFrom w s r t
        → ((w' : Sweep) → let out = next w' t in SweptFrom w' t out.0 out.1)
        → let out = (λ (_ : S). (r, t)) >>= next in SweptFrom w s (out s).0 (out s).1
    then-SweptFrom next w s (ok w') t h k = SweptFrom-trans w s _ _ w' t h (k w')
    then-SweptFrom next w s (err (Error.extraction e)) t h k = h
    then-SweptFrom next w s (err _) t h k = tt

    sweep-SweptFrom :
        (pages : List (ℕ × String)) (w : Sweep) (s : S)
        → let out = sweep extract doc_type pages w s in SweptFrom w s out.0 out.1
    unfolding sweep
    sweep-SweptFrom [] w s = (refl, refl)
    sweep-SweptFrom ((i, text) ∷ pages) w s =
        then-SweptFrom (sweep extract doc_type pages) w s _ _ (page_step-SweptFrom i text w s)
          (λ w'. sweep-SweptFrom pages w' _)

    raise-Charged :
        (s s' : S) (w : Sweep) (e : Error)
        → ((f : ExtractionFailure) → e ≢ Error.extraction f)
        → ChargedPages s (err e) s'
    raise-Charged s s' w (Error.extraction f) own = absurd (own f refl)
    raise-Charged s s' w _ own = tt

    merge-Charged :
        (w : Sweep) (s t : S) (schema : Result DocType)
        → get_schema doc_type ≡ schema
        → SweptFrom no_pages s (ok w) t
        → let out = (lift schema >>= λ d. pure (conclude w d)) t in ChargedPages s out.0 out.1
    unfolding conclude
    merge-Charged w s t (ok d) e h = omega arith
    merge-Charged w s t (err x) e h = raise-Charged s t w x (λ f. get_schema_own doc_type f e)

    finish-Charged :
        (w : Sweep) (s t : S)
        → SweptFrom no_pages s (ok w) t
        → let out = finish extract doc_type w t in ChargedPages s out.0 out.1
    unfolding finish
    finish-Charged w s t h = elim (Bool-cases (ltb 0 w.failures && not (nonempty w.per_page))) [
      | inl e ↦ rw e (omega arith)
      | inr e ↦ rw e (merge-Charged w s t (get_schema doc_type) refl h)
    ]

    then_finish-Charged :
        (s : S) (r : Result Sweep) (t : S)
        → SweptFrom no_pages s r t
        → let out = ((λ (_ : S). (r, t)) >>= finish extract doc_type) s in
          ChargedPages s out.0 out.1
    then_finish-Charged s (ok w) t h = finish-Charged w s t h
    then_finish-Charged s (err (Error.extraction e)) t h = absurd h
    then_finish-Charged s (err _) t h = tt

    page_by_page-Charged :
        (pages : List String) (s : S)
        → let out = extract_page_by_page extract doc_type pages s in ChargedPages s out.0 out.1
    unfolding extract_page_by_page
    page_by_page-Charged pages s =
        then_finish-Charged s _ _ (sweep-SweptFrom (enumerate 0 pages) no_pages s)

    one_call-Charged :
        (strategy : Strategy) (from : List ℕ) (s : S) (r : Result Extracted) (t : S)
        → ChargedText s r t
        → let out =
            ((λ (_ : S). (r, t)) >>= λ x. pure (one_call extract doc_type strategy from x)) s in
          ChargedPages s out.0 out.1
    one_call-Charged strategy from s (ok x) t h = h
    one_call-Charged strategy from s (err (Error.extraction e)) t h = h
    one_call-Charged strategy from s (err _) t h = tt

    full-Charged :
        (pages : List String) (s : S)
        → let out = extract_full_document extract doc_type pages s in ChargedPages s out.0 out.1
    unfolding extract_full_document
    full-Charged pages s = one_call-Charged Strategy.full _ s _ _ (charges _ s)

    smart_with-Charged :
        (s : S) (r : Result (List (ℕ × String)))
        → ((e : Error) → r ≡ err e → (f : ExtractionFailure) → e ≢ Error.extraction f)
        → let out =
            (lift r >>= λ ps. extract (join_pages ps) doc_type >>= λ x.
            pure (one_call extract doc_type Strategy.smart (map (λ p. p.0) ps) x))
              s in
          ChargedPages s out.0 out.1
    smart_with-Charged s (ok ps) own = one_call-Charged Strategy.smart _ s _ _ (charges _ s)
    smart_with-Charged s (err x) own = raise-Charged s s no_pages x (own x refl)

    smart-Charged :
        (pages : List String) (s : S)
        → let out = extract_smart extract doc_type pages s in ChargedPages s out.0 out.1
    unfolding extract_smart
    smart-Charged pages s =
        smart_with-Charged s (select_pages pages) (λ x e f. select_pages_own pages f e)

    -- Whatever the strategy, the tokens of the result, or of the `ExtractionError` that is raised,
    -- are those that the text extractor has charged: pages that failed, that gave nothing useful or
    -- whose fields lost the merge are counted too.
    pub extract_from_pages-Charged :
        (pages : List String) (strategy : Strategy) (s : S)
        → let out = extract_from_pages extract doc_type pages strategy s in
          ChargedPages s out.0 out.1
    unfolding extract_from_pages
    extract_from_pages-Charged pages Strategy.full s = full-Charged pages s
    extract_from_pages-Charged pages Strategy.smart s = smart-Charged pages s
    extract_from_pages-Charged pages Strategy.page_by_page s = page_by_page-Charged pages s
