-- ===== src/Pages/Runner/Sweeps.antt =====
-- The invariant of the loop over the pages in app/services/page_extraction.py, and the result that it
-- leads to.
use structured_data_extracto.Base.{
  ℕ, ◌+◌, ◌<◌, ◌≤◌, String, Bool, true, false, some, or_else, List, [], ◌∷◌, ◌++◌, ◌≡◌, refl, arith,
  All, IsStrictlySorted, insert_sorted-Ascends, insert_sorted-All, elem-insert_sorted, any, elem,
  Dict, get, has, contains, length, length-append, if◌then◌else◌,
}
use structured_data_extracto.Errors.{Error}
use structured_data_extracto.Exec.{Result, ok, err}
use structured_data_extracto.Value.{Value}
use structured_data_extracto.Schema.{DocType, field_names}
use structured_data_extracto.ToolCall.{Extracted}
use structured_data_extracto.Pages.Text.{enumerate}
use structured_data_extracto.Pages.Merge.{has_useful, is_useful}
use structured_data_extracto.Pages.Merge.Keys.{ArePages, merge_results-IsMerge}
use structured_data_extracto.Pages.Runner.{
  StrategyResult, Sweep, record_page, conclude, sorted_union,
}

sorted_union-Ascends : (pss : List (List ℕ)) → IsStrictlySorted (sorted_union pss)
unfolding sorted_union
sorted_union-Ascends [] = tt
sorted_union-Ascends ([] ∷ rest) = sorted_union-Ascends rest
sorted_union-Ascends ((i ∷ is) ∷ rest) =
    insert_sorted-Ascends 0 i _ (omega arith) (sorted_union-Ascends (is ∷ rest))

sorted_union-All :
    (P : ℕ → Type 0) (pss : List (List ℕ)) → All (All P) pss → All P (sorted_union pss)
unfolding sorted_union
sorted_union-All P [] h = tt
sorted_union-All P ([] ∷ rest) h = sorted_union-All P rest h.1
sorted_union-All P ((i ∷ is) ∷ rest) h =
    insert_sorted-All P i _ h.0.0 (sorted_union-All P (is ∷ rest) (h.0.1, h.1))

pub elem-sorted_union : (i : ℕ) (pss : List (List ℕ)) → elem i (sorted_union pss) ≡ any (elem i) pss
unfolding sorted_union
elem-sorted_union i [] = refl
elem-sorted_union i ([] ∷ rest) = elem-sorted_union i rest
elem-sorted_union i ((j ∷ js) ∷ rest) =
    ground
      (arith, elem-insert_sorted i j (sorted_union (js ∷ rest)), elem-sorted_union i (js ∷ rest))

abbrev page_numbers : List (Dict Value × ℕ) → List ℕ
page_numbers [] = []
page_numbers (p ∷ ps) = p.1 ∷ page_numbers ps

-- The invariant of the loop: pages that gave a result are pages of the document, and there is one
-- warning for each page that failed.
pub record IsSweep (n : ℕ) (w : Sweep) : Type 0 where
  pub inside : All (λ i. i < n) (page_numbers w.per_page)
  pub warned : length w.warnings ≡ w.failures

abbrev pub Swept : ℕ → Result Sweep → Type 0
Swept n (ok w) = IsSweep n w
Swept n (err _) = Unit

page_numbers-All :
    (P : ℕ → Type 0) (ps : List (Dict Value × ℕ)) (p : Dict Value × ℕ)
    → All P (page_numbers ps)
    → P p.1
    → All P (page_numbers (ps ++ p ∷ []))
page_numbers-All P [] p h k = (k, tt)
page_numbers-All P (q ∷ ps) p h k = (h.0, page_numbers-All P ps p h.1 k)

module _ (n i : ℕ) (low : i < n) (w : Sweep) (h : IsSweep n w) where
  kept :
      (b : Bool) (x : Extracted)
      → All
          (λ i. i < n)
          (page_numbers (if b then w.per_page ++ (x.raw_output, i) ∷ [] else w.per_page))
  kept true x = page_numbers-All (λ i. i < n) w.per_page (x.raw_output, i) h.inside low
  kept false x = h.inside

  pub record_page-IsSweep : (r : Result Extracted) → Swept n (record_page i w r)
  unfolding record_page
  record_page-IsSweep (ok x) = record {
    inside = kept (has_useful x.raw_output) x;
    warned = h.warned;
  }
  record_page-IsSweep (err (Error.extraction e)) = record {
    inside = h.inside;
    warned = omega (arith, h.warned, length-append {0} w.warnings);
  }
  record_page-IsSweep (err _) = tt

abbrev pub number : List (ℕ × String) → List ℕ
number [] = []
number (p ∷ ps) = p.0 ∷ number ps

pub number-enumerate :
    (n i : ℕ) (pages : List String)
    → i + length pages ≤ n
    → All (λ k. k < n) (number (enumerate i pages))
number-enumerate n i [] h = tt
number-enumerate n i (text ∷ pages) h =
    (omega arith, number-enumerate n (i + 1) pages (omega arith))

-- A result over the pages of a document with `n` of them. The merged fields are fields of the
-- schema and have useful values; they are the fields whose sources are recorded; the source pages
-- are pages of the document, in strictly ascending order.
pub record IsPageResult (names : List String) (n : ℕ) (r : StrategyResult) : Type 0 where
  pub sorted : IsStrictlySorted r.source_pages
  pub inside : All (λ i. i < n) r.source_pages
  pub same : (k : String) → has r.raw_output k ≡ has (or_else r.field_source_pages []) k
  pub fields : (k : String) → has r.raw_output k ≡ true → contains names k ≡ true
  pub useful : (k : String) (v : Value) → get r.raw_output k ≡ some v → is_useful v ≡ true

All-known :
    (ps : List (Dict Value × ℕ)) (more : List ℕ)
    → All (λ i. elem i more ≡ true) (page_numbers ps)
    → All (λ p. elem p.1 more ≡ true) ps
All-known [] more h = tt
All-known (p ∷ ps) more h = (h.0, All-known ps more h.1)

elem_more :
    (j : ℕ) (known is : List ℕ)
    → All (λ i. elem i known ≡ true) is
    → All (λ i. elem i (j ∷ known) ≡ true) is
elem_more j known [] h = tt
elem_more j known (i ∷ is) h = (ground (arith, h.0), elem_more j known is h.1)

elem_self : (is : List ℕ) → All (λ i. elem i is ≡ true) is
elem_self [] = tt
elem_self (i ∷ is) = (ground arith, elem_more i is is (elem_self is))

below_of_elem : (n i : ℕ) (is : List ℕ) → All (λ k. k < n) is → elem i is ≡ true → i < n
below_of_elem n i [] h e = cc
below_of_elem n i (k ∷ is) h e = ground (arith, h.0, below_of_elem n i is h.1)

All-map {κ μ} :
    {P : ℕ → Type κ} {Q : ℕ → Type μ} (f : (i : ℕ) → P i → Q i) (is : List ℕ) → All P is → All Q is
All-map f [] h = tt
All-map f (i ∷ is) h = (f i h.0, All-map f is h.1)

ArePages-below :
    (n : ℕ) (known : List ℕ) (pss : List (List ℕ))
    → All (λ k. k < n) known
    → All (ArePages known) pss
    → All (All (λ i. i < n)) pss
ArePages-below n known [] b h = tt
ArePages-below n known (ps ∷ pss) b h =
    (All-map (λ i. below_of_elem n i known b) ps h.0.1, ArePages-below n known pss b h.1)

pub conclude-IsPageResult :
    (n : ℕ) (w : Sweep) (d : DocType) → IsSweep n w → IsPageResult (field_names d) n (conclude w d)
unfolding conclude
conclude-IsPageResult n w d h =
    let known = page_numbers w.per_page in
    let m =
      merge_results-IsMerge (field_names d) known w.per_page
        (All-known w.per_page known (elem_self known)) in
    record {
      sorted = sorted_union-Ascends _;
      inside = sorted_union-All _ _ (ArePages-below n known _ h.inside m.listed);
      same = m.same;
      fields = m.fields;
      useful = m.useful;
    }
