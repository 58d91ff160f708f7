-- ===== src/Pages/Text/Selection.antt =====
-- What `select_pages` of app/services/page_extraction.py selects.
use structured_data_extracto.Base.{
  ℕ, zero, suc, ◌+◌, ◌-◌, ◌≤◌, ◌<◌, String, Bool, false, ◌||◌, Option, none, some, List, [], ◌∷◌,
  ◌≡◌, refl, arith, All, IsStrictlySorted, elem, eqb, get_elem?, length, if◌then◌else◌, Bool-cases,
  inl, inr, insert_sorted, insert_sorted-Ascends, elem-insert_sorted, insert_sorted-All,
}
use structured_data_extracto.Exec.{ok}
use structured_data_extracto.Pages.Text.{is_monetary, select_from, pick, select_pages}

-- A page of the list that mentions money.
abbrev monetary_at : Option String → Bool
monetary_at none = false
monetary_at (some text) = is_monetary text

abbrev page_from : ℕ → List String → ℕ → Option String
page_from i [] k = none
page_from i (text ∷ pages) k = if eqb i k then some text else page_from (i + 1) pages k

page_from_below : (i : ℕ) (pages : List String) (k : ℕ) → k < i → page_from i pages k ≡ none
page_from_below i [] k h = refl
page_from_below i (text ∷ pages) k h = ground (arith, page_from_below (i + 1) pages k)

page_from-get_elem? :
    (i : ℕ) (pages : List String) (k : ℕ) → page_from i pages (i + k) ≡ get_elem? pages k
page_from-get_elem? i [] k = refl
page_from-get_elem? i (text ∷ pages) zero = ground arith
page_from-get_elem? i (text ∷ pages) (suc k) =
    let shift : i + suc k ≡ (i + 1) + k = omega arith in
    rw shift (ground (arith, page_from-get_elem? (i + 1) pages k))

page_from_zero : (pages : List String) (k : ℕ) → page_from 0 pages k ≡ get_elem? pages k
page_from_zero pages k =
    let same : 0 + k ≡ k = omega arith in rw same at (page_from-get_elem? 0 pages k)

elem-select_from :
    (i : ℕ) (pages : List String) (selected : List ℕ) (k : ℕ)
    → elem k (select_from i pages selected) ≡ (elem k selected || monetary_at (page_from i pages k))
unfolding select_from
elem-select_from i [] selected k = ground arith
elem-select_from i (text ∷ pages) selected k = ground (
  arith,
  elem-select_from (i + 1) pages (insert_sorted i selected) k,
  elem-select_from (i + 1) pages selected k,
  elem-insert_sorted k i selected,
  page_from_below (i + 1) pages k,
)

select_from-Ascends :
    (i : ℕ) (pages : List String) (selected : List ℕ)
    → IsStrictlySorted selected
    → IsStrictlySorted (select_from i pages selected)
unfolding select_from
select_from-Ascends i [] selected h = h
select_from-Ascends i (text ∷ pages) selected h = elim (Bool-cases (is_monetary text)) [
  | inl e ↦
      rw e
        (select_from-Ascends (i + 1) pages _ (insert_sorted-Ascends 0 i selected (omega arith) h))
  | inr e ↦ rw e (select_from-Ascends (i + 1) pages selected h)
]

-- Every number is below a bound.
abbrev Below : ℕ → List ℕ → Type 0
Below n = All (λ x. x < n)

select_from-Below :
    (n i : ℕ) (pages : List String) (selected : List ℕ)
    → i + length pages ≤ n
    → Below n selected
    → Below n (select_from i pages selected)
unfolding select_from
select_from-Below n i [] selected b h = h
select_from-Below n i (text ∷ pages) selected b h = elim (Bool-cases (is_monetary text)) [
  | inl e ↦ rw e (
      select_from-Below n (i + 1) pages _ (omega arith)
        (insert_sorted-All (λ x. x < n) i selected (omega arith) h))
  | inr e ↦ rw e (select_from-Below n (i + 1) pages selected (omega arith) h)
]

get_elem?_below :
    (pages : List String) (i : ℕ) → i < length pages → (t : String) × (get_elem? pages i ≡ some t)
get_elem?_below [] i h = elim h [ ]
get_elem?_below (t ∷ pages) zero h = (t, refl)
get_elem?_below (t ∷ pages) (suc i) h = get_elem?_below pages i (omega arith)

-- Each selected page is the page of that number.
abbrev pub ArePagesOf : List String → List (ℕ × String) → Type 0
ArePagesOf pages = All (λ p. get_elem? pages p.0 ≡ some p.1)

abbrev pub indices : List (ℕ × String) → List ℕ
indices [] = []
indices (p ∷ ps) = p.0 ∷ indices ps

pick-Below :
    (pages : List String) (is : List ℕ)
    → Below (length pages) is
    → (ps : List (ℕ × String)) × (pick pages is ≡ some ps) × (indices ps ≡ is) × ArePagesOf pages ps
unfolding pick
pick-Below pages [] b = ([], refl, refl, tt)
pick-Below pages (i ∷ is) b =
    let (t, e) = get_elem?_below pages i b.0 in
    let (ps, picked, same, found) = pick-Below pages is b.1 in
    ((i, t) ∷ ps, rw (e, picked), rw same, (e, found))

-- Whether the source's set holds a page.
abbrev pub is_selected : List String → ℕ → Bool
is_selected pages k = eqb 0 k || eqb (length pages - 1) k || monetary_at (get_elem? pages k)

-- What is returned for a list of pages: the selection, in order.
pub record IsSelection (pages : List String) (ps : List (ℕ × String)) : Type 0 where
  pub sorted : IsStrictlySorted (indices ps)
  pub texts : ArePagesOf pages ps
  pub chosen : (k : ℕ) → elem k (indices ps) ≡ is_selected pages k

-- `select_pages` never fails on a list that has pages: it returns the first page, the last and each
-- page that mentions money, and no other, in strictly ascending order, each with its own text.
pub select_pages-IsSelection :
    (p : String) (ps : List String)
    → (sel : List (ℕ × String)) × (select_pages (p ∷ ps) ≡ ok sel) × IsSelection (p ∷ ps) sel
unfolding select_pages
select_pages-IsSelection p ps =
    let pages = p ∷ ps in
    let last = length pages - 1 in
    let ends = insert_sorted last (insert_sorted 0 []) in
    let asc : IsStrictlySorted ends =
      insert_sorted-Ascends 0 last _ (omega arith)
        (insert_sorted-Ascends 0 0 [] (omega arith) tt) in
    let low : Below (length pages) ends =
      insert_sorted-All (λ x. x < length pages) last _ (omega arith)
        (insert_sorted-All (λ x. x < length pages) 0 [] (omega arith) tt) in
    let (sel, picked, same, texts) =
      pick-Below pages (select_from 0 pages ends)
        (select_from-Below (length pages) 0 pages ends (omega arith) low) in
    (
      sel,
      rw picked,
      record {
        sorted = rw same (select_from-Ascends 0 pages ends asc);
        texts = texts;
        chosen = λ k. rw same (
            ground (
              arith,
              elem-select_from 0 pages ends k,
              elem-insert_sorted k last (insert_sorted 0 []),
              elem-insert_sorted k 0 [],
              page_from_zero pages k,
            ));
      },
    )
