-- ===== src/Pages/Text.antt =====
-- Page texts of app/services/page_extraction.py: their format and the selection by keywords.
pub mod Selection
use structured_data_extracto.Base.{
  ℕ, String, Bool, Option, none, some, List, [], ◌∷◌, ◌-◌, ◌+◌, ◌<>◌, map, any, codes, lower,
  has_infix, show, join, length, get_elem?, insert_sorted, if◌then◌else◌,
}
use structured_data_extracto.Errors.{Error}
use structured_data_extracto.Exec.{Result, ok, err}

-- `enumerate(xs)`, from `i`.
abbrev pub enumerate {ℓ} : {A : Type ℓ} → ℕ → List A → List (ℕ × A)
enumerate i [] = []
enumerate i (x ∷ xs) = (i, x) ∷ enumerate (i + 1) xs

unfoldable pub format_page : ℕ → String → String
format_page i text = "Page " <> show i <> ":\n" <> text

unfoldable pub format_pages : List (ℕ × String) → List String
format_pages [] = []
format_pages ((i, text) ∷ pages) = format_page i text ∷ format_pages pages

unfoldable pub join_pages : List (ℕ × String) → String
join_pages pages = join "\n\n" (format_pages pages)

abbrev pub monetary_keywords : List String
monetary_keywords =
    "total" ∷ "amount" ∷ "subtotal" ∷ "net" ∷ "gross" ∷ "due" ∷ "$" ∷ "ngn" ∷ "usd" ∷ []

unfoldable pub is_monetary : String → Bool
is_monetary text =
    let normalized = lower (codes text) in
    any (λ keyword. has_infix normalized (codes keyword)) monetary_keywords

-- The loop over the pages: the set as its sorted list.
unfoldable pub select_from : ℕ → List String → List ℕ → List ℕ
select_from i [] selected = selected
select_from i (text ∷ pages) selected =
    select_from (i + 1) pages (if is_monetary text then insert_sorted i selected else selected)

-- `[(i, pages[i]) for i in …]`; `none` is an `IndexError`.
abbrev pub with_page : ℕ → Option String → Option (List (ℕ × String)) → Option (List (ℕ × String))
with_page i (some text) (some rest) = some ((i, text) ∷ rest)
with_page i _ _ = none

unfoldable pub pick : List String → List ℕ → Option (List (ℕ × String))
pick pages [] = some []
pick pages (i ∷ is) = with_page i (get_elem? pages i) (pick pages is)

abbrev pub or_index_error : Option (List (ℕ × String)) → Result (List (ℕ × String))
or_index_error none = err (Error.other "list index out of range")
or_index_error (some ps) = ok ps

-- `PageStrategyRunner.select_pages`
unfoldable pub select_pages : List String → Result (List (ℕ × String))
select_pages [] = ok []
select_pages (p ∷ ps) =
    let pages = p ∷ ps in
    or_index_error
      (pick pages (select_from 0 pages (insert_sorted (length pages - 1) (insert_sorted 0 []))))
