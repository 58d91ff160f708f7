-- ===== src/Costs/Groups.antt =====
-- The sums of the groups that the queries of app/repositories/llm_usage.py return.
use structured_data_extracto.Base.{
  ℕ, ◌+◌, String, Bool, true, ◌&&◌, List, [], ◌∷◌, ◌≡◌, ◌∙◌, refl, ap, sym, arith, ◌==◌, eq_iff,
  if◌then◌else◌, Bool-cases, inl, inr, sum_of,
}
use structured_data_extracto.Costs.{UsageRow}
use structured_data_extracto.Costs.Queries.{Selected, new_group, add_tokens, add_to_group, grouped}

-- A row's tokens if its group is one of those that are asked for.
module _ (tokens : UsageRow → ℕ) (picked : Selected → ℕ)
    (new_tokens : (s : Selected) → tokens (new_group s) ≡ picked s)
    (more_tokens : (s : Selected) (row : UsageRow)
      → tokens (add_tokens s row) ≡ picked s + tokens row)
    (asked : String → Bool) where
  abbrev of_row : UsageRow → ℕ
  of_row row = if asked row.group_key then tokens row else 0

  abbrev of_selected : Selected → ℕ
  of_selected s = if asked s.group_key then picked s else 0

  add_tokens-sum :
      (s : Selected) (row : UsageRow)
      → row.group_key ≡ s.group_key
      → of_row (add_tokens s row) ≡ of_selected s + of_row row
  add_tokens-sum s row e = elim (Bool-cases (asked row.group_key)) [
    | inl a ↦ rw (a, ap asked (sym e) ∙ a) (more_tokens s row)
    | inr a ↦ rw (a, ap asked (sym e) ∙ a) (omega arith)
  ]

  new_group-sum : (s : Selected) → of_row (new_group s) ≡ of_selected s
  new_group-sum s = ap (λ n. if asked s.group_key then n else 0) (new_tokens s)

  add_to_group-sum :
      (s : Selected) (rows : List UsageRow)
      → sum_of of_row (add_to_group s rows) ≡ of_selected s + sum_of of_row rows
  unfolding add_to_group
  add_to_group-sum s [] = omega (arith, new_group-sum s)
  add_to_group-sum s (row ∷ rows) =
      elim (Bool-cases ((row.group_key == s.group_key) && (row.model == s.model))) [
        | inl e ↦ rw e (omega (arith, add_tokens-sum s row (same_group e)))
        | inr e ↦ rw e (omega (arith, add_to_group-sum s rows))
      ]
    where
      same_group :
          ((row.group_key == s.group_key) && (row.model == s.model)) ≡ true
          → row.group_key ≡ s.group_key
      same_group e = ground (arith, eq_iff row.group_key s.group_key)

  pub grouped-sum : (ss : List Selected) → sum_of of_row (grouped ss) ≡ sum_of of_selected ss
  unfolding grouped
  grouped-sum [] = refl
  grouped-sum (s ∷ ss) = omega (arith, add_to_group-sum s (grouped ss), grouped-sum ss)
