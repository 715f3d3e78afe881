-- ===== src/Aggregation/Having.antt =====
-- The groups that the aggregation executor of execution/executors/aggregation_executor.go answers.
use samehada_db.Base.{
  ℕ, zero, suc, ◌<◌, List, [], ◌∷◌, Bool, true, false, if◌then◌else◌, Outcome, returns, ◌>>=◌, ◌≡◌,
  refl, arith, length, map, ◌∙◌, ap, Bool-cases, inl, inr,
}
use samehada_db.Txn.{Tuple}
use samehada_db.Value.{Value, FloatOps}
use samehada_db.Row.{new_tuple_from_schema}
use samehada_db.Executor.{execute}
use samehada_db.Aggregation.{
  AggregationPlanNode, AggregateKey, AggregateValue, passes, skip_groups, output_values,
  aggregation_next,
}

abbrev pub Group : Type 0
Group = AggregateKey × AggregateValue

-- The groups that a test keeps, and the last one.
abbrev pub kept : (Group → Bool) → List Group → List Group
kept good [] = []
kept good (g ∷ []) = g ∷ []
kept good (g ∷ g' ∷ rest) = if good g then g ∷ kept good (g' ∷ rest) else kept good (g' ∷ rest)

module _ (ops : FloatOps) (plan : AggregationPlanNode) (good : Group → Bool)
    (vals : Group → List Value) (row : Group → Tuple) where
  -- HAVING and the output columns can be computed for these groups: `good` tells whether the group
  -- passes, `vals` are its output values, `row` is its tuple.
  abbrev pub AreShown : List Group → Type 0
  AreShown [] = Unit
  AreShown (g ∷ groups) =
      (passes ops plan.having g ≡ returns (good g))
      × (output_values ops plan.output_exprs g ≡ returns (vals g))
      × (new_tuple_from_schema (vals g) plan.output_schema ≡ returns (row g))
      × AreShown groups

  runs : ℕ → List Group → Outcome (List Tuple × Bool)
  runs rounds groups = execute (aggregation_next ops plan) rounds groups

  execute-nil : (rounds : ℕ) → runs (suc rounds) [] ≡ returns ([], true)
  unfolding runs execute aggregation_next skip_groups
  execute-nil rounds = refl

  skip_groups-last : (g : Group) → skip_groups ops plan.having (g ∷ []) ≡ returns (g ∷ [])
  unfolding skip_groups
  skip_groups-last g = refl

  -- One more call of Next, on a group that it answers.
  runs-answer :
      (rounds : ℕ) (g : Group) (groups : List Group)
      → skip_groups ops plan.having (g ∷ groups) ≡ returns (g ∷ groups)
      → output_values ops plan.output_exprs g ≡ returns (vals g)
      → new_tuple_from_schema (vals g) plan.output_schema ≡ returns (row g)
      → runs (suc rounds) (g ∷ groups) ≡ (runs rounds groups >>= λ r. returns (row g ∷ r.0, r.1))
  unfolding runs execute aggregation_next
  runs-answer rounds g groups at out made = simp (at, out, made) refl

  -- A group that HAVING refuses.
  runs-skip :
      (rounds : ℕ) (g g' : Group) (groups : List Group)
      → passes ops plan.having g ≡ returns false
      → runs (suc rounds) (g ∷ g' ∷ groups) ≡ runs (suc rounds) (g' ∷ groups)
  unfolding runs execute aggregation_next skip_groups
  runs-skip rounds g g' groups bad = simp bad refl

  skip_groups-good :
      (g : Group) (groups : List Group)
      → passes ops plan.having g ≡ returns true
      → skip_groups ops plan.having (g ∷ groups) ≡ returns (g ∷ groups)
  unfolding skip_groups
  skip_groups-good g [] h = refl
  skip_groups-good g (g' ∷ groups) h = simp h refl

  answers :
      (groups : List Group) (rounds : ℕ)
      → AreShown groups
      → length groups < rounds
      → runs rounds groups ≡ returns (map row (kept good groups), true)
  unfolding runs
  answers groups zero h enough = absurd (omega arith)
  answers [] (suc rounds) h enough = execute-nil rounds
  answers (g ∷ []) (suc rounds) (p, o, n, h) enough =
      runs-answer rounds g [] (skip_groups-last g) o n
      ∙ ap (λ r. r >>= λ r. returns (row g ∷ r.0, r.1)) (answers [] rounds h (omega arith))
  answers (g ∷ g' ∷ groups) (suc rounds) (p, o, n, h) enough = elim (Bool-cases (good g)) [
    | inl same ↦ rw same (
        runs-answer rounds g (g' ∷ groups) (skip_groups-good g (g' ∷ groups) (p ∙ ap returns same))
          o n
        ∙ ap (λ r. r >>= λ r. returns (row g ∷ r.0, r.1))
            (answers (g' ∷ groups) rounds h (omega arith)))
    | inr other ↦ rw other (
        runs-skip rounds g g' groups (p ∙ ap returns other)
        ∙ answers (g' ∷ groups) (suc rounds) h (omega arith))
  ]

  -- An execution answers one row for each group but the last that HAVING lets pass, in the order of the
  -- groups, and one row for the last group whatever HAVING says of it; then it is done. This takes at most
  -- one call of Next more than there are groups.
  pub execute-aggregation_next :
      (groups : List Group) (rounds : ℕ)
      → AreShown groups
      → length groups < rounds
      → execute (aggregation_next ops plan) rounds groups
        ≡ returns (map row (kept good groups), true)
  unfolding runs
  execute-aggregation_next groups rounds h enough = answers groups rounds h enough
