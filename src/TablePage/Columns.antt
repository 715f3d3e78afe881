-- ===== src/TablePage/Columns.antt =====
-- The values of `UpdateTuple` of storage/access/table_page.go where only some columns are updated.
use samehada_db.Base.{
  ℕ, suc, ◌+◌, ◌≤◌, ◌<◌, List, [], ◌∷◌, length, Bool, false, ◌||◌, ◌==◌, if◌then◌else◌, returns,
  ◌≡◌,
}
use samehada_db.Txn.{Tuple}
use samehada_db.Value.{Value}
use samehada_db.Schema.{Schema, Column}
use samehada_db.Row.{get_value}

abbrev pub contains : List ℕ → ℕ → Bool
contains [] i = false
contains (t ∷ ts) i = i == t || contains ts i

-- Column numbers from `low` on, in ascending order.
abbrev pub Ascends : ℕ → List ℕ → Type 0
Ascends low [] = Unit
Ascends low (t ∷ ts) = (low ≤ t) × Ascends (suc t) ts

-- The values of `n` columns from `idx` on.
abbrev pub values_from : (ℕ → Value) → ℕ → List Column → List Value
values_from at idx [] = []
values_from at idx (c ∷ cs) = at idx ∷ values_from at (idx + 1) cs

module _ (new_tuple old_tuple : Tuple) (schema : Schema) (fresh kept : ℕ → Value)
    (reads_new : (i : ℕ)
      → i < length schema.columns
      → get_value new_tuple schema i ≡ returns (fresh i))
    (reads_old : (i : ℕ)
      → i < length schema.columns
      → get_value old_tuple schema i ≡ returns (kept i)) where
  abbrev pub chosen : List ℕ → ℕ → Value
  chosen targets i = if contains targets i then fresh i else kept i
