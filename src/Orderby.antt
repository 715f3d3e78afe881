-- ===== src/Orderby.antt =====
-- execution/executors/orderby_executor.go and the plan of execution/plans/orderby.go. `sort.Slice` is a parameter:
-- it is given the test `less` and the rows. The child may also give nil tuples, which are counted but not
-- kept.
pub mod Order
pub mod Sorted
use samehada_db.Base.{
  ℕ, zero, suc, ◌+◌, List, [], ◌∷◌, ◌++◌, Bool, true, false, not, length, if◌then◌else◌, Option,
  none, some, Outcome, returns, panics, ◌>>=◌,
}
use samehada_db.Bytes.{u32}
use samehada_db.Txn.{Tuple}
use samehada_db.Value.{Value, FloatOps, new_integer, to_integer, compare_equals, compare_less_than}
use samehada_db.Schema.{Schema, index}
use samehada_db.Row.{get_value}
use samehada_db.Executor.{Reply, Next}

pub data OrderbyType : Type 0 where
  asc desc : OrderbyType

pub record OrderbyPlanNode : Type 0 where
  pub col_idxs : List ℕ
  pub orderby_types : List OrderbyType

-- The sort of the library, on rows of values.
abbrev pub SortSlice : Type 0
SortSlice =
    (List Value → List Value → Outcome Bool) → List (List Value) → Outcome (List (List Value))

unfoldable pub sort_values : Tuple → Schema → List ℕ → Outcome (List Value)
sort_values t schema [] = returns []
sort_values t schema (c ∷ cs) = do
  v ← get_value t schema c
  rest ← sort_values t schema cs
  returns (v ∷ rest)

-- The loop of `Init` over what the child gives: the tuples, and the rows to sort, each with the count in
-- its last place.
unfoldable pub collect :
    OrderbyPlanNode → Schema → ℕ → List (Option Tuple) → Outcome (List Tuple × List (List Value))
collect plan schema count [] = returns ([], [])
collect plan schema count (none ∷ rest) = collect plan schema (u32 (count + 1)) rest
collect plan schema count (some t ∷ rest) = do
  keys ← sort_values t schema plan.col_idxs
  (tuples, rows) ← collect plan schema (u32 (count + 1)) rest
  returns (t ∷ tuples, (keys ++ (new_integer count ∷ [])) ∷ rows)

-- Where `CompareLessThan` puts a row by the type of the column.
unfoldable pub in_order : OrderbyType → Bool → Bool
in_order asc less = less
in_order desc less = not less

module _ (ops : FloatOps) where
  -- The test that `sort.Slice` is given, on the columns that are left.
  unfoldable pub less_rows : List ℕ → List OrderbyType → List Value → List Value → Outcome Bool
  less_rows [] types a b = returns false
  less_rows (c ∷ cs) (t ∷ types) (x ∷ a) (y ∷ b) = do
    same ← compare_equals ops x y
    elim same [
      | true ↦ less_rows cs types a b
      | false ↦ (do less ← compare_less_than ops x y; returns (in_order t less))
    ]
  less_rows _ types a b = panics

  -- The tuple whose number stands behind the columns of a row.
  unfoldable pub tuple_of_row : OrderbyPlanNode → List Tuple → List Value → Outcome Tuple
  tuple_of_row plan tuples row = do
    v ← index row (length plan.col_idxs)
    n ← to_integer v
    index tuples n

  unfoldable pub arrange : OrderbyPlanNode → List Tuple → List (List Value) → Outcome (List Tuple)
  arrange plan tuples [] = returns []
  arrange plan tuples (row ∷ rows) = do
    t ← tuple_of_row plan tuples row
    rest ← arrange plan tuples rows
    returns (t ∷ rest)

  -- `Init`: the tuples that Next gives one after the other.
  unfoldable pub orderby_init :
      SortSlice → OrderbyPlanNode → Schema → List (Option Tuple) → Outcome (List Tuple)
  orderby_init sort_slice plan schema replies = do
    (tuples, rows) ← collect plan schema 0 replies
    sorted ← sort_slice (less_rows plan.col_idxs plan.orderby_types) rows
    arrange plan tuples sorted

unfoldable pub orderby_next : Next Tuple (List Tuple)
orderby_next [] = returns (record { tuple = none; done = true; error = false }, [])
orderby_next (t ∷ rest) = returns (record { tuple = some t; done = false; error = false }, rest)
