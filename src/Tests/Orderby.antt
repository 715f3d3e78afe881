-- ===== src/Tests/Orderby.antt =====
-- Two rows of one integer column, which are in descending order.
use samehada_db.Base.{
  ℕ, List, [], ◌∷◌, true, false, none, some, returns, ◌≡◌, refl, arith, map, ◌==◌, ltb, leb, ◌+◌,
}
use mathlib.Core.List.{Permᴰ}
use samehada_db.Bytes.{slice_at, slice, word32, read_u32}
use samehada_db.Txn.{Tuple}
use samehada_db.Value.{
  Value, FloatOps, integer_type, new_integer, new_value_from_bytes, read_bool, mark_null,
  compare_equals, compare_less_than, int_lt,
}
use samehada_db.Schema.{Column, Schema, get_column, index, is_inlined, inlined_type}
use samehada_db.Row.{get_value, value_offset}
use samehada_db.Orderby.{
  OrderbyPlanNode, asc, SortSlice, sort_values, less_rows, in_order, orderby_init,
}
use samehada_db.Orderby.Order.{InOrder, AllInOrder}
use samehada_db.Orderby.Sorted.{rows_from, AreKeyed, IsOrdered, orderby_init-sorted}

abbrev float_ops : FloatOps
float_ops = record { float_eq = ◌==◌; float_lt = ltb; float_le = leb; float_add = ◌+◌ }

abbrev column_a : Column
column_a = record {
  column_name = 97 ∷ [];
  column_type = integer_type;
  fixed_length = 5;
  variable_length = 0;
  column_offset = 0;
  has_index = false;
  is_left = true;
}

abbrev one_column : Schema
one_column = record {
  length_of = 5;
  columns = column_a ∷ [];
  tuple_is_inlined = true;
  uninlined_columns = [];
}

abbrev by_a : OrderbyPlanNode
by_a = record { col_idxs = 0 ∷ []; orderby_types = asc ∷ [] }

abbrev number_tuple : ℕ → Tuple
number_tuple n = record { rid = none; size = 5; bytes = 0 ∷ n ∷ 0 ∷ 0 ∷ 0 ∷ [] }

-- The number in the second byte.
abbrev keys_of : Tuple → List Value
keys_of t = new_integer (elim t.bytes [ [] ↦ 0 | b ∷ bs ↦ elim bs [ [] ↦ 0 | n ∷ rest ↦ n ] ]) ∷ []

abbrev eight_seven : List Tuple
eight_seven = number_tuple 8 ∷ number_tuple 7 ∷ []

-- A sort that turns two rows round.
abbrev turn_round : SortSlice
turn_round less (a ∷ b ∷ []) = returns (b ∷ a ∷ [])
turn_round less rows = returns rows

abbrev rows_sorted : List (List Value)
rows_sorted = (new_integer 7 ∷ new_integer 1 ∷ []) ∷ (new_integer 8 ∷ new_integer 0 ∷ []) ∷ []

eight_seven-AreKeyed : AreKeyed float_ops by_a one_column keys_of eight_seven
unfolding sort_values get_value value_offset get_column index new_value_from_bytes read_bool
    mark_null new_integer read_u32 is_inlined inlined_type slice_at slice word32
eight_seven-AreKeyed = (refl, refl, (refl, refl, tt))

turned : Permᴰ (rows_from float_ops by_a one_column keys_of 0 eight_seven) rows_sorted
turned = Permᴰ.swap refl refl

rows_sorted-IsOrdered : IsOrdered (less_rows float_ops by_a.col_idxs by_a.orderby_types) rows_sorted
unfolding less_rows new_integer compare_equals compare_less_than int_lt in_order
rows_sorted-IsOrdered = ((refl, tt), (tt, tt))

orderby_init-sorted_example :
    (sorted : List Tuple) × (orderby_init float_ops turn_round by_a one_column
        (map some eight_seven)
      ≡ returns sorted)
    × Permᴰ eight_seven sorted
    × AllInOrder
        (λ x y. InOrder float_ops by_a.col_idxs by_a.orderby_types (keys_of x) (keys_of y))
        sorted
orderby_init-sorted_example =
    orderby_init-sorted float_ops by_a one_column keys_of turn_round eight_seven rows_sorted
      (omega arith) eight_seven-AreKeyed refl turned rows_sorted-IsOrdered
