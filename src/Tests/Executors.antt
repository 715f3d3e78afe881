-- ===== src/Tests/Executors.antt =====
-- A limit over two tuples and nil, an aggregation of two rows of one integer column, and its groups.
use samehada_db.Base.{
  ℕ, List, [], ◌∷◌, Bool, true, false, ◌==◌, ltb, leb, ◌+◌, none, some, returns, ◌≡◌, refl, arith,
  map,
}
use samehada_db.Bytes.{slice_at, slice, word32, read_u32, make_bytes}
use samehada_db.Txn.{Tuple}
use samehada_db.Value.{
  Value, FloatOps, integer_type, new_integer, new_value_from_bytes, read_bool, mark_null,
  to_boolean, new_boolean,
}
use samehada_db.Schema.{Column, Schema, get_column, index, is_inlined, inlined_type}
use samehada_db.Row.{get_value, value_offset, new_tuple_from_schema, add_sizes, put_values}
use samehada_db.Aggregation.Fold.{is_integer}
use samehada_db.Expression.{column_value, constant_value, evaluate, evaluate_aggregate}
use samehada_db.Executor.{Reply, Next, execute}
use samehada_db.Limit.{LimitPlanNode, limit_next, new_limit_executor}
use samehada_db.Limit.Replies.{Gives, stops, gives, fails, drain, tuples_before, breaks_off}
use samehada_db.Limit.Window.{execute-limit_next}
use samehada_db.Aggregation.{
  AggregationPlanNode, SimpleAggregationHashTable, sum_aggregate, new_simple_aggregation_hash_table,
  aggregate_tuples, make_key, make_val, evaluate_all, hash_values_on_aggregate_key, gen_hash_murmur,
  serialize_all, aggregation_next, passes, output_values,
}
use samehada_db.Aggregation.Groups.{
  Row, IsRow, tuples_of, group, first_key, aggregates_of, aggregate_tuples-groups,
}
use samehada_db.Aggregation.Having.{Group, AreShown, kept, execute-aggregation_next}

abbrev window : LimitPlanNode
window = record { limit = 2; offset = 1 }

-- A child that is its replies, and gives nothing when they are used up.
abbrev replay : Next ℕ (List (Reply ℕ))
replay [] = returns (record { tuple = none; done = true; error = false }, [])
replay (reply ∷ rest) = returns (reply, rest)

abbrev gives_tuple : ℕ → Reply ℕ
gives_tuple n = record { tuple = some n; done = false; error = false }

abbrev gives_nil : Reply ℕ
gives_nil = record { tuple = none; done = false; error = false }

abbrev three_replies : List (Reply ℕ)
three_replies = gives_tuple 10 ∷ gives_tuple 11 ∷ gives_nil ∷ []

three_replies-Gives : Gives replay three_replies three_replies
three_replies-Gives = gives _ _ _ _ refl (gives _ _ _ _ refl (gives _ _ _ _ refl (stops [])))

execute-limit_next_example :
    (drain (limit_next replay) 3 (new_limit_executor window three_replies)
      ≡ returns (11 ∷ [], fails))
    × (execute (limit_next replay) 3 (new_limit_executor window three_replies)
        ≡ returns (11 ∷ [], true))
unfolding tuples_before breaks_off
execute-limit_next_example =
    execute-limit_next replay window three_replies three_replies three_replies-Gives (omega arith)
      (omega arith)

-- Non-negative floats are ordered as their bits.
abbrev float_ops : FloatOps
float_ops = record { float_eq = ◌==◌; float_lt = ltb; float_le = leb; float_add = ◌+◌ }

abbrev sum128_one : List ℕ → List ℕ
sum128_one bytes = 1 ∷ 0 ∷ 0 ∷ 0 ∷ []

abbrev column_a : Column
column_a = record {
  column_name = 97 ∷ [];
  column_type = integer_type;
  fixed_length = 5;
  variable_length = 0;
  column_offset = 0;
  has_index = false;
  is_left = true;
}

abbrev one_column : Schema
one_column = record {
  length_of = 5;
  columns = column_a ∷ [];
  tuple_is_inlined = true;
  uninlined_columns = [];
}

abbrev sum_plan : AggregationPlanNode
sum_plan = record {
  output_schema = record {
    length_of = 0;
    columns = [];
    tuple_is_inlined = true;
    uninlined_columns = [];
  };
  output_exprs = [];
  having = some (constant_value (new_boolean false));
  group_bys = [];
  aggregates = column_value 0 0 ∷ [];
  agg_types = sum_aggregate ∷ [];
}

abbrev row_of : ℕ → Row
row_of n = record {
  tuple = record { rid = none; size = 5; bytes = 0 ∷ n ∷ 0 ∷ 0 ∷ 0 ∷ [] };
  key = record { group_bys = [] };
  code = 1;
  val = record { aggregates = new_integer n ∷ [] };
  numbers = some n ∷ [];
}

row_of_7-IsRow : IsRow float_ops sum128_one sum_plan one_column (row_of 7)
unfolding make_key make_val evaluate_all evaluate get_value value_offset get_column index
    new_value_from_bytes read_bool mark_null hash_values_on_aggregate_key gen_hash_murmur
    serialize_all new_integer read_u32 is_inlined inlined_type slice_at slice word32
row_of_7-IsRow = record {
  makes_key = refl;
  makes_val = refl;
  hashes = refl;
  inputs = (is_integer refl refl, tt);
}

row_of_8-IsRow : IsRow float_ops sum128_one sum_plan one_column (row_of 8)
unfolding make_key make_val evaluate_all evaluate get_value value_offset get_column index
    new_value_from_bytes read_bool mark_null hash_values_on_aggregate_key gen_hash_murmur
    serialize_all new_integer read_u32 is_inlined inlined_type slice_at slice word32
row_of_8-IsRow = record {
  makes_key = refl;
  makes_val = refl;
  hashes = refl;
  inputs = (is_integer refl refl, tt);
}

abbrev two_rows : List Row
two_rows = row_of 7 ∷ row_of 8 ∷ []

aggregate_tuples-groups_example :
    (after : SimpleAggregationHashTable) × (aggregate_tuples float_ops sum128_one sum_plan
        one_column
        (new_simple_aggregation_hash_table sum_plan.aggregates sum_plan.agg_types)
        (tuples_of two_rows)
      ≡ returns after)
    × ((h : ℕ) → after.ht_val h ≡ aggregates_of sum_plan.agg_types (group h two_rows))
    × ((h : ℕ) → after.ht_key h ≡ first_key h two_rows)
aggregate_tuples-groups_example =
    aggregate_tuples-groups float_ops sum128_one sum_plan one_column two_rows refl
      (row_of_7-IsRow, (row_of_8-IsRow, tt))

abbrev group_of : ℕ → Group
group_of n = (record { group_bys = [] }, record { aggregates = new_integer n ∷ [] })

abbrev two_groups : List Group
two_groups = group_of 7 ∷ group_of 8 ∷ []

abbrev never : Group → Bool
never g = false

abbrev nothing : Group → List Value
nothing g = []

abbrev empty_row : Group → Tuple
empty_row g = record { rid = none; size = 0; bytes = [] }

two_groups-AreShown : AreShown float_ops sum_plan never nothing empty_row two_groups
unfolding passes output_values evaluate_aggregate new_boolean to_boolean new_tuple_from_schema
    add_sizes put_values make_bytes
two_groups-AreShown = (refl, refl, refl, (refl, refl, refl, tt))

execute-aggregation_next_example :
    execute (aggregation_next float_ops sum_plan) 3 two_groups
    ≡ returns (map empty_row (kept never two_groups), true)
execute-aggregation_next_example =
    execute-aggregation_next float_ops sum_plan never nothing empty_row two_groups 3
      two_groups-AreShown (omega arith)
