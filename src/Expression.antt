-- ===== src/Expression.antt =====
-- execution/expression: trees of expressions, evaluated on a tuple, on the two tuples of a join, or on the
-- values of a group. A child that is nil panics when it is called. The return type of an expression,
-- which no evaluation reads, is left out.
use samehada_db.Base.{
  ℕ, List, Bool, true, false, not, ◌==◌, if◌then◌else◌, Outcome, returns, panics, ◌>>=◌,
}
use samehada_db.Txn.{Tuple}
use samehada_db.Value.{
  Value, FloatOps, new_boolean, to_boolean, compare_equals, compare_not_equals,
  compare_greater_than, compare_greater_than_or_equal, compare_less_than,
  compare_less_than_or_equal,
}
use samehada_db.Schema.{Schema, index}
use samehada_db.Row.{get_value}

pub data ComparisonType : Type 0 where
  equal not_equal greater_than greater_than_or_equal less_than less_than_or_equal : ComparisonType

pub data LogicalOpType : Type 0 where
  and_op or_op not_op : LogicalOpType

pub data Expression : Type 0 where
  nil_expression : Expression
  constant_value : Value → Expression
  column_value : ℕ → ℕ → Expression
  comparison : ComparisonType → Expression → Expression → Expression
  logical_op : LogicalOpType → Expression → Expression → Expression
  aggregate_value : Bool → ℕ → Expression

-- `performLogicalOp`; a right side that the left one decides is not read.
unfoldable pub perform_logical_op : LogicalOpType → Value → Value → Outcome Bool
perform_logical_op and_op lhs rhs = do
  l ← to_boolean lhs
  if l then to_boolean rhs else returns false
perform_logical_op or_op lhs rhs = do l ← to_boolean lhs; if l then returns true else to_boolean rhs
perform_logical_op not_op lhs rhs = panics

-- The negation of a Boolean value.
unfoldable pub negate : Value → Outcome Value
negate v = do b ← to_boolean v; returns (new_boolean (not b))

module _ (ops : FloatOps) where
  unfoldable pub perform_comparison : ComparisonType → Value → Value → Outcome Bool
  perform_comparison equal lhs rhs = compare_equals ops lhs rhs
  perform_comparison not_equal lhs rhs = compare_not_equals ops lhs rhs
  perform_comparison greater_than lhs rhs = compare_greater_than ops lhs rhs
  perform_comparison greater_than_or_equal lhs rhs = compare_greater_than_or_equal ops lhs rhs
  perform_comparison less_than lhs rhs = compare_less_than ops lhs rhs
  perform_comparison less_than_or_equal lhs rhs = compare_less_than_or_equal ops lhs rhs

  unfoldable pub evaluate : Tuple → Schema → Expression → Outcome Value
  evaluate t schema nil_expression = panics
  evaluate t schema (constant_value v) = returns v
  evaluate t schema (column_value side i) = get_value t schema i
  evaluate t schema (comparison kind left right) = do
    lhs ← evaluate t schema left
    rhs ← evaluate t schema right
    b ← perform_comparison kind lhs rhs
    returns (new_boolean b)
  evaluate t schema (logical_op not_op left right) = do lhs ← evaluate t schema left; negate lhs
  evaluate t schema (logical_op kind left right) = do
    lhs ← evaluate t schema left
    rhs ← evaluate t schema right
    b ← perform_logical_op kind lhs rhs
    returns (new_boolean b)
  evaluate t schema (aggregate_value is_group_by_term term_idx) = panics

  -- The left side of a comparison or of a logical operator gets the left schema for both tuples.
  unfoldable pub evaluate_join : Tuple → Schema → Tuple → Schema → Expression → Outcome Value
  evaluate_join l ls r rs nil_expression = panics
  evaluate_join l ls r rs (constant_value v) = returns v
  evaluate_join l ls r rs (column_value side i) =
      if side == 0 then get_value l ls i else get_value r rs i
  evaluate_join l ls r rs (comparison kind left right) = do
    lhs ← evaluate_join l ls r ls left
    rhs ← evaluate_join l ls r rs right
    b ← perform_comparison kind lhs rhs
    returns (new_boolean b)
  evaluate_join l ls r rs (logical_op not_op left right) = do
    lhs ← evaluate_join l ls r ls left
    negate lhs
  evaluate_join l ls r rs (logical_op kind left right) = do
    lhs ← evaluate_join l ls r ls left
    rhs ← evaluate_join l ls r rs right
    b ← perform_logical_op kind lhs rhs
    returns (new_boolean b)
  evaluate_join l ls r rs (aggregate_value is_group_by_term term_idx) = panics

  unfoldable pub evaluate_aggregate : List Value → List Value → Expression → Outcome Value
  evaluate_aggregate group_bys aggregates nil_expression = panics
  evaluate_aggregate group_bys aggregates (constant_value v) = returns v
  evaluate_aggregate group_bys aggregates (column_value side i) = panics
  evaluate_aggregate group_bys aggregates (comparison kind left right) = do
    lhs ← evaluate_aggregate group_bys aggregates left
    rhs ← evaluate_aggregate group_bys aggregates right
    b ← perform_comparison kind lhs rhs
    returns (new_boolean b)
  evaluate_aggregate group_bys aggregates (logical_op not_op left right) = do
    lhs ← evaluate_aggregate group_bys aggregates left
    negate lhs
  evaluate_aggregate group_bys aggregates (logical_op kind left right) = do
    lhs ← evaluate_aggregate group_bys aggregates left
    rhs ← evaluate_aggregate group_bys aggregates right
    b ← perform_logical_op kind lhs rhs
    returns (new_boolean b)
  evaluate_aggregate group_bys aggregates (aggregate_value is_group_by_term term_idx) =
      if is_group_by_term then index group_bys term_idx else index aggregates term_idx
