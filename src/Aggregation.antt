-- ===== src/Aggregation.antt =====
-- execution/executors/aggregation_executor.go and the types of execution/plans/aggregation.go: rows are
-- grouped by the hash of their keys. The hash is murmur3 of a third party, a parameter. Go's map gives
-- its keys in an order of its own, which `start` is given. The expressions of the output columns stand
-- in the plan.
pub mod Fold
pub mod Groups
pub mod Having
use samehada_db.Base.{
  ℕ, zero, suc, List, [], ◌∷◌, ◌++◌, Bool, true, false, ◌||◌, leb, length, ◌==◌, if◌then◌else◌,
  Option, none, some, Outcome, returns, panics, ◌>>=◌, ◌>>◌, check,
}
use samehada_db.Bytes.{read_u32}
use samehada_db.Txn.{Tuple}
use samehada_db.Value.{
  Value, FloatOps, new_integer, serialize, add, min_value, max_value, to_boolean,
}
use samehada_db.Schema.{Schema, index}
use samehada_db.Row.{new_tuple_from_schema}
use samehada_db.Expression.{Expression, evaluate, evaluate_aggregate}
use samehada_db.Executor.{Reply, Next}

pub data AggregationType : Type 0 where
  count_aggregate sum_aggregate min_aggregate max_aggregate : AggregationType

pub record AggregationPlanNode : Type 0 where
  pub output_schema : Schema
  pub output_exprs : List Expression
  pub having : Option Expression
  pub group_bys : List Expression
  pub aggregates : List Expression
  pub agg_types : List AggregationType

pub record AggregateKey : Type 0 where
  pub group_bys : List Value

pub record AggregateValue : Type 0 where
  pub aggregates : List Value

pub record SimpleAggregationHashTable : Type 0 where
  pub ht_val : ℕ → Option AggregateValue
  pub ht_key : ℕ → Option AggregateKey
  pub agg_exprs : List Expression
  pub agg_types : List AggregationType

unfoldable pub new_simple_aggregation_hash_table :
    List Expression → List AggregationType → SimpleAggregationHashTable
new_simple_aggregation_hash_table agg_exprs agg_types = record {
  ht_val = λ h. none;
  ht_key = λ h. none;
  agg_exprs = agg_exprs;
  agg_types = agg_types;
}

-- math.MaxInt32, and the word of math.MinInt32
unfoldable pub initial_value : AggregationType → Value
initial_value count_aggregate = new_integer 0
initial_value sum_aggregate = new_integer 0
initial_value min_aggregate = new_integer 2147483647
initial_value max_aggregate = new_integer 2147483648

unfoldable pub initial_values : List AggregationType → List Value
initial_values [] = []
initial_values (t ∷ ts) = initial_value t ∷ initial_values ts

unfoldable pub serialize_all : List Value → Outcome (List ℕ)
serialize_all [] = returns []
serialize_all (v ∷ vs) = do bytes ← serialize v; rest ← serialize_all vs; returns (bytes ++ rest)

-- `GenHashMurMur`: the first word of the sum.
unfoldable pub gen_hash_murmur : (List ℕ → List ℕ) → List ℕ → Outcome ℕ
gen_hash_murmur sum128 key = do check (leb 4 (length (sum128 key))); returns (read_u32 (sum128 key))

unfoldable pub hash_values_on_aggregate_key : (List ℕ → List ℕ) → AggregateKey → Outcome ℕ
hash_values_on_aggregate_key sum128 key = do
  bytes ← serialize_all key.group_bys
  gen_hash_murmur sum128 bytes

-- The group's values so far, and the key that it keeps.
abbrev pub current_values : List AggregationType → Option AggregateValue → List Value
current_values types none = initial_values types
current_values types (some v) = v.aggregates

abbrev pub kept_key : Option AggregateKey → AggregateKey → Option AggregateKey
kept_key none key = some key
kept_key (some old) key = some old

-- values[0] and values[1:]
abbrev pub front : List Value → Outcome Value
front [] = panics
front (v ∷ vs) = returns v

abbrev pub behind : List Value → List Value
behind [] = []
behind (v ∷ vs) = vs

module _ (ops : FloatOps) where
  -- One aggregate of a group, with the values of the row from its own on.
  unfoldable pub combine_one : AggregationType → Value → List Value → Outcome Value
  combine_one count_aggregate result inputs = add ops result (new_integer 1)
  combine_one sum_aggregate result inputs = do v ← front inputs; add ops result v
  combine_one min_aggregate result inputs = do v ← front inputs; min_value ops result v
  combine_one max_aggregate result inputs = do v ← front inputs; max_value ops result v

  -- `CombineAggregateValues`, for the aggregates that are left.
  unfoldable pub combine_aggregate_values :
      ℕ → List AggregationType → List Value → List Value → Outcome (List Value)
  combine_aggregate_values zero types results inputs = returns results
  combine_aggregate_values (suc n) [] results inputs = panics
  combine_aggregate_values (suc n) (t ∷ types) [] inputs = panics
  combine_aggregate_values (suc n) (t ∷ types) (r ∷ results) inputs = do
    v ← combine_one t r inputs
    rest ← combine_aggregate_values n types results (behind inputs)
    returns (v ∷ rest)

  module _ (sum128 : List ℕ → List ℕ) where
    unfoldable pub insert_combine :
        SimpleAggregationHashTable
        → AggregateKey
        → AggregateValue
        → Outcome SimpleAggregationHashTable
    insert_combine aht agg_key agg_val = do
      h ← hash_values_on_aggregate_key sum128 agg_key
      combined ←
          combine_aggregate_values (length aht.agg_exprs) aht.agg_types
            (current_values aht.agg_types (aht.ht_val h)) agg_val.aggregates
      returns (record aht {
        ht_val = λ g. if g == h then some (record { aggregates = combined }) else aht.ht_val g;
        ht_key = λ g. if g == h then kept_key (aht.ht_key h) agg_key else aht.ht_key g;
      })

    unfoldable pub evaluate_all : Tuple → Schema → List Expression → Outcome (List Value)
    evaluate_all t schema [] = returns []
    evaluate_all t schema (e ∷ es) = do
      v ← evaluate ops t schema e
      rest ← evaluate_all t schema es
      returns (v ∷ rest)

    unfoldable pub make_key : AggregationPlanNode → Tuple → Schema → Outcome AggregateKey
    make_key plan t schema = do
      keys ← evaluate_all t schema plan.group_bys
      returns (record { group_bys = keys })

    unfoldable pub make_val : AggregationPlanNode → Tuple → Schema → Outcome AggregateValue
    make_val plan t schema = do
      vals ← evaluate_all t schema plan.aggregates
      returns (record { aggregates = vals })

    -- The loop of `Init` over the tuples that the child gives before it is done or fails.
    unfoldable pub aggregate_tuples :
        AggregationPlanNode
        → Schema
        → SimpleAggregationHashTable
        → List Tuple
        → Outcome SimpleAggregationHashTable
    aggregate_tuples plan schema aht [] = returns aht
    aggregate_tuples plan schema aht (t ∷ ts) = do
      key ← make_key plan t schema
      val ← make_val plan t schema
      combined ← insert_combine aht key val
      aggregate_tuples plan schema combined ts

-- The iterator, as the groups from its index on. `start` reads the map in the order of the given keys.
unfoldable pub start : SimpleAggregationHashTable → List ℕ → List (AggregateKey × AggregateValue)
start aht [] = []
start aht (h ∷ hs) = elim (aht.ht_key h) [
  | none ↦ start aht hs
  | some key ↦ elim (aht.ht_val h) [ none ↦ start aht hs | some val ↦ (key, val) ∷ start aht hs ]
]

module _ (ops : FloatOps) where
  -- Whether a group has what HAVING asks.
  unfoldable pub passes : Option Expression → AggregateKey × AggregateValue → Outcome Bool
  passes none (key, val) = returns true
  passes (some e) (key, val) = do
    v ← evaluate_aggregate ops key.group_bys val.aggregates e
    to_boolean v

  -- The first loop of `Next`: it does not look at the last group.
  unfoldable pub skip_groups :
      Option Expression
      → List (AggregateKey × AggregateValue)
      → Outcome (List (AggregateKey × AggregateValue))
  skip_groups having [] = returns []
  skip_groups having (g ∷ []) = returns (g ∷ [])
  skip_groups having (g ∷ g' ∷ rest) = do
    good ← passes having g
    elim good [ true ↦ returns (g ∷ g' ∷ rest) | false ↦ skip_groups having (g' ∷ rest) ]

  unfoldable pub output_values :
      List Expression → AggregateKey × AggregateValue → Outcome (List Value)
  output_values [] g = returns []
  output_values (e ∷ es) (key, val) = do
    v ← evaluate_aggregate ops key.group_bys val.aggregates e
    rest ← output_values es (key, val)
    returns (v ∷ rest)

  unfoldable pub aggregation_next :
      AggregationPlanNode → Next Tuple (List (AggregateKey × AggregateValue))
  aggregation_next plan groups = do
    at ← skip_groups plan.having groups
    elim at [
      | [] ↦ returns (record { tuple = none; done = true; error = false }, [])
      | g ∷ rest ↦ (do
        values ← output_values plan.output_exprs g
        t ← new_tuple_from_schema values plan.output_schema
        returns (record { tuple = some t; done = false; error = false }, rest))
    ]
