-- ===== src/Aggregation/Groups.antt =====
-- The hash table of execution/executors/aggregation_executor.go after all rows, against the groups of the
-- rows by the hash of their keys.
use samehada_db.Base.{
  ℕ, suc, List, [], ◌∷◌, true, ◌==◌, if◌then◌else◌, Option, none, some, returns, ◌≡◌, refl, arith,
  length, ap, ◌∙◌, sym, Bool-cases, inl, inr,
}
use samehada_db.Txn.{Tuple}
use samehada_db.Value.{Value, FloatOps}
use samehada_db.Schema.{Schema}
use samehada_db.Aggregation.{
  AggregationType, AggregationPlanNode, AggregateKey, AggregateValue, SimpleAggregationHashTable,
  new_simple_aggregation_hash_table, hash_values_on_aggregate_key, combine_aggregate_values,
  insert_combine, current_values, kept_key, make_key, make_val, aggregate_tuples,
}
use samehada_db.Aggregation.Fold.{
  AreInputs, AreRows, steps, integers, initials, initial_values-initials, totals, folds,
  folds-totals, length-steps, length-initials, combine_aggregate_values-steps,
}

-- A tuple of the child with what the executor makes of it: its key, the hash of the key, the values that
-- are aggregated, and these as numbers.
pub record Row : Type 0 where
  pub tuple : Tuple
  pub key : AggregateKey
  pub code : ℕ
  pub val : AggregateValue
  pub numbers : List (Option ℕ)

abbrev pub tuples_of : List Row → List Tuple
tuples_of [] = []
tuples_of (r ∷ rows) = r.tuple ∷ tuples_of rows

-- The rows of one group.
abbrev pub group : ℕ → List Row → List (List (Option ℕ))
group h [] = []
group h (r ∷ rows) = if h == r.code then r.numbers ∷ group h rows else group h rows

-- The key of the first row of a group.
abbrev pub first_key : ℕ → List Row → Option AggregateKey
first_key h [] = none
first_key h (r ∷ rows) = if h == r.code then some r.key else first_key h rows

-- The aggregates of a group, if it has a row.
abbrev pub aggregates_of : List AggregationType → List (List (Option ℕ)) → Option AggregateValue
aggregates_of ts [] = none
aggregates_of ts (xs ∷ rows) = some (record { aggregates = integers (totals ts (xs ∷ rows)) })

module _ (ops : FloatOps) (sum128 : List ℕ → List ℕ) (plan : AggregationPlanNode)
    (schema : Schema) where
  pub record IsRow (r : Row) : Type 0 where
    pub makes_key : make_key ops sum128 plan r.tuple schema ≡ returns r.key
    pub makes_val : make_val ops sum128 plan r.tuple schema ≡ returns r.val
    pub hashes : hash_values_on_aggregate_key sum128 r.key ≡ returns r.code
    pub inputs : AreInputs plan.agg_types r.val.aggregates r.numbers

abbrev shown : Option (List ℕ) → Option AggregateValue
shown none = none
shown (some as') = some (record { aggregates = integers as' })

abbrev from : List AggregationType → Option (List ℕ) → List ℕ
from ts none = initials ts
from ts (some as') = as'

abbrev continue : List AggregationType → Option (List ℕ) → List (List (Option ℕ)) → Option (List ℕ)
continue ts acc [] = acc
continue ts acc (xs ∷ rows) = continue ts (some (steps ts (from ts acc) xs)) rows

abbrev continue_key : Option AggregateKey → Option AggregateKey → Option AggregateKey
continue_key none k = k
continue_key (some k) _ = some k

inputs-length :
    (ts : List AggregationType) (vs : List Value) (xs : List (Option ℕ))
    → AreInputs ts vs xs
    → length xs ≡ length ts
inputs-length [] [] [] h = refl
inputs-length [] [] (x ∷ xs) h = elim h [ ]
inputs-length [] (v ∷ vs) xs h = elim h [ ]
inputs-length (t ∷ ts) [] xs h = elim h [ ]
inputs-length (t ∷ ts) (v ∷ vs) [] h = elim h [ ]
inputs-length (t ∷ ts) (v ∷ vs) (x ∷ xs) (h, hs) = ap suc (inputs-length ts vs xs hs)

-- What the table holds, as numbers.
record HasTotals (ts : List AggregationType) (aht : SimpleAggregationHashTable)
    (accs : ℕ → Option (List ℕ)) (keys : ℕ → Option AggregateKey) : Type 0 where
  types : aht.agg_types ≡ ts
  exprs : length aht.agg_exprs ≡ length ts
  vals : (h : ℕ) → aht.ht_val h ≡ shown (accs h)
  has_keys : (h : ℕ) → aht.ht_key h ≡ keys h
  lengths : (h : ℕ) → length (from ts (accs h)) ≡ length ts

current-from :
    (types : List AggregationType) (acc : Option (List ℕ))
    → current_values types (shown acc) ≡ integers (from types acc)
current-from types none = initial_values-initials types
current-from types (some as') = refl

codes : (h c : ℕ) → (h == c) ≡ true → h ≡ c
codes h c same = ground (arith, same)

keys-none : (k : Option AggregateKey) → k ≡ continue_key k none
keys-none none = refl
keys-none (some k) = refl

kept-continue :
    (o : Option AggregateKey) (key : AggregateKey) (rest : Option AggregateKey)
    → continue_key (kept_key o key) rest ≡ continue_key o (some key)
kept-continue none key rest = refl
kept-continue (some k) key rest = refl

abbrev replaced {ℓ} : {A : Type ℓ} → (ℕ → A) → ℕ → A → ℕ → A
replaced f h a g = if g == h then a else f g

module _ (ops : FloatOps) (sum128 : List ℕ → List ℕ) (plan : AggregationPlanNode)
    (schema : Schema) where
  abbrev ts : List AggregationType
  ts = plan.agg_types

  grown : SimpleAggregationHashTable → Row → List ℕ → SimpleAggregationHashTable
  grown aht r as' = record aht {
    ht_val = replaced aht.ht_val r.code (some (record { aggregates = integers as' }));
    ht_key = replaced aht.ht_key r.code (kept_key (aht.ht_key r.code) r.key);
  }

  insert_combine-grown :
      (aht : SimpleAggregationHashTable) (accs : ℕ → Option (List ℕ))
      (keys : ℕ → Option AggregateKey) (r : Row)
      → HasTotals ts aht accs keys
      → IsRow ops sum128 plan schema r
      → insert_combine ops sum128 aht r.key r.val
        ≡ returns (grown aht r (steps ts (from ts (accs r.code)) r.numbers))
  unfolding insert_combine grown
  insert_combine-grown aht accs keys r k i =
      let at : current_values aht.agg_types (aht.ht_val r.code) ≡ integers (from ts (accs r.code)) =
        ap (λ t. current_values t (aht.ht_val r.code)) k.types
        ∙ ap (current_values ts) (k.vals r.code)
        ∙ current-from ts (accs r.code) in
      let combined : combine_aggregate_values ops (length aht.agg_exprs) aht.agg_types
            (current_values aht.agg_types (aht.ht_val r.code)) r.val.aggregates
          ≡ returns (integers (steps ts (from ts (accs r.code)) r.numbers)) =
        ap
          (λ n.
            combine_aggregate_values ops n aht.agg_types
              (current_values aht.agg_types (aht.ht_val r.code)) r.val.aggregates)
          k.exprs
        ∙ ap
            (λ t.
              combine_aggregate_values ops (length ts) t
                (current_values aht.agg_types (aht.ht_val r.code)) r.val.aggregates)
            k.types
        ∙ ap (λ c. combine_aggregate_values ops (length ts) ts c r.val.aggregates) at
        ∙ combine_aggregate_values-steps ops ts (from ts (accs r.code)) r.val.aggregates r.numbers
            i.inputs (k.lengths r.code) in
      simp (i.hashes, combined) refl

  abbrev acc_after : (ℕ → Option (List ℕ)) → Row → ℕ → Option (List ℕ)
  acc_after accs r = replaced accs r.code (some (steps ts (from ts (accs r.code)) r.numbers))

  abbrev keys_after : (ℕ → Option AggregateKey) → Row → ℕ → Option AggregateKey
  keys_after keys r = replaced keys r.code (kept_key (keys r.code) r.key)

  grown-HasTotals :
      (aht : SimpleAggregationHashTable) (accs : ℕ → Option (List ℕ))
      (keys : ℕ → Option AggregateKey) (r : Row)
      → HasTotals ts aht accs keys
      → IsRow ops sum128 plan schema r
      → HasTotals ts
          (grown aht r (steps ts (from ts (accs r.code)) r.numbers))
          (acc_after accs r)
          (keys_after keys r)
  unfolding grown
  grown-HasTotals aht accs keys r k i = record {
    types = k.types;
    exprs = k.exprs;
    vals = λ h. elim (Bool-cases (h == r.code)) [
      | inl same ↦ rw same refl
      | inr other ↦ rw other (k.vals h)
    ];
    has_keys = λ h. elim (Bool-cases (h == r.code)) [
      | inl same ↦ rw same (ap (λ o. kept_key o r.key) (k.has_keys r.code))
      | inr other ↦ rw other (k.has_keys h)
    ];
    lengths = λ h. elim (Bool-cases (h == r.code)) [
      | inl same ↦ rw same (
          length-steps ts (from ts (accs r.code)) r.numbers (k.lengths r.code)
            (inputs-length ts r.val.aggregates r.numbers i.inputs))
      | inr other ↦ rw other (k.lengths h)
    ];
  }

  abbrev pub AreAll : List Row → Type 0
  AreAll [] = Unit
  AreAll (r ∷ rows) = IsRow ops sum128 plan schema r × AreAll rows

  continue-replaced :
      (accs : ℕ → Option (List ℕ)) (r : Row) (rows : List Row) (h : ℕ)
      → continue ts (acc_after accs r h) (group h rows) ≡ continue ts (accs h) (group h (r ∷ rows))
  continue-replaced accs r rows h = elim (Bool-cases (h == r.code)) [
    | inl same ↦ rw same (
        ap (λ c. continue ts (some (steps ts (from ts (accs c)) r.numbers)) (group h rows))
          (sym (codes h r.code same)))
    | inr other ↦ rw other refl
  ]

  keys-replaced :
      (keys : ℕ → Option AggregateKey) (r : Row) (rows : List Row) (h : ℕ)
      → continue_key (keys_after keys r h) (first_key h rows)
        ≡ continue_key (keys h) (first_key h (r ∷ rows))
  keys-replaced keys r rows h = elim (Bool-cases (h == r.code)) [
    | inl same ↦ rw same (
        ap (λ c. continue_key (kept_key (keys c) r.key) (first_key h rows))
          (sym (codes h r.code same))
        ∙ kept-continue (keys h) r.key (first_key h rows))
    | inr other ↦ rw other refl
  ]

  aggregate_tuples-HasTotals :
      (rows : List Row) (aht : SimpleAggregationHashTable) (accs : ℕ → Option (List ℕ))
      (keys : ℕ → Option AggregateKey)
      → HasTotals ts aht accs keys
      → AreAll rows
      → (after : SimpleAggregationHashTable) × (aggregate_tuples ops sum128 plan schema aht
            (tuples_of rows)
          ≡ returns after)
        × ((h : ℕ) → after.ht_val h ≡ shown (continue ts (accs h) (group h rows)))
        × ((h : ℕ) → after.ht_key h ≡ continue_key (keys h) (first_key h rows))
  unfolding aggregate_tuples
  aggregate_tuples-HasTotals [] aht accs keys k all =
      (aht, refl, k.vals, λ h. k.has_keys h ∙ keys-none (keys h))
  aggregate_tuples-HasTotals (r ∷ rows) aht accs keys k (i, all) =
      let (after, ran, vals, ends) =
        aggregate_tuples-HasTotals rows (grown aht r (steps ts (from ts (accs r.code)) r.numbers))
          (acc_after accs r) (keys_after keys r) (grown-HasTotals aht accs keys r k i) all in
      (
        after,
        simp (i.makes_key, i.makes_val, insert_combine-grown aht accs keys r k i) ran,
        (λ h. vals h ∙ ap shown (continue-replaced accs r rows h)),
        (λ h. ends h ∙ keys-replaced keys r rows h),
      )

  group-AreRows : (rows : List Row) (h : ℕ) → AreAll rows → AreRows ts (group h rows)
  group-AreRows [] h all = tt
  group-AreRows (r ∷ rows) h (i, all) = elim (Bool-cases (h == r.code)) [
    | inl same ↦
        rw same (inputs-length ts r.val.aggregates r.numbers i.inputs, group-AreRows rows h all)
    | inr other ↦ rw other (group-AreRows rows h all)
  ]

  continue-folds :
      (as' : List ℕ) (rows : List (List (Option ℕ)))
      → continue ts (some as') rows ≡ some (folds ts as' rows)
  continue-folds as' [] = refl
  continue-folds as' (xs ∷ rows) = continue-folds (steps ts as' xs) rows

  shown-aggregates_of :
      (rows : List (List (Option ℕ)))
      → AreRows ts rows
      → shown (continue ts none rows) ≡ aggregates_of ts rows
  shown-aggregates_of [] k = refl
  shown-aggregates_of (xs ∷ rows) k =
      ap shown (continue-folds (steps ts (initials ts) xs) rows)
      ∙ ap (λ n. shown (some n)) (folds-totals ts (xs ∷ rows) k)

  -- On rows whose keys and values the expressions give, with numbers and nulls where the aggregates ask
  -- for numbers, the loop of `Init` does not fail: its table then has for each hash the aggregates of the
  -- rows of that hash (the count and the sum in 32 bits, the least and the greatest number), the key of the
  -- first of these rows, and nothing for a hash that no row has.
  pub aggregate_tuples-groups :
      (rows : List Row)
      → length plan.aggregates ≡ length plan.agg_types
      → AreAll rows
      → (after : SimpleAggregationHashTable) × (aggregate_tuples ops sum128 plan schema
            (new_simple_aggregation_hash_table plan.aggregates plan.agg_types)
            (tuples_of rows)
          ≡ returns after)
        × ((h : ℕ) → after.ht_val h ≡ aggregates_of plan.agg_types (group h rows))
        × ((h : ℕ) → after.ht_key h ≡ first_key h rows)
  unfolding new_simple_aggregation_hash_table
  aggregate_tuples-groups rows same all =
      let empty : HasTotals ts (new_simple_aggregation_hash_table plan.aggregates plan.agg_types)
          (λ h. none) (λ h. none) =
        record {
          types = refl;
          exprs = same;
          vals = λ h. refl;
          has_keys = λ h. refl;
          lengths = λ h. length-initials ts;
        } in
      let (after, ran, vals, ends) =
        aggregate_tuples-HasTotals rows
          (new_simple_aggregation_hash_table plan.aggregates plan.agg_types) (λ h. none) (λ h. none)
          empty all in
      (
        after,
        ran,
        (λ h. vals h ∙ shown-aggregates_of (group h rows) (group-AreRows rows h all)),
        ends,
      )
