-- ===== src/Aggregation/Fold.antt =====
-- The aggregates of a group in execution/executors/aggregation_executor.go as numbers.
use samehada_db.Base.{
  ℕ, suc, ◌+◌, ◌<◌, List, [], ◌∷◌, true, false, not, if◌then◌else◌, Option, none, some, returns,
  ◌≡◌, refl, arith, length, ap, ◌∙◌, sym,
}
use samehada_db.Bytes.{u32}
use samehada_db.Value.{Value, FloatOps, new_integer, int_lt, add, min_value, max_value}
use samehada_db.Aggregation.{
  AggregationType, count_aggregate, sum_aggregate, min_aggregate, max_aggregate, initial_value,
  initial_values, combine_one, combine_aggregate_values,
}

-- A value as an aggregate reads it: NULL, or an integer.
pub data IsNumber : Value → Option ℕ → Type 0 where
  is_null_value : {v : Value} → v.is_null ≡ true → IsNumber v none
  is_integer : {v : Value} {n : ℕ} → v.is_null ≡ false → v.integer ≡ some n → IsNumber v (some n)

-- COUNT takes any value.
abbrev pub IsInput : AggregationType → Value → Option ℕ → Type 0
IsInput count_aggregate v x = Unit
IsInput t v x = IsNumber v x

abbrev pub smaller : ℕ → ℕ → ℕ
smaller a n = if int_lt n a then n else a

abbrev pub larger : ℕ → ℕ → ℕ
larger a n = if int_lt a n then n else a

-- The aggregate after one more row; NULL is left out by all but COUNT.
abbrev pub step : AggregationType → ℕ → Option ℕ → ℕ
step count_aggregate a x = u32 (a + 1)
step sum_aggregate a none = a
step sum_aggregate a (some n) = u32 (a + n)
step min_aggregate a none = a
step min_aggregate a (some n) = smaller a n
step max_aggregate a none = a
step max_aggregate a (some n) = larger a n

choose_smaller : (a n : ℕ) → (if not (int_lt n a) then a else n) ≡ smaller a n
choose_smaller a n = ground arith

choose_larger : (a n : ℕ) → (if not (int_lt a n) then a else n) ≡ larger a n
choose_larger a n = ground arith

module _ (ops : FloatOps) where
  add-number :
      (a : ℕ) (v : Value) (x : Option ℕ)
      → IsNumber v x
      → add ops (new_integer a) v ≡ returns (new_integer (step sum_aggregate a x))
  unfolding add new_integer
  add-number a v none (is_null_value h) = simp h refl
  add-number a v (some n) (is_integer h k) = simp (h, k) refl

  min_value-number :
      (a : ℕ) (v : Value) (x : Option ℕ)
      → IsNumber v x
      → min_value ops (new_integer a) v ≡ returns (new_integer (step min_aggregate a x))
  unfolding min_value new_integer
  min_value-number a v none (is_null_value h) = simp h refl
  min_value-number a v (some n) (is_integer h k) = simp (h, k, choose_smaller a n) refl

  max_value-number :
      (a : ℕ) (v : Value) (x : Option ℕ)
      → IsNumber v x
      → max_value ops (new_integer a) v ≡ returns (new_integer (step max_aggregate a x))
  unfolding max_value new_integer
  max_value-number a v none (is_null_value h) = simp h refl
  max_value-number a v (some n) (is_integer h k) = simp (h, k, choose_larger a n) refl

  combine_one-step :
      (t : AggregationType) (a : ℕ) (v : Value) (vs : List Value) (x : Option ℕ)
      → IsInput t v x
      → combine_one ops t (new_integer a) (v ∷ vs) ≡ returns (new_integer (step t a x))
  unfolding combine_one
  combine_one-step count_aggregate a v vs x h =
      add-number a (new_integer 1) (some 1) (unfold new_integer in is_integer refl refl)
  combine_one-step sum_aggregate a v vs x h = add-number a v x h
  combine_one-step min_aggregate a v vs x h = min_value-number a v x h
  combine_one-step max_aggregate a v vs x h = max_value-number a v x h

-- The values of one row, one for each aggregate.
abbrev pub AreInputs : List AggregationType → List Value → List (Option ℕ) → Type 0
AreInputs [] [] [] = Unit
AreInputs (t ∷ ts) (v ∷ vs) (x ∷ xs) = IsInput t v x × AreInputs ts vs xs
AreInputs _ _ _ = ⊥

abbrev pub steps : List AggregationType → List ℕ → List (Option ℕ) → List ℕ
steps (t ∷ ts) (a ∷ as') (x ∷ xs) = step t a x ∷ steps ts as' xs
steps _ as' xs = []

abbrev pub integers : List ℕ → List Value
integers [] = []
integers (a ∷ as') = new_integer a ∷ integers as'

pub combine_aggregate_values-steps :
    (ops : FloatOps) (ts : List AggregationType) (as' : List ℕ) (vs : List Value)
    (xs : List (Option ℕ))
    → AreInputs ts vs xs
    → length as' ≡ length ts
    → combine_aggregate_values ops (length ts) ts (integers as') vs
      ≡ returns (integers (steps ts as' xs))
unfolding combine_aggregate_values
combine_aggregate_values-steps ops [] [] [] [] h k = refl
combine_aggregate_values-steps ops [] [] [] (x ∷ xs) h k = elim h [ ]
combine_aggregate_values-steps ops [] [] (v ∷ vs) xs h k = elim h [ ]
combine_aggregate_values-steps ops [] (a ∷ as') vs xs h k = absurd (omega (arith, k))
combine_aggregate_values-steps ops (t ∷ ts) [] vs xs h k = absurd (omega (arith, k))
combine_aggregate_values-steps ops (t ∷ ts) (a ∷ as') [] xs h k = elim h [ ]
combine_aggregate_values-steps ops (t ∷ ts) (a ∷ as') (v ∷ vs) [] h k = elim h [ ]
combine_aggregate_values-steps ops (t ∷ ts) (a ∷ as') (v ∷ vs) (x ∷ xs) (h, hs) k =
    simp
      (
        combine_one-step ops t a v vs x h,
        combine_aggregate_values-steps ops ts as' vs xs hs (omega arith),
      )
      refl

-- The aggregate of a column, from some value on.
abbrev pub run : AggregationType → ℕ → List (Option ℕ) → ℕ
run t a [] = a
run t a (x ∷ xs) = run t (step t a x) xs

abbrev pub sum_of : List (Option ℕ) → ℕ
sum_of [] = 0
sum_of (none ∷ xs) = sum_of xs
sum_of (some n ∷ xs) = n + sum_of xs

-- What the aggregate of a column is: the number of its rows and the sum of its integers in 32 bits, the
-- least and the greatest of its integers in the order of int32.
pub total : AggregationType → List (Option ℕ) → ℕ
total count_aggregate xs = u32 (length xs)
total sum_aggregate xs = u32 (sum_of xs)
total min_aggregate xs = run min_aggregate 2147483647 xs
total max_aggregate xs = run max_aggregate 2147483648 xs

abbrev pub initial : AggregationType → ℕ
initial count_aggregate = 0
initial sum_aggregate = 0
initial min_aggregate = 2147483647
initial max_aggregate = 2147483648

abbrev pub initials : List AggregationType → List ℕ
initials [] = []
initials (t ∷ ts) = initial t ∷ initials ts

pub initial_values-initials :
    (ts : List AggregationType) → initial_values ts ≡ integers (initials ts)
unfolding initial_values initial_value
initial_values-initials [] = refl
initial_values-initials (count_aggregate ∷ ts) =
    ap (λ r. new_integer 0 ∷ r) (initial_values-initials ts)
initial_values-initials (sum_aggregate ∷ ts) =
    ap (λ r. new_integer 0 ∷ r) (initial_values-initials ts)
initial_values-initials (min_aggregate ∷ ts) =
    ap (λ r. new_integer 2147483647 ∷ r) (initial_values-initials ts)
initial_values-initials (max_aggregate ∷ ts) =
    ap (λ r. new_integer 2147483648 ∷ r) (initial_values-initials ts)

run_count :
    (a : ℕ) (xs : List (Option ℕ)) → a < 4294967296 → run count_aggregate a xs ≡ u32 (a + length xs)
run_count a [] h = omega arith
run_count a (x ∷ xs) h = run_count (u32 (a + 1)) xs (omega arith) ∙ omega arith

run_sum :
    (a : ℕ) (xs : List (Option ℕ)) → a < 4294967296 → run sum_aggregate a xs ≡ u32 (a + sum_of xs)
run_sum a [] h = omega arith
run_sum a (none ∷ xs) h = run_sum a xs h
run_sum a (some n ∷ xs) h = run_sum (u32 (a + n)) xs (omega arith) ∙ omega arith

pub run-total : (t : AggregationType) (xs : List (Option ℕ)) → run t (initial t) xs ≡ total t xs
unfolding total
run-total count_aggregate xs = run_count 0 xs (omega arith) ∙ ap u32 (omega arith)
run-total sum_aggregate xs = run_sum 0 xs (omega arith) ∙ ap u32 (omega arith)
run-total min_aggregate xs = refl
run-total max_aggregate xs = refl

-- The first column of some rows, and the others.
abbrev pub firsts : List (List (Option ℕ)) → List (Option ℕ)
firsts [] = []
firsts ([] ∷ rows) = none ∷ firsts rows
firsts ((x ∷ xs) ∷ rows) = x ∷ firsts rows

abbrev pub others : List (List (Option ℕ)) → List (List (Option ℕ))
others [] = []
others ([] ∷ rows) = [] ∷ others rows
others ((x ∷ xs) ∷ rows) = xs ∷ others rows

-- The aggregates of a group's rows, one for each column.
abbrev pub totals : List AggregationType → List (List (Option ℕ)) → List ℕ
totals [] rows = []
totals (t ∷ ts) rows = total t (firsts rows) ∷ totals ts (others rows)

abbrev columns : List AggregationType → List ℕ → List (List (Option ℕ)) → List ℕ
columns (t ∷ ts) (a ∷ as') rows = run t a (firsts rows) ∷ columns ts as' (others rows)
columns _ as' rows = []

-- Row by row.
abbrev pub folds : List AggregationType → List ℕ → List (List (Option ℕ)) → List ℕ
folds ts as' [] = as'
folds ts as' (xs ∷ rows) = folds ts (steps ts as' xs) rows

abbrev pub AreRows : List AggregationType → List (List (Option ℕ)) → Type 0
AreRows ts [] = Unit
AreRows ts (xs ∷ rows) = (length xs ≡ length ts) × AreRows ts rows

columns-nil :
    (ts : List AggregationType) (as' : List ℕ) → length as' ≡ length ts → columns ts as' [] ≡ as'
columns-nil [] [] h = refl
columns-nil [] (a ∷ as') h = absurd (omega (arith, h))
columns-nil (t ∷ ts) [] h = absurd (omega (arith, h))
columns-nil (t ∷ ts) (a ∷ as') h = ap (λ r. a ∷ r) (columns-nil ts as' (omega (arith, h)))

columns-steps :
    (ts : List AggregationType) (as' : List ℕ) (xs : List (Option ℕ))
    (rows : List (List (Option ℕ)))
    → length as' ≡ length ts
    → length xs ≡ length ts
    → columns ts (steps ts as' xs) rows ≡ columns ts as' (xs ∷ rows)
columns-steps [] as' xs rows h k = refl
columns-steps (t ∷ ts) [] xs rows h k = refl
columns-steps (t ∷ ts) (a ∷ as') [] rows h k = absurd (omega (arith, k))
columns-steps (t ∷ ts) (a ∷ as') (x ∷ xs) rows h k =
    ap (λ r. run t (step t a x) (firsts rows) ∷ r)
      (columns-steps ts as' xs (others rows) (omega (arith, h)) (omega (arith, k)))

pub length-steps :
    (ts : List AggregationType) (as' : List ℕ) (xs : List (Option ℕ))
    → length as' ≡ length ts
    → length xs ≡ length ts
    → length (steps ts as' xs) ≡ length ts
length-steps [] as' xs h k = refl
length-steps (t ∷ ts) [] xs h k = absurd (omega (arith, h))
length-steps (t ∷ ts) (a ∷ as') [] h k = absurd (omega (arith, k))
length-steps (t ∷ ts) (a ∷ as') (x ∷ xs) h k =
    omega (arith, length-steps ts as' xs (omega (arith, h)) (omega (arith, k)))

folds-columns :
    (ts : List AggregationType) (as' : List ℕ) (rows : List (List (Option ℕ)))
    → length as' ≡ length ts
    → AreRows ts rows
    → folds ts as' rows ≡ columns ts as' rows
folds-columns ts as' [] h k = sym (columns-nil ts as' h)
folds-columns ts as' (xs ∷ rows) h (k, ks) =
    folds-columns ts (steps ts as' xs) rows (length-steps ts as' xs h k) ks
    ∙ columns-steps ts as' xs rows h k

columns-totals :
    (ts : List AggregationType) (rows : List (List (Option ℕ)))
    → columns ts (initials ts) rows ≡ totals ts rows
columns-totals [] rows = refl
columns-totals (t ∷ ts) rows = λ i. run-total t (firsts rows) i ∷ columns-totals ts (others rows) i

pub length-initials : (ts : List AggregationType) → length (initials ts) ≡ length ts
length-initials [] = refl
length-initials (t ∷ ts) = ap suc (length-initials ts)

pub folds-totals :
    (ts : List AggregationType) (rows : List (List (Option ℕ)))
    → AreRows ts rows
    → folds ts (initials ts) rows ≡ totals ts rows
folds-totals ts rows h =
    folds-columns ts (initials ts) rows (length-initials ts) h ∙ columns-totals ts rows
