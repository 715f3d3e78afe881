-- ===== src/Orderby/Sorted.antt =====
-- The tuples of the order-by executor of execution/executors/orderby_executor.go.
use samehada_db.Base.{
  ℕ, zero, suc, ◌+◌, ◌<◌, List, [], ◌∷◌, ◌++◌, Bool, true, false, length, Option, some, Outcome,
  returns, ◌>>=◌, ◌≡◌, refl, arith, ap, ◌∙◌, sym, subst, map, get_elem?,
}
use mathlib.Core.List.{Permᴰ}
use samehada_db.Bytes.{u32}
use samehada_db.Txn.{Tuple}
use samehada_db.Value.{
  Value, FloatOps, new_integer, to_integer, deref, compare_equals, compare_less_than,
}
use samehada_db.Schema.{Schema, index}
use samehada_db.Orderby.{
  OrderbyType, in_order, OrderbyPlanNode, SortSlice, sort_values, collect, less_rows, tuple_of_row,
  arrange, orderby_init,
}
use samehada_db.Orderby.Order.{InOrder, AllBehind, AllInOrder, less_rows-InOrder}

-- In no place a later element is less than an earlier one.
abbrev pub NoneLess {ℓ} : {A : Type ℓ} → (A → A → Outcome Bool) → A → List A → Type 0
NoneLess less x [] = Unit
NoneLess less x (y ∷ ys) = (less y x ≡ returns false) × NoneLess less x ys

abbrev pub IsOrdered {ℓ} : {A : Type ℓ} → (A → A → Outcome Bool) → List A → Type 0
IsOrdered less [] = Unit
IsOrdered less (x ∷ xs) = NoneLess less x xs × IsOrdered less xs

module _ (ops : FloatOps) (plan : OrderbyPlanNode) (schema : Schema)
    (keys : Tuple → List Value) where
  -- The columns to sort by can be read.
  abbrev pub AreKeyed : List Tuple → Type 0
  AreKeyed [] = Unit
  AreKeyed (t ∷ ts) =
      (sort_values t schema plan.col_idxs ≡ returns (keys t))
      × (length (keys t) ≡ length plan.col_idxs)
      × AreKeyed ts

  abbrev pub rows_from : ℕ → List Tuple → List (List Value)
  rows_from k [] = []
  rows_from k (t ∷ ts) = (keys t ++ (new_integer k ∷ [])) ∷ rows_from (k + 1) ts

  collect_one :
      (k : ℕ) (t : Tuple) (replies : List (Option Tuple)) (ts : List Tuple)
      (rows : List (List Value))
      → sort_values t schema plan.col_idxs ≡ returns (keys t)
      → collect plan schema (u32 (k + 1)) replies ≡ returns (ts, rows)
      → collect plan schema k (some t ∷ replies)
        ≡ returns (t ∷ ts, (keys t ++ (new_integer k ∷ [])) ∷ rows)
  unfolding collect
  collect_one k t replies ts rows h e = simp (h, e) refl

  collect-rows_from :
      (k : ℕ) (ts : List Tuple)
      → k + length ts < 2147483648
      → AreKeyed ts
      → collect plan schema k (map some ts) ≡ returns (ts, rows_from k ts)
  unfolding collect
  collect-rows_from k [] small h = refl
  collect-rows_from k (t ∷ ts) small (read, long, h) =
      collect_one k t (map some ts) ts (rows_from (k + 1) ts) read (
        ap (λ n. collect plan schema n (map some ts)) (omega arith)
        ∙ collect-rows_from (k + 1) ts (omega arith) h)

  -- The rows with the tuples that they lead back to.
  abbrev Row : List Tuple → List Value → Type 0
  Row all row =
      (t : Tuple) × (n : ℕ) × (row ≡ keys t ++ (new_integer n ∷ []))
      × (tuple_of_row ops plan all row ≡ returns t)
      × (length (keys t) ≡ length plan.col_idxs)

  abbrev Rows : List Tuple → List (List Value) → Type 0
  Rows all [] = Unit
  Rows all (row ∷ rows) = Row all row × Rows all rows

  abbrev picked : (all : List Tuple) (rows : List (List Value)) → Rows all rows → List Tuple
  picked all [] a = []
  picked all (row ∷ rows) (a, as') = a.0 ∷ picked all rows as'

  moved_row : (all : List Tuple) {x y : List Value} → x ≡ y → Row all x → Row all y
  moved_row all e (t, n, is_row, found, long) =
      (t, n, sym e ∙ is_row, ap (tuple_of_row ops plan all) (sym e) ∙ found, long)

  permuted :
      (all : List Tuple) {rows rows' : List (List Value)}
      → Permᴰ rows rows'
      → (a : Rows all rows)
      → (a' : Rows all rows') × Permᴰ (picked all rows a) (picked all rows' a')
  unfolding moved_row
  permuted all Permᴰ.nil a = (tt, Permᴰ.nil)
  permuted all (Permᴰ.cons e p) (r, rs) =
      let (rs', q) = permuted all p rs in ((moved_row all e r, rs'), Permᴰ.cons refl q)
  permuted all (Permᴰ.swap {l = l} e₁ e₂) (r₁, (r₂, rs)) =
      ((moved_row all e₂ r₂, (moved_row all e₁ r₁, rs)), Permᴰ.swap refl refl)
  permuted all (Permᴰ.trans p₁ p₂) a =
      let (a', q₁) = permuted all p₁ a in
      let (a'', q₂) = permuted all p₂ a' in (a'', Permᴰ.trans q₁ q₂)

  arrange-picked :
      (all : List Tuple) (rows : List (List Value)) (a : Rows all rows)
      → arrange ops plan all rows ≡ returns (picked all rows a)
  unfolding arrange
  arrange-picked all [] a = refl
  arrange-picked all (row ∷ rows) ((t, n, e, found, long), as') =
      rw (found, arrange-picked all rows as') refl

  less_tuples : Tuple → Tuple → Outcome Bool
  less_tuples x y = less_rows ops plan.col_idxs plan.orderby_types (keys x) (keys y)

  index-last :
      (xs : List Value) (v : Value) (n : ℕ) → length xs ≡ n → index (xs ++ (v ∷ [])) n ≡ returns v
  index-last [] v zero h = refl
  index-last [] v (suc n) h = absurd (omega (arith, h))
  index-last (x ∷ xs) v zero h = absurd (omega (arith, h))
  index-last (x ∷ xs) v (suc n) h = index-last xs v n (omega (arith, h))

  row_runs :
      (all : List Tuple) (t : Tuple) (k : ℕ)
      → index (keys t ++ (new_integer k ∷ [])) (length plan.col_idxs) ≡ returns (new_integer k)
      → get_elem? all k ≡ some t
      → tuple_of_row ops plan all (keys t ++ (new_integer k ∷ [])) ≡ returns t
  unfolding tuple_of_row to_integer new_integer deref
  row_runs all t k h at = simp h (ap deref at)

  initial :
      (all : List Tuple) (k : ℕ) (ts : List Tuple)
      → ((i : ℕ) (t : Tuple) → get_elem? ts i ≡ some t → get_elem? all (k + i) ≡ some t)
      → AreKeyed ts
      → (a : Rows all (rows_from k ts)) × (picked all (rows_from k ts) a ≡ ts)
  initial all k [] at h = (tt, refl)
  initial all k (t ∷ ts) at (read, long, h) =
      let here : get_elem? all k ≡ some t = ap (get_elem? all) (omega arith) ∙ at 0 t refl in
      let (rest, same) =
        initial all (k + 1) ts (λ i t' e. ap (get_elem? all) (omega arith) ∙ at (suc i) t' e) h in
      (
        (
          (
            t,
            k,
            refl,
            row_runs all t k (index-last (keys t) (new_integer k) (length plan.col_idxs) long) here,
            long,
          ),
          rest,
        ),
        ap (λ xs. t ∷ xs) same,
      )

  less_rows-append :
      (cs : List ℕ) (types : List OrderbyType) (a b u v : List Value)
      → length a ≡ length cs
      → length b ≡ length cs
      → less_rows ops cs types (a ++ u) (b ++ v) ≡ less_rows ops cs types a b
  unfolding less_rows
  less_rows-append [] types a b u v h k = refl
  less_rows-append (c ∷ cs) types [] b u v h k = absurd (omega (arith, h))
  less_rows-append (c ∷ cs) types (x ∷ a) [] u v h k = absurd (omega (arith, k))
  less_rows-append (c ∷ cs) [] (x ∷ a) (y ∷ b) u v h k = refl
  less_rows-append (c ∷ cs) (t ∷ types) (x ∷ a) (y ∷ b) u v h k =
      ap
        (λ r. compare_equals ops x y >>= λ same. elim same as (λ b. Outcome Bool) [
          | true ↦ r
          | false ↦ (compare_less_than ops x y >>= λ less. returns (in_order t less))
        ])
        (less_rows-append cs types a b u v (omega (arith, h)) (omega (arith, k)))

  less : List Value → List Value → Outcome Bool
  less = less_rows ops plan.col_idxs plan.orderby_types

  less-less_tuples :
      (all : List Tuple) (x y : List Value) (r : Row all x) (r' : Row all y)
      → less x y ≡ less_tuples r.0 r'.0
  unfolding less less_tuples
  less-less_tuples all x y (t, n, e, found, long) (t', n', e', found', long') =
      ap (λ a. less_rows ops plan.col_idxs plan.orderby_types a y) e
      ∙ ap (λ b. less_rows ops plan.col_idxs plan.orderby_types (keys t ++ (new_integer n ∷ [])) b)
          e'
      ∙ less_rows-append plan.col_idxs plan.orderby_types (keys t) (keys t') (new_integer n ∷ [])
          (new_integer n' ∷ []) long long'

  NoneLess-picked :
      (all : List Tuple) (x : List Value) (r : Row all x) (rows : List (List Value))
      (a : Rows all rows)
      → NoneLess less x rows
      → NoneLess less_tuples r.0 (picked all rows a)
  NoneLess-picked all x r [] a h = tt
  NoneLess-picked all x r (y ∷ rows) (r', a) (h, hs) =
      (sym (less-less_tuples all y x r' r) ∙ h, NoneLess-picked all x r rows a hs)

  IsOrdered-picked :
      (all : List Tuple) (rows : List (List Value)) (a : Rows all rows)
      → IsOrdered less rows
      → IsOrdered less_tuples (picked all rows a)
  IsOrdered-picked all [] a h = tt
  IsOrdered-picked all (x ∷ rows) (r, a) (h, hs) =
      (NoneLess-picked all x r rows a h, IsOrdered-picked all rows a hs)

  AllBehind-NoneLess :
      (x : Tuple) (ts : List Tuple)
      → NoneLess less_tuples x ts
      → AllBehind (λ x y. InOrder ops plan.col_idxs plan.orderby_types (keys x) (keys y)) x ts
  unfolding less_tuples
  AllBehind-NoneLess x [] h = tt
  AllBehind-NoneLess x (y ∷ ts) (h, hs) = (
    less_rows-InOrder ops plan.col_idxs plan.orderby_types (keys x) (keys y) h,
    AllBehind-NoneLess x ts hs,
  )

  IsOrdered-AllInOrder :
      (ts : List Tuple)
      → IsOrdered less_tuples ts
      → AllInOrder (λ x y. InOrder ops plan.col_idxs plan.orderby_types (keys x) (keys y)) ts
  IsOrdered-AllInOrder [] h = tt
  IsOrdered-AllInOrder (x ∷ ts) (h, hs) = (AllBehind-NoneLess x ts h, IsOrdered-AllInOrder ts hs)

  init_runs :
      (sort_slice : SortSlice) (ts : List Tuple) (rows' : List (List Value))
      → collect plan schema 0 (map some ts) ≡ returns (ts, rows_from 0 ts)
      → sort_slice (less_rows ops plan.col_idxs plan.orderby_types) (rows_from 0 ts) ≡ returns rows'
      → orderby_init ops sort_slice plan schema (map some ts) ≡ arrange ops plan ts rows'
  unfolding orderby_init
  init_runs sort_slice ts rows' h e = simp (h, e) refl

  -- Where the child gives fewer than 2 ^ 31 tuples and no nil, the columns to sort by can be read, and the sort
  -- of the library answers the rows in another order, in which no row is less than one in front of it:
  -- `Init` returns the tuples of the child in another order, in which for a tuple behind another one the first
  -- column in which they differ has a value that is not less, where the column is to ascend, or that is less,
  -- where it is to descend.
  pub orderby_init-sorted :
      (sort_slice : SortSlice) (ts : List Tuple) (rows' : List (List Value))
      → length ts < 2147483648
      → AreKeyed ts
      → sort_slice (less_rows ops plan.col_idxs plan.orderby_types) (rows_from 0 ts) ≡ returns rows'
      → Permᴰ (rows_from 0 ts) rows'
      → IsOrdered (less_rows ops plan.col_idxs plan.orderby_types) rows'
      → (sorted : List Tuple) × (orderby_init ops sort_slice plan schema (map some ts)
          ≡ returns sorted)
        × Permᴰ ts sorted
        × AllInOrder (λ x y. InOrder ops plan.col_idxs plan.orderby_types (keys x) (keys y)) sorted
  unfolding less less_tuples
  orderby_init-sorted sort_slice ts rows' small keyed sorts perm ordered =
      let (a, same) = initial ts 0 ts (λ i t e. ap (get_elem? ts) (omega arith) ∙ e) keyed in
      let (a', moved) = permuted ts perm a in
      (
        picked ts rows' a',
        init_runs sort_slice ts rows' (collect-rows_from 0 ts (omega arith) keyed) sorts
            ∙ arrange-picked ts rows' a',
        subst (λ xs. Permᴰ xs (picked ts rows' a')) same moved,
        IsOrdered-AllInOrder (picked ts rows' a') (IsOrdered-picked ts rows' a' ordered),
      )
