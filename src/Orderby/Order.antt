-- ===== src/Orderby/Order.antt =====
-- The order of rows that the order types of execution/plans/orderby.go stand for, and the test which
-- execution/executors/orderby_executor.go gives to `sort.Slice`.
use samehada_db.Base.{
  ℕ, List, [], ◌∷◌, Bool, true, false, Outcome, returns, panics, ◌>>=◌, ◌≡◌, refl, ◌⊎◌, inl, inr,
}
use samehada_db.Value.{Value, FloatOps, compare_equals, compare_less_than}
use samehada_db.Orderby.{OrderbyType, asc, desc, in_order, less_rows}

-- What a different value behind another one is: not less where the column ascends, less where it descends.
abbrev pub Stands : OrderbyType → Outcome Bool → Type 0
Stands asc less = less ≡ returns false
Stands desc less = less ≡ returns true

-- A row in front of another one: the first column in which they differ decides.
abbrev pub InOrder : FloatOps → List ℕ → List OrderbyType → List Value → List Value → Type 0
InOrder ops [] types a b = Unit
InOrder ops (c ∷ cs) (t ∷ types) (x ∷ a) (y ∷ b) =
    ((compare_equals ops y x ≡ returns true) × InOrder ops cs types a b)
    ⊎ ((compare_equals ops y x ≡ returns false) × Stands t (compare_less_than ops y x))
InOrder ops _ _ _ _ = ⊥

-- Each element is before all behind it.
abbrev pub AllBehind {ℓ} : {A : Type ℓ} → (A → A → Type 0) → A → List A → Type 0
AllBehind R x [] = Unit
AllBehind R x (y ∷ ys) = R x y × AllBehind R x ys

abbrev pub AllInOrder {ℓ} : {A : Type ℓ} → (A → A → Type 0) → List A → Type 0
AllInOrder R [] = Unit
AllInOrder R (x ∷ xs) = AllBehind R x xs × AllInOrder R xs

abbrev column_test : OrderbyType → Outcome Bool → Outcome Bool → Outcome Bool → Outcome Bool
column_test t same less rest = same >>= λ b. elim b as (λ b. Outcome Bool) [
  | true ↦ rest
  | false ↦ (less >>= λ l. returns (in_order t l))
]

column_decides :
    (t : OrderbyType) (same less rest : Outcome Bool)
    → column_test t same less rest ≡ returns false
    → ((same ≡ returns true) × (rest ≡ returns false)) ⊎ ((same ≡ returns false) × Stands t less)
unfolding in_order
column_decides t panics less rest h = cc
column_decides t (returns true) less rest h = inl (refl, h)
column_decides t (returns false) panics rest h = cc
column_decides asc (returns false) (returns l) rest h = inr (refl, h)
column_decides desc (returns false) (returns true) rest h = inr (refl, refl)
column_decides desc (returns false) (returns false) rest h = cc

pub less_rows-InOrder :
    (ops : FloatOps) (cs : List ℕ) (types : List OrderbyType) (a b : List Value)
    → less_rows ops cs types b a ≡ returns false
    → InOrder ops cs types a b
unfolding less_rows
less_rows-InOrder ops [] types a b h = tt
less_rows-InOrder ops (c ∷ cs) (t ∷ types) (x ∷ a) (y ∷ b) h =
    elim (column_decides t (compare_equals ops y x) (compare_less_than ops y x)
      (less_rows ops cs types b a) h) [
        | inl (same, rest) ↦ inl (same, less_rows-InOrder ops cs types a b rest)
        | inr differs ↦ inr differs
      ]
less_rows-InOrder ops (c ∷ cs) [] a b h = cc
less_rows-InOrder ops (c ∷ cs) (t ∷ types) [] [] h = cc
less_rows-InOrder ops (c ∷ cs) (t ∷ types) [] (y ∷ b) h = cc
less_rows-InOrder ops (c ∷ cs) (t ∷ types) (x ∷ a) [] h = cc
