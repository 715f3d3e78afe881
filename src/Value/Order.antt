-- ===== src/Value/Order.antt =====
-- The comparisons of types/column_value.go: how the six of them fit together, and what NULL does.
use samehada_db.Base.{
  ℕ, ◌<◌, List, [], ◌∷◌, Bool, true, false, not, ◌&&◌, ◌||◌, ◌==◌, if◌then◌else◌, Option, none,
  some, returns, ◌>>=◌, ◌≡◌, refl, arith, ap, sym,
}
use samehada_db.Value.{
  TypeId, integer_type, float_type, varchar_type, boolean_type, Value, FloatOps, both, int_lt,
  string_lt, string_eq, bool_eq, compare_equals, compare_not_equals, compare_greater_than,
  compare_greater_than_or_equal, compare_less_than, compare_less_than_or_equal, new_integer,
  new_varchar,
}
use samehada_db.Value.Format.{Datum, an_int, a_text, null_int, value_of}

-- The types that the comparisons know.
pub data IsComparable : TypeId → Type 0 where
  integers : IsComparable integer_type
  floats : IsComparable float_type
  strings : IsComparable varchar_type
  booleans : IsComparable boolean_type

both-not :
    {A : Type 0} (p q : Option A) (op : A → A → Bool)
    → both p q (λ a b. not (op a b)) ≡ (both p q op >>= λ b. returns (not b))
both-not none q op = refl
both-not (some a) none op = refl
both-not (some a) (some b) op = refl

both-swap :
    {A : Type 0} (p q : Option A) (op op' : A → A → Bool)
    → ((a b : A) → op a b ≡ op' b a)
    → both p q op ≡ both q p op'
both-swap none none op op' same = refl
both-swap none (some b) op op' same = refl
both-swap (some a) none op op' same = refl
both-swap (some a) (some b) op op' same = ap returns (same a b)

bool_eq-swap : (a b : Bool) → bool_eq a b ≡ bool_eq b a
unfolding bool_eq
bool_eq-swap a b = ground arith

module _ (ops : FloatOps) (v right : Value) where
  negates :
      (t : TypeId)
      → v.value_type ≡ t
      → IsComparable t
      → compare_not_equals ops v right ≡ (compare_equals ops v right >>= λ b. returns (not b))
  unfolding compare_equals compare_not_equals
  negates t e integers = ground (arith, e, both-not v.integer right.integer (λ a b. a == b))
  negates t e floats = ground (arith, e, both-not v.float right.float ops.float_eq)
  negates t e strings = ground (arith, e, both-not v.varchar right.varchar string_eq)
  negates t e booleans = ground (arith, e, both-not v.boolean right.boolean bool_eq)

  mirrors :
      (t : TypeId)
      → v.value_type ≡ t
      → right.value_type ≡ t
      → IsComparable t
      → compare_less_than_or_equal ops v right ≡ compare_greater_than_or_equal ops right v
  unfolding compare_less_than_or_equal compare_greater_than_or_equal
  mirrors t e e' integers = ground (
    arith,
    e,
    e',
    both-swap v.integer right.integer (λ a b. not (int_lt b a)) (λ a b. not (int_lt a b))
        λ a b. refl,
  )
  mirrors t e e' floats = ground (
    arith,
    e,
    e',
    both-swap v.float right.float ops.float_le (λ a b. ops.float_le b a) λ a b. refl,
  )
  mirrors t e e' strings = ground (
    arith,
    e,
    e',
    both-swap v.varchar right.varchar (λ a b. not (string_lt b a)) (λ a b. not (string_lt a b))
        λ a b. refl,
  )
  mirrors t e e' booleans =
      ground (arith, e, e', both-swap v.boolean right.boolean bool_eq bool_eq bool_eq-swap)

  -- For a value of a comparable type, `CompareNotEquals` gives the opposite of `CompareEquals`, NULL
  -- and panics included.
  pub not_equals_negates :
      IsComparable v.value_type
      → compare_not_equals ops v right ≡ (compare_equals ops v right >>= λ b. returns (not b))
  not_equals_negates c = negates v.value_type refl c

  -- For two values of one comparable type, `CompareLessThanOrEqual` gives what
  -- `CompareGreaterThanOrEqual` gives for the two values turned around, NULL and panics included.
  pub less_or_equal_mirrors :
      IsComparable v.value_type
      → v.value_type ≡ right.value_type
      → compare_less_than_or_equal ops v right ≡ compare_greater_than_or_equal ops right v
  less_or_equal_mirrors c same = mirrors v.value_type refl (sym same) c

-- Two integers or two strings that are not NULL.
pub data AreOrdered : Datum → Datum → Type 0 where
  two_ints : (a b : ℕ) → a < 4294967296 → b < 4294967296 → AreOrdered (an_int a) (an_int b)
  two_texts : (s t : List ℕ) → AreOrdered (a_text s) (a_text t)

-- Exactly one of three.
abbrev pub one_of : Bool → Bool → Bool → Bool
one_of a b c = if a then not b && not c else if b then not c else c

string_order : (s t : List ℕ) → one_of (string_lt s t) (string_eq s t) (string_lt t s) ≡ true
unfolding string_lt string_eq
string_order [] [] = refl
string_order [] (b ∷ t) = refl
string_order (a ∷ s) [] = refl
string_order (a ∷ s) (b ∷ t) = ground (arith, string_order s t)

-- Five comparisons that agree on one order.
abbrev pub Agree : FloatOps → Value → Value → Type 0
Agree ops v w =
    (lt eq gt : Bool) × (one_of lt eq gt ≡ true)
    × (compare_less_than ops v w ≡ returns lt)
    × (compare_equals ops v w ≡ returns eq)
    × (compare_greater_than ops v w ≡ returns gt)
    × (compare_less_than_or_equal ops v w ≡ returns (lt || eq))
    × (compare_greater_than_or_equal ops v w ≡ returns (gt || eq))

-- Two integers (of 32 bits) or two strings, not NULL, are less, equal or greater, exactly one of the
-- three, and the two comparisons with equality say just that.
pub compare_agrees :
    (ops : FloatOps) (d e : Datum) → AreOrdered d e → Agree ops (value_of d) (value_of e)
unfolding compare_equals compare_less_than compare_greater_than compare_less_than_or_equal
    compare_greater_than_or_equal new_integer new_varchar
compare_agrees ops d e (two_ints a b h k) = (
  int_lt a b,
  a == b,
  int_lt b a,
  unfold int_lt in ground arith,
  refl,
  refl,
  refl,
  unfold int_lt in ap returns (ground arith),
  unfold int_lt in ap returns (ground arith),
)
compare_agrees ops d e (two_texts s t) = (
  string_lt s t,
  string_eq s t,
  string_lt t s,
  string_order s t,
  refl,
  refl,
  refl,
  ap returns (ground (arith, string_order s t)),
  ap returns (ground (arith, string_order s t)),
)

-- An integer compared with NULL is not greater or equal, but it is greater whenever it is positive,
-- since `CompareGreaterThan` looks for NULL on its left only.
pub greater_than_null :
    (ops : FloatOps) (n : ℕ)
    → (compare_greater_than ops (value_of (an_int n)) (value_of null_int) ≡ returns (int_lt 0 n))
      × (compare_greater_than_or_equal ops (value_of (an_int n)) (value_of null_int)
          ≡ returns false)
unfolding compare_greater_than compare_greater_than_or_equal new_integer
greater_than_null ops n = (refl, refl)
