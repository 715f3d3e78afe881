-- ===== src/Value.antt =====
-- types/column_value.go and types/column_type_id.go: SQL values. A value has a pointer for each type
-- it may have, nil but for its own; reading a nil pointer panics. An int32 and the bits of a float32
-- are 32-bit words, a string is its bytes. The comparison and the sum of floats are the processor's,
-- a parameter. A slice has no capacity behind its length.
pub mod Format
pub mod Order
use samehada_db.Base.{
  ℕ, zero, suc, ◌+◌, ◌-◌, ◌≤◌, List, [], ◌∷◌, ◌++◌, Bool, true, false, not, ◌&&◌, ◌||◌, length,
  get_or, drop, leb, ltb, ◌==◌, if◌then◌else◌, Option, none, some, Outcome, returns, panics, ◌>>=◌,
  ◌*◌, ◌%◌,
}
use samehada_db.Bytes.{le32, le16, read_u32, slice_at, u32}

pub data TypeId : Type 0 where
  invalid_type boolean_type tinyint_type smallint_type integer_type bigint_type : TypeId
  decimal_type float_type varchar_type timestamp_type null_type : TypeId

-- `Size` of a type: the bytes of a value, with one for the NULL mark.
unfoldable pub type_size : TypeId → ℕ
type_size integer_type = 1 + 4
type_size float_type = 1 + 4
type_size boolean_type = 1 + 1
type_size _ = 0

pub record Value : Type 0 where
  pub value_type : TypeId
  pub is_null : Bool
  pub integer : Option ℕ
  pub boolean : Option Bool
  pub varchar : Option (List ℕ)
  pub float : Option ℕ

abbrev blank : TypeId → Value
blank t = record {
  value_type = t;
  is_null = false;
  integer = none;
  boolean = none;
  varchar = none;
  float = none;
}

unfoldable pub new_integer : ℕ → Value
new_integer value = record (blank integer_type) { integer = some value }

unfoldable pub new_float : ℕ → Value
new_float value = record (blank float_type) { float = some value }

unfoldable pub new_boolean : Bool → Value
new_boolean value = record (blank boolean_type) { boolean = some value }

unfoldable pub new_varchar : List ℕ → Value
new_varchar value = record (blank varchar_type) { varchar = some value }

unfoldable pub new_null : Value
new_null = record (blank integer_type) { is_null = true; integer = some 0 }

-- *p
abbrev pub deref {ℓ} : {A : Type ℓ} → Option A → Outcome A
deref none = panics
deref (some a) = returns a

-- *p = a
abbrev pub assign {ℓ} : {A : Type ℓ} → Option A → A → Outcome (Option A)
assign none a = panics
assign (some _) a = returns (some a)

unfoldable pub to_boolean : Value → Outcome Bool
to_boolean v = deref v.boolean

unfoldable pub to_integer : Value → Outcome ℕ
to_integer v = deref v.integer

unfoldable pub to_float : Value → Outcome ℕ
to_float v = deref v.float

unfoldable pub to_varchar : Value → Outcome (List ℕ)
to_varchar v = deref v.varchar

unfoldable pub set_null : Value → Outcome Value
set_null v = elim v.value_type [
  | integer_type ↦ (assign v.integer 0 >>= λ p. returns (record v { is_null = true; integer = p }))
  | float_type ↦ (assign v.float 0 >>= λ p. returns (record v { is_null = true; float = p }))
  | varchar_type ↦ (assign v.varchar [] >>= λ p. returns (record v { is_null = true; varchar = p }))
  | boolean_type ↦
      (assign v.boolean false >>= λ p. returns (record v { is_null = true; boolean = p }))
  | _ ↦ panics
]

-- binary.Read of a bool and of a 16-bit word, which keep the zero value on a short buffer.
unfoldable pub read_bool : List ℕ → Bool
read_bool bytes = not (get_or bytes 0 0 == 0)

unfoldable pub read_u16 : List ℕ → ℕ
read_u16 bytes = if leb 2 (length bytes) then get_or bytes 0 0 + get_or bytes 1 0 * 256 else 0

-- binary.Write of a bool
unfoldable pub bool_byte : Bool → List ℕ
bool_byte b = (if b then 1 else 0) ∷ []

-- The value that was read, made NULL when its mark says so.
unfoldable pub mark_null : Bool → Value → Outcome Value
mark_null is_null v = if is_null then set_null v else returns v

-- string(data[1+2 : *length+(1+2)]): the end is an int16, and a negative one panics.
unfoldable pub read_varchar : List ℕ → Outcome (List ℕ)
read_varchar source =
    let end = (read_u16 (drop 1 source) + 3) % 65536 in
    if ltb end 32768 then slice_at source 3 end else panics

unfoldable pub new_value_from_bytes : List ℕ → TypeId → Outcome Value
new_value_from_bytes source value_type = elim value_type [
  | integer_type ↦ mark_null (read_bool source) (new_integer (read_u32 (drop 1 source)))
  | float_type ↦ mark_null (read_bool source) (new_float (read_u32 (drop 1 source)))
  | varchar_type ↦ (read_varchar source >>= λ s. mark_null (read_bool source) (new_varchar s))
  | boolean_type ↦ mark_null (read_bool source) (new_boolean (read_bool (drop 1 source)))
  | _ ↦ panics
]

unfoldable pub serialize : Value → Outcome (List ℕ)
serialize v = elim v.value_type [
  | integer_type ↦ (to_integer v >>= λ n. returns (bool_byte v.is_null ++ le32 n))
  | float_type ↦ (to_float v >>= λ n. returns (bool_byte v.is_null ++ le32 n))
  | varchar_type ↦ (to_varchar v >>= λ s. returns (bool_byte v.is_null ++ (le16 (length s) ++ s)))
  | boolean_type ↦ (to_boolean v >>= λ b. returns (bool_byte v.is_null ++ bool_byte b))
  | _ ↦ returns []
]

unfoldable pub size : Value → Outcome ℕ
size v = elim v.value_type [
  | integer_type ↦ returns (type_size v.value_type)
  | float_type ↦ returns (type_size v.value_type)
  | varchar_type ↦ (deref v.varchar >>= λ s. returns (u32 (u32 (length s) + 1 + 2)))
  | boolean_type ↦ returns (type_size v.value_type)
  | _ ↦ panics
]

-- The order of int32 words and of strings.
unfoldable pub int_lt : ℕ → ℕ → Bool
int_lt a b = ltb (u32 (a + 2147483648)) (u32 (b + 2147483648))

unfoldable pub string_lt : List ℕ → List ℕ → Bool
string_lt [] [] = false
string_lt [] (b ∷ ys) = true
string_lt (a ∷ xs) [] = false
string_lt (a ∷ xs) (b ∷ ys) = let rest = string_lt xs ys in if a == b then rest else ltb a b

unfoldable pub string_eq : List ℕ → List ℕ → Bool
string_eq [] [] = true
string_eq [] (b ∷ ys) = false
string_eq (a ∷ xs) [] = false
string_eq (a ∷ xs) (b ∷ ys) = a == b && string_eq xs ys

unfoldable pub bool_eq : Bool → Bool → Bool
bool_eq a b = if a then b else not b

-- float32 of the machine, on the bits: `!=` and `>` are `==` negated and `<` turned around.
pub record FloatOps : Type 0 where
  pub float_eq : ℕ → ℕ → Bool
  pub float_lt : ℕ → ℕ → Bool
  pub float_le : ℕ → ℕ → Bool
  pub float_add : ℕ → ℕ → ℕ

-- *p op *q
abbrev pub both {ℓ κ} : {A : Type ℓ} {B : Type κ} → Option A → Option A → (A → A → B) → Outcome B
both (some a) (some b) op = returns (op a b)
both (some a) none op = panics
both none q op = panics

module _ (ops : FloatOps) where
  unfoldable pub compare_equals : Value → Value → Outcome Bool
  compare_equals v right =
      if v.is_null && right.is_null
      then returns true
      else if v.is_null || right.is_null
      then returns false
      else elim v.value_type [
        | integer_type ↦ both v.integer right.integer (λ a b. a == b)
        | float_type ↦ both v.float right.float ops.float_eq
        | varchar_type ↦ both v.varchar right.varchar string_eq
        | boolean_type ↦ both v.boolean right.boolean bool_eq
        | _ ↦ returns false
      ]

  unfoldable pub compare_not_equals : Value → Value → Outcome Bool
  compare_not_equals v right =
      if v.is_null && right.is_null
      then returns false
      else if v.is_null || right.is_null
      then returns true
      else elim v.value_type [
        | integer_type ↦ both v.integer right.integer (λ a b. not (a == b))
        | float_type ↦ both v.float right.float (λ a b. not (ops.float_eq a b))
        | varchar_type ↦ both v.varchar right.varchar (λ a b. not (string_eq a b))
        | boolean_type ↦ both v.boolean right.boolean (λ a b. not (bool_eq a b))
        | _ ↦ returns false
      ]

  unfoldable pub compare_greater_than : Value → Value → Outcome Bool
  compare_greater_than v right = if v.is_null then returns false else elim v.value_type [
    | integer_type ↦ both v.integer right.integer (λ a b. int_lt b a)
    | float_type ↦ both v.float right.float (λ a b. ops.float_lt b a)
    | varchar_type ↦ both v.varchar right.varchar (λ a b. string_lt b a)
    | boolean_type ↦ returns false
    | _ ↦ returns false
  ]

  unfoldable pub compare_greater_than_or_equal : Value → Value → Outcome Bool
  compare_greater_than_or_equal v right =
      if v.is_null && right.is_null
      then returns true
      else if v.is_null || right.is_null
      then returns false
      else elim v.value_type [
        | integer_type ↦ both v.integer right.integer (λ a b. not (int_lt a b))
        | float_type ↦ both v.float right.float (λ a b. ops.float_le b a)
        | varchar_type ↦ both v.varchar right.varchar (λ a b. not (string_lt a b))
        | boolean_type ↦ both v.boolean right.boolean bool_eq
        | _ ↦ returns false
      ]

  unfoldable pub compare_less_than : Value → Value → Outcome Bool
  compare_less_than v right = if v.is_null then returns false else elim v.value_type [
    | integer_type ↦ both v.integer right.integer int_lt
    | float_type ↦ both v.float right.float ops.float_lt
    | varchar_type ↦ both v.varchar right.varchar string_lt
    | boolean_type ↦ returns false
    | _ ↦ returns false
  ]

  unfoldable pub compare_less_than_or_equal : Value → Value → Outcome Bool
  compare_less_than_or_equal v right =
      if v.is_null && right.is_null
      then returns true
      else if v.is_null || right.is_null
      then returns false
      else elim v.value_type [
        | integer_type ↦ both v.integer right.integer (λ a b. not (int_lt b a))
        | float_type ↦ both v.float right.float ops.float_le
        | varchar_type ↦ both v.varchar right.varchar (λ a b. not (string_lt b a))
        | boolean_type ↦ both v.boolean right.boolean bool_eq
        | _ ↦ panics
      ]

  unfoldable pub add : Value → Value → Outcome Value
  add v other = if other.is_null then returns v else elim v.value_type [
    | integer_type ↦ both v.integer other.integer (λ a b. new_integer (u32 (a + b)))
    | float_type ↦ both v.float other.float (λ a b. new_float (ops.float_add a b))
    | _ ↦ panics
  ]

  -- `Max` and `Min`
  unfoldable pub max_value : Value → Value → Outcome Value
  max_value v other = if other.is_null then returns v else elim v.value_type [
    | integer_type ↦
        both v.integer other.integer (λ a b. new_integer (if not (int_lt a b) then a else b))
    | float_type ↦ both v.float other.float (λ a b. new_float (if ops.float_le b a then a else b))
    | _ ↦ panics
  ]

  unfoldable pub min_value : Value → Value → Outcome Value
  min_value v other = if other.is_null then returns v else elim v.value_type [
    | integer_type ↦
        both v.integer other.integer (λ a b. new_integer (if not (int_lt b a) then a else b))
    | float_type ↦ both v.float other.float (λ a b. new_float (if ops.float_le a b then a else b))
    | _ ↦ panics
  ]
