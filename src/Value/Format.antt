-- ===== src/Value/Format.antt =====
-- The bytes of a value in types/column_value.go: what `Serialize` writes, `NewValueFromBytes` reads.
use samehada_db.Base.{
  ℕ, ◌≤◌, ◌<◌, List, [], ◌∷◌, ◌++◌, Bool, true, false, length, take, returns, ◌≡◌, refl, arith, ap,
  length-append, ◌>>=◌,
}
use samehada_db.Bytes.{le32, le16, read_u32, slice_at, slice}
use samehada_db.Bytes.Words.{read_u32-le32}
use samehada_db.Value.{
  TypeId, integer_type, float_type, varchar_type, boolean_type, Value, new_integer, new_float,
  new_boolean, new_varchar, new_value_from_bytes, serialize, size, type_size, read_varchar,
  read_u16, read_bool, bool_byte, mark_null, set_null, to_integer, to_float, to_varchar, to_boolean,
}

-- What a column of a row can hold.
pub data Datum : Type 0 where
  an_int a_float : ℕ → Datum
  a_text : List ℕ → Datum
  a_flag : Bool → Datum
  null_int null_float null_text null_flag : Datum

abbrev pub type_of : Datum → TypeId
type_of (an_int n) = integer_type
type_of (a_float n) = float_type
type_of (a_text s) = varchar_type
type_of (a_flag b) = boolean_type
type_of null_int = integer_type
type_of null_float = float_type
type_of null_text = varchar_type
type_of null_flag = boolean_type

-- The value that stands for it.
abbrev pub value_of : Datum → Value
value_of (an_int n) = new_integer n
value_of (a_float n) = new_float n
value_of (a_text s) = new_varchar s
value_of (a_flag b) = new_boolean b
value_of null_int = record (new_integer 0) { is_null = true }
value_of null_float = record (new_float 0) { is_null = true }
value_of null_text = record (new_varchar []) { is_null = true }
value_of null_flag = record (new_boolean false) { is_null = true }

-- Words have 32 bits; the end of a string must fit an int16.
abbrev pub IsStorable : Datum → Type 0
IsStorable (an_int n) = n < 4294967296
IsStorable (a_float n) = n < 4294967296
IsStorable (a_text s) = length s ≤ 32764
IsStorable _ = Unit

take-append : (s rest : List ℕ) → take (length s) (s ++ rest) ≡ s
take-append [] rest = refl
take-append (c ∷ s) rest = ap (λ t. c ∷ t) (take-append s rest)

word_back : (n : ℕ) (rest : List ℕ) → n < 4294967296 → read_u32 (le32 n ++ rest) ≡ n
word_back n rest h = omega (arith, read_u32-le32 n rest)

text_back :
    (b : ℕ) (s rest : List ℕ)
    → length s ≤ 32764
    → read_varchar (b ∷ (le16 (length s) ++ (s ++ rest))) ≡ returns s
unfolding read_varchar read_u16 le16 slice_at slice
text_back b s rest h = ground (arith, length-append s rest, take-append s rest)

-- A value that is written and read back, with anything behind it.
abbrev pub RoundTrips : Datum → List ℕ → Type 0
RoundTrips d rest =
    (bytes : List ℕ) × (serialize (value_of d) ≡ returns bytes)
    × (new_value_from_bytes (bytes ++ rest) (type_of d) ≡ returns (value_of d))
    × (size (value_of d) ≡ returns (length bytes))

-- For a storable integer, float, string or Boolean, and for NULL of each of these types, `Serialize`
-- gives bytes of the length that `Size` says, and `NewValueFromBytes` reads the same value from them,
-- whatever follows.
pub serialize_round_trip : (d : Datum) (rest : List ℕ) → IsStorable d → RoundTrips d rest
unfolding serialize new_value_from_bytes size type_size bool_byte read_bool mark_null new_integer
    new_float new_boolean new_varchar to_integer to_float to_varchar to_boolean set_null
serialize_round_trip (an_int n) rest h =
    (0 ∷ le32 n, refl, ap (λ w. returns (new_integer w)) (word_back n rest h), unfold le32 in refl)
serialize_round_trip (a_float n) rest h =
    (0 ∷ le32 n, refl, ap (λ w. returns (new_float w)) (word_back n rest h), unfold le32 in refl)
serialize_round_trip (a_text s) rest h = (
  0 ∷ (le16 (length s) ++ s),
  refl,
  unfold le16 in ap (λ m. m >>= λ s'. returns (new_varchar s')) (text_back 0 s rest h),
  unfold le16 in ap returns (omega (arith, h)),
)
serialize_round_trip (a_flag true) rest h = (0 ∷ 1 ∷ [], refl, refl, refl)
serialize_round_trip (a_flag false) rest h = (0 ∷ 0 ∷ [], refl, refl, refl)
serialize_round_trip null_int rest h = (1 ∷ le32 0, refl, refl, unfold le32 in refl)
serialize_round_trip null_float rest h = (1 ∷ le32 0, refl, refl, unfold le32 in refl)
serialize_round_trip null_text rest h = (
  1 ∷ 0 ∷ 0 ∷ [],
  unfold le16 in refl,
  unfold le16 in
      ap (λ m. m >>= λ s'. set_null (new_varchar s')) (text_back 1 [] rest (omega arith)),
  refl,
)
serialize_round_trip null_flag rest h = (1 ∷ 0 ∷ [], refl, refl, refl)
