-- ===== src/Row.antt =====
-- storage/tuple/tuple.go: a tuple built from values by a schema, and its values read back. The fixed
-- part has the values of inlined columns, and for a string its offset in the part behind.
use samehada_db.Base.{
  ℕ, ◌+◌, List, [], ◌∷◌, ◌++◌, length, drop, ltb, ◌==◌, if◌then◌else◌, none, Outcome, returns,
  panics, ◌>>=◌,
}
use samehada_db.Bytes.{le32, le16, read_u32, slice_at, write_at, make_bytes, u32}
use samehada_db.Txn.{Tuple}
use samehada_db.Value.{
  Value, integer_type, float_type, varchar_type, boolean_type, serialize, size,
  new_value_from_bytes, read_bool, read_u16, bool_byte, new_integer, new_float, new_varchar,
}
use samehada_db.Schema.{Column, Schema, is_inlined, get_column, index}

-- The size of the fixed part with those of the strings.
unfoldable pub add_sizes : List ℕ → List Value → ℕ → Outcome ℕ
add_sizes [] values tuple_size = returns tuple_size
add_sizes (i ∷ rest) values tuple_size = do
  v ← index values i
  n ← size v
  add_sizes rest values (u32 (tuple_size + n))

-- One attribute: the bytes, and the end of the used part.
unfoldable pub put_value : Column → Value → ℕ → List ℕ → Outcome (List ℕ × ℕ)
put_value c v end bytes =
    if is_inlined c
    then (do s ← serialize v; b ← write_at bytes c.column_offset s; returns (b, end))
    else (do
      a ← write_at bytes c.column_offset (le32 end)
      s ← serialize v
      b ← write_at a end s
      n ← size v
      returns (b, u32 (end + n)))

unfoldable pub put_values : List Column → ℕ → List Value → ℕ → List ℕ → Outcome (List ℕ)
put_values [] i values end bytes = returns bytes
put_values (c ∷ cs) i values end bytes = do
  v ← index values i
  (b, end') ← put_value c v end bytes
  put_values cs (i + 1) values end' b

unfoldable pub new_tuple_from_schema : List Value → Schema → Outcome Tuple
new_tuple_from_schema values schema = do
  tuple_size ← add_sizes schema.uninlined_columns values schema.length_of
  bytes ← put_values schema.columns 0 values schema.length_of (make_bytes tuple_size)
  returns (record { rid = none; size = tuple_size; bytes = bytes })

-- The values of a search: the key in its column, and for the others a default, which a Boolean
-- column has not.
unfoldable pub search_values : List Column → ℕ → ℕ → Value → List Value
search_values [] idx col_index key = []
search_values (c ∷ cs) idx col_index key =
    let rest = search_values cs (idx + 1) col_index key in
    elim c.column_type [
      | integer_type ↦ (if idx == col_index then key else new_integer 0) ∷ rest
      | float_type ↦ (if idx == col_index then key else new_float 0) ∷ rest
      | varchar_type ↦ (if idx == col_index then key else new_varchar []) ∷ rest
      | _ ↦ rest
    ]

unfoldable pub gen_tuple_for_hash_index_search : Schema → ℕ → Value → Outcome Tuple
gen_tuple_for_hash_index_search schema col_index key =
    new_tuple_from_schema (search_values schema.columns 0 col_index key) schema

-- Where the bytes of a value are: the column's offset, or what is stored there.
unfoldable pub value_offset : Tuple → Column → Outcome ℕ
value_offset t c = if is_inlined c then returns c.column_offset else (do
  word ← slice_at t.bytes c.column_offset (u32 (c.column_offset + c.fixed_length))
  returns (read_u32 word))

unfoldable pub get_value : Tuple → Schema → ℕ → Outcome Value
get_value t schema col_index = do
  c ← get_column schema col_index
  offset ← value_offset t c
  rest ← slice_at t.bytes offset (length t.bytes)
  new_value_from_bytes rest c.column_type

-- uint32 of an int16
unfoldable pub widen : ℕ → ℕ
widen n = if ltb n 32768 then n else n + 4294901760

unfoldable pub get_value_in_bytes : Tuple → Schema → ℕ → Outcome (List ℕ)
get_value_in_bytes t schema col_index = do
  c ← get_column schema col_index
  offset ← value_offset t c
  elim c.column_type [
    | integer_type ↦ word_bytes offset
    | float_type ↦ word_bytes offset
    | boolean_type ↦
        (slice_at t.bytes offset (length t.bytes) >>= λ rest.
        returns (bool_byte (read_bool rest) ++ bool_byte (read_bool (drop 1 rest))))
    | varchar_type ↦ text_bytes offset
    | _ ↦ panics
  ]
  where
    word_bytes : ℕ → Outcome (List ℕ)
    word_bytes offset = do
      rest ← slice_at t.bytes offset (length t.bytes)
      returns (bool_byte (read_bool rest) ++ le32 (read_u32 (drop 1 rest)))

    text_bytes : ℕ → Outcome (List ℕ)
    text_bytes offset = do
      rest ← slice_at t.bytes offset (length t.bytes)
      let n = read_u16 (drop 1 rest)
      s ← slice_at t.bytes (u32 (offset + 3)) (u32 (offset + u32 (widen n + 3)))
      returns (bool_byte (read_bool rest) ++ (le16 n ++ s))
