-- ===== src/Tests/Value.antt =====
-- The theorems about values and schemas at concrete ones.
use samehada_db.Base.{[], ◌∷◌, false, ltb, leb, ◌==◌, returns, ◌≡◌, refl, arith, ◌+◌}
use samehada_db.Value.{FloatOps, integer_type, varchar_type, type_size}
use samehada_db.Value.Format.{a_text, value_of, RoundTrips, serialize_round_trip}
use samehada_db.Value.Order.{two_texts, Agree, compare_agrees}
use samehada_db.Schema.{Column, Schema, new_column, new_schema, get_column, inlined_type}
use samehada_db.Schema.Layout.{placed, new_schema_places}

-- Non-negative floats are ordered as their bits.
abbrev ops0 : FloatOps
ops0 = record { float_eq = ◌==◌; float_lt = ltb; float_le = leb; float_add = ◌+◌ }

serialize_round_trip_example : RoundTrips (a_text (104 ∷ 105 ∷ [])) (7 ∷ [])
serialize_round_trip_example = serialize_round_trip (a_text (104 ∷ 105 ∷ [])) (7 ∷ []) (omega arith)

compare_agrees_example :
    Agree ops0 (value_of (a_text (104 ∷ []))) (value_of (a_text (104 ∷ 105 ∷ [])))
compare_agrees_example =
    compare_agrees ops0 (a_text (104 ∷ [])) (a_text (104 ∷ 105 ∷ []))
      (two_texts (104 ∷ []) (104 ∷ 105 ∷ []))

abbrev col_a : Column
col_a = new_column (97 ∷ []) varchar_type false

abbrev col_b : Column
col_b = new_column (98 ∷ []) integer_type false

new_schema_places_example :
    (get_column (new_schema (col_a ∷ col_b ∷ [])) 1 ≡ returns (placed col_b 4))
    × ((new_schema (col_a ∷ col_b ∷ [])).length_of ≡ 9)
unfolding new_column inlined_type type_size
new_schema_places_example = new_schema_places (col_a ∷ col_b ∷ []) 1 col_b (omega arith) refl

abbrev two_columns : Schema
two_columns = record {
  length_of = 9;
  columns = col_a ∷ col_b ∷ [];
  tuple_is_inlined = false;
  uninlined_columns = 0 ∷ [];
}
