-- ===== src/Schema.antt =====
-- storage/table/column/column.go and storage/table/schema/schema.go: columns and their places in a
-- tuple. The expression that a temporary column carries is left out; a name is its bytes.
pub mod Layout
use samehada_db.Base.{
  ℕ, zero, suc, ◌+◌, List, [], ◌∷◌, ◌++◌, Bool, true, false, not, get_elem?, length, if◌then◌else◌,
  Option, none, some, Outcome, returns, panics, ◌>>=◌,
}
use samehada_db.Bytes.{u32}
use samehada_db.Value.{TypeId, varchar_type, type_size, string_eq}

pub record Column : Type 0 where
  pub column_name : List ℕ
  pub column_type : TypeId
  pub fixed_length : ℕ
  pub variable_length : ℕ
  pub column_offset : ℕ
  pub has_index : Bool
  pub is_left : Bool

-- Whether a column's bytes stand in the fixed part of a tuple: every type but strings.
unfoldable pub inlined_type : TypeId → Bool
inlined_type varchar_type = false
inlined_type _ = true

unfoldable pub is_inlined : Column → Bool
is_inlined c = inlined_type c.column_type

unfoldable pub new_column : List ℕ → TypeId → Bool → Column
new_column name column_type has_index = record {
  column_name = name;
  column_type = column_type;
  fixed_length = if inlined_type column_type then type_size column_type else 4;
  variable_length = if inlined_type column_type then 0 else 255;
  column_offset = 0;
  has_index = has_index;
  is_left = true;
}

pub record Schema : Type 0 where
  pub length_of : ℕ
  pub columns : List Column
  pub tuple_is_inlined : Bool
  pub uninlined_columns : List ℕ

-- The loop of `NewSchema` from column `i` on: the columns with their offsets, the places of the
-- strings, and the offset behind them. Columns are values here: the code writes the offsets through the
-- pointers that it is given, so that a column of another schema would move there too.
unfoldable pub lay_out : List Column → ℕ → ℕ → List Column × List ℕ × ℕ
lay_out [] i offset = ([], [], offset)
lay_out (c ∷ cs) i offset =
    let (columns, uninlined, end) = lay_out cs (i + 1) (u32 (offset + c.fixed_length)) in
    (
      record c { column_offset = offset } ∷ columns,
      (if is_inlined c then uninlined else i ∷ uninlined),
      end,
    )

abbrev is_empty : List ℕ → Bool
is_empty [] = true
is_empty (x ∷ xs) = false

unfoldable pub new_schema : List Column → Schema
new_schema cs =
    let (columns, uninlined, end) = lay_out cs 0 0 in
    record {
      length_of = end;
      columns = columns;
      tuple_is_inlined = is_empty uninlined;
      uninlined_columns = uninlined;
    }

-- xs[i]
abbrev pub index {ℓ} : {A : Type ℓ} → List A → ℕ → Outcome A
index xs i = elim (get_elem? xs i) [ none ↦ panics | some a ↦ returns a ]

unfoldable pub get_column : Schema → ℕ → Outcome Column
get_column s col_index = index s.columns col_index

unfoldable pub find_column : List Column → List ℕ → ℕ → Outcome ℕ
find_column [] column_name i = panics
find_column (c ∷ cs) column_name i =
    let rest = find_column cs column_name (i + 1) in
    if string_eq c.column_name column_name then returns i else rest

unfoldable pub get_col_index : Schema → List ℕ → Outcome ℕ
get_col_index s column_name = find_column s.columns column_name 0

-- What the loop variable of a `range` holds behind the loop.
unfoldable pub last_column : List Column → Option Column
last_column [] = none
last_column (c ∷ []) = some c
last_column (c ∷ d ∷ cs) = last_column (d ∷ cs)

unfoldable pub repeat_column : List Column → Column → List Column
repeat_column [] c = []
repeat_column (d ∷ cs) c = c ∷ repeat_column cs c

-- `CopySchema`: every pointer that it appends is the address of the one loop variable, in the
-- language version of go.mod.
unfoldable pub copy_columns : List Column → List Column
copy_columns cs = elim (last_column cs) [ none ↦ [] | some c ↦ repeat_column cs c ]

unfoldable pub copy_schema : Schema → Schema
copy_schema s = record {
  length_of = 0;
  columns = copy_columns s.columns;
  tuple_is_inlined = false;
  uninlined_columns = [];
}
