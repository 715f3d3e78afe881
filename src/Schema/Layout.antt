-- ===== src/Schema/Layout.antt =====
-- The offsets that `NewSchema` of storage/table/schema/schema.go gives to the columns, and the columns
-- that `CopySchema` loses.
use samehada_db.Base.{
  ℕ, zero, suc, ◌+◌, ◌<◌, List, [], ◌∷◌, length, get_elem?, take, Option, none, some, Outcome,
  returns, panics, ◌≡◌, refl, arith, ap, ◌∙◌,
}
use samehada_db.Bytes.{u32}
use samehada_db.Schema.{
  Column, Schema, new_schema, lay_out, get_column, copy_schema, copy_columns, last_column,
  repeat_column,
}

-- The fixed parts of the columns together.
abbrev pub total : List Column → ℕ
total [] = 0
total (c ∷ cs) = c.fixed_length + total cs

-- The column that was `c`, behind `offset` bytes.
abbrev pub placed : Column → ℕ → Column
placed c offset = record c { column_offset = offset }

lay_out-at :
    (cs : List Column) (k offset i : ℕ) (c : Column)
    → offset + total cs < 4294967296
    → get_elem? cs i ≡ some c
    → get_elem? (lay_out cs k offset).0 i ≡ some (placed c (offset + total (take i cs)))
unfolding lay_out
lay_out-at [] k offset i c h e = cc
lay_out-at (d ∷ cs) k offset zero c h e =
    ap (λ o. elim o [ none ↦ none | some x ↦ some (placed x offset) ]) e
    ∙ ap (λ n. some (placed c n)) (omega arith)
lay_out-at (d ∷ cs) k offset (suc i) c h e =
    lay_out-at cs (k + 1) (u32 (offset + d.fixed_length)) i c (omega (arith, h)) e
    ∙ ap (λ n. some (placed c n)) (omega (arith, h))

lay_out-end :
    (cs : List Column) (k offset : ℕ)
    → offset + total cs < 4294967296
    → (lay_out cs k offset).2 ≡ offset + total cs
unfolding lay_out
lay_out-end [] k offset h = omega arith
lay_out-end (c ∷ cs) k offset h =
    omega (arith, lay_out-end cs (k + 1) (u32 (offset + c.fixed_length)) (omega (arith, h)))

abbrev answer : Option Column → Outcome Column
answer o = elim o [ none ↦ panics | some a ↦ returns a ]

-- With less than 2 ^ 32 bytes of fixed parts, `NewSchema` places each column behind the fixed parts of
-- the columns before it, changes nothing else in it, and takes the sum of all as the length.
pub new_schema_places :
    (cs : List Column) (i : ℕ) (c : Column)
    → total cs < 4294967296
    → get_elem? cs i ≡ some c
    → (get_column (new_schema cs) i ≡ returns (placed c (total (take i cs))))
      × ((new_schema cs).length_of ≡ total cs)
unfolding new_schema get_column
new_schema_places cs i c h e =
    let found = lay_out-at cs 0 0 i c (omega (arith, h)) e in
    (
      ap answer found ∙ ap (λ n. returns (placed c n)) (omega arith),
      lay_out-end cs 0 0 (omega (arith, h)) ∙ omega arith,
    )

repeat_column-at :
    (cs : List Column) (c : Column) (i : ℕ)
    → i < length cs
    → get_elem? (repeat_column cs c) i ≡ some c
unfolding repeat_column
repeat_column-at [] c i h = absurd (omega arith)
repeat_column-at (d ∷ cs) c zero h = refl
repeat_column-at (d ∷ cs) c (suc i) h = repeat_column-at cs c i (omega arith)

-- Each column of a copied schema is the last column of the original: `CopySchema` appends the address
-- of its loop variable every time.
pub copy_schema_repeats :
    (s : Schema) (c : Column) (i : ℕ)
    → last_column s.columns ≡ some c
    → i < length s.columns
    → get_column (copy_schema s) i ≡ returns c
unfolding copy_schema copy_columns get_column
copy_schema_repeats s c i last h = ap answer (
    ap (λ o. get_elem? (elim o [ none ↦ [] | some d ↦ repeat_column s.columns d ]) i) last
    ∙ repeat_column-at s.columns c i h)
