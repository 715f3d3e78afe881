-- ===== src/TablePage/Replace.antt =====
-- The writes of `UpdateTuple` of storage/access/table_page.go.
use samehada_db.Base.{
  ℕ, ◌+◌, ◌-◌, ◌*◌, ◌≤◌, ◌<◌, List, length, leb, ltb, true, if◌then◌else◌, returns, ◌≡◌, refl,
  arith, ap, ◌∙◌, sym, Bool-cases, inl, inr, get_or,
}
use samehada_db.Bytes.{le32, u32, sub32, slice, slice_at}
use samehada_db.Bytes.Slices.{list_ext, length-slice, get_or-slice, get_or-past}
use samehada_db.Bytes.Words.{write_at-copy_at, slice_at-slice}
use samehada_db.Txn.{Tuple}
use samehada_db.Page.{
  Page, get_free_space_pointer, set_free_space_pointer, copy_header, copy_bytes, get_tuple_count,
  set_tuple_size,
}
use samehada_db.Page.Slots.{
  fsp_of, count_of, offset_of, patch, get_free_space_pointer-fsp, get_tuple_count-count,
  set_tuple_size-patch,
}
use samehada_db.TablePage.Update.{replace_tuple, move_offsets}
use samehada_db.TablePage.View.{plain_size, IsUsed, IsSound}
use samehada_db.TablePage.Moves.{replace_move, move_offsets-Moves}
use samehada_db.TablePage.Replaced.{Replaced}
use samehada_db.TablePage.Place.{
  Placed, Replaced-Moves, copied, pointed, filled_in, placed, IsPage-pointed, IsPage-filled_in,
  Placed-placed, offset-placed_self,
}

minus_zero : (n : ℕ) → n - 0 ≡ n
minus_zero n = omega arith

-- All bytes of a slice.
whole : (bytes : List ℕ) (n : ℕ) → n ≡ length bytes → slice_at bytes 0 n ≡ returns bytes
whole bytes n e =
    slice_at-slice bytes 0 n (omega arith) (omega (arith, e))
    ∙ ap returns (
        list_ext (slice 0 n bytes) bytes (omega (arith, length-slice 0 n bytes, e)) λ i.
          get_or-slice 0 n bytes i
          ∙ ap (λ m. if ltb i m then get_or bytes (0 + i) 0 else 0) (minus_zero n)
          ∙ elim (Bool-cases (ltb i n)) [
            | inl inside ↦ rw inside (ap (λ k. get_or bytes k 0) (omega arith))
            | inr past ↦ rw past (sym (get_or-past bytes i (ground (arith, e))))
          ])

module _ (p : Page) (slot : ℕ) (tuple : Tuple) (s : IsSound p) (u : IsUsed p slot)
    (exact : tuple.size ≡ length tuple.bytes) (some_bytes : 0 < tuple.size)
    (small : tuple.size ≤ 4096)
    (room : 24 + 8 * count_of p + tuple.size ≤ fsp_of p + plain_size p slot) where
  abbrev bytes : List ℕ
  bytes = tuple.bytes

  f' : ℕ
  f' = fsp_of p + plain_size p slot - length tuple.bytes

  o' : ℕ
  o' = offset_of p slot + plain_size p slot - length tuple.bytes

  start : f' + length bytes ≡ fsp_of p + plain_size p slot
  unfolding f'
  start = omega (arith, room, exact)

  end : o' + length bytes ≡ offset_of p slot + plain_size p slot
  unfolding o'
  end = omega (arith, room, exact, s.inside slot u)

  low : 24 + 8 * count_of p ≤ f'
  unfolding f'
  low = omega (arith, room, exact)

  sized : Page
  sized = placed p slot f' o' bytes s u start end low

  sized-Placed : Placed p sized slot bytes
  unfolding sized
  sized-Placed = Placed-placed p slot f' o' bytes s u start end low

  offset-sized : offset_of sized slot ≡ offset_of p slot
  unfolding sized
  offset-sized = offset-placed_self p slot f' o' bytes s u start end low

  bound : ℕ
  bound = offset_of p slot + plain_size p slot

  finished :
      (q : Page) × (move_offsets bound (plain_size p slot) tuple.size (count_of p) sized 0
        ≡ returns q)
      × Replaced p q slot bytes
  unfolding bound
  finished =
      let inside = s.inside slot u in
      let (q, ran, m) =
        move_offsets-Moves (24 + 8 * count_of p) (omega (arith, s.slots_fit, s.pointer_fits)) bound
          (plain_size p slot) tuple.size (count_of p) sized 0 sized-Placed.page (omega arith) in
      (
        q,
        ran,
        Replaced-Moves p slot bytes s u sized q (replace_move bound (plain_size p slot) tuple.size)
            (omega (arith, room, exact)) sized-Placed m
            (λ h.
              ap
                (λ x.
                  replace_move bound (plain_size p slot) tuple.size x (length bytes) + length bytes)
                offset-sized
              ∙ ground (arith, inside, room, exact, s.nonempty slot u))
            (λ x z used low high. ground (arith, inside, room, exact)) (λ x z high. ground arith),
      )

  replace_tuple_runs :
      (q : Page) (front : List ℕ) (a b : Page)
      → get_free_space_pointer p ≡ fsp_of p
      → sub32 (u32 (fsp_of p + plain_size p slot)) tuple.size ≡ f'
      → leb (fsp_of p) (offset_of p slot) ≡ true
      → slice_at p.bytes (fsp_of p) (offset_of p slot) ≡ returns front
      → copy_bytes p f' front ≡ returns a
      → slice_at tuple.bytes 0 tuple.size ≡ returns bytes
      → u32 (offset_of p slot + plain_size p slot) ≡ bound
      → sub32 bound tuple.size ≡ o'
      → copy_bytes (set_free_space_pointer a f') o' bytes ≡ returns b
      → set_tuple_size b slot tuple.size ≡ returns sized
      → get_tuple_count sized ≡ count_of p
      → move_offsets bound (plain_size p slot) tuple.size (count_of p) sized 0 ≡ returns q
      → replace_tuple slot (offset_of p slot) (plain_size p slot) tuple p ≡ returns q
  unfolding replace_tuple
  replace_tuple_runs q front a b h₁ h₂ h₃ h₄ h₅ h₆ h₇ h₈ h₉ k₁ k₂ k₃ =
      simp (h₁, h₂, h₃, h₄, h₅, h₆, h₇, h₈, h₉, k₁, k₂, k₃) refl

  set_size :
      set_tuple_size (filled_in p slot f' o' bytes s u start end low) slot tuple.size
      ≡ returns sized
  unfolding sized
  set_size =
      set_tuple_size-patch (filled_in p slot f' o' bytes s u start end low)
        (IsPage-filled_in p slot f' o' bytes s u start end low) slot
        (omega (arith, u.0, s.slots_fit, s.pointer_fits)) tuple.size
      ∙ ap
          (λ n.
            returns
              (patch (filled_in p slot f' o' bytes s u start end low) (28 + 8 * slot) (le32 n)))
          exact

  pub replace_tuple-Replaced :
      (q : Page) × (replace_tuple slot (offset_of p slot) (plain_size p slot) tuple p ≡ returns q)
      × Replaced p q slot bytes
  unfolding copy_bytes set_free_space_pointer copy_header f' o' bound
  replace_tuple-Replaced =
      let inside = s.inside slot u in
      let (q, ran, w) = finished in
      (
        q,
        replace_tuple_runs q (slice (fsp_of p) (offset_of p slot) p.bytes)
            (copied p slot f' o' bytes s u start end low)
            (filled_in p slot f' o' bytes s u start end low) (get_free_space_pointer-fsp p s.page)
            (omega (arith, room, exact)) (ground arith)
            (slice_at-slice p.bytes (fsp_of p) (offset_of p slot) (omega arith)
              (omega (arith, s.page)))
            (rw
              (write_at-copy_at p.bytes f' (slice (fsp_of p) (offset_of p slot) p.bytes)
                (omega (arith, s.page)))
              refl)
            (whole tuple.bytes tuple.size exact) (omega arith) (omega (arith, room, exact))
            (rw
              (write_at-copy_at (pointed p slot f' o' bytes s u start end low).bytes o' bytes
                (omega (arith, IsPage-pointed p slot f' o' bytes s u start end low)))
              refl)
            set_size (get_tuple_count-count sized sized-Placed.page ∙ sized-Placed.count) ran,
        w,
      )
