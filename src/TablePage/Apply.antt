-- ===== src/TablePage/Apply.antt =====
-- `ApplyDelete` of storage/access/table_page.go on the slots of a page.
use samehada_db.Base.{
  zero, suc, ◌⊎◌, ℕ, ◌+◌, ◌*◌, ◌≤◌, List, [], ◌∷◌, length, true, leb, returns, ◌≡◌, refl, arith,
  get_or, inl, inr, ap, ◌∙◌, sym,
}
use samehada_db.Bytes.{le32, u32, slice, copy_at, slice_at, word32}
use samehada_db.Bytes.Slices.{length-copy_at, get_or-copy_at}
use samehada_db.Bytes.Words.{word32-copy_ne, write_at-copy_at, slice_at-slice}
use samehada_db.Page.{
  Page, get_free_space_pointer, set_free_space_pointer, copy_header, copy_bytes, get_tuple_count,
  set_tuple_size, set_tuple_offset_at_slot,
}
use samehada_db.Page.Slots.{
  fsp_of, count_of, offset_of, patch, get_free_space_pointer-fsp, get_tuple_count-count,
  set_tuple_size-patch, set_tuple_offset-patch,
}
use samehada_db.TablePage.{shift_offsets, close_gap}
use samehada_db.TablePage.View.{plain_size, IsUsed, IsSound}
use samehada_db.TablePage.Moves.{shift_move, shift_offsets-Moves}
use samehada_db.TablePage.Replaced.{Replaced}
use samehada_db.TablePage.Place.{
  Placed, Replaced-Moves, copied, pointed, placed, IsPage-pointed, Placed-placed,
}

copy_at-nil : (at : ℕ) (bytes : List ℕ) → copy_at at [] bytes ≡ bytes
unfolding copy_at
copy_at-nil at [] = refl
copy_at-nil zero (b ∷ bytes) = refl
copy_at-nil (suc at) (b ∷ bytes) = ap (λ bs. b ∷ bs) (copy_at-nil at bytes)

-- The offset of the tuple's own slot is of no matter.
Placed-patch :
    (p r : Page) (slot : ℕ) (bytes : List ℕ)
    → IsSound p
    → IsUsed p slot
    → 24 + 8 * count_of p + length bytes ≤ fsp_of p + plain_size p slot
    → Placed p r slot bytes
    → Placed p (patch r (24 + 8 * slot) (le32 0)) slot bytes
unfolding le32
Placed-patch p r slot bytes s u room w = record {
  page = length-copy_at (24 + 8 * slot) (le32 0) r.bytes ∙ w.page;
  pointer = ap (λ n. n + length bytes) (word (inl (omega arith))) ∙ w.pointer;
  count = word (inl (omega arith)) ∙ w.count;
  own_size = word (inr (omega arith)) ∙ w.own_size;
  size = λ i ne h. word (ground arith) ∙ w.size i ne h;
  offset = λ i ne h. word (ground arith) ∙ w.offset i ne h;
  front_byte = λ j k a b e. byte k (omega (arith, u.0)) ∙ w.front_byte j k a b e;
  behind_byte =
      λ j h. byte j (omega (arith, u.0, s.inside slot u, s.slots_fit)) ∙ w.behind_byte j h;
  own_byte = λ j k h e. byte j (omega (arith, u.0, s.inside slot u)) ∙ w.own_byte j k h e;
}
  where
    word :
        {at : ℕ}
        → (at + 4 ≤ 24 + 8 * slot) ⊎ (24 + 8 * slot + 4 ≤ at)
        → word32 (copy_at (24 + 8 * slot) (le32 0) r.bytes) at ≡ word32 r.bytes at
    word {at} h = unfold le32 in word32-copy_ne (24 + 8 * slot) (le32 0) r.bytes at h

    byte :
        (j : ℕ)
        → 32 + 8 * slot ≤ j
        → get_or (copy_at (24 + 8 * slot) (le32 0) r.bytes) j 0 ≡ get_or r.bytes j 0
    byte j h = unfold le32 in ground (arith, get_or-copy_at (24 + 8 * slot) (le32 0) r.bytes j)

module _ (p : Page) (slot : ℕ) (s : IsSound p) (u : IsUsed p slot) where
  f' : ℕ
  f' = fsp_of p + plain_size p slot

  o' : ℕ
  o' = offset_of p slot + plain_size p slot

  start : f' + 0 ≡ fsp_of p + plain_size p slot
  unfolding f'
  start = omega arith

  end : o' + 0 ≡ offset_of p slot + plain_size p slot
  unfolding o'
  end = omega arith

  room : 24 + 8 * count_of p ≤ f'
  unfolding f'
  room = omega (arith, s.slots_fit)

  sized : Page
  sized = placed p slot f' o' [] s u start end room

  sized-Placed : Placed p sized slot []
  unfolding sized
  sized-Placed = Placed-placed p slot f' o' [] s u start end room

  cleared : Page
  cleared = patch sized (24 + 8 * slot) (le32 0)

  cleared-Placed : Placed p cleared slot []
  unfolding cleared
  cleared-Placed = Placed-patch p sized slot [] s u (omega (arith, s.slots_fit)) sized-Placed

  set_size : set_tuple_size (pointed p slot f' o' [] s u start end room) slot 0 ≡ returns sized
  unfolding sized
  set_size =
      set_tuple_size-patch (pointed p slot f' o' [] s u start end room)
        (IsPage-pointed p slot f' o' [] s u start end room) slot
        (omega (arith, u.0, s.slots_fit, s.pointer_fits)) 0
      ∙ ap (λ b. returns (record p { bytes = copy_at (28 + 8 * slot) (le32 0) b }))
          (sym (copy_at-nil o' (pointed p slot f' o' [] s u start end room).bytes))

  set_offset : set_tuple_offset_at_slot sized slot 0 ≡ returns cleared
  unfolding cleared
  set_offset =
      set_tuple_offset-patch sized sized-Placed.page slot
        (omega (arith, u.0, s.slots_fit, s.pointer_fits)) 0

  finished :
      (q : Page) × (shift_offsets (offset_of p slot) (plain_size p slot) (count_of p) cleared 0
        ≡ returns q)
      × Replaced p q slot []
  finished =
      let inside = s.inside slot u in
      let (q, ran, m) =
        shift_offsets-Moves (24 + 8 * count_of p) (omega (arith, s.slots_fit, s.pointer_fits))
          (offset_of p slot) (plain_size p slot) (count_of p) cleared 0 cleared-Placed.page
          (omega arith) in
      (
        q,
        ran,
        Replaced-Moves p slot [] s u cleared q (shift_move (offset_of p slot) (plain_size p slot))
            (omega (arith, s.slots_fit)) cleared-Placed m (λ h. absurd (h refl))
            (λ x z used low high. ground (arith, inside)) (λ x z high. ground arith),
      )

  -- The calls of `close_gap`, one after the other.
  close_gap_runs :
      (q : Page) (front : List ℕ) (a : Page)
      → get_free_space_pointer p ≡ fsp_of p
      → leb (fsp_of p) (offset_of p slot) ≡ true
      → slice_at p.bytes (fsp_of p) (offset_of p slot) ≡ returns front
      → u32 (fsp_of p + plain_size p slot) ≡ f'
      → copy_bytes p f' front ≡ returns a
      → set_tuple_size (set_free_space_pointer a f') slot 0 ≡ returns sized
      → get_tuple_count cleared ≡ count_of p
      → shift_offsets (offset_of p slot) (plain_size p slot) (count_of p) cleared 0 ≡ returns q
      → close_gap slot (offset_of p slot) (plain_size p slot) p ≡ returns q
  unfolding close_gap
  close_gap_runs q front a h₁ h₂ h₃ h₄ h₅ h₆ h₇ h₈ =
      simp (h₁, h₂, h₃, h₄, h₅, h₆, set_offset, h₇, h₈) refl

  pub close_gap-Replaced :
      (q : Page) × (close_gap slot (offset_of p slot) (plain_size p slot) p ≡ returns q)
      × Replaced p q slot []
  unfolding copy_bytes set_free_space_pointer copy_header f'
  close_gap-Replaced =
      let inside = s.inside slot u in
      let (q, ran, w) = finished in
      (
        q,
        close_gap_runs q (slice (fsp_of p) (offset_of p slot) p.bytes)
            (copied p slot f' o' [] s u start end room) (get_free_space_pointer-fsp p s.page)
            (ground arith)
            (slice_at-slice p.bytes (fsp_of p) (offset_of p slot) (omega arith)
              (omega (arith, s.page)))
            (omega (arith, s.pointer_fits))
            (rw
              (write_at-copy_at p.bytes f' (slice (fsp_of p) (offset_of p slot) p.bytes)
                (omega (arith, s.page)))
              refl)
            set_size (get_tuple_count-count cleared cleared-Placed.page ∙ cleared-Placed.count) ran,
        w,
      )
