-- ===== src/TablePage/Moves.antt =====
-- The loops of storage/access/table_page.go that move the offsets of the slots, in `ApplyDelete` and
-- `UpdateTuple`.
use samehada_db.Base.{
  ℕ, zero, suc, ◌+◌, ◌*◌, ◌≤◌, Bool, not, ◌&&◌, leb, ltb, ◌==◌, if◌then◌else◌, returns, ◌≡◌, refl,
  arith, get_or, inl, inr, ◌∙◌, sym, Bool-cases, ==_refl,
}
use samehada_db.Bytes.{le32, u32, sub32}
use samehada_db.Bytes.Slices.{length-copy_at, get_or-copy_at}
use samehada_db.Bytes.Words.{word32-copy_self, word32-copy_ne}
use samehada_db.Page.{Page, get_tuple_offset_at_slot, get_tuple_size, set_tuple_offset_at_slot}
use samehada_db.Page.Slots.{
  fsp_of, count_of, offset_of, size_of, IsPage, patch, get_tuple_size-size, get_tuple_offset-offset,
  set_tuple_offset-patch,
}
use samehada_db.TablePage.{shift_offsets}
use samehada_db.TablePage.Update.{move_offsets}

-- The offsets of the slots from `slot` on, for `rounds` slots, are moved; nothing else changes, and no byte
-- from `lim` on.
pub record Moves (move : ℕ → ℕ → ℕ) (p q : Page) (slot rounds lim : ℕ) : Type 0 where
  pub page : IsPage q
  pub pointer : fsp_of q ≡ fsp_of p
  pub count : count_of q ≡ count_of p
  pub size : (i : ℕ) → size_of q i ≡ size_of p i
  pub offset :
      (i : ℕ)
      → offset_of q i ≡ (
          if leb slot i && ltb i (slot + rounds)
          then move (offset_of p i) (size_of p i)
          else offset_of p i)
  pub byte : (j : ℕ) → lim ≤ j → get_or q.bytes j 0 ≡ get_or p.bytes j 0

module _ (move : ℕ → ℕ → ℕ) (lim : ℕ) where
  Moves-nil : (p : Page) (slot : ℕ) → IsPage p → Moves move p p slot 0 lim
  Moves-nil p slot page = record {
    page = page;
    pointer = refl;
    count = refl;
    size = λ i. refl;
    offset = λ i. ground arith;
    byte = λ j h. refl;
  }

  one_slot : (slot i : ℕ) → (leb slot i && ltb i (slot + 1)) ≡ (i == slot)
  one_slot slot i = ground arith

  Moves-same :
      (p : Page) (slot : ℕ)
      → IsPage p
      → move (offset_of p slot) (size_of p slot) ≡ offset_of p slot
      → Moves move p p slot 1 lim
  Moves-same p slot page e = record {
    page = page;
    pointer = refl;
    count = refl;
    size = λ i. refl;
    offset = λ i. rw (one_slot slot i) (elim (Bool-cases (i == slot)) [
      | inl here ↦ let here' : i ≡ slot = ground arith in rw here' (rw ==_refl (sym e))
      | inr other ↦ rw other refl
    ]);
    byte = λ j h. refl;
  }

  Moves-patch :
      (p : Page) (slot v : ℕ)
      → IsPage p
      → 32 + 8 * slot ≤ lim
      → lim ≤ 4096
      → move (offset_of p slot) (size_of p slot) ≡ u32 v
      → Moves move p (patch p (24 + 8 * slot) (le32 v)) slot 1 lim
  unfolding le32
  Moves-patch p slot v page h k e = record {
    page = length-copy_at (24 + 8 * slot) (le32 v) p.bytes ∙ page;
    pointer = word32-copy_ne (24 + 8 * slot) (le32 v) p.bytes 16 (inl (omega arith));
    count = word32-copy_ne (24 + 8 * slot) (le32 v) p.bytes 20 (inl (omega arith));
    size = λ i. word32-copy_ne (24 + 8 * slot) (le32 v) p.bytes (28 + 8 * i) (ground arith);
    offset = λ i. rw (one_slot slot i) (elim (Bool-cases (i == slot)) [
      | inl here ↦
          let here' : i ≡ slot = ground arith in
          rw here'
            (rw ==_refl (word32-copy_self (24 + 8 * slot) v p.bytes (omega (arith, page)) ∙ sym e))
      | inr other ↦
          rw other (word32-copy_ne (24 + 8 * slot) (le32 v) p.bytes (24 + 8 * i) (ground arith))
    ]);
    byte = λ j l. ground (arith, get_or-copy_at (24 + 8 * slot) (le32 v) p.bytes j);
  }

  Moves-trans :
      (p r q : Page) (slot rounds : ℕ)
      → Moves move p r slot 1 lim
      → Moves move r q (slot + 1) rounds lim
      → Moves move p q slot (suc rounds) lim
  Moves-trans p r q slot rounds a b = record {
    page = b.page;
    pointer = b.pointer ∙ a.pointer;
    count = b.count ∙ a.count;
    size = λ i. b.size i ∙ a.size i;
    offset = λ i. grind (arith, a.offset i, b.offset i, a.size i);
    byte = λ j h. b.byte j h ∙ a.byte j h;
  }

abbrev pub shift_move : ℕ → ℕ → ℕ → ℕ → ℕ
shift_move tuple_offset tuple_size offset size =
    if not (size == 0) && ltb offset tuple_offset then u32 (offset + tuple_size) else offset

abbrev pub replace_move : ℕ → ℕ → ℕ → ℕ → ℕ → ℕ
replace_move bound old_size new_size offset size =
    if ltb 0 size && ltb offset bound then sub32 (u32 (offset + old_size)) new_size else offset

shift_runs :
    (o a rounds : ℕ) (p : Page) (slot : ℕ) (r : Page)
    → get_tuple_offset_at_slot p slot ≡ returns (offset_of p slot)
    → get_tuple_size p slot ≡ returns (size_of p slot)
    → (if not (size_of p slot == 0) && ltb (offset_of p slot) o
        then set_tuple_offset_at_slot p slot (u32 (offset_of p slot + a))
        else returns p)
      ≡ returns r
    → shift_offsets o a (suc rounds) p slot ≡ shift_offsets o a rounds r (slot + 1)
unfolding shift_offsets
shift_runs o a rounds p slot r h k e = simp (h, k, e) refl

replace_runs :
    (bound a b rounds : ℕ) (p : Page) (slot : ℕ) (r : Page)
    → get_tuple_offset_at_slot p slot ≡ returns (offset_of p slot)
    → get_tuple_size p slot ≡ returns (size_of p slot)
    → (if ltb 0 (size_of p slot) && ltb (offset_of p slot) bound
        then set_tuple_offset_at_slot p slot (sub32 (u32 (offset_of p slot + a)) b)
        else returns p)
      ≡ returns r
    → move_offsets bound a b (suc rounds) p slot ≡ move_offsets bound a b rounds r (slot + 1)
unfolding move_offsets
replace_runs bound a b rounds p slot r h k e = simp (h, k, e) refl

-- One slot, under the test that both loops make.
module _ (lim : ℕ) (p : Page) (slot : ℕ) (page : IsPage p) (room : 32 + 8 * slot ≤ lim)
    (fits : lim ≤ 4096) (move : ℕ → ℕ → ℕ) (test : Bool) (v : ℕ)
    (moves : move (offset_of p slot) (size_of p slot) ≡ (if test then v else offset_of p slot))
    (word : u32 v ≡ v) where
  one_round :
      (r : Page) × ((if test then set_tuple_offset_at_slot p slot v else returns p) ≡ returns r)
      × Moves move p r slot 1 lim
  one_round = elim (Bool-cases test) [
    | inl taken ↦ (
      patch p (24 + 8 * slot) (le32 v),
      rw taken (set_tuple_offset-patch p page slot (omega arith) v),
      Moves-patch move lim p slot v page room fits (moves ∙ rw taken (sym word)),
    )
    | inr not_so ↦ (p, rw not_so refl, Moves-same move lim p slot page (moves ∙ rw not_so refl))
  ]

module _ (lim : ℕ) (fits : lim ≤ 4096) where
  pub shift_offsets-Moves :
      (o a rounds : ℕ) (p : Page) (slot : ℕ)
      → IsPage p
      → 24 + 8 * (slot + rounds) ≤ lim
      → (q : Page) × (shift_offsets o a rounds p slot ≡ returns q)
        × Moves (shift_move o a) p q slot rounds lim
  unfolding shift_offsets
  shift_offsets-Moves o a zero p slot page h = (p, refl, Moves-nil (shift_move o a) lim p slot page)
  shift_offsets-Moves o a (suc rounds) p slot page h =
      let (r, set, step) =
        one_round lim p slot page (omega arith) fits (shift_move o a)
          (not (size_of p slot == 0) && ltb (offset_of p slot) o) (u32 (offset_of p slot + a)) refl
          (omega arith) in
      let (q, ran, rest) = shift_offsets-Moves o a rounds r (slot + 1) step.page (omega arith) in
      (
        q,
        shift_runs o a rounds p slot r (get_tuple_offset-offset p page slot (omega arith))
              (get_tuple_size-size p page slot (omega arith)) set
            ∙ ran,
        Moves-trans (shift_move o a) lim p r q slot rounds step rest,
      )

  pub move_offsets-Moves :
      (bound a b rounds : ℕ) (p : Page) (slot : ℕ)
      → IsPage p
      → 24 + 8 * (slot + rounds) ≤ lim
      → (q : Page) × (move_offsets bound a b rounds p slot ≡ returns q)
        × Moves (replace_move bound a b) p q slot rounds lim
  unfolding move_offsets
  move_offsets-Moves bound a b zero p slot page h =
      (p, refl, Moves-nil (replace_move bound a b) lim p slot page)
  move_offsets-Moves bound a b (suc rounds) p slot page h =
      let (r, set, step) =
        one_round lim p slot page (omega arith) fits (replace_move bound a b)
          (ltb 0 (size_of p slot) && ltb (offset_of p slot) bound)
          (sub32 (u32 (offset_of p slot + a)) b) refl (omega arith) in
      let (q, ran, rest) =
        move_offsets-Moves bound a b rounds r (slot + 1) step.page (omega arith) in
      (
        q,
        replace_runs bound a b rounds p slot r (get_tuple_offset-offset p page slot (omega arith))
              (get_tuple_size-size p page slot (omega arith)) set
            ∙ ran,
        Moves-trans (replace_move bound a b) lim p r q slot rounds step rest,
      )
