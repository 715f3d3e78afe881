-- ===== src/TablePage/Filled.antt =====
-- The page after an insert of storage/access/table_page.go: it is sound again, and it stores what the
-- page before it stored, with the new tuple in its slot.
use samehada_db.Base.{
  ℕ, ◌+◌, ◌-◌, ◌*◌, ◌%◌, ◌≤◌, ◌<◌, List, length, ltb, ◌==◌, if◌then◌else◌, ◌≡◌, refl, arith, get_or,
  ◌≢◌, ◌⊎◌, inl, inr, ap, ◌∙◌, Bool-cases,
}
use samehada_db.Bytes.{le32, u32, copy_at, word32}
use samehada_db.Bytes.Slices.{
  length-copy_at, get_or-copy_at, list_ext, length-slice, get_or-slice, get_or-past,
}
use samehada_db.Bytes.Words.{word32-copy_self, word32-copy_ne}
use samehada_db.Page.{Page, delete_mask, set_tuple_count, copy_header}
use samehada_db.Page.Slots.{fsp_of, count_of, offset_of, size_of, IsPage}
use samehada_db.TablePage.View.{live, stored, tuple_bytes, IsUsed, IsSound, tuple_bytes-eq}
use samehada_db.TablePage.Fill.{
  filled, IsPage-filled, count-filled, fsp-filled, size-filled_self, offset-filled_self,
  size-filled_ne, offset-filled_ne, byte-filled,
}

-- What the writes of an insert change.
pub record Filled (p q : Page) (slot f : ℕ) (bytes : List ℕ) : Type 0 where
  page : IsPage q
  pointer : fsp_of q ≡ f
  count : count_of q ≡ (if slot == count_of p then count_of p + 1 else count_of p)
  own_size : size_of q slot ≡ length bytes
  own_offset : offset_of q slot ≡ f
  size : (i : ℕ) → i ≢ slot → 32 + 8 * i ≤ f → size_of q i ≡ size_of p i
  offset : (i : ℕ) → i ≢ slot → 32 + 8 * i ≤ f → offset_of q i ≡ offset_of p i
  byte :
      (j : ℕ)
      → f ≤ j
      → get_or q.bytes j 0
        ≡ (if ltb j (f + length bytes) then get_or bytes (j - f) 0 else get_or p.bytes j 0)

abbrev pub counted : Page → ℕ → Page → Page
counted p slot q = if slot == count_of p then set_tuple_count q (u32 (count_of p + 1)) else q

pub Filled-counted :
    (p : Page) (page : IsPage p) (slot f : ℕ) (bytes : List ℕ)
    → (room : 32 + 8 * slot ≤ f) → (fits : f + length bytes ≤ 4096) → slot ≤ count_of p
    → count_of p < 4096
    → Filled p (counted p slot (filled p page slot f bytes room fits)) slot f bytes
unfolding set_tuple_count copy_header
Filled-counted p page slot f bytes room fits within few = elim (Bool-cases (slot == count_of p)) [
  | inr old ↦ rw old (record {
    page = IsPage-filled p page slot f bytes room fits;
    pointer = fsp-filled p page slot f bytes room fits;
    count = rw old (count-filled p page slot f bytes room fits);
    own_size = size-filled_self p page slot f bytes room fits;
    own_offset = offset-filled_self p page slot f bytes room fits;
    size = size-filled_ne p page slot f bytes room fits;
    offset = offset-filled_ne p page slot f bytes room fits;
    byte = byte-filled p page slot f bytes room fits;
  })
  | inl fresh ↦ rw fresh (record {
    page = length-copy_at 20 (le32 c) q.bytes ∙ len;
    pointer =
        word32-copy_ne 20 (le32 c) q.bytes 16 (inl (omega arith))
        ∙ fsp-filled p page slot f bytes room fits;
    count = word32-copy_self 20 c q.bytes (omega (arith, len)) ∙ rw fresh (omega arith);
    own_size = kept (28 + 8 * slot) (omega arith) ∙ size-filled_self p page slot f bytes room fits;
    own_offset =
        kept (24 + 8 * slot) (omega arith) ∙ offset-filled_self p page slot f bytes room fits;
    size = λ i ne h.
        kept (28 + 8 * i) (omega arith) ∙ size-filled_ne p page slot f bytes room fits i ne h;
    offset = λ i ne h.
        kept (24 + 8 * i) (omega arith) ∙ offset-filled_ne p page slot f bytes room fits i ne h;
    byte = λ j h. ground (
      arith,
      get_or-copy_at 20 (le32 c) q.bytes j,
      four,
      byte-filled p page slot f bytes room fits j h,
    );
  })
]
  where
    q : Page
    q = filled p page slot f bytes room fits

    len : IsPage q
    len = IsPage-filled p page slot f bytes room fits

    c : ℕ
    c = u32 (count_of p + 1)

    four : length (le32 c) ≡ 4
    four = unfold le32 in refl

    kept : (at : ℕ) → 24 ≤ at → word32 (copy_at 20 (le32 c) q.bytes) at ≡ word32 q.bytes at
    kept at h = word32-copy_ne 20 (le32 c) q.bytes at (ground (arith, four))

module _ (p q : Page) (slot : ℕ) (bytes : List ℕ) (s : IsSound p)
    (room : 32 + 8 * count_of p + length bytes ≤ fsp_of p) (within : slot ≤ count_of p)
    (unused : slot < count_of p → size_of p slot ≡ 0) (some_bytes : 0 < length bytes)
    (w : Filled p q slot (fsp_of p - length bytes) bytes) where
  -- A used slot of the new page is the new one, or was used before with the same words.
  cases :
      (i : ℕ)
      → IsUsed q i
      → ((i ≡ slot) × (size_of q i ≡ length bytes) × (offset_of q i ≡ fsp_of p - length bytes))
        ⊎ ((i ≢ slot) × IsUsed p i × (size_of q i ≡ size_of p i) × (offset_of q i ≡ offset_of p i))
  cases i u = elim (Bool-cases (i == slot)) [
    | inl e ↦ let e' : i ≡ slot = ground arith in inl (e', (rw e' w.own_size), (rw e' w.own_offset))
    | inr e ↦
        let ne : i ≢ slot = ground arith in
        let before : i < count_of p = ground (arith, w.count, u) in
        let same = w.size i ne (omega (arith, before, room)) in
        inr (ne, (before, (λ z. u.1 (same ∙ z))), same, w.offset i ne (omega (arith, before, room)))
  ]

  before : (i : ℕ) → i < count_of q → i ≢ slot → i < count_of p
  before i h ne = ground (arith, w.count)

  small : (i : ℕ) → i < count_of q → size_of q i < 4294967296
  small i h = elim (Bool-cases (i == slot)) [
    | inl e ↦
        let e' : i ≡ slot = ground arith in rw e' (omega (arith, w.own_size, room, s.pointer_fits))
    | inr e ↦
        let ne : i ≢ slot = ground arith in
        let old = before i h ne in
        omega (arith, w.size i ne (omega (arith, old, room)), s.words i old)
  ]

  pub IsSound-Filled : IsSound q
  IsSound-Filled = record {
    page = w.page;
    slots_fit = ground (arith, w.count, w.pointer, room);
    pointer_fits = omega (arith, w.pointer, s.pointer_fits);
    words = small;
    nonempty = λ i u. ground (arith, cases i u, s.nonempty i, room, s.pointer_fits);
    inside = λ i u. ground (arith, cases i u, s.inside i, room, s.pointer_fits, w.pointer);
    apart = λ i j u v ne.
        ground
          (arith, cases i u, cases j v, s.inside i, s.inside j, s.apart i j, room, s.pointer_fits);
  }

  own_bytes : tuple_bytes q slot ≡ bytes
  unfolding tuple_bytes
  own_bytes =
      let f : ℕ = fsp_of p - length bytes in
      let n : length bytes % delete_mask ≡ length bytes = omega (arith, room, s.pointer_fits) in
      rw (w.own_size, w.own_offset, n)
        (list_ext _ bytes
          (omega (arith, length-slice f (f + length bytes) q.bytes, w.page, room, s.pointer_fits))
          λ i. ground (
            arith,
            get_or-slice f (f + length bytes) q.bytes i,
            w.byte (f + i) (omega arith),
            get_or-past bytes i,
            ap (λ k. get_or bytes k 0) (add_sub f i),
          ))
    where
      add_sub : (a b : ℕ) → a + b - a ≡ b
      add_sub a b = omega arith

  old_bytes : (i : ℕ) → i ≢ slot → IsUsed p i → tuple_bytes q i ≡ tuple_bytes p i
  old_bytes i ne u =
      let (low, high) = s.inside i u in
      let o = w.offset i ne (omega (arith, u.0, room)) in
      let z = w.size i ne (omega (arith, u.0, room)) in
      tuple_bytes-eq p q i s.page w.page (ap (λ k. k % delete_mask) z) high (omega (arith, o))
        λ k h. rw o (ground (arith, w.byte (offset_of p i + k) (omega arith), low, room))

  -- The slots after the insert.
  pub stored-Filled : (i : ℕ) → stored q i ≡ (if i == slot then live bytes else stored p i)
  unfolding stored
  stored-Filled i = elim (Bool-cases (i == slot)) [
    | inl e ↦
        let e' : i ≡ slot = ground arith in
        rw e' (ground (arith, w.own_size, w.count, own_bytes, room, s.pointer_fits))
    | inr e ↦
        let ne : i ≢ slot = ground arith in
        elim (Bool-cases (ltb i (count_of p))) [
          | inl old ↦
              let old' : i < count_of p = ground arith in
              let z = w.size i ne (omega (arith, old', room)) in
              ground (arith, w.count, z, old_bytes i ne)
          | inr new ↦ ground (arith, w.count)
        ]
  ]
