-- ===== src/TablePage/Mark.antt =====
-- A write of one size word of storage/access/table_page.go that keeps the size and changes the mark.
use samehada_db.Base.{
  ℕ, ◌+◌, ◌*◌, ◌%◌, ◌≤◌, ◌<◌, ◌==◌, if◌then◌else◌, returns, ◌≡◌, arith, get_or, ◌≢◌, ◌⊎◌, inl, inr,
  ap, ◌∙◌, Bool-cases, ==_refl,
}
use samehada_db.Bytes.{le32, u32}
use samehada_db.Bytes.Slices.{length-copy_at, get_or-copy_at}
use samehada_db.Bytes.Words.{word32-copy_self, word32-copy_ne}
use samehada_db.Page.{Page, delete_mask, set_tuple_size}
use samehada_db.Page.Slots.{
  fsp_of, count_of, offset_of, size_of, IsPage, patch, set_tuple_size-patch,
}
use samehada_db.TablePage.View.{
  Slot, stored, slot_of, tuple_bytes, plain_size, IsUsed, IsSound, SameBody, tuple_bytes-eq,
  stored-eq,
}
use samehada_db.TablePage.Logging.{count-SameBody, size-SameBody, offset-SameBody}

pub stored-SameBody : {p q : Page} → SameBody p q → IsSound p → (i : ℕ) → stored q i ≡ stored p i
stored-SameBody {p} {q} same s i = stored-eq p q i (count-SameBody same) (size-SameBody same i) λ u.
    let o = offset-SameBody same i in
    let (low, high) = s.inside i u in
    tuple_bytes-eq p q i s.page same.page (ap (λ k. k % delete_mask) (size-SameBody same i)) high
      (omega arith) λ k h. rw o (same.byte (offset_of p i + k) (omega (arith, s.slots_fit)))

module _ (p : Page) (s : IsSound p) (slot v : ℕ) (h : slot < count_of p) where
  abbrev pub rewritten : Page
  rewritten = patch p (28 + 8 * slot) (le32 v)

  below : 32 + 8 * slot ≤ fsp_of p
  below = omega (arith, s.slots_fit)

  pub count-rewritten : count_of rewritten ≡ count_of p
  count-rewritten = word32-copy_ne (28 + 8 * slot) (le32 v) p.bytes 20 (inl (omega arith))

  pub fsp-rewritten : fsp_of rewritten ≡ fsp_of p
  fsp-rewritten = word32-copy_ne (28 + 8 * slot) (le32 v) p.bytes 16 (inl (omega arith))

  pub offset-rewritten : (i : ℕ) → offset_of rewritten i ≡ offset_of p i
  unfolding le32
  offset-rewritten i = word32-copy_ne (28 + 8 * slot) (le32 v) p.bytes (24 + 8 * i) (ground arith)

  pub size-rewritten_self : size_of rewritten slot ≡ u32 v
  size-rewritten_self =
      word32-copy_self (28 + 8 * slot) v p.bytes (omega (arith, below, s.pointer_fits, s.page))

  pub size-rewritten_ne : (i : ℕ) → i ≢ slot → size_of rewritten i ≡ size_of p i
  unfolding le32
  size-rewritten_ne i ne =
      word32-copy_ne (28 + 8 * slot) (le32 v) p.bytes (28 + 8 * i) (ground arith)

  pub byte-rewritten : (j : ℕ) → fsp_of p ≤ j → get_or rewritten.bytes j 0 ≡ get_or p.bytes j 0
  unfolding le32
  byte-rewritten j k = ground (arith, get_or-copy_at (28 + 8 * slot) (le32 v) p.bytes j, below)

  pub IsPage-rewritten : IsPage rewritten
  IsPage-rewritten = length-copy_at (28 + 8 * slot) (le32 v) p.bytes ∙ s.page

  module _ (used : size_of p slot ≢ 0) (small : v < 4294967296)
      (same : v % delete_mask ≡ plain_size p slot) where
    size_cases :
        (i : ℕ)
        → ((i ≡ slot) × (size_of rewritten i ≡ v))
          ⊎ ((i ≢ slot) × (size_of rewritten i ≡ size_of p i))
    size_cases i = elim (Bool-cases (i == slot)) [
      | inl e ↦
          let e' : i ≡ slot = ground arith in inl (e', rw e' (size-rewritten_self ∙ omega arith))
      | inr e ↦ let ne : i ≢ slot = ground arith in inr (ne, size-rewritten_ne i ne)
    ]

    plain-rewritten : (i : ℕ) → plain_size rewritten i ≡ plain_size p i
    plain-rewritten i = ground (arith, size_cases i)

    IsUsed-rewritten : (i : ℕ) → IsUsed rewritten i → IsUsed p i
    IsUsed-rewritten i u = ground (arith, size_cases i, count-rewritten)

    pub IsSound-rewritten : IsSound rewritten
    IsSound-rewritten = record {
      page = IsPage-rewritten;
      slots_fit = omega (arith, count-rewritten, fsp-rewritten, s.slots_fit);
      pointer_fits = omega (arith, fsp-rewritten, s.pointer_fits);
      words = λ i k. ground (arith, size_cases i, s.words i, count-rewritten);
      nonempty = λ i u. omega (arith, s.nonempty i (IsUsed-rewritten i u), plain-rewritten i);
      inside = λ i u. ground (
        arith,
        s.inside i (IsUsed-rewritten i u),
        fsp-rewritten,
        plain-rewritten i,
        offset-rewritten i,
      );
      apart = λ i j u w ne. ground (
        arith,
        s.apart i j (IsUsed-rewritten i u) (IsUsed-rewritten j w) ne,
        plain-rewritten i,
        offset-rewritten i,
        plain-rewritten j,
        offset-rewritten j,
      );
    }

    tuple_bytes-rewritten : (i : ℕ) → IsUsed p i → tuple_bytes rewritten i ≡ tuple_bytes p i
    tuple_bytes-rewritten i u =
        let (low, high) = s.inside i u in
        let o = offset-rewritten i in
        tuple_bytes-eq p rewritten i s.page IsPage-rewritten (plain-rewritten i) high (omega arith)
          λ k lt. rw o (byte-rewritten (offset_of p i + k) (omega arith))

    pub stored-rewritten_self : stored rewritten slot ≡ slot_of v (tuple_bytes p slot)
    unfolding stored
    stored-rewritten_self =
        ground (arith, size-rewritten_self, count-rewritten, tuple_bytes-rewritten slot (h, used))

    pub stored-rewritten_ne : (i : ℕ) → i ≢ slot → stored rewritten i ≡ stored p i
    stored-rewritten_ne i ne =
        stored-eq p rewritten i count-rewritten (size-rewritten_ne i ne) (tuple_bytes-rewritten i)

-- The write of a size word that keeps the size and changes the mark of a used slot.
module _ (q : Page) (s : IsSound q) (slot v : ℕ) (h : slot < count_of q)
    (change : Slot → Slot) where
  pub reword :
      size_of q slot ≢ 0
      → v < 4294967296
      → v % delete_mask ≡ plain_size q slot
      → slot_of v (tuple_bytes q slot) ≡ change (stored q slot)
      → (q' : Page) × (set_tuple_size q slot v ≡ returns q')
        × IsSound q'
        × ((i : ℕ) → stored q' i ≡ (if i == slot then change (stored q i) else stored q i))
  reword used small same effect = (
    rewritten q s slot v h,
    set_tuple_size-patch q s.page slot (omega (arith, s.slots_fit, s.pointer_fits)) v,
    IsSound-rewritten q s slot v h used small same,
    λ i. elim (Bool-cases (i == slot)) [
      | inl e ↦
          let e' : i ≡ slot = ground arith in
          rw e' (rw ==_refl (stored-rewritten_self q s slot v h used small same ∙ effect))
      | inr e ↦ rw e (stored-rewritten_ne q s slot v h used small same i (ground arith))
    ],
  )
