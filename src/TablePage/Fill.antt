-- ===== src/TablePage/Fill.antt =====
-- The writes of an insert in storage/access/table_page.go, word by word and byte by byte: the free
-- space pointer moves down, the tuple's bytes follow it, and a slot gets its offset and size.
use samehada_db.Base.{
  ℕ, ◌+◌, ◌-◌, ◌*◌, ◌≤◌, List, length, ltb, if◌then◌else◌, returns, ◌≡◌, refl, arith, get_or, ◌≢◌,
  ◌⊎◌, inl, inr, ◌∙◌,
}
use samehada_db.Bytes.{le32, u32, word32}
use samehada_db.Bytes.Slices.{length-copy_at, get_or-copy_at}
use samehada_db.Bytes.Words.{word32-copy_self, word32-copy_ne, write_at-copy_at}
use samehada_db.Txn.{Tuple}
use samehada_db.Page.{Page, put_tuple, set_free_space_pointer, copy_header, copy_bytes}
use samehada_db.Page.Slots.{
  fsp_of, count_of, offset_of, size_of, IsPage, patch, get_free_space_pointer-fsp,
}

length-le32 : (v : ℕ) → length (le32 v) ≡ 4
unfolding le32
length-le32 v = refl

-- The page `p`, the slot, the new pointer and the bytes of the tuple, which end where the free space
-- ended.
module _ (p : Page) (page : IsPage p) (slot f : ℕ) (bytes : List ℕ) (room : 32 + 8 * slot ≤ f)
    (fits : f + length bytes ≤ 4096) where
  abbrev moved : Page
  moved = patch p 16 (le32 f)

  abbrev copied : Page
  copied = patch moved f bytes

  abbrev placed : Page
  placed = patch copied (24 + 8 * slot) (le32 f)

  abbrev pub filled : Page
  filled = patch placed (28 + 8 * slot) (le32 (length bytes))

  IsPage-moved : IsPage moved
  IsPage-moved = length-copy_at 16 (le32 f) p.bytes ∙ page

  IsPage-copied : IsPage copied
  IsPage-copied = length-copy_at f bytes moved.bytes ∙ IsPage-moved

  IsPage-placed : IsPage placed
  IsPage-placed = length-copy_at (24 + 8 * slot) (le32 f) copied.bytes ∙ IsPage-copied

  pub IsPage-filled : IsPage filled
  IsPage-filled = length-copy_at (28 + 8 * slot) (le32 (length bytes)) placed.bytes ∙ IsPage-placed

  -- A word of the header or of another slot.
  word-filled :
      (at : ℕ)
      → (at + 4 ≤ 16) ⊎ (20 ≤ at)
      → at + 4 ≤ f
      → (at + 4 ≤ 24 + 8 * slot) ⊎ (32 + 8 * slot ≤ at)
      → word32 filled.bytes at ≡ word32 p.bytes at
  word-filled at a b c =
      word32-copy_ne (28 + 8 * slot) (le32 (length bytes)) placed.bytes at
        (ground (arith, length-le32 (length bytes)))
      ∙ word32-copy_ne (24 + 8 * slot) (le32 f) copied.bytes at (ground (arith, length-le32 f))
      ∙ word32-copy_ne f bytes moved.bytes at (inl b)
      ∙ word32-copy_ne 16 (le32 f) p.bytes at (ground (arith, length-le32 f))

  pub count-filled : count_of filled ≡ count_of p
  count-filled = word-filled 20 (inr (omega arith)) (omega arith) (inl (omega arith))

  pub fsp-filled : fsp_of filled ≡ f
  fsp-filled =
      word32-copy_ne (28 + 8 * slot) (le32 (length bytes)) placed.bytes 16 (inl (omega arith))
      ∙ word32-copy_ne (24 + 8 * slot) (le32 f) copied.bytes 16 (inl (omega arith))
      ∙ word32-copy_ne f bytes moved.bytes 16 (inl (omega arith))
      ∙ word32-copy_self 16 f p.bytes (omega (arith, page))
      ∙ omega arith

  pub size-filled_self : size_of filled slot ≡ length bytes
  size-filled_self =
      word32-copy_self (28 + 8 * slot) (length bytes) placed.bytes (omega (arith, IsPage-placed))
      ∙ omega arith

  pub offset-filled_self : offset_of filled slot ≡ f
  offset-filled_self =
      word32-copy_ne (28 + 8 * slot) (le32 (length bytes)) placed.bytes (24 + 8 * slot)
        (inl (omega arith))
      ∙ word32-copy_self (24 + 8 * slot) f copied.bytes (omega (arith, IsPage-copied))
      ∙ omega arith

  pub size-filled_ne : (i : ℕ) → i ≢ slot → 32 + 8 * i ≤ f → size_of filled i ≡ size_of p i
  size-filled_ne i ne h = word-filled (28 + 8 * i) (inr (omega arith)) (omega arith) (ground arith)

  pub offset-filled_ne : (i : ℕ) → i ≢ slot → 32 + 8 * i ≤ f → offset_of filled i ≡ offset_of p i
  offset-filled_ne i ne h =
      word-filled (24 + 8 * i) (inr (omega arith)) (omega arith) (ground arith)

  -- A byte behind the slots: the tuple's, or the one that was there.
  pub byte-filled :
      (j : ℕ)
      → f ≤ j
      → get_or filled.bytes j 0
        ≡ (if ltb j (f + length bytes) then get_or bytes (j - f) 0 else get_or p.bytes j 0)
  byte-filled j h = ground (
    arith,
    get_or-copy_at (28 + 8 * slot) (le32 (length bytes)) placed.bytes j,
    get_or-copy_at (24 + 8 * slot) (le32 f) copied.bytes j,
    get_or-copy_at f bytes moved.bytes j,
    get_or-copy_at 16 (le32 f) p.bytes j,
    length-le32 f,
    length-le32 (length bytes),
    IsPage-moved,
  )

  -- The two calls of the source that make these writes.
  pub put_tuple-filled :
      (tuple : Tuple)
      → tuple.bytes ≡ bytes
      → tuple.size ≡ length bytes
      → put_tuple (set_free_space_pointer p f) slot tuple ≡ returns filled
  unfolding put_tuple set_free_space_pointer copy_header copy_bytes
  put_tuple-filled tuple e n =
      let pointer : fsp_of moved ≡ f =
        word32-copy_self 16 f p.bytes (omega (arith, page)) ∙ omega arith in
      let a : u32 (24 + 8 * slot) ≡ 24 + 8 * slot = omega arith in
      let b : u32 (28 + 8 * slot) ≡ 28 + 8 * slot = omega arith in
      simp (
        get_free_space_pointer-fsp moved IsPage-moved,
        pointer,
        e,
        n,
        a,
        b,
        write_at-copy_at moved.bytes f bytes (omega (arith, IsPage-moved)),
        write_at-copy_at copied.bytes (24 + 8 * slot) (le32 f) (omega (arith, IsPage-copied)),
        write_at-copy_at placed.bytes (28 + 8 * slot) (le32 (length bytes))
            (omega (arith, IsPage-placed)),
      )
