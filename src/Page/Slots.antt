-- ===== src/Page/Slots.antt =====
-- The words of a page in memory, and what a write of one of them does to the others. `slot_room n`
-- says that the first `n` slots lie on the page.
use samehada_db.Base.{ℕ, ◌+◌, ◌*◌, ◌≤◌, ◌<◌, List, length, returns, ◌≡◌, arith, drop}
use samehada_db.Bytes.{copy_at, le32, word32, u32, read_u32, read_u32_at}
use samehada_db.Bytes.Words.{read_u32_at-word32, write_at-copy_at}
use samehada_db.Page.{
  Page, copy_bytes, get_free_space_pointer, get_tuple_count, get_tuple_offset_at_slot,
  set_tuple_offset_at_slot, get_tuple_size, set_tuple_size,
}

abbrev pub fsp_of : Page → ℕ
fsp_of p = word32 p.bytes 16

abbrev pub count_of : Page → ℕ
count_of p = word32 p.bytes 20

abbrev pub offset_of : Page → ℕ → ℕ
offset_of p i = word32 p.bytes (24 + 8 * i)

abbrev pub size_of : Page → ℕ → ℕ
size_of p i = word32 p.bytes (28 + 8 * i)

abbrev pub IsPage : Page → Type 0
IsPage p = length p.bytes ≡ 4096

-- The page after a write of `source` at `at`.
abbrev pub patch : Page → ℕ → List ℕ → Page
patch p at source = record p { bytes = copy_at at source p.bytes }

pub read_header :
    (p : Page) (at : ℕ) → IsPage p → at < 4000 → read_u32 (drop at p.bytes) ≡ word32 p.bytes at
unfolding read_u32_at
read_header p at len lt = ground (arith, read_u32_at-word32 p.bytes at (omega arith))

module _ (p : Page) (len : IsPage p) where
  pub get_free_space_pointer-fsp : get_free_space_pointer p ≡ fsp_of p
  unfolding get_free_space_pointer
  get_free_space_pointer-fsp = read_header p 16 len (omega arith)

  pub get_tuple_count-count : get_tuple_count p ≡ count_of p
  unfolding get_tuple_count
  get_tuple_count-count = read_header p 20 len (omega arith)

  module _ (i : ℕ) (room : 32 + 8 * i ≤ 4096) where
    pub get_tuple_size-size : get_tuple_size p i ≡ returns (size_of p i)
    unfolding get_tuple_size
    get_tuple_size-size =
        let at : u32 (28 + 8 * i) ≡ 28 + 8 * i = omega arith in
        rw at (read_u32_at-word32 p.bytes (28 + 8 * i) (omega arith))

    pub get_tuple_offset-offset : get_tuple_offset_at_slot p i ≡ returns (offset_of p i)
    unfolding get_tuple_offset_at_slot
    get_tuple_offset-offset =
        let at : u32 (24 + 8 * i) ≡ 24 + 8 * i = omega arith in
        rw at (read_u32_at-word32 p.bytes (24 + 8 * i) (omega arith))

    pub set_tuple_size-patch :
        (v : ℕ) → set_tuple_size p i v ≡ returns (patch p (28 + 8 * i) (le32 v))
    unfolding set_tuple_size copy_bytes
    set_tuple_size-patch v =
        let at : u32 (28 + 8 * i) ≡ 28 + 8 * i = omega arith in
        rw (at, write_at-copy_at p.bytes (28 + 8 * i) (le32 v) (omega arith))

    pub set_tuple_offset-patch :
        (v : ℕ) → set_tuple_offset_at_slot p i v ≡ returns (patch p (24 + 8 * i) (le32 v))
    unfolding set_tuple_offset_at_slot copy_bytes
    set_tuple_offset-patch v =
        let at : u32 (24 + 8 * i) ≡ 24 + 8 * i = omega arith in
        rw (at, write_at-copy_at p.bytes (24 + 8 * i) (le32 v) (omega arith))
