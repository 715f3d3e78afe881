-- ===== src/TablePage/View.antt =====
-- What a slotted page of storage/access/table_page.go stores: a slot is free, or holds the bytes of a
-- tuple, which may be marked as deleted. The layout that makes the operations safe.
use samehada_db.Base.{
  ℕ, ◌+◌, ◌*◌, ◌%◌, ◌≤◌, ◌<◌, List, Bool, true, false, length, leb, ltb, ◌==◌, if◌then◌else◌, ◌≡◌,
  arith, get_or, ◌≢◌, ◌⊎◌, ◌∙◌, sym,
}
use samehada_db.Bytes.{slice, word32}
use samehada_db.Bytes.Slices.{get_or-slice, length-slice, list_ext}
use samehada_db.Page.{Page, delete_mask}
use samehada_db.Page.Slots.{fsp_of, count_of, offset_of, size_of, IsPage}

pub data Slot : Type 0 where
  free : Slot
  live marked : List ℕ → Slot

abbrev pub is_live : Slot → Bool
is_live (live bytes) = true
is_live _ = false

abbrev pub mark : Slot → Slot
mark (live bytes) = marked bytes
mark slot = slot

abbrev pub unmark : Slot → Slot
unmark (marked bytes) = live bytes
unmark slot = slot

-- The size of a tuple without its mark.
abbrev pub plain_size : Page → ℕ → ℕ
plain_size p i = size_of p i % delete_mask

unfoldable pub tuple_bytes : Page → ℕ → List ℕ
tuple_bytes p i = slice (offset_of p i) (offset_of p i + plain_size p i) p.bytes

abbrev pub slot_of : ℕ → List ℕ → Slot
slot_of size bytes =
    if size == 0 then free else if leb delete_mask size then marked bytes else live bytes

-- The page as a map from slot numbers.
unfoldable pub stored : Page → ℕ → Slot
stored p i = if ltb i (count_of p) then slot_of (size_of p i) (tuple_bytes p i) else free

-- A slot with a tuple in it.
abbrev pub IsUsed : Page → ℕ → Type 0
IsUsed p i = (i < count_of p) × (size_of p i ≢ 0)

-- The slots end where the free space begins, and the tuples lie behind the free space, apart from
-- one another.
pub record IsSound (p : Page) : Type 0 where
  pub page : IsPage p
  pub slots_fit : 24 + 8 * count_of p ≤ fsp_of p
  pub pointer_fits : fsp_of p ≤ 4096
  pub words : (i : ℕ) → i < count_of p → size_of p i < 4294967296
  pub nonempty : (i : ℕ) → IsUsed p i → 0 < plain_size p i
  pub inside :
      (i : ℕ) → IsUsed p i → (fsp_of p ≤ offset_of p i) × (offset_of p i + plain_size p i ≤ 4096)
  pub apart :
      (i j : ℕ)
      → IsUsed p i
      → IsUsed p j
      → i ≢ j
      → (offset_of p i + plain_size p i ≤ offset_of p j)
        ⊎ (offset_of p j + plain_size p j ≤ offset_of p i)

-- The bytes from 8 on agree: all but the page number and the LSN.
pub record SameBody (p q : Page) : Type 0 where
  pub page : IsPage q
  pub byte : (j : ℕ) → 8 ≤ j → get_or q.bytes j 0 ≡ get_or p.bytes j 0

pub word-SameBody :
    {p q : Page} (at : ℕ) → SameBody p q → 8 ≤ at → word32 q.bytes at ≡ word32 p.bytes at
unfolding word32
word-SameBody at same h = omega (
  arith,
  same.byte at h,
  same.byte (at + 1) (omega arith),
  same.byte (at + 2) (omega arith),
  same.byte (at + 3) (omega arith),
)

-- Slices of pages agree where their bytes do.
pub slice_ext :
    (xs ys : List ℕ) (a b n : ℕ)
    → length xs ≡ length ys
    → a + n ≤ length xs
    → b + n ≤ length ys
    → ((i : ℕ) → i < n → get_or xs (a + i) 0 ≡ get_or ys (b + i) 0)
    → slice a (a + n) xs ≡ slice b (b + n) ys
slice_ext xs ys a b n l h k same =
    list_ext (slice a (a + n) xs) (slice b (b + n) ys)
      (omega (arith, length-slice a (a + n) xs, length-slice b (b + n) ys))
      λ i. ground (arith, get_or-slice a (a + n) xs i, get_or-slice b (b + n) ys i, same i)

-- A tuple has the same bytes on two pages if each byte of it has.
pub tuple_bytes-eq :
    (p q : Page) (i : ℕ)
    → IsPage p
    → IsPage q
    → plain_size q i ≡ plain_size p i
    → offset_of p i + plain_size p i ≤ 4096
    → offset_of q i + plain_size p i ≤ 4096
    → ((k : ℕ)
        → k < plain_size p i
        → get_or q.bytes (offset_of q i + k) 0 ≡ get_or p.bytes (offset_of p i + k) 0)
    → tuple_bytes q i ≡ tuple_bytes p i
unfolding tuple_bytes
tuple_bytes-eq p q i lp lq e h k same = rw e (
    slice_ext q.bytes p.bytes (offset_of q i) (offset_of p i) (plain_size p i) (lq ∙ sym lp)
      (omega arith) (omega arith) same)

-- A slot holds the same on two pages that agree on its word and, where it is used, on its bytes.
pub stored-eq :
    (p q : Page) (i : ℕ)
    → count_of q ≡ count_of p
    → size_of q i ≡ size_of p i
    → (IsUsed p i → tuple_bytes q i ≡ tuple_bytes p i)
    → stored q i ≡ stored p i
unfolding stored
stored-eq p q i c s b = ground arith
