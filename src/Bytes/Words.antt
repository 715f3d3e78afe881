-- ===== src/Bytes/Words.antt =====
-- Words read back from bytes that were written.
use samehada_db.Base.{
  ℕ, ◌+◌, ◌-◌, ◌≤◌, ◌<◌, List, ◌++◌, get_or, length, ap, ◌≡◌, refl, arith, ◌⊎◌, returns,
  length-drop,
}
use samehada_db.Bytes.{copy_at, slice, le32, word32, read_u32, read_u32_at, write_at, slice_at, u32}
use samehada_db.Bytes.Slices.{list_ext, get_or-copy_at, get_or-drop, length-copy_at}

pub word32-copy_self :
    (off v : ℕ) (dst : List ℕ)
    → off + 4 ≤ length dst
    → word32 (copy_at off (le32 v) dst) off ≡ u32 v
unfolding word32 le32
word32-copy_self off v dst h = ground (
  arith,
  get_or-copy_at off (le32 v) dst off,
  get_or-copy_at off (le32 v) dst (off + 1),
  get_or-copy_at off (le32 v) dst (off + 2),
  get_or-copy_at off (le32 v) dst (off + 3),
  byte 0 (omega arith),
  byte 1 (omega arith),
  byte 2 (omega arith),
  byte 3 (omega arith),
)
  where
    byte : (k : ℕ) → k < 4 → get_or (le32 v) (off + k - off) 0 ≡ get_or (le32 v) k 0
    byte k lt = ap (λ j. get_or (le32 v) j 0) (omega arith)

pub word32-copy_ne :
    (off : ℕ) (src dst : List ℕ) (i : ℕ)
    → (i + 4 ≤ off) ⊎ (off + length src ≤ i)
    → word32 (copy_at off src dst) i ≡ word32 dst i
unfolding word32
word32-copy_ne off src dst i h = ground (
  arith,
  get_or-copy_at off src dst i,
  get_or-copy_at off src dst (i + 1),
  get_or-copy_at off src dst (i + 2),
  get_or-copy_at off src dst (i + 3),
)

pub read_u32_at-word32 :
    (bytes : List ℕ) (off : ℕ)
    → off + 4 ≤ length bytes
    → read_u32_at bytes off ≡ returns (word32 bytes off)
unfolding read_u32_at read_u32 word32
read_u32_at-word32 bytes off h = ground (
  arith,
  length-drop off bytes,
  get_or-drop off bytes 0,
  get_or-drop off bytes 1,
  get_or-drop off bytes 2,
  get_or-drop off bytes 3,
)

pub write_at-copy_at :
    (bytes : List ℕ) (off : ℕ) (src : List ℕ)
    → off ≤ length bytes
    → write_at bytes off src ≡ returns (copy_at off src bytes)
unfolding write_at
write_at-copy_at bytes off src h = ground arith

pub slice_at-slice :
    (bytes : List ℕ) (from to : ℕ)
    → from ≤ to
    → to ≤ length bytes
    → slice_at bytes from to ≡ returns (slice from to bytes)
unfolding slice_at
slice_at-slice bytes from to h k = ground arith

-- A word in front of other bytes.
pub read_u32-le32 : (v : ℕ) (rest : List ℕ) → read_u32 (le32 v ++ rest) ≡ u32 v
unfolding read_u32 word32 le32
read_u32-le32 v rest = ground arith

-- A zero word over a zero word changes nothing.
pub copy_at_zero :
    (at : ℕ) (bytes : List ℕ) → word32 bytes at ≡ 0 → copy_at at (le32 0) bytes ≡ bytes
unfolding word32
copy_at_zero at bytes h = list_ext _ bytes (length-copy_at at (le32 0) bytes) same
  where
    zeros : (k : ℕ) → get_or (le32 0) k 0 ≡ 0
    zeros k = unfold le32 in ground arith

    near : (i : ℕ) → at ≤ i → i < at + 4 → get_or bytes i 0 ≡ 0
    near i low high =
        let split : (i ≡ at) ⊎ ((i ≡ at + 1) ⊎ ((i ≡ at + 2) ⊎ (i ≡ at + 3))) = omega arith in
        ground arith

    four : length (le32 0) ≡ 4
    four = unfold le32 in refl

    same : (i : ℕ) → get_or (copy_at at (le32 0) bytes) i 0 ≡ get_or bytes i 0
    same i = ground (arith, get_or-copy_at at (le32 0) bytes i, zeros (i - at), near i, four)
