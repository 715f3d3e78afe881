-- ===== src/Bytes.antt =====
-- Byte slices of Go and encoding/binary in little-endian order, as the storage code uses them. A byte
-- is a number; `copy` and a read past the end of a slice do what Go does there.
pub mod Words
pub mod Slices
use samehada_db.Base.{
  ℕ, zero, suc, ◌+◌, ◌-◌, ◌*◌, ◌/◌, ◌%◌, ◌^◌, List, [], ◌∷◌, get_or, take, drop, length, leb, ltb,
  if◌then◌else◌, Outcome, returns, panics, replicate, ◌&&◌,
}

-- copy(dst[off:], src): stops at the end of either slice.
unfoldable pub copy_at : ℕ → List ℕ → List ℕ → List ℕ
copy_at off src [] = []
copy_at zero [] (d ∷ dst) = d ∷ dst
copy_at zero (s ∷ src) (d ∷ dst) = s ∷ copy_at zero src dst
copy_at (suc off) src (d ∷ dst) = d ∷ copy_at off src dst

-- data[from:to], for from ≤ to ≤ len(data)
unfoldable pub slice : ℕ → ℕ → List ℕ → List ℕ
slice from to bytes = take (to - from) (drop from bytes)

-- binary.Write of a 32-bit and of a 16-bit word
unfoldable pub le32 : ℕ → List ℕ
le32 v = v % 256 ∷ v / 256 % 256 ∷ v / 65536 % 256 ∷ v / 16777216 % 256 ∷ []

unfoldable pub le16 : ℕ → List ℕ
le16 v = v % 256 ∷ v / 256 % 256 ∷ []

-- The word at an offset with four bytes behind it.
unfoldable pub word32 : List ℕ → ℕ → ℕ
word32 bytes off =
    get_or bytes off 0
    + get_or bytes (off + 1) 0 * 256
    + get_or bytes (off + 2) 0 * 65536
    + get_or bytes (off + 3) 0 * 16777216

-- binary.Read(bytes.NewBuffer(data), binary.LittleEndian, &ret): a short buffer is an error that
-- the code ignores, and `ret` keeps its zero value.
unfoldable pub read_u32 : List ℕ → ℕ
read_u32 bytes = if leb 4 (length bytes) then word32 bytes 0 else 0

-- The same of data[off:]; a slice past the end of the data is a panic.
unfoldable pub read_u32_at : List ℕ → ℕ → Outcome ℕ
read_u32_at bytes off =
    if leb off (length bytes) then returns (read_u32 (drop off bytes)) else panics

-- copy(data[off:], src), with the same panic.
unfoldable pub write_at : List ℕ → ℕ → List ℕ → Outcome (List ℕ)
write_at bytes off src = if leb off (length bytes) then returns (copy_at off src bytes) else panics

-- data[from:to], with Go's test of the bounds.
unfoldable pub slice_at : List ℕ → ℕ → ℕ → Outcome (List ℕ)
slice_at bytes from to =
    if leb from to && leb to (length bytes) then returns (slice from to bytes) else panics

-- make([]byte, n)
abbrev pub make_bytes : ℕ → List ℕ
make_bytes n = replicate n 0

-- uint32 arithmetic.
abbrev pub u32 : ℕ → ℕ
u32 x = x % 2 ^ 32

abbrev pub sub32 : ℕ → ℕ → ℕ
sub32 x y = (x + 2 ^ 32 - y) % 2 ^ 32
