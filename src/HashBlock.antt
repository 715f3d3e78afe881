-- ===== src/HashBlock.antt =====
-- storage/page/hash_table_block_page.go and storage/page/hash_table_header_page.go: the slots of one block
-- of a hash table, and the header with the numbers of the blocks' pages. A bitmap is an array of
-- bytes, read by the number of the byte and the number of the bit in it; an index behind the array
-- panics.
pub mod Slots
use samehada_db.Base.{
  ℕ, ◌*◌, ◌/◌, ◌%◌, ◌+◌, ◌-◌, Bool, true, false, ◌&&◌, ◌==◌, ltb, if◌then◌else◌, zero, Outcome,
  returns, panics, ◌>>=◌,
}

abbrev pub size_of_hash_table_pair : ℕ
size_of_hash_table_pair = 16

-- 252
abbrev pub block_array_size : ℕ
block_array_size = 4 * 4096 / (4 * size_of_hash_table_pair + 1)

-- The bytes of a bitmap: 32.
abbrev pub bitmap_size : ℕ
bitmap_size = (block_array_size - 1) / 8 + 1

pub record HashTablePair : Type 0 where
  pub key : ℕ
  pub value : ℕ

abbrev pub Bitmap : Type 0
Bitmap = ℕ → ℕ → Bool

pub record HashTableBlockPage : Type 0 where
  pub occupied : Bitmap
  pub readable : Bitmap
  pub array : ℕ → HashTablePair

-- bits[index/8] & (1 << (index % 8)) != 0
unfoldable pub bit_at : Bitmap → ℕ → Outcome Bool
bit_at bits index =
    if ltb (index / 8) bitmap_size then returns (bits (index / 8) (index % 8)) else panics

-- bits[index/8] with the bit index % 8 set or cleared
unfoldable pub with_bit : Bitmap → ℕ → Bool → Bitmap
with_bit bits index b byte bit = if byte == index / 8 && bit == index % 8 then b else bits byte bit

unfoldable pub pair_at : HashTableBlockPage → ℕ → Outcome HashTablePair
pair_at page index = if ltb index block_array_size then returns (page.array index) else panics

unfoldable pub key_at : HashTableBlockPage → ℕ → Outcome ℕ
key_at page index = do pair ← pair_at page index; returns pair.key

unfoldable pub value_at : HashTableBlockPage → ℕ → Outcome ℕ
value_at page index = do pair ← pair_at page index; returns pair.value

unfoldable pub is_occupied : HashTableBlockPage → ℕ → Outcome Bool
is_occupied page index = bit_at page.occupied index

unfoldable pub is_readable : HashTableBlockPage → ℕ → Outcome Bool
is_readable page index = bit_at page.readable index

-- `Insert`
unfoldable pub insert_pair : HashTableBlockPage → ℕ → ℕ → ℕ → Outcome (Bool × HashTableBlockPage)
insert_pair page index key value = do
  taken ← is_occupied page index
  if taken
      then returns (false, page)
      else if ltb index block_array_size
      then returns (
        true,
        record {
          occupied = with_bit page.occupied index true;
          readable = with_bit page.readable index true;
          array = λ i. if i == index then record { key = key; value = value } else page.array i;
        },
      )
      else panics

-- `Remove`
unfoldable pub remove_pair : HashTableBlockPage → ℕ → Outcome HashTableBlockPage
remove_pair page index = do
  there ← is_readable page index
  if there
      then returns (record page { readable = with_bit page.readable index false })
      else returns page

pub record HashTableHeaderPage : Type 0 where
  pub page_id : ℕ
  pub lsn : ℕ
  pub next_index : ℕ
  pub size : ℕ
  pub block_page_ids : ℕ → ℕ

unfoldable pub get_block_page_id : HashTableHeaderPage → ℕ → Outcome ℕ
get_block_page_id page index =
    if ltb index 1020 then returns (page.block_page_ids index) else panics

-- `AddBlockPageId`, which panics in a full header.
unfoldable pub add_block_page_id : HashTableHeaderPage → ℕ → Outcome HashTableHeaderPage
add_block_page_id page page_id =
    if ltb page.next_index 1020
    then returns (record page {
      block_page_ids = λ i. if i == page.next_index then page_id else page.block_page_ids i;
      next_index = page.next_index + 1;
    })
    else panics

unfoldable pub num_blocks : HashTableHeaderPage → ℕ
num_blocks page = page.next_index
