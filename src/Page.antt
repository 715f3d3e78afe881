-- ===== src/Page.antt =====
-- storage/page/page.go, and the header and slot accessors of storage/access/table_page.go: a page is
-- 4096 bytes in memory. Offsets into the header are constants and never leave the page; an offset
-- that is computed from a slot or from a stored word may, and then Go panics.
pub mod Slots
pub mod Flags
use samehada_db.Base.{
  ℕ, ◌+◌, ◌-◌, ◌*◌, ◌≡◌, List, [], Bool, true, false, length, drop, ltb, ◌||◌, ◌==◌, if◌then◌else◌,
  Outcome, returns, panics, ◌>>=◌,
}
use Prim.Native.Nat.{bit_and, bit_or}
use samehada_db.Ids.{invalid_id}
use samehada_db.Txn.{Tuple}
use samehada_db.Bytes.{copy_at, le32, read_u32, read_u32_at, write_at, u32, sub32, make_bytes}

abbrev pub page_size : ℕ
page_size = 4096

pub record Page : Type 0 where
  pub id : ℕ
  pub pin_count : ℕ
  pub is_dirty : Bool
  pub bytes : List ℕ

unfoldable pub inc_pin_count : Page → Page
inc_pin_count p = record p { pin_count = u32 (p.pin_count + 1) }

unfoldable pub dec_pin_count : Page → Page
dec_pin_count p = if ltb 0 p.pin_count then record p { pin_count = p.pin_count - 1 } else p

-- `New` with data that was read, and `NewEmpty`.
unfoldable pub new_page : ℕ → Bool → List ℕ → Page
new_page id is_dirty bytes = record { id = id; pin_count = 1; is_dirty = is_dirty; bytes = bytes }

unfoldable pub new_empty : ℕ → Page
new_empty id = record { id = id; pin_count = 1; is_dirty = false; bytes = make_bytes page_size }

-- `Copy(offset, data)` at a constant offset of the header.
unfoldable pub copy_header : Page → ℕ → List ℕ → Page
copy_header p offset source = record p { bytes = copy_at offset source p.bytes }

-- `Copy(offset, data)` and `copy(p.Data()[offset:], data)` at a computed offset.
unfoldable pub copy_bytes : Page → ℕ → List ℕ → Outcome Page
copy_bytes p offset source = do b ← write_at p.bytes offset source; returns (record p { bytes = b })

unfoldable pub get_lsn : Page → ℕ
get_lsn p = read_u32 (drop 4 p.bytes)

unfoldable pub set_lsn : Page → ℕ → Page
set_lsn p lsn = copy_header p 4 (le32 lsn)

abbrev pub delete_mask : ℕ
delete_mask = 2147483648

abbrev pub size_table_page_header : ℕ
size_table_page_header = 24

abbrev pub size_tuple : ℕ
size_tuple = 8

unfoldable pub set_page_id : Page → ℕ → Page
set_page_id p page_id = copy_header p 0 (le32 page_id)

unfoldable pub set_prev_page_id : Page → ℕ → Page
set_prev_page_id p page_id = copy_header p 8 (le32 page_id)

unfoldable pub set_next_page_id : Page → ℕ → Page
set_next_page_id p page_id = copy_header p 12 (le32 page_id)

unfoldable pub set_free_space_pointer : Page → ℕ → Page
set_free_space_pointer p free_space_pointer = copy_header p 16 (le32 free_space_pointer)

unfoldable pub set_tuple_count : Page → ℕ → Page
set_tuple_count p tuple_count = copy_header p 20 (le32 tuple_count)

unfoldable pub get_table_page_id : Page → ℕ
get_table_page_id p = read_u32 p.bytes

unfoldable pub get_next_page_id : Page → ℕ
get_next_page_id p = read_u32 (drop 12 p.bytes)

unfoldable pub get_free_space_pointer : Page → ℕ
get_free_space_pointer p = read_u32 (drop 16 p.bytes)

unfoldable pub get_tuple_count : Page → ℕ
get_tuple_count p = read_u32 (drop 20 p.bytes)

unfoldable pub get_tuple_offset_at_slot : Page → ℕ → Outcome ℕ
get_tuple_offset_at_slot p slot_num = read_u32_at p.bytes (u32 (24 + size_tuple * slot_num))

unfoldable pub set_tuple_offset_at_slot : Page → ℕ → ℕ → Outcome Page
set_tuple_offset_at_slot p slot_num offset =
    copy_bytes p (u32 (24 + size_tuple * slot_num)) (le32 offset)

unfoldable pub get_tuple_size : Page → ℕ → Outcome ℕ
get_tuple_size p slot_num = read_u32_at p.bytes (u32 (28 + size_tuple * slot_num))

unfoldable pub set_tuple_size : Page → ℕ → ℕ → Outcome Page
set_tuple_size p slot_num size = copy_bytes p (u32 (28 + size_tuple * slot_num)) (le32 size)

unfoldable pub get_free_space_remaining : Page → ℕ
get_free_space_remaining p =
    sub32 (sub32 (get_free_space_pointer p) size_table_page_header)
      (u32 (size_tuple * get_tuple_count p))

-- `setTuple`
unfoldable pub put_tuple : Page → ℕ → Tuple → Outcome Page
put_tuple p slot tuple = do
  let fsp = get_free_space_pointer p
  a ← copy_bytes p fsp tuple.bytes
  b ← copy_bytes a (u32 (24 + size_tuple * slot)) (le32 fsp)
  copy_bytes b (u32 (28 + size_tuple * slot)) (le32 tuple.size)

unfoldable pub is_deleted : ℕ → Bool
is_deleted tuple_size = bit_and tuple_size delete_mask == delete_mask || tuple_size == 0

unfoldable pub set_deleted_flag : ℕ → ℕ
set_deleted_flag tuple_size = bit_or tuple_size delete_mask

unfoldable pub unset_deleted_flag : ℕ → ℕ
unset_deleted_flag tuple_size = bit_and tuple_size 2147483647
