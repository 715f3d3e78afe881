-- ===== src/Disk.antt =====
-- storage/disk/disk_manager_impl.go: the page file (the log file is in Log). A page has a place in the
-- file by its number; the product of the two is an int32, and a seek to a negative offset fails,
-- which the code ignores, so that the file position stays. The operating system's errors are left
-- out, but for a read at the end of the file.
pub mod Pages
use samehada_db.Base.{
  ℕ, ◌+◌, ◌-◌, ◌*◌, ◌/◌, List, [], ◌∷◌, ◌++◌, Bool, true, false, ◌||◌, ◌&&◌, not, length, take,
  drop, replicate, leb, ltb, ◌==◌, if◌then◌else◌, Option, none, some, min,
}
use samehada_db.Ids.{invalid_id}
use samehada_db.Bytes.{make_bytes, u32, slice}
use samehada_db.Page.{page_size}

pub record DiskManager : Type 0 where
  pub db : List ℕ
  pub position : ℕ
  pub next_page_id : ℕ
  pub size : ℕ

-- `NewDiskManagerImpl` on a file that is there, or was made empty.
unfoldable pub new_disk_manager : List ℕ → DiskManager
new_disk_manager file =
    let n_pages = length file / page_size in
    record {
      db = file;
      position = 0;
      next_page_id = if ltb 0 n_pages then u32 (n_pages + 1) else 0;
      size = length file;
    }

-- Seek, from the start of the file.
unfoldable pub seek : DiskManager → ℕ → DiskManager
seek d offset = if ltb offset 2147483648 then record d { position = offset } else d

-- Write at the position: a gap behind the end of the file is filled with zeros.
unfoldable pub write_at_position : DiskManager → List ℕ → DiskManager
write_at_position d bytes = record d {
  db =
      take d.position (d.db ++ make_bytes (d.position - length d.db))
      ++ (bytes ++ drop (d.position + length bytes) d.db);
  position = d.position + length bytes;
}

-- int64(pageId * common.PageSize), as the word of an int32.
abbrev pub page_offset : ℕ → ℕ
page_offset page_id = u32 (page_id * page_size)

-- Whether a signed offset is at least, or more than, a size.
abbrev pub offset_ge : ℕ → ℕ → Bool
offset_ge offset size = ltb offset 2147483648 && leb size offset

abbrev pub offset_gt : ℕ → ℕ → Bool
offset_gt offset size = ltb offset 2147483648 && ltb size offset

-- `WritePage`; false where the number of bytes is not that of a page, which is an error.
unfoldable pub write_page : DiskManager → ℕ → List ℕ → Bool × DiskManager
write_page d page_id page_data =
    let offset = page_offset page_id in
    let written = write_at_position (seek d offset) page_data in
    if not (length page_data == page_size)
    then (false, written)
    else if offset_ge offset d.size
    then (true, record written { size = offset + length page_data })
    else (true, written)

-- `ReadPage` into a page of zeros: none is an error, and a part of a page is read as zeros.
unfoldable pub read_page : DiskManager → ℕ → Option (List ℕ) × DiskManager
read_page d page_id =
    let offset = page_offset page_id in
    if offset_gt offset (length d.db)
    then (none, d)
    else (let at = seek d offset in
        let bytes = slice at.position (at.position + page_size) d.db in
        let moved = record at { position = at.position + length bytes } in
        if length bytes == 0
        then (none, moved)
        else if ltb (length bytes) page_size
        then (some (make_bytes page_size), moved)
        else (some bytes, moved))

unfoldable pub allocate_page : DiskManager → ℕ × DiskManager
allocate_page d = (d.next_page_id, record d { next_page_id = u32 (d.next_page_id + 1) })
