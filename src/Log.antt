-- ===== src/Log.antt =====
-- recovery/log_record.go, recovery/log_manager.go, the log half of storage/disk/disk_manager_impl.go
-- and `SerializeTo` of storage/tuple/tuple.go: log records and their way into the log buffer and
-- the log file. The latches make each call one step.
pub mod Append
pub mod Durable
use samehada_db.Base.{
  ℕ, ◌+◌, ◌-◌, ◌*◌, ◌≤◌, List, [], ◌∷◌, ◌++◌, Bool, true, false, ◌||◌, length, take, drop, leb, ltb,
  ◌==◌, if◌then◌else◌, Outcome, returns, panics, check, ◌>>=◌, ◌>>◌, none, Option,
}
use samehada_db.Ids.{Rid, invalid_id}
use samehada_db.Txn.{Tuple}
use samehada_db.Bytes.{copy_at, le32, read_u32, u32, sub32, slice_at, write_at, make_bytes}

abbrev pub header_size : ℕ
header_size = 20

abbrev pub log_buffer_size : ℕ
log_buffer_size = (10 + 1) * 4096

-- `LogRecordType` is an int32: a record that is read may hold any number.
abbrev pub invalid_type : ℕ
invalid_type = 0

abbrev pub insert_type : ℕ
insert_type = 1

abbrev pub mark_delete_type : ℕ
mark_delete_type = 2

abbrev pub apply_delete_type : ℕ
apply_delete_type = 3

abbrev pub rollback_delete_type : ℕ
rollback_delete_type = 4

abbrev pub update_type : ℕ
update_type = 5

abbrev pub begin_type : ℕ
begin_type = 6

abbrev pub commit_type : ℕ
commit_type = 7

abbrev pub abort_type : ℕ
abort_type = 8

abbrev pub new_page_type : ℕ
new_page_type = 9

pub record LogRecord : Type 0 where
  pub size : ℕ
  pub lsn : ℕ
  pub txn_id : ℕ
  pub prev_lsn : ℕ
  pub log_record_type : ℕ
  pub delete_rid : Rid
  pub delete_tuple : Tuple
  pub insert_rid : Rid
  pub insert_tuple : Tuple
  pub update_rid : Rid
  pub old_tuple : Tuple
  pub new_tuple : Tuple
  pub prev_page_id : ℕ

-- new(tuple.Tuple)
abbrev pub empty_tuple : Tuple
empty_tuple = record { rid = none; size = 0; bytes = [] }

abbrev pub zero_rid : Rid
zero_rid = record { page_id = 0; slot_num = 0 }

-- new(LogRecord)
abbrev pub empty_record : LogRecord
empty_record = record {
  size = 0;
  lsn = 0;
  txn_id = 0;
  prev_lsn = 0;
  log_record_type = 0;
  delete_rid = zero_rid;
  delete_tuple = empty_tuple;
  insert_rid = zero_rid;
  insert_tuple = empty_tuple;
  update_rid = zero_rid;
  old_tuple = empty_tuple;
  new_tuple = empty_tuple;
  prev_page_id = 0;
}

unfoldable pub new_log_record_txn : ℕ → ℕ → ℕ → LogRecord
new_log_record_txn txn_id prev_lsn kind = record empty_record {
  size = header_size;
  txn_id = txn_id;
  prev_lsn = prev_lsn;
  log_record_type = kind;
}

unfoldable pub new_log_record_insert_delete : ℕ → ℕ → ℕ → Rid → Tuple → LogRecord
new_log_record_insert_delete txn_id prev_lsn kind rid tuple =
    if kind == insert_type
    then record base { insert_rid = rid; insert_tuple = tuple }
    else record base { delete_rid = rid; delete_tuple = tuple }
  where
    base : LogRecord
    base = record empty_record {
      size = u32 (header_size + 8 + 4 + tuple.size);
      txn_id = txn_id;
      prev_lsn = prev_lsn;
      log_record_type = kind;
    }

unfoldable pub new_log_record_update : ℕ → ℕ → ℕ → Rid → Tuple → Tuple → LogRecord
new_log_record_update txn_id prev_lsn kind update_rid old_tuple new_tuple = record empty_record {
  size = u32 (header_size + 8 + old_tuple.size + new_tuple.size + 2 * 4);
  txn_id = txn_id;
  prev_lsn = prev_lsn;
  log_record_type = kind;
  update_rid = update_rid;
  old_tuple = old_tuple;
  new_tuple = new_tuple;
}

unfoldable pub new_log_record_new_page : ℕ → ℕ → ℕ → ℕ → LogRecord
new_log_record_new_page txn_id prev_lsn kind page_id = record empty_record {
  size = header_size + 4;
  txn_id = txn_id;
  prev_lsn = prev_lsn;
  log_record_type = kind;
  prev_page_id = page_id;
}

unfoldable pub get_log_header_data : LogRecord → List ℕ
get_log_header_data r =
    le32 r.size ++ (le32 r.lsn ++ (le32 r.txn_id ++ (le32 r.prev_lsn ++ le32 r.log_record_type)))

-- binary.Write of a `RID`
unfoldable pub le_rid : Rid → List ℕ
le_rid rid = le32 rid.page_id ++ le32 rid.slot_num

-- The log file: its bytes and the position of the next write. An I/O error is not modelled.
pub record LogFile : Type 0 where
  pub content : List ℕ
  pub position : ℕ
  pub num_flushes : ℕ

-- `WriteLog`: the bytes go over what stands at the position.
unfoldable pub write_log : LogFile → List ℕ → LogFile
write_log file log_data = record {
  content =
      take file.position file.content
      ++ (log_data ++ drop (file.position + length log_data) file.content);
  position = file.position + length log_data;
  num_flushes = file.num_flushes + 1;
}

pub record LogManager : Type 0 where
  pub offset : ℕ
  pub log_buffer_lsn : ℕ
  pub next_lsn : ℕ
  pub persistent_lsn : ℕ
  pub log_buffer : List ℕ
  pub flush_buffer : List ℕ
  pub disk : LogFile

unfoldable pub new_log_manager : LogFile → LogManager
new_log_manager disk = record {
  offset = 0;
  log_buffer_lsn = 0;
  next_lsn = 0;
  persistent_lsn = invalid_id;
  log_buffer = make_bytes log_buffer_size;
  flush_buffer = make_bytes log_buffer_size;
  disk = disk;
}

unfoldable pub flush : LogManager → Outcome LogManager
flush m = do
  written ← slice_at m.log_buffer 0 m.offset
  returns (record m {
    offset = 0;
    log_buffer = m.flush_buffer;
    flush_buffer = m.log_buffer;
    disk = write_log m.disk written;
    persistent_lsn = m.log_buffer_lsn;
  })

-- `tuple_.SerializeTo(buffer[pos:])`
unfoldable pub serialize_to : Tuple → ℕ → List ℕ → Outcome (List ℕ)
serialize_to tuple pos buffer = do
  sized ← write_at buffer pos (le32 tuple.size)
  check (leb (pos + 4 + tuple.size) (length buffer))
  returns (copy_at (pos + 4) (take tuple.size tuple.bytes) sized)

-- What `AppendLogRecord` writes behind the header at `pos`, by the type of the record.
unfoldable pub write_payload : LogRecord → ℕ → List ℕ → Outcome (List ℕ)
write_payload r pos buffer =
    if r.log_record_type == insert_type
    then (do
      b ← write_at buffer pos (le_rid r.insert_rid)
      serialize_to r.insert_tuple (u32 (pos + 8)) b)
    else if r.log_record_type == apply_delete_type
        || (r.log_record_type == mark_delete_type || r.log_record_type == rollback_delete_type)
    then (do
      b ← write_at buffer pos (le_rid r.delete_rid)
      serialize_to r.delete_tuple (u32 (pos + 8)) b)
    else if r.log_record_type == update_type
    then (do
      b ← write_at buffer pos (le_rid r.update_rid)
      c ← serialize_to r.old_tuple (u32 (pos + 8)) b
      serialize_to r.new_tuple (u32 (pos + 8 + r.old_tuple.size + 4)) c)
    else if r.log_record_type == new_page_type
    then write_at buffer pos (le32 r.prev_page_id)
    else returns buffer

-- A flush when fewer than `needed` bytes are left in the buffer.
unfoldable pub make_room : LogManager → ℕ → Outcome LogManager
make_room m needed = if ltb (sub32 log_buffer_size m.offset) needed then flush m else returns m

-- `copy(log_manager.log_buffer[log_manager.offset:], …)` of the header.
unfoldable pub write_header : LogManager → LogRecord → Outcome LogManager
write_header m r = do
  b ← write_at m.log_buffer m.offset (get_log_header_data r)
  returns (record m { log_buffer = b })

-- The second test of the room, and the header again after its flush.
unfoldable pub second_header : LogManager → LogRecord → Outcome LogManager
second_header m r =
    if ltb (sub32 log_buffer_size m.offset) r.size
    then (do flushed ← flush m; write_header flushed r)
    else returns m

-- The call behind its first test of the room.
unfoldable pub append_in_room : LogManager → LogRecord → Outcome (LogManager × LogRecord)
append_in_room m₁ r₀ = do
  let r = record r₀ { lsn = m₁.next_lsn }
  m₂ ← write_header (record m₁ { next_lsn = u32 (m₁.next_lsn + 1) }) r
  m₃ ← second_header m₂ r
  b ← write_payload r (u32 (m₃.offset + header_size)) m₃.log_buffer
  returns
      (record m₃ { log_buffer_lsn = r.lsn; offset = u32 (m₃.offset + r.size); log_buffer = b }, r)

-- The manager after the call and the record with the number it was given.
unfoldable pub append_log_record : LogManager → LogRecord → Outcome (LogManager × LogRecord)
append_log_record m₀ r = do m₁ ← make_room m₀ header_size; append_in_room m₁ r
