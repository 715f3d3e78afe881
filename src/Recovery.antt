-- ===== src/Recovery.antt =====
-- recovery/log_recovery/log_recovery.go: log records read back from the bytes of the log
-- (`DeserializeLogRecord`), with `DeserializeFrom` of storage/tuple/tuple.go. The data is a part of the
-- log buffer: its length bounds the reads, but a slice of it may reach up to its capacity.
pub mod Decode
pub mod Records
pub mod Redo
pub mod Undo
pub mod Inverse
pub mod Again
pub mod Tail
use samehada_db.Base.{
  ℕ, ◌+◌, ◌-◌, List, Bool, true, false, ◌||◌, length, take, drop, leb, ltb, ◌==◌, if◌then◌else◌,
  Outcome, returns, panics, check, ◌>>=◌, ◌>>◌,
}
use samehada_db.Ids.{Rid}
use samehada_db.Txn.{Tuple}
use samehada_db.Bytes.{copy_at, word32, slice, make_bytes, u32}
use samehada_db.Log.{
  LogRecord, header_size, insert_type, apply_delete_type, mark_delete_type, rollback_delete_type,
  update_type, new_page_type,
}

-- A slice of Go: the bytes up to its capacity, and its length.
pub record Slice : Type 0 where
  pub backing : List ℕ
  pub visible : ℕ

abbrev pub seen : Slice → List ℕ
seen s = take s.visible s.backing

-- data[pos:]
unfoldable pub tail_from : Slice → ℕ → Outcome Slice
tail_from s pos =
    if leb pos s.visible
    then returns (record { backing = drop pos s.backing; visible = s.visible - pos })
    else panics

-- binary.Read of a word and of a `RID`: on too few bytes the old value stays.
unfoldable pub read_word : ℕ → List ℕ → ℕ
read_word old bytes = if leb 4 (length bytes) then word32 bytes 0 else old

unfoldable pub read_rid : Rid → List ℕ → Rid
read_rid old bytes =
    if leb 8 (length bytes)
    then record { page_id = word32 bytes 0; slot_num = word32 bytes 4 }
    else old

unfoldable pub deserialize_from : Tuple → Slice → Outcome Tuple
deserialize_from t s = do
  let n = read_word t.size (seen s)
  check (leb (4 + n) (length s.backing))
  returns (record t { size = n; bytes = copy_at 0 (slice 4 (4 + n) s.backing) (make_bytes n) })

-- The five words of the header.
unfoldable pub read_log_header : Slice → LogRecord → LogRecord
read_log_header s r = record r {
  size = word32 s.backing 0;
  lsn = word32 s.backing 4;
  txn_id = word32 s.backing 8;
  prev_lsn = word32 s.backing 12;
  log_record_type = word32 s.backing 16;
}

-- What follows the header, by the type of the record.
unfoldable pub read_payload : Slice → LogRecord → Outcome LogRecord
read_payload s r =
    if r.log_record_type == insert_type
    then (do
      at_rid ← tail_from s header_size
      at_tuple ← tail_from s (header_size + 8)
      t ← deserialize_from r.insert_tuple at_tuple
      returns (record r { insert_rid = read_rid r.insert_rid (seen at_rid); insert_tuple = t }))
    else if r.log_record_type == apply_delete_type
        || (r.log_record_type == mark_delete_type || r.log_record_type == rollback_delete_type)
    then (do
      at_rid ← tail_from s header_size
      at_tuple ← tail_from s (header_size + 8)
      t ← deserialize_from r.delete_tuple at_tuple
      returns (record r { delete_rid = read_rid r.delete_rid (seen at_rid); delete_tuple = t }))
    else if r.log_record_type == update_type
    then (do
      at_rid ← tail_from s header_size
      at_old ← tail_from s (header_size + 8)
      old ← deserialize_from r.old_tuple at_old
      at_new ← tail_from s (u32 (header_size + 8 + u32 (old.size + 4)))
      new ← deserialize_from r.new_tuple at_new
      returns (record r {
        update_rid = read_rid r.update_rid (seen at_rid);
        old_tuple = old;
        new_tuple = new;
      }))
    else if r.log_record_type == new_page_type
    then (do
      at_page ← tail_from s header_size
      returns (record r { prev_page_id = read_word r.prev_page_id (seen at_page) }))
    else returns r

unfoldable pub deserialize_log_record : Slice → LogRecord → Outcome (Bool × LogRecord)
deserialize_log_record s r =
    if ltb s.visible header_size
    then returns (false, r)
    else (let headed = read_log_header s r in
        if headed.size == 0
        then returns (false, headed)
        else (do full ← read_payload s headed; returns (true, full)))
