-- ===== src/Recovery/Redo.antt =====
-- The first pass of recovery/log_recovery/log_recovery.go, with `ReadLog` of
-- storage/disk/disk_manager_impl.go. Logging is off during recovery. The log file is that of the log
-- manager of the pool.
use samehada_db.Base.{
  ℕ, zero, suc, ◌+◌, ◌-◌, List, Bool, true, false, not, ◌||◌, length, drop, leb, ltb, ◌==◌,
  if◌then◌else◌, Option, none, some, Outcome, returns, panics, ◌>>=◌, ◌>>◌, check,
}
use samehada_db.Ids.{Rid}
use samehada_db.Bytes.{copy_at, slice, make_bytes, u32}
use samehada_db.Txn.{new_transaction}
use samehada_db.Lock.{new_lock_manager, regular, prevention}
use samehada_db.Log.{
  LogFile, LogManager, LogRecord, empty_record, log_buffer_size, insert_type, apply_delete_type,
  mark_delete_type, rollback_delete_type, update_type, commit_type, new_page_type,
}
use samehada_db.Page.{Page, get_lsn, set_lsn}
use samehada_db.Value.{int_lt}
use samehada_db.Disk.{offset_ge}
use samehada_db.Buffer.{
  BufferPoolManager, fetch_page, unpin_page, new_page_in_pool, page_in, put_page,
}
use samehada_db.TablePage.{Env, insert_tuple, mark_delete, apply_delete, rollback_delete, init}
use samehada_db.TablePage.Update.{update_tuple}
use samehada_db.Recovery.{Slice, deserialize_log_record}

-- What `ReadLog` answers: false at the end of the file; the buffer, of which `count` bytes were read.
pub record LogRead : Type 0 where
  pub ok : Bool
  pub file : LogFile
  pub buffer : List ℕ
  pub count : ℕ

unfoldable pub read_log : LogFile → List ℕ → ℕ → LogRead
read_log file buffer offset =
    if offset_ge offset (length file.content)
    then record { ok = false; file = file; buffer = buffer; count = 0 }
    else (let position = if ltb offset 2147483648 then offset else file.position in
        let bytes = slice position (position + length buffer) file.content in
        record {
          ok = not (length bytes == 0);
          file = record file { position = position + length bytes };
          buffer = copy_at 0 bytes buffer;
          count = length bytes;
        })

pub record LogRecovery : Type 0 where
  pub bpm : BufferPoolManager
  pub active_txn : ℕ → Option ℕ
  pub lsn_mapping : ℕ → ℕ
  pub log_buffer : List ℕ

unfoldable pub new_log_recovery : BufferPoolManager → LogRecovery
new_log_recovery b = record {
  bpm = b;
  active_txn = λ txn_id. none;
  lsn_mapping = λ lsn. 0;
  log_buffer = make_bytes log_buffer_size;
}

-- The nil transaction, lock manager and log manager, which are not read with logging off.
abbrev pub recovery_env : LogManager → Env
recovery_env log = record {
  logging = false;
  locks = new_lock_manager regular prevention;
  log = log;
  txn = new_transaction 0;
}

-- The page that a record is about.
unfoldable pub changed_rid : LogRecord → Rid
changed_rid r =
    if r.log_record_type == insert_type
    then r.insert_rid
    else if r.log_record_type == update_type
    then r.update_rid
    else r.delete_rid

-- What a record does to its page. UpdateTuple also writes over the Old_tuple of the record, which the next
-- DeserializeLogRecord of a whole record replaces; that is left out.
unfoldable pub redo_change : Env → Page → LogRecord → Outcome Page
redo_change e p r =
    if r.log_record_type == insert_type
    then (do
      reply ← insert_tuple e p (record (r.insert_tuple) { rid = some r.insert_rid })
      returns reply.page)
    else if r.log_record_type == apply_delete_type
    then (do (_, q) ← apply_delete e p r.delete_rid; returns q)
    else if r.log_record_type == mark_delete_type
    then (do reply ← mark_delete e p r.delete_rid; returns reply.page)
    else if r.log_record_type == rollback_delete_type
    then (do (_, q) ← rollback_delete e p r.delete_rid; returns q)
    else (do
      reply ← update_tuple e p r.new_tuple none none r.old_tuple r.update_rid
      returns reply.page)

unfoldable pub redo_page : Env → Page → LogRecord → Outcome Page
redo_page e p r =
    if int_lt (get_lsn p) r.lsn
    then (do q ← redo_change e p r; returns (set_lsn q r.lsn))
    else returns p

-- The page is fetched, changed and given back; on no page the code panics.
unfoldable pub change_in_pool :
    (Page → Outcome Page) → BufferPoolManager → ℕ → Outcome BufferPoolManager
change_in_pool change b page_id = do
  (frame, b₁) ← fetch_page b page_id
  elim frame [
    | none ↦ panics
    | some f ↦ (do
      pg ← page_in b₁ f
      pg' ← change pg
      (_, b₂) ← unpin_page (put_page b₁ f pg') page_id true
      returns b₂)
  ]

unfoldable pub redo_new_page : BufferPoolManager → LogRecord → Outcome BufferPoolManager
redo_new_page b r = do
  (frame, b₁) ← new_page_in_pool b
  elim frame [
    | none ↦ panics
    | some f ↦ (do
      pg ← page_in b₁ f
      (_, pg') ← init (recovery_env b₁.log_manager) pg pg.id r.prev_page_id
      (_, b₂) ← unpin_page (put_page b₁ f pg') pg.id true
      returns b₂)
  ]

abbrev pub is_page_change : ℕ → Bool
is_page_change kind =
    kind == insert_type
    || (kind == apply_delete_type
        || (kind == mark_delete_type || (kind == rollback_delete_type || kind == update_type)))

-- One record, which stands at `position` in the file.
unfoldable pub redo_record : LogRecovery → ℕ → LogRecord → Outcome LogRecovery
redo_record st position r =
    let noted = record st {
      active_txn = λ t. if t == r.txn_id then some r.lsn else st.active_txn t;
      lsn_mapping = λ l. if l == r.lsn then position else st.lsn_mapping l;
    } in
    if is_page_change r.log_record_type
    then (do
      b ←
          change_in_pool (λ p. redo_page (recovery_env st.bpm.log_manager) p r) st.bpm
            (changed_rid r).page_id
      returns (record noted { bpm = b }))
    else if r.log_record_type == commit_type
    then returns
        (record noted { active_txn = λ t. if t == r.txn_id then none else noted.active_txn t })
    else if r.log_record_type == new_page_type
    then (do b ← redo_new_page st.bpm r; returns (record noted { bpm = b }))
    else returns noted

-- log_buffer[from:to]
unfoldable pub buffer_part : List ℕ → ℕ → ℕ → Outcome Slice
buffer_part buffer from to = do
  check (leb from to)
  returns (record { backing = drop from buffer; visible = to - from })

-- The inner loop comes to an end, with what has been read of the buffer, or its rounds are used up.
pub data RedoRecords : Type 0 where
  read_to : ℕ → LogRecovery → RedoRecords
  reads_on : ℕ → LogRecovery → RedoRecords

unfoldable pub redo_records : ℕ → LogRecovery → ℕ → ℕ → ℕ → LogRecord → Outcome RedoRecords
redo_records zero st file_offset count buffer_offset r = returns (reads_on buffer_offset st)
redo_records (suc rounds) st file_offset count buffer_offset r = do
  part ← buffer_part st.log_buffer buffer_offset count
  (complete, r') ← deserialize_log_record part r
  elim complete [
    | false ↦ returns (read_to buffer_offset st)
    | true ↦ (do
      st' ← redo_record st (u32 (file_offset + buffer_offset)) r'
      redo_records rounds st' file_offset count (u32 (buffer_offset + r'.size)) r')
  ]

-- The outer loop, with `rounds` reads of the file and `records` rounds of the inner loop for each.
pub data RedoPass : Type 0 where
  ends : LogRecovery → RedoPass
  goes_on_at : ℕ → LogRecovery → RedoPass

unfoldable pub redo_reads : ℕ → ℕ → LogRecovery → ℕ → Outcome RedoPass
redo_reads zero records st file_offset = returns (goes_on_at file_offset st)
redo_reads (suc rounds) records st file_offset =
    let answer = read_log st.bpm.log_manager.disk st.log_buffer file_offset in
    let st₁ = record st {
      bpm = record (st.bpm) { log_manager = record (st.bpm.log_manager) { disk = answer.file } };
      log_buffer = answer.buffer;
    } in
    elim answer.ok [
      | false ↦ returns (ends st₁)
      | true ↦ (do
        inner ← redo_records records st₁ file_offset answer.count 0 empty_record
        elim inner [
          | reads_on at st₂ ↦ returns (goes_on_at (u32 (file_offset + at)) st₂)
          | read_to at st₂ ↦ redo_reads rounds records st₂ (u32 (file_offset + at))
        ])
    ]

unfoldable pub redo : ℕ → ℕ → LogRecovery → Outcome RedoPass
redo rounds records st =
    redo_reads rounds records (record st { log_buffer = make_bytes log_buffer_size }) 0
