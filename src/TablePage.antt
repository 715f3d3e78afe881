-- ===== src/TablePage.antt =====
-- storage/access/table_page.go: the operations on a slotted page. The caller holds the page's latch,
-- so that each operation is one step on the page, the lock tables, the log and the transaction.
-- In recovery logging is off, and the operations read none of the last three.
pub mod View
pub mod Logging
pub mod Mark
pub mod Locking
pub mod Delete
pub mod Rollback
pub mod Fill
pub mod Filled
pub mod Insert
pub mod Read
pub mod Walk
pub mod Start
pub mod Update
pub mod Moves
pub mod Replaced
pub mod Place
pub mod Apply
pub mod Free
pub mod Replace
pub mod Updates
pub mod Columns
use samehada_db.Base.{
  ℕ, zero, suc, ◌+◌, ◌-◌, ◌*◌, ◌≤◌, List, [], ◌∷◌, Bool, true, false, not, ◌&&◌, ◌||◌, length, leb,
  ltb, ◌==◌, if◌then◌else◌, Option, none, some, Outcome, returns, panics, check, ◌>>=◌, ◌>>◌,
}
use samehada_db.Ids.{Rid, invalid_id}
use samehada_db.Txn.{
  Tuple, Transaction, TransactionState, aborted, set_state, is_shared_locked, is_exclusive_locked,
}
use samehada_db.Bytes.{copy_at, slice_at, u32, sub32, make_bytes}
use samehada_db.Lock.{LockManager, Reply, lock_shared, lock_exclusive, lock_upgrade}
use samehada_db.Log.{
  LogManager, LogRecord, append_log_record, new_log_record_insert_delete, new_log_record_new_page,
  insert_type, mark_delete_type, apply_delete_type, rollback_delete_type, new_page_type,
  empty_tuple,
}
use samehada_db.Page.{
  Page, page_size, size_tuple, copy_bytes, set_lsn, set_page_id, set_prev_page_id, set_next_page_id,
  set_free_space_pointer, set_tuple_count, get_table_page_id, get_free_space_pointer,
  get_tuple_count, get_tuple_offset_at_slot, set_tuple_offset_at_slot, get_tuple_size,
  set_tuple_size, get_free_space_remaining, put_tuple, is_deleted, set_deleted_flag,
  unset_deleted_flag,
}

-- `EnableLogging`, and what an operation reads and writes beside the page.
pub record Env : Type 0 where
  pub logging : Bool
  pub locks : LockManager
  pub log : LogManager
  pub txn : Transaction

pub data PageError : Type 0 where
  err_empty_tuple err_not_enough_space err_no_free_slot err_not_locked : PageError

-- `txn.SetState(ABORTED)`, where logging is on.
unfoldable pub abort_if_logging : Env → Env
abort_if_logging e = if e.logging then record e { txn = set_state e.txn aborted } else e

-- AppendLogRecord, SetLSN of the page and SetPrevLSN of the transaction, where logging is on.
unfoldable pub write_log_record : Env → Page → LogRecord → Outcome (Env × Page)
write_log_record e p r =
    if e.logging
    then (do
      (log, written) ← append_log_record e.log r
      returns (
        record e { log = log; txn = record (e.txn) { prev_lsn = written.lsn } },
        set_lsn p written.lsn,
      ))
    else returns (e, p)

-- The loop over the slots: the first one from `slot` on whose size is 0, else the end.
unfoldable pub find_free_slot : ℕ → Page → ℕ → Outcome ℕ
find_free_slot zero p slot = returns slot
find_free_slot (suc rounds) p slot = do
  size ← get_tuple_size p slot
  elim (size == 0) [ true ↦ returns slot | false ↦ find_free_slot rounds p (slot + 1) ]

-- The record identifier or the error, and what the operation leaves behind.
pub data InsertResult : Type 0 where
  inserted : Rid → InsertResult
  failed : PageError → InsertResult

pub record InsertReply : Type 0 where
  pub result : InsertResult
  pub env : Env
  pub page : Page
  pub tuple : Tuple

abbrev pub insert_fails : Env → Page → Tuple → PageError → InsertReply
insert_fails e p tuple err = record { result = failed err; env = e; page = p; tuple = tuple }

-- The state after a reply of the lock manager: a refusal aborts the transaction.
unfoldable pub settle : Env → Reply → Bool × Env
settle e reply =
    if reply.granted
    then (true, record e { locks = reply.manager; txn = reply.txn })
    else (false, record e { locks = reply.manager; txn = set_state reply.txn aborted })

-- The lock on the new tuple, where logging is on: whether it is granted, and the state after it.
unfoldable pub lock_new_tuple : Env → Rid → Bool × Env
lock_new_tuple e rid = if e.logging then settle e (lock_exclusive e.locks e.txn rid) else (true, e)

-- The writes to the page, and the log record.
unfoldable pub write_tuple : Env → Page → Tuple → Rid → Outcome InsertReply
write_tuple e p tuple₀ rid = do
  let tuple = record tuple₀ { rid = some rid }
  let moved = set_free_space_pointer p (sub32 (get_free_space_pointer p) tuple.size)
  filled ← put_tuple moved rid.slot_num tuple
  let count = get_tuple_count filled
  let counted = if rid.slot_num == count then set_tuple_count filled (u32 (count + 1)) else filled
  (e', p') ←
      write_log_record e counted
        (new_log_record_insert_delete e.txn.txn_id e.txn.prev_lsn insert_type rid tuple)
  returns (record { result = inserted rid; env = e'; page = p'; tuple = tuple })

unfoldable pub insert_at_slot : Env → Page → Tuple → ℕ → Outcome InsertReply
insert_at_slot e p tuple slot =
    if get_tuple_count p == slot && ltb (get_free_space_remaining p) (u32 (tuple.size + size_tuple))
    then returns (insert_fails e p tuple err_no_free_slot)
    else (let rid : Rid = record { page_id = get_table_page_id p; slot_num = slot } in
        let (locked, e') = lock_new_tuple e rid in
        if locked
        then write_tuple e' p tuple rid
        else returns (insert_fails e' p tuple err_not_locked))

unfoldable pub insert_tuple : Env → Page → Tuple → Outcome InsertReply
insert_tuple e p tuple =
    if tuple.size == 0
    then returns (insert_fails e p tuple err_empty_tuple)
    else if ltb (get_free_space_remaining p) (u32 (tuple.size + size_tuple))
    then returns (insert_fails e p tuple err_not_enough_space)
    else (do slot ← find_free_slot (get_tuple_count p) p 0; insert_at_slot e p tuple slot)

-- The answer of an operation that reports success by a Bool.
pub record MarkReply : Type 0 where
  pub done : Bool
  pub env : Env
  pub page : Page

abbrev pub refused : Env → Page → MarkReply
refused e p = record { done = false; env = e; page = p }

-- The exclusive lock on a tuple that is there, upgraded from a shared one: whether it is held, and
-- the state after it.
unfoldable pub lock_tuple : Env → Rid → Outcome (Bool × Env)
lock_tuple e rid =
    if is_shared_locked e.txn rid
    then (do reply ← lock_upgrade e.locks e.txn rid; returns (settle e reply))
    else if is_exclusive_locked e.txn rid
    then returns (true, e)
    else returns (settle e (lock_exclusive e.locks e.txn rid))

-- Lock and log record of a delete mark, where logging is on.
unfoldable pub lock_and_log : Env → Page → Rid → LogRecord → Outcome MarkReply
lock_and_log e p rid r =
    if e.logging
    then (do
      (held, e') ← lock_tuple e rid
      if held
          then (do
            (e'', p') ← write_log_record e' p r
            returns (record { done = true; env = e''; page = p' }))
          else returns (refused e' p))
    else returns (record { done = true; env = e; page = p })

unfoldable pub mark_delete : Env → Page → Rid → Outcome MarkReply
mark_delete e p rid =
    if leb (get_tuple_count p) rid.slot_num then returns (refused (abort_if_logging e) p) else (do
      tuple_size ← get_tuple_size p rid.slot_num
      if is_deleted tuple_size then returns (refused (abort_if_logging e) p) else (do
        reply ← lock_and_log e p rid (
            new_log_record_insert_delete e.txn.txn_id e.txn.prev_lsn mark_delete_type rid
              empty_tuple)
        if reply.done && ltb 0 tuple_size
            then (do
              marked ← set_tuple_size reply.page rid.slot_num (set_deleted_flag tuple_size)
              returns (record reply { page = marked }))
            else returns reply))

-- The offsets of `ApplyDelete`: every tuple in front of the removed one moves up by its size.
unfoldable pub shift_offsets : ℕ → ℕ → ℕ → Page → ℕ → Outcome Page
shift_offsets tuple_offset tuple_size zero p slot = returns p
shift_offsets tuple_offset tuple_size (suc rounds) p slot = do
  offset ← get_tuple_offset_at_slot p slot
  size ← get_tuple_size p slot
  p' ←
      if not (size == 0) && ltb offset tuple_offset
      then set_tuple_offset_at_slot p slot (u32 (offset + tuple_size))
      else returns p
  shift_offsets tuple_offset tuple_size rounds p' (slot + 1)

-- The bytes in front of the removed tuple move up, and its slot is cleared.
unfoldable pub close_gap : ℕ → ℕ → ℕ → Page → Outcome Page
close_gap slot_num tuple_offset tuple_size p = do
  let fsp = get_free_space_pointer p
  check (leb fsp tuple_offset)
  front ← slice_at p.bytes fsp tuple_offset
  a ← copy_bytes p (u32 (fsp + tuple_size)) front
  let b = set_free_space_pointer a (u32 (fsp + tuple_size))
  c ← set_tuple_size b slot_num 0
  d ← set_tuple_offset_at_slot c slot_num 0
  shift_offsets tuple_offset tuple_size (get_tuple_count d) d 0

unfoldable pub apply_delete : Env → Page → Rid → Outcome (Env × Page)
apply_delete e p rid = do
  check (ltb rid.slot_num (get_tuple_count p))
  tuple_offset ← get_tuple_offset_at_slot p rid.slot_num
  stored_size ← get_tuple_size p rid.slot_num
  let tuple_size = if is_deleted stored_size then unset_deleted_flag stored_size else stored_size
  removed ← slice_at p.bytes tuple_offset (u32 (tuple_offset + tuple_size))
  check (not e.logging || is_exclusive_locked e.txn rid)
  (e', p') ← write_log_record e p (
      new_log_record_insert_delete e.txn.txn_id e.txn.prev_lsn apply_delete_type rid
        (record { rid = some rid; size = tuple_size; bytes = removed }))
  p'' ← close_gap rid.slot_num tuple_offset tuple_size p'
  returns (e', p'')

-- Unset the deleted flag.
unfoldable pub clear_mark : Env → Page → ℕ → Outcome (Env × Page)
clear_mark e p slot_num = do
  tuple_size ← get_tuple_size p slot_num
  if is_deleted tuple_size
      then (do p' ← set_tuple_size p slot_num (unset_deleted_flag tuple_size); returns (e, p'))
      else returns (e, p)

unfoldable pub rollback_delete : Env → Page → Rid → Outcome (Env × Page)
rollback_delete e p rid = do
  check (not e.logging || is_exclusive_locked e.txn rid)
  (e', p') ← write_log_record e p (
      new_log_record_insert_delete e.txn.txn_id e.txn.prev_lsn rollback_delete_type rid empty_tuple)
  check (ltb rid.slot_num (get_tuple_count p'))
  clear_mark e' p' rid.slot_num

unfoldable pub init : Env → Page → ℕ → ℕ → Outcome (Env × Page)
init e p page_id prev_page_id = do
  (e', a) ←
      write_log_record e p
        (new_log_record_new_page e.txn.txn_id e.txn.prev_lsn new_page_type prev_page_id)
  let b = set_next_page_id (set_prev_page_id (set_page_id a page_id) prev_page_id) invalid_id
  returns (e', set_free_space_pointer (set_tuple_count b 0) page_size)

-- The shared lock of `GetTuple`, where logging is on.
unfoldable pub lock_for_read : Env → Rid → Bool × Env
lock_for_read e rid =
    if e.logging && (not (is_shared_locked e.txn rid) && not (is_exclusive_locked e.txn rid))
    then settle e (lock_shared e.locks e.txn rid)
    else (true, e)

-- make([]byte, size), and a copy of data[offset:] over it
unfoldable pub read_bytes : Page → ℕ → ℕ → Outcome (List ℕ)
read_bytes p offset size = do
  rest ← slice_at p.bytes offset (length p.bytes)
  returns (copy_at 0 rest (make_bytes size))

unfoldable pub get_tuple : Env → Page → Rid → Outcome (Option Tuple × Env)
get_tuple e p rid =
    if leb (get_tuple_count p) rid.slot_num then returns (none, abort_if_logging e) else (do
      offset ← get_tuple_offset_at_slot p rid.slot_num
      size ← get_tuple_size p rid.slot_num
      if is_deleted size
          then returns (none, abort_if_logging e)
          else (let (granted, e') = lock_for_read e rid in
              if granted
              then (do
                bytes ← read_bytes p offset size
                returns (some (record { rid = some rid; size = size; bytes = bytes }), e'))
              else returns (none, e')))

-- The loops of `GetTupleFirstRID` and `GetNextTupleRID`: the first slot that is not empty.
unfoldable pub find_tuple : ℕ → Page → ℕ → Outcome (Option Rid)
find_tuple zero p slot = returns none
find_tuple (suc rounds) p slot = do
  size ← get_tuple_size p slot
  elim (ltb 0 size) [
    | true ↦ returns (some (record { page_id = get_table_page_id p; slot_num = slot }))
    | false ↦ find_tuple rounds p (slot + 1)
  ]

unfoldable pub get_tuple_first_rid : Page → Outcome (Option Rid)
get_tuple_first_rid p = find_tuple (get_tuple_count p) p 0

unfoldable pub get_next_tuple_rid : Page → Rid → Bool → Outcome (Option Rid)
get_next_tuple_rid p current is_next_page =
    let start = if is_next_page then 0 else u32 (current.slot_num + 1) in
    find_tuple (get_tuple_count p - start) p start
