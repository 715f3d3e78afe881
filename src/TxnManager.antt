-- ===== src/TxnManager.antt =====
-- storage/access/transaction_manager.go: the start and the commit of a transaction (releaseLocks is in
-- Lock). The map of the transactions has the numbers that it has an entry for. The global latch is the
-- number of its readers. Abort is not here, since it rolls updates back.
pub mod Logged
pub mod Begin
pub mod Commit
pub mod Rollback
use samehada_db.Base.{
  ℕ, zero, suc, ◌+◌, ◌-◌, List, [], ◌∷◌, Bool, true, false, ◌==◌, ◌||◌, ltb, if◌then◌else◌, Option,
  none, some, Outcome, returns, panics, ◌>>=◌, ◌>>◌, check,
}
use samehada_db.Bytes.{u32}
use samehada_db.Txn.{
  Transaction, WriteRecord, WriteType, insert, delete, update, committed, set_state,
  new_transaction,
}
use samehada_db.Lock.{release_locks}
use samehada_db.Log.{
  LogManager, append_log_record, new_log_record_txn, begin_type, commit_type, flush,
}
use samehada_db.Buffer.{page_in}
use samehada_db.TablePage.{apply_delete}
use samehada_db.TableHeap.{Store, env_of, put, fetch, read_through}

pub record TransactionManager : Type 0 where
  pub next_txn_id : ℕ
  pub global_txn_latch : ℕ
  pub txn_map : ℕ → Bool

unfoldable pub new_transaction_manager : TransactionManager
new_transaction_manager = record { next_txn_id = 0; global_txn_latch = 0; txn_map = λ id. false }

-- The log record of a transaction's start or end, where logging is on.
unfoldable pub log_txn : Store → ℕ → Outcome Store
log_txn s kind =
    if s.logging
    then (do
      (log, written) ←
          append_log_record s.bpm.log_manager (new_log_record_txn s.txn.txn_id s.txn.prev_lsn kind)
      returns (record s {
        bpm = record (s.bpm) { log_manager = log };
        txn = record (s.txn) { prev_lsn = written.lsn };
      }))
    else returns s

-- `Begin` for a transaction, or for none, which makes one of the next number. The state it answers has the
-- transaction that is started.
unfoldable pub begin :
    TransactionManager → Store → Option Transaction → Outcome (TransactionManager × Store)
begin tm s given =
    let number : ℕ = elim given [ none ↦ u32 (tm.next_txn_id + 1) | some txn ↦ tm.next_txn_id ] in
    let txn : Transaction = elim given [ none ↦ new_transaction number | some txn ↦ txn ] in
    (do
      started ← log_txn (record s { txn = txn }) begin_type
      returns (
        record {
          next_txn_id = number;
          global_txn_latch = tm.global_txn_latch + 1;
          txn_map = λ id. if txn.txn_id == id then true else tm.txn_map id;
        },
        started,
      ))

-- A delete is applied to its page, which is fetched and not given back.
unfoldable pub commit_item : Store → WriteRecord → Outcome Store
commit_item s item = elim item.wtype [
  | delete ↦ (do
    (frame, s₁) ← fetch s item.rid.page_id
    (f, pg) ← read_through s₁ frame
    (e, pg') ← apply_delete (env_of s₁) pg item.rid
    returns (put s₁ f e pg'))
  | insert ↦ returns s
  | update ↦ returns s
]

-- The write set, from its end.
unfoldable pub commit_items : List WriteRecord → Store → Outcome Store
commit_items [] s = returns s
commit_items (item ∷ rest) s = do later ← commit_items rest s; commit_item later item

unfoldable pub flush_log : Store → Outcome Store
flush_log s =
    if s.logging
    then (do
      log ← flush s.bpm.log_manager
      returns (record s { bpm = record (s.bpm) { log_manager = log } }))
    else returns s

-- `Commit`; the latch is given back, which panics where nobody holds it.
unfoldable pub commit : TransactionManager → Store → Outcome (TransactionManager × Store)
commit tm s = do
  applied ← commit_items s.txn.write_set (record s { txn = set_state s.txn committed })
  logged ← log_txn (record applied { txn = record (applied.txn) { write_set = [] } }) commit_type
  durable ← flush_log logged
  check (ltb 0 tm.global_txn_latch)
  returns (
    record tm { global_txn_latch = tm.global_txn_latch - 1 },
    record durable { locks = release_locks durable.locks durable.txn },
  )
