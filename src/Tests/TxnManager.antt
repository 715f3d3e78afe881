-- ===== src/Tests/TxnManager.antt =====
-- Transactions on an empty database: one starts, and one commits an insert with its lock.
use samehada_db.Base.{ℕ, [], ◌∷◌, true, false, returns, ◌≡◌, arith, length-replicate}
use samehada_db.Ids.{Rid}
use samehada_db.Txn.{Transaction, new_transaction, insert}
use samehada_db.Lock.{new_lock_manager, regular, prevention}
use samehada_db.Log.{LogManager, new_log_manager, empty_tuple}
use samehada_db.Log.Append.{IsReady}
use samehada_db.Log.Durable.{IsWithin}
use samehada_db.Disk.{new_disk_manager}
use samehada_db.Buffer.{new_buffer_pool_manager}
use samehada_db.TableHeap.{Store}
use samehada_db.TxnManager.{TransactionManager, commit}
use samehada_db.TxnManager.Commit.{IsApplied, Committed, commit-Committed}

abbrev log0 : LogManager
log0 = new_log_manager (record { content = []; position = 0; num_flushes = 0 })

abbrev r0 : Rid
r0 = record { page_id = 0; slot_num = 0 }

abbrev writer : Transaction
writer = record (new_transaction 1) {
  write_set = record { rid = r0; wtype = insert; tuple = empty_tuple; table = 0 } ∷ [];
  exclusive_lock_set = r0 ∷ [];
}

abbrev s0 : Store
s0 = record {
  bpm = new_buffer_pool_manager 2 (new_disk_manager []) log0;
  logging = true;
  locks = new_lock_manager regular prevention;
  txn = writer;
}

abbrev one_running : TransactionManager
one_running = record { next_txn_id = 1; global_txn_latch = 1; txn_map = λ id. false }

s0-IsReady : IsReady s0.bpm.log_manager
unfolding new_log_manager new_buffer_pool_manager
s0-IsReady = record {
  log_length = length-replicate {A = ℕ} 45056 0;
  flush_length = length-replicate {A = ℕ} 45056 0;
  within = omega arith;
}

s0-IsWithin : IsWithin s0.bpm.log_manager.disk
unfolding new_log_manager new_buffer_pool_manager
s0-IsWithin = omega arith

s0-IsApplied : IsApplied s0.txn.write_set
s0-IsApplied = ((λ e. cc), tt)

commit-Committed_example :
    (tm' : TransactionManager) × (s' : Store) × (commit one_running s0 ≡ returns (tm', s'))
    × Committed one_running tm' s0 s'
commit-Committed_example =
    commit-Committed one_running s0 s0-IsReady s0-IsWithin s0-IsApplied (omega arith)
