-- ===== src/TxnManager/Begin.antt =====
-- Begin of storage/access/transaction_manager.go.
use samehada_db.Base.{ℕ, ◌+◌, [], true, ◌==◌, if◌then◌else◌, ◌≡◌, ◌≢◌}
use samehada_db.Bytes.{u32}
use samehada_db.Txn.{growing}
use samehada_db.Log.Append.{IsReady}
use samehada_db.TableHeap.{Store}
use samehada_db.TxnManager.{TransactionManager}

-- A transaction that Begin starts without being given one.
pub record Begun (tm tm' : TransactionManager) (s s' : Store) : Type 0 where
  pub number : s'.txn.txn_id ≡ u32 (tm.next_txn_id + 1)
  pub counted : tm'.next_txn_id ≡ u32 (tm.next_txn_id + 1)
  pub state : s'.txn.state ≡ growing
  pub unwritten : s'.txn.write_set ≡ []
  pub unshared : s'.txn.shared_lock_set ≡ []
  pub unlocked : s'.txn.exclusive_lock_set ≡ []
  pub lsn : s.logging ≡ true → s'.txn.prev_lsn ≡ s.bpm.log_manager.next_lsn
  pub known : tm'.txn_map s'.txn.txn_id ≡ true
  pub others : (t : ℕ) → t ≢ s'.txn.txn_id → tm'.txn_map t ≡ tm.txn_map t
  pub latch : tm'.global_txn_latch ≡ tm.global_txn_latch + 1
  pub ready : IsReady s'.bpm.log_manager
  pub locks : s'.locks ≡ s.locks

-- The manager when a transaction of this number has started.
started : TransactionManager → ℕ → TransactionManager
started tm number = record {
  next_txn_id = number;
  global_txn_latch = tm.global_txn_latch + 1;
  txn_map = λ id. if number == id then true else tm.txn_map id;
}
