-- ===== src/Lock/System.antt =====
-- The lock manager with the transactions that use it. The mutex of lock_manager.go makes every call
-- one step; transactions interleave in any order.
use samehada_db.Base.{ℕ, true, ◌||◌, some, ◌==◌, if◌then◌else◌, ◌≡◌, returns}
use samehada_db.Ids.{Rid}
use samehada_db.Txn.{Transaction, new_transaction, is_shared_locked, is_exclusive_locked}
use samehada_db.Lock.{
  LockManager, TwoPlMode, DeadlockMode, Reply, is_contain_txn_id, lock_shared, lock_exclusive,
  lock_upgrade, release_locks, new_lock_manager,
}
use samehada_db.Lock.Tables.{sharers, Distinct}

pub record System : Type 0 where
  pub manager : LockManager
  pub txn_of : ℕ → Transaction

-- The system after a reply to transaction `t`.
abbrev pub answer : System → ℕ → Reply → System
answer s t reply = record {
  manager = reply.manager;
  txn_of = λ u. if t == u then reply.txn else s.txn_of u;
}

abbrev pub start : TwoPlMode → DeadlockMode → System
start mode policy = record { manager = new_lock_manager mode policy; txn_of = new_transaction }

-- Nobody else shares the record.
abbrev pub SoleSharer : LockManager → Rid → ℕ → Type 0
SoleSharer lm r t = (u : ℕ) → is_contain_txn_id (sharers lm r) u ≡ true → u ≡ t

-- One call. An upgrade is a step here when no other transaction shares the record, which
-- `LockUpgrade` itself does not test.
pub data Step (s : System) : System → Type 0 where
  shared : (t : ℕ) (r : Rid) → Step s (answer s t (lock_shared s.manager (s.txn_of t) r))
  exclusive : (t : ℕ) (r : Rid) → Step s (answer s t (lock_exclusive s.manager (s.txn_of t) r))
  upgrade :
      (t : ℕ) (r : Rid) (reply : Reply)
      → lock_upgrade s.manager (s.txn_of t) r ≡ returns reply
      → SoleSharer s.manager r t
      → Step s (answer s t reply)
  release : (t : ℕ) → Step s (record s { manager = release_locks s.manager (s.txn_of t) })

pub data Reach (s : System) : System → Type 0 where
  here : Reach s s
  next : {t u : System} → Reach s t → Step t u → Reach s u

pub record IsConsistent (s : System) : Type 0 where
  pub ids : (t : ℕ) → (s.txn_of t).txn_id ≡ t
  pub exclusion :
      (r : Rid) (t : ℕ) → s.manager.exclusive_lock_table r ≡ some t → SoleSharer s.manager r t
  pub distinct : (r : Rid) → Distinct (sharers s.manager r)
  pub own_exclusive :
      (r : Rid) (t : ℕ)
      → s.manager.exclusive_lock_table r ≡ some t
      → is_exclusive_locked (s.txn_of t) r ≡ true
  pub own_shared :
      (r : Rid) (t : ℕ)
      → is_contain_txn_id (sharers s.manager r) t ≡ true
      → (is_shared_locked (s.txn_of t) r || is_exclusive_locked (s.txn_of t) r) ≡ true
