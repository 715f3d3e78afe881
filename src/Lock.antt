-- ===== src/Lock.antt =====
-- storage/access/lock_manager.go: the two lock tables and the operations on them. The mutex makes
-- each operation atomic: an operation is one step from tables and transaction to new ones.
pub mod Tables
pub mod Release
pub mod Sets
pub mod Grants
pub mod System
pub mod Exclusion
use samehada_db.Base.{
  ℕ, Bool, true, false, List, [], ◌∷◌, ◌++◌, Option, none, some, ◌==◌, if◌then◌else◌, Outcome,
  returns, panics,
}
use samehada_db.Ids.{Rid, rid_eq, RidMap, update}
use samehada_db.Txn.{Transaction, is_shared_locked}

pub data TwoPlMode : Type 0 where
  regular strict : TwoPlMode

pub data DeadlockMode : Type 0 where
  prevention detection ss2pl_mode : DeadlockMode

pub record LockManager : Type 0 where
  pub two_pl_mode : TwoPlMode
  pub deadlock_mode : DeadlockMode
  pub shared_lock_table : RidMap (List ℕ)
  pub exclusive_lock_table : RidMap ℕ

unfoldable pub new_lock_manager : TwoPlMode → DeadlockMode → LockManager
new_lock_manager two_pl_mode deadlock_mode = record {
  two_pl_mode = two_pl_mode;
  deadlock_mode = deadlock_mode;
  shared_lock_table = λ _. none;
  exclusive_lock_table = λ _. none;
}

unfoldable pub remove_rid : List Rid → Rid → List Rid
remove_rid [] rid = []
remove_rid (r ∷ list) rid = if rid_eq r rid then list else r ∷ remove_rid list rid

unfoldable pub remove_txn_id : List ℕ → ℕ → List ℕ
remove_txn_id [] txn_id = []
remove_txn_id (t ∷ list) txn_id = if t == txn_id then list else t ∷ remove_txn_id list txn_id

unfoldable pub is_contain_txn_id : List ℕ → ℕ → Bool
is_contain_txn_id [] txn_id = false
is_contain_txn_id (t ∷ list) txn_id = if t == txn_id then true else is_contain_txn_id list txn_id

-- What a lock request hands back: whether it is granted, the tables and the transaction after it.
pub record Reply : Type 0 where
  pub granted : Bool
  pub manager : LockManager
  pub txn : Transaction

-- `shared_lock_table[rid] = arr`, and `rid` at the end of the transaction's shared set.
abbrev share : LockManager → Transaction → Rid → List ℕ → Reply
share lm txn rid arr = record {
  granted = true;
  manager = record lm { shared_lock_table = update lm.shared_lock_table rid (some arr) };
  txn = record txn { shared_lock_set = txn.shared_lock_set ++ rid ∷ [] };
}

unfoldable pub lock_shared : LockManager → Transaction → Rid → Reply
lock_shared lm txn rid = elim (lm.exclusive_lock_table rid) [
  | some owner ↦ record { granted = owner == txn.txn_id; manager = lm; txn = txn }
  | none ↦ elim (lm.shared_lock_table rid) [
    | some arr ↦
        if is_contain_txn_id arr txn.txn_id
        then record { granted = true; manager = lm; txn = txn }
        else share lm txn rid (arr ++ txn.txn_id ∷ [])
    | none ↦ share lm txn rid (txn.txn_id ∷ [])
  ]
]

-- `len(arr) != 0` of the entry, false where there is none.
abbrev has_sharers : Option (List ℕ) → Bool
has_sharers none = false
has_sharers (some []) = false
has_sharers (some (t ∷ arr)) = true

unfoldable pub lock_exclusive : LockManager → Transaction → Rid → Reply
lock_exclusive lm txn rid = elim (lm.exclusive_lock_table rid) [
  | some owner ↦ record { granted = owner == txn.txn_id; manager = lm; txn = txn }
  | none ↦
      if has_sharers (lm.shared_lock_table rid)
      then record { granted = false; manager = lm; txn = txn }
      else record {
        granted = true;
        manager = record lm {
          exclusive_lock_table = update lm.exclusive_lock_table rid (some txn.txn_id);
        };
        txn = record txn { exclusive_lock_set = txn.exclusive_lock_set ++ rid ∷ [] };
      }
]

unfoldable pub lock_upgrade : LockManager → Transaction → Rid → Outcome Reply
lock_upgrade lm txn rid =
    if is_shared_locked txn rid
    then elim (lm.exclusive_lock_table rid) [
      | some owner ↦ returns (record { granted = owner == txn.txn_id; manager = lm; txn = txn })
      | none ↦ returns (record {
        granted = true;
        manager = record lm {
          exclusive_lock_table = update lm.exclusive_lock_table rid (some txn.txn_id);
        };
        txn = record txn {
          exclusive_lock_set = txn.exclusive_lock_set ++ rid ∷ [];
          shared_lock_set = remove_rid txn.shared_lock_set rid;
        };
      })
    ]
    else panics

-- One round of the loop of `Unlock`: the exclusive entry goes if it is the transaction's own, and
-- the transaction leaves the shared entry.
abbrev drop_exclusive : LockManager → ℕ → Rid → LockManager
drop_exclusive lm id rid = elim (lm.exclusive_lock_table rid) [
  | none ↦ lm
  | some owner ↦
      if owner == id
      then record lm { exclusive_lock_table = update lm.exclusive_lock_table rid none }
      else lm
]

abbrev drop_shared : LockManager → ℕ → Rid → LockManager
drop_shared lm id rid = elim (lm.shared_lock_table rid) [
  | none ↦ lm
  | some arr ↦
      if is_contain_txn_id arr id
      then record lm {
        shared_lock_table = update lm.shared_lock_table rid (some (remove_txn_id arr id));
      }
      else lm
]

unfoldable pub unlock_one : LockManager → ℕ → Rid → LockManager
unlock_one lm id rid = drop_shared (drop_exclusive lm id rid) id rid

unfoldable pub unlock : LockManager → Transaction → List Rid → LockManager
unlock lm txn [] = lm
unlock lm txn (rid ∷ rid_list) = unlock (unlock_one lm txn.txn_id rid) txn rid_list

-- storage/access/transaction_manager.go
unfoldable pub release_locks : LockManager → Transaction → LockManager
release_locks lm txn = unlock lm txn (txn.exclusive_lock_set ++ txn.shared_lock_set)
