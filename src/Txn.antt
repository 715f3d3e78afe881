-- ===== src/Txn.antt =====
-- storage/access/transaction.go: the state of one transaction.
use samehada_db.Base.{ℕ, Bool, true, false, List, [], ◌∷◌, ◌++◌, Option, if◌then◌else◌}
use samehada_db.Ids.{Rid, rid_eq, invalid_id}

pub data TransactionState : Type 0 where
  growing shrinking committed aborted : TransactionState

-- storage/tuple/tuple.go
pub record Tuple : Type 0 where
  pub rid : Option Rid
  pub size : ℕ
  pub bytes : List ℕ

pub data WriteType : Type 0 where
  insert delete update : WriteType

-- The table heap that a record belongs to is named by its first page.
pub record WriteRecord : Type 0 where
  pub rid : Rid
  pub wtype : WriteType
  pub tuple : Tuple
  pub table : ℕ

pub record Transaction : Type 0 where
  pub state : TransactionState
  pub txn_id : ℕ
  pub write_set : List WriteRecord
  pub prev_lsn : ℕ
  pub shared_lock_set : List Rid
  pub exclusive_lock_set : List Rid

unfoldable pub new_transaction : ℕ → Transaction
new_transaction txn_id = record {
  state = growing;
  txn_id = txn_id;
  write_set = [];
  prev_lsn = invalid_id;
  shared_lock_set = [];
  exclusive_lock_set = [];
}

unfoldable pub add_into_write_set : Transaction → WriteRecord → Transaction
add_into_write_set txn w = record txn { write_set = txn.write_set ++ w ∷ [] }

unfoldable pub is_contains_rid : List Rid → Rid → Bool
is_contains_rid [] rid = false
is_contains_rid (r ∷ list) rid = if rid_eq rid r then true else is_contains_rid list rid

unfoldable pub is_shared_locked : Transaction → Rid → Bool
is_shared_locked txn rid = is_contains_rid txn.shared_lock_set rid

unfoldable pub is_exclusive_locked : Transaction → Rid → Bool
is_exclusive_locked txn rid = is_contains_rid txn.exclusive_lock_set rid

unfoldable pub set_state : Transaction → TransactionState → Transaction
set_state txn state = record txn { state = state }
