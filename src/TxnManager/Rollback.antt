-- ===== src/TxnManager/Rollback.antt =====
-- `Abort` of storage/access/transaction_manager.go.
use samehada_db.Base.{
  ℕ, ◌-◌, List, [], ◌∷◌, ltb, Option, none, some, Outcome, returns, ◌>>=◌, ◌>>◌, check,
}
use samehada_db.Txn.{WriteRecord, insert, delete, update, aborted, set_state}
use samehada_db.Lock.{release_locks}
use samehada_db.Log.{abort_type}
use samehada_db.TablePage.{apply_delete}
use samehada_db.TableHeap.{
  Store, env_of, put, fetch, read_through, init_table_heap, rollback_delete_in_heap,
}
use samehada_db.TableHeap.Update.{answers, inserts_at, update_in_heap}
use samehada_db.TxnManager.{TransactionManager, log_txn}

-- One entry of the write set is undone; none where the rounds of the insert that an update may end in
-- are used up.
unfoldable pub abort_item : ℕ → Store → WriteRecord → Outcome (Option Store)
abort_item rounds s item = elim item.wtype [
  | delete ↦ (do s₁ ← rollback_delete_in_heap s item.rid; returns (some s₁))
  | insert ↦ (do
    (frame, s₁) ← fetch s item.rid.page_id
    (f, pg) ← read_through s₁ frame
    (e, pg') ← apply_delete (env_of s₁) pg item.rid
    returns (some (put s₁ f e pg')))
  | update ↦ (do
    round ← update_in_heap rounds (init_table_heap item.table) s item.tuple none none item.rid
    elim round [
      | answers is_updated new_rid s₁ ↦ returns (some s₁)
      | inserts_at f s₁ ↦ returns none
    ])
]

-- The write set, from its end.
unfoldable pub abort_items : ℕ → List WriteRecord → Store → Outcome (Option Store)
abort_items rounds [] s = returns (some s)
abort_items rounds (item ∷ rest) s = do
  later ← abort_items rounds rest s
  elim later [ some s' ↦ abort_item rounds s' item | none ↦ returns none ]

unfoldable pub abort :
    ℕ → TransactionManager → Store → Outcome (Option (TransactionManager × Store))
abort rounds tm s = do
  undone ← abort_items rounds s.txn.write_set (record s { txn = set_state s.txn aborted })
  elim undone [
    | none ↦ returns none
    | some s₁ ↦ (do
      logged ← log_txn (record s₁ { txn = record (s₁.txn) { write_set = [] } }) abort_type
      check (ltb 0 tm.global_txn_latch)
      returns (
          some (
            record tm { global_txn_latch = tm.global_txn_latch - 1 },
            record logged { locks = release_locks logged.locks logged.txn },
          )))
  ]
