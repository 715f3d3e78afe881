-- ===== src/TxnManager/Commit.antt =====
-- Commit of storage/access/transaction_manager.go.
use samehada_db.Base.{
  ◌+◌, ◌-◌, ◌<◌, List, [], ◌∷◌, ◌++◌, true, ltb, if◌then◌else◌, returns, ◌≡◌, ◌≢◌, refl, arith, ap,
  ◌∙◌, sym, Bool-cases, inl, inr,
}
use samehada_db.Txn.{WriteRecord, WriteType, insert, delete, update, committed, set_state}
use samehada_db.Lock.{release_locks}
use samehada_db.Log.{LogRecord, new_log_record_txn, commit_type, get_log_header_data}
use samehada_db.Log.Append.{IsReady, swapped, flush-swapped}
use samehada_db.Log.Durable.{
  IsWithin, logged_bytes, on_file, on_file-swapped, append_log_record-commit,
}
use samehada_db.TableHeap.{Store}
use samehada_db.TxnManager.{
  TransactionManager, log_txn, commit_item, commit_items, flush_log, commit,
}
use samehada_db.TxnManager.Logged.{commit-Fits, log_txn-Logged}

-- No delete is left to apply.
abbrev pub IsApplied : List WriteRecord → Type 0
IsApplied [] = Unit
IsApplied (item ∷ rest) = (item.wtype ≢ delete) × IsApplied rest

commit_item-skips :
    (s : Store) (item : WriteRecord) → item.wtype ≢ delete → commit_item s item ≡ returns s
unfolding commit_item
commit_item-skips s item h = go item.wtype refl
  where
    go : (w : WriteType) → item.wtype ≡ w → commit_item s item ≡ returns s
    go insert e = simp (commit_item, e) refl
    go update e = simp (commit_item, e) refl
    go delete e = absurd (h e)

commit_items-skips :
    (items : List WriteRecord) (s : Store) → IsApplied items → commit_items items s ≡ returns s
unfolding commit_items
commit_items-skips [] s h = refl
commit_items-skips (item ∷ rest) s (kind, h) =
    rw (commit_items-skips rest s h) (commit_item-skips s item kind)

-- The COMMIT record of the transaction, under the next number.
abbrev pub commit_record : Store → LogRecord
commit_record s = record (new_log_record_txn s.txn.txn_id s.txn.prev_lsn commit_type) {
  lsn = s.bpm.log_manager.next_lsn;
}

-- A transaction that is committed.
pub record Committed (tm tm' : TransactionManager) (s s' : Store) : Type 0 where
  pub state : s'.txn.state ≡ committed
  pub applied : s'.txn.write_set ≡ []
  pub released : s'.locks ≡ release_locks s.locks s'.txn
  pub shared : s'.txn.shared_lock_set ≡ s.txn.shared_lock_set
  pub exclusive : s'.txn.exclusive_lock_set ≡ s.txn.exclusive_lock_set
  pub number : s'.txn.txn_id ≡ s.txn.txn_id
  pub lsn : s.logging ≡ true → s'.txn.prev_lsn ≡ s.bpm.log_manager.next_lsn
  pub durable : s.logging ≡ true → s'.bpm.log_manager.persistent_lsn ≡ s'.txn.prev_lsn
  pub written : s.logging ≡ true → s'.bpm.log_manager.offset ≡ 0
  pub log :
      s.logging ≡ true
      → on_file s'.bpm.log_manager.disk
        ≡ logged_bytes s.bpm.log_manager ++ get_log_header_data (commit_record s)
  pub ready : IsReady s'.bpm.log_manager
  pub latch : tm'.global_txn_latch + 1 ≡ tm.global_txn_latch

-- The log after the flush, if there is one.
flushed : Store → Store
flushed s =
    if s.logging
    then record s { bpm = record (s.bpm) { log_manager = swapped s.bpm.log_manager } }
    else s

flush_log-flushed : (s : Store) → IsReady s.bpm.log_manager → flush_log s ≡ returns (flushed s)
unfolding flush_log flushed
flush_log-flushed s ready = elim (Bool-cases s.logging) [
  | inl on ↦ simp (on, flush-swapped s.bpm.log_manager ready) refl
  | inr off ↦ simp off refl
]

-- The transaction while it commits.
ending : Store → Store
ending s = record s { txn = record (set_state s.txn committed) { write_set = [] } }

commit-runs :
    (tm : TransactionManager) (s logged : Store)
    → commit_items s.txn.write_set (record s { txn = set_state s.txn committed })
      ≡ returns (record s { txn = set_state s.txn committed })
    → log_txn (ending s) commit_type ≡ returns logged
    → flush_log logged ≡ returns (flushed logged)
    → ltb 0 tm.global_txn_latch ≡ true
    → commit tm s
      ≡ returns (
        record tm { global_txn_latch = tm.global_txn_latch - 1 },
        record (flushed logged) {
          locks = release_locks (flushed logged).locks (flushed logged).txn;
        },
      )
unfolding commit ending
commit-runs tm s logged skips ran durable held = simp (skips, ran, durable, held) refl

txn-flushed : (s : Store) → (flushed s).txn ≡ s.txn
unfolding flushed
txn-flushed s = elim (Bool-cases s.logging) [ inl on ↦ rw on refl | inr off ↦ rw off refl ]

locks-flushed : (s : Store) → (flushed s).locks ≡ s.locks
unfolding flushed
locks-flushed s = elim (Bool-cases s.logging) [ inl on ↦ rw on refl | inr off ↦ rw off refl ]

flushed_on :
    (s : Store) → s.logging ≡ true → (flushed s).bpm.log_manager ≡ swapped s.bpm.log_manager
unfolding flushed
flushed_on s on = rw on refl

flushed-IsReady : (s : Store) → IsReady s.bpm.log_manager → IsReady (flushed s).bpm.log_manager
unfolding flushed
flushed-IsReady s ready = elim (Bool-cases s.logging) [
  | inl on ↦ rw on record {
    log_length = ready.flush_length;
    flush_length = ready.log_length;
    within = omega arith;
  }
  | inr off ↦ rw off ready
]

-- With logging on, what was on the log file and in the buffer is on the file, with the COMMIT record behind it.
commit_logs :
    (s logged : Store)
    → s.logging ≡ true
    → IsReady s.bpm.log_manager
    → IsWithin s.bpm.log_manager.disk
    → log_txn s commit_type ≡ returns logged
    → on_file (swapped logged.bpm.log_manager).disk
      ≡ logged_bytes s.bpm.log_manager ++ get_log_header_data (commit_record s)
unfolding log_txn
commit_logs s logged on ready within ran =
    let (m', appended, within', grown) =
      append_log_record-commit s.bpm.log_manager s.txn.txn_id s.txn.prev_lsn ready within in
    let after : Store = record s {
      bpm = record (s.bpm) { log_manager = m' };
      txn = record (s.txn) { prev_lsn = s.bpm.log_manager.next_lsn };
    } in
    let goes : log_txn s commit_type ≡ returns after = simp (on, appended) refl in
    let both : returns after ≡ returns logged = sym goes ∙ ran in
    let same : logged ≡ after = cc both in
    ap (λ x. on_file (swapped x.bpm.log_manager).disk) same ∙ on_file-swapped m' within' ∙ grown

-- `Commit` of a transaction without deletes returns where the log manager is ready, the position of the log
-- file is not behind its end, and somebody reads the latch: the transaction is committed, its write set is
-- empty, its locks are released from the lock tables, and the latch has one reader less. With logging on its
-- last LSN is that of the COMMIT record, and up to its position the log file has what it had and what waited
-- in the buffer, with the bytes of the COMMIT record behind it.
pub commit-Committed :
    (tm : TransactionManager) (s : Store)
    → IsReady s.bpm.log_manager
    → IsWithin s.bpm.log_manager.disk
    → IsApplied s.txn.write_set
    → 0 < tm.global_txn_latch
    → (tm' : TransactionManager) × (s' : Store) × (commit tm s ≡ returns (tm', s'))
      × Committed tm tm' s s'
unfolding ending set_state
commit-Committed tm s ready within no_delete held =
    let (logged, ran, l) =
      log_txn-Logged (ending s) commit_type ready (commit-Fits s.txn.txn_id s.txn.prev_lsn) in
    let after = flushed logged in
    let same : after.txn ≡ record ((ending s).txn) { prev_lsn = logged.txn.prev_lsn } =
      txn-flushed logged ∙ l.txn in
    let on : s.logging ≡ true → logged.logging ≡ true = λ e. l.logging ∙ e in
    let number = ap (λ x. x.prev_lsn) (txn-flushed logged) in
    (
      record tm { global_txn_latch = tm.global_txn_latch - 1 },
      record after { locks = release_locks after.locks after.txn },
      commit-runs tm s logged
          (commit_items-skips s.txn.write_set (record s { txn = set_state s.txn committed })
            no_delete)
          ran (flush_log-flushed logged l.ready) (ground (arith, held)),
      record {
        state = ap (λ x. x.state) same;
        applied = ap (λ x. x.write_set) same;
        released = ap (λ x. release_locks x after.txn) (locks-flushed logged ∙ l.locks);
        shared = ap (λ x. x.shared_lock_set) same;
        exclusive = ap (λ x. x.exclusive_lock_set) same;
        number = ap (λ x. x.txn_id) same;
        lsn = λ e. number ∙ l.lsn e;
        durable = λ e.
            ap (λ m. m.persistent_lsn) (flushed_on logged (on e))
            ∙ l.last e
            ∙ sym (number ∙ l.lsn e);
        written = λ e. ap (λ m. m.offset) (flushed_on logged (on e));
        log = λ e.
            ap (λ m. on_file m.disk) (flushed_on logged (on e))
            ∙ commit_logs (ending s) logged e ready within ran;
        ready = flushed-IsReady logged l.ready;
        latch = omega (arith, held);
      },
    )
