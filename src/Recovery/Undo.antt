-- ===== src/Recovery/Undo.antt =====
-- The second pass of recovery/log_recovery/log_recovery.go: the records of the transactions that did not
-- end are undone, from the last one of each on. The order in which Go gives the transactions of its map,
-- and the pages that are flushed in the end, are given.
use samehada_db.Base.{
  ℕ, zero, suc, List, [], ◌∷◌, true, false, ◌==◌, if◌then◌else◌, Option, none, some, Outcome,
  returns, ◌>>=◌,
}
use samehada_db.Log.{
  LogRecord, empty_record, insert_type, apply_delete_type, mark_delete_type, rollback_delete_type,
}
use samehada_db.Page.{Page}
use samehada_db.Buffer.{flush_all_pages}
use samehada_db.TablePage.{Env, insert_tuple, mark_delete, apply_delete, rollback_delete}
use samehada_db.TablePage.Update.{update_tuple}
use samehada_db.Recovery.{deserialize_log_record}
use samehada_db.Recovery.Redo.{
  LogRecovery, read_log, recovery_env, changed_rid, is_page_change, change_in_pool, buffer_part,
}

-- The opposite of a record on its page.
unfoldable pub undo_change : Env → Page → LogRecord → Outcome Page
undo_change e p r =
    if r.log_record_type == insert_type
    then (do (_, q) ← apply_delete e p r.insert_rid; returns q)
    else if r.log_record_type == apply_delete_type
    then (do
      reply ← insert_tuple e p (record (r.delete_tuple) { rid = some r.delete_rid })
      returns reply.page)
    else if r.log_record_type == mark_delete_type
    then (do (_, q) ← rollback_delete e p r.delete_rid; returns q)
    else if r.log_record_type == rollback_delete_type
    then (do reply ← mark_delete e p r.delete_rid; returns reply.page)
    else (do
      reply ← update_tuple e p r.old_tuple none none r.new_tuple r.update_rid
      returns reply.page)

-- One round of the chain of a transaction: its record is read again from the file. A read that fails, or a
-- record that cannot be read, leaves the record of the round before.
unfoldable pub undo_one : LogRecovery → LogRecord → ℕ → Outcome (LogRecovery × LogRecord)
undo_one st r lsn =
    let answer = read_log st.bpm.log_manager.disk st.log_buffer (st.lsn_mapping lsn) in
    let st₁ = record st {
      bpm = record (st.bpm) { log_manager = record (st.bpm.log_manager) { disk = answer.file } };
      log_buffer = answer.buffer;
    } in
    (do
      part ← buffer_part st₁.log_buffer 0 answer.count
      (_, r') ← deserialize_log_record part r
      if is_page_change r'.log_record_type
          then (do
            b ←
                change_in_pool (λ p. undo_change (recovery_env st₁.bpm.log_manager) p r') st₁.bpm
                  (changed_rid r').page_id
            returns (record st₁ { bpm = b }, r'))
          else returns (st₁, r'))

-- The chain, to common.InvalidLSN; none where the rounds are used up.
unfoldable pub undo_chain :
    ℕ → LogRecovery → LogRecord → ℕ → Outcome (Option (LogRecovery × LogRecord))
undo_chain zero st r lsn = if lsn == 4294967295 then returns (some (st, r)) else returns none
undo_chain (suc rounds) st r lsn = elim (lsn == 4294967295) [
  | true ↦ returns (some (st, r))
  | false ↦ (do (st', r') ← undo_one st r lsn; undo_chain rounds st' r' r'.prev_lsn)
]

unfoldable pub undo_txns : ℕ → List ℕ → LogRecovery → LogRecord → Outcome (Option LogRecovery)
undo_txns rounds [] st r = returns (some st)
undo_txns rounds (t ∷ ts) st r = elim (st.active_txn t) [
  | none ↦ undo_txns rounds ts st r
  | some lsn ↦ (do
    chain ← undo_chain rounds st r lsn
    elim chain [ none ↦ returns none | some (st', r') ↦ undo_txns rounds ts st' r' ])
]

unfoldable pub undo : ℕ → List ℕ → List ℕ → LogRecovery → Outcome (Option LogRecovery)
undo rounds txns page_ids st = do
  undone ← undo_txns rounds txns st empty_record
  elim undone [
    | none ↦ returns none
    | some st' ↦ (do b ← flush_all_pages st'.bpm page_ids; returns (some (record st' { bpm = b })))
  ]
