-- ===== src/TxnManager/Logged.antt =====
-- The log records with which Begin and Commit of storage/access/transaction_manager.go start and end a
-- transaction.
use samehada_db.Base.{ℕ, true, returns, ◌≡◌, refl, arith, ap, Bool-cases, inl, inr}
use samehada_db.Log.{new_log_record_txn, begin_type, commit_type}
use samehada_db.Log.Append.{IsReady, Fits, append_log_record_total}
use samehada_db.Buffer.Pool.{clash}
use samehada_db.TableHeap.{Store}
use samehada_db.TxnManager.{log_txn}

-- A log record that starts or ends a transaction fits the buffer.
pub begin-Fits : (txn_id prev_lsn : ℕ) → Fits (new_log_record_txn txn_id prev_lsn begin_type)
unfolding new_log_record_txn
begin-Fits txn_id prev_lsn = record { exact = refl; small = omega arith }

pub commit-Fits : (txn_id prev_lsn : ℕ) → Fits (new_log_record_txn txn_id prev_lsn commit_type)
unfolding new_log_record_txn
commit-Fits txn_id prev_lsn = record { exact = refl; small = omega arith }

-- What `log_txn` leaves: only the log manager and the last LSN of the transaction change, and with logging
-- on the latter is that of the record.
pub record Logged (s s' : Store) : Type 0 where
  pub ready : IsReady s'.bpm.log_manager
  pub lsn : s.logging ≡ true → s'.txn.prev_lsn ≡ s.bpm.log_manager.next_lsn
  pub last : s.logging ≡ true → s'.bpm.log_manager.log_buffer_lsn ≡ s.bpm.log_manager.next_lsn
  pub txn : s'.txn ≡ record (s.txn) { prev_lsn = s'.txn.prev_lsn }
  pub locks : s'.locks ≡ s.locks
  pub logging : s'.logging ≡ s.logging

pub log_txn-Logged :
    (s : Store) (kind : ℕ)
    → IsReady s.bpm.log_manager
    → Fits (new_log_record_txn s.txn.txn_id s.txn.prev_lsn kind)
    → (s' : Store) × (log_txn s kind ≡ returns s') × Logged s s'
unfolding log_txn
log_txn-Logged s kind ready fits = elim (Bool-cases s.logging) [
  | inl on ↦
      let r = new_log_record_txn s.txn.txn_id s.txn.prev_lsn kind in
      let (log, written, ran, a) = append_log_record_total s.bpm.log_manager r ready fits in
      (
        record s {
          bpm = record (s.bpm) { log_manager = log };
          txn = record (s.txn) { prev_lsn = written.lsn };
        },
        simp (on, ran) refl,
        record {
          ready = a.ready;
          lsn = λ e. ap (λ x. x.lsn) a.numbered;
          last = λ e. a.last;
          txn = refl;
          locks = refl;
          logging = refl;
        },
      )
  | inr off ↦ (
    s,
    simp off refl,
    record {
      ready = ready;
      lsn = λ on. absurd (clash off on);
      last = λ on. absurd (clash off on);
      txn = refl;
      locks = refl;
      logging = refl;
    },
  )
]
