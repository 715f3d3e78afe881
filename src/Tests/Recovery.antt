-- ===== src/Tests/Recovery.antt =====
-- A log record of an insert that is read back.
use samehada_db.Base.{[], ◌∷◌, ◌++◌, true, none, returns, ◌≡◌, refl, arith, ℕ, length-replicate}
use samehada_db.Disk.{new_disk_manager}
use samehada_db.Buffer.{new_buffer_pool_manager}
use samehada_db.Recovery.Redo.{LogRecovery, new_log_recovery, goes_on_at, redo_reads}
use samehada_db.Recovery.Tail.{redo_reads-stands}
use samehada_db.Txn.{Tuple}
use samehada_db.Bytes.{le32}
use samehada_db.Log.{
  LogManager, new_log_manager, LogRecord, empty_record, zero_rid, new_log_record_insert_delete,
  insert_type, get_log_header_data, le_rid,
}
use samehada_db.Recovery.{deserialize_log_record}
use samehada_db.Recovery.Decode.{IsHeader, headed}
use samehada_db.Recovery.Records.{an_insert, kept_tuple, deserialize_log_record_reads}

abbrev two_letters : Tuple
two_letters = record { rid = none; size = 2; bytes = 8 ∷ 9 ∷ [] }

abbrev insert_record : LogRecord
insert_record = new_log_record_insert_delete 1 4294967295 insert_type zero_rid two_letters

insert_record-IsHeader : IsHeader insert_record
unfolding new_log_record_insert_delete
insert_record-IsHeader = record {
  size_fits = omega arith;
  positive = omega arith;
  lsn_fits = omega arith;
  txn_fits = omega arith;
  prev_fits = omega arith;
  type_fits = omega arith;
}

deserialize_log_record_reads_example :
    deserialize_log_record
      (record {
        backing =
            get_log_header_data insert_record
            ++ ((le_rid zero_rid ++ (le32 2 ++ (8 ∷ 9 ∷ []))) ++ (7 ∷ []));
        visible = 35;
      })
      empty_record
    ≡ returns (
      true,
      record (headed empty_record insert_record) {
        insert_rid = zero_rid;
        insert_tuple = kept_tuple empty_record.insert_tuple (8 ∷ 9 ∷ []);
      },
    )
unfolding new_log_record_insert_delete le_rid le32
deserialize_log_record_reads_example =
    deserialize_log_record_reads empty_record insert_record
      (record (headed empty_record insert_record) {
        insert_rid = zero_rid;
        insert_tuple = kept_tuple empty_record.insert_tuple (8 ∷ 9 ∷ []);
      })
      (le_rid zero_rid ++ (le32 2 ++ (8 ∷ 9 ∷ []))) (7 ∷ []) 35 insert_record-IsHeader
      (an_insert refl (omega arith, omega arith) (omega arith)) (omega arith)

-- A log file of three bytes.
abbrev short_log : LogManager
short_log = new_log_manager (record { content = 1 ∷ 2 ∷ 3 ∷ []; position = 0; num_flushes = 0 })

abbrev recovery0 : LogRecovery
recovery0 = new_log_recovery (new_buffer_pool_manager 2 (new_disk_manager []) short_log)

redo_reads-stands_example :
    (st' : LogRecovery) × (redo_reads 100 7 recovery0 0 ≡ returns (goes_on_at 0 st'))
unfolding new_log_recovery new_buffer_pool_manager new_log_manager
redo_reads-stands_example =
    redo_reads-stands 100 6 recovery0 0 (omega arith) (omega arith) (omega arith)
      (omega (arith, length-replicate {A = ℕ} 45056 0))
