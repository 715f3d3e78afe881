-- ===== src/Recovery/Tail.antt =====
-- `Redo` of recovery/log_recovery/log_recovery.go on a log file that ends within a record.
use samehada_db.Base.{
  ℕ, zero, suc, ◌+◌, ◌-◌, ◌≤◌, ◌<◌, List, true, false, length, leb, ltb, returns, ◌≡◌, refl, arith,
  ap, ◌∙◌,
}
use samehada_db.Bytes.{slice, u32}
use samehada_db.Bytes.Slices.{length-copy_at, length-slice}
use samehada_db.Log.{LogFile, LogRecord, empty_record}
use samehada_db.Disk.{offset_ge}
use samehada_db.Recovery.{deserialize_log_record}
use samehada_db.Recovery.Redo.{
  LogRead, read_log, LogRecovery, buffer_part, read_to, redo_records, goes_on_at, redo_reads,
}

-- A read of fewer bytes than a header, behind which nothing follows.
record ShortRead (file : LogFile) (buffer : List ℕ) (answer : LogRead) : Type 0 where
  ok : answer.ok ≡ true
  content : answer.file.content ≡ file.content
  same_length : length answer.buffer ≡ length buffer
  short : answer.count < 20

read_log-ShortRead :
    (file : LogFile) (buffer : List ℕ) (offset : ℕ)
    → offset < length file.content
    → length file.content < offset + 20
    → length file.content < 2147483648
    → 20 ≤ length buffer
    → ShortRead file buffer (read_log file buffer offset)
unfolding read_log
read_log-ShortRead file buffer offset h k small wide =
    let before : offset_ge offset (length file.content) ≡ false = ground arith in
    let low : ltb offset 2147483648 ≡ true = ground arith in
    let count : length (slice offset (offset + length buffer) file.content)
        ≡ length file.content - offset =
      omega (arith, length-slice offset (offset + length buffer) file.content) in
    rw before (
      rw low (record {
        ok = ground (arith, count);
        content = refl;
        same_length = length-copy_at 0 (slice offset (offset + length buffer) file.content) buffer;
        short = omega (arith, count);
      }))

-- The inner loop stops at once.
short_records :
    (records : ℕ) (st : LogRecovery) (offset count : ℕ) (r : LogRecord)
    → count < 20
    → redo_records (suc records) st offset count 0 r ≡ returns (read_to 0 st)
unfolding redo_records buffer_part deserialize_log_record
short_records records st offset count r short =
    let visible : ltb (count - 0) 20 ≡ true = ground arith in
    let there : leb 0 count ≡ true = ground arith in simp (there, visible) refl

abbrev after_read : LogRecovery → LogRead → LogRecovery
after_read st answer = record st {
  bpm = record (st.bpm) { log_manager = record (st.bpm.log_manager) { disk = answer.file } };
  log_buffer = answer.buffer;
}

abbrev read_at : LogRecovery → ℕ → LogRead
read_at st offset = read_log st.bpm.log_manager.disk st.log_buffer offset

one_read :
    (rounds records : ℕ) (st : LogRecovery) (offset : ℕ)
    → (read_at st offset).ok ≡ true
    → redo_records records
        (after_read st (read_at st offset))
        offset
        (read_at st offset).count
        0
        empty_record
      ≡ returns (read_to 0 (after_read st (read_at st offset)))
    → redo_reads (suc rounds) records st offset
      ≡ redo_reads rounds records (after_read st (read_at st offset)) (u32 (offset + 0))
unfolding redo_reads
one_read rounds records st offset ok inner = simp (redo_reads, ok, inner) refl

-- Where fewer bytes than a header of a record are left of a log file of less than 2 GB, `Redo` reads them again and again:
-- after any number of reads, whatever the number of rounds of its inner loop is, it stands where it stood.
pub redo_reads-stands :
    (rounds records : ℕ) (st : LogRecovery) (offset : ℕ)
    → offset < length st.bpm.log_manager.disk.content
    → length st.bpm.log_manager.disk.content < offset + 20
    → length st.bpm.log_manager.disk.content < 2147483648
    → 20 ≤ length st.log_buffer
    → (st' : LogRecovery) × (redo_reads rounds (suc records) st offset
        ≡ returns (goes_on_at offset st'))
unfolding redo_reads
redo_reads-stands zero records st offset h k small wide = (st, refl)
redo_reads-stands (suc rounds) records st offset h k small wide =
    let answer = read_log st.bpm.log_manager.disk st.log_buffer offset in
    let s = read_log-ShortRead st.bpm.log_manager.disk st.log_buffer offset h k small wide in
    let same : length answer.file.content ≡ length st.bpm.log_manager.disk.content =
      ap (λ c. length c) s.content in
    let (st', ran) =
      redo_reads-stands rounds records (after_read st answer) offset (omega (arith, same))
        (omega (arith, same)) (omega (arith, same)) (omega (arith, s.same_length)) in
    (
      st',
      one_read rounds (suc records) st offset s.ok
            (short_records records (after_read st answer) offset answer.count empty_record s.short)
          ∙ ap (λ o. redo_reads rounds (suc records) (after_read st answer) o) (omega arith)
          ∙ ran,
    )
