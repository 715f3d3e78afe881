-- ===== src/Recovery/Records.antt =====
-- Whole log records in the format of recovery/log_record.go, read back by `DeserializeLogRecord`.
use samehada_db.Base.{
  ℕ, suc, ◌+◌, ◌-◌, ◌≤◌, ◌<◌, List, [], ◌++◌, true, false, ◌||◌, length, take, leb, ltb, ◌==◌,
  returns, ◌≡◌, refl, arith, ◌⊎◌, inl, inr,
}
use samehada_db.Ids.{Rid}
use samehada_db.Txn.{Tuple}
use samehada_db.Bytes.{le32, word32}
use samehada_db.Log.{
  LogRecord, header_size, insert_type, apply_delete_type, mark_delete_type, rollback_delete_type,
  new_page_type, begin_type, commit_type, abort_type, get_log_header_data, le_rid,
}
use samehada_db.Recovery.{Slice, tail_from, read_rid, read_payload, deserialize_log_record}
use samehada_db.Recovery.Decode.{
  deserialize_from-format, seen_word, IsHeader, headed, read_log_header-format,
}

abbrev pub IsRid : Rid → Type 0
IsRid rid = (rid.page_id < 4294967296) × (rid.slot_num < 4294967296)

rid_of_words :
    (rid old : Rid) (bytes : List ℕ)
    → 8 ≤ length bytes
    → word32 bytes 0 ≡ rid.page_id
    → word32 bytes 4 ≡ rid.slot_num
    → read_rid old bytes ≡ rid
unfolding read_rid
rid_of_words rid old bytes h p s =
    let long : leb 8 (length bytes) ≡ true = ground arith in rw (long, p, s) refl

seen_rid :
    (rid old : Rid) (rest : List ℕ) (n : ℕ)
    → IsRid rid
    → 8 ≤ n
    → read_rid old (take n (le_rid rid ++ rest)) ≡ rid
unfolding le_rid le32 word32
seen_rid rid old rest (suc (suc (suc (suc (suc (suc (suc (suc n)))))))) (p, s) k =
    rid_of_words rid old _ (omega arith) (omega (arith, p)) (omega (arith, s))
seen_rid rid old rest n h k = absurd (omega arith)

tail_header :
    (r : LogRecord) (rest : List ℕ) (n : ℕ)
    → 20 ≤ n
    → tail_from (record { backing = get_log_header_data r ++ rest; visible = n }) header_size
      ≡ returns (record { backing = rest; visible = n - 20 })
unfolding tail_from get_log_header_data le32
tail_header r rest n h = ground arith

tail_rid :
    (r : LogRecord) (rid : Rid) (rest : List ℕ) (n : ℕ)
    → 28 ≤ n
    → tail_from
        (record { backing = get_log_header_data r ++ (le_rid rid ++ rest); visible = n })
        (header_size + 8)
      ≡ returns (record { backing = rest; visible = n - 28 })
unfolding tail_from get_log_header_data le_rid le32
tail_rid r rid rest n h = ground arith

abbrev pub kept_tuple : Tuple → List ℕ → Tuple
kept_tuple t bytes = record t { size = length bytes; bytes = bytes }

-- The bytes behind the header of a record `r`, and what stands in `old` when they have been read.
pub data Payload (old r : LogRecord) : List ℕ → LogRecord → Type 0 where
  an_insert :
      r.log_record_type ≡ insert_type
      → IsRid r.insert_rid
      → length r.insert_tuple.bytes < 4294967296
      → Payload old r
          (le_rid r.insert_rid ++ (le32 (length r.insert_tuple.bytes) ++ r.insert_tuple.bytes))
          (record (headed old r) {
            insert_rid = r.insert_rid;
            insert_tuple = kept_tuple old.insert_tuple r.insert_tuple.bytes;
          })
  a_delete :
      (r.log_record_type ≡ apply_delete_type)
        ⊎ ((r.log_record_type ≡ mark_delete_type) ⊎ (r.log_record_type ≡ rollback_delete_type))
      → IsRid r.delete_rid
      → length r.delete_tuple.bytes < 4294967296
      → Payload old r
          (le_rid r.delete_rid ++ (le32 (length r.delete_tuple.bytes) ++ r.delete_tuple.bytes))
          (record (headed old r) {
            delete_rid = r.delete_rid;
            delete_tuple = kept_tuple old.delete_tuple r.delete_tuple.bytes;
          })
  a_page :
      r.log_record_type ≡ new_page_type
      → r.prev_page_id < 4294967296
      → Payload old r
          (le32 r.prev_page_id)
          (record (headed old r) { prev_page_id = r.prev_page_id })
  a_mark :
      (r.log_record_type ≡ begin_type)
        ⊎ ((r.log_record_type ≡ commit_type) ⊎ (r.log_record_type ≡ abort_type))
      → Payload old r [] (headed old r)

-- What is read behind the header of an insert, into any record `h` of that type.
read_insert :
    (r h : LogRecord) (rid : Rid) (bytes rest : List ℕ) (n : ℕ)
    → h.log_record_type ≡ insert_type
    → IsRid rid
    → length bytes < 4294967296
    → 32 ≤ n
    → read_payload
        (record {
          backing =
              get_log_header_data r ++ (le_rid rid ++ (le32 (length bytes) ++ (bytes ++ rest)));
          visible = n;
        })
        h
      ≡ returns (record h { insert_rid = rid; insert_tuple = kept_tuple h.insert_tuple bytes })
unfolding read_payload
read_insert r h rid bytes rest n kind fits short room =
    simp
      (
        kind,
        tail_header r (le_rid rid ++ (le32 (length bytes) ++ (bytes ++ rest))) n (omega arith),
        tail_rid r rid (le32 (length bytes) ++ (bytes ++ rest)) n (omega arith),
        deserialize_from-format h.insert_tuple bytes rest (n - 28) short (omega arith),
        seen_rid rid h.insert_rid (le32 (length bytes) ++ (bytes ++ rest)) (n - 20) fits
            (omega arith),
      )
      refl

read_delete :
    (r h : LogRecord) (rid : Rid) (bytes rest : List ℕ) (n : ℕ)
    → (h.log_record_type == insert_type) ≡ false
    → (h.log_record_type == apply_delete_type
        || (h.log_record_type == mark_delete_type || h.log_record_type == rollback_delete_type))
      ≡ true
    → IsRid rid
    → length bytes < 4294967296
    → 32 ≤ n
    → read_payload
        (record {
          backing =
              get_log_header_data r ++ (le_rid rid ++ (le32 (length bytes) ++ (bytes ++ rest)));
          visible = n;
        })
        h
      ≡ returns (record h { delete_rid = rid; delete_tuple = kept_tuple h.delete_tuple bytes })
unfolding read_payload
read_delete r h rid bytes rest n other kind fits short room =
    simp
      (
        other,
        kind,
        tail_header r (le_rid rid ++ (le32 (length bytes) ++ (bytes ++ rest))) n (omega arith),
        tail_rid r rid (le32 (length bytes) ++ (bytes ++ rest)) n (omega arith),
        deserialize_from-format h.delete_tuple bytes rest (n - 28) short (omega arith),
        seen_rid rid h.delete_rid (le32 (length bytes) ++ (bytes ++ rest)) (n - 20) fits
            (omega arith),
      )
      refl

read_page :
    (r h : LogRecord) (page : ℕ) (rest : List ℕ) (n : ℕ)
    → h.log_record_type ≡ new_page_type
    → page < 4294967296
    → 24 ≤ n
    → read_payload
        (record { backing = get_log_header_data r ++ (le32 page ++ rest); visible = n })
        h
      ≡ returns (record h { prev_page_id = page })
unfolding read_payload
read_page r h page rest n kind fits room =
    simp
      (
        kind,
        tail_header r (le32 page ++ rest) n (omega arith),
        seen_word page h.prev_page_id rest (n - 20) fits (omega arith),
      )
      refl

read_mark :
    (s : Slice) (h : LogRecord)
    → (h.log_record_type ≡ begin_type)
      ⊎ ((h.log_record_type ≡ commit_type) ⊎ (h.log_record_type ≡ abort_type))
    → read_payload s h ≡ returns h
unfolding read_payload
read_mark s h (inl kind) = simp kind refl
read_mark s h (inr (inl kind)) = simp kind refl
read_mark s h (inr (inr kind)) = simp kind refl

-- The call on a slice whose payload is read as `result`.
deserializes :
    (old r result : LogRecord) (rest : List ℕ) (n : ℕ)
    → IsHeader r
    → 20 ≤ n
    → read_payload (record { backing = get_log_header_data r ++ rest; visible = n }) (headed old r)
      ≡ returns result
    → deserialize_log_record (record { backing = get_log_header_data r ++ rest; visible = n }) old
      ≡ returns (true, result)
unfolding deserialize_log_record
deserializes old r result rest n header room e =
    let long : ltb n header_size ≡ false = ground arith in
    let some_size : (r.size == 0) ≡ false = ground (arith, header.positive) in
    simp (long, read_log_header-format old r rest n header, some_size, e) refl

-- `DeserializeLogRecord` on the bytes of an INSERT, NEWPAGE, BEGIN, COMMIT or ABORT record or of one of
-- the three delete records, whatever follows them, returns true and puts the header and the fields of
-- that type into the record it is given, where the words of the record have 32 bits, its size is not
-- 0 and the slice is at least as long as the record.
pub deserialize_log_record_reads :
    (old r result : LogRecord) (payload rest : List ℕ) (n : ℕ)
    → IsHeader r
    → Payload old r payload result
    → header_size + length payload ≤ n
    → deserialize_log_record
        (record { backing = get_log_header_data r ++ (payload ++ rest); visible = n })
        old
      ≡ returns (true, result)
unfolding le32 le_rid
deserialize_log_record_reads old r result payload rest n header (an_insert kind fits short) room =
    deserializes old r result (payload ++ rest) n header (omega (arith, room)) (
      read_insert r (headed old r) r.insert_rid r.insert_tuple.bytes rest n kind fits short
        (omega (arith, room)))
deserialize_log_record_reads old r result payload rest n header (a_delete kind fits short) room =
    deserializes old r result (payload ++ rest) n header (omega (arith, room)) (
      read_delete r (headed old r) r.delete_rid r.delete_tuple.bytes rest n (other kind)
        (delete kind) fits short (omega (arith, room)))
  where
    other :
        (r.log_record_type ≡ apply_delete_type)
          ⊎ ((r.log_record_type ≡ mark_delete_type) ⊎ (r.log_record_type ≡ rollback_delete_type))
        → (r.log_record_type == insert_type) ≡ false
    other k = ground arith

    delete :
        (r.log_record_type ≡ apply_delete_type)
          ⊎ ((r.log_record_type ≡ mark_delete_type) ⊎ (r.log_record_type ≡ rollback_delete_type))
        → (r.log_record_type == apply_delete_type
            || (r.log_record_type == mark_delete_type || r.log_record_type == rollback_delete_type))
          ≡ true
    delete k = ground arith
deserialize_log_record_reads old r result payload rest n header (a_page kind fits) room =
    deserializes old r result (payload ++ rest) n header (omega (arith, room))
      (read_page r (headed old r) r.prev_page_id rest n kind fits (omega (arith, room)))
deserialize_log_record_reads old r result payload rest n header (a_mark kind) room =
    deserializes old r result (payload ++ rest) n header (omega (arith, room))
      (read_mark _ (headed old r) kind)
