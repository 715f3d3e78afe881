-- ===== src/Log/Durable.antt =====
-- What the log manager of recovery/log_manager.go has written, on the file and in its buffer, and what
-- AppendLogRecord adds to it.
use samehada_db.Base.{
  ℕ, zero, suc, ◌+◌, ◌≤◌, List, [], ◌∷◌, ◌++◌, length, take, drop, false, ltb, returns, ◌≡◌, refl,
  arith, ap, ◌∙◌, sym, Bool-cases, inl, inr, length-append, length-take,
}
use samehada_db.Bytes.{copy_at, slice, le32, u32, sub32}
use samehada_db.Bytes.Words.{write_at-copy_at}
use samehada_db.Log.{
  LogFile, LogManager, LogRecord, log_buffer_size, write_log, make_room, write_header,
  second_header, write_payload, append_in_room, append_log_record, get_log_header_data,
  new_log_record_txn, commit_type,
}
use samehada_db.Log.Append.{IsReady, swapped, flush-swapped}

-- The bytes of the file up to where the next write goes.
abbrev pub on_file : LogFile → List ℕ
on_file file = take file.position file.content

-- These, and what waits in the buffer.
abbrev pub logged_bytes : LogManager → List ℕ
logged_bytes m = on_file m.disk ++ take m.offset m.log_buffer

-- The next write does not leave a gap.
abbrev pub IsWithin : LogFile → Type 0
IsWithin file = file.position ≤ length file.content

append-nil : (xs : List ℕ) → xs ++ [] ≡ xs
append-nil [] = refl
append-nil (x ∷ xs) = ap (λ ys. x ∷ ys) (append-nil xs)

append_assoc : (xs ys zs : List ℕ) → (xs ++ ys) ++ zs ≡ xs ++ (ys ++ zs)
append_assoc [] ys zs = refl
append_assoc (x ∷ xs) ys zs = ap (λ l. x ∷ l) (append_assoc xs ys zs)

take-append : (xs ys zs : List ℕ) → take (length xs + length ys) (xs ++ (ys ++ zs)) ≡ xs ++ ys
take-append [] [] zs = refl
take-append [] (y ∷ ys) zs =
    ap (λ n. take n (y ∷ (ys ++ zs))) {y = suc (0 + length ys)} (omega arith)
    ∙ ap (λ l. y ∷ l) (take-append [] ys zs)
take-append (x ∷ xs) ys zs =
    ap (λ n. take n (x ∷ (xs ++ (ys ++ zs)))) {y = suc (length xs + length ys)} (omega arith)
    ∙ ap (λ l. x ∷ l) (take-append xs ys zs)

take-copy_at :
    (off : ℕ) (src dst : List ℕ)
    → off + length src ≤ length dst
    → take (off + length src) (copy_at off src dst) ≡ take off dst ++ src
unfolding copy_at
take-copy_at zero [] [] h = refl
take-copy_at zero (s ∷ src) [] h = absurd (omega (arith, h))
take-copy_at zero [] (d ∷ dst) h = refl
take-copy_at zero (s ∷ src) (d ∷ dst) h =
    ap (λ n. take n (copy_at 0 (s ∷ src) (d ∷ dst))) {y = suc (0 + length src)} (omega arith)
    ∙ ap (λ l. s ∷ l) (take-copy_at zero src dst (omega (arith, h)))
take-copy_at (suc off) src [] h = absurd (omega (arith, h))
take-copy_at (suc off) src (d ∷ dst) h =
    ap (λ n. take n (copy_at (suc off) src (d ∷ dst))) {y = suc (off + length src)} (omega arith)
    ∙ ap (λ l. d ∷ l) (take-copy_at off src dst (omega (arith, h)))

-- A write lengthens what is on the file.
on_file-write_log :
    (file : LogFile) (bytes : List ℕ)
    → IsWithin file
    → on_file (write_log file bytes) ≡ on_file file ++ bytes
unfolding write_log
on_file-write_log file bytes h =
    let long : length (on_file file) ≡ file.position =
      omega (arith, length-take file.position file.content, h) in
    ap
      (λ n.
        take (n + length bytes)
          (on_file file ++ (bytes ++ drop (file.position + length bytes) file.content)))
      (sym long)
    ∙ take-append (on_file file) bytes (drop (file.position + length bytes) file.content)

write_log-IsWithin :
    (file : LogFile) (bytes : List ℕ) → IsWithin file → IsWithin (write_log file bytes)
unfolding write_log
write_log-IsWithin file bytes h = omega (
  arith,
  h,
  length-take file.position file.content,
  length-append (on_file file) (bytes ++ drop (file.position + length bytes) file.content),
  length-append bytes (drop (file.position + length bytes) file.content),
)

-- A flush puts all that was written on the file.
pub on_file-swapped : (m : LogManager) → IsWithin m.disk → on_file (swapped m).disk ≡ logged_bytes m
unfolding slice
on_file-swapped m h =
    on_file-write_log m.disk (slice 0 m.offset m.log_buffer) h
    ∙ ap (λ n. on_file m.disk ++ take n m.log_buffer) (omega arith)

logged_bytes-swapped :
    (m : LogManager) → IsWithin m.disk → logged_bytes (swapped m) ≡ logged_bytes m
logged_bytes-swapped m h = append-nil (on_file (swapped m).disk) ∙ on_file-swapped m h

-- Room for a header is made without losing what was written.
make_room-logged_bytes :
    (m : LogManager)
    → IsReady m
    → IsWithin m.disk
    → (m' : LogManager) × (make_room m 20 ≡ returns m')
      × IsReady m'
      × (m'.offset + 20 ≤ log_buffer_size)
      × IsWithin m'.disk
      × (logged_bytes m' ≡ logged_bytes m)
      × (m'.next_lsn ≡ m.next_lsn)
unfolding make_room
make_room-logged_bytes m c h = elim (Bool-cases (ltb (sub32 log_buffer_size m.offset) 20)) [
  | inl e ↦ (
    swapped m,
    rw e (flush-swapped m c),
    record { log_length = c.flush_length; flush_length = c.log_length; within = omega arith },
    omega arith,
    write_log-IsWithin m.disk (slice 0 m.offset m.log_buffer) h,
    logged_bytes-swapped m h,
    refl,
  )
  | inr e ↦ (m, rw e refl, c, ground arith, h, refl, refl)
]

-- The header of a COMMIT record in the room made for it.
module _ (m : LogManager) (txn_id prev_lsn : ℕ) (c : IsReady m)
    (room : m.offset + 20 ≤ log_buffer_size) where
  numbered : LogRecord
  unfolding new_log_record_txn
  numbered = record (new_log_record_txn txn_id prev_lsn commit_type) { lsn = m.next_lsn }

  with_header : LogManager
  unfolding numbered
  with_header = record m {
    next_lsn = u32 (m.next_lsn + 1);
    log_buffer_lsn = m.next_lsn;
    offset = u32 (m.offset + 20);
    log_buffer = copy_at m.offset (get_log_header_data numbered) m.log_buffer;
  }

  append_in_room-commit :
      append_in_room m (new_log_record_txn txn_id prev_lsn commit_type)
      ≡ returns (with_header, numbered)
  unfolding append_in_room write_header second_header write_payload new_log_record_txn numbered
      with_header
  append_in_room-commit =
      let no_flush : ltb (sub32 log_buffer_size m.offset) 20 ≡ false = ground (arith, room) in
      simp
        (
          write_at-copy_at m.log_buffer m.offset (get_log_header_data numbered)
              (omega (arith, room, c.log_length)),
          no_flush,
        )
        refl

  logged_bytes-with_header :
      logged_bytes with_header ≡ logged_bytes m ++ get_log_header_data numbered
  unfolding with_header get_log_header_data le32
  logged_bytes-with_header =
      ap (λ n. on_file m.disk ++ take n with_header.log_buffer)
        {y = m.offset + length (get_log_header_data numbered)} (omega (arith, room))
      ∙ ap (λ l. on_file m.disk ++ l)
          (take-copy_at m.offset (get_log_header_data numbered) m.log_buffer
            (omega (arith, room, c.log_length)))
      ∙ sym (
          append_assoc (on_file m.disk) (take m.offset m.log_buffer) (get_log_header_data numbered))

-- AppendLogRecord of a COMMIT record leaves, behind all that was written, the bytes of its header.
pub append_log_record-commit :
    (m : LogManager) (txn_id prev_lsn : ℕ)
    → IsReady m
    → IsWithin m.disk
    → let r = record (new_log_record_txn txn_id prev_lsn commit_type) { lsn = m.next_lsn } in
      (m' : LogManager) × (append_log_record m (new_log_record_txn txn_id prev_lsn commit_type)
        ≡ returns (m', r))
      × IsWithin m'.disk
      × (logged_bytes m' ≡ logged_bytes m ++ get_log_header_data r)
unfolding append_log_record numbered with_header
append_log_record-commit m txn_id prev_lsn c h =
    let (m₁, ran, c₁, room, h₁, same, next) = make_room-logged_bytes m c h in
    (
      with_header m₁ txn_id prev_lsn c₁ room,
      rw ran (
          append_in_room-commit m₁ txn_id prev_lsn c₁ room
          ∙ ap
              (λ n. returns (
                with_header m₁ txn_id prev_lsn c₁ room,
                record (new_log_record_txn txn_id prev_lsn commit_type) { lsn = n },
              ))
              next),
      h₁,
      logged_bytes-with_header m₁ txn_id prev_lsn c₁ room
          ∙ ap (λ l. l ++ get_log_header_data (numbered m₁ txn_id prev_lsn c₁ room)) same
          ∙ ap
              (λ n.
                logged_bytes m
                ++ get_log_header_data
                    (record (new_log_record_txn txn_id prev_lsn commit_type) { lsn = n }))
              next,
    )
