-- ===== src/Log/Append.antt =====
-- `AppendLogRecord` of recovery/log_manager.go never fails on a record that fits the buffer.
use samehada_db.Base.{
  ℕ, ◌+◌, ◌≤◌, List, Bool, true, false, ◌||◌, length, take, ltb, ◌==◌, if◌then◌else◌, Outcome,
  returns, ◌>>=◌, ◌≡◌, refl, arith, Bool-cases, inl, inr, ap, ◌∙◌, le→leb,
}
use samehada_db.Bytes.{copy_at, slice, le32, u32, sub32, write_at}
use samehada_db.Bytes.Slices.{length-copy_at}
use samehada_db.Bytes.Words.{write_at-copy_at, slice_at-slice}
use samehada_db.Log.{
  LogManager, LogRecord, log_buffer_size, header_size, insert_type, apply_delete_type,
  mark_delete_type, rollback_delete_type, update_type, new_page_type, flush, write_log, make_room,
  write_header, second_header, serialize_to, write_payload, append_log_record, append_in_room,
  get_log_header_data, le_rid,
}
use samehada_db.Txn.{Tuple}

pub record IsReady (m : LogManager) : Type 0 where
  pub log_length : length m.log_buffer ≡ log_buffer_size
  pub flush_length : length m.flush_buffer ≡ log_buffer_size
  pub within : m.offset ≤ log_buffer_size

-- The bytes that a record takes, by its type.
abbrev pub needed : LogRecord → ℕ
needed r =
    if r.log_record_type == insert_type
    then 32 + r.insert_tuple.size
    else if r.log_record_type == apply_delete_type
        || (r.log_record_type == mark_delete_type || r.log_record_type == rollback_delete_type)
    then 32 + r.delete_tuple.size
    else if r.log_record_type == update_type
    then 36 + r.old_tuple.size + r.new_tuple.size
    else if r.log_record_type == new_page_type
    then 24
    else 20

-- The size in the header is the record's own, and the buffer can hold it.
pub record Fits (r : LogRecord) : Type 0 where
  pub exact : r.size ≡ needed r
  pub small : needed r ≤ log_buffer_size

-- A manager that stands ready after `m`, with the same next number, and room for `n` bytes.
pub record HasRoom (m m' : LogManager) (n : ℕ) : Type 0 where
  pub ready : IsReady m'
  next : m'.next_lsn ≡ m.next_lsn
  room : m'.offset + n ≤ log_buffer_size

-- The buffers change places, and what the full one held is on the disk.
abbrev pub swapped : LogManager → LogManager
swapped m = record m {
  offset = 0;
  log_buffer = m.flush_buffer;
  flush_buffer = m.log_buffer;
  disk = write_log m.disk (slice 0 m.offset m.log_buffer);
  persistent_lsn = m.log_buffer_lsn;
}

pub flush-swapped : (m : LogManager) → IsReady m → flush m ≡ returns (swapped m)
unfolding flush
flush-swapped m c = rw (slice_at-slice m.log_buffer 0 m.offset (omega arith) (omega arith))

pub flush-ready :
    (m : LogManager) (n : ℕ)
    → IsReady m
    → n ≤ log_buffer_size
    → (m' : LogManager) × (flush m ≡ returns m') × HasRoom m m' n
flush-ready m n c h = (
  swapped m,
  flush-swapped m c,
  record {
    ready = record {
      log_length = c.flush_length;
      flush_length = c.log_length;
      within = omega arith;
    };
    next = refl;
    room = omega arith;
  },
)

make_room-ready :
    (m : LogManager) (n : ℕ)
    → IsReady m
    → n ≤ log_buffer_size
    → (m' : LogManager) × (make_room m n ≡ returns m') × HasRoom m m' n
unfolding make_room
make_room-ready m n c h = elim (Bool-cases (ltb (sub32 log_buffer_size m.offset) n)) [
  | inl e ↦ rw e (flush-ready m n c h)
  | inr e ↦ (m, rw e, record { ready = c; next = refl; room = ground arith })
]

write_header-ready :
    (m : LogManager) (r : LogRecord) (n : ℕ)
    → IsReady m
    → m.offset + n ≤ log_buffer_size
    → (m' : LogManager) × (write_header m r ≡ returns m') × HasRoom m m' n
unfolding write_header
write_header-ready m r n c h = (
  record m { log_buffer = copy_at m.offset (get_log_header_data r) m.log_buffer },
  rw (write_at-copy_at m.log_buffer m.offset (get_log_header_data r) (omega arith)),
  record {
    ready = record {
      log_length = rw length-copy_at c.log_length;
      flush_length = c.flush_length;
      within = c.within;
    };
    next = refl;
    room = h;
  },
)

second_header-ready :
    (m : LogManager) (r : LogRecord)
    → IsReady m
    → r.size ≤ log_buffer_size
    → (m' : LogManager) × (second_header m r ≡ returns m') × HasRoom m m' r.size
unfolding second_header
second_header-ready m r c h = elim (Bool-cases (ltb (sub32 log_buffer_size m.offset) r.size)) [
  | inr e ↦ (m, rw e, record { ready = c; next = refl; room = ground arith })
  | inl e ↦
      let (m₁, flushed, a) = flush-ready m r.size c h in
      let (m₂, written, b) = write_header-ready m₁ r r.size a.ready a.room in
      (
        m₂,
        rw (e, flushed, written),
        record { ready = b.ready; next = b.next ∙ a.next; room = b.room },
      )
]

-- A step of the payload keeps the length of the buffer.
abbrev Keeps : Outcome (List ℕ) → List ℕ → Type 0
Keeps m buffer = (b : List ℕ) × (m ≡ returns b) × (length b ≡ length buffer)

write_at-Keeps :
    (buffer : List ℕ) (at : ℕ) (source : List ℕ)
    → at ≤ length buffer
    → Keeps (write_at buffer at source) buffer
write_at-Keeps buffer at source h =
    (copy_at at source buffer, write_at-copy_at buffer at source h, length-copy_at at source buffer)

serialize_to-Keeps :
    (tuple : Tuple) (pos : ℕ) (buffer : List ℕ)
    → pos + 4 + tuple.size ≤ length buffer
    → Keeps (serialize_to tuple pos buffer) buffer
unfolding serialize_to
serialize_to-Keeps tuple pos buffer h = (
  copy_at (pos + 4) (take tuple.size tuple.bytes) (copy_at pos (le32 tuple.size) buffer),
  rw (write_at-copy_at buffer pos (le32 tuple.size) (omega arith), le→leb h),
  rw (length-copy_at, length-copy_at),
)

Keeps-bind :
    (m : Outcome (List ℕ)) (f : List ℕ → Outcome (List ℕ)) (buffer : List ℕ)
    → Keeps m buffer
    → ((b : List ℕ) → length b ≡ length buffer → Keeps (f b) buffer)
    → Keeps (m >>= f) buffer
Keeps-bind m f buffer (b, e, l) k = rw e (k b l)

Keeps-step :
    (m : Outcome (List ℕ)) (b buffer : List ℕ)
    → length b ≡ length buffer
    → Keeps m b
    → Keeps m buffer
Keeps-step m b buffer l (c, e, k) = (c, e, k ∙ l)

Keeps-if :
    (t : Bool) (m n : Outcome (List ℕ)) (buffer : List ℕ)
    → (t ≡ true → Keeps m buffer)
    → (t ≡ false → Keeps n buffer)
    → Keeps (if t then m else n) buffer
Keeps-if true m n buffer yes_case no_case = yes_case refl
Keeps-if false m n buffer yes_case no_case = no_case refl

serialize_behind :
    (tuple : Tuple) (pos at : ℕ) (b buffer : List ℕ)
    → at ≡ pos
    → length b ≡ length buffer
    → pos + 4 + tuple.size ≤ length buffer
    → Keeps (serialize_to tuple at b) buffer
serialize_behind tuple pos at b buffer e l h =
    Keeps-step (serialize_to tuple at b) b buffer l (serialize_to-Keeps tuple at b (omega arith))

with_rid-Keeps :
    (rid : List ℕ) (tuple : Tuple) (pos : ℕ) (buffer : List ℕ)
    → pos + 12 + tuple.size ≤ length buffer
    → length buffer ≤ log_buffer_size
    → Keeps (write_at buffer pos rid >>= λ b. serialize_to tuple (u32 (pos + 8)) b) buffer
with_rid-Keeps rid tuple pos buffer h k =
    Keeps-bind _ (λ b. serialize_to tuple (u32 (pos + 8)) b) buffer
      (write_at-Keeps buffer pos rid (omega arith))
      λ b l. serialize_behind tuple (pos + 8) _ b buffer (omega arith) l (omega arith)

write_payload-Keeps :
    (r : LogRecord) (pos : ℕ) (buffer : List ℕ)
    → pos + needed r ≤ length buffer + 20
    → length buffer ≡ log_buffer_size
    → Keeps (write_payload r pos buffer) buffer
unfolding write_payload
write_payload-Keeps r pos buffer h k =
    Keeps-if (r.log_record_type == insert_type) _ _ buffer
      (λ e.
        with_rid-Keeps (le_rid r.insert_rid) r.insert_tuple pos buffer (ground arith) (omega arith))
      λ e₁.
        Keeps-if
          (r.log_record_type == apply_delete_type
            || (r.log_record_type == mark_delete_type || r.log_record_type == rollback_delete_type))
          _ _ buffer
          (λ e.
            with_rid-Keeps (le_rid r.delete_rid) r.delete_tuple pos buffer (ground arith)
              (omega arith))
          λ e₂.
            Keeps-if (r.log_record_type == update_type) _ _ buffer
              (λ e. update_payload (ground arith))
              λ e₃.
                Keeps-if (r.log_record_type == new_page_type) _ _ buffer
                  (λ e. write_at-Keeps buffer pos (le32 r.prev_page_id) (ground arith))
                  λ e₄. (buffer, refl, refl)
  where
    update_payload :
        pos + 16 + r.old_tuple.size + r.new_tuple.size ≤ length buffer
        → Keeps
            (write_at buffer pos (le_rid r.update_rid) >>= λ b.
              serialize_to r.old_tuple (u32 (pos + 8)) b >>= λ c.
              serialize_to r.new_tuple (u32 (pos + 8 + r.old_tuple.size + 4)) c)
            buffer
    update_payload room =
        Keeps-bind _ _ buffer (write_at-Keeps buffer pos (le_rid r.update_rid) (omega arith)) λ b l.
          Keeps-bind _ _ buffer
            (serialize_behind r.old_tuple (pos + 8) _ b buffer (omega arith) l (omega arith))
            λ c l'.
              serialize_behind r.new_tuple (pos + 8 + r.old_tuple.size + 4) _ c buffer (omega arith)
                l' (omega arith)

-- What one call leaves: a manager that stands ready, and the record under the next number.
pub record Appended (m m' : LogManager) (r r' : LogRecord) : Type 0 where
  pub ready : IsReady m'
  pub numbered : r' ≡ record r { lsn = m.next_lsn }
  pub next : m'.next_lsn ≡ u32 (m.next_lsn + 1)
  pub last : m'.log_buffer_lsn ≡ m.next_lsn

-- The last part of the call, when the room is there.
append_payload :
    (m m₃ : LogManager) (r : LogRecord)
    → Fits r
    → HasRoom (record m { next_lsn = u32 (m.next_lsn + 1) }) m₃ r.size
    → (b : List ℕ) × (write_payload
          (record r { lsn = m.next_lsn })
          (u32 (m₃.offset + header_size))
          m₃.log_buffer
        ≡ returns b)
      × Appended m
          (record m₃ {
            log_buffer_lsn = m.next_lsn;
            offset = u32 (m₃.offset + r.size);
            log_buffer = b;
          })
          r
          (record r { lsn = m.next_lsn })
append_payload m m₃ r fits s₃ =
    let at : u32 (m₃.offset + header_size) ≡ m₃.offset + 20 = omega (arith, s₃.ready.within) in
    let (b, e, l) =
      write_payload-Keeps (record r { lsn = m.next_lsn }) (u32 (m₃.offset + header_size))
        m₃.log_buffer (omega (arith, at, s₃.room, fits.exact, s₃.ready.log_length))
        s₃.ready.log_length in
    (
      b,
      e,
      record {
        ready = record {
          log_length = l ∙ s₃.ready.log_length;
          flush_length = s₃.ready.flush_length;
          within = omega (arith, s₃.room);
        };
        numbered = refl;
        next = s₃.next;
        last = refl;
      },
    )

append_behind_room :
    (m₁ : LogManager) (r : LogRecord)
    → Fits r
    → IsReady m₁
    → m₁.offset + header_size ≤ log_buffer_size
    → (m' : LogManager) × (r' : LogRecord) × (append_in_room m₁ r ≡ returns (m', r'))
      × Appended m₁ m' r r'
unfolding append_in_room
append_behind_room m₁ r fits c room =
    let (m₂, e₂, s₂) =
      write_header-ready (record m₁ { next_lsn = u32 (m₁.next_lsn + 1) })
        (record r { lsn = m₁.next_lsn }) header_size
        (record { log_length = c.log_length; flush_length = c.flush_length; within = c.within })
        room in
    let (m₃, e₃, s₃) =
      second_header-ready m₂ (record r { lsn = m₁.next_lsn }) s₂.ready
        (omega (arith, fits.exact, fits.small)) in
    let (b, e, done) =
      append_payload m₁ m₃ r fits
        (record { ready = s₃.ready; next = s₃.next ∙ s₂.next; room = s₃.room }) in
    (_, _, rw (e₂, e₃, e), done)

-- On a manager whose buffers have their length, `AppendLogRecord` returns for every record that fits
-- the buffer, whatever is left in it: the record gets the next number, the counter moves by one, and
-- the manager is fit for the next call.
pub append_log_record_total :
    (m : LogManager) (r : LogRecord)
    → IsReady m
    → Fits r
    → (m' : LogManager) × (r' : LogRecord) × (append_log_record m r ≡ returns (m', r'))
      × Appended m m' r r'
unfolding append_log_record
append_log_record_total m r c fits =
    let (m₁, e₁, s₁) = make_room-ready m header_size c (omega arith) in
    let (m', r', e, done) = append_behind_room m₁ r fits s₁.ready s₁.room in
    (
      m',
      r',
      rw e₁ e,
      record {
        ready = done.ready;
        numbered = done.numbered ∙ ap (λ k. record r { lsn = k }) s₁.next;
        next = done.next ∙ ap (λ k. u32 (k + 1)) s₁.next;
        last = done.last ∙ s₁.next;
      },
    )
