-- ===== src/TablePage/Insert.antt =====
-- `InsertTuple` of storage/access/table_page.go on the slots of a page.
use samehada_db.Base.{
  ℕ, zero, suc, ◌+◌, ◌-◌, ◌*◌, ◌≤◌, ◌<◌, true, false, length, ◌&&◌, ltb, ◌==◌, if◌then◌else◌,
  returns, ◌≡◌, refl, arith, ◌≢◌, inl, inr, ◌∙◌, Bool-cases, some,
}
use samehada_db.Ids.{Rid}
use samehada_db.Bytes.{u32, sub32}
use samehada_db.Txn.{Tuple}
use samehada_db.Log.{LogRecord, new_log_record_insert_delete, insert_type}
use samehada_db.Log.Append.{IsReady}
use samehada_db.Page.{
  Page, get_tuple_count, get_free_space_remaining, get_free_space_pointer, set_free_space_pointer,
  put_tuple, size_tuple, get_table_page_id,
}
use samehada_db.Page.Slots.{
  fsp_of, count_of, size_of, get_tuple_count-count, get_tuple_size-size, get_free_space_pointer-fsp,
}
use samehada_db.TablePage.{
  Env, err_empty_tuple, err_not_enough_space, err_not_locked, inserted, failed, InsertReply,
  insert_fails, find_free_slot, lock_new_tuple, settle, write_tuple, insert_at_slot, insert_tuple,
  write_log_record,
}
use samehada_db.TablePage.View.{free, live, stored, IsSound}
use samehada_db.TablePage.Logging.{write_log_record_total, Fits-insert_delete, IsSound-SameBody}
use samehada_db.TablePage.Mark.{stored-SameBody}
use samehada_db.TablePage.Fill.{filled, put_tuple-filled, count-filled, IsPage-filled}
use samehada_db.TablePage.Filled.{Filled, counted, Filled-counted, IsSound-Filled, stored-Filled}

-- The bytes between the slots and the tuples.
abbrev pub free_space : Page → ℕ
free_space p = fsp_of p - (24 + 8 * count_of p)

pub get_free_space_remaining-free :
    (p : Page) → IsSound p → get_free_space_remaining p ≡ free_space p
unfolding get_free_space_remaining
get_free_space_remaining-free p s =
    rw (get_free_space_pointer-fsp p s.page, get_tuple_count-count p s.page)
      (omega (arith, s.slots_fit, s.pointer_fits))

-- A slot that the loop may stop at: free, or the first one behind all.
abbrev pub CanTake : Page → ℕ → Type 0
CanTake p slot = (slot ≤ count_of p) × (slot < count_of p → size_of p slot ≡ 0)

find_free_slot_total :
    (rounds : ℕ) (p : Page) (slot : ℕ)
    → IsSound p
    → slot + rounds ≡ count_of p
    → (found : ℕ) × (find_free_slot rounds p slot ≡ returns found) × CanTake p found
unfolding find_free_slot
find_free_slot_total zero p slot s e = (slot, refl, (omega arith, (λ h. absurd (omega arith))))
find_free_slot_total (suc rounds) p slot s e =
    let size = get_tuple_size-size p s.page slot (omega (arith, s.slots_fit, s.pointer_fits)) in
    elim (Bool-cases (size_of p slot == 0)) [
      | inl empty ↦ (slot, ground (arith, size), (omega arith, (λ _. ground arith)))
      | inr used ↦
          let (found, ran, take) = find_free_slot_total rounds p (slot + 1) s (omega arith) in
          (found, ground (arith, size, ran), take)
    ]

-- What an insert into a slot leaves.
pub record Inserts (p : Page) (tuple : Tuple) (rid : Rid) (reply : InsertReply) : Type 0 where
  pub result : reply.result ≡ inserted rid
  pub was_free : stored p rid.slot_num ≡ free
  pub sound : IsSound reply.page
  pub ready : IsReady reply.env.log
  pub named : reply.tuple ≡ record tuple { rid = some rid }
  pub slots :
      (i : ℕ) → stored reply.page i ≡ (if i == rid.slot_num then live tuple.bytes else stored p i)

module _ (e : Env) (p : Page) (tuple : Tuple) (rid : Rid) (s : IsSound p) (c : IsReady e.log)
    (exact : tuple.size ≡ length tuple.bytes) (nonempty : 0 < tuple.size)
    (room : tuple.size + 8 ≤ free_space p) (take : CanTake p rid.slot_num) where
  bytes_room : 32 + 8 * count_of p + length tuple.bytes ≤ fsp_of p
  bytes_room = omega (arith, room, exact)

  f : ℕ
  f = fsp_of p - length tuple.bytes

  slot_room : 32 + 8 * rid.slot_num ≤ f
  unfolding f
  slot_room = omega (arith, bytes_room, take.0)

  fits : f + length tuple.bytes ≤ 4096
  unfolding f
  fits = omega (arith, bytes_room, s.pointer_fits)

  q : Page
  q = filled p s.page rid.slot_num f tuple.bytes slot_room fits

  count_q : get_tuple_count q ≡ count_of p
  unfolding q
  count_q =
      get_tuple_count-count q (IsPage-filled p s.page rid.slot_num f tuple.bytes slot_room fits)
      ∙ count-filled p s.page rid.slot_num f tuple.bytes slot_room fits

  put_q :
      put_tuple
        (set_free_space_pointer p (sub32 (get_free_space_pointer p) tuple.size))
        rid.slot_num
        (record tuple { rid = some rid })
      ≡ returns q
  unfolding q f
  put_q =
      let pointer : sub32 (get_free_space_pointer p) tuple.size ≡ fsp_of p - length tuple.bytes =
        omega (arith, get_free_space_pointer-fsp p s.page, exact, bytes_room, s.pointer_fits) in
      rw pointer (
        put_tuple-filled p s.page rid.slot_num f tuple.bytes slot_room fits
          (record tuple { rid = some rid }) refl exact)

  insert_record : LogRecord
  insert_record =
      new_log_record_insert_delete e.txn.txn_id e.txn.prev_lsn insert_type rid
        (record tuple { rid = some rid })

  written : Filled p (counted p rid.slot_num q) rid.slot_num f tuple.bytes
  unfolding q
  written =
      Filled-counted p s.page rid.slot_num f tuple.bytes slot_room fits take.0
        (omega (arith, s.slots_fit, s.pointer_fits))

  runs :
      (e' : Env) (p' : Page)
      → write_log_record e (counted p rid.slot_num q) insert_record ≡ returns (e', p')
      → write_tuple e p tuple rid
        ≡ returns (record {
          result = inserted rid;
          env = e';
          page = p';
          tuple = record tuple { rid = some rid };
        })
  unfolding write_tuple insert_record
  runs e' p' logged = rw put_q (rw count_q (rw logged refl))

  pub write_tuple_total :
      (reply : InsertReply) × (write_tuple e p tuple rid ≡ returns reply)
      × Inserts p tuple rid reply
  unfolding f insert_record
  write_tuple_total =
      let sound =
        IsSound-Filled p _ rid.slot_num tuple.bytes s bytes_room take.0 take.1
          (omega (arith, exact, nonempty)) written in
      let (e', p', logged, l) =
        write_log_record_total e (counted p rid.slot_num q) insert_record c
          (Fits-insert_delete _ _ _ rid _ (inl refl) (omega (arith, room, s.pointer_fits)))
          sound.page in
      (
        record {
          result = inserted rid;
          env = e';
          page = p';
          tuple = record tuple { rid = some rid };
        },
        runs e' p' logged,
        record {
          result = refl;
          was_free = unfold stored in ground (arith, take.1);
          sound = IsSound-SameBody l.body sound;
          ready = l.ready;
          named = refl;
          slots = λ i.
              stored-SameBody l.body sound i
              ∙ stored-Filled p _ rid.slot_num tuple.bytes s bytes_room take.0 take.1
                  (omega (arith, exact, nonempty)) written i;
        },
      )

lock_new_tuple_keeps :
    (e : Env) (rid : Rid)
    → ((lock_new_tuple e rid).1.log ≡ e.log) × (e.logging ≡ false → (lock_new_tuple e rid).0 ≡ true)
unfolding lock_new_tuple settle
lock_new_tuple_keeps e rid = (ground arith, λ off. rw off refl)

-- How an insert ends: with an error that leaves the page as it is, or with the tuple in a slot. Each
-- error has its one cause, and the third error of the source is none of them.
pub data InsertEnds (e : Env) (p : Page) (tuple : Tuple) (reply : InsertReply) : Type 0 where
  empty :
      tuple.size ≡ 0
      → reply.result ≡ failed err_empty_tuple
      → reply.page ≡ p
      → InsertEnds e p tuple reply
  full :
      tuple.size ≢ 0
      → free_space p < tuple.size + 8
      → reply.result ≡ failed err_not_enough_space
      → reply.page ≡ p
      → InsertEnds e p tuple reply
  refused :
      e.logging ≡ true
      → reply.result ≡ failed err_not_locked
      → reply.page ≡ p
      → InsertEnds e p tuple reply
  stores :
      (rid : Rid)
      → tuple.size ≢ 0
      → tuple.size + 8 ≤ free_space p
      → rid.page_id ≡ get_table_page_id p
      → Inserts p tuple rid reply
      → InsertEnds e p tuple reply

insert_at_slot_ends :
    (e : Env) (p : Page) (tuple : Tuple) (slot : ℕ)
    → IsSound p
    → IsReady e.log
    → tuple.size ≡ length tuple.bytes
    → tuple.size ≢ 0
    → tuple.size + 8 ≤ free_space p
    → CanTake p slot
    → (reply : InsertReply) × (insert_at_slot e p tuple slot ≡ returns reply)
      × InsertEnds e p tuple reply
insert_at_slot_ends e p tuple slot s c exact some_size room take =
    elim (Bool-cases (lock_new_tuple e rid).0) [
      | inr lost ↦ (
        insert_fails (lock_new_tuple e rid).1 p tuple err_not_locked,
        unfold insert_at_slot in simp (not_short, lost),
        refused (logged lost) refl refl,
      )
      | inl won ↦
          let (reply, ran, done) =
            write_tuple_total (lock_new_tuple e rid).1 p tuple rid s (rw keeps.0 c) exact
              (omega arith) room take in
          (
            reply,
            unfold insert_at_slot in simp (not_short, won) ran,
            stores rid some_size room refl done,
          )
    ]
  where
    rid : Rid
    rid = record { page_id = get_table_page_id p; slot_num = slot }

    not_short :
        (get_tuple_count p == slot
          && ltb (get_free_space_remaining p) (u32 (tuple.size + size_tuple)))
        ≡ false
    not_short =
        let left : ltb (get_free_space_remaining p) (u32 (tuple.size + size_tuple)) ≡ false =
          rw (get_free_space_remaining-free p s) (ground arith) in
        ground (arith, left)

    keeps :
        ((lock_new_tuple e rid).1.log ≡ e.log)
        × (e.logging ≡ false → (lock_new_tuple e rid).0 ≡ true)
    keeps = lock_new_tuple_keeps e rid

    logged : (lock_new_tuple e rid).0 ≡ false → e.logging ≡ true
    logged lost = elim (Bool-cases e.logging) [ inl on ↦ on | inr off ↦ cc (lost, keeps.1 off) ]

-- `InsertTuple` on a sound page with a ready log and a tuple whose size is that of its bytes (and
-- leaves room for the slot in 32 bits): it returns on every path.
pub insert_tuple_ends :
    (e : Env) (p : Page) (tuple : Tuple)
    → IsSound p
    → IsReady e.log
    → tuple.size ≡ length tuple.bytes
    → tuple.size + 8 < 4294967296
    → (reply : InsertReply) × (insert_tuple e p tuple ≡ returns reply) × InsertEnds e p tuple reply
insert_tuple_ends e p tuple s c exact small = elim (Bool-cases (tuple.size == 0)) [
  | inl none ↦ (
    insert_fails e p tuple err_empty_tuple,
    unfold insert_tuple in simp none,
    empty (ground arith) refl refl,
  )
  | inr some_size ↦
      let left = get_free_space_remaining-free p s in
      elim (Bool-cases (ltb (free_space p) (u32 (tuple.size + size_tuple)))) [
        | inl short ↦ (
          insert_fails e p tuple err_not_enough_space,
          unfold insert_tuple in simp (some_size, left, short),
          full (ground arith) (ground arith) refl refl,
        )
        | inr enough ↦
            let (slot, found, take) = find_free_slot_total (count_of p) p 0 s (omega arith) in
            let (reply, ran, done) =
              insert_at_slot_ends e p tuple slot s c exact (ground arith) (ground arith) take in
            (reply, runs slot some_size enough found ran, done)
      ]
]
  where
    runs :
        (slot : ℕ) {reply : InsertReply}
        → (tuple.size == 0) ≡ false
        → ltb (free_space p) (u32 (tuple.size + size_tuple)) ≡ false
        → find_free_slot (count_of p) p 0 ≡ returns slot
        → insert_at_slot e p tuple slot ≡ returns reply
        → insert_tuple e p tuple ≡ returns reply
    runs slot a b found ran =
        unfold insert_tuple in
        simp (a, get_free_space_remaining-free p s, b, get_tuple_count-count p s.page, found) ran
