-- ===== src/TablePage/Read.antt =====
-- `GetTuple` of storage/access/table_page.go on the slots
-- of a page.
use samehada_db.Base.{
  ℕ, ◌+◌, ◌*◌, ◌≤◌, ◌<◌, List, Bool, true, false, length, leb, returns, ◌≡◌, arith, inl, inr, ap,
  Bool-cases, some, none, Option, length-replicate,
}
use samehada_db.Ids.{Rid}
use samehada_db.Bytes.{slice, copy_at, make_bytes}
use samehada_db.Bytes.Slices.{
  list_ext, length-copy_at, get_or-copy_at, get_or-slice, length-slice, get_or-past,
}
use samehada_db.Bytes.Words.{slice_at-slice}
use samehada_db.Txn.{Tuple}
use samehada_db.Page.{Page, get_tuple_count, is_deleted}
use samehada_db.Page.Flags.{is_deleted-eq}
use samehada_db.Page.Slots.{
  count_of, offset_of, size_of, get_tuple_count-count, get_tuple_size-size, get_tuple_offset-offset,
}
use samehada_db.TablePage.{Env, abort_if_logging, lock_for_read, read_bytes, get_tuple}
use samehada_db.TablePage.View.{live, is_live, stored, tuple_bytes, plain_size, IsUsed, IsSound}

read_bytes-tuple :
    (p : Page) (i : ℕ)
    → IsSound p
    → i < count_of p
    → is_deleted (size_of p i) ≡ false
    → read_bytes p (offset_of p i) (size_of p i) ≡ returns (tuple_bytes p i)
unfolding read_bytes tuple_bytes
read_bytes-tuple p i s h alive =
    let d = is_deleted-eq (size_of p i) (s.words i h) in
    let used : IsUsed p i = (h, ground arith) in
    let (low, high) = s.inside i used in
    let plain : plain_size p i ≡ size_of p i = ground arith in
    let n = size_of p i in
    let zeros : length (make_bytes n) ≡ n = length-replicate n 0 in
    let o = offset_of p i in
    let rest = slice o (length p.bytes) p.bytes in
    rw (slice_at-slice p.bytes o (length p.bytes) (omega (arith, s.page)) (omega arith), plain)
      (ap returns (
        list_ext (copy_at 0 rest (make_bytes n)) (slice o (o + n) p.bytes)
          (omega (
            arith,
            length-copy_at 0 rest (make_bytes n),
            zeros,
            length-slice o (o + n) p.bytes,
            s.page,
          ))
          λ k. ground (
            arith,
            get_or-copy_at 0 rest (make_bytes n) k,
            zeros,
            get_or-past (make_bytes n) k,
            get_or-slice o (length p.bytes) p.bytes k,
            get_or-slice o (o + n) p.bytes k,
            length-slice o (length p.bytes) p.bytes,
            s.page,
          )))

-- The answer of a read: the bytes of a live tuple, or nothing.
pub data Reads (e : Env) (p : Page) (rid : Rid) : Option Tuple × Env → Type 0 where
  reads :
      (bytes : List ℕ) (e' : Env)
      → stored p rid.slot_num ≡ live bytes
      → (lock_for_read e rid) ≡ (true, e')
      → Reads e p rid (some (record { rid = some rid; size = length bytes; bytes = bytes }), e')
  dead : is_live (stored p rid.slot_num) ≡ false → Reads e p rid (none, abort_if_logging e)
  locked_out :
      (e' : Env)
      → is_live (stored p rid.slot_num) ≡ true
      → lock_for_read e rid ≡ (false, e')
      → Reads e p rid (none, e')

tuple_length :
    (p : Page) (i : ℕ)
    → IsSound p
    → i < count_of p
    → is_deleted (size_of p i) ≡ false
    → (stored p i ≡ live (tuple_bytes p i)) × (length (tuple_bytes p i) ≡ size_of p i)
unfolding stored tuple_bytes
tuple_length p i s h alive =
    let d = is_deleted-eq (size_of p i) (s.words i h) in
    let (low, high) = s.inside i (h, ground arith) in
    (
      ground arith,
      ground (arith, length-slice (offset_of p i) (offset_of p i + plain_size p i) p.bytes, s.page),
    )

-- On a sound page `GetTuple` always returns: for a live tuple whose record can be locked for reading,
-- the tuple with exactly the stored bytes; otherwise nothing.
pub get_tuple-Reads :
    (e : Env) (p : Page) (rid : Rid)
    → IsSound p
    → (answer : Option Tuple × Env) × (get_tuple e p rid ≡ returns answer) × Reads e p rid answer
get_tuple-Reads e p rid s = elim (Bool-cases (leb (count_of p) rid.slot_num)) [
  | inl past ↦ (
    (none, abort_if_logging e),
    unfold get_tuple in simp (count, past),
    dead (unfold stored in ground arith),
  )
  | inr inside ↦
      let h : rid.slot_num < count_of p = ground arith in
      let room : 32 + 8 * rid.slot_num ≤ 4096 = omega (arith, s.slots_fit, s.pointer_fits) in
      let size = get_tuple_size-size p s.page rid.slot_num room in
      let offset = get_tuple_offset-offset p s.page rid.slot_num room in
      elim (Bool-cases (is_deleted (size_of p rid.slot_num))) [
        | inl gone ↦ (
          (none, abort_if_logging e),
          unfold get_tuple in simp (count, inside, offset, size, gone),
          dead (not_live h gone),
        )
        | inr alive ↦
            let (here, long) = tuple_length p rid.slot_num s h alive in
            elim (Bool-cases (lock_for_read e rid).0) [
              | inr lost ↦ (
                (none, (lock_for_read e rid).1),
                unfold get_tuple in simp (count, inside, offset, size, alive, lost),
                locked_out (lock_for_read e rid).1 (ap is_live here) (pair lost),
              )
              | inl won ↦ (
                (
                  some (record {
                    rid = some rid;
                    size = length (tuple_bytes p rid.slot_num);
                    bytes = tuple_bytes p rid.slot_num;
                  }),
                  (lock_for_read e rid).1,
                ),
                unfold get_tuple in
                    simp (
                      count,
                      inside,
                      offset,
                      size,
                      alive,
                      won,
                      read_bytes-tuple p rid.slot_num s h alive,
                      long,
                    ),
                reads (tuple_bytes p rid.slot_num) (lock_for_read e rid).1 here (pair won),
              )
            ]
      ]
]
  where
    count : get_tuple_count p ≡ count_of p
    count = get_tuple_count-count p s.page

    pair :
        {b : Bool}
        → (lock_for_read e rid).0 ≡ b
        → lock_for_read e rid ≡ (b, (lock_for_read e rid).1)
    pair h = λ i. (h i, (lock_for_read e rid).1)

    not_live :
        rid.slot_num < count_of p
        → is_deleted (size_of p rid.slot_num) ≡ true
        → is_live (stored p rid.slot_num) ≡ false
    not_live h gone =
        unfold stored in
        ground (arith, is_deleted-eq (size_of p rid.slot_num) (s.words rid.slot_num h))
