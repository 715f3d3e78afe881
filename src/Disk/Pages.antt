-- ===== src/Disk/Pages.antt =====
-- What the page file of storage/disk/disk_manager_impl.go keeps: a page that was written is read back,
-- and the other pages stay.
use samehada_db.Base.{
  ℕ, zero, suc, ◌+◌, ◌-◌, ◌*◌, ◌≤◌, ◌<◌, List, [], ◌∷◌, ◌++◌, true, ◌&&◌, length, take, drop, leb,
  ltb, ◌==◌, if◌then◌else◌, some, ◌≡◌, refl, arith, ap, ◌∙◌, sym, ◌≢◌, length-append, length-take,
  length-drop, length-replicate, get_or, Bool-cases, inl, inr,
}
use samehada_db.Bytes.{make_bytes, slice}
use samehada_db.Bytes.Slices.{
  list_ext, get_or-slice, length-slice, get_or-take, get_or-drop, get_or-past,
}
use samehada_db.Page.{page_size}
use samehada_db.Disk.{DiskManager, seek, write_at_position, page_offset, write_page, read_page}

get_or-append :
    (xs ys : List ℕ) (i : ℕ)
    → get_or (xs ++ ys) i 0
      ≡ (if ltb i (length xs) then get_or xs i 0 else get_or ys (i - length xs) 0)
get_or-append [] ys i = ground arith
get_or-append (x ∷ xs) ys zero = ground arith
get_or-append (x ∷ xs) ys (suc i) = ground (arith, get_or-append xs ys i)

get_or-zeros : (n i : ℕ) → get_or (make_bytes n) i 0 ≡ 0
get_or-zeros zero i = refl
get_or-zeros (suc n) zero = refl
get_or-zeros (suc n) (suc i) = get_or-zeros n i

-- The file after a write at `at`.
abbrev pub overwrite : List ℕ → ℕ → List ℕ → List ℕ
overwrite db at bytes =
    take at (db ++ make_bytes (at - length db)) ++ (bytes ++ drop (at + length bytes) db)

module _ (db : List ℕ) (at : ℕ) (bytes : List ℕ) where
  front : List ℕ
  front = take at (db ++ make_bytes (at - length db))

  length-front : length front ≡ at
  unfolding front
  length-front = omega (
    arith,
    length-take at (db ++ make_bytes (at - length db)),
    length-append db (make_bytes (at - length db)),
    length-replicate {A = ℕ} (at - length db) 0,
  )

  pub length-overwrite :
      length (overwrite db at bytes) ≡ at + (length bytes + (length db - (at + length bytes)))
  unfolding front
  length-overwrite = omega (
    arith,
    length-front,
    length-append front (bytes ++ drop (at + length bytes) db),
    length-append bytes (drop (at + length bytes) db),
    length-drop (at + length bytes) db,
  )

  pub get_or-overwrite :
      (i : ℕ)
      → get_or (overwrite db at bytes) i 0
        ≡ (if leb at i && ltb i (at + length bytes) then get_or bytes (i - at) 0 else get_or db i 0)
  unfolding front
  get_or-overwrite i = ground (
    arith,
    length-front,
    get_or-append front (bytes ++ drop (at + length bytes) db) i,
    get_or-append bytes (drop (at + length bytes) db) (i - at),
    get_or-drop (at + length bytes) db (i - at - length bytes),
    get_or-take at (db ++ make_bytes (at - length db)) i,
    get_or-append db (make_bytes (at - length db)) i,
    get_or-zeros (at - length db) (i - length db),
    get_or-past db i,
    place i,
  )
    where
      place : (k : ℕ) → at + length bytes ≤ k → at + length bytes + (k - at - length bytes) ≡ k
      place k h = omega arith

-- A whole page of the file.
abbrev pub page_at : List ℕ → ℕ → List ℕ
page_at db page_id = slice (page_id * 4096) (page_id * 4096 + 4096) db

written_page :
    (db : List ℕ) (page_id : ℕ) (page_data : List ℕ)
    → length page_data ≡ 4096
    → page_at (overwrite db (page_id * 4096) page_data) page_id ≡ page_data
written_page db page_id page_data k =
    let file = overwrite db (page_id * 4096) page_data in
    list_ext (page_at file page_id) page_data
      (omega (
        arith,
        k,
        length-slice (page_id * 4096) (page_id * 4096 + 4096) file,
        length-overwrite db (page_id * 4096) page_data,
      ))
      λ i. ground (
        arith,
        k,
        get_or-slice (page_id * 4096) (page_id * 4096 + 4096) file i,
        get_or-overwrite db (page_id * 4096) page_data (page_id * 4096 + i),
        get_or-past page_data i,
        back i,
      )
  where
    back : (i : ℕ) → page_id * 4096 + i - page_id * 4096 ≡ i
    back i = omega arith

other_page :
    (db : List ℕ) (page_id q : ℕ) (page_data : List ℕ)
    → length page_data ≡ 4096
    → q * 4096 + 4096 ≤ length db
    → q ≢ page_id
    → page_at (overwrite db (page_id * 4096) page_data) q ≡ page_at db q
other_page db page_id q page_data k room ne =
    let file = overwrite db (page_id * 4096) page_data in
    list_ext (page_at file q) (page_at db q)
      (omega (
        arith,
        k,
        length-slice (q * 4096) (q * 4096 + 4096) file,
        length-slice (q * 4096) (q * 4096 + 4096) db,
        length-overwrite db (page_id * 4096) page_data,
      ))
      λ i. ground (
        arith,
        k,
        get_or-slice (q * 4096) (q * 4096 + 4096) file i,
        get_or-slice (q * 4096) (q * 4096 + 4096) db i,
        get_or-overwrite db (page_id * 4096) page_data (q * 4096 + i),
      )

read_page-whole :
    (d : DiskManager) (page_id : ℕ)
    → page_id < 524288
    → page_id * 4096 + 4096 ≤ length d.db
    → (read_page d page_id).0 ≡ some (page_at d.db page_id)
unfolding read_page seek
read_page-whole d page_id h k =
    ground (arith, length-slice (page_id * 4096) (page_id * 4096 + 4096) d.db)

write_page-writes :
    (d : DiskManager) (page_id : ℕ) (page_data : List ℕ)
    → page_id < 524288
    → length page_data ≡ 4096
    → ((write_page d page_id page_data).0 ≡ true)
      × ((write_page d page_id page_data).1.db ≡ overwrite d.db (page_id * 4096) page_data)
unfolding write_page seek write_at_position
write_page-writes d page_id page_data h k =
    let here : page_offset page_id ≡ page_id * 4096 = omega arith in
    let low : ltb (page_id * 4096) 2147483648 ≡ true = ground arith in
    let whole : (length page_data == page_size) ≡ true = ground arith in
    elim (Bool-cases (leb d.size (page_id * 4096))) [
      | inl grows ↦ (simp (here, low, whole, grows) refl, simp (here, low, whole, grows) refl)
      | inr stays ↦ (simp (here, low, whole, stays) refl, simp (here, low, whole, stays) refl)
    ]

-- What `WritePage` leaves: it succeeds, the page is read back as it was written, and so is every other
-- page that the file had.
pub record Keeps (d : DiskManager) (page_id : ℕ) (page_data : List ℕ) : Type 0 where
  pub done : (write_page d page_id page_data).0 ≡ true
  pub back : (read_page (write_page d page_id page_data).1 page_id).0 ≡ some page_data
  pub others :
      (q : ℕ)
      → q < 524288
      → q * 4096 + 4096 ≤ length d.db
      → q ≢ page_id
      → (read_page (write_page d page_id page_data).1 q).0 ≡ (read_page d q).0

-- `WritePage` of a page of 4096 bytes whose place is below 2 GB succeeds, `ReadPage` gives the same
-- bytes back, and every other whole page of the file below 2 GB is read as before.
pub write_page-Keeps :
    (d : DiskManager) (page_id : ℕ) (page_data : List ℕ)
    → page_id < 524288
    → length page_data ≡ 4096
    → Keeps d page_id page_data
write_page-Keeps d page_id page_data h k =
    let (done, now) = write_page-writes d page_id page_data h k in
    let d' = (write_page d page_id page_data).1 in
    let long : length d'.db ≡ page_id * 4096 + (4096 + (length d.db - (page_id * 4096 + 4096))) =
      ap length now ∙ omega (arith, length-overwrite d.db (page_id * 4096) page_data, k) in
    record {
      done = done;
      back =
          read_page-whole d' page_id h (omega (arith, long))
          ∙ ap (λ b. some (page_at b page_id)) now
          ∙ ap some (written_page d.db page_id page_data k);
      others = λ q below room ne.
          read_page-whole d' q below (omega (arith, long, room))
          ∙ ap (λ b. some (page_at b q)) now
          ∙ ap some (other_page d.db page_id q page_data k room ne)
          ∙ sym (read_page-whole d q below room);
    }
