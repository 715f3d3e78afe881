-- ===== src/TablePage/Updates.antt =====
-- `UpdateTuple` of storage/access/table_page.go on the slots of a page.
use samehada_db.Base.{
  ℕ, ◌+◌, ◌*◌, ◌≤◌, ◌<◌, List, [], length, Bool, true, false, leb, ltb, ◌==◌, if◌then◌else◌, Option,
  none, some, returns, ◌≡◌, refl, arith, inl, inr, ap, ◌∙◌, sym, Bool-cases, ◌≢◌, lt→ltb,
}
use samehada_db.Ids.{Rid}
use samehada_db.Bytes.{u32, slice_at}
use samehada_db.Bytes.Words.{slice_at-slice}
use samehada_db.Bytes.Slices.{length-slice}
use samehada_db.Txn.{Tuple}
use samehada_db.Schema.{Schema}
use samehada_db.Log.{LogRecord, new_log_record_update, update_type}
use samehada_db.Log.Append.{IsReady, Fits}
use samehada_db.Page.{
  Page, delete_mask, get_tuple_count, is_deleted, get_tuple_size, get_tuple_offset_at_slot,
  get_free_space_remaining,
}
use samehada_db.Page.Flags.{is_deleted-eq}
use samehada_db.Page.Slots.{
  fsp_of, count_of, offset_of, size_of, get_tuple_count-count, get_tuple_size-size,
  get_tuple_offset-offset,
}
use samehada_db.TablePage.{Env, MarkReply, err_not_enough_space, lock_and_log}
use samehada_db.TablePage.View.{
  Slot, free, live, marked, is_live, stored, tuple_bytes, plain_size, IsUsed, IsSound,
}
use samehada_db.TablePage.Logging.{
  IsSound-SameBody, count-SameBody, size-SameBody, offset-SameBody, fsp-SameBody,
}
use samehada_db.TablePage.Locking.{Locked, lock_and_log_total}
use samehada_db.TablePage.Mark.{stored-SameBody}
use samehada_db.TablePage.Insert.{free_space, get_free_space_remaining-free}
use samehada_db.TablePage.Update.{
  UpdateReply, update_refused, updated_tuple, update_in_room, update_tuple, replace_tuple,
}
use samehada_db.TablePage.Replaced.{IsSound-Replaced, stored-Replaced}
use samehada_db.TablePage.Replace.{replace_tuple-Replaced}

abbrev bytes_of : Slot → List ℕ
bytes_of free = []
bytes_of (live bytes) = bytes
bytes_of (marked bytes) = bytes

Fits-update :
    (txn_id prev_lsn : ℕ) (rid : Rid) (old new : Tuple)
    → old.size ≤ 4096
    → new.size ≤ 4096
    → Fits (new_log_record_update txn_id prev_lsn update_type rid old new)
unfolding new_log_record_update
Fits-update txn_id prev_lsn rid old new h k = record { exact = ground arith; small = ground arith }

-- What a slot with a live tuple says of its words.
record Live (p : Page) (slot : ℕ) (bytes : List ℕ) : Type 0 where
  used : IsUsed p slot
  plain : plain_size p slot ≡ size_of p slot
  alive : is_deleted (size_of p slot) ≡ false
  same : tuple_bytes p slot ≡ bytes
  width : size_of p slot ≡ length bytes

live_width :
    (p : Page) (slot : ℕ)
    → IsSound p
    → IsUsed p slot
    → size_of p slot < delete_mask
    → size_of p slot ≡ length (tuple_bytes p slot)
unfolding tuple_bytes
live_width p slot s u below = omega (
  arith,
  length-slice (offset_of p slot) (offset_of p slot + plain_size p slot) p.bytes,
  s.page,
  s.inside slot u,
)

Live-stored :
    (p : Page) (slot : ℕ) (bytes : List ℕ)
    → IsSound p
    → stored p slot ≡ live bytes
    → Live p slot bytes
unfolding stored
Live-stored p slot bytes s h =
    let alive : is_live (stored p slot) ≡ true = ap is_live h in
    let inside : slot < count_of p = ground (arith, alive) in
    let used : size_of p slot ≢ 0 = λ z. ground (arith, alive, z) in
    let below : size_of p slot < delete_mask = ground (arith, alive) in
    let at : stored p slot ≡ live (tuple_bytes p slot) = ground (arith, inside, used, below) in
    let same : tuple_bytes p slot ≡ bytes = ap bytes_of (sym at ∙ h) in
    record {
      used = (inside, used);
      plain = omega (arith, below);
      alive = ground (arith, is_deleted-eq (size_of p slot) (s.words slot inside), below, used);
      same = same;
      width = live_width p slot s (inside, used) below ∙ ap (λ b. length b) same;
    }

abbrev pub tuple_at : Rid → List ℕ → Tuple
tuple_at rid bytes = record { rid = some rid; size = length bytes; bytes = bytes }

-- How an update of a live tuple by `tuple` ends: the page has no room, and the tuple is handed back to be
-- inserted elsewhere; a lock is refused; or the tuple takes the place of the old one.
pub data UpdateEnds (e : Env) (p : Page) (rid : Rid) (old : List ℕ) (tuple : Tuple)
    (reply : UpdateReply) : Type 0 where
  full :
      free_space p + length old < tuple.size
      → reply.done ≡ false
      → reply.error ≡ some err_not_enough_space
      → reply.follow ≡ some tuple
      → reply.page ≡ p
      → reply.env ≡ e
      → UpdateEnds e p rid old tuple reply
  refused :
      e.logging ≡ true
      → reply.done ≡ false
      → reply.error ≡ none
      → IsSound reply.page
      → ((i : ℕ) → stored reply.page i ≡ stored p i)
      → UpdateEnds e p rid old tuple reply
  updated :
      tuple.size ≤ free_space p + length old
      → reply.done ≡ true
      → reply.error ≡ none
      → reply.old_tuple ≡ tuple_at rid old
      → IsSound reply.page
      → IsReady reply.env.log
      → ((i : ℕ)
          → stored reply.page i ≡ (if i == rid.slot_num then live tuple.bytes else stored p i))
      → fsp_of reply.page + length tuple.bytes ≡ fsp_of p + length old
      → count_of reply.page ≡ count_of p
      → UpdateEnds e p rid old tuple reply

module _ (e : Env) (p : Page) (rid : Rid) (old : List ℕ) (tuple : Tuple) (s : IsSound p)
    (c : IsReady e.log) (l : Live p rid.slot_num old) (exact : tuple.size ≡ length tuple.bytes)
    (some_bytes : 0 < tuple.size) (small : tuple.size ≤ 4096) where
  abbrev slot : ℕ
  slot = rid.slot_num

  change : LogRecord
  change =
      new_log_record_update e.txn.txn_id e.txn.prev_lsn update_type rid (tuple_at rid old) tuple

  locked_runs :
      (held : MarkReply) (q : Page)
      → ltb (u32 (get_free_space_remaining p + length old)) tuple.size ≡ false
      → lock_and_log e p rid change ≡ returns held
      → held.done ≡ true
      → replace_tuple slot (offset_of p slot) (length old) tuple held.page ≡ returns q
      → update_in_room e p rid (offset_of p slot) (length old) (tuple_at rid old) tuple
        ≡ returns (record (update_refused held.env q (tuple_at rid old)) { done = true })
  unfolding update_in_room change
  locked_runs held q h₁ h₂ h₃ h₄ = simp (h₁, h₂, h₃, h₄) refl

  refused_runs :
      (held : MarkReply)
      → ltb (u32 (get_free_space_remaining p + length old)) tuple.size ≡ false
      → lock_and_log e p rid change ≡ returns held
      → held.done ≡ false
      → update_in_room e p rid (offset_of p slot) (length old) (tuple_at rid old) tuple
        ≡ returns (update_refused held.env held.page (tuple_at rid old))
  unfolding update_in_room change
  refused_runs held h₁ h₂ h₃ = simp (h₁, h₂, h₃) refl

  full_runs :
      ltb (u32 (get_free_space_remaining p + length old)) tuple.size ≡ true
      → update_in_room e p rid (offset_of p slot) (length old) (tuple_at rid old) tuple
        ≡ returns (record (update_refused e p (tuple_at rid old)) {
          error = some err_not_enough_space;
          follow = some tuple;
        })
  unfolding update_in_room
  full_runs h = simp h refl

  width : length old ≡ plain_size p slot
  width = sym (l.plain ∙ l.width)

  -- The page behind the lock and the log record.
  replaces :
      (held : MarkReply)
      → tuple.size ≤ free_space p + length old
      → Locked e p held
      → (q : Page) × (replace_tuple slot (offset_of p slot) (length old) tuple held.page
          ≡ returns q)
        × IsSound q
        × ((i : ℕ) → stored q i ≡ (if i == slot then live tuple.bytes else stored p i))
        × (fsp_of q + length tuple.bytes ≡ fsp_of p + length old)
        × (count_of q ≡ count_of p)
  replaces held fits k =
      let p' = held.page in
      let s' = IsSound-SameBody k.body s in
      let plain : plain_size p' slot ≡ plain_size p slot =
        omega (arith, size-SameBody k.body slot) in
      let u' : IsUsed p' slot = (
        omega (arith, l.used.0, count-SameBody k.body),
        (λ z. l.used.1 (sym (size-SameBody k.body slot) ∙ z)),
      ) in
      let room : 24 + 8 * count_of p' + tuple.size ≤ fsp_of p' + plain_size p' slot =
        omega
          (arith, plain, width, count-SameBody k.body, fsp-SameBody k.body, s.slots_fit, fits) in
      let (q, ran, w) = replace_tuple-Replaced p' slot tuple s' u' exact some_bytes small room in
      let room' : 24 + 8 * count_of p' + length tuple.bytes ≤ fsp_of p' + plain_size p' slot =
        omega (arith, room, exact) in
      (
        q,
        ap (λ o. replace_tuple slot o (length old) tuple p') (sym (offset-SameBody k.body slot))
            ∙ ap (λ a. replace_tuple slot (offset_of p' slot) a tuple p') (width ∙ sym plain)
            ∙ ran,
        IsSound-Replaced p' q slot tuple.bytes s' u' room' w,
        (λ i.
            stored-Replaced p' q slot tuple.bytes s' u' room' w i
            ∙ some_bytes_live (i == slot) (stored p' i)
            ∙ ap (λ t. if i == slot then live tuple.bytes else t) (stored-SameBody k.body s i)),
        omega (arith, w.pointer, fsp-SameBody k.body, plain, width),
        w.count ∙ count-SameBody k.body,
      )
    where
      some_bytes_live :
          (b : Bool) (x : Slot)
          → (if b then (if length tuple.bytes == 0 then free else live tuple.bytes) else x)
            ≡ (if b then live tuple.bytes else x)
      some_bytes_live b x = ground (arith, exact, some_bytes)

  logged_there : {done : Bool} → (e.logging ≡ false → done ≡ true) → done ≡ false → e.logging ≡ true
  logged_there unlogged lost = elim (Bool-cases e.logging) [
    | inl on ↦ on
    | inr off ↦ cc (unlogged off, lost)
  ]

  update_in_room_ends :
      (reply : UpdateReply) × (update_in_room e p rid
          (offset_of p slot)
          (length old)
          (tuple_at rid old)
          tuple
        ≡ returns reply)
      × UpdateEnds e p rid old tuple reply
  unfolding change
  update_in_room_ends =
      let space = get_free_space_remaining-free p s in
      let inside = s.inside slot l.used in
      elim (Bool-cases (ltb (u32 (get_free_space_remaining p + length old)) tuple.size)) [
        | inl no_room ↦ (
          _,
          full_runs no_room,
          full (ground (arith, space, s.pointer_fits, width, inside)) refl refl refl refl refl,
        )
        | inr has_room ↦
            let fits : tuple.size ≤ free_space p + length old =
              ground (arith, space, s.pointer_fits, width, inside) in
            let (held, locked, k) =
              lock_and_log_total e p rid change c
                (Fits-update e.txn.txn_id e.txn.prev_lsn rid (tuple_at rid old) tuple
                  (omega (arith, width, inside)) small)
                s.page in
            elim (Bool-cases held.done) [
              | inr lost ↦ (
                _,
                refused_runs held has_room locked lost,
                refused (logged_there (k.unlogged) lost) refl refl (IsSound-SameBody k.body s)
                    (stored-SameBody k.body s),
              )
              | inl won ↦
                  let (q, ran, sound, slots, pointer, count) = replaces held fits k in
                  (
                    _,
                    locked_runs held q has_room locked won ran,
                    updated fits refl refl refl sound k.ready slots pointer count,
                  )
            ]
      ]

update_tuple_runs :
    (e : Env) (p : Page) (new_tuple : Tuple) (targets : Option (List ℕ)) (schema : Option Schema)
    (given : Tuple) (rid : Rid) (old : List ℕ) (tuple : Tuple) (reply : UpdateReply)
    → ltb 0 new_tuple.size ≡ true
    → leb (get_tuple_count p) rid.slot_num ≡ false
    → get_tuple_size p rid.slot_num ≡ returns (length old)
    → is_deleted (length old) ≡ false
    → get_tuple_offset_at_slot p rid.slot_num ≡ returns (offset_of p rid.slot_num)
    → slice_at p.bytes (offset_of p rid.slot_num) (u32 (offset_of p rid.slot_num + length old))
      ≡ returns old
    → updated_tuple new_tuple targets schema (tuple_at rid old) ≡ returns tuple
    → update_in_room e p rid (offset_of p rid.slot_num) (length old) (tuple_at rid old) tuple
      ≡ returns reply
    → update_tuple e p new_tuple targets schema given rid ≡ returns reply
unfolding update_tuple
update_tuple_runs e p new_tuple targets schema given rid old tuple reply h₁ h₂ h₃ h₄ h₅ h₆ h₇ h₈ =
    simp (h₁, h₂, h₃, h₄, h₅, h₆, h₇, h₈) refl

pub update_tuple-ends :
    (e : Env) (p : Page) (new_tuple : Tuple) (targets : Option (List ℕ)) (schema : Option Schema)
    (given : Tuple) (rid : Rid) (old : List ℕ) (tuple : Tuple)
    → IsSound p
    → IsReady e.log
    → 0 < new_tuple.size
    → stored p rid.slot_num ≡ live old
    → updated_tuple new_tuple targets schema (tuple_at rid old) ≡ returns tuple
    → tuple.size ≡ length tuple.bytes
    → 0 < tuple.size
    → tuple.size ≤ 4096
    → (reply : UpdateReply) × (update_tuple e p new_tuple targets schema given rid ≡ returns reply)
      × UpdateEnds e p rid old tuple reply
unfolding tuple_bytes
update_tuple-ends e p new_tuple targets schema given rid old tuple s c nonempty alive made exact
      some_bytes small =
    let slot = rid.slot_num in
    let l = Live-stored p slot old s alive in
    let inside = s.inside slot l.used in
    let plain : length old ≡ plain_size p slot = sym (l.plain ∙ l.width) in
    let end : u32 (offset_of p slot + length old) ≡ offset_of p slot + plain_size p slot =
      omega (arith, plain, inside) in
    let (reply, ran, ends) = update_in_room_ends e p rid old tuple s c l exact some_bytes small in
    (
      reply,
      update_tuple_runs e p new_tuple targets schema given rid old tuple reply
          (lt→ltb 0 new_tuple.size nonempty)
          (ap (λ n. leb n slot) (get_tuple_count-count p s.page) ∙ ground (arith, l.used.0))
          (get_tuple_size-size p s.page slot (omega (arith, l.used.0, s.slots_fit, s.pointer_fits))
            ∙ ap returns l.width)
          (ap is_deleted (sym l.width) ∙ l.alive)
          (get_tuple_offset-offset p s.page slot
            (omega (arith, l.used.0, s.slots_fit, s.pointer_fits)))
          (ap (λ n. slice_at p.bytes (offset_of p slot) n) end
            ∙ slice_at-slice p.bytes (offset_of p slot) (offset_of p slot + plain_size p slot)
                (omega arith) (omega (arith, s.page, inside))
            ∙ ap returns l.same)
          made ran,
      ends,
    )
