-- ===== src/TablePage/Delete.antt =====
-- `MarkDelete` of storage/access/table_page.go on the slots of a page.
use samehada_db.Base.{
  ℕ, ◌+◌, ◌*◌, ◌≤◌, ◌<◌, true, false, leb, not, ◌&&◌, ltb, ◌==◌, if◌then◌else◌, returns, ◌≡◌, refl,
  arith, inl, inr, ap, ◌∙◌, sym, ◌>>=◌, Bool-cases, lt→ltb,
}
use samehada_db.Ids.{Rid}
use samehada_db.Log.{LogRecord, new_log_record_insert_delete, mark_delete_type, empty_tuple}
use samehada_db.Log.Append.{IsReady}
use samehada_db.Page.{
  Page, delete_mask, get_tuple_count, get_tuple_size, set_tuple_size, is_deleted, set_deleted_flag,
}
use samehada_db.Page.Flags.{is_deleted-eq, set_deleted_flag-add}
use samehada_db.Page.Slots.{count_of, size_of, get_tuple_count-count, get_tuple_size-size}
use samehada_db.TablePage.{Env, MarkReply, abort_if_logging, lock_and_log, mark_delete}
use samehada_db.TablePage.View.{is_live, mark, stored, IsSound}
use samehada_db.TablePage.Logging.{
  Fits-insert_delete, IsSound-SameBody, count-SameBody, size-SameBody,
}
use samehada_db.TablePage.Locking.{Locked, lock_and_log_total}
use samehada_db.TablePage.Mark.{reword, stored-SameBody}

-- What `MarkDelete` answers and leaves: it is done on a live tuple only, then marks that tuple, and
-- changes no other slot; with logging off, where no lock can refuse, it is done on every live tuple.
pub record MarksDeleted (e : Env) (p : Page) (slot : ℕ) (reply : MarkReply) : Type 0 where
  pub sound : IsSound reply.page
  pub ready : IsReady reply.env.log
  pub only_live : reply.done ≡ true → is_live (stored p slot) ≡ true
  pub unlogged : e.logging ≡ false → reply.done ≡ is_live (stored p slot)
  pub slots :
      (i : ℕ)
      → stored reply.page i ≡ (if reply.done && i == slot then mark (stored p i) else stored p i)

is_live-stored :
    (p : Page) (slot : ℕ)
    → IsSound p
    → slot < count_of p
    → is_live (stored p slot) ≡ not (is_deleted (size_of p slot))
unfolding stored
is_live-stored p slot s h = ground (arith, is_deleted-eq (size_of p slot) (s.words slot h))

mark_refused :
    (e : Env) (p : Page) (slot : ℕ)
    → IsSound p
    → IsReady e.log
    → is_live (stored p slot) ≡ false
    → MarksDeleted e p slot (record { done = false; env = abort_if_logging e; page = p })
unfolding abort_if_logging
mark_refused e p slot s c dead = record {
  sound = s;
  ready = ground arith;
  only_live = λ h. cc;
  unlogged = λ h. sym dead;
  slots = λ i. refl;
}

mark_page :
    (q : Page) (slot : ℕ)
    → IsSound q
    → slot < count_of q
    → is_deleted (size_of q slot) ≡ false
    → (q' : Page) × (set_tuple_size q slot (set_deleted_flag (size_of q slot)) ≡ returns q')
      × IsSound q'
      × ((i : ℕ) → stored q' i ≡ (if i == slot then mark (stored q i) else stored q i))
unfolding stored
mark_page q slot s h alive =
    let d = is_deleted-eq (size_of q slot) (s.words slot h) in
    let flag = set_deleted_flag-add (size_of q slot) in
    let low : size_of q slot < delete_mask = ground arith in
    let up = set_deleted_flag-add (size_of q slot) low in
    reword q s slot (set_deleted_flag (size_of q slot)) h mark (ground arith) (omega (arith, up))
      (omega (arith, up)) (ground (arith, up))

mark_behind_lock :
    (e : Env) (p : Page) (slot : ℕ) (reply : MarkReply)
    → IsSound p
    → slot < count_of p
    → is_deleted (size_of p slot) ≡ false
    → Locked e p reply
    → (reply' : MarkReply) × ((if reply.done && ltb 0 (size_of p slot)
          then (set_tuple_size reply.page slot (set_deleted_flag (size_of p slot)) >>= λ marked.
              returns (record reply { page = marked }))
          else returns reply)
        ≡ returns reply')
      × MarksDeleted e p slot reply'
mark_behind_lock e p slot reply s h alive l = elim (Bool-cases reply.done) [
  | inr refused ↦ (
    reply,
    simp refused,
    record {
      sound = s';
      ready = l.ready;
      only_live = λ k. cc (k, refused);
      unlogged = λ off. cc (l.unlogged off, refused);
      slots = λ i. simp refused (stored-SameBody l.body s i);
    },
  )
  | inl done ↦
      let same = size-SameBody l.body slot in
      let (q', written, sound, slots) =
        mark_page reply.page slot s' (omega (arith, count-SameBody l.body, h)) (rw same alive) in
      let written' = rw same at written in
      (
        record reply { page = q' },
        simp (done, lt→ltb 0 (size_of p slot) positive, written'),
        record {
          sound = sound;
          ready = l.ready;
          only_live = λ k. live_here;
          unlogged = λ off. done ∙ sym live_here;
          slots = λ i. ground (arith, slots i, done, stored-SameBody l.body s i);
        },
      )
]
  where
    s' : IsSound reply.page
    s' = IsSound-SameBody l.body s

    live_here : is_live (stored p slot) ≡ true
    live_here = is_live-stored p slot s h ∙ ap not alive

    positive : 0 < size_of p slot
    positive = ground (arith, is_deleted-eq (size_of p slot) (s.words slot h))

abbrev mark_record : Env → Rid → LogRecord
mark_record e rid =
    new_log_record_insert_delete e.txn.txn_id e.txn.prev_lsn mark_delete_type rid empty_tuple

mark_delete_runs :
    (e : Env) (p : Page) (rid : Rid) (reply reply' : MarkReply)
    → get_tuple_count p ≡ count_of p
    → leb (count_of p) rid.slot_num ≡ false
    → get_tuple_size p rid.slot_num ≡ returns (size_of p rid.slot_num)
    → is_deleted (size_of p rid.slot_num) ≡ false
    → lock_and_log e p rid (mark_record e rid) ≡ returns reply
    → (if reply.done && ltb 0 (size_of p rid.slot_num)
        then (set_tuple_size reply.page rid.slot_num (set_deleted_flag (size_of p rid.slot_num))
            >>= λ marked. returns (record reply { page = marked }))
        else returns reply)
      ≡ returns reply'
    → mark_delete e p rid ≡ returns reply'
unfolding mark_delete
mark_delete_runs e p rid reply reply' count inside size alive locked written =
    simp (count, inside, size, alive, locked) written

-- On a sound page with a ready log, `MarkDelete` always returns, whatever the locks say, and leaves
-- a sound page. It is done only if the slot holds a live tuple, which is then marked as deleted and
-- keeps its bytes; every other slot, and after a refusal every slot, stays as it was. With logging
-- off it is done exactly for live tuples.
pub mark_delete_marks :
    (e : Env) (p : Page) (rid : Rid)
    → IsSound p
    → IsReady e.log
    → (reply : MarkReply) × (mark_delete e p rid ≡ returns reply)
      × MarksDeleted e p rid.slot_num reply
unfolding mark_delete
mark_delete_marks e p rid s c =
    let count = get_tuple_count-count p s.page in
    elim (Bool-cases (leb (count_of p) rid.slot_num)) [
      | inl past ↦ (_, simp (count, past), mark_refused e p rid.slot_num s c (free_past past))
      | inr inside ↦
          let size = get_tuple_size-size p s.page rid.slot_num (room inside) in
          elim (Bool-cases (is_deleted (size_of p rid.slot_num))) [
            | inl dead ↦ (
              _,
              simp (count, inside, size, dead),
              mark_refused e p rid.slot_num s c
                  (is_live-stored p rid.slot_num s (below inside) ∙ ap not dead),
            )
            | inr alive ↦
                let (reply, locked, l) =
                  lock_and_log_total e p rid (mark_record e rid) c
                    (Fits-insert_delete _ _ _ rid empty_tuple (inr (inr (inl refl))) (omega arith))
                    s.page in
                let (reply', written, m) =
                  mark_behind_lock e p rid.slot_num reply s (below inside) alive l in
                (
                  reply',
                  mark_delete_runs e p rid reply reply' count inside size alive locked written,
                  m,
                )
          ]
    ]
  where
    below : leb (count_of p) rid.slot_num ≡ false → rid.slot_num < count_of p
    below h = ground arith

    room : leb (count_of p) rid.slot_num ≡ false → 32 + 8 * rid.slot_num ≤ 4096
    room h = omega (arith, below h, s.slots_fit, s.pointer_fits)

    free_past : leb (count_of p) rid.slot_num ≡ true → is_live (stored p rid.slot_num) ≡ false
    free_past h = unfold stored in ground arith
