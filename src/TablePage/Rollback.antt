-- ===== src/TablePage/Rollback.antt =====
-- `RollbackDelete` of storage/access/table_page.go on the slots of a page, alone and after a mark.
use samehada_db.Base.{
  ℕ, ◌+◌, ◌*◌, ◌≤◌, ◌<◌, true, false, not, ◌||◌, ◌==◌, if◌then◌else◌, returns, ◌≡◌, refl, arith,
  inl, inr, ap, ◌∙◌, Bool-cases, lt→ltb,
}
use samehada_db.Ids.{Rid}
use samehada_db.Bytes.{le32}
use samehada_db.Bytes.Words.{copy_at_zero}
use samehada_db.Txn.{is_exclusive_locked}
use samehada_db.Log.{LogRecord, new_log_record_insert_delete, rollback_delete_type, empty_tuple}
use samehada_db.Log.Append.{IsReady}
use samehada_db.Page.{Page, set_tuple_size, is_deleted, unset_deleted_flag}
use samehada_db.Page.Flags.{is_deleted-eq, unset_deleted_flag-mod}
use samehada_db.Page.Slots.{
  count_of, size_of, patch, get_tuple_count-count, get_tuple_size-size, set_tuple_size-patch,
}
use samehada_db.TablePage.{Env, rollback_delete, clear_mark}
use samehada_db.TablePage.View.{free, unmark, stored, IsSound}
use samehada_db.TablePage.Logging.{
  write_log_record_total, Fits-insert_delete, IsSound-SameBody, count-SameBody,
}
use samehada_db.TablePage.Mark.{stored-SameBody, reword}

abbrev SlotsUnmarked : Page → Page → ℕ → Type 0
SlotsUnmarked q q' slot =
    (i : ℕ) → stored q' i ≡ (if i == slot then unmark (stored q i) else stored q i)

-- The branch of a slot whose size word has the mark, or is 0.
unmark_page :
    (q : Page) (slot : ℕ)
    → IsSound q
    → slot < count_of q
    → is_deleted (size_of q slot) ≡ true
    → (q' : Page) × (set_tuple_size q slot (unset_deleted_flag (size_of q slot)) ≡ returns q')
      × IsSound q'
      × SlotsUnmarked q q' slot
unmark_page q slot s h dead = elim (Bool-cases (size_of q slot == 0)) [
  | inl empty ↦
      let none : size_of q slot ≡ 0 = ground arith in
      let plain : unset_deleted_flag (size_of q slot) ≡ 0 =
        omega (arith, unset_deleted_flag-mod (size_of q slot)) in
      (
        q,
        rw plain (set_tuple_size-patch q s.page slot room 0 ∙ same_page none),
        s,
        λ i. unchanged i none,
      )
  | inr used ↦
      let plain = unset_deleted_flag-mod (size_of q slot) in
      reword q s slot (unset_deleted_flag (size_of q slot)) h unmark (ground arith)
        (omega (arith, plain)) (omega (arith, plain))
        (unfold stored in
          ground (arith, plain, is_deleted-eq (size_of q slot) (s.words slot h), s.nonempty slot))
]
  where
    room : 32 + 8 * slot ≤ 4096
    room = omega (arith, s.slots_fit, s.pointer_fits)

    same_page : size_of q slot ≡ 0 → returns (patch q (28 + 8 * slot) (le32 0)) ≡ returns q
    same_page none =
        ap (λ b. returns (record q { bytes = b })) (copy_at_zero (28 + 8 * slot) q.bytes none)

    unchanged :
        (i : ℕ)
        → size_of q slot ≡ 0
        → stored q i ≡ (if i == slot then unmark (stored q i) else stored q i)
    unchanged i none = elim (Bool-cases (i == slot)) [
      | inr other ↦ rw other refl
      | inl here ↦
          let here' : i ≡ slot = ground arith in
          let zero_here : size_of q i ≡ 0 = rw here' none in
          let free_here : stored q i ≡ free = unfold stored in ground (arith, zero_here) in
          ground (arith, free_here)
    ]

unlive_page :
    (q : Page) (slot : ℕ)
    → IsSound q
    → slot < count_of q
    → is_deleted (size_of q slot) ≡ false
    → SlotsUnmarked q q slot
unfolding stored
unlive_page q slot s h alive i = ground (arith, is_deleted-eq (size_of q slot) (s.words slot h))

rollback_record : Env → Rid → LogRecord
rollback_record e rid =
    new_log_record_insert_delete e.txn.txn_id e.txn.prev_lsn rollback_delete_type rid empty_tuple

-- What `RollbackDelete` leaves.
pub record Unmarks (p : Page) (slot : ℕ) (e' : Env) (p' : Page) : Type 0 where
  pub sound : IsSound p'
  pub ready : IsReady e'.log
  pub slots : SlotsUnmarked p p' slot

-- On a sound page with a ready log, for a slot of the page whose record the transaction has locked
-- exclusively (or with logging off), `RollbackDelete` returns: a marked tuple is live again with the
-- same bytes, and every other slot is as it was.
pub rollback_delete-Unmarks :
    (e : Env) (p : Page) (rid : Rid)
    → IsSound p
    → IsReady e.log
    → rid.slot_num < count_of p
    → (not e.logging || is_exclusive_locked e.txn rid) ≡ true
    → (e' : Env) × (p' : Page) × (rollback_delete e p rid ≡ returns (e', p'))
      × Unmarks p rid.slot_num e' p'
unfolding rollback_delete rollback_record clear_mark
rollback_delete-Unmarks e p rid s c h owned =
    let (e', q, written, logged) =
      write_log_record_total e p (rollback_record e rid) c
        (Fits-insert_delete _ _ _ rid empty_tuple (inr (inr (inr refl))) (omega arith)) s.page in
    let sq = IsSound-SameBody logged.body s in
    let hq : rid.slot_num < count_of q = omega (arith, h, count-SameBody logged.body) in
    let (q', ran, done) = finish e' q sq logged.ready hq in
    (
      e',
      q',
      rw (owned, written, get_tuple_count-count q sq.page, lt→ltb rid.slot_num (count_of q) hq) ran,
      record {
        sound = done.sound;
        ready = done.ready;
        slots = λ i.
            done.slots i
            ∙ ap (λ t. if i == rid.slot_num then unmark t else t) (stored-SameBody logged.body s i);
      },
    )
  where
    finish :
        (e' : Env) (q : Page)
        → IsSound q
        → IsReady e'.log
        → rid.slot_num < count_of q
        → (q' : Page) × (clear_mark e' q rid.slot_num ≡ returns (e', q'))
          × Unmarks q rid.slot_num e' q'
    finish e' q sq ready hq =
        let size =
          get_tuple_size-size q sq.page rid.slot_num
            (omega (arith, sq.slots_fit, sq.pointer_fits)) in
        elim (Bool-cases (is_deleted (size_of q rid.slot_num))) [
          | inr alive ↦ (
            q,
            simp (size, alive),
            record { sound = sq; ready = ready; slots = unlive_page q rid.slot_num sq hq alive },
          )
          | inl dead ↦
              let (q', written, sound, slots) = unmark_page q rid.slot_num sq hq dead in
              (
                q',
                simp (size, dead, written),
                record { sound = sound; ready = ready; slots = slots },
              )
        ]
