-- ===== src/TablePage/Free.antt =====
-- `ApplyDelete` of storage/access/table_page.go frees a slot.
use samehada_db.Base.{
  ℕ, ◌+◌, ◌*◌, ◌≤◌, ◌<◌, List, [], true, ltb, not, ◌||◌, ◌==◌, if◌then◌else◌, some, returns, ◌≡◌,
  refl, arith, inl, inr, ap, ◌∙◌, sym, Bool-cases, ◌≢◌, lt→ltb,
}
use samehada_db.Ids.{Rid}
use samehada_db.Bytes.{u32, slice, slice_at}
use samehada_db.Bytes.Words.{slice_at-slice}
use samehada_db.Txn.{is_exclusive_locked}
use samehada_db.Log.{LogRecord, new_log_record_insert_delete, apply_delete_type}
use samehada_db.Log.Append.{IsReady}
use samehada_db.Page.{
  Page, get_tuple_count, is_deleted, unset_deleted_flag, get_tuple_size, get_tuple_offset_at_slot,
}
use samehada_db.Page.Flags.{is_deleted-eq, unset_deleted_flag-mod}
use samehada_db.Page.Slots.{
  fsp_of, count_of, offset_of, size_of, get_tuple_count-count, get_tuple_size-size,
  get_tuple_offset-offset,
}
use samehada_db.TablePage.{Env, write_log_record, close_gap, apply_delete}
use samehada_db.TablePage.View.{free, stored, plain_size, IsUsed, IsSound}
use samehada_db.TablePage.Logging.{
  write_log_record_total, Fits-insert_delete, IsSound-SameBody, count-SameBody, size-SameBody,
  offset-SameBody, fsp-SameBody,
}
use samehada_db.TablePage.Mark.{stored-SameBody}
use samehada_db.TablePage.Replaced.{IsSound-Replaced, stored-Replaced}
use samehada_db.TablePage.Apply.{close_gap-Replaced}

-- What `ApplyDelete` leaves: the slot is free, the others hold what they held, and the tuple's bytes are
-- free space.
pub record Frees (p : Page) (slot : ℕ) (e' : Env) (p' : Page) : Type 0 where
  pub sound : IsSound p'
  pub ready : IsReady e'.log
  pub slots : (i : ℕ) → stored p' i ≡ (if i == slot then free else stored p i)
  pub space : fsp_of p' ≡ fsp_of p + plain_size p slot

pub IsUsed-stored : (p : Page) (slot : ℕ) → stored p slot ≢ free → IsUsed p slot
unfolding stored
IsUsed-stored p slot h = elim (Bool-cases (ltb slot (count_of p))) [
  | inl inside ↦ (ground arith, (λ z. h (ground (arith, z))))
  | inr outside ↦ absurd (h (ground arith))
]

plain-size :
    (p : Page) (slot : ℕ)
    → size_of p slot < 4294967296
    → (if is_deleted (size_of p slot) then unset_deleted_flag (size_of p slot) else size_of p slot)
      ≡ plain_size p slot
plain-size p slot small =
    ground (arith, is_deleted-eq (size_of p slot) small, unset_deleted_flag-mod (size_of p slot))

removal_record : Env → Page → Rid → List ℕ → LogRecord
removal_record e p rid removed =
    new_log_record_insert_delete e.txn.txn_id e.txn.prev_lsn apply_delete_type rid
      (record { rid = some rid; size = plain_size p rid.slot_num; bytes = removed })

apply_delete_runs :
    (e e' : Env) (p p' q : Page) (rid : Rid) (removed : List ℕ)
    → ltb rid.slot_num (get_tuple_count p) ≡ true
    → get_tuple_offset_at_slot p rid.slot_num ≡ returns (offset_of p rid.slot_num)
    → get_tuple_size p rid.slot_num ≡ returns (size_of p rid.slot_num)
    → (if is_deleted (size_of p rid.slot_num)
        then unset_deleted_flag (size_of p rid.slot_num)
        else size_of p rid.slot_num)
      ≡ plain_size p rid.slot_num
    → slice_at p.bytes
        (offset_of p rid.slot_num)
        (u32 (offset_of p rid.slot_num + plain_size p rid.slot_num))
      ≡ returns removed
    → (not e.logging || is_exclusive_locked e.txn rid) ≡ true
    → write_log_record e p (removal_record e p rid removed) ≡ returns (e', p')
    → close_gap rid.slot_num (offset_of p rid.slot_num) (plain_size p rid.slot_num) p' ≡ returns q
    → apply_delete e p rid ≡ returns (e', q)
unfolding apply_delete removal_record
apply_delete_runs e e' p p' q rid removed h₁ h₂ h₃ h₄ h₅ h₆ h₇ h₈ =
    simp (h₁, h₂, h₃, h₄, h₅, h₆, h₇, h₈) refl

-- On a sound page with a ready log, for a slot with a live or a marked tuple whose record the transaction
-- has locked exclusively (or with logging off), `ApplyDelete` returns: it leaves a sound page on which
-- that slot is free, every other slot holds the bytes that it held, though they may have moved, with
-- the mark that it had, and the free space has grown by the size of the tuple.
pub apply_delete-Frees :
    (e : Env) (p : Page) (rid : Rid)
    → IsSound p
    → IsReady e.log
    → stored p rid.slot_num ≢ free
    → (not e.logging || is_exclusive_locked e.txn rid) ≡ true
    → (e' : Env) × (p' : Page) × (apply_delete e p rid ≡ returns (e', p'))
      × Frees p rid.slot_num e' p'
unfolding removal_record
apply_delete-Frees e p rid s c present owned =
    let slot = rid.slot_num in
    let u = IsUsed-stored p slot present in
    let inside = s.inside slot u in
    let removed = slice (offset_of p slot) (offset_of p slot + plain_size p slot) p.bytes in
    let (e', p', written, logged) =
      write_log_record_total e p (removal_record e p rid removed) c
        (Fits-insert_delete _ _ _ rid _ (inr (inl refl)) (omega arith)) s.page in
    let s' = IsSound-SameBody logged.body s in
    let plain : plain_size p' slot ≡ plain_size p slot =
      omega (arith, size-SameBody logged.body slot) in
    let u' : IsUsed p' slot = (
      omega (arith, u.0, count-SameBody logged.body),
      (λ z. u.1 (sym (size-SameBody logged.body slot) ∙ z)),
    ) in
    let (q, ran, w) = close_gap-Replaced p' slot s' u' in
    let room : 24 + 8 * count_of p' + 0 ≤ fsp_of p' + plain_size p' slot =
      omega (arith, s'.slots_fit) in
    let end : u32 (offset_of p slot + plain_size p slot) ≡ offset_of p slot + plain_size p slot =
      omega arith in
    (
      e',
      q,
      apply_delete_runs e e' p p' q rid removed
          (ap (λ n. ltb slot n) (get_tuple_count-count p s.page) ∙ lt→ltb slot (count_of p) u.0)
          (get_tuple_offset-offset p s.page slot (omega (arith, u.0, s.slots_fit, s.pointer_fits)))
          (get_tuple_size-size p s.page slot (omega (arith, u.0, s.slots_fit, s.pointer_fits)))
          (plain-size p slot (s.words slot u.0))
          (ap (λ n. slice_at p.bytes (offset_of p slot) n) end
            ∙ slice_at-slice p.bytes (offset_of p slot) (offset_of p slot + plain_size p slot)
                (omega arith) (omega (arith, s.page)))
          owned written
          (ap (λ o. close_gap slot o (plain_size p slot) p')
              (sym (offset-SameBody logged.body slot))
            ∙ ap (λ a. close_gap slot (offset_of p' slot) a p') (sym plain)
            ∙ ran),
      record {
        sound = IsSound-Replaced p' q slot [] s' u' room w;
        ready = logged.ready;
        slots = λ i.
            stored-Replaced p' q slot [] s' u' room w i
            ∙ ap (λ t. if i == slot then free else t) (stored-SameBody logged.body s i);
        space = omega (arith, w.pointer, fsp-SameBody logged.body, plain);
      },
    )
