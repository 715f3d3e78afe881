-- ===== src/Recovery/Inverse.antt =====
-- The two passes of recovery/log_recovery/log_recovery.go on one page: what `Undo` does for a record is the
-- opposite of what `Redo` does for it.
use samehada_db.Base.{
  ℕ, ◌+◌, ◌≤◌, ◌<◌, List, length, true, false, ◌==◌, if◌then◌else◌, none, Outcome, returns, ◌>>=◌,
  ◌≡◌, ◌≢◌, refl, arith, inl, inr, ap, ◌∙◌, sym, Bool-cases, subst, ==_refl,
}
use samehada_db.Ids.{Rid}
use samehada_db.Txn.{Tuple}
use samehada_db.Log.{LogRecord, mark_delete_type, rollback_delete_type, update_type}
use samehada_db.Log.Append.{IsReady}
use samehada_db.Page.{Page}
use samehada_db.TablePage.{Env, mark_delete, rollback_delete}
use samehada_db.TablePage.View.{Slot, free, live, marked, is_live, mark, unmark, stored, IsSound}
use samehada_db.TablePage.Delete.{mark_delete_marks}
use samehada_db.TablePage.Rollback.{rollback_delete-Unmarks}
use samehada_db.TablePage.Insert.{free_space}
use samehada_db.TablePage.Free.{IsUsed-stored}
use samehada_db.TablePage.Update.{update_tuple, updated_tuple}
use samehada_db.TablePage.Updates.{full, refused, updated, update_tuple-ends}
use samehada_db.Recovery.Redo.{redo_change}
use samehada_db.Recovery.Undo.{undo_change}

-- A tuple with bytes, of the size it says, that fits a page.
pub record IsTuple (t : Tuple) : Type 0 where
  pub exact : t.size ≡ length t.bytes
  pub some_bytes : 0 < t.size
  pub small : t.size ≤ 4096

-- A record that changes what the page stores.
pub data Applies (p : Page) (r : LogRecord) : Type 0 where
  marks :
      (bytes : List ℕ)
      → r.log_record_type ≡ mark_delete_type
      → stored p r.delete_rid.slot_num ≡ live bytes
      → Applies p r
  unmarks :
      (bytes : List ℕ)
      → r.log_record_type ≡ rollback_delete_type
      → stored p r.delete_rid.slot_num ≡ marked bytes
      → Applies p r
  updates :
      r.log_record_type ≡ update_type
      → stored p r.update_rid.slot_num ≡ live r.old_tuple.bytes
      → IsTuple r.old_tuple
      → IsTuple r.new_tuple
      → r.new_tuple.size ≤ free_space p + r.old_tuple.size
      → Applies p r

changes_one :
    (p q : Page) (slot : ℕ) (f : Slot → Slot) (x y : Slot)
    → ((i : ℕ) → stored q i ≡ (if i == slot then f (stored p i) else stored p i))
    → stored p slot ≡ x
    → f x ≡ y
    → (i : ℕ) → stored q i ≡ (if i == slot then y else stored p i)
changes_one p q slot f x y change h e i = elim (Bool-cases (i == slot)) [
  | inl here ↦
      let here' : i ≡ slot = ground arith in change i ∙ rw here (ap f (ap (stored p) here' ∙ h) ∙ e)
  | inr other ↦ change i ∙ rw other refl
]

-- The change of a page that is sound and stores these slots.
record Turns (e : Env) (q : Page) (slots : ℕ → Slot) (result : Outcome Page) : Type 0 where
  page : Page
  ran : result ≡ returns page
  sound : IsSound page
  stores : (i : ℕ) → stored page i ≡ slots i

module _ (e : Env) (unlogged : e.logging ≡ false) (ready : IsReady e.log) where
  marks_page :
      (p : Page) (r : LogRecord) (bytes : List ℕ)
      → IsSound p
      → stored p r.delete_rid.slot_num ≡ live bytes
      → Turns e p
          (λ i. if i == r.delete_rid.slot_num then mark (stored p i) else stored p i)
          (mark_delete e p r.delete_rid >>= λ reply. returns reply.page)
  marks_page p r bytes s h =
      let (reply, ran, m) = mark_delete_marks e p r.delete_rid s ready in
      let done : reply.done ≡ true = m.unlogged unlogged ∙ ap is_live h in
      record {
        page = reply.page;
        ran = rw ran refl;
        sound = m.sound;
        stores = λ i. m.slots i ∙ rw done refl;
      }

  unmarks_page :
      (p : Page) (r : LogRecord)
      → IsSound p
      → stored p r.delete_rid.slot_num ≢ free
      → Turns e p
          (λ i. if i == r.delete_rid.slot_num then unmark (stored p i) else stored p i)
          (rollback_delete e p r.delete_rid >>= λ reply. returns reply.1)
  unmarks_page p r s h =
      let (e', q, ran, u) =
        rollback_delete-Unmarks e p r.delete_rid s ready (IsUsed-stored p r.delete_rid.slot_num h).0
          (rw unlogged refl) in
      record { page = q; ran = rw ran refl; sound = u.sound; stores = u.slots }

  record Replaces (p : Page) (slot : ℕ) (old new : Tuple) (result : Outcome Page) : Type 0 where
    turn : Turns e p (λ i. if i == slot then live new.bytes else stored p i) result
    space : free_space turn.page + new.size ≡ free_space p + old.size

  updates_page :
      (p : Page) (old new given : Tuple) (rid : Rid)
      → IsSound p
      → stored p rid.slot_num ≡ live old.bytes
      → IsTuple old
      → IsTuple new
      → new.size ≤ free_space p + old.size
      → Replaces p rid.slot_num old new
          (update_tuple e p new none none given rid >>= λ reply. returns reply.page)
  unfolding updated_tuple
  updates_page p old new given rid s h o n room =
      let (reply, ran, ended) =
        update_tuple-ends e p new none none given rid old.bytes new s ready n.some_bytes h refl
          n.exact n.some_bytes n.small in
      elim ended [
        | full less _ _ _ _ _ ↦ absurd (omega (arith, less, o.exact, room))
        | refused on _ _ _ _ ↦ cc (on, unlogged)
        | updated fits won none_left old_there sound ready' slots pointer count ↦ record {
          turn = record { page = reply.page; ran = rw ran refl; sound = sound; stores = slots };
          space = omega (arith, pointer, count, o.exact, n.exact, s.slots_fit, sound.slots_fit);
        }
      ]

  -- A change of one slot and its opposite.
  back :
      (p q : Page) (slot : ℕ) (f g : Slot → Slot)
      → ((i : ℕ) → stored q i ≡ (if i == slot then f (stored p i) else stored p i))
      → g (f (stored p slot)) ≡ stored p slot
      → (i : ℕ) → (if i == slot then g (stored q i) else stored q i) ≡ stored p i
  back p q slot f g change opposite i = elim (Bool-cases (i == slot)) [
    | inl here ↦
        let here' : i ≡ slot = ground arith in
        let changed : stored q i ≡ f (stored p i) = change i ∙ rw here refl in
        rw here (ap g changed ∙ subst (λ k. g (f (stored p k)) ≡ stored p k) (sym here') opposite)
    | inr other ↦ let same : stored q i ≡ stored p i = change i ∙ rw other refl in rw other same
  ]

  slot_of_change :
      (p q : Page) (slot : ℕ) (f : Slot → Slot) (x : Slot)
      → ((i : ℕ) → stored q i ≡ (if i == slot then f (stored p i) else stored p i))
      → stored p slot ≡ x
      → stored q slot ≡ f x
  slot_of_change p q slot f x change h = change slot ∙ rw ==_refl (ap f h)

module _ (e : Env) (p : Page) (r : LogRecord) where
  redo_marks :
      r.log_record_type ≡ mark_delete_type
      → redo_change e p r ≡ (mark_delete e p r.delete_rid >>= λ reply. returns reply.page)
  unfolding redo_change
  redo_marks kind = simp kind refl

  redo_unmarks :
      r.log_record_type ≡ rollback_delete_type
      → redo_change e p r ≡ (rollback_delete e p r.delete_rid >>= λ reply. returns reply.1)
  unfolding redo_change
  redo_unmarks kind = simp kind refl

  redo_updates :
      r.log_record_type ≡ update_type
      → redo_change e p r ≡ (
          update_tuple e p r.new_tuple none none r.old_tuple r.update_rid >>= λ reply.
          returns reply.page)
  unfolding redo_change
  redo_updates kind = simp kind refl

  undo_marks :
      r.log_record_type ≡ mark_delete_type
      → undo_change e p r ≡ (rollback_delete e p r.delete_rid >>= λ reply. returns reply.1)
  unfolding undo_change
  undo_marks kind = simp kind refl

  undo_unmarks :
      r.log_record_type ≡ rollback_delete_type
      → undo_change e p r ≡ (mark_delete e p r.delete_rid >>= λ reply. returns reply.page)
  unfolding undo_change
  undo_unmarks kind = simp kind refl

  undo_updates :
      r.log_record_type ≡ update_type
      → undo_change e p r ≡ (
          update_tuple e p r.old_tuple none none r.new_tuple r.update_rid >>= λ reply.
          returns reply.page)
  unfolding undo_change
  undo_updates kind = simp kind refl

-- What a page stores when the change of the record is in it.
abbrev pub changed_slots : {p : Page} {r : LogRecord} → Applies p r → ℕ → Slot
changed_slots {p} {r} (marks bytes kind h) i =
    if i == r.delete_rid.slot_num then marked bytes else stored p i
changed_slots {p} {r} (unmarks bytes kind h) i =
    if i == r.delete_rid.slot_num then live bytes else stored p i
changed_slots {p} {r} (updates kind h o n room) i =
    if i == r.update_rid.slot_num then live r.new_tuple.bytes else stored p i

-- The page behind each of the two calls for a record.
abbrev pub Restores : Env → (p : Page) → (r : LogRecord) → Applies p r → Type 0
Restores e p r a =
    (q : Page) × (q' : Page) × (redo_change e p r ≡ returns q)
    × IsSound q
    × ((i : ℕ) → stored q i ≡ changed_slots a i)
    × (undo_change e q r ≡ returns q')
    × IsSound q'
    × ((i : ℕ) → stored q' i ≡ stored p i)

module _ (e : Env) (unlogged : e.logging ≡ false) (ready : IsReady e.log) where
  pub redo_change-IsSound :
      (p : Page) (r : LogRecord)
      → IsSound p
      → Applies p r
      → (q : Page) × (redo_change e p r ≡ returns q) × IsSound q
  redo_change-IsSound p r s (marks bytes kind h) =
      let a = marks_page e unlogged ready p r bytes s h in
      (a.page, redo_marks e p r kind ∙ a.ran, a.sound)
  redo_change-IsSound p r s (unmarks bytes kind h) =
      let a = unmarks_page e unlogged ready p r s (λ z. cc (sym z ∙ h)) in
      (a.page, redo_unmarks e p r kind ∙ a.ran, a.sound)
  redo_change-IsSound p r s (updates kind h o n room) =
      let a =
        updates_page e unlogged ready p r.old_tuple r.new_tuple r.old_tuple r.update_rid s h o n
          room in
      (a.turn.page, redo_updates e p r kind ∙ a.turn.ran, a.turn.sound)

  -- For a record of a delete mark, of its rollback or of an update, on a sound page that stores what the
  -- record says (an update having the room), with logging off: `Redo` leaves a sound page whose slot of the
  -- record is marked, live again with the same bytes, or live with the bytes of the new tuple, and whose other
  -- slots stay; `Undo` of the same record on that page leaves a sound page that stores in every slot what was
  -- stored before.
  pub undo_change-redo_change :
      (p : Page) (r : LogRecord) → IsSound p → (a : Applies p r) → Restores e p r a
  undo_change-redo_change p r s (marks bytes kind h) =
      let a = marks_page e unlogged ready p r bytes s h in
      let present : stored a.page r.delete_rid.slot_num ≢ free = λ z. cc (
        sym z
        ∙ slot_of_change e unlogged ready p a.page r.delete_rid.slot_num mark (live bytes) a.stores
            h) in
      let b = unmarks_page e unlogged ready a.page r a.sound present in
      (
        a.page,
        b.page,
        redo_marks e p r kind ∙ a.ran,
        a.sound,
        (λ i.
            changes_one p a.page r.delete_rid.slot_num mark (live bytes) (marked bytes) a.stores h
              refl i),
        undo_marks e a.page r kind ∙ b.ran,
        b.sound,
        λ i.
            b.stores i
            ∙ back e unlogged ready p a.page r.delete_rid.slot_num mark unmark a.stores (rw h refl)
                i,
      )
  undo_change-redo_change p r s (unmarks bytes kind h) =
      let present : stored p r.delete_rid.slot_num ≢ free = λ z. cc (sym z ∙ h) in
      let a = unmarks_page e unlogged ready p r s present in
      let alive : stored a.page r.delete_rid.slot_num ≡ live bytes =
        slot_of_change e unlogged ready p a.page r.delete_rid.slot_num unmark (marked bytes)
          a.stores h in
      let b = marks_page e unlogged ready a.page r bytes a.sound alive in
      (
        a.page,
        b.page,
        redo_unmarks e p r kind ∙ a.ran,
        a.sound,
        (λ i.
            changes_one p a.page r.delete_rid.slot_num unmark (marked bytes) (live bytes) a.stores h
              refl i),
        undo_unmarks e a.page r kind ∙ b.ran,
        b.sound,
        λ i.
            b.stores i
            ∙ back e unlogged ready p a.page r.delete_rid.slot_num unmark mark a.stores (rw h refl)
                i,
      )
  undo_change-redo_change p r s (updates kind h o n room) =
      let a =
        updates_page e unlogged ready p r.old_tuple r.new_tuple r.old_tuple r.update_rid s h o n
          room in
      let q = a.turn.page in
      let alive : stored q r.update_rid.slot_num ≡ live r.new_tuple.bytes =
        slot_of_change e unlogged ready p q r.update_rid.slot_num (λ x. live r.new_tuple.bytes)
          (stored p r.update_rid.slot_num) a.turn.stores refl in
      let b =
        updates_page e unlogged ready q r.new_tuple r.old_tuple r.new_tuple r.update_rid
          a.turn.sound alive n o (omega (arith, a.space)) in
      (
        q,
        b.turn.page,
        redo_updates e p r kind ∙ a.turn.ran,
        a.turn.sound,
        a.turn.stores,
        undo_updates e q r kind ∙ b.turn.ran,
        b.turn.sound,
        λ i.
            b.turn.stores i
            ∙ back e unlogged ready p q r.update_rid.slot_num (λ x. live r.new_tuple.bytes)
                (λ x. live r.old_tuple.bytes) a.turn.stores (sym h) i,
      )
