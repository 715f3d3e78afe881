-- ===== src/Recovery/Again.antt =====
-- `Redo` of recovery/log_recovery/log_recovery.go on one page, done twice.
use samehada_db.Base.{
  ℕ, ◌+◌, ◌≤◌, ◌<◌, true, false, some, returns, ◌≡◌, ◌≢◌, refl, arith, inl, inr, ap, ◌∙◌,
  Bool-cases,
}
use samehada_db.Bytes.Words.{word32-copy_self}
use samehada_db.Log.{LogRecord, insert_type, apply_delete_type}
use samehada_db.Log.Append.{IsReady}
use samehada_db.Value.{int_lt}
use samehada_db.Page.{Page, get_lsn, set_lsn, copy_header}
use samehada_db.Page.Slots.{IsPage, read_header}
use samehada_db.TablePage.{Env, InsertReply, insert_tuple, apply_delete}
use samehada_db.TablePage.View.{free, stored, IsSound}
use samehada_db.TablePage.Logging.{SameBody-set_lsn, IsSound-SameBody}
use samehada_db.TablePage.Insert.{free_space, empty, full, refused, stores, insert_tuple_ends}
use samehada_db.TablePage.Free.{apply_delete-Frees}
use samehada_db.Recovery.Redo.{redo_change, redo_page}
use samehada_db.Recovery.Inverse.{IsTuple, Applies, redo_change-IsSound}

-- A record that can be done on a page.
pub data Redoes (p : Page) (r : LogRecord) : Type 0 where
  inserts :
      r.log_record_type ≡ insert_type
      → IsTuple r.insert_tuple
      → r.insert_tuple.size + 8 ≤ free_space p
      → Redoes p r
  removes :
      r.log_record_type ≡ apply_delete_type → stored p r.delete_rid.slot_num ≢ free → Redoes p r
  applies : Applies p r → Redoes p r

get_lsn-set_lsn : (p : Page) (lsn : ℕ) → IsPage p → lsn < 4294967296 → get_lsn (set_lsn p lsn) ≡ lsn
unfolding get_lsn set_lsn copy_header
get_lsn-set_lsn p lsn page small =
    read_header (set_lsn p lsn) 4 (SameBody-set_lsn p lsn page).page (omega arith)
    ∙ word32-copy_self 4 lsn p.bytes (omega (arith, page))
    ∙ omega arith

int_lt_self : (n : ℕ) → int_lt n n ≡ false
unfolding int_lt
int_lt_self n = ground arith

insert_runs :
    (e : Env) (p : Page) (r : LogRecord) (reply : InsertReply)
    → r.log_record_type ≡ insert_type
    → insert_tuple e p (record (r.insert_tuple) { rid = some r.insert_rid }) ≡ returns reply
    → redo_change e p r ≡ returns reply.page
unfolding redo_change
insert_runs e p r reply kind ran = simp (kind, ran) refl

remove_runs :
    (e e' : Env) (p q : Page) (r : LogRecord)
    → r.log_record_type ≡ apply_delete_type
    → apply_delete e p r.delete_rid ≡ returns (e', q)
    → redo_change e p r ≡ returns q
unfolding redo_change
remove_runs e e' p q r kind ran = simp (kind, ran) refl

redo_runs :
    (e : Env) (p q : Page) (r : LogRecord)
    → int_lt (get_lsn p) r.lsn ≡ true
    → redo_change e p r ≡ returns q
    → redo_page e p r ≡ returns (set_lsn q r.lsn)
unfolding redo_page
redo_runs e p q r newer ran = simp (newer, ran) refl

redo_rests :
    (e : Env) (p : Page) (r : LogRecord)
    → int_lt (get_lsn p) r.lsn ≡ false
    → redo_page e p r ≡ returns p
unfolding redo_page
redo_rests e p r older = simp older refl

module _ (e : Env) (unlogged : e.logging ≡ false) (ready : IsReady e.log) where
  redo_change_total :
      (p : Page) (r : LogRecord)
      → IsSound p
      → Redoes p r
      → (q : Page) × (redo_change e p r ≡ returns q) × IsSound q
  redo_change_total p r s (applies a) =
      let (q, ran, sound) = redo_change-IsSound e unlogged ready p r s a in (q, ran, sound)
  redo_change_total p r s (inserts kind t room) =
      let (reply, ran, ended) =
        insert_tuple_ends e p (record (r.insert_tuple) { rid = some r.insert_rid }) s ready t.exact
          (omega (arith, t.small)) in
      elim ended [
        | empty zero_size _ _ ↦ absurd (omega (arith, zero_size, t.some_bytes))
        | full _ less _ _ ↦ absurd (omega (arith, less, room))
        | refused on _ _ ↦ cc (on, unlogged)
        | stores rid _ _ _ i ↦ (reply.page, insert_runs e p r reply kind ran, i.sound)
      ]
  redo_change_total p r s (removes kind present) =
      let (e', q, ran, f) =
        apply_delete-Frees e p r.delete_rid s ready present (rw unlogged refl) in
      (q, remove_runs e e' p q r kind ran, f.sound)

  -- For a record that can be done on a sound page, with logging off: `Redo` of it returns a sound page, and
  -- `Redo` of the same record on that page returns it unchanged. Where the page's LSN, as a signed number, is
  -- not below that of the record, the page does not change at all; else it gets that LSN.
  pub redo_page-again :
      (p : Page) (r : LogRecord)
      → IsSound p
      → r.lsn < 4294967296
      → Redoes p r
      → (q : Page) × (redo_page e p r ≡ returns q)
        × IsSound q
        × (redo_page e q r ≡ returns q)
        × (int_lt (get_lsn p) r.lsn ≡ false → q ≡ p)
        × (int_lt (get_lsn p) r.lsn ≡ true → get_lsn q ≡ r.lsn)
  redo_page-again p r s small can = elim (Bool-cases (int_lt (get_lsn p) r.lsn)) [
    | inr older ↦ (
      p,
      redo_rests e p r older,
      s,
      redo_rests e p r older,
      (λ _. refl),
      (λ newer. cc (older, newer)),
    )
    | inl newer ↦
        let (q, ran, sound) = redo_change_total p r s can in
        let at = get_lsn-set_lsn q r.lsn sound.page small in
        let still : int_lt (get_lsn (set_lsn q r.lsn)) r.lsn ≡ false =
          ap (λ n. int_lt n r.lsn) at ∙ int_lt_self r.lsn in
        (
          set_lsn q r.lsn,
          redo_runs e p q r newer ran,
          IsSound-SameBody (SameBody-set_lsn q r.lsn sound.page) sound,
          redo_rests e (set_lsn q r.lsn) r still,
          (λ older. cc (older, newer)),
          (λ _. at),
        )
  ]
