-- ===== src/TablePage/Logging.antt =====
-- The log calls of storage/access/table_page.go: they return on a ready manager, and the page number
-- and the LSN are all that they can change on the page.
use samehada_db.Base.{ℕ, ◌+◌, ◌*◌, ◌≤◌, returns, ◌≡◌, refl, arith, ◌⊎◌, inl, inr, ◌∙◌, Bool-cases}
use samehada_db.Ids.{Rid}
use samehada_db.Bytes.{le32}
use samehada_db.Bytes.Slices.{length-copy_at, get_or-copy_at}
use samehada_db.Txn.{Tuple}
use samehada_db.Log.{
  LogRecord, new_log_record_insert_delete, insert_type, mark_delete_type, apply_delete_type,
  rollback_delete_type,
}
use samehada_db.Log.Append.{IsReady, Fits, append_log_record_total}
use samehada_db.Page.{Page, copy_header, set_lsn}
use samehada_db.Page.Slots.{fsp_of, count_of, offset_of, size_of, IsPage}
use samehada_db.TablePage.{Env, write_log_record}
use samehada_db.TablePage.View.{IsUsed, IsSound, SameBody, word-SameBody}

pub SameBody-refl : {p : Page} → IsPage p → SameBody p p
SameBody-refl len = record { page = len; byte = λ j h. refl }

pub SameBody-set_lsn : (p : Page) (lsn : ℕ) → IsPage p → SameBody p (set_lsn p lsn)
unfolding set_lsn copy_header le32
SameBody-set_lsn p lsn len = record {
  page = length-copy_at 4 (le32 lsn) p.bytes ∙ len;
  byte = λ j h. ground (arith, get_or-copy_at 4 (le32 lsn) p.bytes j);
}

-- What a log call leaves: the settings and the locks, a ready manager, and the body of the page.
pub record Logged (e e' : Env) (p p' : Page) : Type 0 where
  pub same_logging : e'.logging ≡ e.logging
  pub same_locks : e'.locks ≡ e.locks
  pub same_sets :
      (e'.txn.shared_lock_set ≡ e.txn.shared_lock_set)
      × (e'.txn.exclusive_lock_set ≡ e.txn.exclusive_lock_set)
      × (e'.txn.state ≡ e.txn.state)
  pub ready : IsReady e'.log
  pub body : SameBody p p'

pub write_log_record_total :
    (e : Env) (p : Page) (r : LogRecord)
    → IsReady e.log
    → Fits r
    → IsPage p
    → (e' : Env) × (p' : Page) × (write_log_record e p r ≡ returns (e', p')) × Logged e e' p p'
unfolding write_log_record
write_log_record_total e p r c fits len = elim (Bool-cases e.logging) [
  | inr off ↦ (
    e,
    p,
    rw off,
    record {
      same_logging = refl;
      same_locks = refl;
      same_sets = (refl, refl, refl);
      ready = c;
      body = SameBody-refl len;
    },
  )
  | inl on ↦
      let (log, r', appended, done) = append_log_record_total e.log r c fits in
      (
        record e { log = log; txn = record (e.txn) { prev_lsn = r'.lsn } },
        set_lsn p r'.lsn,
        rw (on, appended),
        record {
          same_logging = refl;
          same_locks = refl;
          same_sets = (refl, refl, refl);
          ready = done.ready;
          body = SameBody-set_lsn p r'.lsn len;
        },
      )
]

pub Fits-insert_delete :
    (txn_id prev_lsn kind : ℕ) (rid : Rid) (tuple : Tuple)
    → (kind ≡ insert_type)
      ⊎ (kind ≡ apply_delete_type)
      ⊎ (kind ≡ mark_delete_type)
      ⊎ (kind ≡ rollback_delete_type)
    → tuple.size ≤ 4096
    → Fits (new_log_record_insert_delete txn_id prev_lsn kind rid tuple)
unfolding new_log_record_insert_delete
Fits-insert_delete txn_id prev_lsn kind rid tuple k h = record {
  exact = ground arith;
  small = ground arith;
}

module _ {p q : Page} (same : SameBody p q) where
  pub count-SameBody : count_of q ≡ count_of p
  count-SameBody = word-SameBody 20 same (omega arith)

  pub fsp-SameBody : fsp_of q ≡ fsp_of p
  fsp-SameBody = word-SameBody 16 same (omega arith)

  pub size-SameBody : (i : ℕ) → size_of q i ≡ size_of p i
  size-SameBody i = word-SameBody (28 + 8 * i) same (omega arith)

  pub offset-SameBody : (i : ℕ) → offset_of q i ≡ offset_of p i
  offset-SameBody i = word-SameBody (24 + 8 * i) same (omega arith)

  IsUsed-SameBody : {i : ℕ} → IsUsed q i → IsUsed p i
  IsUsed-SameBody {i} u = ground (arith, count-SameBody, size-SameBody i)

  pub IsSound-SameBody : IsSound p → IsSound q
  IsSound-SameBody s = record {
    page = same.page;
    slots_fit = omega (arith, count-SameBody, fsp-SameBody, s.slots_fit);
    pointer_fits = omega (arith, fsp-SameBody, s.pointer_fits);
    words = λ i h. ground (arith, s.words i, count-SameBody, size-SameBody i);
    nonempty = λ i u. ground (arith, s.nonempty i (IsUsed-SameBody u), size-SameBody i);
    inside = λ i u.
        ground
          (arith, s.inside i (IsUsed-SameBody u), fsp-SameBody, size-SameBody i, offset-SameBody i);
    apart = λ i j u v ne. ground (
      arith,
      s.apart i j (IsUsed-SameBody u) (IsUsed-SameBody v) ne,
      size-SameBody i,
      offset-SameBody i,
      size-SameBody j,
      offset-SameBody j,
    );
  }
