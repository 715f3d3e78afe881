-- ===== src/TablePage/Locking.antt =====
-- The locks that the operations of storage/access/table_page.go take, with the log record behind them.
use samehada_db.Base.{
  Bool, true, false, returns, ◌≡◌, refl, arith, inl, inr, Bool-cases, Option-cases,
}
use samehada_db.Ids.{Rid}
use samehada_db.Txn.{Transaction, is_shared_locked, is_exclusive_locked}
use samehada_db.Lock.{LockManager, Reply, lock_upgrade, lock_exclusive}
use samehada_db.Log.{LogRecord}
use samehada_db.Log.Append.{IsReady, Fits}
use samehada_db.Page.{Page}
use samehada_db.Page.Slots.{IsPage}
use samehada_db.TablePage.{Env, MarkReply, settle, lock_tuple, lock_and_log}
use samehada_db.TablePage.View.{SameBody}
use samehada_db.TablePage.Logging.{write_log_record_total, SameBody-refl}

settle_keeps :
    (e : Env) (reply : Reply)
    → ((settle e reply).1.log ≡ e.log) × ((settle e reply).1.logging ≡ e.logging)
unfolding settle
settle_keeps e reply = (ground arith, ground arith)

lock_upgrade_returns :
    (lm : LockManager) (txn : Transaction) (r : Rid)
    → is_shared_locked txn r ≡ true
    → (reply : Reply) × (lock_upgrade lm txn r ≡ returns reply)
unfolding lock_upgrade
lock_upgrade_returns lm txn r h = elim (Option-cases (lm.exclusive_lock_table r)) [
  | inl e ↦ rw (h, e, lock_upgrade) (_, refl)
  | inr (owner, e) ↦ rw (h, e, lock_upgrade) (_, refl)
]

-- `LockUpgrade` does not panic here: it is called only for a record in the shared set.
pub lock_tuple_total :
    (e : Env) (rid : Rid)
    → (held : Bool) × (e' : Env) × (lock_tuple e rid ≡ returns (held, e'))
      × (e'.log ≡ e.log)
      × (e'.logging ≡ e.logging)
unfolding lock_tuple
lock_tuple_total e rid = elim (Bool-cases (is_shared_locked e.txn rid)) [
  | inl shared ↦
      let (reply, r) = lock_upgrade_returns e.locks e.txn rid shared in
      let (k₁, k₂) = settle_keeps e reply in
      ((settle e reply).0, (settle e reply).1, rw (shared, r) refl, k₁, k₂)
  | inr unshared ↦ elim (Bool-cases (is_exclusive_locked e.txn rid)) [
    | inl owned ↦ (true, e, rw (unshared, owned) refl, refl, refl)
    | inr unowned ↦
        let reply = lock_exclusive e.locks e.txn rid in
        let (k₁, k₂) = settle_keeps e reply in
        ((settle e reply).0, (settle e reply).1, rw (unshared, unowned) refl, k₁, k₂)
  ]
]

-- What the lock and the log record of a mark leave; with logging off there is no refusal.
pub record Locked (e : Env) (p : Page) (reply : MarkReply) : Type 0 where
  pub ready : IsReady reply.env.log
  pub body : SameBody p reply.page
  pub unlogged : e.logging ≡ false → reply.done ≡ true

pub lock_and_log_total :
    (e : Env) (p : Page) (rid : Rid) (r : LogRecord)
    → IsReady e.log
    → Fits r
    → IsPage p
    → (reply : MarkReply) × (lock_and_log e p rid r ≡ returns reply) × Locked e p reply
unfolding lock_and_log
lock_and_log_total e p rid r c fits len = elim (Bool-cases e.logging) [
  | inr off ↦ (
    record { done = true; env = e; page = p },
    rw off refl,
    record { ready = c; body = SameBody-refl len; unlogged = λ _. refl },
  )
  | inl on ↦
      let (held, e', locked, same_log, same_logging) = lock_tuple_total e rid in
      elim (Bool-cases held) [
        | inr lost ↦ (
          record { done = false; env = e'; page = p },
          rw (locked, lost, on) refl,
          record {
            ready = rw same_log c;
            body = SameBody-refl len;
            unlogged = λ off. cc (on, off);
          },
        )
        | inl won ↦
            let (e'', p', written, logged) =
              write_log_record_total e' p r (rw same_log c) fits len in
            (
              record { done = true; env = e''; page = p' },
              rw (locked, won, written, on) refl,
              record { ready = logged.ready; body = logged.body; unlogged = λ _. refl },
            )
      ]
]
