-- ===== src/Lock/Sets.antt =====
-- The lock sets of transaction.go under the lock calls: a grant adds the record to a set, an upgrade
-- moves it from the shared to the exclusive set, and nothing else leaves a set.
use samehada_db.Base.{
  ℕ, Bool, true, ◌||◌, List, [], ◌∷◌, ◌++◌, some, arith, ◌≡◌, refl, ◌≢◌, ◌⊎◌, returns,
}
use samehada_db.Ids.{Rid, rid_eq_iff, update}
use samehada_db.Txn.{Transaction, is_contains_rid, is_shared_locked, is_exclusive_locked}
use samehada_db.Lock.{LockManager, Reply, remove_rid, lock_shared, lock_exclusive, lock_upgrade}
use samehada_db.Lock.Tables.{contains_rid-append}

contains_rid_mono :
    (list : List Rid) (rid r : Rid)
    → is_contains_rid list r ≡ true
    → is_contains_rid (list ++ rid ∷ []) r ≡ true
unfolding is_contains_rid
contains_rid_mono [] rid r h = cc
contains_rid_mono (x ∷ list) rid r h = ground (arith, contains_rid_mono list rid r)

pub contains_rid-append_lists :
    (xs ys : List Rid) (r : Rid)
    → is_contains_rid (xs ++ ys) r ≡ (is_contains_rid xs r || is_contains_rid ys r)
unfolding is_contains_rid
contains_rid-append_lists [] ys r = refl
contains_rid-append_lists (x ∷ xs) ys r = ground (arith, contains_rid-append_lists xs ys r)

contains_rid-remove :
    (list : List Rid) (rid r : Rid)
    → rid ≢ r
    → is_contains_rid list r ≡ true
    → is_contains_rid (remove_rid list rid) r ≡ true
unfolding is_contains_rid remove_rid
contains_rid-remove [] rid r ne h = h
contains_rid-remove (x ∷ list) rid r ne h =
    ground (arith, rid_eq_iff x rid, rid_eq_iff r x, contains_rid-remove list rid r ne)

-- The two sets together.
abbrev pub is_locked : Transaction → Rid → Bool
is_locked txn r = is_shared_locked txn r || is_exclusive_locked txn r

-- The reply is to the same transaction, whose sets lose no lock.
pub record Grows (txn txn' : Transaction) : Type 0 where
  pub id : txn'.txn_id ≡ txn.txn_id
  pub any : (r : Rid) → is_locked txn r ≡ true → is_locked txn' r ≡ true
  pub ex : (r : Rid) → is_exclusive_locked txn r ≡ true → is_exclusive_locked txn' r ≡ true

module _ (lm : LockManager) (txn : Transaction) (rid : Rid) where
  pub lock_shared-Grows : Grows txn (lock_shared lm txn rid).txn
  unfolding lock_shared is_shared_locked is_exclusive_locked
  lock_shared-Grows = record {
    id = ground arith;
    any = λ r h. ground (arith, contains_rid_mono txn.shared_lock_set rid r);
    ex = λ r h. ground arith;
  }

  pub lock_exclusive-Grows : Grows txn (lock_exclusive lm txn rid).txn
  unfolding lock_exclusive is_shared_locked is_exclusive_locked
  lock_exclusive-Grows = record {
    id = ground arith;
    any = λ r h. ground (arith, contains_rid_mono txn.exclusive_lock_set rid r);
    ex = λ r h. ground (arith, contains_rid_mono txn.exclusive_lock_set rid r);
  }

  pub lock_upgrade-Grows :
      (reply : Reply) → lock_upgrade lm txn rid ≡ returns reply → Grows txn reply.txn
  unfolding lock_upgrade is_shared_locked is_exclusive_locked
  lock_upgrade-Grows reply e = record {
    id = ground arith;
    any = λ r h. ground (
      arith,
      rid_eq_iff rid r,
      contains_rid_mono txn.exclusive_lock_set rid r,
      contains_rid-append txn.exclusive_lock_set rid,
      contains_rid-remove txn.shared_lock_set rid r,
    );
    ex = λ r h. ground (arith, contains_rid_mono txn.exclusive_lock_set rid r);
  }

  pub shared-lock_upgrade :
      (reply : Reply) (r : Rid)
      → lock_upgrade lm txn rid ≡ returns reply
      → reply.manager.shared_lock_table r ≡ lm.shared_lock_table r
  unfolding lock_upgrade
  shared-lock_upgrade reply r e = ground arith

  pub exclusive-lock_upgrade :
      (reply : Reply) (r : Rid) (t : ℕ)
      → lock_upgrade lm txn rid ≡ returns reply
      → reply.manager.exclusive_lock_table r ≡ some t
      → (lm.exclusive_lock_table r ≡ some t)
        ⊎ ((rid ≡ r) × (txn.txn_id ≡ t) × (is_exclusive_locked reply.txn r ≡ true))
  unfolding lock_upgrade update is_exclusive_locked
  exclusive-lock_upgrade reply r t e h =
      ground (arith, rid_eq_iff rid r, contains_rid-append txn.exclusive_lock_set rid)
