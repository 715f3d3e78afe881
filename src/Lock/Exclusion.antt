-- ===== src/Lock/Exclusion.antt =====
-- Every call of lock_manager.go keeps the system consistent, and so every interleaving of calls.
use samehada_db.Base.{
  ℕ, true, false, List, [], ◌++◌, none, some, arith, ◌≡◌, refl, ◌≢◌, ◌⊎◌, inl, inr, Bool-cases,
  returns, sym, ◌∙◌, subst, ◌↔◌, ap,
}
use samehada_db.Ids.{Rid}
use samehada_db.Txn.{Transaction, new_transaction, is_shared_locked, is_exclusive_locked}
use samehada_db.Lock.{
  LockManager, TwoPlMode, DeadlockMode, Reply, is_contain_txn_id, lock_shared, lock_exclusive,
  lock_upgrade, unlock, release_locks, new_lock_manager,
}
use samehada_db.Lock.Tables.{
  sharers, Distinct, exclusive-lock_shared, contain-lock_shared, Distinct-lock_shared,
  shared-lock_exclusive, exclusive-lock_exclusive,
}
use samehada_db.Lock.Sets.{
  contains_rid-append_lists, is_locked, Grows, lock_shared-Grows, lock_exclusive-Grows,
  lock_upgrade-Grows, shared-lock_upgrade, exclusive-lock_upgrade,
}
use samehada_db.Lock.Release.{
  Distinct-unlock, exclusive-unlock, contain-unlock, unlock_others, unlock_shrinks,
}
use samehada_db.Lock.System.{
  System, answer, start, SoleSharer, Step, shared, exclusive, upgrade, release, Reach, here, next,
  IsConsistent,
}

-- What a reply may add to the tables: entries of the transaction itself, where nobody else has one.
record IsFair (s : System) (t : ℕ) (reply : Reply) : Type 0 where
  grows : Grows (s.txn_of t) reply.txn
  distinct : (r : Rid) → Distinct (sharers reply.manager r)
  new_exclusive :
      (r : Rid) (u : ℕ)
      → reply.manager.exclusive_lock_table r ≡ some u
      → (s.manager.exclusive_lock_table r ≡ some u)
        ⊎ ((u ≡ t) × SoleSharer s.manager r t × (is_exclusive_locked reply.txn r ≡ true))
  new_shared :
      (r : Rid) (u : ℕ)
      → is_contain_txn_id (sharers reply.manager r) u ≡ true
      → (is_contain_txn_id (sharers s.manager r) u ≡ true)
        ⊎ ((u ≡ t) × (s.manager.exclusive_lock_table r ≡ none) × (is_locked reply.txn r ≡ true))

module _ (s : System) (t : ℕ) (reply : Reply) (c : IsConsistent s) (f : IsFair s t reply) where
  answer_exclusion :
      (r : Rid) (w : ℕ)
      → reply.manager.exclusive_lock_table r ≡ some w
      → SoleSharer reply.manager r w
  answer_exclusion r w h u k = both (f.new_exclusive r w h) (f.new_shared r u k)
    where
      both :
          (s.manager.exclusive_lock_table r ≡ some w)
            ⊎ ((w ≡ t) × SoleSharer s.manager r t × (is_exclusive_locked reply.txn r ≡ true))
          → (is_contain_txn_id (sharers s.manager r) u ≡ true)
            ⊎ ((u ≡ t) × (s.manager.exclusive_lock_table r ≡ none) × (is_locked reply.txn r ≡ true))
          → u ≡ w
      both (inl a) (inl b) = c.exclusion r w a u b
      both (inl a) (inr b) = cc (b.1)
      both (inr a) (inl b) = a.1 u b ∙ sym a.0
      both (inr a) (inr b) = b.0 ∙ sym a.0

  answer-IsConsistent : IsConsistent (answer s t reply)
  answer-IsConsistent = record {
    ids = λ u. ground (arith, c.ids t, c.ids u, f.grows.id);
    exclusion = answer_exclusion;
    distinct = f.distinct;
    own_exclusive =
        λ r u h. ground (arith, f.new_exclusive r u h, c.own_exclusive r u, f.grows.ex r);
    own_shared = λ r u h. ground (arith, f.new_shared r u h, c.own_shared r u, f.grows.any r);
  }

not_shared :
    (lm : LockManager) (r : Rid) (u : ℕ)
    → sharers lm r ≡ []
    → is_contain_txn_id (sharers lm r) u ≡ true
    → ⊥
unfolding is_contain_txn_id
not_shared lm r u e h = cc

module _ (s : System) (c : IsConsistent s) where
  shared-IsFair : (t : ℕ) (r : Rid) → IsFair s t (lock_shared s.manager (s.txn_of t) r)
  shared-IsFair t rid = record {
    grows = lock_shared-Grows lm txn rid;
    distinct = λ r. Distinct-lock_shared lm txn rid r (c.distinct r);
    new_exclusive = λ r u h. inl (sym (exclusive-lock_shared lm txn rid r) ∙ h);
    new_shared = λ r u h. ground (arith, contain-lock_shared lm txn rid r u h, c.ids t);
  }
    where
      lm : LockManager
      lm = s.manager

      txn : Transaction
      txn = s.txn_of t

  exclusive-IsFair : (t : ℕ) (r : Rid) → IsFair s t (lock_exclusive s.manager (s.txn_of t) r)
  exclusive-IsFair t rid = record {
    grows = lock_exclusive-Grows lm txn rid;
    distinct = λ r. rw shared-lock_exclusive (c.distinct r);
    new_exclusive = λ r u h. found r u (exclusive-lock_exclusive lm txn rid r u h);
    new_shared = λ r u h. inl (rw shared-lock_exclusive at h);
  }
    where
      lm : LockManager
      lm = s.manager

      txn : Transaction
      txn = s.txn_of t

      found :
          (r : Rid) (u : ℕ)
          → (lm.exclusive_lock_table r ≡ some u)
            ⊎ ((rid ≡ r)
                × (txn.txn_id ≡ u)
                × (sharers lm r ≡ [])
                × (is_exclusive_locked (lock_exclusive lm txn rid).txn r ≡ true))
          → (lm.exclusive_lock_table r ≡ some u)
            ⊎ ((u ≡ t)
                × SoleSharer lm r t
                × (is_exclusive_locked (lock_exclusive lm txn rid).txn r ≡ true))
      found r u (inl h) = inl h
      found r u (inr h) = inr (sym h.1 ∙ c.ids t, (λ v k. absurd (not_shared lm r v h.2 k)), h.3)

  upgrade-IsFair :
      (t : ℕ) (rid : Rid) (reply : Reply)
      → lock_upgrade s.manager (s.txn_of t) rid ≡ returns reply
      → SoleSharer s.manager rid t
      → IsFair s t reply
  upgrade-IsFair t rid reply e sole = record {
    grows = lock_upgrade-Grows s.manager (s.txn_of t) rid reply e;
    distinct = λ r. rw (same r) (c.distinct r);
    new_exclusive =
        λ r u h. found r u (exclusive-lock_upgrade s.manager (s.txn_of t) rid reply r u e h);
    new_shared = λ r u h. inl (rw (same r) at h);
  }
    where
      same : (r : Rid) → reply.manager.shared_lock_table r ≡ s.manager.shared_lock_table r
      same r = shared-lock_upgrade s.manager (s.txn_of t) rid reply r e

      found :
          (r : Rid) (u : ℕ)
          → (s.manager.exclusive_lock_table r ≡ some u)
            ⊎ ((rid ≡ r) × ((s.txn_of t).txn_id ≡ u) × (is_exclusive_locked reply.txn r ≡ true))
          → (s.manager.exclusive_lock_table r ≡ some u)
            ⊎ ((u ≡ t) × SoleSharer s.manager r t × (is_exclusive_locked reply.txn r ≡ true))
      found r u (inl h) = inl h
      found r u (inr h) =
          inr (sym h.1 ∙ c.ids t, subst (λ k. SoleSharer s.manager k t) h.0 sole, h.2)

  release-IsConsistent :
      (t : ℕ) → IsConsistent (record s { manager = release_locks s.manager (s.txn_of t) })
  unfolding release_locks
  release-IsConsistent t = record {
    ids = c.ids;
    exclusion = λ r w h u k. c.exclusion r w ((shrinks r w).0 h) u ((shrinks r u).1 k);
    distinct = λ r. Distinct-unlock (s.txn_of t) s.manager _ r (c.distinct r);
    own_exclusive = λ r u h. c.own_exclusive r u ((shrinks r u).0 h);
    own_shared = λ r u h. c.own_shared r u ((shrinks r u).1 h);
  }
    where
      shrinks :
          (r : Rid) (u : ℕ)
          → ((release_locks s.manager (s.txn_of t)).exclusive_lock_table r ≡ some u
              → s.manager.exclusive_lock_table r ≡ some u)
            × (is_contain_txn_id (sharers (release_locks s.manager (s.txn_of t)) r) u ≡ true
                → is_contain_txn_id (sharers s.manager r) u ≡ true)
      shrinks r u = unlock_shrinks (s.txn_of t) s.manager _ r u

-- The system is consistent after every call, whichever transaction makes it.
pub Step-IsConsistent : {s u : System} → Step s u → IsConsistent s → IsConsistent u
Step-IsConsistent {s} (shared t r) c = answer-IsConsistent s t _ c (shared-IsFair s c t r)
Step-IsConsistent {s} (exclusive t r) c = answer-IsConsistent s t _ c (exclusive-IsFair s c t r)
Step-IsConsistent {s} (upgrade t r reply e sole) c =
    answer-IsConsistent s t reply c (upgrade-IsFair s c t r reply e sole)
Step-IsConsistent {s} (release t) c = release-IsConsistent s c t

start-IsConsistent : (mode : TwoPlMode) (policy : DeadlockMode) → IsConsistent (start mode policy)
unfolding new_lock_manager new_transaction is_contain_txn_id
start-IsConsistent mode policy = record {
  ids = λ t. refl;
  exclusion = λ r t h u k. cc;
  distinct = λ r. tt;
  own_exclusive = λ r t h. cc;
  own_shared = λ r t h. cc;
}

pub Reach-IsConsistent : {s u : System} → Reach s u → IsConsistent s → IsConsistent u
Reach-IsConsistent here c = c
Reach-IsConsistent (next reached step) c = Step-IsConsistent step (Reach-IsConsistent reached c)

-- In every state that calls of any transactions reach from empty tables (an upgrade being made when no
-- other transaction shares the record), the holder of an exclusive lock is the only transaction that
-- the shared table can name for the record, the shared entries have no duplicates, each transaction
-- keeps its number, and whatever the tables name a transaction for stands in its own lock sets.
pub lock_exclusion :
    (mode : TwoPlMode) (policy : DeadlockMode) (s : System)
    → Reach (start mode policy) s
    → IsConsistent s
lock_exclusion mode policy s reached = Reach-IsConsistent reached (start-IsConsistent mode policy)

-- Commit and abort release everything: after `releaseLocks` in a consistent system neither table
-- names the transaction for any record.
pub release_frees :
    (s : System) (t : ℕ) (r : Rid)
    → IsConsistent s
    → ((release_locks s.manager (s.txn_of t)).exclusive_lock_table r ≢ some t)
      × (is_contain_txn_id (sharers (release_locks s.manager (s.txn_of t)) r) t ≡ false)
unfolding release_locks is_shared_locked is_exclusive_locked
release_frees s t r c = (no_exclusive, no_shared)
  where
    txn : Transaction
    txn = s.txn_of t

    both : List Rid
    both = txn.exclusive_lock_set ++ txn.shared_lock_set

    no_exclusive : (unlock s.manager txn both).exclusive_lock_table r ≢ some t
    no_exclusive h =
        let gone = (exclusive-unlock txn s.manager both r (h ∙ ap some (sym (c.ids t)))).1 in
        ground (
          arith,
          gone,
          c.own_exclusive r t ((unlock_shrinks txn s.manager both r t).0 h),
          contains_rid-append_lists txn.exclusive_lock_set txn.shared_lock_set r,
        )

    no_shared : is_contain_txn_id (sharers (unlock s.manager txn both) r) t ≡ false
    no_shared = elim (Bool-cases (is_contain_txn_id (sharers (unlock s.manager txn both) r) t)) [
      | inr e ↦ e
      | inl e ↦
          let gone = (contain-unlock txn s.manager both r (c.distinct r) (rw (c.ids t) e)).1 in
          ground (
            arith,
            gone,
            c.own_shared r t ((unlock_shrinks txn s.manager both r t).1 e),
            contains_rid-append_lists txn.exclusive_lock_set txn.shared_lock_set r,
          )
    ]

-- `releaseLocks` for one transaction leaves every other transaction's locks as they were, exclusive
-- and shared, in any state of the tables.
pub release_keeps_others :
    (lm : LockManager) (txn : Transaction) (r : Rid) (u : ℕ)
    → u ≢ txn.txn_id
    → (((release_locks lm txn).exclusive_lock_table r ≡ some u)
        ↔ (lm.exclusive_lock_table r ≡ some u))
      × (is_contain_txn_id (sharers (release_locks lm txn) r) u
          ≡ is_contain_txn_id (sharers lm r) u)
unfolding release_locks
release_keeps_others lm txn r u h = unlock_others txn lm _ r u h
