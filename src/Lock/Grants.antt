-- ===== src/Lock/Grants.antt =====
-- When the calls of lock_manager.go grant, what a grant gives, and what a refusal leaves alone.
use samehada_db.Base.{
  ℕ, true, false, [], ◌∷◌, ◌++◌, none, some, arith, ◌≡◌, refl, ◌⊎◌, returns, ◌↔◌, panics, Option,
  Bool-cases, inl, inr, ◌==◌,
}
use samehada_db.Ids.{Rid, rid_eq, rid_eq_refl, update}
use samehada_db.Txn.{Transaction, is_shared_locked}
use samehada_db.Lock.{
  LockManager, Reply, remove_rid, is_contain_txn_id, lock_shared, lock_exclusive, lock_upgrade,
}
use samehada_db.Lock.Tables.{sharers, contain-append}

-- Nobody but `t` holds the record exclusively.
abbrev pub Unowned : LockManager → Rid → ℕ → Type 0
Unowned lm r t = (lm.exclusive_lock_table r ≡ none) ⊎ (lm.exclusive_lock_table r ≡ some t)

-- The tables let `t` read the record.
abbrev pub MayRead : LockManager → Rid → ℕ → Type 0
MayRead lm r t = (lm.exclusive_lock_table r ≡ some t) ⊎ (is_contain_txn_id (sharers lm r) t ≡ true)

-- The outcome of a request: a grant with what it gives, or a refusal that changes nothing.
abbrev pub Granted : LockManager → Transaction → Reply → Type 0 → Type 0
Granted lm txn reply gives =
    ((reply.granted ≡ true) × gives)
    ⊎ ((reply.granted ≡ false) × (reply.manager ≡ lm) × (reply.txn ≡ txn))

-- `LockShared`, by an aborted transaction as by any other and without waiting, grants exactly when no other transaction holds the record exclusively. A grant lets
-- the transaction read the record; a refusal changes neither the tables nor the transaction.
pub lock_shared_grants :
    (lm : LockManager) (txn : Transaction) (r : Rid)
    → (((lock_shared lm txn r).granted ≡ true) ↔ Unowned lm r txn.txn_id)
      × Granted lm txn (lock_shared lm txn r) (MayRead (lock_shared lm txn r).manager r txn.txn_id)
unfolding lock_shared update is_contain_txn_id
lock_shared_grants lm txn r = (
  ((λ h. ground arith), (λ h. ground arith)),
  ground (arith, rid_eq_refl r, contain-append (sharers lm r) txn.txn_id txn.txn_id),
)

-- `LockExclusive`, by an aborted transaction as by any other and without waiting, grants exactly when the transaction holds the record exclusively already, or
-- nobody does and nobody, itself included, shares it. After a grant the entry is the transaction's;
-- a refusal changes neither the tables nor the transaction.
pub lock_exclusive_grants :
    (lm : LockManager) (txn : Transaction) (r : Rid)
    → (((lock_exclusive lm txn r).granted ≡ true) ↔ (
        (lm.exclusive_lock_table r ≡ some txn.txn_id)
        ⊎ ((lm.exclusive_lock_table r ≡ none) × (sharers lm r ≡ []))))
      × Granted lm txn
          (lock_exclusive lm txn r)
          ((lock_exclusive lm txn r).manager.exclusive_lock_table r ≡ some txn.txn_id)
unfolding lock_exclusive update
lock_exclusive_grants lm txn r =
    (((λ h. ground arith), (λ h. ground arith)), ground (arith, rid_eq_refl r))

-- What `LockUpgrade` returns for a record of the transaction's shared set.
abbrev pub Upgrades : LockManager → Transaction → Rid → Reply → Type 0
Upgrades lm txn r reply =
    ((reply.granted ≡ true) ↔ Unowned lm r txn.txn_id)
    × (reply.manager.shared_lock_table ≡ lm.shared_lock_table)
    × ((k : Rid)
        → rid_eq r k ≡ false
        → reply.manager.exclusive_lock_table k ≡ lm.exclusive_lock_table k)
    × Granted lm txn reply (reply.manager.exclusive_lock_table r ≡ some txn.txn_id)

lock_upgrade-Upgrades :
    (lm : LockManager) (txn : Transaction) (r : Rid) (owner : Option ℕ)
    → lm.exclusive_lock_table r ≡ owner
    → is_shared_locked txn r ≡ true
    → (reply : Reply) × (lock_upgrade lm txn r ≡ returns reply) × Upgrades lm txn r reply
unfolding lock_upgrade update
lock_upgrade-Upgrades lm txn r (some owner) at shared = (
  record { granted = owner == txn.txn_id; manager = lm; txn = txn },
  simp (shared, at) refl,
  (((λ h. ground arith), (λ h. ground arith)), refl, (λ k other. refl), ground arith),
)
lock_upgrade-Upgrades lm txn r none at shared = (
  record {
    granted = true;
    manager = record lm {
      exclusive_lock_table = update lm.exclusive_lock_table r (some txn.txn_id);
    };
    txn = record txn {
      exclusive_lock_set = txn.exclusive_lock_set ++ r ∷ [];
      shared_lock_set = remove_rid txn.shared_lock_set r;
    };
  },
  simp (shared, at) refl,
  (
    ((λ h. inl at), (λ h. refl)),
    refl,
    (λ k other. ground (arith, other)),
    ground (arith, rid_eq_refl r),
  ),
)

-- `LockUpgrade`, by an aborted transaction as by any other and without waiting, panics where the record is
-- not in the shared set of the transaction, and else returns. It grants exactly when no other transaction
-- holds the record exclusively, whoever shares it; the shared table stays for every record, and the
-- exclusive one for every other record. After a grant the exclusive entry is the transaction's; a refusal
-- changes neither the tables nor the transaction.
pub lock_upgrade_grants :
    (lm : LockManager) (txn : Transaction) (r : Rid)
    → ((is_shared_locked txn r ≡ false) × (lock_upgrade lm txn r ≡ panics))
      ⊎ ((is_shared_locked txn r ≡ true)
          × ((reply : Reply) × (lock_upgrade lm txn r ≡ returns reply) × Upgrades lm txn r reply))
unfolding lock_upgrade
lock_upgrade_grants lm txn r = elim (Bool-cases (is_shared_locked txn r)) [
  | inr unshared ↦ inl (unshared, rw unshared refl)
  | inl shared ↦
      inr (shared, lock_upgrade-Upgrades lm txn r (lm.exclusive_lock_table r) refl shared)
]
